-- ===== src/Modular/Screen/Text.antt =====
-- Where the text of `kprint` goes.
use bumbellbee_testing.Base.{
  ℕ, zero, suc, ◌+◌, ◌*◌, ◌%◌, ◌^◌, ◌<◌, ◌≤◌, ◌≡◌, ◌⊎◌, inl, List, [], ◌∷◌, arith, refl, ◌∙◌,
  get_or, length, ==_ne, ==_refl,
}
use bumbellbee_testing.Modular.Screen.{Screen, put_byte, kprint, kprint_newline}

put_char : ℕ → Screen → Screen
put_char c s = put_byte 0x07 (put_byte c s)

-- A character, its attribute, and the cursor behind them.
put_char-loc :
    (c : ℕ) (s : Screen)
    → s.current_loc + 2 < 2 ^ 32
    → (put_char c s).current_loc ≡ s.current_loc + 2
unfolding put_char
put_char-loc c s h = omega (arith, h)

put_char-same :
    (c : ℕ) (s : Screen) (j : ℕ)
    → s.current_loc + 2 < 2 ^ 32
    → (j < s.current_loc) ⊎ (s.current_loc + 2 ≤ j)
    → (put_char c s).vidptr j ≡ s.vidptr j
unfolding put_char
put_char-same c s j h out =
    rw
      (
        ==_ne j ((s.current_loc + 1) % 2 ^ 32) (omega (arith, h, out)),
        ==_ne j s.current_loc (omega (arith, h, out)),
      )
      refl

put_char-char :
    (c : ℕ) (s : Screen) → s.current_loc + 2 < 2 ^ 32 → (put_char c s).vidptr s.current_loc ≡ c
unfolding put_char
put_char-char c s h =
    rw
      (==_ne s.current_loc ((s.current_loc + 1) % 2 ^ 32) (omega (arith, h)), ==_refl s.current_loc)
      refl

put_char-attribute :
    (c : ℕ) (s : Screen)
    → s.current_loc + 2 < 2 ^ 32
    → (put_char c s).vidptr (s.current_loc + 1) ≡ 0x07
unfolding put_char
put_char-attribute c s h =
    let e : (s.current_loc + 1) % 2 ^ 32 ≡ s.current_loc + 1 = omega (arith, h) in
    rw (e, ==_refl (s.current_loc + 1)) refl

-- `t` shows the text from the cursor of `s` on, with the plain attribute, and nothing else changed.
pub record Shows (str : List ℕ) (s t : Screen) : Type 0 where
  pub cursor : t.current_loc ≡ s.current_loc + 2 * length str
  pub chars : (i : ℕ) → i < length str → t.vidptr (s.current_loc + 2 * i) ≡ get_or str i 0
  pub attributes : (i : ℕ) → i < length str → t.vidptr (s.current_loc + 2 * i + 1) ≡ 0x07
  pub others :
      (j : ℕ) → (j < s.current_loc) ⊎ (s.current_loc + 2 * length str ≤ j) → t.vidptr j ≡ s.vidptr j

-- If the text ends below 2^32, kprint writes the characters from the cursor on, each followed by the
-- attribute 7, moves the cursor behind them and changes no other byte.
pub kprint_lem :
    (str : List ℕ) (s : Screen)
    → s.current_loc + 2 * length str < 2 ^ 32
    → Shows str s (kprint str s)
unfolding kprint put_char
kprint_lem [] s h = record {
  cursor = omega arith;
  chars = λ i lt. absurd (omega (arith, lt));
  attributes = λ i lt. absurd (omega (arith, lt));
  others = λ j out. refl;
}
kprint_lem (c ∷ str) s h =
    let room : s.current_loc + 2 < 2 ^ 32 = omega (arith, h) in
    let s' = put_char c s in
    let moved : s'.current_loc ≡ s.current_loc + 2 = put_char-loc c s room in
    let later = kprint_lem str s' (omega (arith, h, moved)) in
    record {
      cursor = omega (arith, later.cursor, moved);
      chars = chars room moved later;
      attributes = attributes room moved later;
      others = λ j out.
          later.others j (omega (arith, out, moved))
          ∙ put_char-same c s j room (omega (arith, out));
    }
  where
    chars :
        s.current_loc + 2 < 2 ^ 32
        → (put_char c s).current_loc ≡ s.current_loc + 2
        → Shows str (put_char c s) (kprint str (put_char c s))
        → (i : ℕ) → i < suc (length str)
        → (kprint str (put_char c s)).vidptr (s.current_loc + 2 * i) ≡ get_or (c ∷ str) i 0
    chars room moved later zero lt =
        let e : s.current_loc + 2 * 0 ≡ s.current_loc = omega arith in
        rw e (later.others s.current_loc (inl (omega (arith, moved))) ∙ put_char-char c s room)
    chars room moved later (suc i) lt =
        let e : s.current_loc + 2 * suc i ≡ (put_char c s).current_loc + 2 * i =
          omega (arith, moved) in
        rw e (later.chars i (omega (arith, lt)))

    attributes :
        s.current_loc + 2 < 2 ^ 32
        → (put_char c s).current_loc ≡ s.current_loc + 2
        → Shows str (put_char c s) (kprint str (put_char c s))
        → (i : ℕ) → i < suc (length str)
        → (kprint str (put_char c s)).vidptr (s.current_loc + 2 * i + 1) ≡ 0x07
    attributes room moved later zero lt =
        let e : s.current_loc + 2 * 0 + 1 ≡ s.current_loc + 1 = omega arith in
        rw e (
          later.others (s.current_loc + 1) (inl (omega (arith, moved)))
          ∙ put_char-attribute c s room)
    attributes room moved later (suc i) lt =
        let e : s.current_loc + 2 * suc i + 1 ≡ (put_char c s).current_loc + 2 * i + 1 =
          omega (arith, moved) in
        rw e (later.attributes i (omega (arith, lt)))

-- From a cursor below 2^32 - 160, kprint_newline moves the cursor to the start of the next line of
-- 160 bytes and writes nothing.
pub kprint_newline_lem :
    (s : Screen)
    → s.current_loc + 160 < 2 ^ 32
    → ((kprint_newline s).current_loc % 160 ≡ 0)
      × (s.current_loc < (kprint_newline s).current_loc)
      × ((kprint_newline s).current_loc ≤ s.current_loc + 160)
      × ((kprint_newline s).vidptr ≡ s.vidptr)
unfolding kprint_newline
kprint_newline_lem s h = (omega (arith, h), omega (arith, h), omega (arith, h), refl)
