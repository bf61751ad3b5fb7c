-- ===== src/Modular/Screen/Clear.antt =====
-- The cleared screen, and the banner that a kernel prints on it.
use bumbellbee_testing.Base.{
  ℕ, zero, suc, ◌+◌, ◌*◌, ◌%◌, ◌<◌, ◌≤◌, ◌≡◌, ◌⊎◌, inl, inr, List, arith, refl, ap, sym, ◌∙◌,
  get_or, length, ==_ne, ==_refl, ltb, Bool-cases,
}
use bumbellbee_testing.Modular.Screen.{Screen, kprint, kprint_newline, blank, clear_screen}
use bumbellbee_testing.Modular.Screen.Text.{kprint_lem, kprint_newline_lem}

blank_same :
    (n i : ℕ) (vidptr : ℕ → ℕ) (j : ℕ) → (j < i) ⊎ (i + 2 * n ≤ j) → blank n i vidptr j ≡ vidptr j
unfolding blank
blank_same zero i vidptr j out = refl
blank_same (suc n) i vidptr j out =
    blank_same n (i + 2) _ j (omega (arith, out))
    ∙ rw (==_ne j (i + 1) (omega (arith, out)), ==_ne j i (omega (arith, out))) refl

blank_cell :
    (n i : ℕ) (vidptr : ℕ → ℕ) (k : ℕ)
    → k < n
    → (blank n i vidptr (i + 2 * k) ≡ b' ') × (blank n i vidptr (i + 2 * k + 1) ≡ 0x07)
unfolding blank
blank_cell zero i vidptr k lt = absurd (omega (arith, lt))
blank_cell (suc n) i vidptr zero lt =
    let first : i + 2 * 0 ≡ i = omega arith in
    let second : i + 2 * 0 + 1 ≡ i + 1 = omega arith in
    (
      rw first (
          blank_same n (i + 2) _ i (omega arith)
          ∙ rw (==_ne i (i + 1) (omega arith), ==_refl i) refl),
      rw second (blank_same n (i + 2) _ (i + 1) (omega arith) ∙ rw (==_refl (i + 1)) refl),
    )
blank_cell (suc n) i vidptr (suc k) lt =
    let e : i + 2 * suc k ≡ (i + 2) + 2 * k = omega arith in
    rw e (blank_cell n (i + 2) _ k (omega (arith, lt)))

clear_cell :
    (s : Screen) (k : ℕ)
    → k < 2000
    → ((clear_screen s).vidptr (2 * k) ≡ b' ') × ((clear_screen s).vidptr (2 * k + 1) ≡ 0x07)
unfolding clear_screen
clear_cell s k lt =
    let e : 0 + 2 * k ≡ 2 * k = omega arith in
    let cell = blank_cell 2000 0 s.vidptr k lt in
    (
      ap (blank 2000 0 s.vidptr) (sym e) ∙ cell.0,
      ap (λ j. blank 2000 0 s.vidptr (j + 1)) (sym e) ∙ cell.1,
    )

clear-loc : (s : Screen) → (clear_screen s).current_loc ≡ s.current_loc
unfolding clear_screen
clear-loc s = refl

-- A screen with nothing but one text from its start on, and the cursor at the start of a line.
pub record Banner (str : List ℕ) (t : Screen) : Type 0 where
  pub chars : (k : ℕ) → k < length str → t.vidptr (2 * k) ≡ get_or str k 0
  pub blanks : (k : ℕ) → length str ≤ k → k < 2000 → t.vidptr (2 * k) ≡ b' '
  pub attributes : (k : ℕ) → k < 2000 → t.vidptr (2 * k + 1) ≡ 0x07
  pub line_start : t.current_loc % 160 ≡ 0
  pub behind : 2 * length str < t.current_loc

abbrev pub start_screen : List ℕ → Screen → Screen
start_screen str s = kprint_newline (kprint_newline (kprint str (clear_screen s)))

pub start_screen-Banner :
    (str : List ℕ) (s : Screen)
    → s.current_loc ≡ 0
    → length str < 2000
    → Banner str (start_screen str s)
start_screen-Banner str s zero_loc short =
    let bare = clear_screen s in
    let zero_loc : bare.current_loc ≡ 0 = clear-loc s ∙ zero_loc in
    let shows = kprint_lem str bare (omega (arith, zero_loc, short)) in
    let printed = kprint str bare in
    let here : printed.current_loc ≡ 2 * length str = omega (arith, shows.cursor, zero_loc) in
    let line = kprint_newline_lem printed (omega (arith, here, short)) in
    let second = kprint_newline_lem (kprint_newline printed) (omega (arith, here, short, line.2)) in
    let kept : (start_screen str s).vidptr ≡ printed.vidptr = second.3 ∙ line.3 in
    record {
      chars = λ k lt.
          let e : bare.current_loc + 2 * k ≡ 2 * k = omega (arith, zero_loc) in
          ap (λ v. v (2 * k)) kept ∙ (ap printed.vidptr (sym e) ∙ shows.chars k lt);
      blanks = λ k lo hi.
          ap (λ v. v (2 * k)) kept
          ∙ (shows.others (2 * k) (inr (omega (arith, zero_loc, lo))) ∙ (clear_cell s k hi).0);
      attributes = λ k lt. ap (λ v. v (2 * k + 1)) kept ∙ elim (Bool-cases (ltb k (length str))) [
        | inl found ↦
            let inside : k < length str = ground (arith, found) in
            let e : bare.current_loc + 2 * k + 1 ≡ 2 * k + 1 = omega (arith, zero_loc) in
            ap printed.vidptr (sym e) ∙ shows.attributes k inside
        | inr past ↦
            let outside : length str ≤ k = ground (arith, past) in
            shows.others (2 * k + 1) (inr (omega (arith, zero_loc, outside)))
            ∙ (clear_cell s k lt).1
      ];
      line_start = second.0;
      behind = omega (arith, here, line.1, second.1);
    }
