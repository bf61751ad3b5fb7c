-- ===== src/Research/Shell/Line.antt =====
-- The shell against an abstract line editor: a line of text and the current mode.
use mathlib.Core.Bool.{true≢false}
use bumbellbee_testing.Base.Text.{codes, Byte, Letter}
use bumbellbee_testing.Base.{
  All-snoc, ℕ, zero, suc, ◌+◌, ◌-◌, ◌≤◌, ◌≡◌, Bool, true, false, ◌||◌, List, [], ◌∷◌, ◌++◌, All,
  arith, ◌==◌, Bool-cases, inl, inr, if◌then◌else◌, refl, ap, sym, ◌∙◌, set, length, take,
  length-set, ltb,
}
use bumbellbee_testing.Base.Buffer.{
  shorter_line, bare_line, length-take_le, take-suc-set, drop_last, All-set, All-drop_last,
  c_string-set,
}
use bumbellbee_testing.Research.Core.{PowerMode, Core, newline, print}
use bumbellbee_testing.Research.Core.Io.{IoValid}
use bumbellbee_testing.Research.Shell.{execute_command, shell_handle_key}
use bumbellbee_testing.Research.Shell.Commands.{
  mode_of, dispatch-Ran, actions, act, run_word, dispatch_lem,
}

-- What has been typed on the current line.
abbrev pub typed : Core → List ℕ
typed c = take c.cmdlen c.cmdbuf

pub record LineValid (c : Core) : Type 0 where
  pub room : length c.cmdbuf ≡ 256
  pub short : c.cmdlen ≤ 255
  pub bytes : All Byte c.cmdbuf
  pub letters : All Letter (typed c)

abbrev pub is_enter : ℕ → Bool
is_enter key = key == b'\n' || key == b'\r'

-- The abstract editor: Enter starts a new line, backspace drops the last character, and a character
-- is appended while there is room.
abbrev pub edit : ℕ → List ℕ → List ℕ
edit key line =
    if is_enter key
    then []
    else if key == 8
    then drop_last line
    else if ltb (length line) 255
    then line ++ (key ∷ [])
    else line

-- The line is ended, and then, behind its command, a new one starts.
abbrev pub ended : Core → Core
ended c = newline (record c { cmdbuf = set c.cmdbuf c.cmdlen 0 })

abbrev pub prompted : Core → Core
prompted c = print (codes "YieldOS> ") (record c { cmdlen = 0 })

-- What a key leaves behind: Enter calls exactly the function of the word, and any other key changes
-- nothing but the line.
pub record Refined (key : ℕ) (c d : Core) : Type 0 where
  pub line : typed d ≡ edit key (typed c)
  pub ran : is_enter key ≡ true → d ≡ prompted (run_word (typed c) (ended c))
  pub rest : is_enter key ≡ false → d ≡ record c { cmdbuf = d.cmdbuf; cmdlen = d.cmdlen }
  pub mode :
      d.current_mode ≡ (if is_enter key then mode_of (typed c) c.current_mode else c.current_mode)
  pub valid : LineValid d
  pub io : IoValid d

-- The test for an empty line changes nothing: an empty word leaves the mode alone.
blank :
    (n : ℕ) (xs : List ℕ) (m : PowerMode)
    → (if n == 0 then m else mode_of (take n xs) m) ≡ mode_of (take n xs) m
blank zero xs m = refl
blank (suc n) xs m = let e : (suc n == 0) ≡ false = ground arith in rw e

word_called :
    (n : ℕ) (xs : List ℕ) (c : Core)
    → n ≤ length xs
    → (if n == 0 then c else act actions (take n xs) c) ≡ run_word (take n xs) c
word_called zero xs c h = refl
word_called (suc n) [] c h = absurd (omega (arith, h))
word_called (suc n) (x ∷ xs) c h = let e : (suc n == 0) ≡ false = ground arith in rw e refl

module _ (c : Core) (v : LineValid c) (w : IoValid c) where
  abbrev terminated : Core
  terminated = ended c

  execute-Refined : (key : ℕ) → is_enter key ≡ true → Refined key c (execute_command c)
  unfolding execute_command
  execute-Refined key e =
      let bytes = All-set Byte c.cmdbuf c.cmdlen 0 (omega arith) v.bytes in
      let io : IoValid terminated = record {
        room = w.room;
        few = w.few;
        accounted = w.accounted;
      } in
      let ran = dispatch-Ran terminated io bytes in
      let read = c_string-set c.cmdlen c.cmdbuf (omega (arith, v.room, v.short)) v.letters in
      let called =
        dispatch_lem terminated bytes
        ∙ ap (λ word. if c.cmdlen == 0 then terminated else act actions word terminated) read
        ∙ word_called c.cmdlen c.cmdbuf terminated (omega (arith, v.room, v.short)) in
      record {
        line = rw e;
        ran = λ h. ap prompted called;
        rest = λ h. absurd (true≢false (sym e ∙ h));
        mode = rw e (ran.mode ∙ rw read (blank c.cmdlen c.cmdbuf c.current_mode));
        valid = record {
          room = ap length ran.buf ∙ length-set c.cmdbuf c.cmdlen 0 ∙ v.room;
          short = omega arith;
          bytes = rw ran.buf bytes;
          letters = tt;
        };
        io = record { room = ran.io.room; few = ran.io.few; accounted = ran.io.accounted };
      }

  backspace-Refined : Refined 8 c (if ltb 0 c.cmdlen then record c { cmdlen = c.cmdlen - 1 } else c)
  backspace-Refined = elim (Bool-cases (ltb 0 c.cmdlen)) [
    | inr bare ↦ rw bare (record {
      line = bare_line c.cmdlen c.cmdbuf bare;
      ran = λ h. absurd (true≢false (sym h));
      rest = λ h. refl;
      mode = refl;
      valid = v;
      io = w;
    })
    | inl filled ↦
        let cut = shorter_line c.cmdlen c.cmdbuf (omega (arith, v.room, v.short)) in
        rw filled (record {
          line = cut;
          ran = λ h. absurd (true≢false (sym h));
          rest = λ h. refl;
          mode = refl;
          valid = record {
            room = v.room;
            short = omega (arith, v.short);
            bytes = v.bytes;
            letters = rw cut (All-drop_last Letter (typed c) v.letters);
          };
          io = record { room = w.room; few = w.few; accounted = w.accounted };
        })
  ]

  plain-Refined :
      (key : ℕ)
      → is_enter key ≡ false
      → (key == 8) ≡ false
      → Letter key
      → Refined key c (
          if ltb c.cmdlen 255
          then record c { cmdbuf = set c.cmdbuf c.cmdlen key; cmdlen = c.cmdlen + 1 }
          else c)
  plain-Refined key e b l =
      let size = length-take_le c.cmdlen c.cmdbuf (omega (arith, v.room, v.short)) in
      elim (Bool-cases (ltb c.cmdlen 255)) [
        | inr full ↦ rw full (record {
          line = rw (e, b, size, full);
          ran = λ h. absurd (true≢false (sym h ∙ e));
          rest = λ h. refl;
          mode = rw e;
          valid = v;
          io = w;
        })
        | inl room ↦
            let next : c.cmdlen + 1 ≡ suc c.cmdlen = omega arith in
            let grown : take (c.cmdlen + 1) (set c.cmdbuf c.cmdlen key) ≡ typed c ++ (key ∷ []) =
              rw next (take-suc-set c.cmdlen c.cmdbuf key (omega (arith, v.room, v.short))) in
            rw room (record {
              line = rw (e, b, size, room) grown;
              ran = λ h. absurd (true≢false (sym h ∙ e));
              rest = λ h. refl;
              mode = rw e;
              valid = record {
                room = length-set c.cmdbuf c.cmdlen key ∙ v.room;
                short = ground arith;
                bytes = All-set Byte c.cmdbuf c.cmdlen key l.1 v.bytes;
                letters = rw grown (All-snoc Letter (typed c) key l v.letters);
              };
              io = record { room = w.room; few = w.few; accounted = w.accounted };
            })
      ]

-- For a nonzero byte and a valid state, shell_handle_key refines the abstract line editor: Enter ends the
-- line, calls exactly the function of the word on it, or shows the word as unknown, and empties the
-- line; backspace drops the last character, any other key is appended while there is room, and neither
-- changes anything but the line; the mode is the word's and the state stays valid.
pub shell_refines :
    (key : ℕ) (c : Core)
    → Letter key
    → LineValid c
    → IoValid c
    → Refined key c (shell_handle_key key c)
unfolding shell_handle_key
shell_refines key c l v w = elim (Bool-cases (is_enter key)) [
  | inl enter ↦ rw enter (execute-Refined c v w key enter)
  | inr other ↦ elim (Bool-cases (key == 8)) [
    | inl back ↦ let e : key ≡ 8 = ground arith in rw e (backspace-Refined c v w)
    | inr plain ↦ rw (other, plain) (plain-Refined c v w key other plain l)
  ]
]
