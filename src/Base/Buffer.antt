-- ===== src/Base/Buffer.antt =====
-- A line of text at the start of a buffer: what a write, a shorter line and a terminator leave.
use Prim.Native.Nat.{ℕ, zero, suc, ◌+◌, ◌-◌, ◌<◌, ◌≤◌}
use mathlib.Core.Path.{◌≡◌, refl, ap, ◌∙◌}
use mathlib.Core.Bool.{false}
use mathlib.Core.List.{List, [], ◌∷◌, ◌++◌}
use native.Mathlib.Omega.{arith}
use bumbellbee_testing.Base.Lists.{All, All-snoc, length, length-set, set, take}
use bumbellbee_testing.Base.Tests.{ltb}
use bumbellbee_testing.Base.Text.{Byte, Letter, c_string}

module _ {ℓ} {A : Type ℓ} where
  pub length-take_le : (n : ℕ) (xs : List A) → n ≤ length xs → length (take n xs) ≡ n
  length-take_le zero xs h = refl
  length-take_le (suc n) [] h = absurd (omega arith)
  length-take_le (suc n) (x ∷ xs) h = ap suc (length-take_le n xs (omega arith))

  pub take-set : (n : ℕ) (xs : List A) (v : A) → take n (set xs n v) ≡ take n xs
  take-set zero xs v = refl
  take-set (suc n) [] v = refl
  take-set (suc n) (x ∷ xs) v = ap (λ r. x ∷ r) (take-set n xs v)

  pub take-suc-set :
      (n : ℕ) (xs : List A) (v : A)
      → n < length xs
      → take (suc n) (set xs n v) ≡ take n xs ++ (v ∷ [])
  take-suc-set n [] v h = absurd (omega arith)
  take-suc-set zero (x ∷ xs) v h = refl
  take-suc-set (suc n) (x ∷ xs) v h = ap (λ r. x ∷ r) (take-suc-set n xs v (omega arith))

  -- The line without its last character.
  abbrev pub drop_last : List A → List A
  drop_last [] = []
  drop_last (x ∷ []) = []
  drop_last (x ∷ (y ∷ xs)) = x ∷ drop_last (y ∷ xs)

  take-drop_last : (n : ℕ) (xs : List A) → n < length xs → take n xs ≡ drop_last (take (suc n) xs)
  take-drop_last n [] h = absurd (omega arith)
  take-drop_last zero (x ∷ xs) h = refl
  take-drop_last (suc n) (x ∷ []) h = absurd (omega arith)
  take-drop_last (suc n) (x ∷ (y ∷ xs)) h =
      ap (λ r. x ∷ r) (take-drop_last n (y ∷ xs) (omega arith))

  pub All-set : (P : A → Type 0) (xs : List A) (n : ℕ) (v : A) → P v → All P xs → All P (set xs n v)
  All-set P [] n v p h = tt
  All-set P (x ∷ xs) zero v p h = (p, h.1)
  All-set P (x ∷ xs) (suc n) v p h = (h.0, All-set P xs n v p h.1)

  pub All-drop_last : (P : A → Type 0) (xs : List A) → All P xs → All P (drop_last xs)
  All-drop_last P [] h = tt
  All-drop_last P (x ∷ []) h = tt
  All-drop_last P (x ∷ (y ∷ xs)) h = (h.0, All-drop_last P (y ∷ xs) h.1)

-- A terminator behind the line makes the buffer read as the line.
pub c_string-set :
    (n : ℕ) (xs : List ℕ)
    → n < length xs
    → All Letter (take n xs)
    → c_string (set xs n 0) ≡ take n xs
unfolding c_string
c_string-set n [] h l = absurd (omega arith)
c_string-set zero (x ∷ xs) h l = refl
c_string-set (suc n) (x ∷ xs) h l = ground (arith, c_string-set n xs (omega arith) l.1)

pub shorter_line : (n : ℕ) (xs : List ℕ) → n ≤ length xs → take (n - 1) xs ≡ drop_last (take n xs)
shorter_line zero xs h = refl
shorter_line (suc n) xs h =
    let e : suc n - 1 ≡ n = omega arith in rw e (take-drop_last n xs (omega arith))

pub bare_line : (n : ℕ) (xs : List ℕ) → ltb 0 n ≡ false → take n xs ≡ drop_last (take n xs)
bare_line zero xs h = refl
bare_line (suc n) xs h = absurd (ground arith)

-- A line of nonzero bytes at the start of a buffer of 256 bytes, with room for its terminator.
pub record Line (buffer : List ℕ) (len : ℕ) : Type 0 where
  pub room : length buffer ≡ 256
  pub short : len ≤ 255
  pub bytes : All Byte buffer
  pub letters : All Letter (take len buffer)

module _ (buffer : List ℕ) (len : ℕ) (l : Line buffer len) where
  pub length-line : length (take len buffer) ≡ len
  length-line = length-take_le len buffer (omega (arith, l.room, l.short))

  pub cut-Line : Line buffer (len - 1) × (take (len - 1) buffer ≡ drop_last (take len buffer))
  cut-Line =
      let cut = shorter_line len buffer (omega (arith, l.room, l.short)) in
      (
        record {
          room = l.room;
          short = omega (arith, l.short);
          bytes = l.bytes;
          letters = rw cut (All-drop_last Letter (take len buffer) l.letters);
        },
        cut,
      )

  pub append-Line :
      (c : ℕ)
      → Letter c
      → len < 255
      → Line (set buffer len c) (len + 1)
        × (take (len + 1) (set buffer len c) ≡ take len buffer ++ (c ∷ []))
  append-Line c char room =
      let next : len + 1 ≡ suc len = omega arith in
      let grown : take (len + 1) (set buffer len c) ≡ take len buffer ++ (c ∷ []) =
        rw next (take-suc-set len buffer c (omega (arith, l.room, l.short))) in
      (
        record {
          room = length-set buffer len c ∙ l.room;
          short = omega (arith, room);
          bytes = All-set Byte buffer len c char.1 l.bytes;
          letters = rw grown (All-snoc Letter (take len buffer) c char l.letters);
        },
        grown,
      )

  -- The terminator makes the buffer read as the line, and the next line starts empty.
  pub end-Line : Line (set buffer len 0) 0 × (c_string (set buffer len 0) ≡ take len buffer)
  end-Line = (
    record {
      room = length-set buffer len 0 ∙ l.room;
      short = omega arith;
      bytes = All-set Byte buffer len 0 (omega arith) l.bytes;
      letters = tt;
    },
    c_string-set len buffer (omega (arith, l.room, l.short)) l.letters,
  )
