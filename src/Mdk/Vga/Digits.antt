-- ===== src/Mdk/Vga/Digits.antt =====
-- The digits that `print_int` writes, in the bases 10 and 16.
use native.Mathlib.Nat.{pow-suc, div-add-mod', div-lt_iff_lt-mul, mod-lt}
use bumbellbee_testing.Base.{
  ℕ, zero, suc, ◌+◌, ◌-◌, ◌*◌, ◌/◌, ◌%◌, ◌^◌, ◌≤◌, ◌<◌, ◌≡◌, ◌⊎◌, Bool, ◌&&◌, List, [], ◌∷◌, ◌++◌,
  All, arith, length, refl, ap, ltb, leb, ◌==◌, Bool-cases, inl, inr, ◌∙◌, if◌then◌else◌,
}
use bumbellbee_testing.Mdk.Vga.{Screen, digit, digits_loop, emit_all, print_int}

-- The value of a digit, and of a numeral behind a leading part.
abbrev pub value : ℕ → ℕ
value c = if ltb c b'a' then c - b'0' else c - b'a' + 10

abbrev pub numeral : ℕ → ℕ → List ℕ → ℕ
numeral base acc [] = acc
numeral base acc (d ∷ ds) = numeral base (acc * base + value d) ds

value-digit : (r : ℕ) → r < 16 → value (digit r) ≡ r
value-digit r h = ground arith

-- A character that stands for a digit of the base: one of 0 to 9, or of a to f.
abbrev pub IsDigit : ℕ → ℕ → Type 0
IsDigit base c = (((b'0' ≤ c) × (c ≤ b'9')) ⊎ ((b'a' ≤ c) × (c ≤ b'f'))) × (value c < base)

digit-IsDigit : (base r : ℕ) → base ≤ 16 → r < base → IsDigit base (digit r)
digit-IsDigit base r hi lt = elim (Bool-cases (ltb r 10)) [
  | inl decimal ↦ (
    rw decimal (inl (omega arith, ground (arith, decimal))),
    rw (value-digit r (omega (arith, hi, lt))) lt,
  )
  | inr letter ↦ (
    rw letter (inr (omega arith, ground (arith, letter, hi, lt))),
    rw (value-digit r (omega (arith, hi, lt))) lt,
  )
]

module _ (base : ℕ) (lo : 2 ≤ base) (hi : base ≤ 16) where
  rest-lt : (n bound : ℕ) → n < 2 * bound → n / base < bound
  rest-lt n bound h = (div-lt_iff_lt-mul (omega (arith, lo))).1 (grind arith)

  numeral-digits_loop :
      (fuel n : ℕ) (buf : List ℕ)
      → n < 2 ^ fuel
      → numeral base 0 (digits_loop fuel base n buf) ≡ numeral base n buf
  unfolding digits_loop
  numeral-digits_loop zero n buf h = let e : n ≡ 0 = omega arith in rw e
  numeral-digits_loop (suc fuel) n buf h = elim (Bool-cases (n == 0)) [
    | inl done ↦ let e : n ≡ 0 = ground arith in rw e
    | inr more ↦
        let small : n % base < 16 = omega (arith, mod-lt n {m = base} (omega (arith, lo))) in
        let split : n / base * base + value (digit (n % base)) ≡ n =
          rw (value-digit (n % base) small) (div-add-mod' n base) in
        rw more (
          numeral-digits_loop fuel (n / base) (digit (n % base) ∷ buf)
            (rest-lt n (2 ^ fuel) (omega (arith, pow-suc 2 fuel, h)))
          ∙ ap (λ m. numeral base m buf) split)
  ]

  length-digits_loop :
      (fuel n : ℕ) (buf : List ℕ) → length (digits_loop fuel base n buf) ≤ fuel + length buf
  unfolding digits_loop
  length-digits_loop zero n buf = omega arith
  length-digits_loop (suc fuel) n buf = elim (Bool-cases (n == 0)) [
    | inl done ↦ rw done (omega arith)
    | inr more ↦
        rw more (omega (arith, length-digits_loop fuel (n / base) (digit (n % base) ∷ buf)))
  ]

  digits_loop-IsDigit :
      (fuel n : ℕ) (buf : List ℕ)
      → All (IsDigit base) buf
      → All (IsDigit base) (digits_loop fuel base n buf)
  unfolding digits_loop
  digits_loop-IsDigit zero n buf all = all
  digits_loop-IsDigit (suc fuel) n buf all = elim (Bool-cases (n == 0)) [
    | inl done ↦ rw done all
    | inr more ↦
        let one = digit-IsDigit base (n % base) hi (mod-lt n {m = base} (omega (arith, lo))) in
        rw more (digits_loop-IsDigit fuel (n / base) (digit (n % base) ∷ buf) (one, all))
  ]

-- A 32-bit int in base 10 is read with its sign, and in base 16 as the pattern that it is.
abbrev pub is_minus : ℕ → ℕ → Bool
is_minus d base = leb (2 ^ 31) d && base == 10

abbrev pub sign : ℕ → ℕ → List ℕ
sign d base = if is_minus d base then b'-' ∷ [] else []

abbrev pub magnitude : ℕ → ℕ → ℕ
magnitude d base = if is_minus d base then 2 ^ 32 - d else d

abbrev pub IsBase : ℕ → Type 0
IsBase base = (base ≡ 10) ⊎ (base ≡ 16)

-- For a 32-bit int and the base 10 or 16, print_int writes the sign and then digits of the base, from 0
-- to 9 and from a to f, at most the 32 that its buffer holds, whose value is the magnitude of the int.
pub print_int_lem :
    (d base : ℕ) (s : Screen)
    → d < 2 ^ 32
    → IsBase base
    → (ds : List ℕ) × (print_int d base s ≡ emit_all (sign d base ++ ds) s)
      × (numeral base 0 ds ≡ magnitude d base)
      × (length ds ≤ 32)
      × All (IsDigit base) ds
unfolding print_int emit_all
print_int_lem d base s small b =
    let lo : 2 ≤ base = ground (arith, b) in
    let hi : base ≤ 16 = ground (arith, b) in
    elim (Bool-cases (d == 0)) [
      | inl none_left ↦
          let e : d ≡ 0 = ground (arith, none_left) in
          (
            b'0' ∷ [],
            rw e refl,
            rw e (omega arith),
            omega arith,
            (digit-IsDigit base 0 hi (omega (arith, lo)), tt),
          )
      | inr some_left ↦ elim (Bool-cases (is_minus d base)) [
        | inl minus ↦
            let m = (2 ^ 32 - d) % 2 ^ 32 in
            let e : m ≡ 2 ^ 32 - d = ground (arith, small, minus) in
            (
              digits_loop 32 base m [],
              rw (some_left, minus) refl,
              rw minus (numeral-digits_loop base lo hi 32 m [] (omega arith) ∙ e),
              omega (arith, length-digits_loop base lo hi 32 m []),
              digits_loop-IsDigit base lo hi 32 m [] tt,
            )
        | inr plus ↦ (
          digits_loop 32 base d [],
          rw (some_left, plus) refl,
          rw plus (numeral-digits_loop base lo hi 32 d [] (omega (arith, small))),
          omega (arith, length-digits_loop base lo hi 32 d []),
          digits_loop-IsDigit base lo hi 32 d [] tt,
        )
      ]
    ]
