-- ===== src/Research/Core/Number.antt =====
-- What `print_num` puts on the screen, and the reported percentage.
use native.Mathlib.Nat.{pow-suc}
use bumbellbee_testing.Base.{
  ℕ, zero, suc, ◌+◌, ◌-◌, ◌*◌, ◌/◌, ◌%◌, ◌^◌, ◌≤◌, ◌<◌, ◌≡◌, List, [], ◌∷◌, arith, All, length,
  ◌==◌, Bool-cases, inl, inr, ◌∙◌,
}
use bumbellbee_testing.Research.Core.{Core, digits_loop, putc_all, print_num, saved}

-- The number that decimal digits stand for, behind a leading part `acc`.
abbrev pub decimal : ℕ → List ℕ → ℕ
decimal acc [] = acc
decimal acc (d ∷ ds) = decimal (acc * 10 + (d - b'0')) ds

abbrev pub Digit : ℕ → Type 0
Digit d = (b'0' ≤ d) × (d ≤ b'9')

decimal-digits_loop :
    (fuel n : ℕ) (buf : List ℕ) → n < 10 ^ fuel → decimal 0 (digits_loop fuel n buf) ≡ decimal n buf
unfolding digits_loop
decimal-digits_loop zero n buf h = let e : n ≡ 0 = omega arith in rw e
decimal-digits_loop (suc fuel) n buf h = elim (Bool-cases (n == 0)) [
  | inl done ↦ let e : n ≡ 0 = ground arith in rw e
  | inr more ↦
      let split : n / 10 * 10 + (n % 10 + b'0' - b'0') ≡ n = omega arith in
      rw more (
        decimal-digits_loop fuel (n / 10) ((n % 10 + b'0') ∷ buf) (omega (arith, pow-suc 10 fuel))
        ∙ rw split)
]

digits_loop-Digit : (fuel n : ℕ) (buf : List ℕ) → All Digit buf → All Digit (digits_loop fuel n buf)
unfolding digits_loop
digits_loop-Digit zero n buf h = h
digits_loop-Digit (suc fuel) n buf h = elim (Bool-cases (n == 0)) [
  | inl done ↦ rw done h
  | inr more ↦
      rw more
        (digits_loop-Digit fuel (n / 10) ((n % 10 + b'0') ∷ buf) ((omega arith, omega arith), h))
]

length-digits_loop :
    (fuel n : ℕ) (buf : List ℕ) → length (digits_loop fuel n buf) ≤ fuel + length buf
unfolding digits_loop
length-digits_loop zero n buf = omega arith
length-digits_loop (suc fuel) n buf = elim (Bool-cases (n == 0)) [
  | inl done ↦ rw done (omega arith)
  | inr more ↦ rw more (omega (arith, length-digits_loop fuel (n / 10) ((n % 10 + b'0') ∷ buf)))
]

-- For a 64-bit number, print_num writes at most 20 characters, all decimal digits, whose value
-- is the number.
print_num_lem :
    (n : ℕ) (c : Core)
    → n < 2 ^ 64
    → (ds : List ℕ) × (print_num n c ≡ putc_all ds c)
      × (decimal 0 ds ≡ n)
      × All Digit ds
      × (length ds ≤ 20)
unfolding print_num putc_all
print_num_lem n c h = elim (Bool-cases (n == 0)) [
  | inl done ↦ (b'0' ∷ [], rw done, ground arith, ((omega arith, omega arith), tt), omega arith)
  | inr more ↦ (
    digits_loop 20 n [],
    rw more,
    decimal-digits_loop 20 n [] (omega arith),
    digits_loop-Digit 20 n [] tt,
    omega (arith, length-digits_loop 20 n []),
  )
]

div-le : (a b t : ℕ) → 0 < t → a ≤ b * t → a / t ≤ b
div-le a b t pos h = grind arith

-- If a hundred times the number of events is below 2^64, the share reported as saved is at most
-- 100.
saved-le : (c : Core) → c.metric_total_events * 100 < 2 ^ 64 → saved c ≤ 100
unfolding saved
saved-le c h = ground (
  arith,
  div-le ((c.metric_total_events - c.metric_wakeups) * 100 % 2 ^ 64) 100 c.metric_total_events,
)
