-- ===== src/Base/Masks.antt =====
-- Flags that are set in the low bits of an aligned address.
use Prim.Native.Nat.{ℕ, zero, suc, ◌+◌, ◌*◌, ◌/◌, ◌%◌, ◌≤◌, bit_or, bit_or-bitwise, digits, max}
use mathlib.Core.Path.{◌≡◌, refl, ◌∙◌}
use native.Mathlib.Omega.{arith}

-- The operation on binary digits behind `bit_or`.
abbrev or_digits : ℕ → ℕ → ℕ → ℕ
or_digits n a b = digits (λ c. c) max n a b

max_zero : (x : ℕ) → max x 0 ≡ x
max_zero x = omega arith

or_digits_zero : (n a : ℕ) → a ≤ n → or_digits n a 0 ≡ a
or_digits_zero zero a h = omega (arith, h)
or_digits_zero (suc n) zero h = refl
or_digits_zero (suc n) (suc a) h =
    rw (or_digits_zero n (suc a / 2) (omega (arith, h)), max_zero (suc a % 2)) (omega arith)

-- Two steps pass the two flags.
flags_set : (a : ℕ) → or_digits (suc (a * 4 + 3)) (suc (a * 4 + 3)) 3 ≡ suc (a * 4 + 3) + 3
flags_set a =
    let fuel : a * 4 + 3 ≡ suc (a * 4 + 2) = omega arith in
    let half : suc (a * 4 + 3) / 2 ≡ suc (a * 2 + 1) = omega arith in
    let low : suc (a * 4 + 3) % 2 ≡ 0 = omega arith in
    let low' : suc (a * 2 + 1) % 2 ≡ 0 = omega arith in
    let rest = or_digits_zero (a * 4 + 2) (suc (a * 2 + 1) / 2) (omega arith) in
    let two_steps : or_digits (a * 4 + 3) (suc (a * 4 + 3) / 2) 1 ≡ a * 2 + 3 =
      rw (half, fuel) (rw (rest, low') (omega arith)) in
    rw (two_steps, low) (omega arith)

pub bit_or-flags : (a : ℕ) → bit_or (a * 4) 3 ≡ a * 4 + 3
bit_or-flags zero = refl
bit_or-flags (suc a) =
    let e : suc a * 4 ≡ suc (a * 4 + 3) = omega arith in
    bit_or-bitwise (suc a * 4) 3 ∙ rw e (flags_set a)
