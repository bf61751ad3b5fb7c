-- ===== src/Base/Bytes.antt =====
-- Facts about the bits of a byte, by evaluation over all bytes.
use Prim.Native.Nat.{ℕ, zero, suc, ◌-◌, ◌^◌, ◌<◌, ◌%◌, bit_and, bit_or}
use mathlib.Core.Path.{◌≡◌, refl}
use mathlib.Core.Bool.{Bool, true, false, not, ◌&&◌, ◌||◌}
use native.Mathlib.Omega.{arith}
use mathlib.Core.Logic.{inl, inr}
use bumbellbee_testing.Base.Tests.{leb, ◌==◌, ==_iff, Bool-cases}

-- Whether two bits are the same, and whether two tests agree on the numbers below a bound.
abbrev pub same : Bool → Bool → Bool
same true c = c
same false c = not c

unfoldable pub agree : (ℕ → Bool) → (ℕ → Bool) → ℕ → Bool
agree f g zero = true
agree f g (suc bound) = same (f bound) (g bound) && agree f g bound

same_sound : (b c : Bool) → same b c ≡ true → b ≡ c
same_sound true c h = ground arith
same_sound false c h = ground arith

-- Tests that agree below the bound give the same answer at each number below it.
pub agree_at : (f g : ℕ → Bool) (bound i : ℕ) → i < bound → agree f g bound ≡ true → f i ≡ g i
unfolding agree
agree_at f g zero i below h = absurd (omega (arith, below))
agree_at f g (suc bound) i below h = elim (Bool-cases (i == bound)) [
  | inl last ↦
      let e : i ≡ bound = (==_iff i bound).0 last in
      let now : same (f bound) (g bound) ≡ true = ground (arith, h) in
      rw e (same_sound (f bound) (g bound) now)
  | inr earlier ↦
      let down : i < bound = ground (arith, below, earlier) in
      agree_at f g bound i down (ground (arith, h))
]

-- Bit `k` of the byte `b`, as the sources test it: `b & (1 << k)`.
abbrev pub test_bit : ℕ → ℕ → Bool
test_bit b k = not (bit_and b (2 ^ k) == 0)

-- `b | (1 << k)`, stored in a byte.
abbrev pub set_bit : ℕ → ℕ → ℕ
set_bit b k = bit_or b (2 ^ k) % 256

-- `b & ~(1 << k)`, stored in a byte; the complement is that of a 32-bit int.
abbrev pub clear_bit : ℕ → ℕ → ℕ
clear_bit b k = bit_and b (2 ^ 32 - 1 - 2 ^ k) % 256

-- Two tests of a byte and two positions, compared on all of them.
abbrev Test : Type 0
Test = ℕ → ℕ → ℕ → Bool

abbrev agree_bits : Test → Test → Bool
agree_bits f g = agree (λ b. agree (λ k. agree (f b k) (g b k) 8) (λ k. true) 8) (λ b. true) 256

agree_bits_at :
    (f g : Test) (b k j : ℕ) → agree_bits f g ≡ true → b < 256 → k < 8 → j < 8 → f b k j ≡ g b k j
agree_bits_at f g b k j h in_b in_k in_j =
    let byte =
      agree_at (λ b. agree (λ k. agree (f b k) (g b k) 8) (λ k. true) 8) (λ b. true) 256 b in_b h in
    let position = agree_at (λ k. agree (f b k) (g b k) 8) (λ k. true) 8 k in_k byte in
    agree_at (f b k) (g b k) 8 j in_j position

abbrev after_set : Test
after_set b k j = test_bit (set_bit b k) j

abbrev after_clear : Test
after_clear b k j = test_bit (clear_bit b k) j

all_set : agree_bits after_set (λ b k j. (j == k) || test_bit b j) ≡ true
unfolding agree
all_set = refl

all_clear : agree_bits after_clear (λ b k j. not (j == k) && test_bit b j) ≡ true
unfolding agree
all_clear = refl

module _ (b k j : ℕ) (in_b : b < 256) (in_k : k < 8) (in_j : j < 8) where
  pub test_bit-set_bit : test_bit (set_bit b k) j ≡ ((j == k) || test_bit b j)
  test_bit-set_bit =
      agree_bits_at after_set (λ b k j. (j == k) || test_bit b j) b k j all_set in_b in_k in_j

  pub test_bit-clear_bit : test_bit (clear_bit b k) j ≡ (not (j == k) && test_bit b j)
  test_bit-clear_bit =
      agree_bits_at after_clear (λ b k j. not (j == k) && test_bit b j) b k j all_clear in_b in_k
        in_j

pub test_bit-zero : (k : ℕ) → k < 8 → test_bit 0 k ≡ false
unfolding agree
test_bit-zero k small = agree_at (test_bit 0) (λ j. false) 8 k small refl

-- The top bit of a byte tells the upper half.
pub test_bit-high : (b : ℕ) → b < 256 → test_bit b 7 ≡ leb 128 b
unfolding agree
test_bit-high b small = agree_at (λ b. test_bit b 7) (leb 128) 256 b small refl
