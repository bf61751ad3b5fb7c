-- ===== src/Base/Tests.antt =====
-- Boolean tests on the native numbers, the conditional, and updates of a memory.
use Prim.Native.Nat.{ℕ, zero, suc, ◌<◌, compare, Ordering}
use mathlib.Core.Path.{◌≡◌, refl}
use mathlib.Core.Logic.{◌↔◌, ◌⊎◌, inl, inr, ◌≢◌}
use mathlib.Core.Bool.{Bool, true, false, ◌&&◌}
use mathlib.Core.Option.{Option, none, some}
use native.Mathlib.Omega.{arith}

abbrev pub ltb : ℕ → ℕ → Bool
ltb a b = elim (compare a b) [ Ordering.lt ↦ true | _ ↦ false ]

abbrev pub leb : ℕ → ℕ → Bool
leb a b = elim (compare a b) [ Ordering.gt ↦ false | _ ↦ true ]

infix 50 ◌==◌
abbrev pub ◌==◌ : ℕ → ℕ → Bool
a == b = elim (compare a b) [ Ordering.eq ↦ true | _ ↦ false ]

infix 1 if◌then◌else◌
abbrev pub if◌then◌else◌ {ℓ} : {A : Type ℓ} → Bool → A → A → A
if true then x else y = x
if false then x else y = y

abbrev pub is_some {ℓ} : {A : Type ℓ} → Option A → Bool
is_some none = false
is_some (some _) = true

pub ==_iff : (a b : ℕ) → ((a == b) ≡ true) ↔ (a ≡ b)
==_iff a b = ground arith

pub ==_refl : (a : ℕ) → (a == a) ≡ true
==_refl a = ground arith

pub ==_ne : (a b : ℕ) → a ≢ b → (a == b) ≡ false
==_ne a b h = ground arith

-- To split on a computed test and keep the equation.
pub Bool-cases : (b : Bool) → (b ≡ true) ⊎ (b ≡ false)
Bool-cases true = inl refl
Bool-cases false = inr refl

-- A memory is a function from addresses; a write changes one cell.
abbrev pub update {ℓ} : {A : Type ℓ} → (ℕ → A) → ℕ → A → ℕ → A
update m a v b = if b == a then v else m b

-- A test of all numbers below a bound, to be evaluated.
abbrev pub all_below : (ℕ → Bool) → ℕ → Bool
all_below f zero = true
all_below f (suc bound) = f bound && all_below f bound

pub all_below_at : (f : ℕ → Bool) (bound i : ℕ) → all_below f bound ≡ true → i < bound → f i ≡ true
all_below_at f zero i h lt = absurd (omega (arith, lt))
all_below_at f (suc bound) i h lt = elim (Bool-cases (i == bound)) [
  | inl last ↦ let e : i ≡ bound = (==_iff i bound).0 last in rw e (ground (arith, h))
  | inr earlier ↦ all_below_at f bound i (ground (arith, h)) (ground (arith, lt, earlier))
]
