-- ===== src/Modular/Proc/Owned.antt =====
-- Processes on a valid heap: each stands in a live block of its own.
use bumbellbee_testing.Base.{
  ℕ, ◌+◌, ◌*◌, ◌/◌, ◌<◌, ◌≤◌, ◌≡◌, ◌⊎◌, Option, none, some, List, [], ◌∷◌, ◌++◌, All, length,
}
use bumbellbee_testing.Modular.Mm.{Mm}
use bumbellbee_testing.Modular.Mm.Blocks.{Block}
use bumbellbee_testing.Modular.Mm.Heap
use bumbellbee_testing.Modular.Proc.{Procs}
use bumbellbee_testing.Modular.Proc.Queue.{Links, Distinct, Created}

-- The process `q` stands at the start of a live block that has room for its 56 bytes.
abbrev pub Owns : List Block → ℕ → Type 0
Owns [] q = ⊥
Owns (b ∷ live) q = ((q ≡ b.0 + 8) × (56 ≤ b.1)) ⊎ Owns live q

-- A valid heap, and a list of processes that own their blocks.
pub record Consistent (base : ℕ) (s : Procs) (free live : List Block) (qs : List ℕ) : Type 0 where
  pub heap : Heap.IsValid base s.mm free live
  pub links : Links s.process s.proc_list qs
  pub distinct : Distinct qs
  pub owned : All (Owns live) qs

-- A creation that returns null leaves a consistent state with the same list, and any other one a
-- consistent state in which the new process stands at the end of the list, in a new block with room for
-- its 56 bytes, and its context on a stack of 4096 bytes or more in another new block.
abbrev pub Outcome : ℕ → ℕ → Procs → List Block → List ℕ → ℕ × Procs → Type 0
Outcome base entry s live qs (p, t) =
    ((free : List Block) × (live' : List Block) × (p ≡ 0) × Consistent base t free live' qs)
    ⊎ ((free : List Block) × (b : Block) × (d : Block) × (p ≡ b.0 + 8)
        × (56 ≤ b.1)
        × (4096 ≤ d.1)
        × Created entry p (d.0 + 8) qs s t
        × Consistent base t free (d ∷ b ∷ live) (qs ++ (p ∷ [])))

abbrev pub Returns : (ℕ × Procs → Type 0) → Option (ℕ × Procs) → Type 0
Returns P none = ⊥
Returns P (some r) = P r

module _ (base entry fuel : ℕ) (s : Procs) (free live : List Block) (qs : List ℕ)
    (c : Consistent base s free live qs) (enough : 65536 < fuel) (long : length qs ≤ fuel) where
  abbrev Second : Block → List Block → Mm → ℕ × Mm → Type 0
  Second b after mm (stack, mm') =
      ((d : Block) × (rest : List Block) × (stack ≡ d.0 + 8)
        × (4096 ≤ d.1)
        × (d.1 < 4096 + 23)
        × Heap.IsValid base mm' rest (d ∷ b ∷ live))
      ⊎ ((stack ≡ 0) × (mm' ≡ mm) × All (λ f. f.1 < (4096 + 7) / 8 * 8) after)

  abbrev First : ℕ × Mm → Type 0
  First (proc, mm) =
      ((b : Block) × (after : List Block) × (proc ≡ b.0 + 8)
        × (56 ≤ b.1)
        × (b.1 < 56 + 23)
        × Heap.IsValid base mm after (b ∷ live))
      ⊎ ((proc ≡ 0) × (mm ≡ s.mm) × All (λ f. f.1 < (56 + 7) / 8 * 8) free)
