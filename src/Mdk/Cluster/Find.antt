-- ===== src/Mdk/Cluster/Find.antt =====
-- What the search through the table finds.
use bumbellbee_testing.Base.{
  ℕ, zero, suc, ◌+◌, ◌≤◌, ◌<◌, ◌≡◌, ◌≢◌, inl, inr, arith, refl, true, ◌||◌, Option, none, some,
  is_some, List, set, get_or, length, get_or-set_self, get_or-set_ne, ◌==◌, Bool-cases,
}
use bumbellbee_testing.Mdk.Cluster.{Node, no_node, find_node}

-- The id in slot `i`.
abbrev pub id_at : List Node → ℕ → ℕ
id_at nodes i = (get_or nodes i no_node).id

-- A result of the search from `i` on: a slot with the id.
abbrev pub Hit : List Node → ℕ → ℕ → ℕ → Option ℕ → Type 0
Hit nodes id n i none = Unit
Hit nodes id n i (some k) = (i ≤ k) × (k < i + n) × (id_at nodes k ≡ id)

pub find_node-Hit : (nodes : List Node) (id n i : ℕ) → Hit nodes id n i (find_node nodes id n i)
unfolding find_node
find_node-Hit nodes id zero i = tt
find_node-Hit nodes id (suc n) i = elim (Bool-cases (id_at nodes i == id)) [
  | inl hit ↦ rw hit (omega arith, omega arith, ground arith)
  | inr miss ↦ rw miss (widen (find_node nodes id n (i + 1)) (find_node-Hit nodes id n (i + 1)))
]
  where
    widen : (r : Option ℕ) → Hit nodes id n (i + 1) r → Hit nodes id (suc n) i r
    widen none h = tt
    widen (some k) h = (omega arith, omega arith, h.2)

-- Every slot with the id keeps the search from failing.
pub find_node-is_some :
    (nodes : List Node) (id n i j : ℕ)
    → i ≤ j
    → j < i + n
    → id_at nodes j ≡ id
    → is_some (find_node nodes id n i) ≡ true
unfolding find_node
find_node-is_some nodes id zero i j lo hi e = absurd (omega arith)
find_node-is_some nodes id (suc n) i j lo hi e = elim (Bool-cases (id_at nodes i == id)) [
  | inl hit ↦ rw hit
  | inr miss ↦
      let ne : i ≢ j = λ q. ground arith in
      rw miss (find_node-is_some nodes id n (i + 1) j (omega arith) (omega arith) e)
]

-- The search reads nothing but the ids.
pub find_node-ids :
    (nodes nodes' : List Node) (id n i : ℕ)
    → ((j : ℕ) → id_at nodes' j ≡ id_at nodes j)
    → find_node nodes' id n i ≡ find_node nodes id n i
unfolding find_node
find_node-ids nodes nodes' id zero i same = refl
find_node-ids nodes nodes' id (suc n) i same =
    rw (same i, find_node-ids nodes nodes' id n (i + 1) same)

-- One more node behind the last.
pub find_node-append :
    (nodes : List Node) (node : Node) (id n i m : ℕ)
    → i + n ≡ m
    → m < length nodes
    → is_some (find_node (set nodes m node) id (suc n) i)
      ≡ (is_some (find_node nodes id n i) || node.id == id)
unfolding find_node
find_node-append nodes node id zero i m e room =
    let i' : i ≡ m = omega arith in
    rw (i', get_or-set_self nodes m node no_node room) (ground arith)
find_node-append nodes node id (suc n) i m e room =
    rw (get_or-set_ne nodes m i node no_node (omega arith))
      (elim (Bool-cases (id_at nodes i == id)) [
        | inl hit ↦ rw hit
        | inr miss ↦ rw miss (find_node-append nodes node id n (i + 1) m (omega arith) room)
      ])
