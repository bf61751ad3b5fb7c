-- ===== src/Mdk/Cluster/Listed.antt =====
-- What the table lists: only nodes of which a predicate holds, and no id twice.
use mathlib.Core.Path.{subst}
use mathlib.Core.Bool.{true≢false}
use bumbellbee_testing.Base.{
  ℕ, ◌+◌, ◌^◌, ◌<◌, ◌≡◌, ◌≢◌, ◌⊎◌, inl, inr, arith, refl, ap, ◌∙◌, sym, true, ◌&&◌, Option, none,
  some, is_some, List, set, get_or, length, get_or-set_self, get_or-set_ne, ltb, ◌==◌, Bool-cases,
}
use bumbellbee_testing.Mdk.Cluster.{
  Node, no_node, Cluster, max_nodes, mdk_magic, MdkMsg, node_at, known, join, set_status,
  cluster_add_node, cluster_set_node_status, cluster_poll,
}
use bumbellbee_testing.Mdk.Cluster.Find.{Hit, find_node-Hit, find_node-is_some}
use bumbellbee_testing.Mdk.Cluster.Join.{IsValid, counted, counted-IsValid}

-- `P` takes an id and a memory size.
pub record Listed (P : ℕ → ℕ → Type 0) (c : Cluster) : Type 0 where
  pub genuine : (k : ℕ) → k < c.num_nodes → P (node_at c k).id (node_at c k).ram_mb
  pub once :
      (a b : ℕ) → a < c.num_nodes → b < c.num_nodes → (node_at c a).id ≡ (node_at c b).id → a ≡ b

-- A node stored in place of one with the same id and memory.
same_node :
    (nodes : List Node) (i k : ℕ) (status : ℕ)
    → i < length nodes
    → let node = record (get_or nodes i no_node) { status = status } in
      ((get_or (set nodes i node) k no_node).id ≡ (get_or nodes k no_node).id)
      × ((get_or (set nodes i node) k no_node).ram_mb ≡ (get_or nodes k no_node).ram_mb)
same_node nodes i k status room = elim (Bool-cases (i == k)) [
  | inl same ↦
      let e : i ≡ k = ground (arith, same) in
      let node = record (get_or nodes i no_node) { status = status } in
      let stored : get_or (set nodes i node) k no_node ≡ node =
        ap (λ j. get_or (set nodes i node) j no_node) (sym e)
        ∙ get_or-set_self nodes i node no_node room in
      (
        ap Node.id stored ∙ ap (λ j. (get_or nodes j no_node).id) e,
        ap Node.ram_mb stored ∙ ap (λ j. (get_or nodes j no_node).ram_mb) e,
      )
  | inr other ↦
      let kept =
        get_or-set_ne nodes i k (record (get_or nodes i no_node) { status = status }) no_node
          (ground (arith, other)) in
      (ap Node.id kept, ap Node.ram_mb kept)
]

-- A slot of the table with one node more: the new one, or an old one as it was.
abbrev Slot : List Node → ℕ → Node → ℕ → Type 0
Slot nodes n node k =
    ((k ≡ n) × (get_or (set nodes n node) k no_node ≡ node))
    ⊎ ((k < n) × (get_or (set nodes n node) k no_node ≡ get_or nodes k no_node))

slots :
    (nodes : List Node) (n k : ℕ) (node : Node) → n < length nodes → k < n + 1 → Slot nodes n node k
slots nodes n k node room lt = elim (Bool-cases (k == n)) [
  | inl last ↦
      let e : k ≡ n = ground (arith, last) in
      inl (
        e,
        ap (λ j. get_or (set nodes n node) j no_node) e ∙ get_or-set_self nodes n node no_node room,
      )
  | inr old ↦
      inr (ground (arith, old, lt), get_or-set_ne nodes n k node no_node (ground (arith, old)))
]

module _ (P : ℕ → ℕ → Type 0) (c : Cluster) (v : IsValid c) (l : Listed P c) where
  set_status-Listed :
      (id status : ℕ) (r : Option ℕ)
      → Hit c.cluster_nodes id c.num_nodes 0 r
      → Listed P (set_status status r c)
  unfolding set_status
  set_status-Listed id status none h = l
  set_status-Listed id status (some i) h =
      let same =
        λ (k : ℕ). same_node c.cluster_nodes i k status (omega (arith, h.1, v.few, v.room)) in
      record {
        genuine = λ k lt. rw ((same k).0, (same k).1) (l.genuine k lt);
        once = λ a b la lb e. l.once a b la lb (sym (same a).0 ∙ e ∙ (same b).0);
      }

  not_listed : (id k : ℕ) → known c id ≡ none → k < c.num_nodes → (node_at c k).id ≢ id
  not_listed id k unknown lt e =
      let found =
        find_node-is_some c.cluster_nodes id c.num_nodes 0 k (omega arith) (omega (arith, lt)) e in
      true≢false (sym found ∙ ap is_some unknown)

  new-Listed : (id ram : ℕ) → P id ram → known c id ≡ none → Listed P (join id ram none c)
  unfolding join
  new-Listed id ram p unknown = elim (Bool-cases (ltb c.num_nodes max_nodes)) [
    | inr full ↦ rw full l
    | inl room ↦
        let lt : c.num_nodes < length c.cluster_nodes = ground (arith, room, v.room) in
        let node : Node = record { id = id; ram_mb = ram; status = 1 } in
        let slot = λ (k : ℕ) (below : k < c.num_nodes + 1).
          slots c.cluster_nodes c.num_nodes k node lt below in
        rw room (record {
          genuine = λ k below. genuine k node p (slot k below);
          once = λ a b la lb e. once a b node refl e (slot a la) (slot b lb);
        })
  ]
    where
      genuine :
          (k : ℕ) (node : Node)
          → P node.id node.ram_mb
          → Slot c.cluster_nodes c.num_nodes node k
          → P
              (get_or (set c.cluster_nodes c.num_nodes node) k no_node).id
              (get_or (set c.cluster_nodes c.num_nodes node) k no_node).ram_mb
      genuine k node p (inl (e, new)) = rw new p
      genuine k node p (inr (lt, old)) = rw old (l.genuine k lt)

      once :
          (a b : ℕ) (node : Node)
          → node.id ≡ id
          → (get_or (set c.cluster_nodes c.num_nodes node) a no_node).id
            ≡ (get_or (set c.cluster_nodes c.num_nodes node) b no_node).id
          → Slot c.cluster_nodes c.num_nodes node a
          → Slot c.cluster_nodes c.num_nodes node b
          → a ≡ b
      once a b node i e (inl (ea, na)) (inl (eb, nb)) = ea ∙ sym eb
      once a b node i e (inl (ea, na)) (inr (lb, ob)) =
          absurd (not_listed id b unknown lb (sym (ap Node.id ob) ∙ sym e ∙ ap Node.id na ∙ i))
      once a b node i e (inr (la, oa)) (inl (eb, nb)) =
          absurd (not_listed id a unknown la (sym (ap Node.id oa) ∙ e ∙ ap Node.id nb ∙ i))
      once a b node i e (inr (la, oa)) (inr (lb, ob)) =
          l.once a b la lb (sym (ap Node.id oa) ∙ e ∙ ap Node.id ob)

  join-Listed : (id ram : ℕ) (r : Option ℕ) → P id ram → known c id ≡ r → Listed P (join id ram r c)
  unfolding join
  join-Listed id ram none p e = new-Listed id ram p e
  join-Listed id ram (some i) p e = set_status-Listed id 1 (some i) (
      subst (Hit c.cluster_nodes id c.num_nodes 0) e
        (find_node-Hit c.cluster_nodes id c.num_nodes 0))

  pub add_node-Listed : (id ram : ℕ) → P id ram → Listed P (cluster_add_node id ram c)
  unfolding cluster_add_node
  add_node-Listed id ram p = elim (Bool-cases (id == c.my_id)) [
    | inl own ↦ rw own l
    | inr other ↦ rw other (join-Listed id ram (known c id) p refl)
  ]

  pub set_node_status-Listed : (id status : ℕ) → Listed P (cluster_set_node_status id status c)
  unfolding cluster_set_node_status
  set_node_status-Listed id status =
      set_status-Listed id status (known c id) (find_node-Hit c.cluster_nodes id c.num_nodes 0)

-- A poll adds what it announces, if it is a message, and nothing otherwise.
pub poll-Listed :
    (P : ℕ → ℕ → Type 0) (ret : ℕ) (msg : MdkMsg) (c : Cluster)
    → IsValid c
    → Listed P c
    → ((ret == 12 && msg.magic == mdk_magic) ≡ true → P msg.id msg.ram)
    → Listed P (cluster_poll ret msg c)
unfolding cluster_poll
poll-Listed P ret msg c v l p = elim (Bool-cases (ltb 0 ret && ltb ret (2 ^ 31))) [
  | inr nothing ↦ rw nothing l
  | inl got ↦ rw got (elim (Bool-cases (ret == 12 && msg.magic == mdk_magic)) [
    | inr other ↦ rw other (record { genuine = l.genuine; once = l.once })
    | inl whole ↦ rw whole (
        add_node-Listed P (counted c) (counted-IsValid c v)
          (record { genuine = l.genuine; once = l.once }) msg.id msg.ram (p whole))
  ])
]

-- Neither a poll nor a mark changes the identity of the node itself.
set_status-own :
    (status : ℕ) (r : Option ℕ) (c : Cluster)
    → ((set_status status r c).my_id ≡ c.my_id) × ((set_status status r c).my_ram ≡ c.my_ram)
unfolding set_status
set_status-own status none c = (refl, refl)
set_status-own status (some i) c = (refl, refl)

pub set_node_status-own :
    (id status : ℕ) (c : Cluster)
    → ((cluster_set_node_status id status c).my_id ≡ c.my_id)
      × ((cluster_set_node_status id status c).my_ram ≡ c.my_ram)
unfolding cluster_set_node_status
set_node_status-own id status c = set_status-own status (known c id) c

join-own :
    (id ram : ℕ) (r : Option ℕ) (c : Cluster)
    → ((join id ram r c).my_id ≡ c.my_id) × ((join id ram r c).my_ram ≡ c.my_ram)
unfolding join
join-own id ram (some i) c = set_status-own 1 (some i) c
join-own id ram none c = elim (Bool-cases (ltb c.num_nodes max_nodes)) [
  | inl room ↦ rw room (refl, refl)
  | inr full ↦ rw full (refl, refl)
]

add_node-own :
    (id ram : ℕ) (c : Cluster)
    → ((cluster_add_node id ram c).my_id ≡ c.my_id)
      × ((cluster_add_node id ram c).my_ram ≡ c.my_ram)
unfolding cluster_add_node
add_node-own id ram c = elim (Bool-cases (id == c.my_id)) [
  | inl own ↦ rw own (refl, refl)
  | inr other ↦ rw other (join-own id ram (known c id) c)
]

pub poll-own :
    (ret : ℕ) (msg : MdkMsg) (c : Cluster)
    → ((cluster_poll ret msg c).my_id ≡ c.my_id) × ((cluster_poll ret msg c).my_ram ≡ c.my_ram)
unfolding cluster_poll
poll-own ret msg c = elim (Bool-cases (ltb 0 ret && ltb ret (2 ^ 31))) [
  | inr nothing ↦ rw nothing (refl, refl)
  | inl got ↦ rw got (elim (Bool-cases (ret == 12 && msg.magic == mdk_magic)) [
    | inr other ↦ rw other (refl, refl)
    | inl whole ↦ rw whole (add_node-own msg.id msg.ram (counted c))
  ])
]
