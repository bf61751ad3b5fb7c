-- ===== src/Mdk/Cluster/Join.antt =====
-- Who is known after a node announces itself.
use bumbellbee_testing.Base.{
  ℕ, suc, ◌+◌, ◌%◌, ◌^◌, ◌≤◌, ◌<◌, ◌≡◌, inl, inr, arith, refl, ap, ◌∙◌, sym, Bool, true, false,
  ◌&&◌, ◌||◌, Option, none, some, is_some, List, set, length, length-set, get_or-set_self,
  get_or-set_ne, ltb, ◌==◌, Bool-cases,
}
use bumbellbee_testing.Mdk.Cluster.{
  Node, no_node, Cluster, max_nodes, mdk_magic, MdkMsg, node_at, known, join, set_status,
  cluster_add_node, cluster_set_node_status, cluster_poll,
}
use bumbellbee_testing.Mdk.Cluster.Find.{
  id_at, Hit, find_node-Hit, find_node-is_some, find_node-ids, find_node-append,
}

-- The table has room for 32 nodes, and this one stands in slot 0.
pub record IsValid (c : Cluster) : Type 0 where
  pub room : length c.cluster_nodes ≡ max_nodes
  pub occupied : 0 < c.num_nodes
  pub few : c.num_nodes ≤ max_nodes
  pub self : id_at c.cluster_nodes 0 ≡ c.my_id

id_at-set :
    (nodes : List Node) (i j : ℕ) (node : Node)
    → i < length nodes
    → node.id ≡ id_at nodes i
    → id_at (set nodes i node) j ≡ id_at nodes j
id_at-set nodes i j node room e = elim (Bool-cases (i == j)) [
  | inl same ↦
      let q : i ≡ j = ground arith in
      ap (id_at (set nodes i node)) (sym q)
      ∙ ap (λ n. n.id) (get_or-set_self nodes i node no_node room)
      ∙ e
      ∙ ap (id_at nodes) q
  | inr other ↦ ap (λ n. n.id) (get_or-set_ne nodes i j node no_node (ground arith))
]

self_known : (c : Cluster) → IsValid c → is_some (known c c.my_id) ≡ true
self_known c v =
    find_node-is_some c.cluster_nodes c.my_id c.num_nodes 0 0 (omega arith)
      (omega (arith, v.occupied)) v.self

-- A change of status changes neither the ids nor their number.
module _ (c : Cluster) (v : IsValid c) (status : ℕ) where
  set_status-IsValid :
      (id : ℕ) (r : Option ℕ)
      → Hit c.cluster_nodes id c.num_nodes 0 r
      → IsValid (set_status status r c)
  unfolding set_status
  set_status-IsValid id none h = v
  set_status-IsValid id (some i) h =
      let node = record (node_at c i) { status = status } in
      record {
        room = length-set c.cluster_nodes i node ∙ v.room;
        occupied = v.occupied;
        few = v.few;
        self = id_at-set c.cluster_nodes i 0 node (omega (arith, v.room, v.few)) refl ∙ v.self;
      }

  known-set_status :
      (id j : ℕ) (r : Option ℕ)
      → Hit c.cluster_nodes id c.num_nodes 0 r
      → known (set_status status r c) j ≡ known c j
  unfolding set_status
  known-set_status id j none h = refl
  known-set_status id j (some i) h =
      find_node-ids c.cluster_nodes _ j c.num_nodes 0
        (λ k. id_at-set c.cluster_nodes i k _ (omega (arith, v.room, v.few)) refl)

join-IsValid :
    (id ram : ℕ) (c : Cluster) (r : Option ℕ)
    → IsValid c
    → Hit c.cluster_nodes id c.num_nodes 0 r
    → IsValid (join id ram r c)
unfolding join
join-IsValid id ram c (some i) v h = set_status-IsValid c v 1 id (some i) h
join-IsValid id ram c none v h = elim (Bool-cases (ltb c.num_nodes max_nodes)) [
  | inr full ↦ rw full v
  | inl room ↦
      let node : Node = record { id = id; ram_mb = ram; status = 1 } in
      rw room (record {
        room = length-set c.cluster_nodes c.num_nodes node ∙ v.room;
        occupied = omega arith;
        few = ground arith;
        self =
            ap (λ n. n.id)
              (get_or-set_ne c.cluster_nodes c.num_nodes 0 node no_node (omega (arith, v.occupied)))
            ∙ v.self;
      })
]

absorb : (a b r : Bool) → (b ≡ true → a ≡ true) → a ≡ (a || (b && r))
absorb true b r h = refl
absorb false true r h = cc (h refl)
absorb false false r h = refl

turn : (a : Bool) (id j : ℕ) → (a || (id == j)) ≡ (a || ((j == id) && true))
turn a id j = ground arith

known-join :
    (id ram j : ℕ) (c : Cluster) (r : Option ℕ)
    → IsValid c
    → known c id ≡ r
    → Hit c.cluster_nodes id c.num_nodes 0 r
    → is_some (known (join id ram r c) j)
      ≡ (is_some (known c j) || (j == id && ltb c.num_nodes max_nodes))
unfolding join
known-join id ram j c (some i) v e h =
    ap is_some (known-set_status c v 1 id j (some i) h)
    ∙ absorb (is_some (known c j)) (j == id) (ltb c.num_nodes max_nodes) hit
  where
    hit : (j == id) ≡ true → is_some (known c j) ≡ true
    hit same = let q : j ≡ id = ground arith in ap (λ k. is_some (known c k)) q ∙ ap is_some e
known-join id ram j c none v e h = elim (Bool-cases (ltb c.num_nodes max_nodes)) [
  | inr full ↦ rw full (ground arith)
  | inl room ↦
      let next : c.num_nodes + 1 ≡ suc c.num_nodes = omega arith in
      let lt : c.num_nodes < length c.cluster_nodes = ground (arith, v.room) in
      rw (room, next)
        (find_node-append c.cluster_nodes _ j c.num_nodes 0 c.num_nodes (omega arith) lt
          ∙ turn (is_some (known c j)) id j)
]

-- cluster_add_node keeps the table valid.
add_node-IsValid : (id ram : ℕ) (c : Cluster) → IsValid c → IsValid (cluster_add_node id ram c)
unfolding cluster_add_node
add_node-IsValid id ram c v = elim (Bool-cases (id == c.my_id)) [
  | inl own ↦ rw own v
  | inr other ↦
      rw other
        (join-IsValid id ram c (known c id) v (find_node-Hit c.cluster_nodes id c.num_nodes 0))
]

-- In a valid state a node is known after cluster_add_node exactly if it was known before, or it
-- is the one announced and the table had room.
pub known-add_node :
    (id ram j : ℕ) (c : Cluster)
    → IsValid c
    → is_some (known (cluster_add_node id ram c) j)
      ≡ (is_some (known c j) || (j == id && ltb c.num_nodes max_nodes))
unfolding cluster_add_node
known-add_node id ram j c v = elim (Bool-cases (id == c.my_id)) [
  | inr other ↦
      rw other
        (known-join id ram j c (known c id) v refl (find_node-Hit c.cluster_nodes id c.num_nodes 0))
  | inl own ↦ rw own (
      absorb (is_some (known c j)) (j == id) (ltb c.num_nodes max_nodes) λ same.
        let q : j ≡ c.my_id = ground arith in ap (λ k. is_some (known c k)) q ∙ self_known c v)
]

-- In a valid state, cluster_set_node_status keeps the table valid and the position at which each
-- node is known.
pub set_status_lem :
    (id status j : ℕ) (c : Cluster)
    → IsValid c
    → IsValid (cluster_set_node_status id status c)
      × (known (cluster_set_node_status id status c) j ≡ known c j)
unfolding cluster_set_node_status
set_status_lem id status j c v =
    let h = find_node-Hit c.cluster_nodes id c.num_nodes 0 in
    (
      set_status-IsValid c v status id (known c id) h,
      known-set_status c v status id j (known c id) h,
    )

abbrev pub counted : Cluster → Cluster
counted c = record c { net_packets_recv = (c.net_packets_recv + 1) % 2 ^ 32 }

pub counted-IsValid : (c : Cluster) → IsValid c → IsValid (counted c)
counted-IsValid c v = record { room = v.room; occupied = v.occupied; few = v.few; self = v.self }

-- cluster_poll keeps the table valid.
pub poll-IsValid :
    (ret : ℕ) (msg : MdkMsg) (c : Cluster) → IsValid c → IsValid (cluster_poll ret msg c)
unfolding cluster_poll
poll-IsValid ret msg c v = elim (Bool-cases (ltb 0 ret && ltb ret (2 ^ 31))) [
  | inr nothing ↦ rw nothing v
  | inl got ↦ rw got (elim (Bool-cases (ret == 12 && msg.magic == mdk_magic)) [
    | inr other ↦ rw other (counted-IsValid c v)
    | inl whole ↦ rw whole (add_node-IsValid msg.id msg.ram (counted c) (counted-IsValid c v))
  ])
]

plain : (a : Bool) → a ≡ (a || false)
plain true = refl
plain false = refl

-- In a valid state, after cluster_poll a node is known exactly if it was known before, or the
-- message received is whole, carries the magic number and announces that node, and the table had
-- room.
pub known-poll :
    (ret j : ℕ) (msg : MdkMsg) (c : Cluster)
    → IsValid c
    → is_some (known (cluster_poll ret msg c) j) ≡ (
        is_some (known c j)
        || ((ret == 12 && msg.magic == mdk_magic) && (j == msg.id && ltb c.num_nodes max_nodes)))
unfolding cluster_poll
known-poll ret j msg c v = elim (Bool-cases (ret == 12 && msg.magic == mdk_magic)) [
  | inl whole ↦
      let got : (ltb 0 ret && ltb ret (2 ^ 31)) ≡ true = ground arith in
      rw (got, whole) (known-add_node msg.id msg.ram j (counted c) (counted-IsValid c v))
  | inr other ↦ rw other (elim (Bool-cases (ltb 0 ret && ltb ret (2 ^ 31))) [
    | inl got ↦ rw got (plain (is_some (known c j)))
    | inr nothing ↦ rw nothing (plain (is_some (known c j)))
  ])
]
