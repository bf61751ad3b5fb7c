-- ===== src/Mdk/Mesh/Reach.antt =====
-- A cluster of nodes that ping and poll in any order, over a network that may lose, repeat and
-- reorder frames.
use mathlib.Core.Bool.{true≢false}
use bumbellbee_testing.Base.{
  ℕ, ◌<◌, ◌≡◌, inl, inr, true, false, ◌&&◌, List, [], ◌∷◌, All, All_at, length, get_or, arith, refl,
  sym, ◌∙◌, ◌==◌, Bool-cases, update,
}
use bumbellbee_testing.Mdk.Cluster.{
  Cluster, MdkMsg, mdk_magic, cluster_init, cluster_ping, cluster_poll, cluster_set_node_status,
}
use bumbellbee_testing.Mdk.Cluster.Join.{IsValid, set_status_lem, poll-IsValid}
use bumbellbee_testing.Mdk.Cluster.Listed.{
  Listed, poll-Listed, poll-own, set_node_status-Listed, set_node_status-own,
}
use bumbellbee_testing.Mdk.Cluster.Start.{
  cluster_statics, cluster_init-IsValid, cluster_init-own, cluster_init-Listed,
}

abbrev pub no_msg : MdkMsg
no_msg = record { magic = 0; id = 0; ram = 0 }

-- The tables of the nodes, and every message that was ever sent.
pub record Mesh : Type 0 where
  pub nodes : ℕ → Cluster
  pub sent : List MdkMsg

-- The nodes have ids and memories of their own, which may coincide.
module _ (ids rams : ℕ → ℕ) where
  abbrev pub start : Mesh
  start = record { nodes = λ i. cluster_init (ids i) (rams i) cluster_statics; sent = [] }

  -- One node acts: it pings; it polls and finds a message sent before, at any time and however often;
  -- it polls and finds nothing or a frame that is not a message; or it marks a node, by the function
  -- that nothing in the kernel calls yet.
  pub data Step (s : Mesh) : Mesh → Type 0 where
    ping :
        (i : ℕ)
        → Step s (record {
          nodes = update s.nodes i (cluster_ping (s.nodes i)).1;
          sent = (cluster_ping (s.nodes i)).0 ∷ s.sent;
        })
    hear :
        (i k : ℕ)
        → k < length s.sent
        → Step s (record s {
          nodes = update s.nodes i (cluster_poll 12 (get_or s.sent k no_msg) (s.nodes i));
        })
    ignore :
        (i ret : ℕ) (msg : MdkMsg)
        → (ret == 12 && msg.magic == mdk_magic) ≡ false
        → Step s (record s { nodes = update s.nodes i (cluster_poll ret msg (s.nodes i)) })
    mark :
        (i id status : ℕ)
        → Step s
            (record s { nodes = update s.nodes i (cluster_set_node_status id status (s.nodes i)) })

  pub data Reach : Mesh → Type 0 where
    here : Reach start
    next : {s t : Mesh} → Reach s → Step s t → Reach t

  -- There is a node with this id and this memory.
  abbrev pub Genuine : ℕ → ℕ → Type 0
  Genuine id ram = (j : ℕ) × ((ids j ≡ id) × (rams j ≡ ram))

  -- A node that keeps its own id and memory, and lists genuine nodes only.
  pub record Sound (i : ℕ) (c : Cluster) : Type 0 where
    pub valid : IsValid c
    pub listed : Listed Genuine c
    pub own_id : c.my_id ≡ ids i
    pub own_ram : c.my_ram ≡ rams i

  pub record Inv (s : Mesh) : Type 0 where
    pub each : (i : ℕ) → Sound i (s.nodes i)
    pub messages : All (λ m. (m.magic ≡ mdk_magic) × Genuine m.id m.ram) s.sent

  start-Inv : Inv start
  start-Inv = record {
    each = λ i. record {
      valid = cluster_init-IsValid (ids i) (rams i);
      listed = cluster_init-Listed Genuine (ids i) (rams i) (i, (refl, refl));
      own_id = (cluster_init-own (ids i) (rams i)).0;
      own_ram = (cluster_init-own (ids i) (rams i)).1;
    };
    messages = tt;
  }

  -- One node changes.
  each_but :
      (nodes : ℕ → Cluster) (i : ℕ) (c : Cluster)
      → ((j : ℕ) → Sound j (nodes j))
      → Sound i c
      → (j : ℕ) → Sound j (update nodes i c j)
  each_but nodes i c h s j = elim (Bool-cases (j == i)) [
    | inl this ↦ let e : j ≡ i = ground (arith, this) in rw (this, e) s
    | inr other ↦ rw other (h j)
  ]

  ping-Sound : (i : ℕ) (c : Cluster) → Sound i c → Sound i (cluster_ping c).1
  unfolding cluster_ping
  ping-Sound i c s = record {
    valid = record {
      room = s.valid.room;
      occupied = s.valid.occupied;
      few = s.valid.few;
      self = s.valid.self;
    };
    listed = record { genuine = s.listed.genuine; once = s.listed.once };
    own_id = s.own_id;
    own_ram = s.own_ram;
  }

  poll-Sound :
      (i ret : ℕ) (msg : MdkMsg) (c : Cluster)
      → Sound i c
      → ((ret == 12 && msg.magic == mdk_magic) ≡ true → Genuine msg.id msg.ram)
      → Sound i (cluster_poll ret msg c)
  poll-Sound i ret msg c s g =
      let own = poll-own ret msg c in
      record {
        valid = poll-IsValid ret msg c s.valid;
        listed = poll-Listed Genuine ret msg c s.valid s.listed g;
        own_id = own.0 ∙ s.own_id;
        own_ram = own.1 ∙ s.own_ram;
      }

  mark-Sound :
      (i id status : ℕ) (c : Cluster) → Sound i c → Sound i (cluster_set_node_status id status c)
  mark-Sound i id status c s =
      let own = set_node_status-own id status c in
      record {
        valid = (set_status_lem id status 0 c s.valid).0;
        listed = set_node_status-Listed Genuine c s.valid s.listed id status;
        own_id = own.0 ∙ s.own_id;
        own_ram = own.1 ∙ s.own_ram;
      }

  pub message_at :
      (s : Mesh)
      → Inv s
      → (k : ℕ) → k < length s.sent
      → let m = get_or s.sent k no_msg in (m.magic ≡ mdk_magic) × Genuine m.id m.ram
  message_at s v k lt =
      All_at (λ m. (m.magic ≡ mdk_magic) × Genuine m.id m.ram) s.sent k no_msg lt v.messages

  pub Step-Inv : {s t : Mesh} → Step s t → Inv s → Inv t
  unfolding cluster_ping
  Step-Inv {s} (ping i) v = record {
    each = each_but s.nodes i _ v.each (ping-Sound i (s.nodes i) (v.each i));
    messages = ((refl, (i, (sym (v.each i).own_id, sym (v.each i).own_ram))), v.messages);
  }
  Step-Inv {s} (hear i k lt) v = record {
    each = each_but s.nodes i _ v.each (
        poll-Sound i 12 (get_or s.sent k no_msg) (s.nodes i) (v.each i)
          λ whole. (message_at s v k lt).1);
    messages = v.messages;
  }
  Step-Inv {s} (ignore i ret msg other) v = record {
    each = each_but s.nodes i _ v.each (
        poll-Sound i ret msg (s.nodes i) (v.each i)
          λ whole. absurd (true≢false (sym whole ∙ other)));
    messages = v.messages;
  }
  Step-Inv {s} (mark i id status) v = record {
    each = each_but s.nodes i _ v.each (mark-Sound i id status (s.nodes i) (v.each i));
    messages = v.messages;
  }

  -- In every state that nodes reach by pinging, polling and marking, in any order and over a network
  -- that may lose, repeat and reorder frames, the table of each node is valid, it lists no node twice,
  -- and every node that it lists exists and has the memory listed.
  pub no_phantom_nodes : {s : Mesh} → Reach s → Inv s
  no_phantom_nodes here = start-Inv
  no_phantom_nodes (next r st) = Step-Inv st (no_phantom_nodes r)
