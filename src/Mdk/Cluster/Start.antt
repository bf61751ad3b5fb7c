-- ===== src/Mdk/Cluster/Start.antt =====
-- The table after `cluster_init`.
use mathlib.Core.Path.{subst⁻¹}
use bumbellbee_testing.Base.{ℕ, ◌≡◌, true, [], replicate, arith, refl}
use bumbellbee_testing.Mdk.Cluster.{Cluster, no_node, node_at, online, cluster_init, clear_loop}
use bumbellbee_testing.Mdk.Cluster.Join.{IsValid}
use bumbellbee_testing.Mdk.Cluster.Listed.{Listed}

-- The statics before the start.
abbrev pub cluster_statics : Cluster
cluster_statics = record {
  cluster_nodes = replicate 32 no_node;
  num_nodes = 0;
  my_id = 0;
  my_ram = 0;
  net_packets_sent = 0;
  net_packets_recv = 0;
  out = [];
}

-- The table lists this node alone.
pub cluster_init-IsValid : (id ram : ℕ) → IsValid (cluster_init id ram cluster_statics)
unfolding cluster_init clear_loop
cluster_init-IsValid id ram = record {
  room = refl;
  occupied = omega arith;
  few = omega arith;
  self = refl;
}

pub cluster_init-own :
    (id ram : ℕ)
    → ((cluster_init id ram cluster_statics).my_id ≡ id)
      × ((cluster_init id ram cluster_statics).my_ram ≡ ram)
unfolding cluster_init clear_loop
cluster_init-own id ram = (refl, refl)

pub cluster_init-online :
    (id ram : ℕ) → online (node_at (cluster_init id ram cluster_statics) 0) ≡ true
unfolding cluster_init clear_loop
cluster_init-online id ram = refl

-- A table of one node.
one_node :
    (P : ℕ → ℕ → Type 0) (c : Cluster)
    → c.num_nodes ≡ 1
    → P (node_at c 0).id (node_at c 0).ram_mb
    → Listed P c
one_node P c one p = record {
  genuine = λ k lt.
      let e : k ≡ 0 = omega (arith, lt, one) in
      subst⁻¹ (λ j. P (node_at c j).id (node_at c j).ram_mb) e p;
  once = λ a b la lb e. omega (arith, la, lb, one);
}

pub cluster_init-Listed :
    (P : ℕ → ℕ → Type 0) (id ram : ℕ) → P id ram → Listed P (cluster_init id ram cluster_statics)
unfolding cluster_init clear_loop
cluster_init-Listed P id ram p = one_node P (cluster_init id ram cluster_statics) refl p
