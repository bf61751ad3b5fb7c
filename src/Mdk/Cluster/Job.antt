-- ===== src/Mdk/Cluster/Job.antt =====
-- The shares of a job, and the division that fails where no node is up.
use bumbellbee_testing.Base.{
  ℕ, zero, suc, ◌*◌, ◌/◌, ◌≤◌, ◌<◌, ◌≡◌, arith, refl, true, none, some, is_some, List, set, get_or,
  length, get_or-set_self, ==_ne, ==_refl,
}
use bumbellbee_testing.Mdk.Cluster.{
  Node, no_node, Cluster, node_at, online, find_node, set_status, count_active, cluster_run_job,
  cluster_set_node_status,
}
use bumbellbee_testing.Mdk.Cluster.Join.{IsValid}

pub count_active-pos :
    (nodes : List Node) (n i : ℕ)
    → 0 < n
    → online (get_or nodes i no_node) ≡ true
    → 0 < count_active nodes n i
unfolding count_active
count_active-pos nodes zero i h e = absurd (omega arith)
count_active-pos nodes (suc n) i h e = rw e (omega arith)

-- In a valid state whose own node is online, cluster_run_job completes, and the shares it hands
-- out add up to at most 100 percent.
run_job_lem :
    (name : List ℕ) (c : Cluster)
    → IsValid c
    → online (node_at c 0) ≡ true
    → (is_some (cluster_run_job name c) ≡ true)
      × (100
            / count_active c.cluster_nodes c.num_nodes 0
            * count_active c.cluster_nodes c.num_nodes 0
          ≤ 100)
unfolding cluster_run_job
run_job_lem name c v up =
    let pos = count_active-pos c.cluster_nodes c.num_nodes 0 v.occupied up in
    (rw (==_ne (count_active c.cluster_nodes c.num_nodes 0) 0 (omega (arith, pos))), grind arith)

known_first :
    (nodes : List Node) (id n : ℕ)
    → 0 < n
    → (get_or nodes 0 no_node).id ≡ id
    → find_node nodes id n 0 ≡ some 0
unfolding find_node
known_first nodes id zero h e = absurd (omega arith)
known_first nodes id (suc n) h e = rw (e, ==_refl id)

alone_down :
    (nodes : List Node) (node : Node) (n : ℕ)
    → n ≡ 1
    → 0 < length nodes
    → node.status ≡ 0
    → count_active (set nodes 0 node) n 0 ≡ 0
unfolding count_active
alone_down nodes node zero e h down = refl
alone_down nodes node (suc zero) e h down = rw (get_or-set_self nodes 0 node no_node h, down)
alone_down nodes node (suc (suc n)) e h down = absurd (omega arith)

status_down :
    (c : Cluster)
    → IsValid c
    → cluster_set_node_status c.my_id 0 c
      ≡ record c { cluster_nodes = set c.cluster_nodes 0 (record (node_at c 0) { status = 0 }) }
unfolding cluster_set_node_status set_status
status_down c v = rw (known_first c.cluster_nodes c.my_id c.num_nodes v.occupied v.self)

-- In a valid state in which this node is the only one, cluster_run_job divides by zero once that
-- node is marked dead.
run_job_faults :
    (name : List ℕ) (c : Cluster)
    → IsValid c
    → c.num_nodes ≡ 1
    → cluster_run_job name (cluster_set_node_status c.my_id 0 c) ≡ none
unfolding cluster_run_job
run_job_faults name c v one = rw (
  status_down c v,
  alone_down c.cluster_nodes (record (node_at c 0) { status = 0 }) c.num_nodes one
      (omega (arith, v.room)) refl,
)
