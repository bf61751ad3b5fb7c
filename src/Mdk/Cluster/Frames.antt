-- ===== src/Mdk/Cluster/Frames.antt =====
-- Which operations leave the table as it is, and that this node stays online.
use bumbellbee_testing.Base.{
  ℕ, zero, suc, ◌+◌, ◌/◌, ◌^◌, ◌≡◌, inl, inr, arith, refl, true, ◌&&◌, Option, none, some, List, [],
  ◌∷◌, get_or-set_self, get_or-set_ne, ltb, ◌==◌, ==_ne, Bool-cases,
}
use bumbellbee_testing.Mdk.Console.{Call, str, int, vga_serial_printf, vga_serial_println}
use bumbellbee_testing.Base.Text.{codes}
use bumbellbee_testing.Mdk.Cluster.{
  no_node, Cluster, max_nodes, mdk_magic, MdkMsg, node_at, online, known, call, set_status, join,
  cluster_add_node, cluster_poll, print_loop, cluster_print_nodes, details,
  cluster_print_node_details, count_active, job_loop, cluster_run_job,
}
use bumbellbee_testing.Mdk.Cluster.Find.{Hit, find_node-Hit}
use bumbellbee_testing.Mdk.Cluster.Join.{IsValid, counted, counted-IsValid, poll-IsValid}
use bumbellbee_testing.Mdk.Cluster.Job.{count_active-pos}

-- A valid table in which this node is online.
pub record Up (c : Cluster) : Type 0 where
  pub valid : IsValid c
  pub own_online : online (node_at c 0) ≡ true

-- The same table, behind another log and other counters.
pub Up-same :
    (c : Cluster) (o : List Call) (sent recv : ℕ)
    → Up c
    → Up (record c { out = o; net_packets_sent = sent; net_packets_recv = recv })
Up-same c o sent recv u = record {
  valid = record {
    room = u.valid.room;
    occupied = u.valid.occupied;
    few = u.valid.few;
    self = u.valid.self;
  };
  own_online = u.own_online;
}

call-Up : (o : Call) (c : Cluster) → Up c → Up (call o c)
call-Up o c u = Up-same c _ c.net_packets_sent c.net_packets_recv u

print_loop-Up : (n i : ℕ) (c : Cluster) → Up c → Up (print_loop n i c)
unfolding print_loop
print_loop-Up zero i c u = u
print_loop-Up (suc n) i c u = print_loop-Up n (i + 1) _ (call-Up _ c u)

pub print_nodes-Up : (c : Cluster) → Up c → Up (cluster_print_nodes c)
unfolding cluster_print_nodes
print_nodes-Up c u = print_loop-Up c.num_nodes 0 _ (call-Up _ c u)

details-Up : (id : ℕ) (r : Option ℕ) (c : Cluster) → Up c → Up (details id r c)
unfolding details
details-Up id none c u = call-Up _ c u
details-Up id (some i) c u = call-Up _ c u

pub print_node_details-Up : (id : ℕ) (c : Cluster) → Up c → Up (cluster_print_node_details id c)
unfolding cluster_print_node_details
print_node_details-Up id c u = details-Up id (known c id) c u

job_loop-Up : (work n i : ℕ) (c : Cluster) → Up c → Up (job_loop work n i c)
unfolding job_loop
job_loop-Up work zero i c u = u
job_loop-Up work (suc n) i c u = elim (Bool-cases (online (node_at c i))) [
  | inl up ↦ rw up (job_loop-Up work n (i + 1) _ (call-Up _ c u))
  | inr down ↦ rw down (job_loop-Up work n (i + 1) c u)
]

-- Where this node is online, the job finishes.
pub run_job-Up :
    (name : List ℕ) (c : Cluster) → Up c → (d : Cluster) × (cluster_run_job name c ≡ some d) × Up d
unfolding cluster_run_job
run_job-Up name c u =
    let active = count_active c.cluster_nodes c.num_nodes 0 in
    let pos = count_active-pos c.cluster_nodes c.num_nodes 0 u.valid.occupied u.own_online in
    let launched =
      call
        (vga_serial_printf (codes "[JOB] Launching %s across %d nodes...\n")
          (str name ∷ int c.num_nodes ∷ []))
        c in
    let worked = job_loop (100 / active) c.num_nodes 0 launched in
    let done = job_loop-Up (100 / active) c.num_nodes 0 launched (call-Up _ c u) in
    (
      call (vga_serial_println (codes "[JOB] Finished.")) worked,
      rw (==_ne active 0 (omega (arith, pos))) refl,
      call-Up _ worked done,
    )

set_status-Up :
    (id : ℕ) (r : Option ℕ) (c : Cluster)
    → Hit c.cluster_nodes id c.num_nodes 0 r
    → Up c
    → online (node_at (set_status 1 r c) 0) ≡ true
unfolding set_status
set_status-Up id none c h u = u.own_online
set_status-Up id (some zero) c h u =
    rw
      (get_or-set_self c.cluster_nodes 0 (record (node_at c 0) { status = 1 }) no_node
        (omega (arith, u.valid.room)))
      refl
set_status-Up id (some (suc i)) c h u =
    rw
      (get_or-set_ne c.cluster_nodes (suc i) 0 (record (node_at c (suc i)) { status = 1 }) no_node
        (omega arith))
      u.own_online

join-online :
    (id ram : ℕ) (r : Option ℕ) (c : Cluster)
    → Hit c.cluster_nodes id c.num_nodes 0 r
    → Up c
    → online (node_at (join id ram r c) 0) ≡ true
unfolding join
join-online id ram (some i) c h u = set_status-Up id (some i) c h u
join-online id ram none c h u = elim (Bool-cases (ltb c.num_nodes max_nodes)) [
  | inr full ↦ rw full u.own_online
  | inl room ↦
      rw
        (
          room,
          get_or-set_ne c.cluster_nodes c.num_nodes 0 (record { id = id; ram_mb = ram; status = 1 })
              no_node (omega (arith, u.valid.occupied)),
        )
        u.own_online
]

add_node-online :
    (id ram : ℕ) (c : Cluster) → Up c → online (node_at (cluster_add_node id ram c) 0) ≡ true
unfolding cluster_add_node
add_node-online id ram c u = elim (Bool-cases (id == c.my_id)) [
  | inl own ↦ rw own u.own_online
  | inr other ↦
      rw other
        (join-online id ram (known c id) c (find_node-Hit c.cluster_nodes id c.num_nodes 0) u)
]

poll-online :
    (ret : ℕ) (msg : MdkMsg) (c : Cluster)
    → Up c
    → online (node_at (cluster_poll ret msg c) 0) ≡ true
unfolding cluster_poll
poll-online ret msg c u = elim (Bool-cases (ltb 0 ret && ltb ret (2 ^ 31))) [
  | inr nothing ↦ rw nothing u.own_online
  | inl got ↦ rw got (elim (Bool-cases (ret == 12 && msg.magic == mdk_magic)) [
    | inr other ↦ rw other u.own_online
    | inl whole ↦ rw whole (
        add_node-online msg.id msg.ram (counted c)
          (record { valid = counted-IsValid c u.valid; own_online = u.own_online }))
  ])
]

-- Whatever a poll receives, this node stays online.
pub poll-Up : (ret : ℕ) (msg : MdkMsg) (c : Cluster) → Up c → Up (cluster_poll ret msg c)
poll-Up ret msg c u = record {
  valid = poll-IsValid ret msg c u.valid;
  own_online = poll-online ret msg c u;
}
