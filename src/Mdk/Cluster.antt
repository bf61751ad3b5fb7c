-- ===== src/Mdk/Cluster.antt =====
-- MDK/dist/cluster_state.c: the table of the nodes that this one has heard of.
pub mod Find
pub mod Join
pub mod Job
pub mod Listed
pub mod Start
pub mod Frames
use bumbellbee_testing.Base.{
  ℕ, zero, suc, ◌+◌, ◌/◌, ◌%◌, ◌^◌, ◌<◌, Bool, true, false, not, ◌&&◌, Option, none, some, List, [],
  ◌∷◌, set, get_or, ltb, ◌==◌, if◌then◌else◌,
}
use bumbellbee_testing.Base.Text.{codes}
use bumbellbee_testing.Mdk.Console.{Call, str, int, vga_serial_printf, vga_serial_println}

-- `struct node`
pub record Node : Type 0 where
  pub id : ℕ
  pub ram_mb : ℕ
  pub status : ℕ

abbrev pub no_node : Node
no_node = record { id = 0; ram_mb = 0; status = 0 }

-- The statics; `out` logs the output calls, the last one first.
pub record Cluster : Type 0 where
  pub cluster_nodes : List Node
  pub num_nodes : ℕ
  pub my_id : ℕ
  pub my_ram : ℕ
  pub net_packets_sent : ℕ
  pub net_packets_recv : ℕ
  pub out : List Call

abbrev pub max_nodes : ℕ
max_nodes = 32

-- MDK_MAGIC and `struct mdk_msg`
abbrev pub mdk_magic : ℕ
mdk_magic = 0x1337beef

pub record MdkMsg : Type 0 where
  pub magic : ℕ
  pub id : ℕ
  pub ram : ℕ

abbrev pub node_at : Cluster → ℕ → Node
node_at c i = get_or c.cluster_nodes i no_node

abbrev pub set_node : Cluster → ℕ → Node → Cluster
set_node c i n = record c { cluster_nodes = set c.cluster_nodes i n }

abbrev pub call : Call → Cluster → Cluster
call o c = record c { out = o ∷ c.out }

-- The loop that clears the table, by the rounds left.
clear_loop : ℕ → ℕ → Cluster → Cluster
clear_loop zero i c = c
clear_loop (suc n) i c = clear_loop n (i + 1) (set_node c i (record (node_at c i) { status = 0 }))

unfoldable pub cluster_init : ℕ → ℕ → Cluster → Cluster
unfolding clear_loop
cluster_init self_id self_ram c =
    let c = record c { my_id = self_id; my_ram = self_ram; num_nodes = 1 } in
    let c = clear_loop max_nodes 0 c in
    set_node c 0 (record { id = self_id; ram_mb = self_ram; status = 1 })

-- The message handed to `virtio_net_send`, and the new state.
unfoldable pub cluster_ping : Cluster → MdkMsg × Cluster
cluster_ping c = (
  record { magic = mdk_magic; id = c.my_id; ram = c.my_ram },
  record c { net_packets_sent = (c.net_packets_sent + 1) % 2 ^ 32 },
)

-- The first of `n` nodes from index `i` on that has the id: the searches of `cluster_add_node`,
-- `cluster_print_node_details` and `cluster_set_node_status`.
unfoldable pub find_node : List Node → ℕ → ℕ → ℕ → Option ℕ
find_node nodes id zero i = none
find_node nodes id (suc n) i =
    let rest = find_node nodes id n (i + 1) in
    if (get_or nodes i no_node).id == id then some i else rest

abbrev pub known : Cluster → ℕ → Option ℕ
known c id = find_node c.cluster_nodes id c.num_nodes 0

set_status : ℕ → Option ℕ → Cluster → Cluster
set_status status none c = c
set_status status (some i) c = set_node c i (record (node_at c i) { status = status })

-- Behind the search of `cluster_add_node`.
join : ℕ → ℕ → Option ℕ → Cluster → Cluster
unfolding set_status
join id ram (some i) c = set_status 1 (some i) c
join id ram none c =
    if ltb c.num_nodes max_nodes
    then call
        (vga_serial_printf (codes "\n[NET] DISCOVERED Peer %d (%dMB RAM)\n> ")
          (int id ∷ int ram ∷ []))
        (record (set_node c c.num_nodes (record { id = id; ram_mb = ram; status = 1 })) {
          num_nodes = c.num_nodes + 1;
        })
    else c

pub cluster_add_node : ℕ → ℕ → Cluster → Cluster
unfolding find_node join
cluster_add_node id ram c = if id == c.my_id then c else join id ram (known c id) c

-- `ret` and `msg` are what `virtio_net_recv` returns and writes, `ret` as a 32-bit pattern;
-- the message has twelve bytes.
pub cluster_poll : ℕ → MdkMsg → Cluster → Cluster
unfolding cluster_add_node
cluster_poll ret msg c =
    if ltb 0 ret && ltb ret (2 ^ 31)
    then (let c = record c { net_packets_recv = (c.net_packets_recv + 1) % 2 ^ 32 } in
        if ret == 12 && msg.magic == mdk_magic then cluster_add_node msg.id msg.ram c else c)
    else c

pub cluster_set_node_status : ℕ → ℕ → Cluster → Cluster
unfolding set_status
cluster_set_node_status id status c = set_status status (known c id) c

abbrev pub online : Node → Bool
online n = not (n.status == 0)

-- The loop of `cluster_print_nodes`.
print_loop : ℕ → ℕ → Cluster → Cluster
print_loop zero i c = c
print_loop (suc n) i c = print_loop n (i + 1) (
    call
      (vga_serial_printf (codes " Node %d: %d MB [%s]\n") (
        int (node_at c i).id
        ∷ int (node_at c i).ram_mb
        ∷ str (if online (node_at c i) then codes "ONLINE" else codes "DEAD")
        ∷ []))
      c)

pub cluster_print_nodes : Cluster → Cluster
unfolding print_loop
cluster_print_nodes c =
    print_loop c.num_nodes 0 (call (vga_serial_println (codes "--- MDK Active Mesh ---")) c)

details : ℕ → Option ℕ → Cluster → Cluster
details id none c = call (vga_serial_println (codes "Node not found.")) c
details id (some i) c =
    call
      (vga_serial_printf (codes "Node %d Specs:\n - RAM: %d MB\n - HW: Virtio-Net\n - Status: %s\n")
        (int id
          ∷ int (node_at c i).ram_mb
          ∷ str (if online (node_at c i) then codes "Active" else codes "Dead")
          ∷ []))
      c

pub cluster_print_node_details : ℕ → Cluster → Cluster
unfolding details find_node
cluster_print_node_details id c = details id (known c id) c

-- The count of nodes that are up, among `n` from index `i` on.
pub count_active : List Node → ℕ → ℕ → ℕ
count_active nodes zero i = 0
count_active nodes (suc n) i =
    (if online (get_or nodes i no_node) then 1 else 0) + count_active nodes n (i + 1)

-- One line for each node that is up, `work` percent to each.
job_loop : ℕ → ℕ → ℕ → Cluster → Cluster
job_loop work zero i c = c
job_loop work (suc n) i c = job_loop work n (i + 1) (
    if online (node_at c i)
    then call
        (vga_serial_printf (codes " -> Node %d: Processing shard (%d%%)\n")
          (int (node_at c i).id ∷ int work ∷ []))
        c
    else c)

-- `none` is the fault of the division by zero.
pub cluster_run_job : List ℕ → Cluster → Option Cluster
unfolding count_active job_loop
cluster_run_job name c =
    let active = count_active c.cluster_nodes c.num_nodes 0 in
    let c =
      call
        (vga_serial_printf (codes "[JOB] Launching %s across %d nodes...\n")
          (str name ∷ int c.num_nodes ∷ []))
        c in
    if active == 0
    then none
    else some (
        call (vga_serial_println (codes "[JOB] Finished."))
          (job_loop (100 / active) c.num_nodes 0 c))

grep_loop : ℕ → ℕ → Cluster → Cluster
grep_loop zero i c = c
grep_loop (suc n) i c = grep_loop n (i + 1) (
    if online (node_at c i)
    then call (vga_serial_printf (codes " [NODE %d] Scan: OK.\n") (int (node_at c i).id ∷ [])) c
    else c)

cluster_dist_grep : List ℕ → Cluster → Cluster
unfolding grep_loop
cluster_dist_grep pattern c =
    grep_loop c.num_nodes 0
      (call (vga_serial_printf (codes "[GREP] Querying mesh for '%s'...\n") (str pattern ∷ [])) c)
