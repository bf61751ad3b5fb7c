-- ===== src/Mdk/MeshTests.antt =====
-- Runs of a node from its start on, and of nodes that hear of each other.
use bumbellbee_testing.Base.{
  ℕ, ◌+◌, ◌*◌, ◌-◌, ap, ◌<◌, ◌≡◌, ◌&&◌, ◌||◌, ◌==◌, none, some, [], ◌∷◌, replicate, ltb, is_some,
  arith, refl, get_or, update,
}
use bumbellbee_testing.Base.Text.{codes}
use bumbellbee_testing.Mdk.Cluster.{no_node, Cluster, max_nodes, known, cluster_init}
use bumbellbee_testing.Mdk.Cluster
use bumbellbee_testing.Mdk.Cluster.Start.{cluster_statics}
use bumbellbee_testing.Mdk.Net.{Net}
use bumbellbee_testing.Mdk.Net.Receive.{pending}
use bumbellbee_testing.Mdk.Mesh.{Peer, cluster_ping, cluster_poll}
use bumbellbee_testing.Mdk.Mesh.Hears.{Arrives, ping_is_heard}
use bumbellbee_testing.Mdk.Mesh.Reach.{
  Mesh, no_msg, start, ping, hear, Reach, here, next, Inv, no_phantom_nodes,
}
use bumbellbee_testing.Mdk.Mesh.Knows.{Knows, stay, heard_forever}
use bumbellbee_testing.Mdk.Main.{Boot, node_of}
use bumbellbee_testing.Base.Uart.{Sent}
use bumbellbee_testing.Base.{◌≤◌, ◌^◌, length}
use bumbellbee_testing.Mdk.Main.Safe.{Safe}
use bumbellbee_testing.Mdk.Start.{Kernel, Layout, Console, kmain}
use bumbellbee_testing.Mdk.Start.Boots.{printed, node_starts}

-- A network device that nothing was taken from yet.
abbrev net : Net
net = record {
  net_io_base = 0xC000;
  at = record {
    rx_desc = 0x200000;
    rx_avail = 0x201000;
    rx_used = 0x202000;
    rx_buffers = 0x203000;
    tx_desc = 0x209000;
    tx_avail = 0x20A000;
    tx_used = 0x20B000;
  };
  rx_descs = λ i. record { addr_low = 0x203000 + i * 1536; len = 1536; flags = 2 };
  rx_available = record { idx = 16; ring = λ i. i };
  rx_taken = record { idx = 0; ring = λ i. record { id = 0; len = 0 } };
  rx_bytes = λ i. 0;
  tx_descs = λ i. record { addr_low = 0; len = 0; flags = 0 };
  tx_available = record { idx = 0; ring = λ i. 0 };
  pkt = λ i. 0;
  last_used_idx = 0;
  heap = record { next_free = 0x20C000; heap_end = 0x2200000; out = [] };
  ports = [];
}

abbrev statics : Kernel
statics = record {
  log = [];
  ports = [];
  net = net;
  node = record {
    command_buffer = replicate 256 0;
    command_ptr = 0;
    ramfs = record { files = λ i. 0; num_files = 0 };
    cluster = cluster_statics;
    kernel_uptime_ticks = 0;
  };
  idt = record {
    idt =
        λ i. record { offset_low = 0; selector = 0; zero_byte = 0; type_attr = 0; offset_high = 0 };
    limit = 0;
    base = 0;
    ports = [];
  };
}

abbrev layout : Layout
layout = record { kernel_end = 0x200000; idt = 0x104000; irq0 = 0x100100; irq1 = 0x100200 }

abbrev boot : Boot
boot = record { magic = 0x2BADB002; flags = 4; mem_upper = 65536; cmdline = some (codes "id=3") }

-- A blank screen, and a line that is free once.
abbrev console : Console
console = record {
  screen = record { vga_buffer = λ i. 0; vga_row = 0; vga_col = 0; vga_color = 7; serial = [] };
  line = record { status = 0x60 ∷ []; sent = [] };
}

node_starts_example :
    let bytes = printed (λ port. 2 ^ 32 - 1) boot layout statics console.screen in
    (length bytes ≤ 1
      → (k' : Kernel) × (c' : Console) × (kmain (λ port. 2 ^ 32 - 1) boot layout statics console
          ≡ some (k', c'))
        × Sent bytes console.line c'.line
        × (k'.node.cluster.my_id ≡ (node_of boot).0)
        × (k'.node.cluster.my_ram ≡ (node_of boot).1)
        × (k'.node.command_ptr ≡ 0)
        × Safe k'.node)
    × (1 < length bytes → kmain (λ port. 2 ^ 32 - 1) boot layout statics console ≡ none)
node_starts_example =
    node_starts (λ port. 2 ^ 32 - 1) boot layout statics console
      (record { buffer = refl; ptr = refl; table = refl })

-- The nodes 5 and 9, and a device that hands the first one's frame over in the buffer 3.
abbrev alone : ℕ → ℕ → Cluster
alone id ram = record cluster_statics {
  cluster_nodes = record { id = id; ram_mb = ram; status = 1 } ∷ replicate 31 no_node;
  num_nodes = 1;
  my_id = id;
  my_ram = ram;
}

abbrev five : Peer
five = record { cluster = alone 5 64; net = net }

abbrev nine : Peer
nine = record { cluster = alone 9 128; net = net }

abbrev handed : Net
handed = record net {
  rx_bytes = λ a. (cluster_ping 0x20B800 five).net.pkt (a - 3 * 1536);
  rx_taken = record {
    idx = 1;
    ring = λ i. record { id = 3; len = ((cluster_ping 0x20B800 five).net.tx_descs 0).len };
  };
}

handed-Arrives :
    Arrives
      (cluster_ping 0x20B800 five).net.pkt
      ((cluster_ping 0x20B800 five).net.tx_descs 0).len
      3
      net
      handed
handed-Arrives = record {
  filled = λ i lt.
      let back : 3 * 1536 + i - 3 * 1536 ≡ i = omega arith in
      ap (cluster_ping 0x20B800 five).net.pkt back;
  buffer = refl;
  noted = refl;
  counted = refl;
  tables = refl;
  seen = refl;
}

ping_is_heard_example :
    let after = cluster_poll (record nine { net = handed }) in
    (is_some (known after.cluster 5) ≡ (
      is_some (known nine.cluster 5)
      || (5 == five.cluster.my_id && ltb nine.cluster.num_nodes max_nodes)))
    × (pending after.net ≡ 0)
ping_is_heard_example =
    ping_is_heard 0x20B800 3 5 five nine handed (omega arith) (omega arith) (omega arith)
      (record { room = refl; occupied = omega arith; few = omega arith; self = refl })
      (record { attached = omega arith; used_fits = omega arith; last_fits = omega arith }) refl
      handed-Arrives

-- The node i has the id i + 1.
abbrev ids : ℕ → ℕ
ids i = i + 1

abbrev rams : ℕ → ℕ
rams i = 64

-- The first node pings, and the second one polls its message.
abbrev pinged : Mesh
pinged =
    let all = (start ids rams).nodes in
    record {
      nodes = update all 0 (Cluster.cluster_ping (all 0)).1;
      sent = (Cluster.cluster_ping (all 0)).0 ∷ [];
    }

abbrev heard : Mesh
heard = record pinged {
  nodes =
      update pinged.nodes 1
        (Cluster.cluster_poll 12 (get_or pinged.sent 0 no_msg) (pinged.nodes 1));
}

pinged-Reach : Reach ids rams pinged
pinged-Reach = next here (ping 0)

no_phantom_nodes_example : Inv ids rams heard
no_phantom_nodes_example = no_phantom_nodes ids rams (next pinged-Reach (hear 1 0 (omega arith)))

first_room : (pinged.nodes 1).num_nodes < max_nodes
unfolding cluster_init
first_room = omega arith

heard_forever_example : Knows (heard.nodes 1) (Cluster.cluster_ping ((start ids rams).nodes 0)).0.id
heard_forever_example = heard_forever ids rams 1 0 pinged-Reach (omega arith) first_room stay
