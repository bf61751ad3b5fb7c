-- ===== src/Mdk/Tests.antt =====
-- Runs of the MDK model on concrete states.
use bumbellbee_testing.Base.{
  ℕ, ◌+◌, ◌-◌, ◌*◌, ◌/◌, ◌^◌, ◌<◌, ◌≤◌, ◌≡◌, ◌⊎◌, inl, true, none, some, List, [], ◌∷◌, length, All,
  All-replicate, arith, refl, replicate, is_some,
}
use bumbellbee_testing.Base.Text.{codes}
use bumbellbee_testing.Mdk.Kmalloc.{Kmalloc, kmalloc}
use bumbellbee_testing.Mdk.Kmalloc.Bump
use bumbellbee_testing.Mdk.Kmalloc.Bump.{kmalloc_lem}
use bumbellbee_testing.Mdk.Cluster.{
  no_node, Cluster, MdkMsg, mdk_magic, find_node, known, cluster_add_node,
}
use bumbellbee_testing.Mdk.Cluster.Join
use bumbellbee_testing.Mdk.Cluster.Join.{known-add_node}
use bumbellbee_testing.Base.Text.{c_string, Byte, same_word}
use bumbellbee_testing.Mdk.Console.{int, vga_serial_print}
use bumbellbee_testing.Mdk.Vga.{Screen, emit_all, print_int, vga_serial_printf}
use bumbellbee_testing.Mdk.Vga.Digits.{IsDigit, numeral, print_int_lem}
use bumbellbee_testing.Mdk.Vga.Cells.{OnScreen, vga_serial_printf-OnScreen}
use bumbellbee_testing.Mdk.Ramfs.{Ramfs, ramfs_cat, ramfs_touch, find_file, is_match}
use bumbellbee_testing.Mdk.Ramfs.Files.{cat-touch}
use bumbellbee_testing.Mdk.Ramfs.Overlong.{overlong_name}
use bumbellbee_testing.Mdk.Shell
use bumbellbee_testing.Mdk.Shell.{shell_handle_char, prompt, process_command, terminate}
use bumbellbee_testing.Mdk.Shell.Line.{LineValid, Edited, Restarted, char_edits, enter_runs}
use bumbellbee_testing.Mdk.Shell.Prefix.{process_command-c_string}
use bumbellbee_testing.Mdk.Net.{Net}
use bumbellbee_testing.Mdk.Net.Receive
use bumbellbee_testing.Mdk.Net.Receive.{Drained, receives, receives-Drained}
use bumbellbee_testing.Mdk.Main.{Running, Input}
use bumbellbee_testing.Mdk.Main.Loop.{rounds, Counted, uptime_advances}

abbrev heap : Kmalloc
heap = record { next_free = 0x200000; heap_end = 0x2200000; out = [] }

heap-IsValid : Bump.IsValid heap
heap-IsValid = record { bounded = omega arith; fits = omega arith; aligned = refl }

kmalloc_lem_example :
    let (ptr, k') = kmalloc 10 heap in
    Bump.IsValid k'
    × (k'.heap_end ≡ heap.heap_end)
    × (((ptr ≡ heap.next_free) × (ptr + 10 ≤ k'.next_free) × (k'.next_free < ptr + 10 + 4))
        ⊎ ((ptr ≡ 0)
            × (k'.next_free ≡ heap.next_free)
            × (heap.heap_end < heap.next_free + (10 + 3) / 4 * 4)))
kmalloc_lem_example = kmalloc_lem 10 heap heap-IsValid (omega arith)

-- This node, 1, alone.
abbrev alone : Cluster
alone = record {
  cluster_nodes = record { id = 1; ram_mb = 64; status = 1 } ∷ replicate 31 no_node;
  num_nodes = 1;
  my_id = 1;
  my_ram = 64;
  net_packets_sent = 0;
  net_packets_recv = 0;
  out = [];
}

alone-IsValid : Join.IsValid alone
alone-IsValid = record { room = refl; occupied = omega arith; few = omega arith; self = refl }

known-add_node_example : is_some (known (cluster_add_node 5 128 alone) 5) ≡ true
unfolding find_node
known-add_node_example = known-add_node 5 128 5 alone alone-IsValid

abbrev hello : MdkMsg
hello = record { magic = mdk_magic; id = 7; ram = 256 }

-- A cursor behind the last cell of the screen.
abbrev screen : Screen
screen = record { vga_buffer = λ i. 0; vga_row = 24; vga_col = 80; vga_color = 7; serial = [] }

print_int_lem_example :
    (ds : List ℕ) × (print_int (2 ^ 32 - 42) 10 screen ≡ emit_all (b'-' ∷ ds) screen)
    × (numeral 10 0 ds ≡ 42)
    × (length ds ≤ 32)
    × All (IsDigit 10) ds
print_int_lem_example = print_int_lem (2 ^ 32 - 42) 10 screen (omega arith) (inl refl)

vga_serial_printf-OnScreen_example :
    let s = vga_serial_printf (codes "RAM: %dMB\n") (int 128 ∷ []) screen in
    OnScreen s × (s.vga_buffer 2000 ≡ 0)
vga_serial_printf-OnScreen_example =
    vga_serial_printf-OnScreen (codes "RAM: %dMB\n") (int 128 ∷ []) 2000 screen
      (record { in_row = omega arith; in_col = omega arith }) (omega arith)

-- A table without files.
abbrev no_files : Ramfs
no_files = record { files = λ i. 0; num_files = 0 }

cat-touch_example :
    ramfs_cat (codes "log") (ramfs_touch (codes "log") (codes "hello") no_files)
    ≡ vga_serial_print (codes "hello") ∷ vga_serial_print (codes "\n") ∷ []
unfolding find_file
cat-touch_example =
    cat-touch (codes "log") (codes "hello") no_files (omega arith) (omega arith) (omega arith)
      (omega arith) (omega arith) refl

overlong_name_example :
    is_match
      (codes "a_name_of_twenty_one_")
      (ramfs_touch (codes "a_name_of_twenty_one_") (codes "hello") no_files).files
      0
    ≡ same_word (codes "hello") (codes "_one_")
overlong_name_example =
    overlong_name (codes "a_name_of_twenty_one_") (codes "hello") no_files (omega arith)
      (omega arith) (omega arith) (omega arith) (omega arith)

-- A shell with `ls` typed.
abbrev shell : Shell.Node
shell = record {
  command_buffer = b'l' ∷ b's' ∷ replicate 254 0;
  command_ptr = 2;
  cluster = alone;
  ramfs = no_files;
  kernel_uptime_ticks = 0;
}

shell-LineValid : LineValid shell
shell-LineValid = record {
  room = refl;
  short = omega arith;
  bytes = (omega arith, (omega arith, All-replicate Byte 254 0 (omega arith)));
  letters = omega arith;
}

char_edits_example :
    (m : Shell.Node) × (shell_handle_char b'x' shell ≡ some m) × Edited b'x' shell m
char_edits_example = char_edits b'x' shell (omega arith) shell-LineValid refl

enter_runs_example :
    (shell_handle_char b'\n' shell ≡ prompt (process_command (codes "ls") (terminate shell)))
    × Restarted (shell_handle_char b'\n' shell)
enter_runs_example = enter_runs b'\n' shell shell-LineValid refl

process_command-c_string_example :
    process_command (codes "ls") shell ≡ process_command (b'l' ∷ b's' ∷ 0 ∷ b'x' ∷ []) shell
unfolding c_string
process_command-c_string_example =
    process_command-c_string (b'l' ∷ b's' ∷ 0 ∷ b'x' ∷ []) shell (omega arith)

-- A machine whose every function answers as the network card.
abbrev card : ℕ → ℕ
card address = 0x10001AF4

-- A network device with one frame, in buffer 3.
abbrev net : Net
net = record {
  net_io_base = 0xC000;
  at = record {
    rx_desc = 0x200000;
    rx_avail = 0x201000;
    rx_used = 0x202000;
    rx_buffers = 0x203000;
    tx_desc = 0x209000;
    tx_avail = 0x20A000;
    tx_used = 0x20B000;
  };
  rx_descs = λ i. record { addr_low = 0x203000 + i * 1536; len = 1536; flags = 2 };
  rx_available = record { idx = 16; ring = λ i. i };
  rx_taken = record { idx = 1; ring = λ i. record { id = 3; len = 22 } };
  rx_bytes = λ i. 0;
  tx_descs = λ i. record { addr_low = 0; len = 0; flags = 0 };
  tx_available = record { idx = 0; ring = λ i. 0 };
  pkt = λ i. 0;
  last_used_idx = 0;
  heap = heap;
  ports = [];
}

net-IsValid : Receive.IsValid net
net-IsValid = record { attached = omega arith; used_fits = omega arith; last_fits = omega arith }

receives-Drained_example : Drained 1 net (receives 1 net)
receives-Drained_example =
    receives-Drained 1 net net-IsValid (omega arith) (omega arith) (omega arith)

-- A loop one round before a tick.
abbrev loop : Running
loop = record { node = shell; counter = 9999999 }

abbrev quiet : Input
quiet = record { char = none; ret = 0; msg = hello }

uptime_advances_example : (r : Running) × (rounds (quiet ∷ []) loop ≡ some r) × Counted 1 loop r
uptime_advances_example =
    uptime_advances (quiet ∷ []) loop ((refl, inl (omega arith)), tt) (omega arith) (omega arith)
