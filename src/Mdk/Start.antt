-- ===== src/Mdk/Start.antt =====
-- MDK/kernel/core/main.c: the start of a node, up to its main loop.
pub mod Boots
use bumbellbee_testing.Base.{ℕ, ◌+◌, ◌*◌, List, [], ◌∷◌, ◌++◌}
use mathlib.Core.List.{reverse}
use bumbellbee_testing.Base.{Option, none, some}
use bumbellbee_testing.Base.Uart.{Uart, send_all}
use bumbellbee_testing.Base.Ports.{PortWrite}
use bumbellbee_testing.Base.Text.{codes}
use bumbellbee_testing.Mdk.Console.{
  Call, str, int, vga_serial_printf, vga_serial_println, vga_serial_print, vga_init, vga_set_color,
}
use bumbellbee_testing.Mdk.Cluster.{Cluster, cluster_init}
use bumbellbee_testing.Mdk.Kmalloc.{Kmalloc, kmalloc_init}
use bumbellbee_testing.Mdk.Net.{Net, virtio_net_init}
use bumbellbee_testing.Mdk.Pci.{pci_init}
use bumbellbee_testing.Mdk.Ramfs.{Ramfs, ramfs_init}
use bumbellbee_testing.Mdk.Serial.{serial_init, perform}
use bumbellbee_testing.Mdk.Vga.{Screen}
use bumbellbee_testing.Mdk.Idt.{Idt, idt_init}
use bumbellbee_testing.Mdk.Shell.{Node}
use bumbellbee_testing.Mdk.Main.{Boot, node_of}

-- The statics of all files; `log` has the output calls of the start, the last one first, and `ports`
-- the writes that set the serial line up, in their order.
pub record Kernel : Type 0 where
  pub log : List Call
  pub ports : List PortWrite
  pub net : Net
  pub node : Node
  pub idt : Idt

-- The addresses that the linker gives.
pub record Layout : Type 0 where
  pub kernel_end : ℕ
  pub idt : ℕ
  pub irq0 : ℕ
  pub irq1 : ℕ

abbrev pub say : Call → Kernel → Kernel
say o k = record k { log = o ∷ k.log }

-- Calls in their order.
abbrev pub say_all : List Call → Kernel → Kernel
say_all [] k = k
say_all (o ∷ os) k = say_all os (say o k)

-- What the heap logged goes to the common log.
abbrev pub take_log : Kernel → Kernel
take_log k = record k {
  log = k.net.heap.out ++ k.log;
  net = record k.net { heap = record k.net.heap { out = [] } };
}

abbrev pub line : List ℕ
line = codes "================================================================"

abbrev pub banner : ℕ → List Call
banner node_id =
    vga_set_color 10 0
    ∷ vga_serial_println line
    ∷ vga_serial_printf (codes "                MDK Node %d [OS Cluster Instance]               \n")
        (int node_id ∷ [])
    ∷ vga_serial_println line
    ∷ []

abbrev pub prompt : ℕ → ℕ → List Call
prompt node_id detected_ram =
    vga_set_color 7 0
    ∷ vga_serial_printf (codes "[INIT] Node ID: %d, RAM: %dMB\n")
        (int node_id ∷ int detected_ram ∷ [])
    ∷ vga_serial_print (codes "\n> ")
    ∷ []

-- The heap, the bus and the network device.
pub init_devices : (inl : ℕ → ℕ) → Layout → Kernel → Kernel
init_devices inl l k =
    let heap = kmalloc_init l.kernel_end (32 * 1024 * 1024) k.net.heap in
    let k = take_log (record k { net = record k.net { heap = heap } }) in
    let k = say_all (pci_init inl) k in take_log (record k { net = virtio_net_init inl k.net })

-- The files, the table of nodes and the gates.
pub init_node : ℕ → ℕ → Layout → Kernel → Kernel
init_node node_id detected_ram l k = record k {
  node = record k.node {
    ramfs = ramfs_init k.node.ramfs;
    cluster = cluster_init node_id detected_ram k.node.cluster;
  };
  idt = idt_init l.idt l.irq0 l.irq1 k.idt;
}

-- The calls and the state up to the loop; `sti` is not modelled. `inl` gives the registers of the
-- machine.
pub start : (inl : ℕ → ℕ) → Boot → Layout → Kernel → Kernel
start inl b l k =
    let (node_id, detected_ram) = node_of b in
    let k = say vga_init (record k { ports = k.ports ++ serial_init }) in
    let k = init_devices inl l (say_all (banner node_id) k) in
    say_all (prompt node_id detected_ram) (init_node node_id detected_ram l k)

-- The screen, and the serial line, which is polled for each byte.
pub record Console : Type 0 where
  pub screen : Screen
  pub line : Uart

-- Calls in their order.
abbrev pub perform_all : List Call → Screen → Screen
perform_all [] s = s
perform_all (o ∷ os) s = perform_all os (perform o s)

-- What calls do to a screen; its `serial` has the bytes that they send, the last one first.
abbrev pub shown : List Call → Screen → Screen
shown os s = perform_all os (record s { serial = [] })

abbrev pub with_line : Kernel → Screen → Option Uart → Option (Kernel × Console)
with_line k s none = none
with_line k s (some u) = some (k, record { screen = s; line = u })

-- `kmain` up to its loop, or `none` where `serial_putc` waits for ever: the bytes go out in the order of
-- the calls, and nothing else of the start depends on when.
pub kmain : (inl : ℕ → ℕ) → Boot → Layout → Kernel → Console → Option (Kernel × Console)
unfolding start
kmain inl b l k c =
    let k = start inl b l (record k { log = [] }) in
    let s = shown (reverse k.log) c.screen in with_line k s (send_all (reverse s.serial) c.line)
