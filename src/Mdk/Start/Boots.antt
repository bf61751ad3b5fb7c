-- ===== src/Mdk/Start/Boots.antt =====
-- The start of a node, with the waits for the serial line, and the state in which its loop begins.
use mathlib.Core.Path.{subst⁻¹}
use bumbellbee_testing.Base.{ℕ, ◌≡◌, some, List, [], ◌∷◌, ◌++◌, replicate, arith, refl, ap, ◌∙◌}
use bumbellbee_testing.Mdk.Console.{Call, vga_init}
use bumbellbee_testing.Mdk.Cluster.{cluster_init}
use bumbellbee_testing.Mdk.Cluster.Start.{
  cluster_statics, cluster_init-IsValid, cluster_init-own, cluster_init-online,
}
use bumbellbee_testing.Mdk.Pci.{pci_init}
use bumbellbee_testing.Mdk.Ramfs.{Ramfs, ramfs_init}
use bumbellbee_testing.Mdk.Serial.{serial_init}
use bumbellbee_testing.Mdk.Shell.{Node}
use bumbellbee_testing.Mdk.Main.{Boot, node_of}
use mathlib.Core.List.{reverse}
use bumbellbee_testing.Base.{ℕ, ◌≤◌, ◌<◌, length, none}
use bumbellbee_testing.Base.Uart.{ready, Sent, send_all_lem, send_all_waits}
use bumbellbee_testing.Mdk.Vga.{Screen}
use bumbellbee_testing.Mdk.Main.Safe.{Safe}
use bumbellbee_testing.Mdk.Start.{
  start, Console, shown, with_line, Kernel, Layout, banner, prompt, say, say_all, init_devices,
  init_node, kmain,
}

-- The statics that the start does not set are zero.
pub record IsZeroed (k : Kernel) : Type 0 where
  pub buffer : k.node.command_buffer ≡ replicate 256 0
  pub ptr : k.node.command_ptr ≡ 0
  pub table : k.node.cluster ≡ cluster_statics

say_all-node : (os : List Call) (k : Kernel) → (say_all os k).node ≡ k.node
say_all-node [] k = refl
say_all-node (o ∷ os) k = say_all-node os _

init_devices-node : (inl : ℕ → ℕ) (l : Layout) (k : Kernel) → (init_devices inl l k).node ≡ k.node
unfolding init_devices
init_devices-node inl l k = say_all-node (pci_init inl) _

-- What the start leaves in the statics of the shell and of the cluster.
start-node :
    (inl : ℕ → ℕ) (b : Boot) (l : Layout) (k : Kernel)
    → (start inl b l k).node ≡ record k.node {
      ramfs = ramfs_init k.node.ramfs;
      cluster = cluster_init (node_of b).0 (node_of b).1 k.node.cluster;
    }
unfolding start init_node
start-node inl b l k =
    let (node_id, detected_ram) = node_of b in
    let k1 = say vga_init (record k { ports = k.ports ++ serial_init }) in
    let k2 = init_devices inl l (say_all (banner node_id) k1) in
    let kept =
      init_devices-node inl l (say_all (banner node_id) k1) ∙ say_all-node (banner node_id) k1 in
    say_all-node (prompt node_id detected_ram) (init_node node_id detected_ram l k2)
    ∙ ap {A = Node}
        (λ n. record n {
          ramfs = ramfs_init n.ramfs;
          cluster = cluster_init node_id detected_ram n.cluster;
        })
        kept

-- The node of a zeroed kernel is safe once the table is set up.
zeroed-Safe :
    (id ram : ℕ) (files : Ramfs) (k : Kernel)
    → IsZeroed k
    → Safe (record k.node { ramfs = files; cluster = cluster_init id ram k.node.cluster })
zeroed-Safe id ram files k z = record {
  up =
      rw z.table
        (record { valid = cluster_init-IsValid id ram; own_online = cluster_init-online id ram });
  room = rw z.buffer refl;
  short = rw z.ptr (omega arith);
}

-- The bytes that the start prints.
abbrev pub printed : (inl : ℕ → ℕ) → Boot → Layout → Kernel → Screen → List ℕ
printed inl b l k s = reverse (shown (reverse (start inl b l (record k { log = [] })).log) s).serial

-- From zeroed statics, whatever the boot loader and the registers of the machine give, and where no
-- request is served on the way, the start arrives at the main loop if the serial line tells at least
-- once for each byte that the start prints that it is free; it has then sent these bytes in their order,
-- the table has the node's own number and memory and lists it online, and the shell's line is empty and
-- fits; on a line that is free less often the start waits for ever.
pub node_starts :
    (inl : ℕ → ℕ) (b : Boot) (l : Layout) (k : Kernel) (c : Console)
    → IsZeroed k
    → let bytes = printed inl b l k c.screen in
      (length bytes ≤ ready 5 c.line.status
        → (k' : Kernel) × (c' : Console) × (kmain inl b l k c ≡ some (k', c'))
          × Sent bytes c.line c'.line
          × (k'.node.cluster.my_id ≡ (node_of b).0)
          × (k'.node.cluster.my_ram ≡ (node_of b).1)
          × (k'.node.command_ptr ≡ 0)
          × Safe k'.node)
      × (ready 5 c.line.status < length bytes → kmain inl b l k c ≡ none)
unfolding kmain
node_starts inl b l k c z =
    let k0 = record k { log = [] } in
    let z0 : IsZeroed k0 = record { buffer = z.buffer; ptr = z.ptr; table = z.table } in
    let k' = start inl b l k0 in
    let e = start-node inl b l k0 in
    let (id, ram) = node_of b in
    let s = shown (reverse k'.log) c.screen in
    let safe = subst⁻¹ Safe e (zeroed-Safe id ram (ramfs_init k.node.ramfs) k0 z0) in
    let own = cluster_init-own id ram in
    let bytes = printed inl b l k c.screen in
    (
      λ enough.
          let (v, (sent, all)) = send_all_lem bytes c.line enough in
          (
            k',
            record { screen = s; line = v },
            ap (with_line k' s) sent,
            all,
            ap (λ n. n.cluster.my_id) e ∙ ap (λ t. (cluster_init id ram t).my_id) z.table ∙ own.0,
            ap (λ n. n.cluster.my_ram) e ∙ ap (λ t. (cluster_init id ram t).my_ram) z.table ∙ own.1,
            ap (λ n. n.command_ptr) e ∙ z.ptr,
            safe,
          ),
      λ busy. ap (with_line k' s) (send_all_waits bytes c.line busy),
    )
