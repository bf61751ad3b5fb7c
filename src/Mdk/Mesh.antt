-- ===== src/Mdk/Mesh.antt =====
-- MDK/dist/cluster_state.c with MDK/drivers/net/virtio_net.c: the messages of the cluster in the
-- frames of the network device.
pub mod Hears
pub mod Reach
pub mod Knows
use bumbellbee_testing.Base.{
  ℕ, ◌+◌, ◌*◌, ◌/◌, ◌%◌, ◌^◌, ◌<◌, ◌≡◌, List, [], ◌∷◌, ◌++◌, get_or, arith, refl,
}
use bumbellbee_testing.Mdk.Cluster.{Cluster, MdkMsg}
use bumbellbee_testing.Mdk.Cluster
use bumbellbee_testing.Mdk.Net.{Net, virtio_net_send, virtio_net_recv}

-- The bytes of a `uint32_t`, the low one first, and the number that four bytes make.
abbrev pub word_bytes : ℕ → List ℕ
word_bytes w = w % 2 ^ 8 ∷ w / 2 ^ 8 % 2 ^ 8 ∷ w / 2 ^ 16 % 2 ^ 8 ∷ w / 2 ^ 24 % 2 ^ 8 ∷ []

abbrev pub word_at : List ℕ → ℕ → ℕ
word_at bytes i =
    get_or bytes i 0
    + get_or bytes (i + 1) 0 * 2 ^ 8
    + get_or bytes (i + 2) 0 * 2 ^ 16
    + get_or bytes (i + 3) 0 * 2 ^ 24

-- The packed `struct mdk_msg` in memory.
pub to_bytes : MdkMsg → List ℕ
to_bytes msg = word_bytes msg.magic ++ (word_bytes msg.id ++ word_bytes msg.ram)

pub of_bytes : List ℕ → MdkMsg
of_bytes bytes = record { magic = word_at bytes 0; id = word_at bytes 4; ram = word_at bytes 8 }

-- A node of the cluster: its table, and its network driver.
pub record Peer : Type 0 where
  pub cluster : Cluster
  pub net : Net

-- `cluster_ping` with its call of the driver, and the address of the driver's `pkt`.
unfoldable pub cluster_ping : ℕ → Peer → Peer
cluster_ping pkt_address p =
    let (msg, cluster) = Cluster.cluster_ping p.cluster in
    record { cluster = cluster; net = virtio_net_send pkt_address (to_bytes msg) 12 p.net }

-- `cluster_poll` with its call of the driver; a message with fewer than twelve bytes is not read.
unfoldable pub cluster_poll : Peer → Peer
cluster_poll p =
    let ((ret, bytes), net) = virtio_net_recv p.net in
    record { cluster = Cluster.cluster_poll ret (of_bytes bytes) p.cluster; net = net }
