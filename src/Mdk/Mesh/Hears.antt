-- ===== src/Mdk/Mesh/Hears.antt =====
-- A ping that is delivered: the message that one node sends is the message that another one reads.
use mathlib.Core.Path.{subst}
use bumbellbee_testing.Base.{
  ℕ, suc, ◌+◌, ◌-◌, ◌*◌, ◌%◌, ◌^◌, ◌<◌, ◌≡◌, ◌≢◌, List, [], ◌∷◌, length, get_or, arith, refl, ap,
  sym, ◌∙◌, is_some, false, ltb, leb, ◌==◌, ==_ne, ◌&&◌, ◌||◌,
}
use bumbellbee_testing.Mdk.Cluster.{MdkMsg, mdk_magic, max_nodes, known}
use bumbellbee_testing.Mdk.Cluster
use bumbellbee_testing.Mdk.Cluster.Join
use bumbellbee_testing.Mdk.Cluster.Join.{known-poll}
use bumbellbee_testing.Mdk.Net.{Net, bytes_from, virtio_net_send, virtio_net_recv}
use bumbellbee_testing.Mdk.Net.Receive
use bumbellbee_testing.Mdk.Net.Receive.{pending}
use bumbellbee_testing.Mdk.Net.Send.{virtio_net_send-Packed}
use bumbellbee_testing.Mdk.Mesh.{
  Peer, word_bytes, word_at, to_bytes, of_bytes, cluster_ping, cluster_poll,
}

-- The message that a node sends of itself.
abbrev pub announcement : Peer → MdkMsg
announcement p = record { magic = mdk_magic; id = p.cluster.my_id; ram = p.cluster.my_ram }

-- What a device does with a frame of the length `len` that stands in another machine's packet: it
-- fills the buffer `id`, one of the sixteen that the driver has, notes its length behind the entries
-- it has made before, and changes nothing that the driver alone writes.
pub record Arrives (frame : ℕ → ℕ) (len id : ℕ) (n m : Net) : Type 0 where
  pub filled : (i : ℕ) → i < len → m.rx_bytes (id * 1536 + i) ≡ frame i
  pub buffer : (m.rx_taken.ring (n.rx_taken.idx % 16)).id ≡ id
  pub noted : (m.rx_taken.ring (n.rx_taken.idx % 16)).len ≡ len
  pub counted : m.rx_taken.idx ≡ (n.rx_taken.idx + 1) % 2 ^ 16
  pub tables : m.at ≡ n.at
  pub seen : m.last_used_idx ≡ n.last_used_idx

word : (w : ℕ) → w < 2 ^ 32 → word_at (word_bytes w) 0 ≡ w
word w h = omega (arith, h)

of-to_bytes :
    (msg : MdkMsg)
    → msg.magic < 2 ^ 32
    → msg.id < 2 ^ 32
    → msg.ram < 2 ^ 32
    → of_bytes (to_bytes msg) ≡ msg
unfolding of_bytes to_bytes
of-to_bytes msg a b c =
    λ i. record { magic = word msg.magic a i; id = word msg.id b i; ram = word msg.ram c i }

bytes_from_lem :
    (bytes : List ℕ) (memory : ℕ → ℕ) (start : ℕ)
    → ((k : ℕ) → k < length bytes → memory (start + k) ≡ get_or bytes k 0)
    → bytes_from memory start (length bytes) ≡ bytes
unfolding bytes_from
bytes_from_lem [] memory start h = refl
bytes_from_lem (b ∷ bytes) memory start h =
    let none_off : start + 0 ≡ start = omega arith in
    let head : memory start ≡ b = ap memory (sym none_off) ∙ h 0 (omega arith) in
    let tail = λ (k : ℕ) (lt : k < length bytes).
      let place : start + 1 + k ≡ start + suc k = omega arith in
      ap memory place ∙ h (suc k) (omega (arith, lt)) in
    rw (head, bytes_from_lem bytes memory (start + 1) tail) refl

-- What the driver of the receiving node returns for such a frame, when none else is pending.
module _ (bytes : List ℕ) (frame : ℕ → ℕ) (id : ℕ) (n m : Net) where
  recv-frame :
      0 < length bytes
      → length bytes < 2 ^ 31
      → ((k : ℕ) → k < length bytes → frame (10 + k) ≡ get_or bytes k 0)
      → Receive.IsValid n
      → pending n ≡ 0
      → Arrives frame (10 + length bytes) id n m
      → ((virtio_net_recv m).0 ≡ (length bytes, bytes)) × (pending (virtio_net_recv m).1 ≡ 0)
  unfolding virtio_net_recv
  recv-frame some_data short content v idle arrives =
      let same : n.rx_taken.idx ≡ n.last_used_idx = omega (arith, idle, v.used_fits, v.last_fits) in
      let on : m.at.rx_used ≢ 0 = λ e. v.attached (ap (λ p. p.rx_used) (sym arrives.tables) ∙ e) in
      let other : m.rx_taken.idx ≢ m.last_used_idx =
        omega (arith, same, arrives.counted, arrives.seen, v.used_fits) in
      let slot : m.last_used_idx % 16 ≡ n.rx_taken.idx % 16 = omega (arith, arrives.seen, same) in
      let buffer : (m.rx_taken.ring (m.last_used_idx % 16)).id ≡ id =
        ap (λ x. (m.rx_taken.ring x).id) slot ∙ arrives.buffer in
      let noted : (m.rx_taken.ring (m.last_used_idx % 16)).len ≡ 10 + length bytes =
        ap (λ x. (m.rx_taken.ring x).len) slot ∙ arrives.noted in
      let len : (10 + length bytes + 2 ^ 32 - 10) % 2 ^ 32 ≡ length bytes = omega (arith, short) in
      let positive : leb (2 ^ 31) (length bytes) ≡ false = ground (arith, short) in
      let copied = bytes_from_lem bytes m.rx_bytes (id * 1536 + 10) (λ k lt.
        let place : id * 1536 + 10 + k ≡ id * 1536 + (10 + k) = omega arith in
        ap m.rx_bytes place ∙ arrives.filled (10 + k) (omega (arith, lt)) ∙ content k lt) in
      rw
        (
          ==_ne m.at.rx_used 0 on,
          ==_ne m.rx_taken.idx m.last_used_idx other,
          noted,
          len,
          positive,
          buffer,
        )
        (
          λ i. (length bytes, copied i),
          omega (arith, arrives.counted, arrives.seen, same, v.used_fits),
        )

-- If a node with a network device, and with an id and a memory of 32 bits, pings, and the device
-- of another node with a valid table and driver and no frame pending takes that frame, then after
-- the next cluster_poll there a node is known exactly if it was known before, or it is the one
-- that pinged and the table had room; no frame is pending again.
pub ping_is_heard :
    (pkt_address id j : ℕ) (a b : Peer) (m : Net)
    → a.net.net_io_base ≢ 0
    → a.cluster.my_id < 2 ^ 32
    → a.cluster.my_ram < 2 ^ 32
    → Join.IsValid b.cluster
    → Receive.IsValid b.net
    → pending b.net ≡ 0
    → Arrives
        (cluster_ping pkt_address a).net.pkt
        ((cluster_ping pkt_address a).net.tx_descs 0).len
        id
        b.net
        m
    → let after = cluster_poll (record b { net = m }) in
      (is_some (known after.cluster j) ≡ (
        is_some (known b.cluster j) || (j == a.cluster.my_id && ltb b.cluster.num_nodes max_nodes)))
      × (pending after.net ≡ 0)
unfolding to_bytes cluster_ping cluster_poll Cluster.cluster_ping
ping_is_heard pkt_address id j a b m on small_id small_ram table v idle arrives =
    let msg = announcement a in
    let sent = virtio_net_send-Packed pkt_address (to_bytes msg) a.net on in
    let frame = (virtio_net_send pkt_address (to_bytes msg) 12 a.net).pkt in
    let arrived : Arrives frame (10 + length (to_bytes msg)) id b.net m =
      subst (λ l. Arrives frame l id b.net m) sent.described arrives in
    let (got, drained) =
      recv-frame (to_bytes msg) frame id b.net m (omega arith) (omega arith) sent.content v idle
        arrived in
    let read = of-to_bytes msg (omega arith) small_id small_ram in
    (
      ap (λ r. is_some (known (Cluster.cluster_poll r.0 (of_bytes r.1) b.cluster) j)) got
          ∙ ap (λ g. is_some (known (Cluster.cluster_poll 12 g b.cluster) j)) read
          ∙ known-poll 12 j msg b.cluster table,
      drained,
    )
