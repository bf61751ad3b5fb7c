-- ===== src/Mdk/Net.antt =====
-- MDK/drivers/net/virtio_net.c: the two rings of the network device.
pub mod Receive
pub mod Send
use bumbellbee_testing.Base.{
  ℕ, zero, suc, ◌+◌, ◌-◌, ◌*◌, ◌/◌, ◌%◌, ◌^◌, Bool, ◌||◌, Option, none, some, List, [], ◌∷◌, get_or,
  leb, ◌==◌, if◌then◌else◌, update,
}
use bumbellbee_testing.Base.Text.{codes}
use bumbellbee_testing.Mdk.Console.{Call, serial_print}
use bumbellbee_testing.Mdk.Kmalloc.{Kmalloc, kmalloc}
use bumbellbee_testing.Mdk.Pci.{PciDevice, pci_find_device}

-- A write to a port, by its width.
pub data PortCall : Type 0 where
  outb outw outl : ℕ → ℕ → PortCall

-- `struct virtq_desc`, without the fields that the driver never writes.
pub record Desc : Type 0 where
  pub addr_low : ℕ
  pub len : ℕ
  pub flags : ℕ

-- `struct virtq_avail` and `struct virtq_used`.
pub record Avail : Type 0 where
  pub idx : ℕ
  pub ring : ℕ → ℕ

pub record UsedElem : Type 0 where
  pub id : ℕ
  pub len : ℕ

pub record Used : Type 0 where
  pub idx : ℕ
  pub ring : ℕ → UsedElem

-- The pointers of the driver.
pub record Pointers : Type 0 where
  pub rx_desc : ℕ
  pub rx_avail : ℕ
  pub rx_used : ℕ
  pub rx_buffers : ℕ
  pub tx_desc : ℕ
  pub tx_avail : ℕ
  pub tx_used : ℕ

-- The statics, what the pointers lead to, and the heap; `ports` logs the writes, the last one first.
-- The heap hands out memory as it is, so the tables keep what they held.
pub record Net : Type 0 where
  pub net_io_base : ℕ
  pub at : Pointers
  pub rx_descs : ℕ → Desc
  pub rx_available : Avail
  pub rx_taken : Used
  pub rx_bytes : ℕ → ℕ
  pub tx_descs : ℕ → Desc
  pub tx_available : Avail
  pub pkt : ℕ → ℕ
  pub last_used_idx : ℕ
  pub heap : Kmalloc
  pub ports : List PortCall

abbrev pub port : ℕ → Net → ℕ
port register n = (n.net_io_base + register) % 2 ^ 16

abbrev pub write : PortCall → Net → Net
write w n = record n { ports = w ∷ n.ports }

abbrev pub say : List ℕ → Net → Net
say text n = record n { heap = record n.heap { out = serial_print text ∷ n.heap.out } }

-- The loop over the 16 descriptors, by the rounds left and the index.
unfoldable pub fill_loop : ℕ → ℕ → Net → Net
fill_loop zero i n = n
fill_loop (suc rounds) i n = fill_loop rounds (i + 1) (record n {
  rx_descs =
      update n.rx_descs i
        (record { addr_low = (n.at.rx_buffers + i * 1536) % 2 ^ 32; len = 1536; flags = 2 });
  rx_available = record n.rx_available { ring = update n.rx_available.ring i i };
})

-- The four blocks of the receiving side, and the three of the sending side.
unfoldable pub alloc_rx : Net → Net
alloc_rx n =
    let (rx_desc, heap) = kmalloc 4096 n.heap in
    let (rx_avail, heap) = kmalloc 4096 heap in
    let (rx_used, heap) = kmalloc 4096 heap in
    let (rx_buffers, heap) = kmalloc (16 * 1536) heap in
    record n {
      heap = heap;
      at = record n.at {
        rx_desc = rx_desc;
        rx_avail = rx_avail;
        rx_used = rx_used;
        rx_buffers = rx_buffers;
      };
    }

unfoldable pub alloc_tx : Net → Net
alloc_tx n =
    let (tx_desc, heap) = kmalloc 4096 n.heap in
    let (tx_avail, heap) = kmalloc 4096 heap in
    let (tx_used, heap) = kmalloc 4096 heap in
    record n {
      heap = heap;
      at = record n.at { tx_desc = tx_desc; tx_avail = tx_avail; tx_used = tx_used };
    }

unfoldable pub setup_rx : Net → Net
setup_rx n =
    let n = fill_loop 16 0 (alloc_rx (write (outw (port 14 n) 0) n)) in
    let n = record n { rx_available = record n.rx_available { idx = 16 } } in
    write (outl (port 8 n) (n.at.rx_desc / 2 ^ 12)) n

unfoldable pub setup_tx : Net → Net
setup_tx n =
    let n = alloc_tx (write (outw (port 14 n) 1) n) in
    write (outl (port 8 n) (n.at.tx_desc / 2 ^ 12)) n

-- With the device found; `bar0 & ~1`.
abbrev pub attach : Option PciDevice → Net → Net
attach none n = n
attach (some net_dev) n =
    let n = record n { net_io_base = net_dev.bar0 / 2 * 2 } in
    let n = write (outb (port 18 n) 3) (write (outb (port 18 n) 0) n) in
    let n = setup_tx (setup_rx n) in
    say (codes "[VNET] Net-Mesh Online.\n") (write (outb (port 18 n) 7) n)

unfoldable pub virtio_net_init : (inl : ℕ → ℕ) → Net → Net
virtio_net_init inl n =
    attach (pci_find_device inl 0x1AF4 0x1000) (say (codes "[VNET] Locating Device...\n") n)

-- The two loops of `virtio_net_send`: ten zeros, then the data, wherever it ends.
pub clear_header : ℕ → ℕ → (ℕ → ℕ) → ℕ → ℕ
clear_header zero i pkt = pkt
clear_header (suc n) i pkt = clear_header n (i + 1) (update pkt i 0)

pub copy_data : List ℕ → ℕ → (ℕ → ℕ) → ℕ → ℕ
copy_data [] i pkt = pkt
copy_data (b ∷ bytes) i pkt = copy_data bytes (i + 1) (update pkt i b)

-- `virtqueue`: the index of a descriptor goes to the next slot of the ring.
abbrev pub offer : ℕ → Avail → Avail
offer id a = record { ring = update a.ring (a.idx % 16) id; idx = (a.idx + 1) % 2 ^ 16 }

-- With the address of `pkt`, the data and their number, which the caller gives as `len`.
pub virtio_net_send : ℕ → List ℕ → ℕ → Net → Net
virtio_net_send pkt_address bytes len n =
    if n.net_io_base == 0
    then n
    else write (outw (port 16 n) 1) (record n {
      pkt = copy_data bytes 10 (clear_header 10 0 n.pkt);
      tx_descs = update n.tx_descs 0 (record { addr_low = pkt_address; len = 10 + len; flags = 0 });
      tx_available = offer 0 n.tx_available;
    })

-- The bytes that the loop copies, from an address on.
unfoldable pub bytes_from : (ℕ → ℕ) → ℕ → ℕ → List ℕ
bytes_from memory start zero = []
bytes_from memory start (suc n) = memory start ∷ bytes_from memory (start + 1) n

-- The loop runs while `i < len` as a signed int: not at all if the length is below ten.
abbrev pub rounds : ℕ → ℕ
rounds len = if leb (2 ^ 31) len then 0 else len

-- The length returned, as the pattern of an int, and the bytes written to the buffer.
unfoldable pub virtio_net_recv : Net → (ℕ × List ℕ) × Net
virtio_net_recv n =
    let elem = n.rx_taken.ring (n.last_used_idx % 16) in
    let len = (elem.len + 2 ^ 32 - 10) % 2 ^ 32 in
    if n.at.rx_used == 0 || n.rx_taken.idx == n.last_used_idx then ((0, []), n) else (
      (len, bytes_from n.rx_bytes (elem.id * 1536 + 10) (rounds len)),
      write (outw (port 16 n) 0) (record n {
        last_used_idx = (n.last_used_idx + 1) % 2 ^ 16;
        rx_available = offer elem.id n.rx_available;
      }),
    )
