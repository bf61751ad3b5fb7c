-- ===== src/Replay/Disk.antt =====
-- REPLAY-OS/kernel/trace_disk.c and ide.c: the trace on the sectors of a drive. The hardware
-- is a parameter; a sector is a buffer of 512 bytes.
pub mod Saved
pub mod Wire
use bumbellbee_testing.Base.Bytes.{test_bit}
use bumbellbee_testing.Base.{
  Option, none, some, ℕ, zero, suc, ◌+◌, ◌*◌, ◌/◌, ◌%◌, ◌^◌, ◌-◌, bit_or, List, [], ◌∷◌, ltb, leb,
  ◌==◌, ◌&&◌, if◌then◌else◌, update,
}
use bumbellbee_testing.Base.Ports.{PortWrite, outb}
use bumbellbee_testing.Base.Text.{codes}
use bumbellbee_testing.Replay.Trace.{Call, vga_print}

-- The two waits, with the values that the drive's status register gives at the reads to come: what is
-- left of them, or `none` where the loop goes on behind the last.
pub ide_wait_bsy : List ℕ → Option (List ℕ)
ide_wait_bsy [] = none
ide_wait_bsy (status ∷ later) =
    let rest = ide_wait_bsy later in if test_bit status 7 then rest else some later

pub ide_wait_drq : List ℕ → Option (List ℕ)
ide_wait_drq [] = none
ide_wait_drq (status ∷ later) =
    let rest = ide_wait_drq later in if test_bit status 3 then some later else rest

-- The registers that a transfer sets up for a sector, with the command, 0x20 or 0x30.
abbrev pub select_sector : ℕ → ℕ → List PortWrite
select_sector lba command =
    outb 0x1F2 1
    ∷ outb 0x1F3 (lba % 2 ^ 8)
    ∷ outb 0x1F4 (lba / 2 ^ 8 % 2 ^ 8)
    ∷ outb 0x1F5 (lba / 2 ^ 16 % 2 ^ 8)
    ∷ outb 0x1F6 (bit_or 0xE0 (lba / 2 ^ 24 % 2 ^ 4))
    ∷ outb 0x1F7 command
    ∷ []

-- The little-endian words that a write sends: the pairs of bytes of the buffer.
pub send_words : ℕ → ℕ → (ℕ → ℕ) → List ℕ
send_words zero i buffer = []
send_words (suc n) i buffer =
    (buffer (2 * i) + buffer (2 * i + 1) * 2 ^ 8) ∷ send_words n (i + 1) buffer

pub ide_write_sector : ℕ → (ℕ → ℕ) → List PortWrite × List ℕ
ide_write_sector lba buffer = (select_sector lba 0x30, send_words 256 0 buffer)

-- The words that a read takes, stored from the start of the buffer on.
pub take_words : List ℕ → ℕ → (ℕ → ℕ) → ℕ → ℕ
take_words [] i buffer = buffer
take_words (w ∷ words) i buffer =
    take_words words (i + 1)
      (update (update buffer (2 * i) (w % 2 ^ 8)) (2 * i + 1) (w / 2 ^ 8 % 2 ^ 8))

pub ide_read_sector : ℕ → List ℕ → (ℕ → ℕ) → List PortWrite × (ℕ → ℕ)
ide_read_sector lba words buffer = (select_sector lba 0x20, take_words words 0 buffer)

-- The hardware, with the contents `D`: what it makes of the registers that were written and of the words
-- sent behind them, and the words that it gives for registers that were written.
pub record Drive (D : Type 0) : Type 0 where
  pub accept : List PortWrite → List ℕ → D → D
  pub deliver : List PortWrite → D → List ℕ

-- `ide_write_sector` on a drive, and `ide_read_sector` into a buffer of 512 bytes.
pub write_sector : {D : Type 0} → Drive D → ℕ → (ℕ → ℕ) → D → D
unfolding ide_write_sector
write_sector drive lba buffer d =
    let (set_up, words) = ide_write_sector lba buffer in drive.accept set_up words d

pub read_sector : {D : Type 0} → Drive D → ℕ → D → ℕ → ℕ
unfolding ide_read_sector
read_sector drive lba d =
    (ide_read_sector lba (drive.deliver (select_sector lba 0x20) d) (λ j. 0)).1

-- `trace_count`, and the bytes from `trace_buffer` on, those behind its 24000 included.
pub record Traces : Type 0 where
  pub trace_bytes : ℕ → ℕ
  pub trace_count : ℕ
  pub out : List Call

abbrev pub say : List ℕ → Traces → Traces
say text t = record t { out = vga_print text ∷ t.out }

-- `(trace_count * sizeof(trace_event_t)) / 512 + 1`, with 24 bytes for an event and 64-bit sizes,
-- stored in 32 bits.
abbrev pub sectors_needed : ℕ → ℕ
sectors_needed count = (count * 24 / 512 + 1) % 2 ^ 32

-- The first sector: the count in its first four bytes, and zeros.
abbrev pub header : ℕ → ℕ → ℕ
header count i =
    if i == 0
    then count % 2 ^ 8
    else if i == 1
    then count / 2 ^ 8 % 2 ^ 8
    else if i == 2
    then count / 2 ^ 16 % 2 ^ 8
    else if i == 3
    then count / 2 ^ 24 % 2 ^ 8
    else 0

abbrev pub count_of : (ℕ → ℕ) → ℕ
count_of buffer = buffer 0 + buffer 1 * 2 ^ 8 + buffer 2 * 2 ^ 16 + buffer 3 * 2 ^ 24

-- 512 bytes are stored from an address on.
abbrev pub store : ℕ → (ℕ → ℕ) → (ℕ → ℕ) → ℕ → ℕ
store start sector bytes j =
    if leb start j && ltb j (start + 512) then sector (j - start) else bytes j

module _ {D : Type 0} (drive : Drive D) where
  -- The loop of `trace_save`, by the rounds left and the index.
  pub save_loop : ℕ → ℕ → (ℕ → ℕ) → D → D
  save_loop zero i bytes d = d
  save_loop (suc n) i bytes d =
      save_loop n (i + 1) bytes (write_sector drive (1001 + i) (λ j. bytes (i * 512 + j)) d)

  pub trace_save : Traces → D → Traces × D
  trace_save t d =
      let d = write_sector drive 1000 (header t.trace_count) d in
      let d = save_loop (sectors_needed t.trace_count) 0 t.trace_bytes d in
      (say (codes "Trace saved.\n") (say (codes "Saving trace to disk...\n") t), d)

  -- The loop of `trace_load`.
  pub load_loop : ℕ → ℕ → D → (ℕ → ℕ) → ℕ → ℕ
  load_loop zero i d bytes = bytes
  load_loop (suc n) i d bytes =
      load_loop n (i + 1) d (store (i * 512) (read_sector drive (1001 + i) d) bytes)

  unfoldable pub trace_load : D → Traces → Traces
  trace_load d t =
      let count = count_of (read_sector drive 1000 d) in
      say (codes "Trace loaded.\n") (record (say (codes "Loading trace from disk...\n") t) {
        trace_count = count;
        trace_bytes = load_loop (sectors_needed count) 0 d t.trace_bytes;
      })
