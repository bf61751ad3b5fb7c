-- ===== src/Replay/Disk/Wire.antt =====
-- What a transfer puts on the wire: the sector it names, and the words of the buffer.
use bumbellbee_testing.Base.{
  ℕ, zero, suc, ◌+◌, ◌*◌, ◌/◌, ◌%◌, ◌^◌, ◌<◌, ◌≤◌, ◌≡◌, ◌≢◌, sym, ◌∙◌, true, false, bit_or, List,
  [], ◌∷◌, ◌++◌, All, some, length, arith, refl, ap, ◌∙◌, leb, ltb, ◌==◌, ==_iff, ◌&&◌, Bool-cases,
  inl, inr, if◌then◌else◌,
}
use bumbellbee_testing.Base.Bytes.{agree, agree_at, test_bit}
use bumbellbee_testing.Base.Ports.{PortWrite}
use bumbellbee_testing.Replay.Disk.{
  Drive, write_sector, read_sector, select_sector, send_words, take_words, ide_write_sector,
  ide_read_sector, ide_wait_bsy, ide_wait_drq,
}

-- The byte that a drive finds in a register.
abbrev pub register : ℕ → List PortWrite → ℕ
register port [] = 0
register port (w ∷ ws) = if w.port == port then w.value else register port ws

-- The sector that a drive reads off its registers, with 28 bits.
abbrev pub addressed : List PortWrite → ℕ
addressed ws =
    register 0x1F3 ws
    + register 0x1F4 ws * 2 ^ 8
    + register 0x1F5 ws * 2 ^ 16
    + register 0x1F6 ws % 2 ^ 4 * 2 ^ 24

drive_bits : (x : ℕ) → x < 16 → bit_or 0xE0 x ≡ 0xE0 + x
unfolding agree
drive_bits x lt =
    (==_iff (bit_or 0xE0 x) (0xE0 + x)).0
      (agree_at (λ n. bit_or 0xE0 n == 0xE0 + n) (λ n. true) 16 x lt refl)

addressed-select_sector :
    (lba command : ℕ) → lba < 2 ^ 28 → addressed (select_sector lba command) ≡ lba
addressed-select_sector lba command lt =
    rw (drive_bits (lba / 2 ^ 24 % 2 ^ 4) (omega arith)) (omega (arith, lt))

length-send_words : (n i : ℕ) (buffer : ℕ → ℕ) → length (send_words n i buffer) ≡ n
unfolding send_words
length-send_words zero i buffer = refl
length-send_words (suc n) i buffer = ap suc (length-send_words n (i + 1) buffer)

-- Where bytes are taken from the words of a buffer, and where they stay.
take-send_words :
    (n i : ℕ) (buffer into : ℕ → ℕ) (j : ℕ)
    → ((k : ℕ) → k < 512 → buffer k < 2 ^ 8)
    → i + n ≤ 256
    → take_words (send_words n i buffer) i into j
      ≡ (if leb (2 * i) j && ltb j (2 * (i + n)) then buffer j else into j)
unfolding send_words take_words
take-send_words zero i buffer into j bytes le = ground arith
take-send_words (suc n) i buffer into j bytes le =
    let low = bytes (2 * i) (omega (arith, le)) in
    let high = bytes (2 * i + 1) (omega (arith, le)) in
    let first : (buffer (2 * i) + buffer (2 * i + 1) * 2 ^ 8) % 2 ^ 8 ≡ buffer (2 * i) =
      omega (arith, low) in
    let second : (buffer (2 * i) + buffer (2 * i + 1) * 2 ^ 8) / 2 ^ 8 % 2 ^ 8
        ≡ buffer (2 * i + 1) =
      omega (arith, low, high) in
    take-send_words n (i + 1) buffer _ j bytes (omega (arith, le))
    ∙ elim (Bool-cases (j == 2 * i + 1)) [
      | inl odd ↦
          let e : j ≡ 2 * i + 1 = ground (arith, odd) in rw (odd, second) (rw e (ground arith))
      | inr not_odd ↦ elim (Bool-cases (j == 2 * i)) [
        | inl even ↦
            let e : j ≡ 2 * i = ground (arith, even) in
            rw (not_odd, even, first) (rw e (ground arith))
        | inr other ↦ rw (not_odd, other) (ground (arith, not_odd, other))
      ]
    ]

-- For a sector below 2^28 and a buffer of bytes, a write and a read name the same sector in the drive's
-- registers, and a read that takes the 256 words that the write has sent restores all 512 bytes,
-- whatever the buffer held, and changes no byte behind them.
pub read-write_wire :
    (lba : ℕ) (buffer into : ℕ → ℕ)
    → lba < 2 ^ 28
    → ((k : ℕ) → k < 512 → buffer k < 2 ^ 8)
    → let (set_up, words) = ide_write_sector lba buffer in
      let (set_up', back) = ide_read_sector lba words into in
      (addressed set_up ≡ lba)
      × (addressed set_up' ≡ lba)
      × (length words ≡ 256)
      × ((j : ℕ) → back j ≡ (if ltb j 512 then buffer j else into j))
unfolding ide_write_sector ide_read_sector
read-write_wire lba buffer into lt bytes = (
  addressed-select_sector lba 0x30 lt,
  addressed-select_sector lba 0x20 lt,
  length-send_words 256 0 buffer,
  λ j. take-send_words 256 0 buffer into j bytes (omega arith) ∙ ground arith,
)

-- What is relied on of the hardware: for a command to read, 0x20, it gives the 256 words that it got with
-- the last command to write, 0x30, for the same 28 bits of the sector, and what it gives for a sector is not
-- changed by a write to another one.
pub record Keeps {D : Type 0} (drive : Drive D) : Type 0 where
  pub same :
      (w r : List PortWrite) (words : List ℕ) (d : D)
      → register 0x1F7 w ≡ 0x30
      → register 0x1F7 r ≡ 0x20
      → addressed r ≡ addressed w
      → length words ≡ 256
      → All (λ word. word < 2 ^ 16) words
      → drive.deliver r (drive.accept w words d) ≡ words
  pub others :
      (w r : List PortWrite) (words : List ℕ) (d : D)
      → register 0x1F7 w ≡ 0x30
      → register 0x1F7 r ≡ 0x20
      → addressed r ≢ addressed w
      → length words ≡ 256
      → drive.deliver r (drive.accept w words d) ≡ drive.deliver r d

send_words-small :
    (n i : ℕ) (buffer : ℕ → ℕ)
    → ((k : ℕ) → k < 512 → buffer k < 2 ^ 8)
    → i + n ≤ 256
    → All (λ word. word < 2 ^ 16) (send_words n i buffer)
unfolding send_words
send_words-small zero i buffer bytes le = tt
send_words-small (suc n) i buffer bytes le =
    let low = bytes (2 * i) (omega (arith, le)) in
    let high = bytes (2 * i + 1) (omega (arith, le)) in
    (omega (arith, low, high), send_words-small n (i + 1) buffer bytes (omega (arith, le)))

-- What the driver makes of such hardware: sectors of 28 bits that read as they were last written.
module _ {D : Type 0} (drive : Drive D) (keeps : Keeps drive) where
  pub read-write_sector :
      (lba : ℕ) (b : ℕ → ℕ) (d : D) (i : ℕ)
      → lba < 2 ^ 28
      → ((k : ℕ) → k < 512 → b k < 2 ^ 8)
      → i < 512
      → read_sector drive lba (write_sector drive lba b d) i ≡ b i
  unfolding read_sector write_sector ide_read_sector ide_write_sector
  read-write_sector lba b d i small bytes lt =
      let given =
        keeps.same (select_sector lba 0x30) (select_sector lba 0x20) (send_words 256 0 b) d refl
          refl
          (addressed-select_sector lba 0x20 small ∙ sym (addressed-select_sector lba 0x30 small))
          (length-send_words 256 0 b) (send_words-small 256 0 b bytes (omega arith)) in
      rw given (take-send_words 256 0 b (λ j. 0) i bytes (omega arith) ∙ ground (arith, lt))

  pub read-write_other :
      (lba lba' : ℕ) (b : ℕ → ℕ) (d : D) (i : ℕ)
      → lba < 2 ^ 28
      → lba' < 2 ^ 28
      → lba ≢ lba'
      → read_sector drive lba (write_sector drive lba' b d) i ≡ read_sector drive lba d i
  unfolding read_sector write_sector ide_read_sector ide_write_sector
  read-write_other lba lba' b d i small small' apart =
      let given =
        keeps.others (select_sector lba' 0x30) (select_sector lba 0x20) (send_words 256 0 b) d refl
          refl
          (omega (
            arith,
            apart,
            addressed-select_sector lba 0x20 small,
            addressed-select_sector lba' 0x30 small',
          ))
          (length-send_words 256 0 b) in
      rw given refl

-- The waits end with the first status that tells of an idle drive, or of one that has data.
wait_bsy_lem :
    (before : List ℕ) (status : ℕ) (later : List ℕ)
    → All (λ s. test_bit s 7 ≡ true) before
    → test_bit status 7 ≡ false
    → ide_wait_bsy (before ++ (status ∷ later)) ≡ some later
unfolding ide_wait_bsy
wait_bsy_lem [] status later busy idle = rw idle refl
wait_bsy_lem (s ∷ before) status later busy idle =
    rw busy.0 (wait_bsy_lem before status later busy.1 idle)

wait_drq_lem :
    (before : List ℕ) (status : ℕ) (later : List ℕ)
    → All (λ s. test_bit s 3 ≡ false) before
    → test_bit status 3 ≡ true
    → ide_wait_drq (before ++ (status ∷ later)) ≡ some later
unfolding ide_wait_drq
wait_drq_lem [] status later none_yet data_there = rw data_there refl
wait_drq_lem (s ∷ before) status later none_yet data_there =
    rw none_yet.0 (wait_drq_lem before status later none_yet.1 data_there)
