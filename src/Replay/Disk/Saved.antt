-- ===== src/Replay/Disk/Saved.antt =====
-- A trace that is saved and loaded again.
use bumbellbee_testing.Base.{
  ℕ, zero, suc, ◌+◌, ◌-◌, ◌*◌, ◌/◌, ◌%◌, ◌^◌, ◌<◌, ◌≤◌, ◌≡◌, ◌&&◌, true, arith, refl, ap, ◌∙◌, ltb,
  leb, ◌==◌, Bool-cases, inl, inr, if◌then◌else◌,
}
use bumbellbee_testing.Replay.Disk.Wire.{Keeps, read-write_sector, read-write_other}
use bumbellbee_testing.Replay.Disk.{
  write_sector, read_sector, Drive, Traces, sectors_needed, header, count_of, save_loop, trace_save,
  load_loop, trace_load,
}

module _ {D : Type 0} (drive : Drive D) (keeps : Keeps drive) where
  save_loop-other :
      (n i : ℕ) (bytes : ℕ → ℕ) (d : D) (lba j : ℕ)
      → lba < 1001 + i
      → i + n ≤ 1000
      → read_sector drive lba (save_loop drive n i bytes d) j ≡ read_sector drive lba d j
  unfolding save_loop
  save_loop-other zero i bytes d lba j lt few = refl
  save_loop-other (suc n) i bytes d lba j lt few =
      save_loop-other n (i + 1) bytes _ lba j (omega (arith, lt)) (omega (arith, few))
      ∙ read-write_other drive keeps lba (1001 + i) (λ k. bytes (i * 512 + k)) d j
          (omega (arith, lt, few)) (omega (arith, few)) (omega (arith, lt))

  save_loop-sector :
      (n i : ℕ) (bytes : ℕ → ℕ) (d : D) (k j : ℕ)
      → i ≤ k
      → k < i + n
      → j < 512
      → i + n ≤ 1000
      → ((m : ℕ) → bytes m < 2 ^ 8)
      → read_sector drive (1001 + k) (save_loop drive n i bytes d) j ≡ bytes (k * 512 + j)
  unfolding save_loop
  save_loop-sector zero i bytes d k j lo hi lt few small = absurd (omega (arith, lo, hi))
  save_loop-sector (suc n) i bytes d k j lo hi lt few small = elim (Bool-cases (k == i)) [
    | inl this ↦
        let e : k ≡ i = ground (arith, this) in
        rw e (
          save_loop-other n (i + 1) bytes _ (1001 + i) j (omega arith) (omega (arith, few))
          ∙ read-write_sector drive keeps (1001 + i) (λ m. bytes (i * 512 + m)) d j
              (omega (arith, few)) (λ m h. small (i * 512 + m)) lt)
    | inr later ↦
        save_loop-sector n (i + 1) bytes _ k j (ground (arith, later, lo)) (omega (arith, hi)) lt
          (omega (arith, few)) small
  ]

  pub load_loop-at :
      (n i : ℕ) (d : D) (bytes : ℕ → ℕ) (j : ℕ)
      → load_loop drive n i d bytes j ≡ (
          if leb (i * 512) j && ltb j ((i + n) * 512)
          then read_sector drive (1001 + j / 512) d (j % 512)
          else bytes j)
  unfolding load_loop
  load_loop-at zero i d bytes j = ground arith
  load_loop-at (suc n) i d bytes j =
      let here = leb (i * 512) j && ltb j (i * 512 + 512) in
      load_loop-at n (i + 1) d _ j ∙ elim (Bool-cases here) [
        | inl inside ↦
            let sector : j / 512 ≡ i = ground (arith, inside) in
            let place : j % 512 ≡ j - i * 512 = ground (arith, inside) in
            rw (inside, sector, place) (ground (arith, inside))
        | inr outside ↦ rw outside (ground (arith, outside))
      ]

count-header : (count : ℕ) → count < 2 ^ 32 → count_of (header count) ≡ count
count-header count h = omega (arith, h)

header-byte : (count k : ℕ) → header count k < 2 ^ 8
header-byte count k = ground arith

-- All that the sectors hold comes back, the bytes behind the events included.
pub load-save_sectors :
    {D : Type 0} (drive : Drive D) (d : D) (t u : Traces)
    → Keeps drive
    → t.trace_count ≤ 1000
    → ((j : ℕ) → t.trace_bytes j < 2 ^ 8)
    → let v = trace_load drive (trace_save drive t d).1 u in
      (v.trace_count ≡ t.trace_count)
      × ((j : ℕ) → j < sectors_needed t.trace_count * 512 → v.trace_bytes j ≡ t.trace_bytes j)
unfolding trace_load trace_save
load-save_sectors drive d t u keeps few small =
    let n = sectors_needed t.trace_count in
    let d1 = write_sector drive 1000 (header t.trace_count) d in
    let d2 = save_loop drive n 0 t.trace_bytes d1 in
    let first = λ (j : ℕ) (lt : j < 512).
      save_loop-other drive keeps n 0 t.trace_bytes d1 1000 j (omega arith) (omega (arith, few))
      ∙ read-write_sector drive keeps 1000 (header t.trace_count) d j (omega arith)
          (λ k h. header-byte t.trace_count k) lt in
    let count : count_of (read_sector drive 1000 d2) ≡ t.trace_count =
      rw
        (first 0 (omega arith), first 1 (omega arith), first 2 (omega arith), first 3 (omega arith))
        (count-header t.trace_count (omega (arith, few))) in
    (
      count,
      λ j lt.
          let inside : (leb (0 * 512) j && ltb j ((0 + n) * 512)) ≡ true = ground (arith, lt) in
          let split : j / 512 * 512 + j % 512 ≡ j = omega arith in
          rw count (
            load_loop-at drive keeps n 0 d2 u.trace_bytes j
            ∙ rw inside (
                save_loop-sector drive keeps n 0 t.trace_bytes d1 (j / 512) (j % 512) (omega arith)
                  (omega (arith, lt)) (omega arith) (omega (arith, few)) small
                ∙ ap t.trace_bytes split)),
    )

-- On a drive that keeps its sectors, if at most 1000 events, of bytes, are saved and then loaded, whatever the
-- memory holds by then, the count is restored and every byte of those events.
load-save :
    {D : Type 0} (drive : Drive D) (d : D) (t u : Traces)
    → Keeps drive
    → t.trace_count ≤ 1000
    → ((j : ℕ) → t.trace_bytes j < 2 ^ 8)
    → let v = trace_load drive (trace_save drive t d).1 u in
      (v.trace_count ≡ t.trace_count)
      × ((j : ℕ) → j < t.trace_count * 24 → v.trace_bytes j ≡ t.trace_bytes j)
load-save drive d t u keeps few small =
    let all = load-save_sectors drive d t u keeps few small in
    (all.0, λ j lt. all.1 j (omega (arith, lt, few)))

-- On such a drive, if 982 to 1000 events are saved and then loaded, the 64 bytes behind the 24000 of
-- the buffer get what they held when the trace was saved.
load_overruns :
    {D : Type 0} (drive : Drive D) (d : D) (t u : Traces) (j : ℕ)
    → Keeps drive
    → 982 ≤ t.trace_count
    → t.trace_count ≤ 1000
    → ((j : ℕ) → t.trace_bytes j < 2 ^ 8)
    → 24000 ≤ j
    → j < 24064
    → (trace_load drive (trace_save drive t d).1 u).trace_bytes j ≡ t.trace_bytes j
load_overruns drive d t u j keeps many few small behind near =
    (load-save_sectors drive d t u keeps few small).1 j (omega (arith, many, few, near))
