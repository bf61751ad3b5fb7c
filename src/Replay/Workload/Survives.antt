-- ===== src/Replay/Workload/Survives.antt =====
-- What the I/O workload leaves on the drive.
use bumbellbee_testing.Base.{
  ℕ, zero, suc, ◌+◌, ◌*◌, ◌/◌, ◌%◌, ◌^◌, ◌<◌, ◌≤◌, ◌≡◌, ◌⊎◌, List, arith, refl, sym, ◌∙◌, ◌==◌,
  Bool-cases, inl, inr,
}
use bumbellbee_testing.Replay.Trace.{Call}
use bumbellbee_testing.Replay.Disk.Wire.{Keeps, read-write_sector, read-write_other}
use bumbellbee_testing.Replay.Disk.{read_sector}
use bumbellbee_testing.Replay.Disk.{Drive, Traces, sectors_needed, count_of, trace_save, trace_load}
use bumbellbee_testing.Replay.Disk.Saved.{load_loop-at, load-save_sectors}
use bumbellbee_testing.Replay.Workload.{pattern, write_loop, workload_io}

module _ {D : Type 0} (drive : Drive D) (keeps : Keeps drive) where
  write_loop-other :
      (n i : ℕ) (d : D) (lba j : ℕ)
      → (lba < 5000 + i) ⊎ (5000 + i + n ≤ lba)
      → lba < 2 ^ 28
      → i + n ≤ 10
      → read_sector drive lba (write_loop drive n i d) j ≡ read_sector drive lba d j
  unfolding write_loop
  write_loop-other zero i d lba j out small few = refl
  write_loop-other (suc n) i d lba j out small few =
      write_loop-other n (i + 1) _ lba j (omega (arith, out)) small (omega (arith, few))
      ∙ read-write_other drive keeps lba (5000 + i) pattern d j small (omega (arith, few))
          (omega (arith, out))

  write_loop-sector :
      (n i : ℕ) (d : D) (k j : ℕ)
      → i ≤ k
      → k < i + n
      → i + n ≤ 10
      → j < 512
      → read_sector drive (5000 + k) (write_loop drive n i d) j ≡ j % 2 ^ 8
  unfolding write_loop
  write_loop-sector zero i d k j lo hi few lt = absurd (omega (arith, lo, hi))
  write_loop-sector (suc n) i d k j lo hi few lt = elim (Bool-cases (k == i)) [
    | inl this ↦
        let e : k ≡ i = ground (arith, this) in
        rw e (
          write_loop-other n (i + 1) _ (5000 + i) j (inl (omega arith)) (omega (arith, few))
            (omega (arith, few))
          ∙ read-write_sector drive keeps (5000 + i) pattern d j (omega (arith, few))
              (λ m h. omega arith) lt)
    | inr later ↦
        write_loop-sector n (i + 1) _ k j (ground (arith, later, lo)) (omega (arith, hi))
          (omega (arith, few)) lt
  ]

-- Two drives that agree on the sectors of a trace load the same.
load-agree :
    {D : Type 0} (drive : Drive D) (d e : D) (u : Traces)
    → Keeps drive
    → ((lba j : ℕ) → lba < 5000 → read_sector drive lba e j ≡ read_sector drive lba d j)
    → let v = trace_load drive e u in
      let w = trace_load drive d u in
      (v.trace_count ≡ w.trace_count) × ((j : ℕ) → j < 24064 → v.trace_bytes j ≡ w.trace_bytes j)
unfolding trace_load
load-agree drive d e u keeps same =
    let low = λ (j : ℕ). same 1000 j (omega arith) in
    let count : count_of (read_sector drive 1000 e) ≡ count_of (read_sector drive 1000 d) =
      rw (low 0, low 1, low 2, low 3) refl in
    let n = sectors_needed (count_of (read_sector drive 1000 d)) in
    (
      count,
      λ j lt.
          let sector = same (1001 + j / 512) (j % 512) (omega (arith, lt)) in
          rw count (
            load_loop-at drive keeps n 0 e u.trace_bytes j
            ∙ rw sector (sym (load_loop-at drive keeps n 0 d u.trace_bytes j))),
    )

-- On hardware that keeps its sectors, told apart by 28 bits, the I/O workload writes the numbers from 0 on,
-- modulo 256, to the ten sectors from 5000 on, and changes no other below 2^28; so a trace of at most 1000
-- events, of bytes, that was saved before it loads as it was saved.
pub workload_io_lem :
    {D : Type 0} (drive : Drive D) (d : D) (t u : Traces) (out : List Call)
    → Keeps drive
    → t.trace_count ≤ 1000
    → ((j : ℕ) → t.trace_bytes j < 2 ^ 8)
    → let saved = (trace_save drive t d).1 in
      let after = (workload_io drive out saved).1 in
      let v = trace_load drive after u in
      ((k j : ℕ) → k < 10 → j < 512 → read_sector drive (5000 + k) after j ≡ j % 256)
      × ((lba j : ℕ)
          → (lba < 5000) ⊎ (5010 ≤ lba)
          → lba < 2 ^ 28
          → read_sector drive lba after j ≡ read_sector drive lba saved j)
      × (v.trace_count ≡ t.trace_count)
      × ((j : ℕ) → j < t.trace_count * 24 → v.trace_bytes j ≡ t.trace_bytes j)
unfolding workload_io
workload_io_lem drive d t u out keeps few bytes =
    let saved = (trace_save drive t d).1 in
    let after = write_loop drive 10 0 saved in
    let all = load-save_sectors drive d t u keeps few bytes in
    let same = load-agree drive saved after u keeps (λ lba j lt.
      write_loop-other drive keeps 10 0 saved lba j (inl (omega (arith, lt))) (omega (arith, lt))
        (omega arith)) in
    (
      λ k j lt in_sector.
          write_loop-sector drive keeps 10 0 saved k j (omega arith) (omega (arith, lt))
            (omega arith) in_sector,
      λ lba j away small.
          write_loop-other drive keeps 10 0 saved lba j (omega (arith, away)) small (omega arith),
      same.0 ∙ all.0,
      λ j lt. same.1 j (omega (arith, lt, few)) ∙ all.1 j (omega (arith, lt, few)),
    )
