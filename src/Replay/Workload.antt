-- ===== src/Replay/Workload.antt =====
-- REPLAY-OS/kernel/workload.c: the work that the shell's commands run. The hardware of the drive is a parameter.
pub mod Survives
use bumbellbee_testing.Base.{ℕ, zero, suc, ◌+◌, ◌-◌, ◌*◌, ◌/◌, ◌%◌, ◌^◌, List, [], ◌∷◌}
use bumbellbee_testing.Base.Text.{codes}
use bumbellbee_testing.Replay.Trace.{Call, vga_print}
use bumbellbee_testing.Replay.Disk.{Drive, write_sector}

-- `buffer[i] = i` on bytes.
abbrev pub pattern : ℕ → ℕ
pattern i = i % 2 ^ 8

module _ {D : Type 0} (drive : Drive D) where
  -- The loop over the sectors, by the rounds left and the index.
  pub write_loop : ℕ → ℕ → D → D
  write_loop zero i d = d
  write_loop (suc n) i d = write_loop n (i + 1) (write_sector drive (5000 + i) pattern d)

  -- With the calls that it makes, the last one first.
  pub workload_io : List Call → D → List Call × D
  workload_io out d = (
    vga_print (codes "IO workload done.\n") ∷ vga_print (codes "Running IO workload...\n") ∷ out,
    write_loop 10 0 d,
  )

-- The loop between the two texts only counts.
unfoldable pub workload_cpu : List Call → List Call
workload_cpu out =
    vga_print (codes "CPU workload done.\n") ∷ vga_print (codes "Running CPU workload...\n") ∷ out

-- With the address and the value of the store that follows the text, at the last byte of memory.
unfoldable pub attack_sim_overflow : List Call → List Call × ℕ × ℕ
attack_sim_overflow out =
    (vga_print (codes "Simulating attack: Exception Trigger\n") ∷ out, 2 ^ 64 - 1, 123)
