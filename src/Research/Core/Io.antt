-- ===== src/Research/Core/Io.antt =====
-- The write buffer: nothing is dropped, and the metrics account for every byte.
use bumbellbee_testing.Base.{
  ℕ, ◌+◌, ◌%◌, ◌^◌, ◌≤◌, ◌<◌, ◌≡◌, List, [], ◌∷◌, arith, length, ◌==◌, Bool-cases, inl, inr,
  if◌then◌else◌, leb, refl, ◌∙◌, get_or, ap, length-set, get_or-set_self,
}
use bumbellbee_testing.Research.Core.{
  PowerMode, performance, balanced, energy_saver, Core, Call, call, inc64, batch_limit,
  flush_io_buffer, power_io_write, putc_all, print_num, digits_loop, power_print_stats,
}

-- Fewer bytes wait than the largest batch, and the bytes ever buffered are those flushed and those
-- that wait, modulo 2 ^ 64.
pub record IoValid (c : Core) : Type 0 where
  pub room : length c.io_buffer ≡ 256
  pub few : c.io_buffer_count < 64
  pub accounted : c.metric_io_delayed ≡ (c.metric_io_flushed + c.io_buffer_count) % 2 ^ 64

batch_limit_bounds : (m : PowerMode) → (0 < batch_limit m) × (batch_limit m ≤ 64)
batch_limit_bounds performance = omega arith
batch_limit_bounds balanced = omega arith
batch_limit_bounds energy_saver = omega arith

pub flush_io_buffer-IoValid : (c : Core) → IoValid c → IoValid (flush_io_buffer c)
unfolding flush_io_buffer
flush_io_buffer-IoValid c v = ground arith

-- On a valid write buffer, power_io_write stores the byte behind those that wait, counts it as
-- delayed, flushes exactly when the batch of the mode is full, and keeps the buffer valid.
pub io_write_lem :
    (byte : ℕ) (c : Core)
    → IoValid c
    → let c' = power_io_write byte c in
      IoValid c'
      × (get_or c'.io_buffer c.io_buffer_count 0 ≡ byte)
      × (c'.metric_io_delayed ≡ inc64 c.metric_io_delayed)
      × (c'.io_buffer_count ≡ (
          if leb (batch_limit c.current_mode) (c.io_buffer_count + 1)
          then 0
          else c.io_buffer_count + 1))
unfolding power_io_write
io_write_lem byte c v = ground (
  arith,
  batch_limit_bounds c.current_mode,
  length-set c.io_buffer c.io_buffer_count byte,
  get_or-set_self c.io_buffer c.io_buffer_count byte 0,
)

-- Printing changes the screen alone.
abbrev pub with_out : Core → List Call → Core
with_out c o = record c { out = o }

putc_all_frame : (ds : List ℕ) (c : Core) → putc_all ds c ≡ with_out c (putc_all ds c).out
unfolding putc_all
putc_all_frame [] c = refl
putc_all_frame (d ∷ ds) c = putc_all_frame ds _

print_num_frame : (n : ℕ) (c : Core) → print_num n c ≡ with_out c (print_num n c).out
unfolding print_num
print_num_frame n c = elim (Bool-cases (n == 0)) [
  | inl done ↦ rw done
  | inr more ↦ rw more (putc_all_frame (digits_loop 20 n []) c)
]

OnlyOut : Core → Core → Type 0
OnlyOut c d = d ≡ with_out c d.out

OnlyOut-refl : (c : Core) → OnlyOut c c
unfolding OnlyOut
OnlyOut-refl c = refl

OnlyOut-call : (c d : Core) (o : Call) → OnlyOut c d → OnlyOut c (call o d)
unfolding OnlyOut
OnlyOut-call c d o h = ap (call o) h

OnlyOut-print_num : (c d : Core) (n : ℕ) → OnlyOut c d → OnlyOut c (print_num n d)
unfolding OnlyOut
OnlyOut-print_num c d n h = print_num_frame n d ∙ ap (λ k. with_out k (print_num n d).out) h

-- power_print_stats changes nothing but the screen.
pub print_stats_frame : (c : Core) → power_print_stats c ≡ with_out c (power_print_stats c).out
unfolding power_print_stats OnlyOut
print_stats_frame c =
    let header = put _ _ (put _ _ (put _ _ (put _ _ (put _ _ (OnlyOut-refl c))))) in
    let counts = line _ _ _ _ (line _ _ _ _ (line _ _ _ _ (line _ _ _ _ (line _ _ _ _ header)))) in
    put _ _ (put _ _ (line _ _ _ _ counts))
  where
    put : (d : Core) (o : Call) → OnlyOut c d → OnlyOut c (call o d)
    put d o h = OnlyOut-call c d o h

    line :
        (d : Core) (o p : Call) (n : ℕ) → OnlyOut c d → OnlyOut c (call o (print_num n (call p d)))
    line d o p n h = OnlyOut-call c _ o (OnlyOut-print_num c _ n (OnlyOut-call c d p h))
