-- ===== src/Replay/Console/Line.antt =====
-- What a sequence of characters leaves in the buffer, and the commands that lines name.
use bumbellbee_testing.Base.{
  ℕ, ◌≤◌, ◌≡◌, true, some, arith, refl, ◌∙◌, get_or, get_or-set_ne, length, length-set, ltb,
}
use bumbellbee_testing.Replay.Console.{Shell, start_trace, command, shell_run}

-- The terminator always fits.
pub record IsValid (s : Shell) : Type 0 where
  pub room : length s.input_buffer ≡ 256
  pub short : s.buffer_index ≤ 255

-- Every character keeps the shell's line and its terminator inside the buffer of 256 bytes.
shell_run-IsValid : (c : ℕ) (s : Shell) → IsValid s → IsValid (shell_run c s).1
unfolding shell_run
shell_run-IsValid c s v = ground (
  arith,
  v.room,
  v.short,
  length-set s.input_buffer s.buffer_index c,
  length-set s.input_buffer s.buffer_index 0,
)

-- In a valid state, Enter on a line of at least seven characters whose first is t and whose
-- seventh is s starts the recording, so the line trace save does not save.
save_starts :
    (s : Shell)
    → IsValid s
    → 7 ≤ s.buffer_index
    → get_or s.input_buffer 0 0 ≡ b't'
    → get_or s.input_buffer 6 0 ≡ b's'
    → (shell_run b'\n' s).0 ≡ some start_trace
unfolding shell_run command
save_starts s v long head seventh =
    let filled : ltb 0 s.buffer_index ≡ true = ground (arith, long) in
    let kept_head =
      get_or-set_ne s.input_buffer s.buffer_index 0 0 0 (omega (arith, long)) ∙ head in
    let kept_seventh =
      get_or-set_ne s.input_buffer s.buffer_index 6 0 0 (omega (arith, long)) ∙ seventh in
    rw (filled, kept_head, kept_seventh) refl
