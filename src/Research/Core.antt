-- ===== src/Research/Core.antt =====
-- RESEARCH-OS/src/power/power.c, the part that the shell calls: modes, the write buffer and the
-- statistics. The statics that the shell can reach stand in one record.
pub mod Io
pub mod Number
use bumbellbee_testing.Base.{
  ℕ, zero, suc, ◌+◌, ◌-◌, ◌*◌, ◌/◌, ◌%◌, ◌^◌, Bool, true, false, ◌&&◌, List, [], ◌∷◌, set, leb, ltb,
  ◌==◌, if◌then◌else◌,
}
use bumbellbee_testing.Base.Text.{codes}

-- `power_mode_t`
pub data PowerMode : Type 0 where
  performance balanced energy_saver : PowerMode

-- The calls of the screen driver.
pub data Call : Type 0 where
  vga_print : List ℕ → Call
  vga_putc : ℕ → Call
  vga_set_color : ℕ → ℕ → Call
  vga_clear : Call
  vga_init : Call

-- `cmdbuf` and `cmdlen` are the shell's; `out` logs the calls of the screen driver, the last one
-- first.
pub record Core : Type 0 where
  pub current_mode : PowerMode
  pub io_buffer : List ℕ
  pub io_buffer_count : ℕ
  pub metric_wakeups : ℕ
  pub metric_queued_interrupts : ℕ
  pub metric_io_delayed : ℕ
  pub metric_io_flushed : ℕ
  pub metric_total_events : ℕ
  pub cmdbuf : List ℕ
  pub cmdlen : ℕ
  pub out : List Call

-- `x++` and `x += n` on `uint64_t`
abbrev pub inc64 : ℕ → ℕ
inc64 x = (x + 1) % 2 ^ 64

abbrev pub add64 : ℕ → ℕ → ℕ
add64 x n = (x + n) % 2 ^ 64

abbrev pub call : Call → Core → Core
call o c = record c { out = o ∷ c.out }

abbrev pub print : List ℕ → Core → Core
print text = call (vga_print text)

abbrev pub newline : Core → Core
newline = print (codes "\n")

abbrev pub mode_str : PowerMode → List ℕ
mode_str performance = codes "Performance"
mode_str balanced = codes "Balanced"
mode_str energy_saver = codes "Energy Saver"

power_get_mode_str : Core → List ℕ
power_get_mode_str c = mode_str c.current_mode

unfoldable pub power_get_mode : Core → PowerMode
power_get_mode c = c.current_mode

unfoldable pub power_init : Core → Core
power_init c =
    print (codes "Power Manager INIT: Balanced Mode active.\n")
      (record c { current_mode = balanced })

unfoldable pub power_set_mode : PowerMode → Core → Core
unfolding power_get_mode_str
power_set_mode mode c =
    let c = record c { current_mode = mode } in
    let c = print (codes "Power Mode Switched to: ") c in newline (print (power_get_mode_str c) c)

unfoldable pub flush_io_buffer : Core → Core
flush_io_buffer c = if c.io_buffer_count == 0 then c else record c {
  metric_wakeups = inc64 c.metric_wakeups;
  metric_io_flushed = add64 c.metric_io_flushed c.io_buffer_count;
  io_buffer_count = 0;
}

-- IO_BATCH_PERF, IO_BATCH_BALANCED and IO_BATCH_ENERGY
abbrev pub batch_limit : PowerMode → ℕ
batch_limit performance = 1
batch_limit balanced = 16
batch_limit energy_saver = 64

-- The guarded store of `power_io_write`.
abbrev store_io : ℕ → Core → Core
store_io byte c =
    if ltb c.io_buffer_count 256
    then record c {
      io_buffer = set c.io_buffer c.io_buffer_count byte;
      io_buffer_count = c.io_buffer_count + 1;
      metric_io_delayed = inc64 c.metric_io_delayed;
    }
    else c

unfoldable pub power_io_write : ℕ → Core → Core
unfolding flush_io_buffer
power_io_write byte c =
    let c = store_io byte (record c { metric_total_events = inc64 c.metric_total_events }) in
    if leb (batch_limit c.current_mode) c.io_buffer_count then flush_io_buffer c else c

-- The first loop of `print_num`, by fuel: `buf` as a stack, its top the last digit stored.
unfoldable pub digits_loop : ℕ → ℕ → List ℕ → List ℕ
digits_loop zero n buf = buf
digits_loop (suc fuel) n buf =
    let rest = digits_loop fuel (n / 10) ((n % 10 + b'0') ∷ buf) in if n == 0 then buf else rest

-- The second loop: the stack is emptied to the screen.
pub putc_all : List ℕ → Core → Core
putc_all [] c = c
putc_all (d ∷ ds) c = putc_all ds (call (vga_putc d) c)

-- A 64-bit number has at most 20 digits, the size of `buf`.
pub print_num : ℕ → Core → Core
print_num n c = if n == 0 then call (vga_putc b'0') c else putc_all (digits_loop 20 n []) c

-- The percentage that `power_print_stats` reports as saved.
pub saved : Core → ℕ
saved c =
    if ltb 0 c.metric_total_events && leb c.metric_wakeups c.metric_total_events
    then (c.metric_total_events - c.metric_wakeups) * 100 % 2 ^ 64 / c.metric_total_events
    else 0

-- One line of the statistics.
abbrev stat_line : List ℕ → ℕ → Core → Core
stat_line label n c = newline (print_num n (print label c))

pub power_print_stats : Core → Core
unfolding saved power_get_mode_str
power_print_stats c =
    let c₁ = print (codes "\n--- Energy Subsystem Metrics ---\n") (call (vga_set_color 11 0) c) in
    let c₂ = newline (print (power_get_mode_str c) (print (codes "Mode: ") c₁)) in
    let c₃ = stat_line (codes "CPU Wakeups: ") c.metric_wakeups c₂ in
    let c₄ = stat_line (codes "Interrupts Coalesced: ") c.metric_queued_interrupts c₃ in
    let c₅ = stat_line (codes "I/O Writes Delayed: ") c.metric_io_delayed c₄ in
    let c₆ = stat_line (codes "I/O Writes Flushed: ") c.metric_io_flushed c₅ in
    let c₇ = stat_line (codes "Total Events: ") c.metric_total_events c₆ in
    let c₈ = stat_line (codes "Battery Saved (%): ") (saved c) c₇ in
    call (vga_set_color 15 0) (print (codes "--------------------------------\n") c₈)
