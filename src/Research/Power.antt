-- ===== src/Research/Power.antt =====
-- RESEARCH-OS/src/power/power.c, the interrupt hooks: keys are dispatched at once in the
-- performance mode and otherwise queued for the next flush.
pub mod Queue
pub mod Delivery
pub mod Keys
pub mod Run
pub mod Count
use bumbellbee_testing.Base.{
  ℕ, zero, suc, ◌+◌, ◌%◌, ◌^◌, Bool, true, false, List, [], ◌∷◌, set, get_or, leb, ◌==◌,
  if◌then◌else◌,
}
use bumbellbee_testing.Research.Core.{
  PowerMode, performance, balanced, energy_saver, Core, vga_putc, inc64, call, flush_io_buffer,
}
use bumbellbee_testing.Research.Shell.{shell_handle_key}

-- The statics that only the hooks reach, and the rest.
pub record Power : Type 0 where
  pub core : Core
  pub keyboard_queue : List ℕ
  pub keyboard_queue_head : ℕ
  pub keyboard_queue_tail : ℕ
  pub ticks_since_flush : ℕ

-- A key reaches the screen and the shell.
abbrev pub deliver : ℕ → Core → Core
deliver key c = shell_handle_key key (call (vga_putc key) c)

-- The loop of `flush_keyboard_queue`, by fuel.
flush_loop : ℕ → Power → Power
flush_loop zero p = p
flush_loop (suc fuel) p =
    let key = get_or p.keyboard_queue p.keyboard_queue_tail 0 in
    let rest = flush_loop fuel (record p {
      keyboard_queue_tail = (p.keyboard_queue_tail + 1) % 256;
      core = deliver key p.core;
    }) in
    if p.keyboard_queue_tail == p.keyboard_queue_head then p else rest

-- The ring has 256 slots, so that many rounds empty it.
pub flush_keyboard_queue : Power → Power
unfolding flush_loop
flush_keyboard_queue p =
    if p.keyboard_queue_head == p.keyboard_queue_tail
    then p
    else flush_loop 256
        (record p { core = record p.core { metric_wakeups = inc64 p.core.metric_wakeups } })

abbrev pub is_performance : PowerMode → Bool
is_performance performance = true
is_performance balanced = false
is_performance energy_saver = false

-- `if (next_head != keyboard_queue_tail)` and its body.
pub enqueue : ℕ → Power → Power
enqueue key p =
    let next_head = (p.keyboard_queue_head + 1) % 256 in
    if next_head == p.keyboard_queue_tail then p else record p {
      keyboard_queue = set p.keyboard_queue p.keyboard_queue_head key;
      keyboard_queue_head = next_head;
      core = record p.core { metric_queued_interrupts = inc64 p.core.metric_queued_interrupts };
    }

pub dispatch_now : ℕ → Power → Power
dispatch_now key p =
    let c = deliver key p.core in
    record p { core = record c { metric_wakeups = inc64 c.metric_wakeups } }

pub power_keyboard_hook : ℕ → Power → Power
unfolding enqueue dispatch_now
power_keyboard_hook key p =
    let p' = record p {
      core = record p.core { metric_total_events = inc64 p.core.metric_total_events };
    } in
    if is_performance p'.core.current_mode then dispatch_now key p' else enqueue key p'

-- FLUSH_TICKS_PERF, FLUSH_TICKS_BALANCED and FLUSH_TICKS_ENERGY
abbrev pub flush_limit : PowerMode → ℕ
flush_limit performance = 1
flush_limit balanced = 10
flush_limit energy_saver = 50

-- Both queues are flushed and the count starts again.
pub flush_all : Power → Power
flush_all p =
    let p' = flush_keyboard_queue p in
    record p' { core = flush_io_buffer p'.core; ticks_since_flush = 0 }

pub power_tick_hook : Power → Power
unfolding flush_all
power_tick_hook p =
    let p' = record p { ticks_since_flush = inc64 p.ticks_since_flush } in
    if leb (flush_limit p'.core.current_mode) p'.ticks_since_flush then flush_all p' else p'
