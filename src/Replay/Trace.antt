-- ===== src/Replay/Trace.antt =====
-- REPLAY-OS/kernel/trace.c, timer.c and replay.c: the ring of the last 1000 events, the tick
-- counter that stamps them, and the cursor that plays them back.
pub mod Log
pub mod Play
use bumbellbee_testing.Base.{
  ℕ, zero, suc, ◌+◌, ◌%◌, ◌^◌, Bool, true, false, not, Option, none, some, List, [], ◌∷◌, set,
  get_or, ltb, leb, if◌then◌else◌, ◌==◌,
}
use bumbellbee_testing.Base.Text.{codes}

-- `event_type_t`
pub data EventType : Type 0 where
  event_timer event_keyboard event_syscall event_scheduler : EventType

-- The number that the enum stores in the `type` field.
abbrev pub type_code : EventType → ℕ
type_code event_timer = 0
type_code event_keyboard = 1
type_code event_syscall = 2
type_code event_scheduler = 3

-- `trace_event_t`; nothing writes `pid`.
pub record TraceEvent : Type 0 where
  pub type : ℕ
  pub pid : ℕ
  pub tick : ℕ
  pub payload : ℕ

abbrev pub zero_event : TraceEvent
zero_event = record { type = 0; pid = 0; tick = 0; payload = 0 }

-- The calls that only put text on a device.
pub data Call : Type 0 where
  vga_print : List ℕ → Call
  vga_putc : ℕ → Call
  serial_print : List ℕ → Call

-- The static variables of the three files. `out` logs the output calls, the last one first.
pub record Tracer : Type 0 where
  pub trace_buffer : List TraceEvent
  pub trace_head : ℕ
  pub trace_count : ℕ
  pub recording : Bool
  pub ticks : ℕ
  pub replaying : Bool
  pub replay_ptr : ℕ
  pub out : List Call

abbrev pub max_events : ℕ
max_events = 1000

unfoldable pub trace_init : Tracer → Tracer
trace_init t = record t { trace_head = 0; trace_count = 0; recording = false }

unfoldable pub trace_start : Tracer → Tracer
trace_start t = record t { recording = true; out = vga_print (codes "Tracing started.\n") ∷ t.out }

unfoldable pub trace_stop : Tracer → Tracer
trace_stop t = record t { recording = false; out = vga_print (codes "Tracing stopped.\n") ∷ t.out }

-- The slot that a record overwrites.
abbrev pub slot : Tracer → TraceEvent
slot t = get_or t.trace_buffer t.trace_head zero_event

get_ticks : Tracer → ℕ
get_ticks t = t.ticks

pub trace_record : EventType → ℕ → Tracer → Tracer
unfolding get_ticks
trace_record type payload t = if not t.recording then t else record t {
  trace_buffer =
      set t.trace_buffer t.trace_head
        (record (slot t) { type = type_code type; tick = get_ticks t; payload = payload });
  trace_head = (t.trace_head + 1) % max_events;
  trace_count = if ltb t.trace_count max_events then t.trace_count + 1 else t.trace_count;
}

-- The loop of `trace_dump`, by the rounds left.
dump_loop : ℕ → List Call → List Call
dump_loop zero out = out
dump_loop (suc n) out = dump_loop n (serial_print (codes "Event Logged\n") ∷ out)

trace_dump : Tracer → Tracer
unfolding dump_loop
trace_dump t = record t { out = dump_loop t.trace_count (vga_print (codes "Trace Log:\n") ∷ t.out) }

unfoldable pub is_recording : Tracer → Bool
is_recording t = t.recording

unfoldable pub timer_callback : Tracer → Tracer
timer_callback t =
    let t' = record t { ticks = (t.ticks + 1) % 2 ^ 64 } in trace_record event_timer t'.ticks t'

pub replay_start : Tracer → Tracer
replay_start t = record t {
  replaying = true;
  replay_ptr = 0;
  out = vga_print (codes "Replay started.\n") ∷ t.out;
}

unfoldable pub is_replaying : Tracer → Bool
is_replaying t = t.replaying

-- The index of the event in `trace_buffer`, or NULL.
pub replay_get_next : Tracer → Option ℕ × Tracer
replay_get_next t =
    if leb t.trace_count t.replay_ptr
    then (
      none,
      record t { replaying = false; out = vga_print (codes "Replay finished.\n") ∷ t.out },
    )
    else (some t.replay_ptr, record t { replay_ptr = (t.replay_ptr + 1) % 2 ^ 32 })

-- Whatever the event is, the stack is the one passed in.
unfoldable pub replay_get_next_task : ℕ → Tracer → ℕ × Tracer
replay_get_next_task current_stack t = elim (replay_get_next t).0 [
  | none ↦ (current_stack, (replay_get_next t).1)
  | some i ↦
      if not ((get_or t.trace_buffer i zero_event).type == type_code event_scheduler)
      then (current_stack, (replay_get_next t).1)
      else (current_stack, (replay_get_next t).1)
]
