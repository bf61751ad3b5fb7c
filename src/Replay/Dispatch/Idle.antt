-- ===== src/Replay/Dispatch/Idle.antt =====
-- What requests leave in the trace before the recording.
use mathlib.Core.Path.{subst⁻¹}
use bumbellbee_testing.Base.{
  ℕ, ◌+◌, ◌%◌, ◌^◌, ◌≡◌, false, List, [], ◌∷◌, ap, ◌∙◌, leb, ◌==◌, Bool-cases, inl, inr,
}
use bumbellbee_testing.Replay.Trace.{
  Tracer, event_timer, event_keyboard, trace_record, timer_callback,
}
use bumbellbee_testing.Replay.Trace.Log.{IsValid, log, trace_record-off}
use bumbellbee_testing.Replay.Console.{key_char, keyboard_callback}
use bumbellbee_testing.Replay.Dispatch.{Machine, callback, end_of_interrupt, irq_handler}
use bumbellbee_testing.Replay.Dispatch.Effects.{tracer, keep_char-tracer}
use bumbellbee_testing.Replay.Dispatch.Requests.{serve_all, next_ticks}

-- The clock behind a list of requests.
abbrev pub ticks_after : List (ℕ × ℕ) → ℕ → ℕ
ticks_after [] ticks = ticks
ticks_after ((int_no, scancode) ∷ rs) ticks = ticks_after rs (next_ticks int_no ticks)

-- A valid trace that is empty and not recorded.
pub record IsIdle (ticks : ℕ) (t : Tracer) : Type 0 where
  pub valid : IsValid t
  pub off : t.recording ≡ false
  pub empty : log t ≡ []
  pub clock : t.ticks ≡ ticks

timer-IsIdle :
    (ticks : ℕ) (t : Tracer) → IsIdle ticks t → IsIdle ((ticks + 1) % 2 ^ 64) (timer_callback t)
unfolding timer_callback
timer-IsIdle ticks t s =
    let t' = record t { ticks = (t.ticks + 1) % 2 ^ 64 } in
    subst⁻¹ (IsIdle ((ticks + 1) % 2 ^ 64))
      (trace_record-off event_timer ((t.ticks + 1) % 2 ^ 64) t' s.off)
      (record {
        valid = record {
          room = s.valid.room;
          head_in = s.valid.head_in;
          count_in = s.valid.count_in;
          filling = s.valid.filling;
        };
        off = s.off;
        empty = s.empty;
        clock = ap (λ n. (n + 1) % 2 ^ 64) s.clock;
      })

callback-IsIdle :
    (ticks int_no scancode : ℕ) (m : Machine)
    → IsIdle ticks (tracer m)
    → IsIdle (next_ticks int_no ticks) (tracer (callback int_no scancode m))
unfolding keyboard_callback
callback-IsIdle ticks int_no scancode m s = elim (Bool-cases (int_no == 32)) [
  | inl tick ↦ rw tick (timer-IsIdle ticks (tracer m) s)
  | inr other ↦ elim (Bool-cases (int_no == 33)) [
    | inl key ↦
        let t = trace_record event_keyboard scancode (tracer m) in
        let kept =
          keep_char-tracer (key_char scancode) (record m.keyboard { tracer = t })
          ∙ trace_record-off event_keyboard scancode (tracer m) s.off in
        rw (other, key) (subst⁻¹ (IsIdle ticks) kept s)
    | inr no_key ↦ rw (other, no_key) s
  ]
]

pub serve_all-IsIdle :
    (rs : List (ℕ × ℕ)) (ticks : ℕ) (m : Machine)
    → IsIdle ticks (tracer m)
    → IsIdle (ticks_after rs ticks) (tracer (serve_all rs m))
unfolding irq_handler end_of_interrupt
serve_all-IsIdle [] ticks m s = s
serve_all-IsIdle ((int_no, scancode) ∷ rs) ticks m s =
    let once = callback-IsIdle ticks int_no scancode m s in
    let told : IsIdle (next_ticks int_no ticks) (tracer (irq_handler int_no scancode m)) =
      elim (Bool-cases (leb 40 int_no)) [
        | inl slave ↦ rw slave once
        | inr master ↦ rw master once
      ] in
    serve_all-IsIdle rs (next_ticks int_no ticks) (irq_handler int_no scancode m) told
