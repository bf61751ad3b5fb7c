-- ===== src/Replay/Dispatch/Effects.antt =====
-- What a request leaves in the trace.
use bumbellbee_testing.Base.{
  ℕ, ◌+◌, ◌%◌, ◌^◌, ◌≡◌, true, Option, none, some, List, ◌∷◌, take, refl, ap, ◌∙◌, leb, ◌==◌,
  Bool-cases, inl, inr, if◌then◌else◌,
}
use bumbellbee_testing.Base.Ports.{outb}
use bumbellbee_testing.Replay.Trace.{Tracer, event_timer, event_keyboard, timer_callback}
use bumbellbee_testing.Replay.Trace.Log.{IsValid, View, log, log-trace_record}
use bumbellbee_testing.Replay.Console.{Keyboard, key_char, keep_char, keyboard_callback}
use bumbellbee_testing.Replay.Dispatch.{Machine, callback, end_of_interrupt, irq_handler}

abbrev pub tracer : Machine → Tracer
tracer m = m.keyboard.tracer

-- The event of a request: the timer's carries the new tick twice, the keyboard's the scan code.
abbrev pub logged : ℕ → ℕ → Tracer → List View
logged int_no scancode t =
    if int_no == 32
    then take 1000 ((0, (t.ticks + 1) % 2 ^ 64, (t.ticks + 1) % 2 ^ 64) ∷ log t)
    else if int_no == 33
    then take 1000 ((1, t.ticks, scancode) ∷ log t)
    else log t

pub keep_char-tracer : (o : Option ℕ) (k : Keyboard) → (keep_char o k).tracer ≡ k.tracer
keep_char-tracer none k = refl
keep_char-tracer (some c) k = refl

end-logs :
    (int_no : ℕ) (m m' : Machine) (expected : List View)
    → log (tracer m') ≡ expected
    → m'.ports ≡ m.ports
    → (log (tracer (end_of_interrupt int_no m')) ≡ expected)
      × ((end_of_interrupt int_no m').ports
          ≡ outb 0x20 0x20 ∷ (if leb 40 int_no then outb 0xA0 0x20 ∷ m.ports else m.ports))
unfolding end_of_interrupt
end-logs int_no m m' expected e p = elim (Bool-cases (leb 40 int_no)) [
  | inl slave ↦ rw slave (e, ap (λ ps. outb 0x20 0x20 ∷ outb 0xA0 0x20 ∷ ps) p)
  | inr master ↦ rw master (e, ap (λ ps. outb 0x20 0x20 ∷ ps) p)
]

-- While recording with a valid trace, irq_handler puts one event in front of the trace for the timer
-- and for the keyboard, and none for another vector, and keeps the 1000 newest; the master controller
-- is told of the end, after the slave if it raised the request.
pub irq_handler_logs :
    (int_no scancode : ℕ) (m : Machine)
    → IsValid (tracer m)
    → (tracer m).recording ≡ true
    → (log (tracer (irq_handler int_no scancode m)) ≡ logged int_no scancode (tracer m))
      × ((irq_handler int_no scancode m).ports
          ≡ outb 0x20 0x20 ∷ (if leb 40 int_no then outb 0xA0 0x20 ∷ m.ports else m.ports))
unfolding irq_handler timer_callback keyboard_callback
irq_handler_logs int_no scancode m v on =
    let t = tracer m in
    end-logs int_no m (callback int_no scancode m) (logged int_no scancode t)
      (elim (Bool-cases (int_no == 32)) [
        | inl tick ↦
            let ticks = (t.ticks + 1) % 2 ^ 64 in
            let t' = record t { ticks = ticks } in
            let v' : IsValid t' = record {
              room = v.room;
              head_in = v.head_in;
              count_in = v.count_in;
              filling = v.filling;
            } in
            rw tick (log-trace_record event_timer ticks t' v' ∙ rw on refl)
        | inr other ↦ elim (Bool-cases (int_no == 33)) [
          | inl key ↦
              rw (other, key)
                (ap log (keep_char-tracer (key_char scancode) _)
                  ∙ (log-trace_record event_keyboard scancode t v ∙ rw on refl))
          | inr no_key ↦ rw (other, no_key) refl
        ]
      ])
      (elim (Bool-cases (int_no == 32)) [
        | inl tick ↦ rw tick refl
        | inr other ↦ elim (Bool-cases (int_no == 33)) [
          | inl key ↦ rw (other, key) refl
          | inr no_key ↦ rw (other, no_key) refl
        ]
      ])
