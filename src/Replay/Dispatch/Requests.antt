-- ===== src/Replay/Dispatch/Requests.antt =====
-- What a sequence of requests leaves in the trace.
use mathlib.Core.Path.{subst⁻¹}
use bumbellbee_testing.Base.{
  ℕ, zero, suc, ◌+◌, ◌%◌, ◌^◌, ◌≡◌, true, List, [], ◌∷◌, take, take-length, arith, ◌≤◌, refl, ap,
  sym, ◌∙◌, leb, ◌==◌, Bool-cases, inl, inr, if◌then◌else◌,
}
use bumbellbee_testing.Replay.Trace.{
  Tracer, event_timer, event_keyboard, trace_record, timer_callback,
}
use bumbellbee_testing.Replay.Trace.Log.{
  IsValid, View, log, length-log, trace_record-IsValid, trace_record-switch,
}
use bumbellbee_testing.Replay.Console.{key_char, keyboard_callback}
use bumbellbee_testing.Replay.Dispatch.{Machine, callback, end_of_interrupt, irq_handler}
use bumbellbee_testing.Replay.Dispatch.Effects.{tracer, logged, keep_char-tracer, irq_handler_logs}

-- Requests in their order, each with the byte that port 0x60 gives then.
abbrev pub serve_all : List (ℕ × ℕ) → Machine → Machine
serve_all [] m = m
serve_all ((int_no, scancode) ∷ rs) m = serve_all rs (irq_handler int_no scancode m)

-- The clock behind a request, and the trace of a recorder without bounds: the events of the requests
-- in front of those before, the newest first.
abbrev pub next_ticks : ℕ → ℕ → ℕ
next_ticks int_no ticks = if int_no == 32 then (ticks + 1) % 2 ^ 64 else ticks

abbrev pub add_view : ℕ → ℕ → ℕ → List View → List View
add_view int_no scancode ticks views =
    if int_no == 32
    then (0, (ticks + 1) % 2 ^ 64, (ticks + 1) % 2 ^ 64) ∷ views
    else if int_no == 33
    then (1, ticks, scancode) ∷ views
    else views

abbrev pub recorded : List (ℕ × ℕ) → ℕ → List View → List View
recorded [] ticks views = views
recorded ((int_no, scancode) ∷ rs) ticks views =
    recorded rs (next_ticks int_no ticks) (add_view int_no scancode ticks views)

-- A recorder that is on, with a valid trace.
pub record Recording (ticks : ℕ) (t : Tracer) : Type 0 where
  pub valid : IsValid t
  pub on : t.recording ≡ true
  pub clock : t.ticks ≡ ticks

timer-Recording :
    (t : Tracer)
    → IsValid t
    → t.recording ≡ true
    → Recording ((t.ticks + 1) % 2 ^ 64) (timer_callback t)
unfolding timer_callback
timer-Recording t v on =
    let ticks = (t.ticks + 1) % 2 ^ 64 in
    let t' = record t { ticks = ticks } in
    let v' : IsValid t' = record {
      room = v.room;
      head_in = v.head_in;
      count_in = v.count_in;
      filling = v.filling;
    } in
    let kept = trace_record-switch event_timer ticks t' in
    record {
      valid = trace_record-IsValid event_timer ticks t' v';
      on = kept.1 ∙ on;
      clock = kept.0;
    }

key-Recording :
    (scancode : ℕ) (t : Tracer)
    → IsValid t
    → t.recording ≡ true
    → Recording t.ticks (trace_record event_keyboard scancode t)
key-Recording scancode t v on =
    let kept = trace_record-switch event_keyboard scancode t in
    record {
      valid = trace_record-IsValid event_keyboard scancode t v;
      on = kept.1 ∙ on;
      clock = kept.0;
    }

callback-Recording :
    (int_no scancode : ℕ) (m : Machine)
    → IsValid (tracer m)
    → (tracer m).recording ≡ true
    → Recording (next_ticks int_no (tracer m).ticks) (tracer (callback int_no scancode m))
unfolding keyboard_callback
callback-Recording int_no scancode m v on = elim (Bool-cases (int_no == 32)) [
  | inl tick ↦ rw tick (timer-Recording (tracer m) v on)
  | inr other ↦ elim (Bool-cases (int_no == 33)) [
    | inl key ↦
        let kept =
          keep_char-tracer (key_char scancode)
            (record m.keyboard { tracer = trace_record event_keyboard scancode (tracer m) }) in
        rw (other, key)
          (subst⁻¹ (Recording (tracer m).ticks) kept (key-Recording scancode (tracer m) v on))
    | inr no_key ↦ rw (other, no_key) (record { valid = v; on = on; clock = refl })
  ]
]

irq-Recording :
    (int_no scancode : ℕ) (m : Machine)
    → IsValid (tracer m)
    → (tracer m).recording ≡ true
    → Recording (next_ticks int_no (tracer m).ticks) (tracer (irq_handler int_no scancode m))
unfolding irq_handler end_of_interrupt
irq-Recording int_no scancode m v on =
    let r = callback-Recording int_no scancode m v on in
    elim (Bool-cases (leb 40 int_no)) [ inl slave ↦ rw slave r | inr master ↦ rw master r ]

-- Cutting an old trace to 1000 events changes nothing of a new one that is cut.
take-take : (n m : ℕ) (xs : List View) → n ≤ m → take n (take m xs) ≡ take n xs
take-take zero m xs h = refl
take-take (suc n) zero xs h = absurd (omega (arith, h))
take-take (suc n) (suc m) [] h = refl
take-take (suc n) (suc m) (x ∷ xs) h = ap (λ r. x ∷ r) (take-take n m xs (omega (arith, h)))

add_view-take :
    (int_no scancode ticks : ℕ) (views : List View)
    → take 1000 (add_view int_no scancode ticks (take 1000 views))
      ≡ take 1000 (add_view int_no scancode ticks views)
add_view-take int_no scancode ticks views = elim (Bool-cases (int_no == 32)) [
  | inl tick ↦
      let new : View = (0, (ticks + 1) % 2 ^ 64, (ticks + 1) % 2 ^ 64) in
      rw tick (ap (λ r. new ∷ r) (take-take 999 1000 views (omega arith)))
  | inr other ↦ elim (Bool-cases (int_no == 33)) [
    | inl key ↦
        let new : View = (1, ticks, scancode) in
        rw (other, key) (ap (λ r. new ∷ r) (take-take 999 1000 views (omega arith)))
    | inr no_key ↦ rw (other, no_key) (take-take 1000 1000 views (omega arith))
  ]
]

recorded-take :
    (rs : List (ℕ × ℕ)) (ticks : ℕ) (xs ys : List View)
    → take 1000 xs ≡ take 1000 ys
    → take 1000 (recorded rs ticks xs) ≡ take 1000 (recorded rs ticks ys)
recorded-take [] ticks xs ys h = h
recorded-take ((int_no, scancode) ∷ rs) ticks xs ys h =
    recorded-take rs (next_ticks int_no ticks) _ _ (
      sym (add_view-take int_no scancode ticks xs)
      ∙ ap (λ l. take 1000 (add_view int_no scancode ticks l)) h
      ∙ add_view-take int_no scancode ticks ys)

logged_lem :
    (int_no scancode : ℕ) (t : Tracer)
    → log t ≡ take 1000 (log t)
    → logged int_no scancode t ≡ take 1000 (add_view int_no scancode t.ticks (log t))
logged_lem int_no scancode t short = elim (Bool-cases (int_no == 32)) [
  | inl tick ↦ rw tick refl
  | inr other ↦ elim (Bool-cases (int_no == 33)) [
    | inl key ↦ rw (other, key) refl
    | inr no_key ↦ rw (other, no_key) short
  ]
]

-- The trace of a valid ring has at most 1000 events.
log-short : (t : Tracer) → IsValid t → log t ≡ take 1000 (log t)
log-short t v = sym (take-length 1000 (log t) (ground (arith, length-log t, v.count_in)))

-- While recording with a valid trace, after any sequence of requests the trace is the 1000 newest events
-- of a recorder without bounds, each with the tick at which its request came.
pub requests_recorded :
    (rs : List (ℕ × ℕ)) (m : Machine)
    → IsValid (tracer m)
    → (tracer m).recording ≡ true
    → log (tracer (serve_all rs m)) ≡ take 1000 (recorded rs (tracer m).ticks (log (tracer m)))
requests_recorded [] m v on = log-short (tracer m) v
requests_recorded ((int_no, scancode) ∷ rs) m v on =
    let t = tracer m in
    let n = irq_handler int_no scancode m in
    let r = irq-Recording int_no scancode m v on in
    let now =
      (irq_handler_logs int_no scancode m v on).0 ∙ logged_lem int_no scancode t (log-short t v) in
    requests_recorded rs n r.valid r.on
    ∙ ap (λ ticks. take 1000 (recorded rs ticks (log (tracer n)))) r.clock
    ∙ recorded-take rs (next_ticks int_no t.ticks) (log (tracer n))
        (add_view int_no scancode t.ticks (log t))
        (ap (take 1000) now
          ∙ take-take 1000 1000 (add_view int_no scancode t.ticks (log t)) (omega arith))
