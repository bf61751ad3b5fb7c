-- ===== src/Research/Power/Keys.antt =====
-- A key, queued or dispatched at once, and the theorem for every event.
use bumbellbee_testing.Base.Text.{Letter}
use bumbellbee_testing.Base.{
  All-snoc, ℕ, ◌+◌, ◌%◌, ◌≡◌, Bool, true, false, List, [], ◌∷◌, ◌++◌, All, append-nil, arith, ◌==◌,
  ltb, Bool-cases, inl, inr, if◌then◌else◌, refl, ap, ◌∙◌, length, length-set,
}
use bumbellbee_testing.Research.Core.{inc64}
use bumbellbee_testing.Research.Power.{
  Power, deliver, enqueue, dispatch_now, is_performance, power_keyboard_hook,
}
use bumbellbee_testing.Research.Power.Queue.{QueueValid, pending, enqueue_lem}
use bumbellbee_testing.Research.Power.Delivery.{
  Event, key, tick, handle, Typeable, CoreValid, PowerValid, Delivered, editor, same_line,
  deliver_lem, pending_empty, tick-Delivered,
}

-- The state behind `metric_total_events++`.
abbrev counted : Power → Power
counted p = record p {
  core = record p.core { metric_total_events = inc64 p.core.metric_total_events };
}

counted-CoreValid : (p : Power) → CoreValid p.core → CoreValid (counted p).core
counted-CoreValid p v =
    same_line p.core p.core.metric_wakeups p.core.metric_queued_interrupts
      (inc64 p.core.metric_total_events) p.core.out v

-- In the performance mode.
now-Delivered :
    (k : ℕ) (p : Power)
    → Letter k
    → PowerValid p
    → is_performance p.core.current_mode ≡ true
    → Delivered (key k) p (dispatch_now k (counted p)) (k ∷ [])
unfolding dispatch_now
now-Delivered k p l v perf =
    let even : p.keyboard_queue_head ≡ p.keyboard_queue_tail = ground (arith, v.order) in
    let none_wait = pending_empty p v.queue even in
    let d = deliver_lem k (counted p).core l (counted-CoreValid p v.core) in
    let c = deliver k (counted p).core in
    record {
      order = rw (perf, none_wait);
      told = d.1;
      valid = record {
        queue = record {
          room = v.queue.room;
          head_in = v.queue.head_in;
          tail_in = v.queue.tail_in;
        };
        core =
            same_line c (inc64 c.metric_wakeups) c.metric_queued_interrupts c.metric_total_events
              c.out d.0;
        letters = v.letters;
        order = inr even;
      };
    }

-- Outside of it.
enqueue-QueueValid : (k : ℕ) (p : Power) → QueueValid p → QueueValid (enqueue k p)
unfolding enqueue
enqueue-QueueValid k p q = ground (arith, length-set p.keyboard_queue p.keyboard_queue_head k)

enqueue-CoreValid : (k : ℕ) (p : Power) → CoreValid p.core → CoreValid (enqueue k p).core
unfolding enqueue
enqueue-CoreValid k p v =
    elim (Bool-cases ((p.keyboard_queue_head + 1) % 256 == p.keyboard_queue_tail)) [
      | inl full ↦ rw full v
      | inr room ↦ rw room (
          same_line p.core p.core.metric_wakeups (inc64 p.core.metric_queued_interrupts)
            p.core.metric_total_events p.core.out v)
    ]

editor-enqueue : (k : ℕ) (p : Power) → editor (enqueue k p).core ≡ editor p.core
unfolding enqueue
editor-enqueue k p = ground arith

append_if :
    (b : Bool) (k : ℕ) (xs : List ℕ)
    → xs ++ (if b then k ∷ [] else []) ≡ (if b then xs ++ (k ∷ []) else xs)
append_if true k xs = refl
append_if false k xs = append-nil xs

letters_if :
    (b : Bool) (k : ℕ) (xs : List ℕ)
    → Letter k
    → All Letter xs
    → All Letter (if b then xs ++ (k ∷ []) else xs)
letters_if true k xs l h = All-snoc Letter xs k l h
letters_if false k xs l h = h

later-Delivered :
    (k : ℕ) (p : Power)
    → Letter k
    → PowerValid p
    → is_performance p.core.current_mode ≡ false
    → Delivered (key k) p (enqueue k (counted p)) []
later-Delivered k p l v calm =
    let q : QueueValid (counted p) = record {
      room = v.queue.room;
      head_in = v.queue.head_in;
      tail_in = v.queue.tail_in;
    } in
    let kept = editor-enqueue k (counted p) in
    record {
      order =
          rw (calm, enqueue_lem k (counted p) q)
            (append_if (ltb (length (pending p)) 255) k (pending p));
      told = kept;
      valid = record {
        queue = enqueue-QueueValid k (counted p) q;
        core = enqueue-CoreValid k (counted p) (counted-CoreValid p v.core);
        letters =
            rw (enqueue_lem k (counted p) q)
              (letters_if (ltb (length (pending p)) 255) k (pending p) l v.letters);
        order = inl (ap (λ e. is_performance e.1) kept ∙ calm);
      };
    }

-- Outside of the performance mode a key waits: no key is delivered and no tick is counted.
pub calm_key-Delivered :
    (k : ℕ) (p : Power)
    → Letter k
    → PowerValid p
    → is_performance p.core.current_mode ≡ false
    → Delivered (key k) p (handle (key k) p) []
      × ((handle (key k) p).ticks_since_flush ≡ p.ticks_since_flush)
unfolding handle power_keyboard_hook enqueue
calm_key-Delivered k p l v calm = rw calm (later-Delivered k p l v calm, ground arith)

-- In a valid state, for a timer tick or a key that is a nonzero byte, the hooks leave a valid
-- state, and the keys that reach the shell are, in order, a first part of the waiting keys
-- followed by the key of the event if it is taken; the rest still waits, and the shell's line
-- and mode change as the abstract editor's do on those keys.
pub handle_in_order :
    (e : Event) (p : Power)
    → PowerValid p
    → Typeable e
    → (delivered : List ℕ) × Delivered e p (handle e p) delivered
unfolding handle power_keyboard_hook
handle_in_order tick p v t = tick-Delivered p v
handle_in_order (key k) p v l = elim (Bool-cases (is_performance p.core.current_mode)) [
  | inl perf ↦ (k ∷ [], rw perf (now-Delivered k p l v perf))
  | inr calm ↦ ([], (calm_key-Delivered k p l v calm).0)
]
