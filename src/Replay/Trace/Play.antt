-- ===== src/Replay/Trace/Play.antt =====
-- The order in which `replay_get_next` plays the trace back.
use bumbellbee_testing.Base.{
  ℕ, zero, suc, ◌+◌, ◌-◌, ◌%◌, ◌<◌, ◌≤◌, ◌≡◌, ◌^◌, true, false, inl, inr, arith, List, [], ◌∷◌,
  ◌++◌, refl, ap, ◌∙◌, Option, some, none, append-nil,
}
use mathlib.Core.List.{reverse, reverse-append, reverse-cons}
use native.Mathlib.Nat.{zero-add}
use bumbellbee_testing.Base.Text.{codes}
use bumbellbee_testing.Replay.Trace.{
  TraceEvent, Tracer, max_events, replay_start, replay_get_next, vga_print,
}
use bumbellbee_testing.Replay.Trace.Log.{View, at, newest, log, IsValid}

-- What a client that calls `replay_get_next` until it returns NULL reads, and the state it leaves;
-- `none` if the fuel runs out first.
read_on : Tracer → Option ℕ × Tracer → Option (List View × Tracer) → Option (List View × Tracer)
read_on t (none, t') rest = some ([], t')
read_on t (some i, t') none = none
read_on t (some i, t') (some (es, u)) = some (at t.trace_buffer i ∷ es, u)

pub drain : ℕ → Tracer → Option (List View × Tracer)
unfolding read_on
drain zero t = none
drain (suc f) t = read_on t (replay_get_next t) (drain f (replay_get_next t).1)

-- The `n` slots of the buffer from index `a` on.
abbrev pub slice : List TraceEvent → ℕ → ℕ → List View
slice buf a zero = []
slice buf a (suc n) = at buf a ∷ slice buf (a + 1) n

slice-append :
    (buf : List TraceEvent) (m n a k : ℕ)
    → k ≡ m + n
    → slice buf a k ≡ slice buf a m ++ slice buf (a + m) n
slice-append buf zero n a k e =
    let e' : k ≡ n = omega arith in let a' : a + 0 ≡ a = omega arith in rw (e', a')
slice-append buf (suc m) n a k e =
    let e' : k ≡ suc (m + n) = omega arith in
    let a' : a + suc m ≡ a + 1 + m = omega arith in
    rw (e', a') (ap (λ r. at buf a ∷ r) (slice-append buf m n (a + 1) (m + n) refl))

-- `t` while it plays, with the cursor at `p`, and when it has finished.
abbrev pub playing : Tracer → ℕ → Tracer
playing t p = record t { replaying = true; replay_ptr = p }

abbrev pub finished : Tracer → ℕ → Tracer
finished t p = record t {
  replaying = false;
  replay_ptr = p;
  out = vga_print (codes "Replay finished.\n") ∷ t.out;
}

drain-slice :
    (n p : ℕ) (t : Tracer)
    → t.trace_count < 2 ^ 32
    → p + n ≡ t.trace_count
    → drain (suc n) (playing t p) ≡ some (slice t.trace_buffer p n, finished t t.trace_count)
unfolding drain
drain-slice zero p t small e = let e' : p ≡ t.trace_count = omega arith in rw (stop, e')
  where
    stop : replay_get_next (playing t p) ≡ (none, finished t p)
    stop = unfold replay_get_next in ground arith
drain-slice (suc n) p t small e = rw (step, drain-slice n (p + 1) t small (omega arith))
  where
    step : replay_get_next (playing t p) ≡ (some p, playing t (p + 1))
    step = unfold replay_get_next in ground arith

reverse-newest :
    (buf : List TraceEvent) (n a h : ℕ)
    → h ≡ a + n
    → h ≤ 1000
    → reverse (newest buf n h) ≡ slice buf a n
reverse-newest buf zero a h e le = refl
reverse-newest buf (suc n) a h e le =
    let back : (h + 999) % 1000 ≡ a + n = omega arith in
    rw (
      back,
      reverse-cons (at buf (a + n)) (newest buf n (a + n)),
      reverse-newest buf n a (a + n) refl (omega arith),
      slice-append buf n 1 a (suc n) (omega arith),
    )

-- Index 1000 and index 0 have the same predecessor.
newest_wrap : (buf : List TraceEvent) (n : ℕ) → newest buf n 0 ≡ newest buf n 1000
newest_wrap buf zero = refl
newest_wrap buf (suc n) = refl

newest-append :
    (buf : List TraceEvent) (m n k : ℕ)
    → m < 1000
    → k ≡ m + n
    → newest buf k m ≡ newest buf m m ++ newest buf n 1000
newest-append buf m n k hm e = go m m k hm refl e
  where
    go :
        (d h k : ℕ)
        → h < 1000
        → d ≡ h
        → k ≡ d + n
        → newest buf k h ≡ newest buf d h ++ newest buf n 1000
    go zero h k hh q e =
        let e' : k ≡ n = omega arith in
        let h' : h ≡ 0 = omega arith in rw (e', h', newest_wrap buf n)
    go (suc d) h k hh q e =
        let e' : k ≡ suc (d + n) = omega arith in
        let back : (h + 999) % 1000 ≡ d = omega arith in
        rw (e', back) (ap (λ r. at buf d ∷ r) (go d d (d + n) (omega arith) refl refl))

-- The slots before the head, and those from the head on.
abbrev pub front : Tracer → List View
front t = slice t.trace_buffer 0 t.trace_head

abbrev pub back : Tracer → List View
back t = slice t.trace_buffer t.trace_head (t.trace_count - t.trace_head)

reverse-log_full :
    (buf : List TraceEvent) (k h : ℕ)
    → h < 1000
    → k ≡ 1000
    → reverse (newest buf k h) ≡ slice buf h (k - h) ++ slice buf 0 h
reverse-log_full buf k h hh e = rw (
  newest-append buf h (k - h) k hh (omega arith),
  reverse-append (newest buf h h) (newest buf (k - h) 1000),
  reverse-newest buf (k - h) h 1000 (omega arith) (omega arith),
  reverse-newest buf h 0 h (omega arith) (omega arith),
)

module _ (t : Tracer) (v : IsValid t) where
  reverse-log : reverse (log t) ≡ back t ++ front t
  reverse-log = elim v.filling [
    | inl even ↦
        let none_behind : t.trace_count - t.trace_head ≡ 0 = omega arith in
        rw (none_behind, ← even)
          (reverse-newest t.trace_buffer t.trace_head 0 t.trace_head (omega arith) (omega arith))
    | inr full ↦ reverse-log_full t.trace_buffer t.trace_count t.trace_head v.head_in full
  ]

  drain-replay :
      drain (suc t.trace_count) (replay_start t)
      ≡ some (front t ++ back t, finished (replay_start t) t.trace_count)
  unfolding replay_start
  drain-replay =
      let joined =
        slice-append t.trace_buffer t.trace_head (t.trace_count - t.trace_head) 0 t.trace_count
          (omega arith) in
      drain-slice t.trace_count 0 (replay_start t) (omega (arith, v.count_in)) (omega arith)
      ∙ rw (joined, zero-add t.trace_head)

-- In a valid state a replay yields the slots before the write position and then those from it
-- on, whereas the order of recording is the reverse of these two parts; it ends after
-- trace_count events.
replay_rotates :
    (t : Tracer)
    → IsValid t
    → (drain (suc t.trace_count) (replay_start t)
        ≡ some (front t ++ back t, finished (replay_start t) t.trace_count))
      × (reverse (log t) ≡ back t ++ front t)
replay_rotates t v = (drain-replay t v, reverse-log t v)

-- In a valid state with fewer than 1000 events, a replay yields the recorded events in the order
-- of recording and then ends.
pub replay_in_order :
    (t : Tracer)
    → IsValid t
    → t.trace_count < max_events
    → drain (suc t.trace_count) (replay_start t)
      ≡ some (reverse (log t), finished (replay_start t) t.trace_count)
replay_in_order t v few =
    let none_behind : t.trace_count - t.trace_head ≡ 0 = ground (arith, v.filling) in
    rw (reverse-log t v, drain-replay t v, none_behind, append-nil (front t))
