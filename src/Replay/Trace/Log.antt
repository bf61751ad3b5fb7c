-- ===== src/Replay/Trace/Log.antt =====
-- The ring as the list of what was recorded, newest first.
use bumbellbee_testing.Base.{false}
use bumbellbee_testing.Base.{
  ℕ, zero, suc, ◌+◌, ◌%◌, ◌<◌, ◌≤◌, ◌≡◌, inl, inr, ◌⊎◌, arith, ltb, Bool-cases, List, [], ◌∷◌,
  get_or, set, length, length-set, get_or-set_self, get_or-set_ne, if◌then◌else◌, refl, ap, take,
  take-length,
}
use bumbellbee_testing.Replay.Trace.{
  EventType, type_code, TraceEvent, zero_event, Tracer, max_events, slot, trace_record,
}

-- What a trace tells of an event: its type, tick and payload.
abbrev pub View : Type 0
View = ℕ × ℕ × ℕ

abbrev pub view : TraceEvent → View
view e = (e.type, e.tick, e.payload)

abbrev pub at : List TraceEvent → ℕ → View
at buf i = view (get_or buf i zero_event)

-- The `n` events before index `h`, going back round the ring.
abbrev pub newest : List TraceEvent → ℕ → ℕ → List View
newest buf zero h = []
newest buf (suc n) h = at buf ((h + 999) % 1000) ∷ newest buf n ((h + 999) % 1000)

-- The trace, newest event first.
abbrev pub log : Tracer → List View
log t = newest t.trace_buffer t.trace_count t.trace_head

pub record IsValid (t : Tracer) : Type 0 where
  pub room : length t.trace_buffer ≡ max_events
  pub head_in : t.trace_head < max_events
  pub count_in : t.trace_count ≤ max_events
  pub filling : (t.trace_head ≡ t.trace_count) ⊎ (t.trace_count ≡ max_events)

length-newest : (buf : List TraceEvent) (n h : ℕ) → length (newest buf n h) ≡ n
length-newest buf zero h = refl
length-newest buf (suc n) h = ap suc (length-newest buf n ((h + 999) % 1000))

pub length-log : (t : Tracer) → length (log t) ≡ t.trace_count
length-log t = length-newest t.trace_buffer t.trace_count t.trace_head

take-newest : (buf : List TraceEvent) (m n h : ℕ) → m ≤ n → take m (newest buf n h) ≡ newest buf m h
take-newest buf zero n h p = refl
take-newest buf (suc m) zero h p = absurd (omega arith)
take-newest buf (suc m) (suc n) h p =
    ap (λ r. at buf ((h + 999) % 1000) ∷ r) (take-newest buf m n ((h + 999) % 1000) (omega arith))

-- A write `d` places behind the window leaves the window as it is.
newest-set :
    (buf : List TraceEvent) (e : TraceEvent) (n h d i : ℕ)
    → h < 1000
    → n + d < 1000
    → i ≡ (h + d) % 1000
    → newest (set buf i e) n h ≡ newest buf n h
newest-set buf e zero h d i hh hn q = refl
newest-set buf e (suc n) h d i hh hn q =
    let b = (h + 999) % 1000 in
    rw (get_or-set_ne buf i b e zero_event (omega arith)) (
      ap (λ r. at buf b ∷ r)
        (newest-set buf e n b (d + 1) i (omega arith) (omega arith) (omega arith)))

newest-step :
    (buf : List TraceEvent) (e : TraceEvent) (n h : ℕ)
    → length buf ≡ 1000
    → h < 1000
    → n < 1000
    → newest (set buf h e) (suc n) ((h + 1) % 1000) ≡ view e ∷ newest buf n h
newest-step buf e n h room hh hn =
    let back : ((h + 1) % 1000 + 999) % 1000 ≡ h = omega arith in
    rw (
      back,
      get_or-set_self buf h e zero_event (omega arith),
      newest-set buf e n h 0 h hh (omega arith) (omega arith),
    )

-- One record, at a ring that fills and at a full one.
newest-record :
    (buf : List TraceEvent) (e : TraceEvent) (n h : ℕ)
    → length buf ≡ 1000
    → h < 1000
    → n ≤ 1000
    → newest (set buf h e) (if ltb n 1000 then n + 1 else n) ((h + 1) % 1000)
      ≡ view e ∷ take 999 (newest buf n h)
newest-record buf e n h room hh hn = elim (Bool-cases (ltb n 1000)) [
  | inl lt ↦
      let grown : n + 1 ≡ suc n = omega arith in
      let all : take 999 (newest buf n h) ≡ newest buf n h =
        take-length 999 (newest buf n h) (ground (arith, length-newest buf n h)) in
      rw (lt, grown, all) (newest-step buf e n h room hh (ground arith))
  | inr ge ↦
      let full : n ≡ suc 999 = ground arith in
      rw (ge, take-newest buf 999 n h (omega arith), full)
        (newest-step buf e 999 h room hh (omega arith))
]

module _ (type : EventType) (payload : ℕ) (t : Tracer) where
  -- trace_record keeps the ring of events valid.
  pub trace_record-IsValid : IsValid t → IsValid (trace_record type payload t)
  unfolding trace_record
  trace_record-IsValid v = ground (
    arith,
    length-set t.trace_buffer t.trace_head
        (record (slot t) { type = type_code type; tick = t.ticks; payload = payload }),
  )

  -- In a valid state, while recording, trace_record puts the event with the current tick in
  -- front of the trace and keeps the 1000 newest events; otherwise the trace stays as it is.
  pub log-trace_record :
      IsValid t
      → log (trace_record type payload t)
        ≡ (if t.recording then take 1000 ((type_code type, t.ticks, payload) ∷ log t) else log t)
  unfolding trace_record
  log-trace_record v = elim (Bool-cases t.recording) [
    | inl on ↦
        rw on
          (newest-record t.trace_buffer _ t.trace_count t.trace_head v.room v.head_in v.count_in)
    | inr off ↦ rw off
  ]

  -- A record changes neither the clock nor the switch.
  pub trace_record-switch :
      ((trace_record type payload t).ticks ≡ t.ticks)
      × ((trace_record type payload t).recording ≡ t.recording)
  unfolding trace_record
  trace_record-switch = elim (Bool-cases t.recording) [
    | inl on ↦ rw on (refl, refl)
    | inr off ↦ rw off (refl, refl)
  ]

  -- While nothing is recorded a record changes nothing.
  pub trace_record-off : t.recording ≡ false → trace_record type payload t ≡ t
  unfolding trace_record
  trace_record-off off = rw off refl
