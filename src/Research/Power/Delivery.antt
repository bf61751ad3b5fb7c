-- ===== src/Research/Power/Delivery.antt =====
-- The hooks against the abstract line editor: keys reach it once each, in the order typed.
use bumbellbee_testing.Base.Text.{Letter}
use bumbellbee_testing.Base.{
  ℕ, ◌≡◌, ◌⊎◌, true, false, List, [], ◌∷◌, ◌++◌, All, append-nil, arith, ◌==◌, ltb, leb, Bool-cases,
  inl, inr, if◌then◌else◌, refl, ap, ◌∙◌, length,
}
use bumbellbee_testing.Research.Core.{PowerMode, Core, Call, call, vga_putc, inc64, flush_io_buffer}
use bumbellbee_testing.Research.Core.Io.{IoValid, flush_io_buffer-IoValid}
use bumbellbee_testing.Research.Shell.Commands.{mode_of}
use bumbellbee_testing.Research.Shell.Line.{LineValid, typed, edit, is_enter, shell_refines}
use bumbellbee_testing.Research.Power.{
  Power, deliver, flush_limit, flush_keyboard_queue, flush_all, is_performance, power_keyboard_hook,
  power_tick_hook,
}
use bumbellbee_testing.Research.Power.Queue.{QueueValid, pending, waiting, deliver_all, flush_lem}

-- What the hardware raises: a key, or the timer.
pub data Event : Type 0 where
  key : ℕ → Event
  tick : Event

unfoldable pub handle : Event → Power → Power
handle (key k) = power_keyboard_hook k
handle tick = power_tick_hook

-- The abstract editor: the line and the mode.
abbrev pub Editor : Type 0
Editor = List ℕ × PowerMode

abbrev pub editor : Core → Editor
editor c = (typed c, c.current_mode)

abbrev pub edit_key : ℕ → Editor → Editor
edit_key k (line, mode) = (edit k line, if is_enter k then mode_of line mode else mode)

abbrev pub edit_all : List ℕ → Editor → Editor
edit_all [] e = e
edit_all (k ∷ ks) e = edit_all ks (edit_key k e)

-- The keys of an event that the hook takes: one that finds the ring full is lost.
abbrev pub accepted : Event → Power → List ℕ
accepted (key k) p =
    if is_performance p.core.current_mode
    then k ∷ []
    else if ltb (length (pending p)) 255
    then k ∷ []
    else []
accepted tick p = []

abbrev pub Typeable : Event → Type 0
Typeable (key k) = Letter k
Typeable tick = Unit {0}

pub record CoreValid (c : Core) : Type 0 where
  pub line : LineValid c
  pub io : IoValid c

-- In the performance mode no key waits.
pub record PowerValid (p : Power) : Type 0 where
  pub queue : QueueValid p
  pub core : CoreValid p.core
  pub letters : All Letter (pending p)
  pub order :
      (is_performance p.core.current_mode ≡ false) ⊎ (p.keyboard_queue_head ≡ p.keyboard_queue_tail)

-- A core that differs in its metrics and its screen alone.
pub same_line :
    (c : Core) (w q e : ℕ) (o : List Call)
    → CoreValid c
    → CoreValid (record c {
      metric_wakeups = w;
      metric_queued_interrupts = q;
      metric_total_events = e;
      out = o;
    })
same_line c w q e o v = record {
  line = record {
    room = v.line.room;
    short = v.line.short;
    bytes = v.line.bytes;
    letters = v.line.letters;
  };
  io = record { room = v.io.room; few = v.io.few; accounted = v.io.accounted };
}

pub deliver_lem :
    (k : ℕ) (c : Core)
    → Letter k
    → CoreValid c
    → CoreValid (deliver k c) × (editor (deliver k c) ≡ edit_key k (editor c))
deliver_lem k c l v =
    let v' =
      same_line c c.metric_wakeups c.metric_queued_interrupts c.metric_total_events
        (vga_putc k ∷ c.out) v in
    let r = shell_refines k (call (vga_putc k) c) l v'.line v'.io in
    (record { line = r.valid; io = r.io }, λ i. (r.line i, r.mode i))

deliver_all_lem :
    (ks : List ℕ) (c : Core)
    → All Letter ks
    → CoreValid c
    → CoreValid (deliver_all ks c) × (editor (deliver_all ks c) ≡ edit_all ks (editor c))
deliver_all_lem [] c l v = (v, refl)
deliver_all_lem (k ∷ ks) c l v =
    let once = deliver_lem k c l.0 v in
    let all = deliver_all_lem ks (deliver k c) l.1 once.0 in
    (all.0, all.1 ∙ ap (edit_all ks) once.1)

flush_io-CoreValid : (c : Core) → CoreValid c → CoreValid (flush_io_buffer c)
flush_io-CoreValid c v = record {
  line = unfold flush_io_buffer in ground (arith, v.line);
  io = flush_io_buffer-IoValid c v.io;
}

editor-flush_io : (c : Core) → editor (flush_io_buffer c) ≡ editor c
unfolding flush_io_buffer
editor-flush_io c = ground arith

pub pending_empty :
    (p : Power) → QueueValid p → p.keyboard_queue_head ≡ p.keyboard_queue_tail → pending p ≡ []
pending_empty p v e = let none_wait : waiting p ≡ 0 = omega (arith, v.head_in) in rw none_wait

-- What a flush of the keyboard ring leaves.
record Flushed (p q : Power) : Type 0 where
  queue : QueueValid q
  core : CoreValid q.core
  told : editor q.core ≡ edit_all (pending p) (editor p.core)
  empty : q.keyboard_queue_head ≡ q.keyboard_queue_tail

flush_keyboard-Flushed :
    (p : Power)
    → QueueValid p
    → CoreValid p.core
    → All Letter (pending p)
    → Flushed p (flush_keyboard_queue p)
flush_keyboard-Flushed p q c l =
    elim (Bool-cases (p.keyboard_queue_head == p.keyboard_queue_tail)) [
      | inl same ↦
          let e : p.keyboard_queue_head ≡ p.keyboard_queue_tail = ground arith in
          rw (flush_lem p q, same)
            (record { queue = q; core = c; told = rw (pending_empty p q e); empty = e })
      | inr filled ↦
          let woken =
            same_line p.core (inc64 p.core.metric_wakeups) p.core.metric_queued_interrupts
              p.core.metric_total_events p.core.out c in
          let all = deliver_all_lem (pending p) _ l woken in
          rw (flush_lem p q, filled)
            (record {
              queue = record { room = q.room; head_in = q.head_in; tail_in = q.head_in };
              core = all.0;
              told = all.1;
              empty = refl;
            })
    ]

-- From `p` to `q` the keys `delivered` reached the editor, and with those that still wait they are
-- the keys that waited before and those of the event.
pub record Delivered (e : Event) (p q : Power) (delivered : List ℕ) : Type 0 where
  pub order : pending p ++ accepted e p ≡ delivered ++ pending q
  pub told : editor q.core ≡ edit_all delivered (editor p.core)
  pub valid : PowerValid q

flush_all-Delivered : (p : Power) → PowerValid p → Delivered tick p (flush_all p) (pending p)
unfolding flush_all
flush_all-Delivered p v =
    let f = flush_keyboard-Flushed p v.queue v.core v.letters in
    let p' = flush_keyboard_queue p in
    let q : QueueValid (flush_all p) = record {
      room = f.queue.room;
      head_in = f.queue.head_in;
      tail_in = f.queue.tail_in;
    } in
    let none_wait = pending_empty (flush_all p) q f.empty in
    record {
      order = rw none_wait;
      told = editor-flush_io p'.core ∙ f.told;
      valid = record {
        queue = q;
        core = flush_io-CoreValid p'.core f.core;
        letters = rw none_wait tt;
        order = inr f.empty;
      };
    }

module _ (p : Power) (v : PowerValid p) where
  abbrev ticked : Power
  ticked = record p { ticks_since_flush = inc64 p.ticks_since_flush }

  ticked-PowerValid : PowerValid ticked
  ticked-PowerValid = record {
    queue = record { room = v.queue.room; head_in = v.queue.head_in; tail_in = v.queue.tail_in };
    core = v.core;
    letters = v.letters;
    order = v.order;
  }

  -- A tick that reaches the limit of the mode delivers every waiting key.
  pub due-Delivered :
      leb (flush_limit p.core.current_mode) (inc64 p.ticks_since_flush) ≡ true
      → Delivered tick p (power_tick_hook p) (pending p)
  unfolding power_tick_hook
  due-Delivered due =
      let d = flush_all-Delivered ticked ticked-PowerValid in
      rw due (record { order = d.order; told = d.told; valid = d.valid })

  pub early-Delivered :
      leb (flush_limit p.core.current_mode) (inc64 p.ticks_since_flush) ≡ false
      → Delivered tick p (power_tick_hook p) []
  unfolding power_tick_hook
  early-Delivered early =
      rw early (record { order = append-nil (pending p); told = refl; valid = ticked-PowerValid })

  pub tick-Delivered : (delivered : List ℕ) × Delivered tick p (power_tick_hook p) delivered
  tick-Delivered =
      elim (Bool-cases (leb (flush_limit p.core.current_mode) (inc64 p.ticks_since_flush))) [
        | inl due ↦ (pending p, due-Delivered due)
        | inr early ↦ ([], early-Delivered early)
      ]
