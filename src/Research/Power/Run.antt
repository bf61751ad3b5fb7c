-- ===== src/Research/Power/Run.antt =====
-- Sequences of events: the theorem for one event, carried along, and how long a key waits.
use bumbellbee_testing.Base.{
  ℕ, suc, ◌+◌, ◌<◌, ◌≤◌, ◌≡◌, true, false, List, [], ◌∷◌, ◌++◌, All, append_assoc, append-nil,
  arith, Bool-cases, inl, inr, refl, ap, sym, ◌∙◌, leb,
}
use bumbellbee_testing.Research.Core.{PowerMode, performance, balanced, energy_saver, inc64}
use bumbellbee_testing.Research.Power.{Power, flush_limit, is_performance, power_tick_hook}
use bumbellbee_testing.Research.Power.Queue.{pending}
use bumbellbee_testing.Research.Power.Delivery.{
  Event, key, tick, handle, Typeable, PowerValid, Delivered, Editor, editor, edit_all, accepted,
  pending_empty, due-Delivered, early-Delivered,
}
use bumbellbee_testing.Research.Power.Keys.{handle_in_order, calm_key-Delivered}

-- The hooks, for one event after the other.
abbrev pub handle_all : List Event → Power → Power
handle_all [] p = p
handle_all (e ∷ es) p = handle_all es (handle e p)

-- The keys that the hooks take in the course of the events.
abbrev pub accepted_all : List Event → Power → List ℕ
accepted_all [] p = []
accepted_all (e ∷ es) p = accepted e p ++ accepted_all es (handle e p)

abbrev pub ticks : List Event → ℕ
ticks [] = 0
ticks (key k ∷ es) = ticks es
ticks (tick ∷ es) = suc (ticks es)

-- From `p` to `q` the keys `taken` were taken and the keys `delivered` reached the editor.
pub record InOrder (taken : List ℕ) (p q : Power) (delivered : List ℕ) : Type 0 where
  pub order : pending p ++ taken ≡ delivered ++ pending q
  pub told : editor q.core ≡ edit_all delivered (editor p.core)
  pub valid : PowerValid q

edit_all-append :
    (xs ys : List ℕ) (e : Editor) → edit_all (xs ++ ys) e ≡ edit_all ys (edit_all xs e)
edit_all-append [] ys e = refl
edit_all-append (x ∷ xs) ys e = edit_all-append xs ys _

-- What one event does, in front of what the others do.
InOrder-step :
    (e : Event) (p q r : Power) (ds es taken : List ℕ)
    → Delivered e p q ds
    → InOrder taken q r es
    → InOrder (accepted e p ++ taken) p r (ds ++ es)
InOrder-step e p q r ds es taken d o = record {
  order =
      sym (append_assoc (pending p) (accepted e p) taken)
      ∙ ap (λ l. l ++ taken) d.order
      ∙ append_assoc ds (pending q) taken
      ∙ ap (λ l. ds ++ l) o.order
      ∙ sym (append_assoc ds es (pending r));
  told = o.told ∙ ap (edit_all es) d.told ∙ sym (edit_all-append ds es (editor p.core));
  valid = o.valid;
}

-- In a valid state, for any sequence of ticks and of keys that are nonzero bytes, the hooks leave
-- a valid state, and the waiting keys and those taken reach the shell in order, but for a last
-- part that still waits; the line and the mode are the abstract editor's.
pub handle_all-InOrder :
    (es : List Event) (p : Power)
    → PowerValid p
    → All Typeable es
    → (delivered : List ℕ) × InOrder (accepted_all es p) p (handle_all es p) delivered
handle_all-InOrder [] p v t =
    ([], record { order = append-nil (pending p); told = refl; valid = v })
handle_all-InOrder (e ∷ es) p v t =
    let (ds, d) = handle_in_order e p v t.0 in
    let (more, o) = handle_all-InOrder es (handle e p) d.valid t.1 in
    (ds ++ more, InOrder-step e p (handle e p) (handle_all es (handle e p)) ds more _ d o)

pub flush_limit-le : (m : PowerMode) → flush_limit m ≤ 50
flush_limit-le performance = omega arith
flush_limit-le balanced = omega arith
flush_limit-le energy_saver = omega arith

flush_limit-ge : (m : PowerMode) → 1 ≤ flush_limit m
flush_limit-ge performance = omega arith
flush_limit-ge balanced = omega arith
flush_limit-ge energy_saver = omega arith

-- In the performance mode no key waits, so that the claim on the waiting keys is void.
none_waits :
    (es : List Event) (p : Power)
    → PowerValid p
    → All Typeable es
    → is_performance p.core.current_mode ≡ true
    → (more : List ℕ) × InOrder (accepted_all es p) p (handle_all es p) (pending p ++ more)
none_waits es p v t perf =
    let (ds, o) = handle_all-InOrder es p v t in
    let empty = pending_empty p v.queue (ground (arith, v.order)) in (ds, rw empty o)

-- A key outside of the performance mode joins the keys that wait.
joined :
    (k : ℕ) (es : List Event) (p q : Power) (more : List ℕ)
    → Delivered (key k) p q []
    → InOrder (accepted_all es q) q (handle_all es q) (pending q ++ more)
    → InOrder
        (accepted (key k) p ++ accepted_all es q)
        p
        (handle_all es q)
        (pending p ++ (accepted (key k) p ++ more))
joined k es p q more d o =
    let same : pending p ++ (accepted (key k) p ++ more) ≡ pending q ++ more =
      sym (append_assoc (pending p) (accepted (key k) p) more) ∙ ap (λ l. l ++ more) d.order in
    rw same (InOrder-step (key k) p q (handle_all es q) [] (pending q ++ more) _ d o)

-- An early tick is counted, the mode stays, and the limit is not reached yet.
early_tick :
    (p : Power)
    → p.ticks_since_flush < 50
    → leb (flush_limit p.core.current_mode) (inc64 p.ticks_since_flush) ≡ false
    → (power_tick_hook p ≡ record p { ticks_since_flush = p.ticks_since_flush + 1 })
      × (p.ticks_since_flush + 1 < flush_limit p.core.current_mode)
unfolding power_tick_hook
early_tick p few early =
    let small : inc64 p.ticks_since_flush ≡ p.ticks_since_flush + 1 = omega arith in
    (rw (early, small) refl, ground (arith, small, early))

waiting_keys :
    (es : List Event) (p : Power)
    → PowerValid p
    → All Typeable es
    → p.ticks_since_flush < 50
    → flush_limit p.core.current_mode ≤ p.ticks_since_flush + ticks es
    → 0 < ticks es
    → (more : List ℕ) × InOrder (accepted_all es p) p (handle_all es p) (pending p ++ more)
unfolding handle
waiting_keys [] p v t few due some_tick = absurd (omega arith)
waiting_keys (key k ∷ es) p v t few due some_tick =
    elim (Bool-cases (is_performance p.core.current_mode)) [
      | inl perf ↦ none_waits (key k ∷ es) p v t perf
      | inr calm ↦
          let (d, kept) = calm_key-Delivered k p t.0 v calm in
          let q = handle (key k) p in
          let mode : q.core.current_mode ≡ p.core.current_mode = ap (λ e. e.1) d.told in
          let (more, o) =
            waiting_keys es q d.valid t.1 (rw kept few) (rw (mode, kept) due) some_tick in
          (accepted (key k) p ++ more, joined k es p q more d o)
    ]
waiting_keys (tick ∷ es) p v t few due some_tick =
    elim (Bool-cases (leb (flush_limit p.core.current_mode) (inc64 p.ticks_since_flush))) [
      | inl now ↦
          let d = due-Delivered p v now in
          let (more, o) = handle_all-InOrder es (power_tick_hook p) d.valid t.1 in
          (more, InOrder-step tick p (power_tick_hook p) _ (pending p) more _ d o)
      | inr early ↦
          let d = early-Delivered p v early in
          let (is, below) = early_tick p few early in
          let lim = flush_limit-le p.core.current_mode in
          let (more, o) =
            waiting_keys es (power_tick_hook p) d.valid t.1 (rw is (omega arith))
              (rw is (omega arith)) (omega arith) in
          let same : pending p ++ more ≡ pending (power_tick_hook p) ++ more =
            ap (λ r. pending r ++ more) (sym is) in
          (more, rw same (InOrder-step tick p (power_tick_hook p) _ [] _ _ d o))
    ]

-- In a valid state with fewer than 50 ticks counted, a sequence of ticks and of keys that are
-- nonzero bytes, with as many ticks as the mode allows, delivers every key that waits before it,
-- in order and before the others, whatever keys arrive between the ticks.
pub no_key_waits_longer :
    (es : List Event) (p : Power)
    → PowerValid p
    → All Typeable es
    → p.ticks_since_flush < 50
    → flush_limit p.core.current_mode ≤ ticks es
    → (more : List ℕ) × InOrder (accepted_all es p) p (handle_all es p) (pending p ++ more)
no_key_waits_longer es p v t few due =
    waiting_keys es p v t few (omega arith) (omega (arith, flush_limit-ge p.core.current_mode))
