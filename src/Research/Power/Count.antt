-- ===== src/Research/Power/Count.antt =====
-- The count of ticks since the last flush.
use bumbellbee_testing.Base.{
  ℕ, ◌+◌, ◌%◌, ◌<◌, ◌≡◌, List, [], ◌∷◌, arith, Bool-cases, inl, inr, refl, leb, ◌==◌,
}
use bumbellbee_testing.Research.Core.{inc64}
use bumbellbee_testing.Research.Power.{
  Power, flush_limit, is_performance, enqueue, dispatch_now, power_keyboard_hook, flush_all,
  power_tick_hook,
}
use bumbellbee_testing.Research.Power.Delivery.{Event, key, tick, handle}
use bumbellbee_testing.Research.Power.Run.{handle_all, flush_limit-le}

-- The test for a full ring changes no count.
enqueue-ticks : (k : ℕ) (p : Power) → (enqueue k p).ticks_since_flush ≡ p.ticks_since_flush
unfolding enqueue
enqueue-ticks k p = elim (Bool-cases ((p.keyboard_queue_head + 1) % 256 == p.keyboard_queue_tail)) [
  | inl full ↦ rw full refl
  | inr room ↦ rw room refl
]

key-ticks : (k : ℕ) (p : Power) → (power_keyboard_hook k p).ticks_since_flush ≡ p.ticks_since_flush
unfolding power_keyboard_hook dispatch_now
key-ticks k p = elim (Bool-cases (is_performance p.core.current_mode)) [
  | inl perf ↦ rw perf refl
  | inr calm ↦ rw calm (enqueue-ticks k _)
]

-- No mode lets 50 ticks be counted.
few_ticks : (e : Event) (p : Power) → p.ticks_since_flush < 50 → (handle e p).ticks_since_flush < 50
unfolding handle power_tick_hook flush_all
few_ticks (key k) p few = rw (key-ticks k p) few
few_ticks tick p few =
    elim (Bool-cases (leb (flush_limit p.core.current_mode) (inc64 p.ticks_since_flush))) [
      | inl now ↦ rw now (omega arith)
      | inr early ↦ rw early (ground (arith, early, flush_limit-le p.core.current_mode))
    ]

pub few_ticks_all :
    (es : List Event) (p : Power)
    → p.ticks_since_flush < 50
    → (handle_all es p).ticks_since_flush < 50
few_ticks_all [] p few = few
few_ticks_all (e ∷ es) p few = few_ticks_all es (handle e p) (few_ticks e p few)
