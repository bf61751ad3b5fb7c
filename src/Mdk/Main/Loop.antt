-- ===== src/Mdk/Main/Loop.antt =====
-- The clock of the main loop.
use bumbellbee_testing.Base.{
  ℕ, ◌+◌, ◌/◌, ◌%◌, ◌^◌, ◌<◌, ◌≤◌, ◌≡◌, ◌⊎◌, false, Option, none, some, List, [], ◌∷◌, All, arith,
  refl, length, ◌==◌, Bool-cases, inl, inr,
}
use bumbellbee_testing.Mdk.Cluster.{cluster_poll}
use bumbellbee_testing.Base.{ap, ◌∙◌}
use bumbellbee_testing.Mdk.Main.{
  overruns, on_cluster, handle, count, tick_after, Running, Input, poll, tick, round,
}

-- Rounds of the loop, until one faults.
abbrev pub next_round : List Input → Option Running → Option Running
next_round [] r = r
next_round (i ∷ is) none = none
next_round (i ∷ is) (some r) = next_round is (round i r)

abbrev pub rounds : List Input → Running → Option Running
rounds is r = next_round is (some r)

-- The network gives no frame, or one that is too short for a message; `ret` is the pattern of an int.
abbrev pub IsShort : ℕ → Type 0
IsShort ret = (ret < 12) ⊎ (2 ^ 31 ≤ ret)

-- No character waits, and no message arrives.
abbrev pub IsQuiet : Input → Type 0
IsQuiet i = (i.char ≡ none) × IsShort i.ret

abbrev pub ticks : Running → ℕ
ticks r = r.node.kernel_uptime_ticks

-- After `k` rounds: the counter, and the ticks.
pub record Counted (k : ℕ) (r r' : Running) : Type 0 where
  pub counter : r'.counter ≡ (r.counter + k) % 10000000
  pub ticked : ticks r' ≡ (ticks r + (r.counter + k) / 10000000) % 2 ^ 32

IsShort-fits : (ret : ℕ) → IsShort ret → overruns ret ≡ false
IsShort-fits ret h = ground (arith, h)

poll-clock :
    (i : Input) (r : Running)
    → IsShort i.ret
    → (u : Running) × (poll i r ≡ some u) × (u.counter ≡ r.counter) × (ticks u ≡ ticks r)
poll-clock i r h = elim (Bool-cases (r.counter % 1000000 == 0)) [
  | inl due ↦
      (on_cluster (cluster_poll i.ret i.msg) r, rw (due, IsShort-fits i.ret h) refl, refl, refl)
  | inr idle ↦ (r, rw idle refl, refl, refl)
]

tick-clock :
    (r : Running)
    → 1 ≤ r.counter
    → r.counter ≤ 10000000
    → ticks r < 2 ^ 32
    → ((tick r).counter ≡ r.counter % 10000000)
      × (ticks (tick r) ≡ (ticks r + r.counter / 10000000) % 2 ^ 32)
tick-clock r lo hi small = elim (Bool-cases (r.counter == 10000000)) [
  | inl full ↦
      let e : r.counter ≡ 10000000 = ground (arith, full) in
      rw full (omega (arith, e), omega (arith, e))
  | inr more ↦
      let less : r.counter < 10000000 = ground (arith, more, hi) in
      rw more (omega (arith, less), omega (arith, less, small))
]

round-Counted :
    (i : Input) (r : Running)
    → IsQuiet i
    → r.counter < 10000000
    → ticks r < 2 ^ 32
    → (r' : Running) × (round i r ≡ some r') × Counted 1 r r'
unfolding round
round-Counted i r quiet below small =
    let (u, polled, counter, clock) = poll-clock i (record r { counter = r.counter + 1 }) quiet.1 in
    let ticked =
      tick-clock u (omega (arith, counter)) (omega (arith, counter, below))
        (omega (arith, clock, small)) in
    (
      tick u,
      ap (λ c. count i r.counter (handle c r.node)) quiet.0 ∙ ap tick_after polled,
      record {
        counter = omega (arith, ticked.0, counter);
        ticked = omega (arith, ticked.1, counter, clock);
      },
    )

-- While no character waits and the network gives no frame of twelve bytes or more, so that nothing is
-- printed or overrun, the loop goes on, and from a counter below ten million it adds one tick to the
-- uptime for every ten million rounds.
pub uptime_advances :
    (is : List Input) (r : Running)
    → All IsQuiet is
    → r.counter < 10000000
    → ticks r < 2 ^ 32
    → (r' : Running) × (rounds is r ≡ some r') × Counted (length is) r r'
uptime_advances [] r quiet below small =
    (r, refl, record { counter = omega (arith, below); ticked = omega (arith, below, small) })
uptime_advances (i ∷ is) r quiet below small =
    let (u, first, one) = round-Counted i r quiet.0 below small in
    let in_range : u.counter < 10000000 = omega (arith, one.counter) in
    let in_word : ticks u < 2 ^ 32 = omega (arith, one.ticked) in
    let (r', more, all) = uptime_advances is u quiet.1 in_range in_word in
    (
      r',
      rw first more,
      record {
        counter = omega (arith, all.counter, one.counter);
        ticked = omega (arith, all.ticked, one.ticked, one.counter, below);
      },
    )
