-- ===== src/Research/Start/Waits.antt =====
-- How long a key waits in the running kernel.
use mathlib.Core.Path.{subst⁻¹}
use bumbellbee_testing.Base.{ℕ, ◌<◌, ◌≤◌, List, ◌++◌, arith}
use bumbellbee_testing.Research.Power.{flush_limit}
use bumbellbee_testing.Research.Power.Queue.{pending}
use bumbellbee_testing.Research.Power.Delivery.{Event}
use bumbellbee_testing.Research.Power.Run.{accepted_all, ticks, InOrder, no_key_waits_longer}
use bumbellbee_testing.Research.Power.Count.{few_ticks_all}
use bumbellbee_testing.Research.Irq.{Machine}
use bumbellbee_testing.Research.Start.{Kernel}
use bumbellbee_testing.Research.Start.Reach.{Started, Reach, Reach-Ran}

-- In every state that interrupts reach from the start, once as many of the interrupts that follow are
-- the timer's as the mode then allows, every key that waited has reached the shell, in order and before
-- those that came later.
pub keys_arrive :
    (irq0 irq1 : ℕ) (k : Kernel) {n o : Machine} {es fs : List Event}
    → Started irq0 irq1 k
    → Reach es k.machine n
    → Reach fs n o
    → flush_limit n.power.core.current_mode ≤ ticks fs
    → (more : List ℕ) × InOrder (accepted_all fs n.power) n.power o.power (pending n.power ++ more)
keys_arrive irq0 irq1 k {n} {o} {es} {fs} s before after due =
    let ran = Reach-Ran s.installed before in
    let later = Reach-Ran ran.installed after in
    let few : n.power.ticks_since_flush < 50 =
      subst⁻¹ (λ p. p.ticks_since_flush < 50) ran.routed
        (few_ticks_all es k.machine.power (rw s.no_ticks (omega arith))) in
    let (more, o') =
      no_key_waits_longer fs n.power ran.installed.power_valid later.typeable few due in
    (
      more,
      subst⁻¹ (λ q. InOrder (accepted_all fs n.power) n.power q (pending n.power ++ more))
          later.routed o',
    )
