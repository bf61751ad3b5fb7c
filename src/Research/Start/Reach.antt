-- ===== src/Research/Start/Reach.antt =====
-- The kernel from its start on: the interrupts that arrive in any order, as steps of the machine.
use mathlib.Core.Option.{some-injective}
use bumbellbee_testing.Base.{
  ℕ, ◌^◌, ◌<◌, ◌≡◌, Option, none, some, List, [], ◌∷◌, ◌++◌, All, All-replicate, arith, inl, refl,
  ap, sym, ◌∙◌,
}
use bumbellbee_testing.Base.Text.{Byte}
use bumbellbee_testing.Research.Core.{balanced, power_init}
use bumbellbee_testing.Research.Power.{Power}
use bumbellbee_testing.Research.Power.Queue.{pending}
use bumbellbee_testing.Research.Power.Delivery.{Event, Typeable, PowerValid, editor, edit_all}
use bumbellbee_testing.Research.Power.Run.{handle_all, accepted_all, handle_all-InOrder}
use bumbellbee_testing.Research.Irq.{Machine, irq_handler, timer_init, keyboard_init}
use bumbellbee_testing.Research.Irq.Serve.{
  Installed, Request, vector, raised, irq_handler_lem, events, events-Typeable, handle_any, Served,
}
use bumbellbee_testing.Research.Idt.{Idt, pic_remap, load_idt, init_serial}
use bumbellbee_testing.Research.Idt.Gates.{offset, load_idt_lem}
use bumbellbee_testing.Research.Start.{
  Kernel, power_statics, machine_statics, idt_init, kernel_main,
}

-- What the start leaves: both stubs in their gates, both drivers installed, an empty line in the
-- balanced mode, and no key or tick that waits.
pub record Started (irq0 irq1 : ℕ) (k : Kernel) : Type 0 where
  pub timer_gate : offset (k.idt.idt 32) ≡ irq0
  pub keyboard_gate : offset (k.idt.idt 33) ≡ irq1
  pub installed : Installed k.machine
  pub line : editor k.machine.power.core ≡ ([], balanced)
  pub none_waits : pending k.machine.power ≡ []
  pub no_ticks : k.machine.power.ticks_since_flush ≡ 0

pub power_statics-PowerValid : PowerValid power_statics
power_statics-PowerValid = record {
  queue = record { room = refl; head_in = omega arith; tail_in = omega arith };
  core = record {
    line = record {
      room = refl;
      short = omega arith;
      bytes = All-replicate Byte 256 0 (omega arith);
      letters = tt;
    };
    io = record { room = refl; few = omega arith; accounted = refl };
  };
  letters = tt;
  order = inl refl;
}

-- For stubs at 64-bit addresses kernel_main arrives at its loop, and the machine is started.
pub kernel_main_lem :
    (a1 a2 table irq0 irq1 : ℕ) (t : Idt)
    → irq0 < 2 ^ 64
    → irq1 < 2 ^ 64
    → (k : Kernel) × ((kernel_main a1 a2 table irq0 irq1
            (record { idt = t; machine = machine_statics })
          ≡ some k)
        × Started irq0 irq1 k)
unfolding kernel_main machine_statics idt_init init_serial pic_remap load_idt timer_init
    keyboard_init power_init
kernel_main_lem a1 a2 table irq0 irq1 t lt0 lt1 =
    let gates = load_idt_lem table irq0 irq1 0 t lt0 lt1 (λ e. cc) (λ e. cc) in
    let v = power_statics-PowerValid in
    (
      _,
      (
        refl,
        record {
          timer_gate = gates.0;
          keyboard_gate = gates.1.0;
          installed = record {
            timer_routine = refl;
            keyboard_routine = refl;
            power_valid = record {
              queue = record { room = refl; head_in = omega arith; tail_in = omega arith };
              core = record {
                line = record {
                  room = refl;
                  short = omega arith;
                  bytes = v.core.line.bytes;
                  letters = tt;
                };
                io = record { room = refl; few = omega arith; accounted = refl };
              };
              letters = tt;
              order = inl refl;
            };
          };
          line = refl;
          none_waits = refl;
          no_ticks = refl;
        },
      ),
    )

-- From one machine to another by interrupts, each with the byte that the keyboard's port gives then,
-- and the events that they raise.
pub data Reach : List Event → Machine → Machine → Type 0 where
  here : {m : Machine} → Reach [] m m
  interrupt :
      {m n o : Machine} {es : List Event} (r : Request) (scancode : ℕ)
      → scancode < 256
      → irq_handler (vector r) scancode m ≡ some n
      → Reach es n o
      → Reach (events (raised r scancode) ++ es) m o

-- What a run of interrupts leaves.
pub record Ran (es : List Event) (m n : Machine) : Type 0 where
  pub installed : Installed n
  pub routed : n.power ≡ handle_all es m.power
  pub typeable : All Typeable es

handle_events :
    (e : Option Event) (es : List Event) (p : Power)
    → handle_all (events e ++ es) p ≡ handle_all es (handle_any e p)
handle_events none es p = refl
handle_events (some e) es p = refl

Typeable-events :
    (e : Option Event) (es : List Event)
    → All Typeable (events e)
    → All Typeable es
    → All Typeable (events e ++ es)
Typeable-events none es t ts = ts
Typeable-events (some e) es t ts = (t.0, ts)

pub Reach-Ran : {es : List Event} {m n : Machine} → Installed m → Reach es m n → Ran es m n
Reach-Ran v here = record { installed = v; routed = refl; typeable = tt }
Reach-Ran v (interrupt {m} {n} {o} {es} r scancode lt h rest) =
    let (n', (is, s)) = irq_handler_lem r scancode m lt v in
    let same : n' ≡ n = some-injective _ _ (sym is ∙ h) in
    let s : Served (raised r scancode) m n = rw (sym same) s in
    let ran = Reach-Ran s.installed rest in
    record {
      installed = ran.installed;
      routed =
          ran.routed
          ∙ ap (handle_all es) s.routed
          ∙ sym (handle_events (raised r scancode) es m.power);
      typeable = Typeable-events (raised r scancode) es (events-Typeable r scancode) ran.typeable;
    }

-- What the shell has got of the keys taken.
pub record Progress (es : List Event) (m n : Machine) (delivered : List ℕ) : Type 0 where
  pub order : accepted_all es m.power ≡ delivered ++ pending n.power
  pub told : editor n.power.core ≡ edit_all delivered ([], balanced)
  pub valid : Installed n

-- In every state that interrupts reach from the start, both drivers are installed and the state is
-- valid, the keys taken since the start are those delivered and then those that wait, in this order,
-- and the line and the mode are the abstract editor's on the keys delivered.
pub typed_in_order :
    (irq0 irq1 : ℕ) (k : Kernel) {n : Machine} {es : List Event}
    → Started irq0 irq1 k
    → Reach es k.machine n
    → (delivered : List ℕ) × Progress es k.machine n delivered
typed_in_order irq0 irq1 k {n} {es} s reach =
    let ran = Reach-Ran s.installed reach in
    let (ds, o) = handle_all-InOrder es k.machine.power s.installed.power_valid ran.typeable in
    (
      ds,
      record {
        order =
            ap (λ l. l ++ accepted_all es k.machine.power) (sym s.none_waits)
            ∙ o.order
            ∙ ap (λ p. ds ++ pending p) (sym ran.routed);
        told = ap (λ p. editor p.core) ran.routed ∙ o.told ∙ ap (edit_all ds) s.line;
        valid = ran.installed;
      },
    )

-- The interrupts of a list, with the byte that the keyboard's port gives at each.
abbrev pub raised_all : List (Request × ℕ) → List Event
raised_all [] = []
raised_all ((r, scancode) ∷ is) = events (raised r scancode) ++ raised_all is

-- From a valid state with both drivers installed, any list of timer and keyboard interrupts,
-- whatever bytes the keyboard's port gives, is served to its end.
pub interrupts_end :
    (is : List (Request × ℕ)) (m : Machine)
    → Installed m
    → All (λ i. i.1 < 256) is
    → (n : Machine) × Reach (raised_all is) m n
interrupts_end [] m v lt = (m, here)
interrupts_end ((r, scancode) ∷ is) m v lt =
    let (n, (e, s)) = irq_handler_lem r scancode m lt.0 v in
    let (o, rest) = interrupts_end is n s.installed lt.1 in (o, interrupt r scancode lt.0 e rest)
