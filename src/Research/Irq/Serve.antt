-- ===== src/Research/Irq/Serve.antt =====
-- Interrupts from the vector to the shell: which keys a scan code raises, and what is acknowledged.
use bumbellbee_testing.Base.Text.{Letter}
use bumbellbee_testing.Base.{
  ℕ, ◌+◌, ◌-◌, ◌%◌, ◌^◌, ◌<◌, ◌≡◌, ◌⊎◌, false, Option, none, some, List, [], ◌∷◌, All, arith,
  get_elem?, get_or, get_or_beyond, length, ltb, leb, ◌==◌, Bool-cases, inl, inr, if◌then◌else◌,
  refl, ap,
}
use bumbellbee_testing.Base.Bytes.{test_bit-high}
use bumbellbee_testing.Base.Keymap.{us_keymap, keymap-lt}
use bumbellbee_testing.Base.Ports.{outb}
use bumbellbee_testing.Research.Power.{Power, power_keyboard_hook}
use bumbellbee_testing.Research.Power.Delivery.{Event, key, tick, handle, Typeable, PowerValid}
use bumbellbee_testing.Research.Power.Keys.{handle_in_order}
use bumbellbee_testing.Research.Irq.{
  Machine, Handler, timer_callback, keyboard_callback, irq_handler, serve, on_timer, on_keyboard,
  end_of_interrupt, run_routine,
}

-- Both drivers are installed.
pub record Installed (m : Machine) : Type 0 where
  pub timer_routine : get_elem? m.irq_routines 0 ≡ some (some timer_callback)
  pub keyboard_routine : get_elem? m.irq_routines 1 ≡ some (some keyboard_callback)
  pub power_valid : PowerValid m.power

-- The character that a scan code stands for, if it is a key pressed that has one.
abbrev pub pressed : ℕ → Option ℕ
pressed scancode =
    if leb 128 scancode
    then none
    else if get_or us_keymap scancode 0 == 0
    then none
    else some (get_or us_keymap scancode 0)

-- The two lines whose gates are in the table, and their vectors.
pub data Request : Type 0 where
  timer_request keyboard_request : Request

abbrev pub vector : Request → ℕ
vector timer_request = 32
vector keyboard_request = 33

abbrev pub key_event : Option ℕ → Option Event
key_event none = none
key_event (some c) = some (key c)

abbrev pub raised : Request → ℕ → Option Event
raised timer_request scancode = some tick
raised keyboard_request scancode = key_event (pressed scancode)

abbrev pub handle_any : Option Event → Power → Power
handle_any none p = p
handle_any (some e) p = handle e p

-- What serving `e` leaves: the power manager has handled it, and the master controller alone is told.
pub record Served (e : Option Event) (m n : Machine) : Type 0 where
  pub acknowledged : n.ports ≡ outb 0x20 0x20 ∷ m.ports
  pub routed : n.power ≡ handle_any e m.power
  pub installed : Installed n

pressed-Letter :
    (scancode : ℕ)
    → (get_or us_keymap scancode 0 == 0) ≡ false
    → Letter (get_or us_keymap scancode 0)
pressed-Letter scancode h = ground (arith, keymap-lt scancode, h)

on_keyboard_lem :
    (scancode : ℕ) (m : Machine)
    → scancode < 256
    → on_keyboard scancode m ≡ elim (pressed scancode) [
      | none ↦ m
      | some c ↦ record m { power = power_keyboard_hook c m.power }
    ]
unfolding on_keyboard
on_keyboard_lem scancode m lt = elim (Bool-cases (leb 128 scancode)) [
  | inl released ↦ rw (test_bit-high scancode lt, released)
  | inr down ↦ elim (Bool-cases (ltb scancode (length us_keymap))) [
    | inl inside ↦
        rw (test_bit-high scancode lt, down, inside)
          elim (Bool-cases (get_or us_keymap scancode 0 == 0)) [
            | inl nul ↦ rw nul
            | inr char ↦ rw char
          ]
    | inr beyond ↦
        let nul = get_or_beyond us_keymap scancode 0 (ground (arith, beyond)) in
        rw (test_bit-high scancode lt, down, beyond, nul)
  ]
]

pressed-cases :
    (scancode : ℕ)
    → (pressed scancode ≡ none) ⊎ ((c : ℕ) × ((pressed scancode ≡ some c) × Letter c))
pressed-cases scancode = elim (Bool-cases (leb 128 scancode)) [
  | inl released ↦ inl (rw released)
  | inr down ↦ elim (Bool-cases (get_or us_keymap scancode 0 == 0)) [
    | inl nul ↦ inl (rw (down, nul))
    | inr char ↦ inr (get_or us_keymap scancode 0, (rw (down, char), pressed-Letter scancode char))
  ]
]

-- The events that a request raises, none or one.
abbrev pub events : Option Event → List Event
events none = []
events (some e) = e ∷ []

-- Whatever a request raises is a tick, or a key that is a nonzero byte.
pub events-Typeable : (r : Request) (scancode : ℕ) → All Typeable (events (raised r scancode))
events-Typeable timer_request scancode = (tt, tt)
events-Typeable keyboard_request scancode = elim (pressed-cases scancode) [
  | inl nothing ↦ rw nothing tt
  | inr (c, (is, l)) ↦ rw is (l, tt)
]

irq_handler-run :
    (int_no scancode : ℕ) (m : Machine) (r : Option Handler)
    → get_elem? m.irq_routines ((int_no + 2 ^ 64 - 32) % 2 ^ 64) ≡ some r
    → irq_handler int_no scancode m ≡ some (end_of_interrupt int_no (run_routine r scancode m))
unfolding irq_handler
irq_handler-run int_no scancode m r h = ap (λ o. serve o int_no scancode m) h

timer-Served :
    (scancode : ℕ) (m : Machine)
    → Installed m
    → Served (some tick) m (end_of_interrupt 32 (on_timer m))
unfolding end_of_interrupt on_timer
timer-Served scancode m v =
    let d = handle_in_order tick m.power v.power_valid tt in
    record {
      acknowledged = refl;
      routed = unfold handle in refl;
      installed = record {
        timer_routine = v.timer_routine;
        keyboard_routine = v.keyboard_routine;
        power_valid = unfold handle in d.1.valid;
      };
    }

keyboard-Served :
    (scancode : ℕ) (m : Machine)
    → scancode < 256
    → Installed m
    → Served (raised keyboard_request scancode) m (end_of_interrupt 33 (on_keyboard scancode m))
unfolding end_of_interrupt
keyboard-Served scancode m lt v = elim (pressed-cases scancode) [
  | inl nothing ↦
      rw (on_keyboard_lem scancode m lt, nothing)
        (record {
          acknowledged = refl;
          routed = refl;
          installed = record {
            timer_routine = v.timer_routine;
            keyboard_routine = v.keyboard_routine;
            power_valid = v.power_valid;
          };
        })
  | inr (c, (is, l)) ↦
      let d = handle_in_order (key c) m.power v.power_valid l in
      rw (on_keyboard_lem scancode m lt, is)
        (record {
          acknowledged = refl;
          routed = unfold handle in refl;
          installed = record {
            timer_routine = v.timer_routine;
            keyboard_routine = v.keyboard_routine;
            power_valid = unfold handle in d.1.valid;
          };
        })
]

-- With both drivers installed and a valid state, the vectors 32 and 33 are served for every scan
-- code byte: the power manager handles exactly the tick, or the character of a key pressed, the
-- state stays valid, and the master interrupt controller is told once.
pub irq_handler_lem :
    (r : Request) (scancode : ℕ) (m : Machine)
    → scancode < 256
    → Installed m
    → (n : Machine) × ((irq_handler (vector r) scancode m ≡ some n)
        × Served (raised r scancode) m n)
irq_handler_lem timer_request scancode m lt v = (
  end_of_interrupt 32 (on_timer m),
  (irq_handler-run 32 scancode m (some timer_callback) v.timer_routine, timer-Served scancode m v),
)
irq_handler_lem keyboard_request scancode m lt v = (
  end_of_interrupt 33 (on_keyboard scancode m),
  (
    irq_handler-run 33 scancode m (some keyboard_callback) v.keyboard_routine,
    keyboard-Served scancode m lt v,
  ),
)
