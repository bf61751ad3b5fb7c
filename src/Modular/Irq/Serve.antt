-- ===== src/Modular/Irq/Serve.antt =====
-- What each request does once both drivers are installed.
use native.Mathlib.Nat.{div-lt_iff_lt-mul}
use bumbellbee_testing.Base.{
  ℕ, zero, suc, ◌+◌, ◌-◌, ◌*◌, ◌/◌, ◌%◌, ◌^◌, ◌<◌, ◌≤◌, ◌≡◌, ◌&&◌, true, false, Option, none, ◌∷◌,
  arith, refl, ap, get_or, replicate, ltb, leb, ◌==◌, Bool-cases, inl, inr, if◌then◌else◌,
}
use bumbellbee_testing.Base.Bytes.{test_bit-high}
use bumbellbee_testing.Base.Ports.{outb}
use bumbellbee_testing.Modular.Screen.{putch}
use bumbellbee_testing.Modular.Irq.{
  Machine, Handler, irq_install_handler, timer_install, keyboard_install, timer_phase, kbdus,
  on_timer, on_keyboard, end_of_interrupt, irq_handler,
}

-- The two calls of the kernel's start, on the table without routines.
abbrev pub install : Machine → Machine
install m = keyboard_install (timer_install (record m { irq_routines = replicate 16 none }))

-- Served requests: what a vector does to the counter, the screen and the ports.
pub record Served (int_no scancode : ℕ) (m m' : Machine) : Type 0 where
  pub ticks :
      m'.timer_ticks ≡ (if int_no == 32 then (m.timer_ticks + 1) % 2 ^ 32 else m.timer_ticks)
  pub shown : m'.screen ≡ (
      if int_no == 33 && ltb scancode 128
      then putch (get_or kbdus scancode 0) m.screen
      else m.screen)
  pub ended :
      m'.ports ≡ outb 0x20 0x20 ∷ (if leb 40 int_no then outb 0xA0 0x20 ∷ m.ports else m.ports)
  pub routines : m'.irq_routines ≡ m.irq_routines

abbrev no_handler : Option Handler
no_handler = none

no_routine : (n i : ℕ) → get_or (replicate n no_handler) i none ≡ none
no_routine zero i = refl
no_routine (suc n) zero = refl
no_routine (suc n) (suc i) = no_routine n i

-- The end of interrupt behind what a routine does.
end-Served :
    (int_no scancode : ℕ) (m m' : Machine)
    → m'.timer_ticks ≡ (if int_no == 32 then (m.timer_ticks + 1) % 2 ^ 32 else m.timer_ticks)
    → m'.screen ≡ (
        if int_no == 33 && ltb scancode 128
        then putch (get_or kbdus scancode 0) m.screen
        else m.screen)
    → m'.ports ≡ m.ports
    → m'.irq_routines ≡ m.irq_routines
    → Served int_no scancode m (end_of_interrupt int_no m')
unfolding end_of_interrupt
end-Served int_no scancode m m' t s p r = elim (Bool-cases (leb 40 int_no)) [
  | inl slave ↦ rw slave (record {
    ticks = t;
    shown = s;
    ended = rw slave (ap (λ ps. outb 0x20 0x20 ∷ outb 0xA0 0x20 ∷ ps) p);
    routines = r;
  })
  | inr master ↦ rw master (record {
    ticks = t;
    shown = s;
    ended = rw master (ap (λ ps. outb 0x20 0x20 ∷ ps) p);
    routines = r;
  })
]

-- With both drivers installed, every vector from 32 to 47 is served for every scan code byte: the
-- timer's counts one tick, the keyboard's prints the character of a key pressed, the others do
-- nothing; the master controller is told, after the slave if it raised the request.
pub all_requests_end :
    (int_no scancode : ℕ) (m : Machine)
    → 32 ≤ int_no
    → int_no < 48
    → scancode < 256
    → Served int_no scancode (install m) (irq_handler int_no scancode (install m))
unfolding irq_handler end_of_interrupt timer_install keyboard_install irq_install_handler on_timer
    on_keyboard
all_requests_end int_no scancode m lo hi byte = elim (Bool-cases (int_no == 32)) [
  | inl tick ↦
      let first : int_no - 32 ≡ 0 = ground (arith, tick) in
      let other : (int_no == 33) ≡ false = ground (arith, tick) in
      rw first (
        end-Served int_no scancode (install m) (on_timer (install m)) (rw tick refl) (rw other refl)
          refl refl)
  | inr no_tick ↦ elim (Bool-cases (int_no == 33)) [
    | inl key ↦
        let second : int_no - 32 ≡ 1 = ground (arith, key) in
        elim (Bool-cases (leb 128 scancode)) [
          | inl released ↦
              let bound : ltb scancode 128 ≡ false = ground (arith, released) in
              rw (second, test_bit-high scancode byte, released)
                (end-Served int_no scancode (install m) (install m) (rw no_tick refl)
                  (rw (key, bound) refl) refl refl)
          | inr pressed ↦
              let bound : ltb scancode 128 ≡ true = ground (arith, pressed) in
              rw (second, test_bit-high scancode byte, pressed)
                (end-Served int_no scancode (install m)
                  (record (install m) { screen = putch (get_or kbdus scancode 0) m.screen })
                  (rw no_tick refl) (rw (key, bound) refl) refl refl)
        ]
    | inr no_key ↦
        let beyond : int_no - 32 ≡ suc (suc (int_no - 34)) = ground (arith, no_tick, no_key, lo) in
        rw (beyond, no_routine 14 (int_no - 34))
          (end-Served int_no scancode (install m) (install m) (rw no_tick refl) (rw no_key refl)
            refl refl)
  ]
]

mod_byte : (d : ℕ) → d % 2 ^ 8 < 256
mod_byte d = omega arith

-- For a frequency of 19 or more, the two data bytes that timer_phase writes are those of
-- the clock's divisor, the low byte first.
timer_phase_lem :
    (hz : ℕ) (m : Machine)
    → 19 ≤ hz
    → (low : ℕ) × (high : ℕ) × ((timer_phase hz m).ports
        ≡ outb 0x40 high ∷ outb 0x40 low ∷ outb 0x43 0x36 ∷ m.ports)
      × (low < 256)
      × (high < 256)
      × (high * 2 ^ 8 + low ≡ 1193180 / hz)
unfolding timer_phase
timer_phase_lem hz m lo =
    let d = 1193180 / hz in
    let small : d < 2 ^ 16 = (div-lt_iff_lt-mul (omega (arith, lo))).1 (omega (arith, lo)) in
    (d % 2 ^ 8, d / 2 ^ 8 % 2 ^ 8, refl, mod_byte d, mod_byte (d / 2 ^ 8), omega (arith, small))
