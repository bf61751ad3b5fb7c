-- ===== src/Modular/Irq.antt =====
-- modular-kernel/src/irq.c, timer.c and kb.c: the interrupt requests and the two drivers.
pub mod Serve
pub mod Wait
use bumbellbee_testing.Base.{
  ℕ, zero, suc, ◌+◌, ◌-◌, ◌/◌, ◌%◌, ◌^◌, Bool, true, false, Option, none, some, List, [], ◌∷◌, ◌++◌,
  set, get_or, replicate, leb, if◌then◌else◌,
}
use bumbellbee_testing.Base.Bytes.{test_bit}
use bumbellbee_testing.Base.Keymap.{us_keymap}
use bumbellbee_testing.Base.Ports.{PortWrite, outb}
use bumbellbee_testing.Modular.Screen.{Screen, putch}

-- The functions that the drivers install.
pub data Handler : Type 0 where
  timer_handler keyboard_handler : Handler

-- The statics of the three files and the screen; `ports` logs the writes, the last one first.
pub record Machine : Type 0 where
  pub irq_routines : List (Option Handler)
  pub timer_ticks : ℕ
  pub screen : Screen
  pub ports : List PortWrite

abbrev pub outportb : ℕ → ℕ → Machine → Machine
outportb port data_byte m = record m { ports = outb port data_byte ∷ m.ports }

unfoldable pub irq_install_handler : ℕ → Handler → Machine → Machine
irq_install_handler irq handler m = record m {
  irq_routines = set m.irq_routines irq (some handler);
}

unfoldable pub irq_uninstall_handler : ℕ → Machine → Machine
irq_uninstall_handler irq m = record m { irq_routines = set m.irq_routines irq none }

-- For a positive frequency; `outportb` takes the low byte of each argument.
pub timer_phase : ℕ → Machine → Machine
timer_phase hz m =
    let divisor = 1193180 / hz in
    outportb 0x40 (divisor / 2 ^ 8 % 2 ^ 8) (outportb 0x40 (divisor % 2 ^ 8) (outportb 0x43 0x36 m))

-- `timer_handler`
unfoldable pub on_timer : Machine → Machine
on_timer m = record m { timer_ticks = (m.timer_ticks + 1) % 2 ^ 32 }

unfoldable pub timer_install : Machine → Machine
timer_install m = irq_install_handler 0 timer_handler m

-- The table of 128 entries ends in zeros.
abbrev pub kbdus : List ℕ
kbdus = us_keymap ++ replicate 38 0

-- `keyboard_handler`, with the byte that port 0x60 gives.
unfoldable pub on_keyboard : ℕ → Machine → Machine
on_keyboard scancode m =
    if test_bit scancode 7
    then m
    else record m { screen = putch (get_or kbdus scancode 0) m.screen }

unfoldable pub keyboard_install : Machine → Machine
keyboard_install m = irq_install_handler 1 keyboard_handler m

-- A call of an installed handler.
abbrev pub run : Option Handler → ℕ → Machine → Machine
run none scancode m = m
run (some timer_handler) scancode m = on_timer m
run (some keyboard_handler) scancode m = on_keyboard scancode m

-- The end of interrupt, to the slave where it raised the request, and to the master.
unfoldable pub end_of_interrupt : ℕ → Machine → Machine
end_of_interrupt int_no m = outportb 0x20 0x20 (if leb 40 int_no then outportb 0xA0 0x20 m else m)

-- The stubs raise vectors from 32 on.
unfoldable pub irq_handler : ℕ → ℕ → Machine → Machine
irq_handler int_no scancode m =
    end_of_interrupt int_no (run (get_or m.irq_routines (int_no - 32) none) scancode m)
