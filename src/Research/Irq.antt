-- ===== src/Research/Irq.antt =====
-- RESEARCH-OS/src/kernel/isr.c, drivers/keyboard.c and drivers/timer.c: the interrupt requests, from
-- the vector to the hooks of the power manager.
pub mod Serve
use bumbellbee_testing.Base.{
  ℕ, zero, suc, ◌+◌, ◌-◌, ◌/◌, ◌%◌, ◌^◌, Bool, true, false, Option, none, some, List, [], ◌∷◌, ◌++◌,
  set, get_elem?, get_or, replicate, length, ltb, leb, ◌==◌, if◌then◌else◌,
}
use bumbellbee_testing.Base.Bytes.{test_bit}
use bumbellbee_testing.Base.Keymap.{us_keymap}
use bumbellbee_testing.Base.Ports.{PortWrite, outb}
use bumbellbee_testing.Research.Power.{Power, power_keyboard_hook, power_tick_hook}

-- The functions that the drivers install.
pub data Handler : Type 0 where
  timer_callback keyboard_callback : Handler

-- The statics of the three files beside the power manager's; `ports` logs the writes, the last one
-- first.
pub record Machine : Type 0 where
  pub power : Power
  pub tick_count : ℕ
  pub irq_routines : List (Option Handler)
  pub ports : List PortWrite

abbrev pub write : PortWrite → Machine → Machine
write w m = record m { ports = w ∷ m.ports }

unfoldable pub no_routines : List (Option Handler)
no_routines = replicate 16 none

pub irq_install_handler : ℕ → Handler → Machine → Machine
irq_install_handler irq h m = record m { irq_routines = set m.irq_routines irq (some h) }

unfoldable pub irq_uninstall_handler : ℕ → Machine → Machine
irq_uninstall_handler irq m = record m { irq_routines = set m.irq_routines irq none }

-- `timer_callback`
pub on_timer : Machine → Machine
on_timer m = record m { tick_count = (m.tick_count + 1) % 2 ^ 64; power = power_tick_hook m.power }

-- `keyboard_callback`, with the byte that port 0x60 gives.
pub on_keyboard : ℕ → Machine → Machine
on_keyboard scancode m =
    let c = get_or us_keymap scancode 0 in
    if test_bit scancode 7
    then m
    else if ltb scancode (length us_keymap)
    then (if c == 0 then m else record m { power = power_keyboard_hook c m.power })
    else m

-- A call of an installed handler.
abbrev pub run : Handler → ℕ → Machine → Machine
run timer_callback scancode m = on_timer m
run keyboard_callback scancode m = on_keyboard scancode m

-- The end of interrupt, to the slave where it raised the request, and to the master.
pub end_of_interrupt : ℕ → Machine → Machine
end_of_interrupt int_no m =
    write (outb 0x20 0x20) (if leb 40 int_no then write (outb 0xA0 0x20) m else m)

abbrev pub run_routine : Option Handler → ℕ → Machine → Machine
run_routine none scancode m = m
run_routine (some h) scancode m = run h scancode m

-- `none` where the vector is outside of the table, which C leaves undefined.
abbrev pub serve : Option (Option Handler) → ℕ → ℕ → Machine → Option Machine
serve none int_no scancode m = none
serve (some routine) int_no scancode m =
    some (end_of_interrupt int_no (run_routine routine scancode m))

unfoldable pub irq_handler : ℕ → ℕ → Machine → Option Machine
irq_handler int_no scancode m =
    serve (get_elem? m.irq_routines ((int_no + 2 ^ 64 - 32) % 2 ^ 64)) int_no scancode m

unfoldable pub timer_init : ℕ → Machine → Option Machine
unfolding irq_install_handler
timer_init frequency m =
    let divisor = 1193180 / frequency in
    if frequency == 0
    then none
    else some (
        write (outb 0x40 (divisor / 256 % 256)) (
          write (outb 0x40 (divisor % 256))
            (write (outb 0x43 0x36) (irq_install_handler 0 timer_callback m))))

unfoldable pub keyboard_init : Machine → Machine
unfolding irq_install_handler
keyboard_init m = irq_install_handler 1 keyboard_callback m
