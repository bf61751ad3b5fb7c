-- ===== src/Research/Terminal.antt =====
-- RESEARCH-OS/src/kernel/isr.c with drivers/vga.c and drivers/serial.c: an interrupt with what it prints. The
-- screen driver sends each character to the serial line too, and waits for the line.
pub mod Serves
use mathlib.Core.List.{reverse}
use bumbellbee_testing.Base.{ℕ, Option, none, some, List, [], ◌∷◌}
use bumbellbee_testing.Base.Uart.{Uart, send_all}
use bumbellbee_testing.Research.Core.{Core, Call}
use bumbellbee_testing.Research.Irq.{Machine, irq_handler}
use bumbellbee_testing.Research.Irq.Serve.{Request, vector}
use bumbellbee_testing.Research.Vga.{Vga, perform}

-- The machine, whose log has the calls that are not performed yet, the screen, and the line.
pub record Terminal : Type 0 where
  pub machine : Machine
  pub screen : Vga
  pub line : Uart

abbrev pub perform_all : List Call → Vga → Vga
perform_all [] v = v
perform_all (o ∷ os) v = perform_all os (perform o v)

-- What a machine's calls do to a screen; its `serial` has the bytes that they send.
abbrev pub shown : Machine → Vga → Vga
shown m v = perform_all (reverse m.power.core.out) (record v { serial = [] })

abbrev pub unlogged : Machine → Machine
unlogged m = record m { power = record m.power { core = record m.power.core { out = [] } } }

abbrev pub with_line : Machine → Vga → Option Uart → Option Terminal
with_line m v none = none
with_line m v (some u) = some (record { machine = m; screen = v; line = u })

-- An interrupt with the waits for the line: `none` where `write_serial` waits for ever.
pub serve_one : Request → ℕ → Terminal → Option Terminal
serve_one r scancode t = elim (irq_handler (vector r) scancode (unlogged t.machine)) [
  | none ↦ none
  | some n ↦ let v = shown n t.screen in with_line n v (send_all (reverse v.serial) t.line)
]

abbrev pub and_on : Option Terminal → (Terminal → Option Terminal) → Option Terminal
and_on none f = none
and_on (some t) f = f t

-- Interrupts, each with the byte that the keyboard's port gives then.
pub serve_all : List (Request × ℕ) → Terminal → Option Terminal
serve_all [] t = some t
serve_all ((r, scancode) ∷ is) t = and_on (serve_one r scancode t) (serve_all is)
