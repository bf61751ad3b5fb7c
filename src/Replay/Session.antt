-- ===== src/Replay/Session.antt =====
-- REPLAY-OS/kernel/shell.c with keyboard.c and idt.c: the loop of the shell, which interrupts may
-- stop between any two of its accesses to `last_char`.
pub mod Lost
use bumbellbee_testing.Base.{ℕ, zero, suc, Option, none, some, List, [], ◌∷◌}
use bumbellbee_testing.Replay.Console.{Command, Shell, shell_run}
use bumbellbee_testing.Replay.Dispatch.{Machine, irq_handler}

-- A request with the byte that port 0x60 gives, or a turn of the shell's loop.
pub data Event : Type 0 where
  request : ℕ → ℕ → Event
  turn : Event

-- The shell, and the commands it has called, the last one first.
pub record Console : Type 0 where
  pub shell : Shell
  pub called : List Command

-- `held` is the local `c` of `keyboard_getc` between the load of `last_char` and its reset.
pub record Session : Type 0 where
  pub machine : Machine
  pub held : Option ℕ
  pub console : Console

abbrev pub add_command : Option Command → List Command → List Command
add_command none called = called
add_command (some c) called = c ∷ called

-- One character. What a command does does not touch the keyboard, and is left out.
pub type_char : ℕ → Console → Console
type_char c k =
    let (o, s) = shell_run c k.shell in record { shell = s; called = add_command o k.called }

abbrev pub take_turn : Option ℕ → Session → Session
take_turn none s = record s { held = some s.machine.keyboard.last_char }
take_turn (some c) s = record s {
  machine = record s.machine { keyboard = record s.machine.keyboard { last_char = 0 } };
  held = none;
  console = type_char c s.console;
}

-- A turn either loads the character, or resets it and goes through the rest of a round.
abbrev pub step : Event → Session → Session
step (request int_no scancode) s = record s { machine = irq_handler int_no scancode s.machine }
step turn s = take_turn s.held s

abbrev pub run : List Event → Session → Session
run [] s = s
run (e ∷ es) s = run es (step e s)
