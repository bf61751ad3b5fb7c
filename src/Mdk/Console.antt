-- ===== src/Mdk/Console.antt =====
-- The output calls of MDK, as they leave the other components.
use bumbellbee_testing.Base.{ℕ, List}

-- An argument of a format: `%s`, or `%d` and `%x`.
pub data Arg : Type 0 where
  str : List ℕ → Arg
  int : ℕ → Arg

pub data Call : Type 0 where
  vga_serial_printf : List ℕ → List Arg → Call
  vga_serial_println : List ℕ → Call
  vga_serial_print : List ℕ → Call
  serial_printf : List ℕ → List Arg → Call
  serial_print : List ℕ → Call
  vga_print : List ℕ → Call
  vga_putc : ℕ → Call
  serial_putc : ℕ → Call
  vga_init : Call
  vga_set_color : ℕ → ℕ → Call
