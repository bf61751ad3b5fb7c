-- ===== src/Modular/Keyboard.antt =====
-- modular-kernel/src/keyboard.c and exceptions.c: the keyboard handler of the first kernels, and the
-- last words of a page fault.
pub mod Keys
use bumbellbee_testing.Base.{
  ℕ, ◌+◌, ◌%◌, ◌^◌, List, [], ◌∷◌, ◌++◌, get_or, replicate, leb, ◌==◌, if◌then◌else◌,
}
use bumbellbee_testing.Base.Bytes.{test_bit}
use bumbellbee_testing.Base.Keymap.{us_keymap}
use bumbellbee_testing.Base.Ports.{PortWrite, outb}
use bumbellbee_testing.Base.Text.{codes}
use bumbellbee_testing.Modular.Screen.{Screen, put_byte, kprint, kprint_newline, kprint_hex}

-- The screen, and the writes to the ports, the last one first.
pub record Console : Type 0 where
  pub screen : Screen
  pub ports : List PortWrite

abbrev pub write_port : ℕ → ℕ → Console → Console
write_port port data_byte c = record c { ports = outb port data_byte ∷ c.ports }

unfoldable pub kb_init : Console → Console
kb_init c = write_port 0x21 0xFD c

-- The table of 128 entries ends in zeros.
abbrev pub keyboard_map : List ℕ
keyboard_map = us_keymap ++ replicate 38 0

abbrev pub enter_key_code : ℕ
enter_key_code = 0x1C

-- What a key code does to the screen: as a signed char it is negative from 128 on.
pub show_key : ℕ → Screen → Screen
show_key keycode s =
    if leb 128 keycode
    then s
    else if keycode == enter_key_code
    then kprint_newline s
    else put_byte 0x07 (put_byte (get_or keyboard_map keycode 0) s)

-- With the bytes that the status port and the data port give.
pub keyboard_handler_main : ℕ → ℕ → Console → Console
keyboard_handler_main status keycode c =
    let c = write_port 0x20 0x20 c in
    if test_bit status 0 then record c { screen = show_key keycode c.screen } else c

-- The text before the machine halts, with the address that CR2 holds.
pub page_fault_handler_main : ℕ → ℕ → Screen → Screen
page_fault_handler_main faulting_address error_code s =
    let s = kprint_hex faulting_address (kprint (codes "PAGE FAULT!\nFaulting address: ") s) in
    let s = kprint_hex error_code (kprint (codes "\nError code: ") s) in
    kprint (codes "\nSystem halted.") s
