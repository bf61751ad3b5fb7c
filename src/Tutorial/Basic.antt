-- ===== src/Tutorial/Basic.antt =====
-- kernel-201-implemented/kernel.c: text, one gate, and the keyboard. The functions on the screen and
-- the keyboard are those that modular-kernel took over word for word.
pub mod Start
use bumbellbee_testing.Base.{ℕ, ◌+◌, ◌*◌, ◌/◌, ◌%◌, ◌^◌, List, [], ◌∷◌, update}
use bumbellbee_testing.Base.Text.{codes}
use bumbellbee_testing.Modular.Screen
use bumbellbee_testing.Modular.Screen.{Screen}
use bumbellbee_testing.Modular.Keyboard
use bumbellbee_testing.Modular.Keyboard.{Console, write_port}

-- `struct IDT_entry`
pub record IdtEntry : Type 0 where
  pub offset_lowerbits : ℕ
  pub selector : ℕ
  pub zero_byte : ℕ
  pub type_attr : ℕ
  pub offset_higherbits : ℕ

-- The screen and the ports, the table, and the two words given to `load_idt`.
pub record Kernel : Type 0 where
  pub console : Console
  pub idt : ℕ → IdtEntry
  pub idt_ptr : ℕ × ℕ

abbrev pub on_screen : (Screen → Screen) → Kernel → Kernel
on_screen f k = record k { console = record k.console { screen = f k.console.screen } }

abbrev pub write : ℕ → ℕ → Kernel → Kernel
write port data_byte k = record k { console = write_port port data_byte k.console }

-- The entry for a handler: the kernel's code segment, and the type of an interrupt gate.
abbrev pub gate : ℕ → IdtEntry
gate address = record {
  offset_lowerbits = address % 2 ^ 16;
  selector = 0x08;
  zero_byte = 0;
  type_attr = 0x8e;
  offset_higherbits = address / 2 ^ 16 % 2 ^ 16;
}

-- The writes to the two controllers, which end with every request masked.
unfoldable pub remap_pic : Kernel → Kernel
remap_pic k =
    let k = write 0xA0 0x11 (write 0x20 0x11 k) in
    let k = write 0xA1 0x28 (write 0x21 0x20 k) in
    let k = write 0xA1 0x00 (write 0x21 0x00 k) in
    let k = write 0xA1 0x01 (write 0x21 0x01 k) in write 0xA1 0xff (write 0x21 0xff k)

-- The words that describe a table at an address; a word has 32 bits.
abbrev pub describe : ℕ → ℕ × ℕ
describe idt_address = ((8 * 256 + idt_address % 2 ^ 16 * 2 ^ 16) % 2 ^ 32, idt_address / 2 ^ 16)

-- With the addresses of the table and of the keyboard's stub.
unfoldable pub idt_init : ℕ → ℕ → Kernel → Kernel
idt_init table keyboard_handler k =
    let k = record k { idt = update k.idt 0x21 (gate keyboard_handler) } in
    record (remap_pic k) { idt_ptr = describe table }

pub kb_init : Kernel → Kernel
kb_init k = write 0x21 0xFD k

abbrev pub kprint : List ℕ → Kernel → Kernel
kprint str k = on_screen (Screen.kprint str) k

abbrev pub kprint_newline : Kernel → Kernel
kprint_newline k = on_screen Screen.kprint_newline k

abbrev pub clear_screen : Kernel → Kernel
clear_screen k = on_screen Screen.clear_screen k

-- The table of keyboard_map.h.
abbrev pub keyboard_map : List ℕ
keyboard_map = Keyboard.keyboard_map

abbrev pub keyboard_handler_main : ℕ → ℕ → Kernel → Kernel
keyboard_handler_main status keycode k = record k {
  console = Keyboard.keyboard_handler_main status keycode k.console;
}

-- Up to the endless loop.
unfoldable pub kmain : ℕ → ℕ → Kernel → Kernel
kmain table keyboard_handler k =
    let k = kprint (codes "Bumbellbee got keyboard support") (clear_screen k) in
    kb_init (idt_init table keyboard_handler (kprint_newline (kprint_newline k)))
