-- ===== src/Tutorial/Basic/Start.antt =====
-- What the start of the first kernel leaves behind.
use bumbellbee_testing.Base.{
  ℕ, ◌+◌, ◌*◌, ◌/◌, ◌%◌, ◌^◌, ◌<◌, ◌≡◌, ◌≢◌, List, ◌∷◌, arith, refl, ==_ne,
}
use bumbellbee_testing.Base.Ports.{PortWrite, outb}
use bumbellbee_testing.Base.Text.{codes}
use bumbellbee_testing.Modular.Screen.Clear.{Banner, start_screen-Banner}
use bumbellbee_testing.Tutorial.Basic.{
  IdtEntry, Kernel, gate, remap_pic, describe, idt_init, kb_init, kmain,
}

-- The address that the processor puts together.
abbrev pub offset : IdtEntry → ℕ
offset e = e.offset_lowerbits + e.offset_higherbits * 2 ^ 16

-- What `lidt` reads in the two words: a limit of 16 bits, and then a base of 32.
abbrev pub limit : ℕ × ℕ → ℕ
limit (low, high) = low % 2 ^ 16

abbrev pub base : ℕ × ℕ → ℕ
base (low, high) = low / 2 ^ 16 + high % 2 ^ 16 * 2 ^ 16

pub offset-gate : (address : ℕ) → address < 2 ^ 32 → offset (gate address) ≡ address
offset-gate address h = omega (arith, h)

base_describe : (table : ℕ) → table < 2 ^ 32 → base (describe table) ≡ table
base_describe table h = omega (arith, h)

limit_describe : (table : ℕ) → limit (describe table) ≡ 2048
limit_describe table = omega arith

-- With the cursor at 0 and 32-bit addresses, kmain clears the screen but for its banner, moves the
-- cursor to the start of a line behind it, enters the keyboard's stub and no other gate, describes
-- the table by its address, and at last masks every request but the keyboard's.
pub kmain_lem :
    (table keyboard_handler : ℕ) (k : Kernel)
    → k.console.screen.current_loc ≡ 0
    → table < 2 ^ 32
    → keyboard_handler < 2 ^ 32
    → let m = kmain table keyboard_handler k in
      Banner (codes "Bumbellbee got keyboard support") m.console.screen
      × (offset (m.idt 0x21) ≡ keyboard_handler)
      × ((j : ℕ) → j ≢ 0x21 → m.idt j ≡ k.idt j)
      × (base m.idt_ptr ≡ table)
      × ((before : List PortWrite) × (m.console.ports ≡ outb 0x21 0xFD ∷ outb 0xA1 0xff ∷ before))
unfolding kmain idt_init kb_init remap_pic
kmain_lem table keyboard_handler k start t h = (
  start_screen-Banner (codes "Bumbellbee got keyboard support") k.console.screen start
      (omega arith),
  offset-gate keyboard_handler h,
  λ j ne. rw (==_ne j 0x21 ne) refl,
  base_describe table t,
  (_, refl),
)
