-- ===== src/Tutorial/Tests.antt =====
-- Runs of the tutorial kernels on concrete states.
use bumbellbee_testing.Base.{◌≡◌, ◌≢◌, ℕ, List, [], ◌∷◌, arith, refl}
use bumbellbee_testing.Base.Ports.{PortWrite, outb}
use bumbellbee_testing.Base.Text.{codes}
use bumbellbee_testing.Modular.Screen.Clear.{Banner}
use bumbellbee_testing.Tutorial.Basic.{IdtEntry, Kernel, kmain}
use bumbellbee_testing.Tutorial.Basic.Start.{offset, base, kmain_lem}

abbrev entry : IdtEntry
entry = record {
  offset_lowerbits = 0;
  selector = 0;
  zero_byte = 0;
  type_attr = 0;
  offset_higherbits = 0;
}

-- A screen full of noise, before the kernel starts.
abbrev machine : Kernel
machine = record {
  console = record { screen = record { vidptr = λ i. i; current_loc = 0 }; ports = [] };
  idt = λ i. entry;
  idt_ptr = (0, 0);
}

kmain_lem_example :
    let m = kmain 0x104000 0x100123 machine in
    Banner (codes "Bumbellbee got keyboard support") m.console.screen
    × (offset (m.idt 0x21) ≡ 0x100123)
    × ((j : ℕ) → j ≢ 0x21 → m.idt j ≡ entry)
    × (base m.idt_ptr ≡ 0x104000)
    × ((before : List PortWrite) × (m.console.ports ≡ outb 0x21 0xFD ∷ outb 0xA1 0xff ∷ before))
kmain_lem_example = kmain_lem 0x104000 0x100123 machine refl (omega arith) (omega arith)
