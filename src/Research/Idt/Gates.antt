-- ===== src/Research/Idt/Gates.antt =====
-- What the processor finds in the table: the handler's address, in the gates set and in no other.
use bumbellbee_testing.Base.{ℕ, ◌+◌, ◌*◌, ◌^◌, ◌<◌, ◌≡◌, ◌≢◌, arith, refl, ==_ne}
use bumbellbee_testing.Research.Idt.{Idt, IdtEntry, idt_entry, idt_set_gate, load_idt}

-- The offset that the processor puts together.
abbrev pub offset : IdtEntry → ℕ
offset e = e.base_low + e.base_mid * 2 ^ 16 + e.base_high * 2 ^ 32

offset-idt_entry : (base sel flags : ℕ) → base < 2 ^ 64 → offset (idt_entry base sel flags) ≡ base
offset-idt_entry base sel flags lt = omega (arith, lt)

-- For stubs at 64-bit addresses, after load_idt the gates 32 and 33 hold these addresses, every
-- other gate is unchanged, and the limit is 4095.
pub load_idt_lem :
    (table irq0 irq1 n : ℕ) (t : Idt)
    → irq0 < 2 ^ 64
    → irq1 < 2 ^ 64
    → n ≢ 32
    → n ≢ 33
    → (offset ((load_idt table irq0 irq1 t).idt 32) ≡ irq0)
      × ((offset ((load_idt table irq0 irq1 t).idt 33) ≡ irq1)
          × (((load_idt table irq0 irq1 t).idt n ≡ t.idt n)
              × ((load_idt table irq0 irq1 t).limit ≡ 4095)))
unfolding load_idt idt_set_gate
load_idt_lem table irq0 irq1 n t lt0 lt1 a b = (
  offset-idt_entry irq0 8 0x8E lt0,
  (offset-idt_entry irq1 8 0x8E lt1, (rw (==_ne n 33 b, ==_ne n 32 a), refl)),
)
