-- ===== src/Research/Idt.antt =====
-- RESEARCH-OS/src/kernel/idt.c and drivers/serial.c: the gates, the interrupt controllers and the
-- serial line.
pub mod Gates
use bumbellbee_testing.Base.{
  ℕ, ◌+◌, ◌-◌, ◌*◌, ◌/◌, ◌%◌, ◌^◌, Option, none, some, List, [], ◌∷◌, ◌==◌, update,
}
use bumbellbee_testing.Base.Ports.{PortWrite, outb}

-- `struct idt_entry`, its offset in three parts.
pub record IdtEntry : Type 0 where
  pub base_low : ℕ
  pub cs : ℕ
  pub ist : ℕ
  pub attributes : ℕ
  pub base_mid : ℕ
  pub base_high : ℕ
  pub zero : ℕ

-- `idt`, and the two fields of `idtp`. The table has an entry for each value of a byte.
pub record Idt : Type 0 where
  pub idt : ℕ → IdtEntry
  pub limit : ℕ
  pub base : ℕ

-- The entry for a handler at `base`.
abbrev pub idt_entry : ℕ → ℕ → ℕ → IdtEntry
idt_entry base sel flags = record {
  base_low = base % 2 ^ 16;
  cs = sel;
  ist = 0;
  attributes = flags;
  base_mid = base / 2 ^ 16 % 2 ^ 16;
  base_high = base / 2 ^ 32 % 2 ^ 32;
  zero = 0;
}

pub idt_set_gate : ℕ → ℕ → ℕ → ℕ → Idt → Idt
idt_set_gate num base sel flags t = record t { idt = update t.idt num (idt_entry base sel flags) }

-- The writes of `pic_remap` in their order, with the masks that it reads first. `io_wait` only
-- delays.
unfoldable pub pic_remap : ℕ → ℕ → List PortWrite
pic_remap a1 a2 =
    outb 0x20 0x11
    ∷ outb 0xA0 0x11
    ∷ outb 0x21 0x20
    ∷ outb 0xA1 0x28
    ∷ outb 0x21 4
    ∷ outb 0xA1 2
    ∷ outb 0x21 1
    ∷ outb 0xA1 1
    ∷ outb 0x21 a1
    ∷ outb 0xA1 a2
    ∷ []

-- With the addresses of the table and of the two stubs; `lidt` is not modelled.
unfoldable pub load_idt : ℕ → ℕ → ℕ → Idt → Idt
unfolding idt_set_gate
load_idt table irq0 irq1 t =
    let t = record t { limit = 16 * 256 - 1; base = table } in
    idt_set_gate 33 irq1 0x08 0x8E (idt_set_gate 32 irq0 0x08 0x8E t)

unfoldable pub init_serial : List PortWrite
init_serial =
    outb 0x3f9 0
    ∷ outb 0x3fb 0x80
    ∷ outb 0x3f8 3
    ∷ outb 0x3f9 0
    ∷ outb 0x3fb 3
    ∷ outb 0x3fa 0xC7
    ∷ outb 0x3fc 0x0B
    ∷ []
