-- ===== src/Replay/Idt.antt =====
-- REPLAY-OS/kernel/idt.c: the gates for the 32 exceptions and the 16 requests.
pub mod Gates
use bumbellbee_testing.Base.{ℕ, ◌+◌, ◌-◌, ◌*◌, ◌/◌, ◌%◌, ◌^◌, List, [], ◌∷◌, ◌++◌, update}
use bumbellbee_testing.Base.Ports.{PortWrite, outb}

-- `idt_entry_t`
pub record IdtEntry : Type 0 where
  pub isr_low : ℕ
  pub kernel_cs : ℕ
  pub ist : ℕ
  pub attributes : ℕ
  pub isr_mid : ℕ
  pub isr_high : ℕ
  pub reserved : ℕ

-- `idt` and the fields of `idtr`; `ports` logs the writes in their order.
pub record Idt : Type 0 where
  pub idt : ℕ → IdtEntry
  pub base : ℕ
  pub limit : ℕ
  pub ports : List PortWrite

abbrev pub descriptor : ℕ → ℕ → IdtEntry
descriptor isr flags = record {
  isr_low = isr % 2 ^ 16;
  kernel_cs = 0x18;
  ist = 0;
  attributes = flags;
  isr_mid = isr / 2 ^ 16 % 2 ^ 16;
  isr_high = isr / 2 ^ 32 % 2 ^ 32;
  reserved = 0;
}

pub idt_set_descriptor : ℕ → ℕ → ℕ → Idt → Idt
idt_set_descriptor vector isr flags t = record t {
  idt = update t.idt vector (descriptor isr flags);
}

-- The run of calls for successive vectors, given the addresses of the stubs.
pub set_descriptors : ℕ → List ℕ → Idt → Idt
unfolding idt_set_descriptor
set_descriptors vector [] t = t
set_descriptors vector (isr ∷ isrs) t =
    set_descriptors (vector + 1) isrs (idt_set_descriptor vector isr 0x8E t)

-- "Remap PIC", in the order of the writes.
abbrev pub remap_pic : List PortWrite
remap_pic =
    outb 0x20 0x11
    ∷ outb 0xA0 0x11
    ∷ outb 0x21 0x20
    ∷ outb 0xA1 0x28
    ∷ outb 0x21 4
    ∷ outb 0xA1 2
    ∷ outb 0x21 1
    ∷ outb 0xA1 1
    ∷ outb 0x21 0
    ∷ outb 0xA1 0
    ∷ []

-- With the table's address and those of the 32 and the 16 stubs.
unfoldable pub idt_init : ℕ → List ℕ → List ℕ → Idt → Idt
idt_init table isrs irqs t =
    let t = record t { base = table; limit = 16 * 256 - 1 } in
    let t = set_descriptors 32 irqs (set_descriptors 0 isrs t) in
    record t { ports = t.ports ++ remap_pic }
