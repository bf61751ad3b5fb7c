-- ===== src/Mdk/Idt.antt =====
-- MDK/kernel/arch/x86_64/idt.c: the gates of the timer and the keyboard.
pub mod Gates
use bumbellbee_testing.Base.{
  ℕ, zero, suc, ◌+◌, ◌-◌, ◌*◌, ◌/◌, ◌%◌, ◌^◌, Option, none, some, List, [], ◌∷◌, ◌++◌, update,
}
use bumbellbee_testing.Base.Ports.{PortWrite, outb}
use bumbellbee_testing.Mdk.Shell.{Node, keyboard_handler}

-- `struct idt_entry`
pub record IdtEntry : Type 0 where
  pub offset_low : ℕ
  pub selector : ℕ
  pub zero_byte : ℕ
  pub type_attr : ℕ
  pub offset_high : ℕ

-- `idt`, and the fields of `idtp`; `ports` logs the writes in their order.
pub record Idt : Type 0 where
  pub idt : ℕ → IdtEntry
  pub limit : ℕ
  pub base : ℕ
  pub ports : List PortWrite

unfoldable pub idt_set_gate : ℕ → ℕ → ℕ → ℕ → Idt → Idt
idt_set_gate num base sel flags t = record t {
  idt = update t.idt num (record {
    offset_low = base % 2 ^ 16;
    offset_high = base / 2 ^ 16 % 2 ^ 16;
    selector = sel;
    zero_byte = 0;
    type_attr = flags;
  });
}

-- A write, and the one to port 0x80 that waits.
abbrev pub out_wait : ℕ → ℕ → List PortWrite
out_wait port data_byte = outb port data_byte ∷ outb 0x80 0 ∷ []

abbrev pub pic_remap : List PortWrite
pic_remap =
    out_wait 0x20 0x11
    ++ (out_wait 0xA0 0x11
        ++ (out_wait 0x21 0x20
            ++ (out_wait 0xA1 0x28
                ++ (out_wait 0x21 0x04
                    ++ (out_wait 0xA1 0x02
                        ++ (out_wait 0x21 0x01
                            ++ (out_wait 0xA1 0x01 ++ (outb 0x21 0 ∷ outb 0xA1 0 ∷ []))))))))

-- The loop over all entries, by the rounds left and the index.
pub clear_gates : ℕ → ℕ → Idt → Idt
clear_gates zero i t = t
clear_gates (suc n) i t = clear_gates n (i + 1) (idt_set_gate i 0 0 0 t)

-- With the addresses of the table and of the two stubs.
unfoldable pub idt_init : ℕ → ℕ → ℕ → Idt → Idt
idt_init table irq0 irq1 t =
    let t = clear_gates 256 0 (record t { limit = 8 * 256 - 1; base = table }) in
    let t = record t { ports = t.ports ++ pic_remap } in
    idt_set_gate 33 irq1 0x08 0x8E (idt_set_gate 32 irq0 0x08 0x8E t)

unfoldable pub irq0_handler : List PortWrite
irq0_handler = outb 0x20 0x20 ∷ []

-- The write that ends the interrupt comes behind the handler, and not at all where it faults.
abbrev pub ended : Option Node → Option (Node × List PortWrite)
ended none = none
ended (some n) = some (n, outb 0x20 0x20 ∷ [])

-- With the byte that port 0x60 gives.
unfoldable pub irq1_handler : ℕ → Node → Option (Node × List PortWrite)
irq1_handler scancode n = ended (keyboard_handler scancode n)
