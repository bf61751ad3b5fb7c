-- ===== src/Modular/Idt.antt =====
-- modular-kernel/src/idt.c, isr.c and irq.c: the gates, and the set-up of the controllers.
pub mod Gates
use bumbellbee_testing.Base.{
  ℕ, zero, suc, ◌+◌, ◌-◌, ◌*◌, ◌/◌, ◌%◌, ◌^◌, List, [], ◌∷◌, ◌++◌, get_or, replicate, ltb,
  if◌then◌else◌, update,
}
use bumbellbee_testing.Base.Text.{codes}
use bumbellbee_testing.Base.Ports.{PortWrite, outb}
use bumbellbee_testing.Modular.Screen.{Screen, kprint}

-- `struct idt_entry_t`
pub record IdtEntry : Type 0 where
  pub offset_lowerbits : ℕ
  pub selector : ℕ
  pub zero_byte : ℕ
  pub type_attr : ℕ
  pub offset_highbits : ℕ

-- `idt`, and the fields of `idtr`; `ports` logs the writes in their order.
pub record Idt : Type 0 where
  pub idt : ℕ → IdtEntry
  pub limit : ℕ
  pub base : ℕ
  pub ports : List PortWrite

abbrev pub gate : ℕ → ℕ → IdtEntry
gate isr flags = record {
  offset_lowerbits = isr % 2 ^ 16;
  zero_byte = 0;
  selector = 0x08;
  type_attr = flags;
  offset_highbits = isr / 2 ^ 16 % 2 ^ 16;
}

unfoldable pub idt_set_descriptor : ℕ → ℕ → ℕ → Idt → Idt
idt_set_descriptor vector isr flags t = record t { idt = update t.idt vector (gate isr flags) }

-- What `memset` leaves of an entry.
abbrev pub cleared : IdtEntry
cleared = record {
  offset_lowerbits = 0;
  zero_byte = 0;
  selector = 0;
  type_attr = 0;
  offset_highbits = 0;
}

unfoldable pub clear_loop : ℕ → ℕ → (ℕ → IdtEntry) → ℕ → IdtEntry
clear_loop zero i idt = idt
clear_loop (suc n) i idt = clear_loop n (i + 1) (update idt i cleared)

-- With the addresses of the table and of `idt_zero`.
unfoldable pub idt_init : ℕ → ℕ → Idt → Idt
idt_init table idt_zero t =
    idt_set_descriptor 0 idt_zero 0xEE
      (record t { limit = 256 * 8 % 2 ^ 16 - 1; base = table; idt = clear_loop 256 0 t.idt })

-- A run of calls for successive vectors, with the addresses of the stubs.
pub install_stubs : ℕ → List ℕ → Idt → Idt
install_stubs vector [] t = t
install_stubs vector (stub ∷ stubs) t =
    install_stubs (vector + 1) stubs (idt_set_descriptor vector stub 0x8E t)

-- With the addresses of `isr0` to `isr15`.
pub isr_install : List ℕ → Idt → Idt
isr_install isrs t = install_stubs 0 isrs t

abbrev pub irq_remap : List PortWrite
irq_remap =
    outb 0x20 0x11
    ∷ outb 0xA0 0x11
    ∷ outb 0x21 0x20
    ∷ outb 0xA1 0x28
    ∷ outb 0x21 0x04
    ∷ outb 0xA1 0x02
    ∷ outb 0x21 0x01
    ∷ outb 0xA1 0x01
    ∷ outb 0x21 0
    ∷ outb 0xA1 0
    ∷ []

-- With the addresses of `irq0` to `irq15`.
pub irq_install : List ℕ → Idt → Idt
irq_install irqs t = install_stubs 32 irqs (record t { ports = t.ports ++ irq_remap })

abbrev pub exception_messages : List (List ℕ)
exception_messages =
    codes "Division By Zero"
    ∷ codes "Debug Exception"
    ∷ codes "Non-Maskable Interrupt"
    ∷ codes "Breakpoint"
    ∷ codes "Into Detected Overflow"
    ∷ codes "Out of Bounds"
    ∷ codes "Invalid Opcode"
    ∷ codes "No Coprocessor"
    ∷ codes "Double Fault"
    ∷ codes "Coprocessor Segment Overrun"
    ∷ codes "Bad TSS"
    ∷ codes "Segment Not Present"
    ∷ codes "Stack Fault"
    ∷ codes "General Protection Fault"
    ∷ codes "Page Fault"
    ∷ codes "Unknown Interrupt"
    ∷ codes "Coprocessor Fault"
    ∷ codes "Alignment Check"
    ∷ codes "Machine Check"
    ∷ reserved
  where
    reserved : List (List ℕ)
    reserved = replicate 13 (codes "Reserved")

-- Whether the handler returns, or the machine halts with these last words.
pub data Fault : Type 0 where
  resumes : Screen → Fault
  halts : Screen → Fault

unfoldable pub fault_handler : ℕ → Screen → Fault
fault_handler int_no s =
    if ltb int_no 32
    then halts (
        kprint (codes "\n\nException. System halted.")
          (kprint (get_or exception_messages int_no []) s))
    else resumes s
