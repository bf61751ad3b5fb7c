-- ===== src/Replay/Dispatch.antt =====
-- REPLAY-OS/kernel/idt.c and syscall.c: the handlers of requests, exceptions and system calls.
pub mod Effects
pub mod Requests
pub mod Idle
use bumbellbee_testing.Base.{
  ℕ, ◌+◌, ◌%◌, ◌^◌, Option, none, some, List, [], ◌∷◌, leb, ◌==◌, if◌then◌else◌,
}
use bumbellbee_testing.Base.Ports.{PortWrite, outb}
use bumbellbee_testing.Base.Text.{codes}
use bumbellbee_testing.Replay.Trace.{
  Call, vga_print, serial_print, Tracer, event_syscall, trace_record, timer_callback,
}
use bumbellbee_testing.Replay.Console.{Keyboard, keyboard_callback}
use bumbellbee_testing.Replay.Idt.{Idt, idt_set_descriptor}

-- The keyboard with the trace, and the writes to the ports, the last one first.
pub record Machine : Type 0 where
  pub keyboard : Keyboard
  pub ports : List PortWrite

abbrev pub on_tracer : (Tracer → Tracer) → Machine → Machine
on_tracer f m = record m { keyboard = record m.keyboard { tracer = f m.keyboard.tracer } }

abbrev pub write : PortWrite → Machine → Machine
write w m = record m { ports = w ∷ m.ports }

-- The callback of a vector, with the byte that port 0x60 gives.
abbrev pub callback : ℕ → ℕ → Machine → Machine
callback int_no scancode m =
    if int_no == 32
    then on_tracer timer_callback m
    else if int_no == 33
    then record m { keyboard = keyboard_callback scancode m.keyboard }
    else m

-- The end of interrupt, to the slave where it raised the request, and to the master.
unfoldable pub end_of_interrupt : ℕ → Machine → Machine
end_of_interrupt int_no m =
    write (outb 0x20 0x20) (if leb 40 int_no then write (outb 0xA0 0x20) m else m)

unfoldable pub irq_handler : ℕ → ℕ → Machine → Machine
irq_handler int_no scancode m = end_of_interrupt int_no (callback int_no scancode m)

-- What the handler prints before the machine halts, in the order of the calls.
unfoldable pub isr_handler : ℕ → List Call
isr_handler int_no =
    serial_print (codes "Exception occurred! Vector: ")
    ∷ vga_print (codes "CPU Exception: ")
    ∷ (if int_no == 14
        then serial_print (codes "Page Fault at: ") ∷ vga_print (codes "Page Fault\n") ∷ []
        else vga_print (codes "Error\n") ∷ [])

-- With `rax`, and the text at the address in `rdi`.
unfoldable pub syscall_handler : ℕ → List ℕ → Tracer → Tracer
syscall_handler syscall_num str t =
    let t = trace_record event_syscall syscall_num t in
    if syscall_num == 1 then record t { out = serial_print str ∷ vga_print str ∷ t.out } else t

-- With the address of the stub.
unfoldable pub syscall_init : ℕ → Idt → Idt
syscall_init isr_stub_128 t = idt_set_descriptor 128 isr_stub_128 0x8E t
