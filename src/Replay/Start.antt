-- ===== src/Replay/Start.antt =====
-- REPLAY-OS/kernel/kernel.c and timer.c: the start of the kernel, up to the shell's loop.
pub mod Records
use bumbellbee_testing.Base.{
  ℕ, zero, suc, ◌*◌, ◌/◌, ◌%◌, ◌^◌, Option, none, some, List, [], ◌∷◌, ◌==◌, if◌then◌else◌,
}
use bumbellbee_testing.Base.Ports.{PortWrite, outb}
use bumbellbee_testing.Base.Text.{codes}
use bumbellbee_testing.Base.Uart.{Uart}
use bumbellbee_testing.Replay.Trace.{Tracer, vga_print, trace_init}
use bumbellbee_testing.Replay.Pmm.{pmm_init}
use bumbellbee_testing.Replay.Idt.{Idt, idt_init}
use bumbellbee_testing.Replay.Task.{Scheduler, scheduler_init}
use bumbellbee_testing.Replay.Vga.{Vga, vga_init}
use bumbellbee_testing.Replay.Console.{Shell}
use bumbellbee_testing.Replay.Serial.{init_serial, serial_print}
use bumbellbee_testing.Replay.Dispatch.{Machine, write, on_tracer, syscall_init}

-- The statics of all files, and the serial line. The trace stands in `machine`.
pub record Kernel : Type 0 where
  pub machine : Machine
  pub idt : Idt
  pub scheduler : Scheduler
  pub screen : Vga
  pub shell : Shell
  pub line : Uart

-- The addresses of the table and of the stubs, and what stands from 0x100000 on.
pub record Layout : Type 0 where
  pub idt : ℕ
  pub isrs : List ℕ
  pub irqs : List ℕ
  pub isr_stub_128 : ℕ
  pub memory : ℕ → ℕ

abbrev pub write_all : List PortWrite → Machine → Machine
write_all [] m = m
write_all (w ∷ ws) m = write_all ws (write w m)

-- The writes in their order; `none` is the fault of a division by zero.
unfoldable pub timer_init : ℕ → Option (List PortWrite)
timer_init frequency =
    let divisor = 1193180 / frequency in
    if frequency == 0
    then none
    else some (outb 0x43 0x36 ∷ outb 0x40 (divisor % 256) ∷ outb 0x40 (divisor / 256 % 256) ∷ [])

-- `serial_print`, which waits for the line; `none` where it waits for ever.
abbrev pub with_line : Kernel → Option Uart → Option Kernel
with_line k none = none
with_line k (some u) = some (record k { line = u })

abbrev pub say : List ℕ → Kernel → Option Kernel
say text k = with_line k (serial_print text k.line)

-- The two texts in front of the loop of `shell_run`.
abbrev pub greet : Shell → Shell
greet s = record s {
  out = vga_print (codes "> ") ∷ vga_print (codes "REPLAY-OS Research Console\n") ∷ s.out;
}

abbrev pub booting : List ℕ
booting = codes "REPLAY-OS 64-bit Booting...\n"

abbrev pub initialized : List ℕ
initialized = codes "Kernel Initialized. Starting Shell...\n"

-- `shell_run` up to its loop.
abbrev pub enter_shell : Option Kernel → Option Kernel
enter_shell none = none
enter_shell (some k) = some (record k { shell = greet k.shell })

-- What follows `timer_init`; `keyboard_init` is empty.
abbrev pub with_timer : Option (List PortWrite) → Kernel → Option Kernel
with_timer none k = none
with_timer (some ws) k =
    enter_shell (say initialized (record k { machine = write_all ws k.machine }))

-- What stands between the two texts, up to `timer_init`.
abbrev pub prepare : Layout → Kernel → Kernel
prepare l k =
    let k = record k { idt = syscall_init l.isr_stub_128 (idt_init l.idt l.isrs l.irqs k.idt) } in
    let scheduler = record k.scheduler { pmm = pmm_init l.memory (128 * 1024 * 1024) } in
    record k { scheduler = scheduler_init scheduler; machine = on_tracer trace_init k.machine }

abbrev pub init_all : Layout → Option Kernel → Option Kernel
init_all l none = none
init_all l (some k) = with_timer (timer_init 100) (prepare l k)

-- Up to the loop of `shell_run`.
unfoldable pub kernel_main : Layout → Kernel → Option Kernel
kernel_main l k = init_all l (
    say booting
      (record k { machine = write_all init_serial k.machine; screen = vga_init k.screen }))
