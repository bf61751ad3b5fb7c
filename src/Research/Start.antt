-- ===== src/Research/Start.antt =====
-- RESEARCH-OS/src/kernel/main.c, kernel/idt.c and drivers/serial.c: the start of the kernel, up to the
-- loop that waits for interrupts.
pub mod Reach
pub mod Waits
use bumbellbee_testing.Base.{ℕ, zero, suc, Option, none, some, List, [], ◌∷◌, replicate}
use bumbellbee_testing.Base.Ports.{PortWrite}
use bumbellbee_testing.Base.Text.{codes}
use bumbellbee_testing.Research.Core.{
  Core, Call, vga_init, vga_set_color, vga_print, balanced, power_init,
}
use bumbellbee_testing.Research.Power.{Power}
use bumbellbee_testing.Research.Idt.{Idt, pic_remap, load_idt, init_serial}
use bumbellbee_testing.Research.Irq.{Machine, write, no_routines, timer_init, keyboard_init}

-- The interrupt table, and the rest.
pub record Kernel : Type 0 where
  pub idt : Idt
  pub machine : Machine

-- The statics of power.c and shell.c before the start.
abbrev pub core_statics : Core
core_statics = record {
  current_mode = balanced;
  io_buffer = replicate 256 0;
  io_buffer_count = 0;
  metric_wakeups = 0;
  metric_queued_interrupts = 0;
  metric_io_delayed = 0;
  metric_io_flushed = 0;
  metric_total_events = 0;
  cmdbuf = replicate 256 0;
  cmdlen = 0;
  out = [];
}

abbrev pub power_statics : Power
power_statics = record {
  core = core_statics;
  keyboard_queue = replicate 256 0;
  keyboard_queue_head = 0;
  keyboard_queue_tail = 0;
  ticks_since_flush = 0;
}

pub machine_statics : Machine
unfolding no_routines
machine_statics = record {
  power = power_statics;
  tick_count = 0;
  irq_routines = no_routines;
  ports = [];
}

-- A change of the power manager's core, and a call of the screen driver.
abbrev pub on_core : (Core → Core) → Machine → Machine
on_core f m = record m { power = record m.power { core = f m.power.core } }

abbrev pub show : Call → Machine → Machine
show c = on_core (λ d. record d { out = c ∷ d.out })

abbrev pub write_all : List PortWrite → Machine → Machine
write_all [] m = m
write_all (w ∷ ws) m = write_all ws (write w m)

-- With the masks that the controllers hold, and the addresses of the table and of the two stubs.
unfoldable pub idt_init : ℕ → ℕ → ℕ → ℕ → ℕ → Kernel → Kernel
unfolding pic_remap load_idt
idt_init a1 a2 table irq0 irq1 k = record {
  idt = load_idt table irq0 irq1 k.idt;
  machine =
      show (vga_print (codes "IDT and PIC initialized.\n")) (write_all (pic_remap a1 a2) k.machine);
}

abbrev banner : Machine → Machine
banner m =
    let m = show (vga_set_color 10 0) m in
    let m = show (vga_print (codes "==================================================\n")) m in
    let m = show (vga_print (codes "  YieldOS Kernel - 64-bit Long Mode Initialized   \n")) m in
    let m = show (vga_print (codes "==================================================\n\n")) m in
    let m = show (vga_set_color 15 0) m in
    let m = show (vga_print (codes "Type 'help' for commands.\n")) m in
    show (vga_print (codes "YieldOS> ")) m

-- What follows `timer_init`.
abbrev pub with_timer : Idt → Option Machine → Option Kernel
unfolding keyboard_init power_init
with_timer t none = none
with_timer t (some m) =
    some (record { idt = t; machine = banner (on_core power_init (keyboard_init m)) })

-- `kernel_main` up to its loop, which only halts; `sti` is not modelled.
unfoldable pub kernel_main : ℕ → ℕ → ℕ → ℕ → ℕ → Kernel → Option Kernel
unfolding init_serial idt_init timer_init
kernel_main a1 a2 table irq0 irq1 k =
    let m = show vga_init (write_all init_serial k.machine) in
    let k = idt_init a1 a2 table irq0 irq1 (record k { machine = m }) in
    with_timer k.idt (timer_init 100 k.machine)
