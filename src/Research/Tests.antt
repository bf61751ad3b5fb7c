-- ===== src/Research/Tests.antt =====
-- Runs of the RESEARCH-OS model on concrete states.
use bumbellbee_testing.Base.Text.{Byte}
use bumbellbee_testing.Base.{
  ℕ, ◌≡◌, none, some, inl, List, [], ◌∷◌, ◌++◌, arith, refl, replicate, All-replicate,
}
use bumbellbee_testing.Research.Core.{balanced, Core}
use bumbellbee_testing.Research.Core.Io.{IoValid}
use bumbellbee_testing.Research.Shell.{shell_handle_key}
use bumbellbee_testing.Research.Shell.Line.{LineValid, Refined, shell_refines}
use bumbellbee_testing.Research.Power.{Power}
use bumbellbee_testing.Research.Power.Queue.{QueueValid}
use bumbellbee_testing.Research.Power.Delivery.{key, handle, PowerValid, Delivered}
use bumbellbee_testing.Research.Power.Keys.{handle_in_order}
use bumbellbee_testing.Research.Irq.{Machine, timer_callback, keyboard_callback, irq_handler}
use bumbellbee_testing.Research.Irq.Serve.{
  Installed, Served, keyboard_request, raised, irq_handler_lem,
}
use bumbellbee_testing.Research.Idt.{Idt, idt_entry}
use bumbellbee_testing.Research.Terminal.Serves.{Prints, interrupts_print}
use bumbellbee_testing.Research.Vga.{Vga}
use bumbellbee_testing.Base.{◌≤◌, ◌<◌}
use bumbellbee_testing.Base.Text.{codes, c_string}
use bumbellbee_testing.Base.Uart.{Uart, Sent}
use bumbellbee_testing.Research.Power.Delivery.{tick}
use bumbellbee_testing.Research.Power.Run.{accepted_all, InOrder}
use bumbellbee_testing.Research.Irq.Serve.{Request, timer_request}
use bumbellbee_testing.Research.Idt.{load_idt}
use bumbellbee_testing.Research.Idt.Gates.{load_idt_lem}
use bumbellbee_testing.Research.Start.{Kernel, power_statics}
use bumbellbee_testing.Research.Start.Reach.{
  here, Started, power_statics-PowerValid, Reach, Progress, typed_in_order, raised_all,
  interrupts_end,
}
use bumbellbee_testing.Research.Start.Waits.{keys_arrive}
use bumbellbee_testing.Research.Serial.{print_serial, print_serial_lem}

-- "hi" stands on the line, and two bytes wait to be written.
abbrev core : Core
core = record {
  current_mode = balanced;
  io_buffer = replicate 256 0;
  io_buffer_count = 2;
  metric_wakeups = 3;
  metric_queued_interrupts = 4;
  metric_io_delayed = 9;
  metric_io_flushed = 7;
  metric_total_events = 12;
  cmdbuf = b'h' ∷ b'i' ∷ replicate 254 0;
  cmdlen = 2;
  out = [];
}

core-LineValid : LineValid core
core-LineValid = record {
  room = refl;
  short = omega arith;
  bytes = (omega arith, (omega arith, All-replicate Byte 254 0 (omega arith)));
  letters = ((omega arith, omega arith), ((omega arith, omega arith), tt));
}

core-IoValid : IoValid core
core-IoValid = record { room = refl; few = omega arith; accounted = refl }

-- The keys "ab" wait across the end of the ring.
abbrev power : Power
power = record {
  core = core;
  keyboard_queue = b'b' ∷ replicate 254 0 ++ (b'a' ∷ []);
  keyboard_queue_head = 1;
  keyboard_queue_tail = 255;
  ticks_since_flush = 9;
}

power-QueueValid : QueueValid power
power-QueueValid = record { room = refl; head_in = omega arith; tail_in = omega arith }

power-PowerValid : PowerValid power
power-PowerValid = record {
  queue = power-QueueValid;
  core = record { line = core-LineValid; io = core-IoValid };
  letters = ((omega arith, omega arith), ((omega arith, omega arith), tt));
  order = inl refl;
}

abbrev machine : Machine
machine = record {
  power = power;
  tick_count = 5;
  irq_routines = some timer_callback ∷ some keyboard_callback ∷ replicate 14 none;
  ports = [];
}

machine-Installed : Installed machine
machine-Installed = record {
  timer_routine = refl;
  keyboard_routine = refl;
  power_valid = power-PowerValid;
}

handle_in_order_example :
    (delivered : List ℕ) × Delivered (key b'c') power (handle (key b'c') power) delivered
handle_in_order_example =
    handle_in_order (key b'c') power power-PowerValid (omega arith, omega arith)

shell_refines_example : Refined b'\n' core (shell_handle_key b'\n' core)
shell_refines_example =
    shell_refines b'\n' core (omega arith, omega arith) core-LineValid core-IoValid

-- Scan code 0x1e is the key of the letter a.
irq_handler_lem_example :
    (n : Machine) × ((irq_handler 33 0x1e machine ≡ some n)
      × Served (raised keyboard_request 0x1e) machine n)
irq_handler_lem_example =
    irq_handler_lem keyboard_request 0x1e machine (omega arith) machine-Installed

abbrev gates : Idt
gates = record { idt = λ n. idt_entry 0 0 0; limit = 0; base = 0 }

-- The cursor stands in the last cell.
abbrev screen : Vga
screen = record {
  vga_buffer = λ i. 0;
  cursor_x = 79;
  cursor_y = 24;
  current_color = 7;
  serial = [];
}

-- The machine as the start leaves it, up to the counters and the screen.
abbrev started : Kernel
started = record {
  idt = load_idt 0x1000 0x2000 0x3000 gates;
  machine = record machine { power = power_statics };
}

started-Started : Started 0x2000 0x3000 started
started-Started =
    let g =
      load_idt_lem 0x1000 0x2000 0x3000 0 gates (omega arith) (omega arith) (omega arith)
        (omega arith) in
    record {
      timer_gate = g.0;
      keyboard_gate = g.1.0;
      installed = record {
        timer_routine = refl;
        keyboard_routine = refl;
        power_valid = power_statics-PowerValid;
      };
      line = refl;
      none_waits = refl;
      no_ticks = refl;
    }

-- The key a goes down and up, and the timer ticks.
abbrev a_and_tick : List (Request × ℕ)
a_and_tick = (keyboard_request, 0x1e) ∷ (keyboard_request, 0x9e) ∷ (timer_request, 0) ∷ []

abbrev served : (n : Machine) × Reach (raised_all a_and_tick) started.machine n
served =
    interrupts_end a_and_tick started.machine started-Started.installed
      (omega arith, (omega arith, (omega arith, tt)))

typed_in_order_example :
    (delivered : List ℕ) × Progress (key b'a' ∷ tick ∷ []) started.machine served.0 delivered
typed_in_order_example = typed_in_order 0x2000 0x3000 started started-Started served.1

-- A line that is busy every other time.
abbrev slow : Uart
slow = record { status = 0x60 ∷ 0 ∷ 0x20 ∷ 0 ∷ 0x60 ∷ []; sent = [] }

print_serial_lem_example :
    (2 ≤ 3 → (v : Uart) × ((print_serial (codes "hi") slow ≡ some v) × Sent (codes "hi") slow v))
    × (3 < 2 → print_serial (codes "hi") slow ≡ none)
unfolding c_string
print_serial_lem_example = print_serial_lem (codes "hi") slow

-- A key, and then as many ticks as the balanced mode allows.
abbrev key_and_ticks : List (Request × ℕ)
key_and_ticks = (keyboard_request, 0x1e) ∷ replicate 10 (timer_request, 0)

abbrev flushed : (o : Machine) × Reach (raised_all key_and_ticks) started.machine o
flushed = interrupts_end key_and_ticks started.machine started-Started.installed (
  omega arith,
  All-replicate (λ (i : Request × ℕ). i.1 < 256) 10 (timer_request, 0) (omega arith),
)

keys_arrive_example :
    (more : List ℕ) × InOrder
      (accepted_all (key b'a' ∷ replicate 10 tick) power_statics)
      power_statics
      flushed.0.power
      more
keys_arrive_example = keys_arrive 0x2000 0x3000 started started-Started here flushed.1 (omega arith)

interrupts_print_example :
    (text : List ℕ) × (n : Machine) × (w : Vga) × Prints a_and_tick text started.machine n screen w
interrupts_print_example =
    interrupts_print a_and_tick started.machine screen started-Started.installed
      (omega arith, (omega arith, (omega arith, tt)))
