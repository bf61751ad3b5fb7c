-- ===== src/Replay/Tests.antt =====
-- Runs of the REPLAY-OS model on concrete states.
use bumbellbee_testing.Base.{
  ℕ, ◌%◌, ◌<◌, ◌≡◌, ==_refl, ==_ne, update, ◌⊎◌, true, false, some, inl, [], ◌∷◌, ◌++◌, arith, refl,
  replicate, ◌==◌, if◌then◌else◌,
}
use bumbellbee_testing.Replay.Pmm.{Pmm, is_used, pmm_alloc_frame}
use bumbellbee_testing.Replay.Pmm.Alloc
use bumbellbee_testing.Replay.Pmm.Alloc.{used, Allocated, alloc_frame_lem}
use bumbellbee_testing.Replay.Trace.{Tracer, TraceEvent, zero_event, replay_start}
use bumbellbee_testing.Replay.Trace.Log
use bumbellbee_testing.Replay.Trace.Play.{drain, finished, replay_in_order}
use bumbellbee_testing.Replay.Task.{
  Task, task_running, task_ready, Scheduler, scheduler_schedule, task_create,
}
use bumbellbee_testing.Replay.Task.Ring.{Links, Round, schedule_lem, task_create-Links}
use bumbellbee_testing.Base.Text.{codes}
use bumbellbee_testing.Replay.Vga.{Vga}
use bumbellbee_testing.Replay.Console.{Shell}
use bumbellbee_testing.Replay.Disk.{Drive, read_sector, Traces, trace_save, trace_load}
use bumbellbee_testing.Replay.Dispatch.{Machine}
use bumbellbee_testing.Replay.Idt.{Idt, descriptor}
use bumbellbee_testing.Base.{ℕ, List, ◌+◌, ◌≤◌}
use bumbellbee_testing.Replay.Dispatch.Effects
use bumbellbee_testing.Replay.Start.{Kernel, Layout}
use bumbellbee_testing.Base.{none, length, ltb, ◌^◌}
use bumbellbee_testing.Replay.Disk.{ide_write_sector, ide_read_sector}
use bumbellbee_testing.Replay.Disk.Wire.{addressed, Keeps, read-write_wire}
use bumbellbee_testing.Replay.Session.{Event, request, turn, Session, type_char, run}
use bumbellbee_testing.Replay.Session.Lost.{shell_hears}
use bumbellbee_testing.Replay.Workload.{pattern, workload_io}
use bumbellbee_testing.Replay.Workload.Survives.{workload_io_lem}

-- Sixteen frames, of which the first nine are used.
abbrev pmm : Pmm
pmm = record {
  bitmap = λ i. if i == 0 then 255 else if i == 1 then 1 else 0;
  total_frames = 16;
  bitmap_size = 2;
}

pmm-IsValid : Alloc.IsValid pmm
unfolding is_used
pmm-IsValid = record { bytes = λ a. ground arith; small = omega arith; reserved = refl }

alloc_frame_lem_example :
    Allocated pmm 3 (pmm_alloc_frame pmm) ⊎ ((pmm_alloc_frame pmm ≡ (0, pmm)) × (used pmm 3 ≡ true))
alloc_frame_lem_example = alloc_frame_lem pmm 3 pmm-IsValid (omega arith)

abbrev key_at : ℕ → ℕ → TraceEvent
key_at tick k = record { type = 1; pid = 0; tick = tick; payload = k }

-- Two keys are recorded.
abbrev tracer : Tracer
tracer = record {
  trace_buffer = key_at 4 30 ∷ key_at 6 48 ∷ replicate 998 zero_event;
  trace_head = 2;
  trace_count = 2;
  recording = true;
  ticks = 7;
  replaying = false;
  replay_ptr = 0;
  out = [];
}

tracer-IsValid : Log.IsValid tracer
tracer-IsValid = record {
  room = refl;
  head_in = omega arith;
  count_in = omega arith;
  filling = inl refl;
}

replay_in_order_example :
    drain 3 (replay_start tracer)
    ≡ some ((1, 4, 30) ∷ (1, 6, 48) ∷ [], finished (replay_start tracer) 2)
replay_in_order_example = replay_in_order tracer tracer-IsValid (omega arith)

abbrev empty_table : Idt
empty_table = record { idt = λ n. descriptor 0 0; base = 0; limit = 0; ports = [] }

-- Two tasks, the first one running.
abbrev tasks : ℕ → Task
tasks a =
    if a == 0x110000
    then record { pid = 1; state = task_running; stack_ptr = 0; next = 0x110030 }
    else record { pid = 2; state = task_ready; stack_ptr = 0x5000; next = 0x110000 }

abbrev scheduler : Scheduler
scheduler = record {
  current_task = 0x110000;
  task_list = 0x110000;
  next_pid = 3;
  tasks = tasks;
  memory = λ a. 0;
  pmm = pmm;
  tracer = tracer;
}

scheduler-Round : Round scheduler 0x110000 (0x110030 ∷ [])
scheduler-Round = record {
  current = refl;
  real = omega arith;
  others_real = (omega arith, tt);
  links = (refl, refl);
  runs = refl;
  others_run = (refl, tt);
}

schedule_lem_example :
    (n : Scheduler) × (scheduler_schedule 1 0x9000 scheduler
      ≡ some ((n.tasks 0x110030).stack_ptr, n))
    × Round n 0x110030 (0x110000 ∷ [])
    × ((n.tasks 0x110000).stack_ptr ≡ 0x9000)
schedule_lem_example =
    schedule_lem 0 0x9000 0x110000 scheduler 0x110000 (0x110030 ∷ []) scheduler-Round

task_create-Links_example :
    Links (task_create 0 0x8000 scheduler).tasks 0x110000 (0x110048 ∷ 0x110030 ∷ []) 0x110000
task_create-Links_example =
    task_create-Links 0 0x8000 scheduler (0x110030 ∷ []) (omega arith)
      ((omega arith, omega arith), tt) (refl, refl)

-- The cursor stands in the last cell.
abbrev screen : Vga
screen = record { terminal_buffer = λ i. 0; row = 24; col = 79 }

-- "trace save" is typed.
abbrev typed_save : Shell
typed_save = record {
  input_buffer = codes "trace save" ++ replicate 246 0;
  buffer_index = 10;
  out = [];
}

-- A drive as the bytes of its sectors.
abbrev shelf : Drive (ℕ → List ℕ)
shelf = record {
  accept = λ w words d. update d (addressed w) words;
  deliver = λ r d. d (addressed r);
}

shelf-Keeps : Keeps shelf
shelf-Keeps = record {
  same = λ w r words d write read e all small. rw e (rw (==_refl (addressed w)) refl);
  others = λ w r words d write read ne all. rw (==_ne (addressed r) (addressed w) ne) refl;
}

abbrev blank : ℕ → List ℕ
blank lba = replicate 256 0

-- Ten events, and an empty memory to load them into.
abbrev ten : Traces
ten = record { trace_bytes = λ j. j % 251; trace_count = 10; out = [] }

abbrev cleared : Traces
cleared = record { trace_bytes = λ j. 0; trace_count = 0; out = [] }

abbrev machine : Machine
machine = record { keyboard = record { last_char = 0; tracer = tracer }; ports = [] }

-- Memory full of ones, and addresses for the stubs.
abbrev layout : Layout
layout = record {
  idt = 0x104000;
  isrs = replicate 32 0x100000;
  irqs = replicate 16 0x108000;
  isr_stub_128 = 0x10C000;
  memory = λ i. 255;
}

abbrev statics : Kernel
statics = record {
  machine = record machine {
    keyboard = record {
      last_char = 0;
      tracer = record tracer { trace_buffer = replicate 1000 zero_event; ticks = 0 };
    };
  };
  idt = empty_table;
  scheduler = scheduler;
  screen = screen;
  shell = typed_save;
  line = record { status = replicate 80 0x60; sent = [] };
}

-- The timer ticks between two keys.
abbrev requests : List (ℕ × ℕ)
requests = (33, 30) ∷ (32, 0) ∷ (33, 48) ∷ []

workload_io_lem_example :
    let saved = (trace_save shelf ten blank).1 in
    let after = (workload_io shelf [] saved).1 in
    let v = trace_load shelf after cleared in
    ((k j : ℕ) → k < 10 → j < 512 → read_sector shelf (5000 + k) after j ≡ j % 256)
    × ((lba j : ℕ)
        → (lba < 5000) ⊎ (5010 ≤ lba)
        → lba < 2 ^ 28
        → read_sector shelf lba after j ≡ read_sector shelf lba saved j)
    × (v.trace_count ≡ 10)
    × ((j : ℕ) → j < 240 → v.trace_bytes j ≡ j % 251)
workload_io_lem_example =
    workload_io_lem shelf blank ten cleared [] shelf-Keeps (omega arith) (λ j. omega arith)

-- The keys h, i and l, with a full round of the shell behind the first two. The third one is
-- overwritten by an o, which comes between a load and the reset.
abbrev typing : List Event
typing =
    request 33 0x23
    ∷ turn
    ∷ turn
    ∷ request 33 0x17
    ∷ turn
    ∷ request 32 0
    ∷ turn
    ∷ request 33 0x26
    ∷ request 33 0x18
    ∷ turn
    ∷ request 33 0x25
    ∷ turn
    ∷ []

abbrev session : Session
session = record {
  machine = machine;
  held = none;
  console = record { shell = record typed_save { buffer_index = 0 }; called = [] };
}

shell_hears_example :
    (run typing session).console ≡ type_char b'o' (type_char b'i' (type_char b'h' session.console))
shell_hears_example = shell_hears typing session refl refl refl

read-write_wire_example :
    let (set_up, words) = ide_write_sector 5003 pattern in
    let (set_up', back) = ide_read_sector 5003 words (λ j. 255) in
    (addressed set_up ≡ 5003)
    × (addressed set_up' ≡ 5003)
    × (length words ≡ 256)
    × ((j : ℕ) → back j ≡ (if ltb j 512 then pattern j else 255))
read-write_wire_example =
    read-write_wire 5003 pattern (λ j. 255) (omega arith) (λ k lt. omega arith)
