-- ===== src/Modular/Tests.antt =====
-- Runs of the modular-kernel model on concrete states.
use bumbellbee_testing.Base.{
  ◌+◌, ◌-◌, ◌*◌, ◌<◌, ◌≤◌, ◌≡◌, ◌⊎◌, inl, ℕ, some, List, [], ◌∷◌, arith, refl, All, ◌==◌,
  if◌then◌else◌,
}
use bumbellbee_testing.Modular.Mm.{Mm, mm_alloc, mm_free}
use bumbellbee_testing.Modular.Mm.Blocks.{Block}
use bumbellbee_testing.Modular.Mm.Loop.{Finds}
use bumbellbee_testing.Modular.Mm.Heap.{IsValid, alloc_lem}
use bumbellbee_testing.Modular.Mm.Free.{free-IsValid}
use bumbellbee_testing.Base.Text.{codes}
use bumbellbee_testing.Modular.Screen.{Screen, kprint}
use bumbellbee_testing.Modular.Proc.{Process, ready, Procs, new_context}
use bumbellbee_testing.Modular.Paging.{Paging, init_paging}
use bumbellbee_testing.Modular.Paging.Walk.{translate, frames, translate-init_paging}
use bumbellbee_testing.Modular.Irq
use bumbellbee_testing.Modular.Irq.{
  irq_handler, timer_install, keyboard_install, irq_install_handler,
}
use bumbellbee_testing.Base.{replicate, none}
use bumbellbee_testing.Modular.Irq.Wait.{timer_wait, Ended, install-Installed, timer_wait_lem}
use bumbellbee_testing.Modular.Start.{Kernel, Layout, loops, kmain}
use bumbellbee_testing.Modular.Start.Runs.{Started, kmain_loops}
use bumbellbee_testing.Modular.Irq.Serve.{Served, install, all_requests_end}
use bumbellbee_testing.Modular.Proc.Rounds.{printing, rounds, Done, every_process_ends}

-- A heap at 0x100000 whose first block, of 16 bytes, is in use.
abbrev heap : Mm
heap = record {
  header = λ p.
      if p == 0x100000
      then record { size = 16; next = 0 }
      else record { size = 512 * 1024 - 32; next = 0 };
  free_list = 0x100018;
}

abbrev rest : List Block
rest = (0x100018, 512 * 1024 - 32) ∷ []

heap-IsValid : IsValid 0x100000 heap rest ((0x100000, 16) ∷ [])
heap-IsValid = record {
  chain = (refl, omega arith, refl, refl);
  sizes = (refl, tt);
  inside_free = ((omega arith, omega arith, omega arith, omega arith), tt);
  inside_live = ((omega arith, omega arith, omega arith, omega arith), tt);
  apart_free = (tt, tt);
  apart_live = (tt, tt);
  apart = ((inl (omega arith), tt), tt);
  tiled = refl;
  base_pos = omega arith;
  base_fits = omega arith;
}

alloc_lem_example :
    Finds
      (λ (ptr, m').
        ((b : Block) × (after : List Block) × (ptr ≡ b.0 + 8)
          × (100 ≤ b.1)
          × (b.1 < 123)
          × IsValid 0x100000 m' after (b ∷ (0x100000, 16) ∷ []))
        ⊎ ((ptr ≡ 0) × (m' ≡ heap) × All (λ b. b.1 < 104) rest))
      (mm_alloc 2 100 heap)
alloc_lem_example =
    alloc_lem 0x100000 heap rest ((0x100000, 16) ∷ []) 2 100 heap-IsValid (omega arith)
      (omega arith)

free-IsValid_example : IsValid 0x100000 (mm_free 0x100008 heap) ((0x100000, 16) ∷ rest) []
free-IsValid_example = free-IsValid 0x100000 heap rest [] (0x100000, 16) [] heap-IsValid

-- A process at each of two addresses, in a list that starts with the higher one.
abbrev process_at : ℕ → ℕ → Process
process_at entry next = record {
  pid = 1;
  state = ready;
  context = new_context entry 0x9000;
  page_directory = 0;
  next = next;
}

abbrev two : Procs
two = record {
  process = λ p. if p == 0x2000 then process_at 0x100 0x1000 else process_at 0x200 0;
  proc_list = 0x2000;
  current_proc = 0;
  next_pid = 3;
  mm = heap;
  screen = record { vidptr = λ i. 0; current_loc = 0 };
}

-- Every function prints a one, as `pid0_print` does.
abbrev one : ℕ → Screen → Screen
one entry s = kprint (codes "1") s

every_process_ends_example : Done one (0x2000 ∷ 0x1000 ∷ []) two (rounds (printing one) 2 two)
every_process_ends_example =
    every_process_ends one (0x2000 ∷ 0x1000 ∷ []) two (refl, omega arith, (refl, omega arith, refl))
      ((omega arith, tt), (tt, tt)) (refl, (refl, tt)) refl

-- Page tables with what memory held before.
abbrev paging : Paging
paging = record { page_directory = λ i. i; first_page_table = λ i. i; cr3 = 0 }

translate-init_paging_example :
    let q = init_paging 0x102000 0x103000 paging in
    translate (frames 0x102000 0x103000 q (λ a i. 0)) q.cr3 0x3FFFFF ≡ some 0x3FFFFF
translate-init_paging_example =
    translate-init_paging 0x102000 0x103000 paging (λ a i. 0) 0x3FFFFF refl refl (omega arith)
      (omega arith)

-- A machine without routines.
abbrev idle : Irq.Machine
idle = record {
  irq_routines = [];
  timer_ticks = 0;
  screen = record { vidptr = λ i. 0; current_loc = 0 };
  ports = [];
}

all_requests_end_example : Served 33 0x1E (install idle) (irq_handler 33 0x1E (install idle))
all_requests_end_example = all_requests_end 33 0x1E idle (omega arith) (omega arith) (omega arith)

-- No process yet.
abbrev unused : Procs
unused = record two { proc_list = 0 }

abbrev layout : Layout
layout = record {
  idt = 0x104000;
  idt_zero = 0;
  isrs = [];
  irqs = [];
  page_directory = 0x102000;
  first_page_table = 0x103000;
  mm_heap = 0x110000;
  pid0_print = 0x300;
}

abbrev statics : Kernel
statics = record {
  irq = record idle { irq_routines = replicate 16 none };
  idt = record {
    idt = λ i. record {
      offset_lowerbits = 0;
      selector = 0;
      zero_byte = 0;
      type_attr = 0;
      offset_highbits = 0;
    };
    limit = 0;
    base = 0;
    ports = [];
  };
  paging = paging;
  kernel_heap = λ i. 0;
  heap_offset = 0;
  procs = two;
}

kmain_loops_example :
    (k' : Kernel) × (kmain 2 layout statics ≡ some (loops k')) × Started layout statics k'
kmain_loops_example =
    kmain_loops 2 layout statics (record { no_routines = refl; unused = refl })
      (record { base_pos = omega arith; base_fits = omega arith }) (omega arith)

-- Between the first two tests the timer ticks and a key is pressed, then it ticks twice.
abbrev arriving : List (List (ℕ × ℕ))
arriving = ((32, 0) ∷ (33, 0x1E) ∷ []) ∷ ((32, 0) ∷ (32, 0) ∷ []) ∷ []

timer_wait_lem_example :
    (m' : Irq.Machine) × (n : ℕ) × ((timer_wait 2 arriving (install idle) ≡ some m')
      × Ended 2 arriving (install idle) m' n)
unfolding timer_install keyboard_install irq_install_handler
timer_wait_lem_example =
    timer_wait_lem 2 arriving (install idle) (install-Installed idle)
      (
        ((omega arith, omega arith, omega arith), ((omega arith, omega arith, omega arith), tt)),
        (
          ((omega arith, omega arith, omega arith), ((omega arith, omega arith, omega arith), tt)),
          tt,
        ),
      )
      (omega arith) (omega arith)
