-- ===== src/Modular/Start/Runs.antt =====
-- The start arrives at the loop with its process run to the end.
use mathlib.Core.Path.{subst}
use bumbellbee_testing.Base.{
  ℕ, ◌+◌, ◌^◌, ◌<◌, ◌≤◌, ◌≡◌, ◌≢◌, none, some, [], ◌∷◌, arith, refl, sym, ◌∙◌, get_or, replicate,
  ==_refl,
}
use bumbellbee_testing.Base.Text.{codes, c_string}
use bumbellbee_testing.Modular.Screen.{kprint, kprint_newline}
use bumbellbee_testing.Modular.Paging.{kmalloc}
use bumbellbee_testing.Modular.Irq.{
  timer_handler, keyboard_handler, timer_install, keyboard_install, irq_install_handler,
}
use bumbellbee_testing.Modular.Mm.{Mm, mm_heap_size, mm_init, align8}
use bumbellbee_testing.Modular.Mm.Heap
use bumbellbee_testing.Modular.Mm.Heap.{mm_alloc-Served}
use bumbellbee_testing.Modular.Mm.Free.{mm_init-IsValid}
use bumbellbee_testing.Modular.Proc.{Procs, turn, terminated, proc_create, proc_init, proc_schedule}
use bumbellbee_testing.Modular.Proc.Queue.{Links}
use bumbellbee_testing.Modular.Proc.Rounds.{step, stepped-next, stepped-terminated, stepped-screen}
use bumbellbee_testing.Modular.Start.First.{First, grant, sole_process}
use bumbellbee_testing.Modular.Start.{
  Kernel, Layout, loops, on_screen, show_banner, prepare, demonstrate, kmain, effect, enter,
}

-- A heap that fits below 2 ^ 32.
pub record HeapFits (base : ℕ) : Type 0 where
  pub base_pos : 0 < base
  pub base_fits : base + mm_heap_size ≤ 2 ^ 32

-- What the start leaves: both drivers are installed; the one process stands in a block
-- of a valid heap, with its stack in another one, and has ended; the screen shows the banner, the
-- text from the heap, and what the process printed.
pub record Started (l : Layout) (k k' : Kernel) : Type 0 where
  pub timer_routine : get_or k'.irq.irq_routines 0 none ≡ some timer_handler
  pub keyboard_routine : get_or k'.irq.irq_routines 1 none ≡ some keyboard_handler
  pub listed : Links k'.procs.process k'.procs.proc_list ((l.mm_heap + 8) ∷ [])
  pub ended : (k'.procs.process (l.mm_heap + 8)).state ≡ terminated
  pub heap :
      Heap.IsValid l.mm_heap k'.procs.mm
        ((l.mm_heap + 4168, 520112) ∷ [])
        ((l.mm_heap + 64, 4096) ∷ (l.mm_heap, 56) ∷ [])
  pub shown :
      k'.irq.screen
      ≡ kprint (codes "1") (
          kprint_newline (
            kprint
              (codes "Hi")
              (kprint (codes "Allocated heap memory says: ") (show_banner k.irq.screen))))

-- What a process that has ended leaves.
record Ran (l : Layout) (mm' : Mm) (s t : Procs) : Type 0 where
  links : Links t.process t.proc_list ((l.mm_heap + 8) ∷ [])
  ended : (t.process (l.mm_heap + 8)).state ≡ terminated
  heap : t.mm ≡ mm'
  shown : t.screen ≡ kprint (codes "1") s.screen

runs :
    (l : Layout) (mm' : Mm) (s t : Procs)
    → First l.pid0_print (l.mm_heap + 8) mm' s t
    → s.current_proc ≡ 0
    → Ran l mm' s (proc_schedule (enter l) t)
runs l mm' s t f idle =
    let p = l.mm_heap + 8 in
    let turned : turn t ≡ p = rw (f.current, idle) f.links.0 in
    let some_list : t.proc_list ≢ 0 = λ e. f.links.1 (sym f.links.0 ∙ e) in
    let once = step (effect l) p t turned some_list f.is_ready in
    let called : effect l (t.process p).context.eip t.screen ≡ kprint (codes "1") s.screen =
      rw (f.entered, f.shown, ==_refl l.pid0_print) refl in
    rw once (record {
      links = (f.links.0, f.links.1, stepped-next (effect l) p t ∙ f.links.2);
      ended = stepped-terminated (effect l) p t;
      heap = f.heap;
      shown = stepped-screen (effect l) p t ∙ called;
    })

-- On a fresh heap the process is created, and ends when the processor is yielded to it.
module _ (fuel : ℕ) (l : Layout) (fits : HeapFits l.mm_heap) (enough : 1 < fuel) where
  abbrev base : ℕ
  base = l.mm_heap

  created :
      (m : Mm) (s : Procs)
      → s.proc_list ≡ 0
      → s.mm ≡ mm_init base m
      → (mm' : Mm) × (t : Procs) × (proc_create fuel l.pid0_print s ≡ some (base + 8, t))
        × First l.pid0_print (base + 8) mm' s t
        × Heap.IsValid base mm' ((base + 4168, 520112) ∷ []) ((base + 64, 4096) ∷ (base, 56) ∷ [])
  created m s empty heap =
      let fresh = mm_init-IsValid base m fits.base_pos fits.base_fits in
      let (m1, block) =
        grant base 56 base 524280 fuel [] (mm_init base m) fresh (unfold align8 in refl)
          (omega arith) enough in
      let place : base + 8 + 56 ≡ base + 64 = omega arith in
      let valid : Heap.IsValid base m1 ((base + 64, 524216) ∷ []) ((base, 56) ∷ []) =
        subst (λ a. Heap.IsValid base m1 ((a, 524216) ∷ []) ((base, 56) ∷ [])) place block.valid in
      let (m2, frame) =
        grant base 4096 (base + 64) 524216 fuel ((base, 56) ∷ []) m1 valid (unfold align8 in refl)
          (omega arith) enough in
      let place' : base + 64 + 8 + 4096 ≡ base + 4168 = omega arith in
      let valid' =
        subst (λ a. Heap.IsValid base m2 ((a, 520112) ∷ []) ((base + 64, 4096) ∷ (base, 56) ∷ []))
          place' frame.valid in
      let (t, (made, first)) =
        sole_process fuel l.pid0_print (base + 8) (base + 64 + 8) m1 m2 s empty (omega arith)
          (omega arith) (rw heap block.found) frame.found in
      (m2, t, made, first, valid')

-- The statics that the start reads before it sets them.
pub record Fresh (k : Kernel) : Type 0 where
  pub no_routines : k.irq.irq_routines ≡ replicate 16 none
  pub unused : k.heap_offset ≡ 0

-- For a heap that lies below 2^32, with fuel of two or more, kmain arrives at its endless loop from
-- the statics: both drivers are installed, and the one process was created on a valid heap, printed
-- behind the texts of the start, and has ended.
pub kmain_loops :
    (fuel : ℕ) (l : Layout) (k : Kernel)
    → Fresh k
    → HeapFits l.mm_heap
    → 1 < fuel
    → (k' : Kernel) × (kmain fuel l k ≡ some (loops k')) × Started l k k'
unfolding kmain kmalloc prepare demonstrate timer_install keyboard_install irq_install_handler
    proc_init c_string
kmain_loops fuel l k fresh fits enough =
    let k0 = record (prepare l k) { heap_offset = 32 } in
    let d = demonstrate 0 k0 in
    let s = proc_init (record d.procs { screen = d.irq.screen }) in
    let (mm', t, made, first, valid) = created fuel l fits enough k.procs.mm s refl refl in
    let u = proc_schedule (enter l) t in
    let ran = runs l mm' s t first refl in
    rw fresh.unused (
      on_screen (λ screen. u.screen) (record d { procs = u }),
      rw made refl,
      record {
        timer_routine = rw fresh.no_routines refl;
        keyboard_routine = rw fresh.no_routines refl;
        listed = ran.links;
        ended = ran.ended;
        heap = rw ran.heap valid;
        shown = ran.shown;
      },
    )
