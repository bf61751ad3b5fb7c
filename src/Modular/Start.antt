-- ===== src/Modular/Start.antt =====
-- modular-kernel/src/kernel.c: the start of the kernel, up to its endless loop.
pub mod First
pub mod Runs
use bumbellbee_testing.Base.{
  ℕ, zero, suc, ◌+◌, Option, none, some, List, [], ◌∷◌, ◌==◌, if◌then◌else◌, update,
}
use bumbellbee_testing.Base.Text.{codes, c_string}
use bumbellbee_testing.Modular.Screen.{Screen, kprint, kprint_newline, clear_screen}
use bumbellbee_testing.Modular.Paging.{Paging, Heap, Outcome, granted, halted, init_paging, kmalloc}
use bumbellbee_testing.Modular.Idt.{Idt, idt_init, isr_install, irq_install}
use bumbellbee_testing.Modular.Irq.{Machine, timer_install, keyboard_install}
use bumbellbee_testing.Modular.Mm.{mm_init}
use bumbellbee_testing.Modular.Proc.{Procs, proc_init, proc_create, proc_yield}

-- The statics of all files, and the bytes of `kernel_heap`. The screen stands in `irq`; `procs` is
-- given it for the time of a call.
pub record Kernel : Type 0 where
  pub irq : Machine
  pub idt : Idt
  pub paging : Paging
  pub kernel_heap : ℕ → ℕ
  pub heap_offset : ℕ
  pub procs : Procs

-- The addresses that the linker gives.
pub record Layout : Type 0 where
  pub idt : ℕ
  pub idt_zero : ℕ
  pub isrs : List ℕ
  pub irqs : List ℕ
  pub page_directory : ℕ
  pub first_page_table : ℕ
  pub mm_heap : ℕ
  pub pid0_print : ℕ

-- The endless loop at the end, or the halt of `kmalloc`.
pub data End : Type 0 where
  loops : Kernel → End
  halts : Kernel → End

abbrev pub on_screen : (Screen → Screen) → Kernel → Kernel
on_screen f k = record k { irq = record k.irq { screen = f k.irq.screen } }

abbrev pub pid0_print : Screen → Screen
pid0_print s = kprint (codes "1") s

-- What the call of the function at an address shows; the processes have no function but one.
abbrev pub effect : Layout → ℕ → Screen → Screen
effect l entry s = if entry == l.pid0_print then pid0_print s else s

abbrev pub enter : Layout → ℕ → Procs → Procs
enter l entry s = record s { screen = effect l entry s.screen }

abbrev pub banner : List ℕ
banner =
    codes
      "Bumbellbee with Kernel Features: Basic Paging, IDT/PIC Remapping, Keyboard Input, Bump & Dynamic Heap, Exception Handling, Dynamic Memory Management, and Process Management with Scheduling, ISR, IRQ ,PIC, PIT-timer"

abbrev pub show_banner : Screen → Screen
show_banner s = kprint_newline (kprint_newline (kprint banner (clear_screen s)))

-- Up to `mm_init`; `sti` is not modelled.
pub prepare : Layout → Kernel → Kernel
prepare l k =
    let k = on_screen show_banner k in
    let k = record k { paging = init_paging l.page_directory l.first_page_table k.paging } in
    let k = record k {
      idt = irq_install l.irqs (isr_install l.isrs (idt_init l.idt l.idt_zero k.idt));
    } in
    let k = record k { irq = keyboard_install (timer_install k.irq) } in
    record k { procs = record k.procs { mm = mm_init l.mm_heap k.procs.mm } }

abbrev pub put_back : Heap → Kernel → Kernel
put_back h k = record (on_screen (λ s. h.screen) k) { heap_offset = h.heap_offset }

-- The three bytes that are stored, and the text that is read from them.
pub demonstrate : ℕ → Kernel → Kernel
demonstrate demo k =
    let bytes = update (update (update k.kernel_heap demo b'H') (demo + 1) b'i') (demo + 2) 0 in
    let text = c_string (bytes demo ∷ bytes (demo + 1) ∷ bytes (demo + 2) ∷ []) in
    on_screen (λ s. kprint_newline (kprint text (kprint (codes "Allocated heap memory says: ") s)))
      (record k { kernel_heap = bytes })

abbrev pub with_process : Layout → Kernel → Option (ℕ × Procs) → Option End
with_process l k none = none
with_process l k (some (p0, s)) =
    let s = proc_yield (enter l) s in
    some (loops (on_screen (λ screen. s.screen) (record k { procs = s })))

abbrev pub processes : ℕ → Layout → Kernel → Option End
processes fuel l k =
    let s = proc_init (record k.procs { screen = k.irq.screen }) in
    with_process l k (proc_create fuel l.pid0_print s)

abbrev pub with_demo : ℕ → Layout → Kernel → Outcome → Option End
with_demo fuel l k (halted h) = some (halts (put_back h k))
with_demo fuel l k (granted demo h) = processes fuel l (demonstrate demo (put_back h k))

-- With the fuel of `proc_create`.
unfoldable pub kmain : ℕ → Layout → Kernel → Option End
kmain fuel l k =
    let k = prepare l k in
    with_demo fuel l k (kmalloc 32 (record { heap_offset = k.heap_offset; screen = k.irq.screen }))
