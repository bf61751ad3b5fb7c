-- ===== src/Tutorial/Extended.antt =====
-- Kernel201-extended_by-me/kernel.c: the same kernel with a page fault handler, paging and a heap.
-- The functions on the screen, the tables and the heap are those that modular-kernel took over.
pub mod Start
use bumbellbee_testing.Base.{
  ℕ, zero, suc, ◌+◌, ◌*◌, ◌%◌, ◌^◌, ◌&&◌, not, Option, none, some, List, [], ◌∷◌, ◌==◌,
  if◌then◌else◌, update,
}
use bumbellbee_testing.Base.Text.{codes}
use bumbellbee_testing.Modular.Screen
use bumbellbee_testing.Modular.Screen.{Screen}
use bumbellbee_testing.Modular.Keyboard
use bumbellbee_testing.Modular.Keyboard.{Console}
use bumbellbee_testing.Modular.Paging
use bumbellbee_testing.Modular.Paging.{Paging, Heap, Outcome, granted, halted}
use bumbellbee_testing.Tutorial.Basic
use bumbellbee_testing.Tutorial.Basic.{IdtEntry, Kernel, gate, on_screen, remap_pic, describe}

-- The state of the smaller kernel, the two tables of the pages, and the offset in the heap.
pub record Machine : Type 0 where
  pub kernel : Kernel
  pub paging : Paging
  pub heap_offset : ℕ

abbrev pub on_kernel : (Kernel → Kernel) → Machine → Machine
on_kernel f m = record m { kernel = f m.kernel }

abbrev pub empty_entry : IdtEntry
empty_entry = record {
  offset_lowerbits = 0;
  selector = 0;
  zero_byte = 0;
  type_attr = 0;
  offset_higherbits = 0;
}

-- The loop that clears the other entries, by the rounds left and the index.
pub clear_others : ℕ → ℕ → (ℕ → IdtEntry) → ℕ → IdtEntry
clear_others zero i idt = idt
clear_others (suc n) i idt =
    clear_others n (i + 1)
      (if not (i == 0x21) && not (i == 0x0E) then update idt i empty_entry else idt)

-- With the addresses of the table and of the two stubs.
unfoldable pub idt_init : ℕ → ℕ → ℕ → Machine → Machine
idt_init table keyboard_handler page_fault_handler m =
    let k = m.kernel in
    let idt = update k.idt 0x21 (gate keyboard_handler) in
    let idt = clear_others 256 0 (update idt 0x0E (gate page_fault_handler)) in
    record m { kernel = record (remap_pic (record k { idt = idt })) { idt_ptr = describe table } }

abbrev pub kb_init : Machine → Machine
kb_init m = on_kernel Basic.kb_init m

abbrev pub kprint : List ℕ → Machine → Machine
kprint str m = on_kernel (on_screen (Screen.kprint str)) m

abbrev pub kprint_newline : Machine → Machine
kprint_newline m = on_kernel (on_screen Screen.kprint_newline) m

abbrev pub clear_screen : Machine → Machine
clear_screen m = on_kernel (on_screen Screen.clear_screen) m

abbrev pub kprint_hex : ℕ → Machine → Machine
kprint_hex n m = on_kernel (on_screen (Screen.kprint_hex n)) m

abbrev pub keyboard_handler_main : ℕ → ℕ → Machine → Machine
keyboard_handler_main status keycode m = on_kernel (Basic.keyboard_handler_main status keycode) m

-- The table of keyboard_map.h.
abbrev pub keyboard_map : List ℕ
keyboard_map = Keyboard.keyboard_map

-- With the address that CR2 holds; the machine halts behind it.
abbrev pub page_fault_handler_main : ℕ → ℕ → Machine → Machine
page_fault_handler_main faulting_address error_code m =
    on_kernel (on_screen (Keyboard.page_fault_handler_main faulting_address error_code)) m

-- With the addresses of the directory and of the table.
abbrev pub init_paging : ℕ → ℕ → Machine → Machine
init_paging directory table m = record m { paging = Paging.init_paging directory table m.paging }

-- The heap and the screen of an outcome, put back; the pointer is `none` where the machine halts.
abbrev pub put_back : Heap → Machine → Machine
put_back h m = on_kernel (on_screen (λ s. h.screen)) (record m { heap_offset = h.heap_offset })

abbrev pub settle : Machine → Outcome → Option ℕ × Machine
settle m (granted ptr h) = (some ptr, put_back h m)
settle m (halted h) = (none, put_back h m)

abbrev pub kmalloc : ℕ → Machine → Option ℕ × Machine
kmalloc size m =
    settle m (
      Paging.kmalloc size
        (record { heap_offset = m.heap_offset; screen = m.kernel.console.screen }))

-- The addresses that the linker gives: of the table of gates, the two stubs, and the page tables.
pub record Layout : Type 0 where
  pub idt : ℕ
  pub keyboard_handler : ℕ
  pub page_fault_handler : ℕ
  pub page_directory : ℕ
  pub first_page_table : ℕ

-- Behind the request for 32 bytes, which hold "Hi" where they are granted.
abbrev pub demonstrate : Option ℕ × Machine → Machine
demonstrate (none, m) = m
demonstrate (some ptr, m) =
    kprint_newline (kprint (codes "Hi") (kprint (codes "Allocated heap memory says: ") m))

-- Up to the endless loop.
unfoldable pub kmain : Layout → Machine → Machine
kmain l m =
    let banner =
      codes "My first kernel with keyboard, paging, page fault handling and basic heap support" in
    let m = kprint_newline (kprint_newline (kprint banner (clear_screen m))) in
    let m = init_paging l.page_directory l.first_page_table m in
    let m = idt_init l.idt l.keyboard_handler l.page_fault_handler m in
    demonstrate (kmalloc 32 (kb_init m))
