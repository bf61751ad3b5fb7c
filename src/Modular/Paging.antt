-- ===== src/Modular/Paging.antt =====
-- modular-kernel/src/paging.c and heap.c: the identity map, and the bump allocator.
pub mod Walk
pub mod Grants
use bumbellbee_testing.Base.{
  ℕ, zero, suc, ◌+◌, ◌*◌, ◌^◌, ◌%◌, bit_or, Option, none, some, leb, if◌then◌else◌, update,
}
use bumbellbee_testing.Base.Text.{codes}
use bumbellbee_testing.Modular.Screen.{Screen, kprint}

-- The two tables, and the address that is loaded into CR3.
pub record Paging : Type 0 where
  pub page_directory : ℕ → ℕ
  pub first_page_table : ℕ → ℕ
  pub cr3 : ℕ

-- The loop over the page table, by the rounds left and the index.
pub map_loop : ℕ → ℕ → (ℕ → ℕ) → ℕ → ℕ
map_loop zero i table = table
map_loop (suc n) i table = map_loop n (i + 1) (update table i (bit_or (i * 0x1000) 0x03))

-- The loop over the rest of the directory.
pub unmap_loop : ℕ → ℕ → (ℕ → ℕ) → ℕ → ℕ
unmap_loop zero i directory = directory
unmap_loop (suc n) i directory = unmap_loop n (i + 1) (update directory i 0)

-- With the addresses of the directory and of the table. The write that turns paging on is the
-- processor's.
pub init_paging : ℕ → ℕ → Paging → Paging
init_paging directory table p = record {
  first_page_table = map_loop 1024 0 p.first_page_table;
  page_directory = unmap_loop 1023 1 (update p.page_directory 0 (bit_or table 0x03));
  cr3 = directory;
}

-- `KERNEL_HEAP_SIZE`
abbrev pub kernel_heap_size : ℕ
kernel_heap_size = 1024 * 1024

-- The offset behind the blocks handed out, and the screen of the message.
pub record Heap : Type 0 where
  pub heap_offset : ℕ
  pub screen : Screen

-- What a request comes to: the offset of the block in `kernel_heap`, or the machine halts.
pub data Outcome : Type 0 where
  granted : ℕ → Heap → Outcome
  halted : Heap → Outcome

unfoldable pub kmalloc : ℕ → Heap → Outcome
kmalloc size h =
    let offset = (h.heap_offset + size) % 2 ^ 32 in
    let h' = record h { heap_offset = offset } in
    if leb kernel_heap_size offset
    then halted (record h' { screen = kprint (codes "Out of kernel heap memory!") h.screen })
    else granted h.heap_offset h'
