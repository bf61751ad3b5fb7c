-- ===== src/Modular/Mm.antt =====
-- modular-kernel/src/mm.c: the free-list allocator over a 512 KiB heap.
pub mod Blocks
pub mod Loop
pub mod Heap
pub mod Free
use bumbellbee_testing.Base.{
  ℕ, zero, suc, ◌+◌, ◌-◌, ◌*◌, ◌/◌, ◌%◌, ◌^◌, Option, none, some, leb, ◌==◌, if◌then◌else◌, update,
}

-- `block_header_t`, eight bytes on the 32-bit target.
pub record BlockHeader : Type 0 where
  pub size : ℕ
  pub next : ℕ

abbrev pub header_size : ℕ
header_size = 8

abbrev pub mm_heap_size : ℕ
mm_heap_size = 512 * 1024

-- The headers by their addresses, and the list's head; address 0 is the null pointer. Blocks start
-- at multiples of eight bytes from the heap's start, so that two headers never overlap.
pub record Mm : Type 0 where
  pub header : ℕ → BlockHeader
  pub free_list : ℕ

-- `p->size = s` and `p->next = q`
abbrev pub set_size : Mm → ℕ → ℕ → Mm
set_size m p s = record m { header = update m.header p (record (m.header p) { size = s }) }

abbrev pub set_next : Mm → ℕ → ℕ → Mm
set_next m p q = record m { header = update m.header p (record (m.header p) { next = q }) }

-- `mm_heap` is where the linker puts the heap.
pub mm_init : (mm_heap : ℕ) → Mm → Mm
mm_init mm_heap m =
    let m = record m { free_list = mm_heap } in
    let m = set_size m m.free_list (mm_heap_size - header_size) in set_next m m.free_list 0

-- `(size + 7) & ~7` on 32 bits: the mask clears the low three bits.
unfoldable pub align8 : ℕ → ℕ
align8 size = (size + 7) % 2 ^ 32 / 8 * 8

-- `if (prev) prev->next = q; else free_list = q;`
pub relink : ℕ → ℕ → Mm → Mm
relink prev q m = if prev == 0 then record m { free_list = q } else set_next m prev q

-- The writes that cut `curr` down to `size` and give the rest a header of its own.
pub carve : ℕ → ℕ → Mm → Mm
carve size curr m =
    let new_block = curr + header_size + size in
    let m = set_size m new_block (((m.header curr).size + 2 ^ 33 - size - header_size) % 2 ^ 32) in
    let m = set_next m new_block (m.header curr).next in set_size m curr size

-- The block `curr` is large enough: the remainder, if it is worth a block of its own, takes its
-- place in the list, and otherwise its successor does. Sums and differences of sizes wrap.
pub take_block : ℕ → ℕ → ℕ → Mm → ℕ × Mm
take_block size prev curr m =
    if leb ((size + header_size + 8) % 2 ^ 32) (m.header curr).size
    then (curr + header_size, relink prev (curr + header_size + size) (carve size curr m))
    else (curr + header_size, relink prev (m.header curr).next m)

-- The loop, by fuel: `none` if the fuel runs out, which a cyclic list brings about.
pub alloc_loop : ℕ → ℕ → ℕ → ℕ → Mm → Option (ℕ × Mm)
alloc_loop zero size prev curr m = none
alloc_loop (suc fuel) size prev curr m =
    let rest = alloc_loop fuel size curr (m.header curr).next m in
    if curr == 0
    then some (0, m)
    else if leb size (m.header curr).size
    then some (take_block size prev curr m)
    else rest

-- The address behind the header, or NULL.
pub mm_alloc : (fuel : ℕ) → ℕ → Mm → Option (ℕ × Mm)
unfolding alloc_loop align8
mm_alloc fuel size m = alloc_loop fuel (align8 size) 0 m.free_list m

pub mm_free : ℕ → Mm → Mm
mm_free ptr m =
    if ptr == 0
    then m
    else record (set_next m (ptr - header_size) m.free_list) { free_list = ptr - header_size }

-- The two stubs.
unfoldable pub map_page : ℕ → ℕ → ℕ → ℕ
map_page virt_addr phys_addr flags = 0

unfoldable pub unmap_page : ℕ → ℕ
unmap_page virt_addr = 0
