-- ===== src/Mdk/Kmalloc.antt =====
-- MDK/kernel/memory/kmalloc.c: a bump allocator between two 32-bit addresses.
pub mod Bump
use bumbellbee_testing.Base.{ℕ, ◌+◌, ◌*◌, ◌/◌, ◌%◌, ◌^◌, List, [], ◌∷◌, ltb, if◌then◌else◌}
use bumbellbee_testing.Base.Text.{codes}
use bumbellbee_testing.Mdk.Console.{Call, int, serial_print, serial_printf}

-- The two statics; `out` logs the output calls, the last one first.
pub record Kmalloc : Type 0 where
  pub next_free : ℕ
  pub heap_end : ℕ
  pub out : List Call

pub kmalloc_init : ℕ → ℕ → Kmalloc → Kmalloc
kmalloc_init heap_start heap_size k =
    let heap_end = (heap_start + heap_size) % 2 ^ 32 in
    record {
      next_free = heap_start;
      heap_end = heap_end;
      out =
          serial_printf (codes "[MEM] Heap: %x to %x\n") (int heap_start ∷ int heap_end ∷ [])
          ∷ k.out;
    }

-- `(size + 3) & ~3` on 32 bits: the mask clears the low two bits.
pub align4 : ℕ → ℕ
align4 size = (size + 3) % 2 ^ 32 / 4 * 4

pub kmalloc : ℕ → Kmalloc → ℕ × Kmalloc
unfolding align4
kmalloc size k =
    let size = align4 size in
    let end = (k.next_free + size) % 2 ^ 32 in
    if ltb k.heap_end end
    then (0, record k { out = serial_print (codes "[MEM] OUT OF MEMORY!\n") ∷ k.out })
    else (k.next_free, record k { next_free = end })

unfoldable pub kfree : ℕ → Kmalloc → Kmalloc
kfree ptr k = k
