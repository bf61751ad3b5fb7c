-- ===== src/Replay/Pmm.antt =====
-- REPLAY-OS/kernel/pmm.c: the physical frame allocator, one bit for each 4 KiB frame.
-- The bitmap lies at a fixed address with no end, so it is a memory of bytes.
pub mod Bits
pub mod Alloc
pub mod Init
use bumbellbee_testing.Base.{
  ℕ, zero, suc, ◌+◌, ◌*◌, ◌/◌, ◌%◌, ◌^◌, Bool, Option, none, some, update, if◌then◌else◌,
}
use bumbellbee_testing.Base.Bytes.{test_bit, set_bit, clear_bit}

-- The three static variables: `bitmap` (the bytes from 0x100000 on), and the two sizes.
pub record Pmm : Type 0 where
  pub bitmap : ℕ → ℕ
  pub total_frames : ℕ
  pub bitmap_size : ℕ

abbrev pub page_size : ℕ
page_size = 4096

-- `bitmap[i / 8] & (1 << (i % 8))`, as a test.
unfoldable pub is_used : (ℕ → ℕ) → ℕ → Bool
is_used bitmap i = test_bit (bitmap (i / 8)) (i % 8)

-- `bitmap[i / 8] |= (1 << (i % 8))`
pub mark : (ℕ → ℕ) → ℕ → ℕ → ℕ
mark bitmap i = update bitmap (i / 8) (set_bit (bitmap (i / 8)) (i % 8))

-- `bitmap[i / 8] &= ~(1 << (i % 8))`
pub unmark : (ℕ → ℕ) → ℕ → ℕ → ℕ
unmark bitmap i = update bitmap (i / 8) (clear_bit (bitmap (i / 8)) (i % 8))

-- The two loops of `pmm_init`, by the rounds left and the index.
clear_loop : ℕ → ℕ → (ℕ → ℕ) → ℕ → ℕ
clear_loop zero i bitmap = bitmap
clear_loop (suc n) i bitmap = clear_loop n (i + 1) (update bitmap i 0)

mark_loop : ℕ → ℕ → (ℕ → ℕ) → ℕ → ℕ
mark_loop zero i bitmap = bitmap
mark_loop (suc n) i bitmap = mark_loop n (i + 1) (mark bitmap i)

-- `memory` is what stands at 0x100000 before the call.
pub pmm_init : (memory : ℕ → ℕ) → (mem_size : ℕ) → Pmm
unfolding clear_loop mark_loop
pmm_init memory mem_size = record {
  bitmap = mark_loop 512 0 (clear_loop (mem_size / page_size / 8) 0 memory);
  total_frames = mem_size / page_size;
  bitmap_size = mem_size / page_size / 8;
}

-- The search of `pmm_alloc_frame`, by the rounds left and the index.
pub find_free : (ℕ → ℕ) → ℕ → ℕ → Option ℕ
find_free bitmap zero i = none
find_free bitmap (suc n) i =
    let rest = find_free bitmap n (i + 1) in if is_used bitmap i then rest else some i

-- The body of the search's `if`, and the NULL behind the loop: the address of the frame, 0
-- standing for NULL.
pub grant : Pmm → Option ℕ → ℕ × Pmm
grant p none = (0, p)
grant p (some i) = (i * page_size % 2 ^ 64, record p { bitmap = mark p.bitmap i })

pub pmm_alloc_frame : Pmm → ℕ × Pmm
unfolding find_free grant
pmm_alloc_frame p = grant p (find_free p.bitmap p.total_frames 0)

pub pmm_free_frame : ℕ → Pmm → Pmm
pmm_free_frame frame p = record p { bitmap = unmark p.bitmap (frame / page_size) }
