-- ===== src/Replay/Pmm/Init.antt =====
-- The state that `pmm_init` sets up.
use bumbellbee_testing.Base.{
  ℕ, zero, suc, ◌+◌, ◌/◌, ◌%◌, ◌^◌, ◌<◌, ◌≡◌, ◌||◌, ◌&&◌, false, arith, ltb, leb, update, ◌∙◌,
  if◌then◌else◌,
}
use bumbellbee_testing.Base.Bytes.{test_bit-zero}
use bumbellbee_testing.Replay.Pmm.{page_size, is_used, mark, clear_loop, mark_loop, pmm_init}
use bumbellbee_testing.Replay.Pmm.Bits.{Bytes, mark-Bytes, is_used-mark}
use bumbellbee_testing.Replay.Pmm.Alloc.{IsValid, used}

clear_loop-Bytes : (n i : ℕ) (m : ℕ → ℕ) → Bytes m → Bytes (clear_loop n i m)
unfolding clear_loop
clear_loop-Bytes zero i m h = h
clear_loop-Bytes (suc n) i m h =
    clear_loop-Bytes n (i + 1) (update m i 0) (λ a. ground (arith, h a))

clear_loop_at :
    (n i : ℕ) (m : ℕ → ℕ) (a : ℕ)
    → clear_loop n i m a ≡ (if leb i a && ltb a (i + n) then 0 else m a)
unfolding clear_loop
clear_loop_at zero i m a = ground arith
clear_loop_at (suc n) i m a = ground (arith, clear_loop_at n (i + 1) (update m i 0) a)

mark_loop-Bytes : (n i : ℕ) (m : ℕ → ℕ) → Bytes m → Bytes (mark_loop n i m)
unfolding mark_loop
mark_loop-Bytes zero i m h = h
mark_loop-Bytes (suc n) i m h = mark_loop-Bytes n (i + 1) (mark m i) (mark-Bytes m i h)

is_used-mark_loop :
    (n i : ℕ) (m : ℕ → ℕ) (j : ℕ)
    → Bytes m
    → is_used (mark_loop n i m) j ≡ ((leb i j && ltb j (i + n)) || is_used m j)
unfolding mark_loop
is_used-mark_loop zero i m j h = ground arith
is_used-mark_loop (suc n) i m j h =
    ground
      (arith, is_used-mark_loop n (i + 1) (mark m i) j (mark-Bytes m i h), is_used-mark m i j h)

is_used-clear_loop : (n : ℕ) (m : ℕ → ℕ) (j : ℕ) → j / 8 < n → is_used (clear_loop n 0 m) j ≡ false
unfolding is_used
is_used-clear_loop n m j h =
    let cleared : clear_loop n 0 m (j / 8) ≡ 0 = ground (arith, clear_loop_at n 0 m (j / 8)) in
    rw cleared (test_bit-zero (j % 8) (omega arith))

-- If memory holds bytes, then after pmm_init exactly the frames below 512 are used, among those
-- whose byte lies in the cleared part of the bitmap.
pub used-init :
    (memory : ℕ → ℕ) (mem_size j : ℕ)
    → Bytes memory
    → j / 8 < mem_size / page_size / 8
    → used (pmm_init memory mem_size) j ≡ ltb j 512
unfolding pmm_init
used-init memory mem_size j h hj =
    is_used-mark_loop 512 0 (clear_loop n 0 memory) j (clear_loop-Bytes n 0 memory h)
    ∙ ground (arith, is_used-clear_loop n memory j hj)
  where
    n : ℕ
    n = mem_size / page_size / 8

-- If memory holds bytes and the memory size is a 64-bit number, pmm_init sets up a valid
-- allocator.
pub pmm_init-IsValid :
    (memory : ℕ → ℕ) (mem_size : ℕ)
    → Bytes memory
    → mem_size < 2 ^ 64
    → IsValid (pmm_init memory mem_size)
unfolding pmm_init
pmm_init-IsValid memory mem_size h small = record {
  bytes = mark_loop-Bytes 512 0 _ cleared;
  small = omega arith;
  reserved = is_used-mark_loop 512 0 _ 0 cleared;
}
  where
    cleared : Bytes (clear_loop (mem_size / page_size / 8) 0 memory)
    cleared = clear_loop-Bytes (mem_size / page_size / 8) 0 memory h
