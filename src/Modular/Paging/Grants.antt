-- ===== src/Modular/Paging/Grants.antt =====
-- What the bump heap hands out.
use bumbellbee_testing.Base.{
  ℕ, ◌+◌, ◌^◌, ◌%◌, ◌<◌, ◌≤◌, ◌≡◌, arith, refl, leb, Bool-cases, inl, inr,
}
use bumbellbee_testing.Modular.Paging.{Heap, kernel_heap_size, Outcome, granted, halted, kmalloc}

-- An outcome on a heap: the block lies between the old offset and the new one, inside the heap, or
-- what is left does not hold the request and one byte more.
abbrev pub Fits : ℕ → Heap → Outcome → Type 0
Fits size h (granted ptr h') =
    (ptr ≡ h.heap_offset)
    × (h'.heap_offset ≡ ptr + size)
    × (h'.heap_offset < kernel_heap_size)
    × (h'.screen ≡ h.screen)
Fits size h (halted h') = kernel_heap_size ≤ h.heap_offset + size

-- For a request whose end is below 2^32, kmalloc grants the bytes from the offset on, moves the
-- offset behind them, still inside the heap, and prints nothing, or it halts, and then the request
-- reaches the end of the heap.
kmalloc-Fits : (size : ℕ) (h : Heap) → h.heap_offset + size < 2 ^ 32 → Fits size h (kmalloc size h)
unfolding kmalloc
kmalloc-Fits size h small =
    let e : (h.heap_offset + size) % 2 ^ 32 ≡ h.heap_offset + size = omega (arith, small) in
    elim (Bool-cases (leb kernel_heap_size (h.heap_offset + size))) [
      | inl full ↦ rw (e, full) (ground (arith, full))
      | inr room ↦ rw (e, room) (refl, refl, ground (arith, room), refl)
    ]
