-- ===== src/Mdk/Kmalloc/Bump.antt =====
-- What `kmalloc` promises while the addresses do not wrap, and what happens when they do.
use bumbellbee_testing.Base.{
  ℕ, ◌+◌, ◌*◌, ◌/◌, ◌%◌, ◌^◌, ◌≤◌, ◌<◌, ◌≡◌, ◌⊎◌, inl, inr, arith, refl, ltb, Bool-cases,
}
use bumbellbee_testing.Mdk.Kmalloc.{Kmalloc, kmalloc_init, kmalloc, align4}

-- The heap lies in the 32-bit space, and what is left of it is a multiple of four from its start.
pub record IsValid (k : Kmalloc) : Type 0 where
  pub bounded : k.next_free ≤ k.heap_end
  pub fits : k.heap_end < 2 ^ 32
  pub aligned : k.next_free % 4 ≡ 0

-- In a valid state, for a request that ends below 2^32, kmalloc keeps the invariant and either
-- grants the start of the free part and moves it just beyond the request, or returns NULL and
-- keeps it, and then the rounded request does not fit.
pub kmalloc_lem :
    (size : ℕ) (k : Kmalloc)
    → IsValid k
    → k.next_free + size + 3 < 2 ^ 32
    → let (ptr, k') = kmalloc size k in
      IsValid k'
      × (k'.heap_end ≡ k.heap_end)
      × (((ptr ≡ k.next_free) × (ptr + size ≤ k'.next_free) × (k'.next_free < ptr + size + 4))
          ⊎ ((ptr ≡ 0)
              × (k'.next_free ≡ k.next_free)
              × (k.heap_end < k.next_free + (size + 3) / 4 * 4)))
unfolding kmalloc
kmalloc_lem size k v small =
    elim (Bool-cases (ltb k.heap_end ((k.next_free + align4 size) % 2 ^ 32))) [
      | inl over ↦ rw over (
        record { bounded = v.bounded; fits = v.fits; aligned = v.aligned },
        refl,
        inr (refl, refl, ground arith),
      )
      | inr room ↦ rw room (
        record { bounded = ground arith; fits = v.fits; aligned = omega (arith, v.aligned) },
        refl,
        inl (refl, omega arith, omega arith),
      )
    ]

-- In a valid state, a request below 2^32 - 3 that ends at 2^32 or beyond is granted, and the
-- start of the free part moves back.
kmalloc_wraps :
    (size : ℕ) (k : Kmalloc)
    → IsValid k
    → 2 ^ 32 ≤ k.next_free + size
    → size + 3 < 2 ^ 32
    → let (ptr, k') = kmalloc size k in (ptr ≡ k.next_free) × (k'.next_free < k.next_free)
unfolding kmalloc
kmalloc_wraps size k v lo hi = ground (arith, v.bounded, v.fits)

-- For a heap whose start is a multiple of four and whose end is below 2^32, kmalloc_init sets up
-- a valid state.
kmalloc_init-IsValid :
    (heap_start heap_size : ℕ) (k : Kmalloc)
    → heap_start % 4 ≡ 0
    → heap_start + heap_size < 2 ^ 32
    → IsValid (kmalloc_init heap_start heap_size k)
unfolding kmalloc_init
kmalloc_init-IsValid heap_start heap_size k al fits = ground arith
