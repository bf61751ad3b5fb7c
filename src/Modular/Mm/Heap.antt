-- ===== src/Modular/Mm/Heap.antt =====
-- The invariant of the whole heap: the free and the live blocks tile it.
use bumbellbee_testing.Base.{
  ℕ, ◌+◌, ◌*◌, ◌/◌, ◌%◌, ◌^◌, ◌≤◌, ◌<◌, ◌≡◌, ◌≢◌, ◌⊎◌, inl, inr, Option, none, some, List, ◌∷◌,
  arith, All, All-mono, All-both, refl, length, ap, ◌∙◌,
}
use bumbellbee_testing.Modular.Mm.{Mm, mm_heap_size, align8, alloc_loop, mm_alloc}
use bumbellbee_testing.Modular.Mm.Blocks.{
  Block, Disjoint, ApartFrom, Apart, Chain, Inside, total, first_fit, first_fit-first,
  Disjoint-symm, fit-ApartFrom, fit-Apart, fit-Inside, fit-total, fit-none,
}
use bumbellbee_testing.Modular.Mm.Loop.{
  Finds, Finds-mono, Outcome, Small, Outside, apart-Outside, alloc_loop-Outcome,
}

-- `free` is what the free list holds and `live` what callers hold. All blocks lie inside the heap
-- at multiples of eight, no two of them overlap, and none of the heap is lost.
pub record IsValid (base : ℕ) (m : Mm) (free live : List Block) : Type 0 where
  pub chain : Chain m.header m.free_list free
  pub sizes : All (λ b. (m.header b.0).size ≡ b.1) live
  pub inside_free : All (Inside base) free
  pub inside_live : All (Inside base) live
  pub apart_free : Apart free
  pub apart_live : Apart live
  pub apart : All (λ b. ApartFrom b free) live
  pub tiled : total free + total live ≡ mm_heap_size
  pub base_pos : 0 < base
  pub base_fits : base + mm_heap_size ≤ 2 ^ 32

align8_multiple : (size : ℕ) → align8 size % 8 ≡ 0
unfolding align8
align8_multiple size = omega arith

module _ (base : ℕ) (m : Mm) (free live : List Block) (v : IsValid base m free live) where
  -- What `mm_alloc` has done: a block was taken, or none is large enough.
  abbrev pub Taken : ℕ → Mm → ℕ → Block → List Block → Type 0
  Taken ptr m' size b after =
      (ptr ≡ b.0 + 8) × (size ≤ b.1) × (b.1 < size + 16) × IsValid base m' after (b ∷ live)

  abbrev pub Served : ℕ → ℕ × Mm → Option (Block × List Block) → Type 0
  Served size (ptr, m') none = (ptr ≡ 0) × (m' ≡ m) × All (λ b. b.1 < size) free
  Served size (ptr, m') (some (b, after)) = Taken ptr m' size b after

  live-Outside : (b : Block) → Inside base b → ApartFrom b free → (b.0 ≢ 0) × Outside b.0 free
  live-Outside (a, s) i ap = ((λ e. omega (arith, v.base_pos)), apart-Outside a s free ap)

  Taken-IsValid :
      (size : ℕ) (r : ℕ × Mm) (b : Block) (after : List Block)
      → size % 8 ≡ 0
      → first_fit size free ≡ some (b, after)
      → Outcome m 0 free r (some (b, after))
      → Taken r.0 r.1 size b after
  Taken-IsValid size (ptr, m') b after al e o =
      let sized = rw e at (fit-total size free) in
      let inside = rw e at (fit-Inside size base free al v.inside_free) in
      let parted = rw e at (fit-Apart size free v.apart_free) in
      let away : All (λ x. Disjoint x b × ApartFrom x after) live =
        All-mono live (λ x h. rw e at (fit-ApartFrom size x free h)) v.apart in
      let spared : All (λ x. (x.0 ≢ 0) × Outside x.0 free) live =
        All-both live live-Outside v.inside_live v.apart in
      (
        o.0,
        sized.1,
        sized.2,
        record {
          chain = o.2.chain;
          sizes = (
            o.1,
            All-both live (λ x s h. ap (λ k. k.size) (o.2.same x.0 s.0 s.1) ∙ h) spared v.sizes,
          );
          inside_free = inside.1;
          inside_live = (inside.0, v.inside_live);
          apart_free = parted.1;
          apart_live = (All-mono live (λ x h. Disjoint-symm x b h.0) away, v.apart_live);
          apart = (parted.0, All-mono live (λ x h. h.1) away);
          tiled = omega (arith, v.tiled, sized.0);
          base_pos = v.base_pos;
          base_fits = v.base_fits;
        },
      )

  Outcome-Served :
      (size : ℕ) (r : ℕ × Mm) (o : Option (Block × List Block))
      → size % 8 ≡ 0
      → first_fit size free ≡ o
      → Outcome m 0 free r o
      → Served size r o
  Outcome-Served size r none al e h = (h.0, h.1, fit-none size free e)
  Outcome-Served size r (some (b, after)) al e h = Taken-IsValid size r b after al e h

  Small-blocks : All Small free
  Small-blocks = All-mono free (λ b i. omega (arith, v.base_fits)) v.inside_free

  zero-Outside : Outside 0 free
  zero-Outside = All-mono free (λ b i. inl (omega (arith, v.base_pos))) v.inside_free

  pub mm_alloc-Served :
      (fuel size : ℕ)
      → length free < fuel
      → Finds (λ r. Served (align8 size) r (first_fit (align8 size) free)) (mm_alloc fuel size m)
  unfolding mm_alloc
  mm_alloc-Served fuel size f =
      Finds-mono _ _ (alloc_loop fuel (align8 size) 0 m.free_list m)
        (λ r.
          Outcome-Served (align8 size) r (first_fit (align8 size) free) (align8_multiple size) refl)
        (alloc_loop-Outcome fuel (align8 size) 0 m.free_list m free v.chain refl v.apart_free
          zero-Outside Small-blocks f)

-- On a valid heap, for a size below 2^32 - 7 and fuel above the number of free blocks, mm_alloc
-- returns: either a block of at least the size and less than 23 bytes more, and a valid heap in
-- which that block is live, or NULL with the heap unchanged, and then no free block has the
-- rounded size.
pub alloc_lem :
    (base : ℕ) (m : Mm) (free live : List Block) (fuel size : ℕ)
    → IsValid base m free live
    → length free < fuel
    → size + 7 < 2 ^ 32
    → Finds
        (λ (ptr, m').
          ((b : Block) × (after : List Block) × (ptr ≡ b.0 + 8)
            × (size ≤ b.1)
            × (b.1 < size + 23)
            × IsValid base m' after (b ∷ live))
          ⊎ ((ptr ≡ 0) × (m' ≡ m) × All (λ b. b.1 < (size + 7) / 8 * 8) free))
        (mm_alloc fuel size m)
alloc_lem base m free live fuel size v f small =
    Finds-mono _ _ (mm_alloc fuel size m) (λ r. told (first_fit (align8 size) free) r)
      (mm_alloc-Served base m free live v fuel size f)
  where
    rounded : align8 size ≡ (size + 7) / 8 * 8
    rounded = unfold align8 in omega arith

    told :
        (o : Option (Block × List Block)) (r : ℕ × Mm)
        → Served base m free live v (align8 size) r o
        → ((b : Block) × (after : List Block) × (r.0 ≡ b.0 + 8)
            × (size ≤ b.1)
            × (b.1 < size + 23)
            × IsValid base r.1 after (b ∷ live))
          ⊎ ((r.0 ≡ 0) × (r.1 ≡ m) × All (λ b. b.1 < (size + 7) / 8 * 8) free)
    told none r h = inr (rw rounded at h)
    told (some (b, after)) r h =
        inl (b, after, h.0, omega (arith, rounded, h.1), omega (arith, rounded, h.2), h.3)

-- On a valid heap with a free block and enough fuel, a request of at least 2^32 - 7 bytes is
-- granted the first free block, which then has fewer than 16 bytes.
alloc_wraps :
    (base : ℕ) (m : Mm) (a s : ℕ) (free live : List Block) (fuel size : ℕ)
    → IsValid base m ((a, s) ∷ free) live
    → length free + 1 < fuel
    → 2 ^ 32 ≤ size + 7
    → size < 2 ^ 32
    → Finds (λ (ptr, m'). (ptr ≡ a + 8) × ((m'.header a).size < 16)) (mm_alloc fuel size m)
alloc_wraps base m a s free live fuel size v f lo hi =
    Finds-mono _ _ (mm_alloc fuel size m) (λ r. told r)
      (mm_alloc-Served base m ((a, s) ∷ free) live v fuel size (omega arith))
  where
    wrapped : align8 size ≡ 0
    wrapped = unfold align8 in omega arith

    told :
        (r : ℕ × Mm)
        → Served base m
            ((a, s) ∷ free)
            live
            v
            (align8 size)
            r
            (first_fit (align8 size) ((a, s) ∷ free))
        → (r.0 ≡ a + 8) × ((r.1.header a).size < 16)
    told r h =
        let (t, cs, e) = first_fit-first 0 a s free (omega arith) in
        let taken = rw (wrapped, e) at h in (taken.0, rw taken.3.sizes.0 taken.2)
