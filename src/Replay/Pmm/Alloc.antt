-- ===== src/Replay/Pmm/Alloc.antt =====
-- What `pmm_alloc_frame` and `pmm_free_frame` do to the set of used frames.
use bumbellbee_testing.Base.{
  ℕ, zero, suc, ◌+◌, ◌*◌, ◌/◌, ◌%◌, ◌^◌, ◌<◌, ◌≤◌, ◌≡◌, ◌≢◌, ◌||◌, true, false, inl, inr, arith,
  ◌==◌, Bool-cases, ◌⊎◌, Option, none, some, leb, Bool, refl,
}
use bumbellbee_testing.Replay.Pmm.{
  Pmm, page_size, is_used, mark, find_free, grant, pmm_alloc_frame, pmm_free_frame,
}
use bumbellbee_testing.Replay.Pmm.Bits.{Bytes, mark-Bytes, is_used-mark, is_used-unmark}

-- The bitmap holds bytes, frame addresses fit 64 bits, and frame 0, whose address would read as
-- NULL, is never given out.
pub record IsValid (p : Pmm) : Type 0 where
  pub bytes : Bytes p.bitmap
  pub small : p.total_frames ≤ 2 ^ 52
  pub reserved : is_used p.bitmap 0 ≡ true

abbrev pub used : Pmm → ℕ → Bool
used p j = is_used p.bitmap j

abbrev Found : (ℕ → ℕ) → ℕ → ℕ → Option ℕ → Type 0
Found bitmap n i none = Unit {0}
Found bitmap n i (some k) = (i ≤ k) × (k < i + n) × (is_used bitmap k ≡ false)

find_free-Found : (bitmap : ℕ → ℕ) (n i : ℕ) → Found bitmap n i (find_free bitmap n i)
unfolding find_free
find_free-Found bitmap zero i = tt
find_free-Found bitmap (suc n) i = elim (Bool-cases (is_used bitmap i)) [
  | inl busy ↦ rw busy (widen (find_free bitmap n (i + 1)) (find_free-Found bitmap n (i + 1)))
  | inr idle ↦ rw idle (omega arith, omega arith, idle)
]
  where
    widen : (r : Option ℕ) → Found bitmap n (i + 1) r → Found bitmap (suc n) i r
    widen none f = tt
    widen (some k) f = (omega arith, omega arith, f.2)

-- The frames that the search passed over.
abbrev Passed : (ℕ → ℕ) → ℕ → Option ℕ → Type 0
Passed bitmap j none = is_used bitmap j ≡ true
Passed bitmap j (some k) = (leb k j || is_used bitmap j) ≡ true

find_free-Passed :
    (bitmap : ℕ → ℕ) (n i j : ℕ) → i ≤ j → j < i + n → Passed bitmap j (find_free bitmap n i)
unfolding find_free
find_free-Passed bitmap zero i j lo hi = absurd (omega arith)
find_free-Passed bitmap (suc n) i j lo hi = elim (Bool-cases (is_used bitmap i)) [
  | inr idle ↦ rw idle (ground arith)
  | inl busy ↦ rw busy (elim (Bool-cases (i == j)) [
    | inl same ↦ here (find_free bitmap n (i + 1)) (ground arith)
    | inr other ↦ find_free-Passed bitmap n (i + 1) j (ground arith) (omega arith)
  ])
]
  where
    here : (r : Option ℕ) → is_used bitmap j ≡ true → Passed bitmap j r
    here none e = e
    here (some k) e = ground arith

-- The outcome of an allocation, seen at the frame `j`.
abbrev pub Allocated : Pmm → ℕ → ℕ × Pmm → Type 0
Allocated p j (a, p') =
    (a ≢ 0)
    × (a % page_size ≡ 0)
    × (a / page_size < p.total_frames)
    × (used p (a / page_size) ≡ false)
    × ((leb (a / page_size) j || used p j) ≡ true)
    × (used p' j ≡ ((j == a / page_size) || used p j))

module _ (p : Pmm) (v : IsValid p) where
  frame_of_address : (i : ℕ) → i < p.total_frames → (i * page_size % 2 ^ 64) / page_size ≡ i
  frame_of_address i h = omega (arith, v.small)

  free_ne_zero : (i : ℕ) → used p i ≡ false → i ≢ 0
  free_ne_zero i h z = ground (arith, v.reserved)

  grant-Allocated :
      (j : ℕ) (r : Option ℕ)
      → Found p.bitmap p.total_frames 0 r
      → Passed p.bitmap j r
      → Allocated p j (grant p r) ⊎ ((grant p r ≡ (0, p)) × (used p j ≡ true))
  unfolding grant
  grant-Allocated j none f g = inr (refl, g)
  grant-Allocated j (some i) f g =
      let back = frame_of_address i (omega arith) in
      inl (
        omega (arith, v.small, free_ne_zero i f.2),
        omega (arith, v.small),
        omega (arith, v.small),
        rw back f.2,
        rw back g,
        rw back (is_used-mark p.bitmap i j v.bytes),
      )

  grant-IsValid : (r : Option ℕ) → IsValid (grant p r).1
  unfolding grant
  grant-IsValid none = v
  grant-IsValid (some i) = record {
    bytes = mark-Bytes p.bitmap i v.bytes;
    small = v.small;
    reserved = ground (arith, is_used-mark p.bitmap i 0 v.bytes, v.reserved);
  }

  free-grant :
      (j : ℕ) (r : Option ℕ)
      → Found p.bitmap p.total_frames 0 r
      → (grant p r).0 ≢ 0
      → used (pmm_free_frame (grant p r).0 (grant p r).1) j ≡ used p j
  unfolding grant pmm_free_frame
  free-grant j none f ne = absurd (ne refl)
  free-grant j (some i) f ne = rw (frame_of_address i (omega arith)) (
      ground (
        arith,
        is_used-unmark (mark p.bitmap i) i j (mark-Bytes p.bitmap i v.bytes),
        is_used-mark p.bitmap i j v.bytes,
        f.2,
      ))

-- In a valid state pmm_alloc_frame gives the first free frame, and marks that frame and no
-- other, or it gives NULL without a change and every frame is used.
pub alloc_frame_lem :
    (p : Pmm) (j : ℕ)
    → IsValid p
    → j < p.total_frames
    → Allocated p j (pmm_alloc_frame p) ⊎ ((pmm_alloc_frame p ≡ (0, p)) × (used p j ≡ true))
unfolding pmm_alloc_frame
alloc_frame_lem p j v h =
    grant-Allocated p v j (find_free p.bitmap p.total_frames 0)
      (find_free-Found p.bitmap p.total_frames 0)
      (find_free-Passed p.bitmap p.total_frames 0 j (omega arith) (omega arith))

-- pmm_alloc_frame keeps the allocator valid.
alloc_frame-IsValid : (p : Pmm) → IsValid p → IsValid (pmm_alloc_frame p).1
unfolding pmm_alloc_frame
alloc_frame-IsValid p v = grant-IsValid p v (find_free p.bitmap p.total_frames 0)

-- In a valid state, if pmm_alloc_frame grants a frame, freeing it at once restores which frames
-- are used.
free-alloc :
    (p : Pmm) (j : ℕ)
    → IsValid p
    → (pmm_alloc_frame p).0 ≢ 0
    → used (pmm_free_frame (pmm_alloc_frame p).0 (pmm_alloc_frame p).1) j ≡ used p j
unfolding pmm_alloc_frame
free-alloc p j v =
    free-grant p v j (find_free p.bitmap p.total_frames 0)
      (find_free-Found p.bitmap p.total_frames 0)
