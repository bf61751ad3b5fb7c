-- ===== src/Modular/Mm/Free.antt =====
-- `mm_init` and `mm_free` against the heap's invariant.
use bumbellbee_testing.Base.{
  ℕ, ◌+◌, ◌-◌, ◌^◌, ◌≤◌, ◌<◌, ◌≡◌, false, List, [], ◌∷◌, ◌++◌, ◌==◌, arith, All, All-mono, All-both,
  All-middle, refl, update, ==_ne, ==_refl,
}
use bumbellbee_testing.Modular.Mm.{Mm, mm_heap_size, set_next, mm_init, mm_free}
use bumbellbee_testing.Modular.Mm.Blocks.{Block, Disjoint, ApartFrom, Apart, total, Disjoint-symm}
use bumbellbee_testing.Modular.Mm.Loop.{Chain-frame}
use bumbellbee_testing.Modular.Mm.Heap.{IsValid}

-- For a heap that starts above address 0 and ends at 2^32 at most, mm_init sets up a valid heap
-- with one free block.
pub mm_init-IsValid :
    (base : ℕ) (m : Mm)
    → 0 < base
    → base + mm_heap_size ≤ 2 ^ 32
    → IsValid base (mm_init base m) ((base, mm_heap_size - 8) ∷ []) []
unfolding mm_init
mm_init-IsValid base m pos fits = record {
  chain = (refl, omega arith, ground arith, ground arith);
  sizes = tt;
  inside_free = (omega arith, tt);
  inside_live = tt;
  apart_free = (tt, tt);
  apart_live = tt;
  apart = tt;
  tiled = omega arith;
  base_pos = pos;
  base_fits = fits;
}

Apart-middle :
    (xs : List Block) (b : Block) (ys : List Block)
    → Apart (xs ++ (b ∷ ys))
    → ApartFrom b (xs ++ ys) × Apart (xs ++ ys)
Apart-middle [] b ys h = h
Apart-middle (x ∷ xs) b ys h =
    let head = All-middle (Disjoint x) xs b ys h.0 in
    let rest = Apart-middle xs b ys h.1 in ((Disjoint-symm x b head.0, rest.0), (head.1, rest.1))

total_middle :
    (xs : List Block) (b : Block) (ys : List Block)
    → total (xs ++ (b ∷ ys)) ≡ 8 + b.1 + total (xs ++ ys)
total_middle [] b ys = refl
total_middle (x ∷ xs) b ys = omega (arith, total_middle xs b ys)

mm_free_block :
    (a : ℕ) (m : Mm) → mm_free (a + 8) m ≡ record (set_next m a m.free_list) { free_list = a }
unfolding mm_free
mm_free_block a m =
    let ne : (a + 8 == 0) ≡ false = ground arith in
    let back : a + 8 - 8 ≡ a = omega arith in rw (ne, back)

-- Freeing any live block of a valid heap leaves a valid heap in which that block heads the free
-- list.
pub free-IsValid :
    (base : ℕ) (m : Mm) (free xs : List Block) (b : Block) (ys : List Block)
    → IsValid base m free (xs ++ (b ∷ ys))
    → IsValid base (mm_free (b.0 + 8) m) (b ∷ free) (xs ++ ys)
free-IsValid base m free xs (a, s) ys v =
    let b : Block = (a, s) in
    let sizes = All-middle _ xs b ys v.sizes in
    let inside = All-middle _ xs b ys v.inside_live in
    let away = Apart-middle xs b ys v.apart_live in
    let cross = All-middle _ xs b ys v.apart in
    let spared : All
        (λ c. update m.header a (record (m.header a) { next = m.free_list }) c.0 ≡ m.header c.0)
        free =
      All-mono free (λ c h. rw (==_ne c.0 a (λ e. grind arith))) cross.0 in
    rw (mm_free_block a m) (record {
      chain = (
        refl,
        (λ e. omega (arith, v.base_pos)),
        rw (==_refl a) sizes.0,
        rw (==_refl a) (Chain-frame m.header _ m.free_list free spared v.chain),
      );
      sizes = All-mono (xs ++ ys) (λ c h. ground arith) sizes.1;
      inside_free = (inside.0, v.inside_free);
      inside_live = inside.1;
      apart_free = (cross.0, v.apart_free);
      apart_live = away.1;
      apart = All-both (xs ++ ys) (λ c h k. (Disjoint-symm b c h, k)) away.0 cross.1;
      tiled = omega (arith, v.tiled, total_middle xs b ys);
      base_pos = v.base_pos;
      base_fits = v.base_fits;
    })
