-- ===== src/Modular/Paging/Walk.antt =====
-- What the processor makes of the two tables.
use bumbellbee_testing.Base.{
  ℕ, zero, suc, ◌+◌, ◌*◌, ◌/◌, ◌%◌, ◌^◌, ◌<◌, ◌≡◌, ◌≢◌, ==_ne, ◌&&◌, bit_or, Option, none, some,
  arith, refl, ap, ◌∙◌, ltb, leb, ◌==◌, ==_refl, true, false, Bool-cases, inl, inr, if◌then◌else◌,
  update,
}
use bumbellbee_testing.Base.Masks.{bit_or-flags}
use bumbellbee_testing.Modular.Paging.{Paging, map_loop, unmap_loop, init_paging}

-- The two levels of the walk for an address from the frame that CR3 names on, `none` where an entry is
-- not present. `memory` gives the 1024 entries of the frame at a physical address.
abbrev pub page : ℕ → ℕ → Option ℕ
page entry address = if entry % 2 == 0 then none else some (entry / 4096 * 4096 + address % 4096)

abbrev pub translate : (memory : ℕ → ℕ → ℕ) → (cr3 : ℕ) → ℕ → Option ℕ
translate memory cr3 address =
    let entry = memory (cr3 / 4096 * 4096) (address / 2 ^ 22) in
    let below = page (memory (entry / 4096 * 4096) (address / 4096 % 1024)) address in
    if entry % 2 == 0 then none else below

map_loop_at :
    (n i : ℕ) (table : ℕ → ℕ) (j : ℕ)
    → map_loop n i table j ≡ (if leb i j && ltb j (i + n) then bit_or (j * 0x1000) 3 else table j)
unfolding map_loop
map_loop_at zero i table j = ground arith
map_loop_at (suc n) i table j =
    let later = map_loop_at n (i + 1) (update table i (bit_or (i * 0x1000) 3)) in
    elim (Bool-cases (j == i)) [
      | inl same ↦ let e : j ≡ i = ground (arith, same) in rw e (later i ∙ ground arith)
      | inr other ↦ later j ∙ rw other (ground (arith, other))
    ]

unmap_loop_at :
    (n i : ℕ) (directory : ℕ → ℕ) (j : ℕ)
    → unmap_loop n i directory j ≡ (if leb i j && ltb j (i + n) then 0 else directory j)
unfolding unmap_loop
unmap_loop_at zero i directory j = ground arith
unmap_loop_at (suc n) i directory j =
    ground (arith, unmap_loop_at n (i + 1) (update directory i 0) j)

-- An entry with both flags leads to its frame.
flags : (n : ℕ) → bit_or (n * 0x1000) 3 ≡ n * 0x1000 + 3
flags n = let e : n * 0x1000 ≡ n * 1024 * 4 = omega arith in rw e (bit_or-flags (n * 1024))

-- The two tables where init_paging is told that they lie, and any contents of the other frames.
abbrev pub frames : ℕ → ℕ → Paging → (ℕ → ℕ → ℕ) → ℕ → ℕ → ℕ
frames directory table p other address =
    if address == directory
    then p.page_directory
    else if address == table
    then p.first_page_table
    else other address

table_entry :
    (directory n : ℕ) (p : Paging) (i : ℕ)
    → i < 1024
    → (init_paging directory (n * 4096) p).first_page_table i ≡ i * 4096 + 3
unfolding init_paging
table_entry directory n p i h =
    map_loop_at 1024 0 p.first_page_table i
    ∙ (let e : (leb 0 i && ltb i (0 + 1024)) ≡ true = ground (arith, h) in rw e (flags i))

directory_entry :
    (directory n : ℕ) (p : Paging) (i : ℕ)
    → i < 1024
    → (init_paging directory (n * 4096) p).page_directory i ≡ (if i == 0 then n * 4096 + 3 else 0)
unfolding init_paging
directory_entry directory n p i h = unmap_loop_at 1023 1 _ i ∙ ground (arith, flags n, h)

translate_present :
    (memory : ℕ → ℕ → ℕ) (k address n m : ℕ)
    → memory (k * 4096) (address / 2 ^ 22) ≡ n * 4096 + 3
    → memory (n * 4096) (address / 4096 % 1024) ≡ m * 4096 + 3
    → translate memory (k * 4096) address ≡ some (m * 4096 + address % 4096)
translate_present memory k address n m first second =
    let root : k * 4096 / 4096 * 4096 ≡ k * 4096 = omega arith in
    let frame : (n * 4096 + 3) / 4096 * 4096 ≡ n * 4096 = omega arith in
    let flag : ((n * 4096 + 3) % 2 == 0) ≡ false = ground arith in
    let flag' : ((m * 4096 + 3) % 2 == 0) ≡ false = ground arith in
    let page_at : (m * 4096 + 3) / 4096 * 4096 ≡ m * 4096 = omega arith in
    rw (root, first, frame, second, flag, flag', page_at) refl

translate_absent :
    (memory : ℕ → ℕ → ℕ) (k address : ℕ)
    → memory (k * 4096) (address / 2 ^ 22) ≡ 0
    → translate memory (k * 4096) address ≡ none
translate_absent memory k address first =
    let root : k * 4096 / 4096 * 4096 ≡ k * 4096 = omega arith in rw (root, first) refl

-- For two different tables at multiples of 4096, after init_paging the processor, which starts at the
-- table that CR3 was loaded with, translates every 32-bit address below 4 MiB to itself, and finds no
-- page for any other, whatever the other frames hold.
pub translate-init_paging :
    (directory table : ℕ) (p : Paging) (other : ℕ → ℕ → ℕ) (address : ℕ)
    → directory % 4096 ≡ 0
    → table % 4096 ≡ 0
    → table ≢ directory
    → address < 2 ^ 32
    → let q = init_paging directory table p in
      translate (frames directory table q other) q.cr3 address
      ≡ (if ltb address (2 ^ 22) then some address else none)
unfolding init_paging
translate-init_paging directory table p other address aligned' aligned apart h =
    let k = directory / 4096 in
    let n = table / 4096 in
    let e' : directory ≡ k * 4096 = omega (arith, aligned') in
    let e : table ≡ n * 4096 = omega (arith, aligned) in
    let differ : (n * 4096 == k * 4096) ≡ false =
      ==_ne (n * 4096) (k * 4096) (omega (arith, apart, e, e')) in
    let entry = directory_entry (k * 4096) n p (address / 2 ^ 22) (omega (arith, h)) in
    let q = init_paging (k * 4096) (n * 4096) p in
    let memory = frames (k * 4096) (n * 4096) q other in
    let root : memory (k * 4096) (address / 2 ^ 22)
        ≡ (if address / 2 ^ 22 == 0 then n * 4096 + 3 else 0) =
      rw (==_refl (k * 4096)) entry in
    elim (Bool-cases (ltb address (2 ^ 22))) [
      | inl low ↦
          let first : (address / 2 ^ 22 == 0) ≡ true = ground (arith, low) in
          let index : address / 4096 % 1024 ≡ address / 4096 = ground (arith, low) in
          let second : memory (n * 4096) (address / 4096 % 1024) ≡ address / 4096 * 4096 + 3 =
            rw (differ, ==_refl (n * 4096), index)
              (table_entry (k * 4096) n p (address / 4096) (ground (arith, low))) in
          let split : address / 4096 * 4096 + address % 4096 ≡ address = omega arith in
          rw (e, e', low)
            (translate_present memory k address n (address / 4096) (root ∙ rw first refl) second
              ∙ ap some split)
      | inr high ↦
          let first : (address / 2 ^ 22 == 0) ≡ false = ground (arith, high) in
          rw (e, e', high) (translate_absent memory k address (root ∙ rw first refl))
    ]
