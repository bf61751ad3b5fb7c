-- ===== src/Modular/Mm/Blocks.antt =====
-- The free list as a list of blocks, and first fit over it.
use bumbellbee_testing.Base.{
  ℕ, ◌+◌, ◌-◌, ◌%◌, ◌≤◌, ◌<◌, ◌≡◌, ◌≢◌, ◌⊎◌, inl, inr, true, false, Option, none, some, List, [],
  ◌∷◌, leb, if◌then◌else◌, arith, All, refl, All-mono, Bool-cases,
}
use bumbellbee_testing.Modular.Mm.{BlockHeader}

-- The address of the header and the size behind it.
abbrev pub Block : Type 0
Block = ℕ × ℕ

abbrev pub Disjoint : Block → Block → Type 0
Disjoint (a, s) (b, t) = (a + 8 + s ≤ b) ⊎ (b + 8 + t ≤ a)

abbrev pub ApartFrom : Block → List Block → Type 0
ApartFrom b = All (Disjoint b)

abbrev pub Apart : List Block → Type 0
Apart [] = Unit
Apart (b ∷ bs) = ApartFrom b bs × Apart bs

-- The pointers lead from `p` through the blocks to the null pointer.
abbrev pub Chain : (ℕ → BlockHeader) → ℕ → List Block → Type 0
Chain h p [] = p ≡ 0
Chain h p ((a, s) ∷ bs) = (p ≡ a) × (a ≢ 0) × ((h a).size ≡ s) × Chain h (h a).next bs

-- First fit: the block taken and the list left.
unfoldable pub skip : Block → Option (Block × List Block) → Option (Block × List Block)
skip b none = none
skip b (some (c, cs)) = some (c, b ∷ cs)

unfoldable pub first_fit : ℕ → List Block → Option (Block × List Block)
unfolding skip
first_fit size [] = none
first_fit size ((a, s) ∷ bs) =
    if leb size s
    then (if leb (size + 16) s
        then some ((a, size), (a + 8 + size, s - size - 8) ∷ bs)
        else some ((a, s), bs))
    else skip (a, s) (first_fit size bs)

pub first_fit-skip :
    (size a s : ℕ) (bs : List Block)
    → leb size s ≡ false
    → first_fit size ((a, s) ∷ bs) ≡ skip (a, s) (first_fit size bs)
unfolding first_fit
first_fit-skip size a s bs h = rw h

-- A first block that is large enough is taken.
pub first_fit-first :
    (size a s : ℕ) (bs : List Block)
    → size ≤ s
    → (t : ℕ) × (cs : List Block) × (first_fit size ((a, s) ∷ bs) ≡ some ((a, t), cs))
unfolding first_fit
first_fit-first size a s bs h =
    let room : leb size s ≡ true = ground arith in
    elim (Bool-cases (leb (size + 16) s)) [
      | inl big ↦ (size, (a + 8 + size, s - size - 8) ∷ bs, rw (room, big))
      | inr tight ↦ (s, bs, rw (room, tight))
    ]

-- A fact about the block taken and the list left, if there are such.
abbrev pub Fits : (Block → List Block → Type 0) → Option (Block × List Block) → Type 0
Fits P none = Unit
Fits P (some (b, bs)) = P b bs

-- One proof for the three outcomes of a step of the search.
module _ (P Q : Block → List Block → Type 0) (size a s : ℕ) (bs : List Block) where
  fit_step :
      (size + 16 ≤ s → Q (a, size) ((a + 8 + size, s - size - 8) ∷ bs))
      → (size ≤ s → s < size + 16 → Q (a, s) bs)
      → (s < size → (b : Block) (cs : List Block) → P b cs → Q b ((a, s) ∷ cs))
      → Fits P (first_fit size bs)
      → Fits Q (first_fit size ((a, s) ∷ bs))
  unfolding first_fit
  fit_step f g k h = elim (Bool-cases (leb size s)) [
    | inr no_room ↦ rw no_room (pass (ground arith) (first_fit size bs) h)
    | inl room ↦ rw room (elim (Bool-cases (leb (size + 16) s)) [
      | inl big ↦ rw big (f (ground arith))
      | inr tight ↦ rw tight (g (ground arith) (ground arith))
    ])
  ]
    where
      pass : s < size → (r : Option (Block × List Block)) → Fits P r → Fits Q (skip (a, s) r)
      pass lt none h = tt
      pass lt (some (b, cs)) h = k lt b cs h

abbrev pub Inside : ℕ → Block → Type 0
Inside lo (a, s) = (lo ≤ a) × (a + 8 + s ≤ lo + 524288) × ((a - lo) % 8 ≡ 0) × (s % 8 ≡ 0)

abbrev pub total : List Block → ℕ
total [] = 0
total ((a, s) ∷ bs) = 8 + s + total bs

pub Disjoint-symm : (b c : Block) → Disjoint b c → Disjoint c b
Disjoint-symm (a, s) (b, t) (inl h) = inr h
Disjoint-symm (a, s) (b, t) (inr h) = inl h

Apart-symm : (b : Block) (bs : List Block) → ApartFrom b bs → All (λ c. Disjoint c b) bs
Apart-symm b bs = All-mono bs (Disjoint-symm b)

shrink_left : (a s size : ℕ) (c : Block) → size ≤ s → Disjoint (a, s) c → Disjoint (a, size) c
shrink_left a s size (b, t) le h = grind arith

shrink_right :
    (a s size : ℕ) (c : Block)
    → size + 8 ≤ s
    → Disjoint (a, s) c
    → Disjoint (a + 8 + size, s - size - 8) c
shrink_right a s size (b, t) le h = grind arith

Fits-both :
    (P Q : Block → List Block → Type 0) (r : Option (Block × List Block))
    → Fits P r
    → Fits Q r
    → Fits (λ b cs. P b cs × Q b cs) r
Fits-both P Q none h k = tt
Fits-both P Q (some (b, cs)) h k = (h, k)

skip-none : (b : Block) (r : Option (Block × List Block)) → skip b r ≡ none → r ≡ none
unfolding skip
skip-none b none e = refl
skip-none b (some (c, cs)) e = cc

module _ (size : ℕ) where
  pub fit-ApartFrom :
      (x : Block) (bs : List Block)
      → ApartFrom x bs
      → Fits (λ b cs. Disjoint x b × ApartFrom x cs) (first_fit size bs)
  unfolding first_fit
  fit-ApartFrom x [] h = tt
  fit-ApartFrom x ((a, s) ∷ bs) h =
      fit_step _ _ size a s bs (λ le. (grind arith, (grind arith, h.1))) (λ le lt. h)
        (λ lt b cs r. (r.0, (h.0, r.1))) (fit-ApartFrom x bs h.1)

  pub fit-Apart :
      (bs : List Block) → Apart bs → Fits (λ b cs. ApartFrom b cs × Apart cs) (first_fit size bs)
  unfolding first_fit
  fit-Apart [] h = tt
  fit-Apart ((a, s) ∷ bs) h =
      fit_step _ _ size a s bs
        (λ le. (
          (omega arith, All-mono bs (λ c. shrink_left a s size c (omega arith)) h.0),
          (All-mono bs (λ c. shrink_right a s size c (omega arith)) h.0, h.1),
        ))
        (λ le lt. h) (λ lt b cs r. ((Disjoint-symm (a, s) b r.0.0, r.1.0), (r.0.1, r.1.1)))
        (Fits-both _ _ (first_fit size bs) (fit-ApartFrom (a, s) bs h.0) (fit-Apart bs h.1))

  pub fit-Inside :
      (lo : ℕ) (bs : List Block)
      → size % 8 ≡ 0
      → All (Inside lo) bs
      → Fits (λ b cs. Inside lo b × All (Inside lo) cs) (first_fit size bs)
  unfolding first_fit
  fit-Inside lo [] al h = tt
  fit-Inside lo ((a, s) ∷ bs) al h =
      fit_step _ _ size a s bs (λ le. (omega arith, (omega arith, h.1))) (λ le lt. h)
        (λ lt b cs r. (r.0, (h.0, r.1))) (fit-Inside lo bs al h.1)

  pub fit-total :
      (bs : List Block)
      → Fits
          (λ b cs. (8 + b.1 + total cs ≡ total bs) × (size ≤ b.1) × (b.1 < size + 16))
          (first_fit size bs)
  unfolding first_fit
  fit-total [] = tt
  fit-total ((a, s) ∷ bs) =
      fit_step _ _ size a s bs (λ le. omega arith) (λ le lt. omega arith) (λ lt b cs r. omega arith)
        (fit-total bs)

  pub fit-none : (bs : List Block) → first_fit size bs ≡ none → All (λ b. b.1 < size) bs
  unfolding first_fit
  fit-none [] e = tt
  fit-none ((a, s) ∷ bs) e = elim (Bool-cases (leb size s)) [
    | inr no_room ↦
        (ground arith, fit-none bs (skip-none (a, s) (first_fit size bs) (rw no_room at e)))
    | inl room ↦ elim (Bool-cases (leb (size + 16) s)) [
      | inl big ↦ absurd (ground arith)
      | inr tight ↦ absurd (ground arith)
    ]
  ]
