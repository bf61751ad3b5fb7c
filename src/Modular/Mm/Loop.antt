-- ===== src/Modular/Mm/Loop.antt =====
-- The loop of `mm_alloc` over the pointers finds what first fit finds over the blocks.
use bumbellbee_testing.Base.{
  ℕ, zero, suc, ◌+◌, ◌-◌, ◌%◌, ◌^◌, ◌≤◌, ◌<◌, ◌≡◌, ◌≢◌, ◌⊎◌, inl, inr, true, false, Option, none,
  some, List, [], ◌∷◌, leb, ◌==◌, if◌then◌else◌, arith, All, All-mono, Bool-cases, refl, length,
  All-both, ==_ne, sym, ap, ◌∙◌,
}
use bumbellbee_testing.Modular.Mm.{BlockHeader, Mm, relink, carve, take_block, alloc_loop}
use bumbellbee_testing.Modular.Mm.Blocks.{
  Block, ApartFrom, Apart, Chain, first_fit, first_fit-skip, skip,
}

-- The address lies in no block.
abbrev pub Outside : ℕ → List Block → Type 0
Outside x = All (λ (a, s). (x < a) ⊎ (a + 8 + s ≤ x))

-- The pointer that `relink prev` overwrites.
abbrev pub link : Mm → ℕ → ℕ
link m prev = if prev == 0 then m.free_list else (m.header prev).next

-- From `m` to `m'` the blocks behind `prev` became those of `after`, and nothing changed that lies
-- outside of them and `prev`.
pub record Relinked (m m' : Mm) (prev : ℕ) (before after : List Block) : Type 0 where
  pub chain : Chain m'.header (link m' prev) after
  pub same : (x : ℕ) → x ≢ prev → Outside x before → m'.header x ≡ m.header x
  pub prev_size : (m'.header prev).size ≡ (m.header prev).size
  pub anchor : prev ≢ 0 → m'.free_list ≡ m.free_list

-- The result of the search, by what first fit says.
abbrev pub Outcome : Mm → ℕ → List Block → ℕ × Mm → Option (Block × List Block) → Type 0
Outcome m prev before (ptr, m') none = (ptr ≡ 0) × (m' ≡ m)
Outcome m prev before (ptr, m') (some ((a, s), after)) =
    (ptr ≡ a + 8) × ((m'.header a).size ≡ s) × Relinked m m' prev before after

-- A chain survives any change that spares its headers.
pub Chain-frame :
    (h g : ℕ → BlockHeader) (p : ℕ) (bs : List Block)
    → All (λ b. g b.0 ≡ h b.0) bs
    → Chain h p bs
    → Chain g p bs
Chain-frame h g p [] same c = c
Chain-frame h g p ((a, s) ∷ bs) same c =
    (c.0, c.1, rw same.0 c.2, rw same.0 (Chain-frame h g (h a).next bs same.1 c.3))

module _ (prev q : ℕ) (m : Mm) where
  link-relink : link (relink prev q m) prev ≡ q
  unfolding relink
  link-relink = ground arith

  header-relink : (x : ℕ) → x ≢ prev → (relink prev q m).header x ≡ m.header x
  unfolding relink
  header-relink x ne = ground arith

  size-relink : (x : ℕ) → ((relink prev q m).header x).size ≡ (m.header x).size
  unfolding relink
  size-relink x = ground arith

  free_list-relink : prev ≢ 0 → (relink prev q m).free_list ≡ m.free_list
  unfolding relink
  free_list-relink ne = ground arith

-- Where a block is taken, `a` heads the list at `prev`.
module _ (m : Mm) (prev a s size : ℕ) (bs : List Block) (at_a : (m.header a).size ≡ s)
    (a_pos : a ≢ 0) (rest : Chain m.header (m.header a).next bs) (apart : ApartFrom (a, s) bs)
    (out : Outside prev ((a, s) ∷ bs)) (small : s < 2 ^ 31) where
  others_ne_prev : All (λ b. b.0 ≢ prev) bs
  others_ne_prev = All-mono bs (λ b h. grind arith) out.1

  unlink-Relinked : Relinked m (relink prev (m.header a).next m) prev ((a, s) ∷ bs) bs
  unlink-Relinked = record {
    chain = rw (link-relink prev (m.header a).next m) (
        Chain-frame m.header _ (m.header a).next bs
          (All-mono bs (λ b ne. header-relink prev (m.header a).next m b.0 ne) others_ne_prev)
          rest);
    same = λ x ne _. header-relink prev (m.header a).next m x ne;
    prev_size = size-relink prev (m.header a).next m prev;
    anchor = free_list-relink prev (m.header a).next m;
  }

  carve_new :
      size + 16 ≤ s
      → (carve size a m).header (a + 8 + size)
        ≡ record { size = s - size - 8; next = (m.header a).next }
  unfolding carve
  carve_new big = ground arith

  carve_other : (x : ℕ) → x ≢ a → x ≢ a + 8 + size → (carve size a m).header x ≡ m.header x
  unfolding carve
  carve_other x na nn = ground arith

  new_ne_prev : size + 16 ≤ s → a + 8 + size ≢ prev
  new_ne_prev big e = grind arith

  others_spared : size + 16 ≤ s → All (λ b. (b.0 ≢ prev) × (b.0 ≢ a) × (b.0 ≢ a + 8 + size)) bs
  others_spared big =
      All-both bs (λ b ne ap. (ne, (λ e. grind arith), (λ e. grind arith))) others_ne_prev apart

  split-Relinked :
      size + 16 ≤ s
      → Relinked m
          (relink prev (a + 8 + size) (carve size a m))
          prev
          ((a, s) ∷ bs)
          ((a + 8 + size, s - size - 8) ∷ bs)
  unfolding carve
  split-Relinked big =
      let new = a + 8 + size in
      let at_new = header-relink prev new (carve size a m) new (new_ne_prev big) ∙ carve_new big in
      record {
        chain = rw (link-relink prev new (carve size a m)) (
          refl,
          omega arith,
          ap (λ h. h.size) at_new,
          rw at_new (
              Chain-frame m.header _ (m.header a).next bs
                (All-mono bs
                  (λ b ne.
                    header-relink prev new (carve size a m) b.0 ne.0 ∙ carve_other b.0 ne.1 ne.2)
                  (others_spared big))
                rest),
        );
        same = λ x ne o.
            header-relink prev new (carve size a m) x ne
            ∙ carve_other x (λ e. grind arith) (λ e. grind arith);
        prev_size =
            size-relink prev new (carve size a m) prev
            ∙ ap (λ h. h.size) (carve_other prev (λ e. grind arith) (λ e. new_ne_prev big (sym e)));
        anchor = free_list-relink prev new (carve size a m);
      }

  size_at-split :
      size + 16 ≤ s → ((relink prev (a + 8 + size) (carve size a m)).header a).size ≡ size
  unfolding carve
  size_at-split big = size-relink prev (a + 8 + size) (carve size a m) a ∙ ground arith

  take_block-Outcome :
      size ≤ s
      → Outcome m prev ((a, s) ∷ bs) (take_block size prev a m) (first_fit size ((a, s) ∷ bs))
  unfolding take_block first_fit
  take_block-Outcome le =
      let room : leb size s ≡ true = ground arith in
      elim (Bool-cases (leb (size + 16) s)) [
        | inl big ↦
            let big' : leb ((size + 8 + 8) % 2 ^ 32) s ≡ true = ground arith in
            let fits : size + 16 ≤ s = ground arith in
            rw (at_a, room, big, big') (refl, size_at-split fits, split-Relinked fits)
        | inr tight ↦
            let tight' : leb ((size + 8 + 8) % 2 ^ 32) s ≡ false = ground arith in
            rw (at_a, room, tight, tight')
              (refl, size-relink prev (m.header a).next m a ∙ at_a, unlink-Relinked)
      ]

  -- The search behind `a` leaves the link to `a` as it was.
  skip-Relinked :
      (m' : Mm) (after : List Block)
      → link m prev ≡ a
      → Relinked m m' a bs after
      → Relinked m m' prev ((a, s) ∷ bs) ((a, s) ∷ after)
  skip-Relinked m' after linked r =
      let prev_kept = r.same prev (λ e. grind arith) out.1 in
      let a_link : link m' a ≡ (m'.header a).next = ground arith in
      record {
        chain = (
          ground (arith, prev_kept, r.anchor a_pos, linked),
          a_pos,
          r.prev_size ∙ at_a,
          rw a_link at r.chain,
        );
        same = λ x ne o. r.same x (λ e. grind arith) o.1;
        prev_size = ap (λ h. h.size) prev_kept;
        anchor = λ _. r.anchor a_pos;
      }

  skip-Outcome :
      (r : ℕ × Mm) (o : Option (Block × List Block))
      → link m prev ≡ a
      → Outcome m a bs r o
      → Outcome m prev ((a, s) ∷ bs) r (skip (a, s) o)
  unfolding skip
  skip-Outcome r none linked h = h
  skip-Outcome r (some (b, after)) linked h = (h.0, h.1, skip-Relinked r.1 after linked h.2)

-- The run ends within its fuel, with a result of which `P` holds.
abbrev pub Finds : (ℕ × Mm → Type 0) → Option (ℕ × Mm) → Type 0
Finds P none = ⊥
Finds P (some r) = P r

pub Finds-mono :
    (P Q : ℕ × Mm → Type 0) (r : Option (ℕ × Mm))
    → ((x : ℕ × Mm) → P x → Q x)
    → Finds P r
    → Finds Q r
Finds-mono P Q none f h = h
Finds-mono P Q (some r) f h = f r h

abbrev pub Small : Block → Type 0
Small (a, s) = s < 2 ^ 31

pub apart-Outside : (a s : ℕ) (bs : List Block) → ApartFrom (a, s) bs → Outside a bs
apart-Outside a s bs = All-mono bs (λ b h. grind arith)

pub alloc_loop-Outcome :
    (fuel size prev curr : ℕ) (m : Mm) (bs : List Block)
    → Chain m.header curr bs
    → link m prev ≡ curr
    → Apart bs
    → Outside prev bs
    → All Small bs
    → length bs < fuel
    → Finds (λ r. Outcome m prev bs r (first_fit size bs)) (alloc_loop fuel size prev curr m)
unfolding alloc_loop
alloc_loop-Outcome zero size prev curr m bs c l ap o sm f = absurd (omega arith)
alloc_loop-Outcome (suc fuel) size prev curr m [] c l ap o sm f =
    rw c (unfold first_fit in (refl, refl))
alloc_loop-Outcome (suc fuel) size prev curr m ((a, s) ∷ bs) c l ap o sm f =
    let here : (a == 0) ≡ false = ==_ne a 0 c.1 in
    elim (Bool-cases (leb size s)) [
      | inl room ↦
          rw (c.0, here, c.2, room)
            (take_block-Outcome m prev a s size bs c.2 c.1 c.3 ap.0 o sm.0 (ground arith))
      | inr no_room ↦
          let linked : link m a ≡ (m.header a).next = rw here in
          let found =
            alloc_loop-Outcome fuel size a (m.header a).next m bs c.3 linked ap.1
              (apart-Outside a s bs ap.0) sm.1 (omega arith) in
          rw (c.0, here, c.2, no_room, first_fit-skip size a s bs no_room)
            (Finds-mono _ _ (alloc_loop fuel size a (m.header a).next m)
              (λ r.
                skip-Outcome m prev a s size bs c.2 c.1 c.3 ap.0 o sm.0 r (first_fit size bs)
                  (l ∙ c.0))
              found)
    ]
