-- ===== src/Replay/Idt/Gates.antt =====
-- Every vector below 48 leads to its stub.
use bumbellbee_testing.Base.{
  ℕ, zero, suc, ◌+◌, ◌*◌, ◌-◌, ◌^◌, ◌<◌, ◌≤◌, ◌≡◌, ◌≢◌, List, [], ◌∷◌, ◌++◌, All, get_or, length,
  ltb, Bool-cases, inl, inr, arith, refl, ==_iff, ==_ne, ◌∙◌, ap, sym,
}
use bumbellbee_testing.Replay.Idt.{Idt, IdtEntry, idt_set_descriptor, set_descriptors, idt_init}

-- The address that the processor puts together.
abbrev pub offset : IdtEntry → ℕ
offset e = e.isr_low + e.isr_mid * 2 ^ 16 + e.isr_high * 2 ^ 32

abbrev pub Address : ℕ → Type 0
Address a = a < 2 ^ 64

set_below :
    (isrs : List ℕ) (vector n : ℕ) (t : Idt)
    → n < vector
    → (set_descriptors vector isrs t).idt n ≡ t.idt n
unfolding set_descriptors idt_set_descriptor
set_below [] vector n t lt = refl
set_below (isr ∷ isrs) vector n t lt =
    let ne : n ≢ vector = omega (arith, lt) in
    set_below isrs (vector + 1) n (idt_set_descriptor vector isr 0x8E t) (omega (arith, lt))
    ∙ rw (==_ne n vector ne)

set_inside :
    (isrs : List ℕ) (vector i : ℕ) (t : Idt)
    → i < length isrs
    → All Address isrs
    → offset ((set_descriptors vector isrs t).idt (vector + i)) ≡ get_or isrs i 0
unfolding set_descriptors idt_set_descriptor
set_inside [] vector i t lt a = absurd (omega (arith, lt))
set_inside (isr ∷ isrs) vector zero t lt a =
    let kept =
      set_below isrs (vector + 1) (vector + 0) (idt_set_descriptor vector isr 0x8E t)
        (omega arith) in
    ap offset kept ∙ rw ((==_iff (vector + 0) vector).1 (omega arith)) (omega (arith, a.0))
set_inside (isr ∷ isrs) vector (suc i) t lt a =
    let e : vector + suc i ≡ (vector + 1) + i = omega arith in
    rw e (
      set_inside isrs (vector + 1) i (idt_set_descriptor vector isr 0x8E t) (omega (arith, lt)) a.1)

get_or-append_left :
    (xs ys : List ℕ) (i : ℕ) → i < length xs → get_or (xs ++ ys) i 0 ≡ get_or xs i 0
get_or-append_left [] ys i lt = absurd (omega (arith, lt))
get_or-append_left (x ∷ xs) ys zero lt = refl
get_or-append_left (x ∷ xs) ys (suc i) lt = get_or-append_left xs ys i (omega (arith, lt))

get_or-append_right :
    (xs ys : List ℕ) (i n : ℕ) → n ≡ length xs + i → get_or (xs ++ ys) n 0 ≡ get_or ys i 0
get_or-append_right [] ys i n e = let e' : n ≡ i = omega (arith, e) in rw e' refl
get_or-append_right (x ∷ xs) ys i zero e = absurd (omega (arith, e))
get_or-append_right (x ∷ xs) ys i (suc n) e = get_or-append_right xs ys i n (omega (arith, e))

-- After idt_init, with 32 exception stubs and 16 request stubs at 64-bit addresses, the gate of
-- every vector below 48 holds the address of its stub.
pub idt_init_lem :
    (table : ℕ) (isrs irqs : List ℕ) (t : Idt) (n : ℕ)
    → length isrs ≡ 32
    → length irqs ≡ 16
    → All Address isrs
    → All Address irqs
    → n < 48
    → offset ((idt_init table isrs irqs t).idt n) ≡ get_or (isrs ++ irqs) n 0
unfolding idt_init
idt_init_lem table isrs irqs t n ls lq ai aq lt =
    let t0 = record t { base = table; limit = 16 * 256 - 1 } in
    let t1 = set_descriptors 0 isrs t0 in
    elim (Bool-cases (ltb n 32)) [
      | inl low ↦
          let below : n < 32 = ground (arith, low) in
          let e : n ≡ 0 + n = omega arith in
          ap offset (set_below irqs 32 n t1 below)
          ∙ (ap (λ i. offset (t1.idt i)) e
              ∙ (set_inside isrs 0 n t0 (omega (arith, below, ls)) ai
                  ∙ sym (get_or-append_left isrs irqs n (omega (arith, below, ls)))))
      | inr high ↦
          let above : 32 ≤ n = ground (arith, high) in
          let e : n ≡ 32 + (n - 32) = omega (arith, above) in
          ap (λ i. offset ((set_descriptors 32 irqs t1).idt i)) e
          ∙ (set_inside irqs 32 (n - 32) t1 (omega (arith, above, lt, lq)) aq
              ∙ sym (get_or-append_right isrs irqs (n - 32) n (omega (arith, above, ls))))
    ]

-- Setting one gate leaves the others.
pub set_descriptor-other :
    (vector isr flags n : ℕ) (t : Idt)
    → n ≢ vector
    → (idt_set_descriptor vector isr flags t).idt n ≡ t.idt n
unfolding idt_set_descriptor
set_descriptor-other vector isr flags n t ne = rw (==_ne n vector ne) refl
