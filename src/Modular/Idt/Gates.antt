-- ===== src/Modular/Idt/Gates.antt =====
-- The table of gates once the kernel has installed every stub.
use bumbellbee_testing.Base.{
  ℕ, zero, suc, ◌+◌, ◌-◌, ◌*◌, ◌^◌, ◌<◌, ◌≡◌, ◌&&◌, true, false, ◌++◌, List, [], ◌∷◌, arith, refl,
  ◌∙◌, get_or, length, ltb, leb, ◌==◌, Bool-cases, inl, inr, if◌then◌else◌, update,
}
use bumbellbee_testing.Modular.Idt.{
  Idt, IdtEntry, gate, cleared, clear_loop, idt_set_descriptor, idt_init, install_stubs,
  isr_install, irq_install, irq_remap,
}

-- The address that the processor puts together.
abbrev pub offset : IdtEntry → ℕ
offset e = e.offset_lowerbits + e.offset_highbits * 2 ^ 16

clear_loop_at :
    (n i : ℕ) (idt : ℕ → IdtEntry) (j : ℕ)
    → clear_loop n i idt j ≡ (if leb i j && ltb j (i + n) then cleared else idt j)
unfolding clear_loop
clear_loop_at zero i idt j = ground arith
clear_loop_at (suc n) i idt j = clear_loop_at n (i + 1) (update idt i cleared) j ∙ ground arith

install_stubs_at :
    (stubs : List ℕ) (vector : ℕ) (t : Idt) (j : ℕ)
    → (install_stubs vector stubs t).idt j ≡ (
        if leb vector j && ltb j (vector + length stubs)
        then gate (get_or stubs (j - vector) 0) 0x8E
        else t.idt j)
unfolding install_stubs idt_set_descriptor
install_stubs_at [] vector t j = ground arith
install_stubs_at (stub ∷ stubs) vector t j =
    let later = install_stubs_at stubs (vector + 1) (idt_set_descriptor vector stub 0x8E t) j in
    elim (Bool-cases (j == vector)) [
      | inl same ↦
          let e : j - vector ≡ 0 = ground (arith, same) in
          later ∙ rw (same, e) (ground (arith, same))
      | inr other ↦ elim (Bool-cases (leb (vector + 1) j)) [
        | inl above ↦
            let e : j - vector ≡ suc (j - (vector + 1)) = ground (arith, above) in
            later ∙ rw (e, other) (ground (arith, above))
        | inr below ↦ later ∙ rw other (ground (arith, below, other))
      ]
    ]

-- What the kernel's start makes of the table.
abbrev pub start : ℕ → ℕ → List ℕ → List ℕ → Idt → Idt
start table idt_zero isrs irqs t = irq_install irqs (isr_install isrs (idt_init table idt_zero t))

abbrev pub expected : List ℕ → List ℕ → ℕ → IdtEntry
expected isrs irqs j =
    if ltb j 16
    then gate (get_or isrs j 0) 0x8E
    else if leb 32 j && ltb j 48
    then gate (get_or irqs (j - 32) 0) 0x8E
    else cleared

-- A gate holds a 32-bit address.
pub offset-gate : (isr flags : ℕ) → isr < 2 ^ 32 → offset (gate isr flags) ≡ isr
offset-gate isr flags h = omega (arith, h)

-- With 16 exception stubs and 16 request stubs, after idt_init, isr_install and irq_install in this
-- order, the vectors below 16 have the gates of the exception stubs, those from 32 to 47 the gates of
-- the request stubs, and every other vector below 256 an entry of zeros.
start_lem :
    (table idt_zero : ℕ) (isrs irqs : List ℕ) (t : Idt) (j : ℕ)
    → length isrs ≡ 16
    → length irqs ≡ 16
    → j < 256
    → (start table idt_zero isrs irqs t).idt j ≡ expected isrs irqs j
unfolding irq_install isr_install idt_init idt_set_descriptor
start_lem table idt_zero isrs irqs t j n16 m16 h =
    let t0 = idt_init table idt_zero t in
    let outer =
      install_stubs_at irqs 32
        (record (install_stubs 0 isrs t0) { ports = (install_stubs 0 isrs t0).ports ++ irq_remap })
        j in
    let inner = install_stubs_at isrs 0 t0 j in
    elim (Bool-cases (ltb j 16)) [
      | inl exception ↦
          let above : leb 32 j ≡ false = ground (arith, exception) in
          outer ∙ rw above (inner ∙ rw (n16, exception) (ground arith))
      | inr other ↦
          let outside : (leb 0 j && ltb j (0 + 16)) ≡ false = ground (arith, other) in
          let kept : (j == 0) ≡ false = ground (arith, other) in
          let inside : (leb 0 j && ltb j (0 + 256)) ≡ true = ground (arith, h) in
          let bare : (install_stubs 0 isrs t0).idt j ≡ cleared =
            inner ∙ rw (n16, outside, kept) (clear_loop_at 256 0 t.idt j ∙ rw inside refl) in
          outer ∙ rw (m16, bare, other) refl
    ]
