-- ===== src/Tutorial/Extended/Start.antt =====
-- What the start of the extended kernel leaves behind.
use bumbellbee_testing.Base.{
  ℕ, zero, suc, ◌+◌, ◌^◌, ◌<◌, ◌≡◌, ◌≢◌, ◌&&◌, not, true, arith, refl, ap, ◌∙◌, ltb, leb, ◌==◌,
  ==_ne, ==_refl, Bool-cases, inl, inr, if◌then◌else◌, update,
}
use bumbellbee_testing.Tutorial.Basic.{IdtEntry, gate, remap_pic}
use bumbellbee_testing.Tutorial.Basic.Start.{offset, offset-gate}
use bumbellbee_testing.Tutorial.Extended.{Machine, empty_entry, clear_others, idt_init}

clear_others_at :
    (n i : ℕ) (idt : ℕ → IdtEntry) (j : ℕ)
    → clear_others n i idt j ≡ (
        if (leb i j && ltb j (i + n)) && (not (j == 0x21) && not (j == 0x0E))
        then empty_entry
        else idt j)
unfolding clear_others
clear_others_at zero i idt j = ground arith
clear_others_at (suc n) i idt j =
    let later =
      clear_others_at n (i + 1)
        (if not (i == 0x21) && not (i == 0x0E) then update idt i empty_entry else idt) j in
    elim (Bool-cases (j == i)) [
      | inl same ↦
          let e : i ≡ j = ground (arith, same) in
          later
          ∙ (rw e (elim (Bool-cases (not (j == 0x21) && not (j == 0x0E))) [
            | inl cleared ↦ rw (cleared, ==_refl j) (ground (arith, cleared))
            | inr kept ↦ rw kept (ground (arith, kept))
          ]))
      | inr other ↦ later ∙ elim (Bool-cases (not (i == 0x21) && not (i == 0x0E))) [
        | inl cleared ↦ rw (cleared, other) (ground (arith, other))
        | inr kept ↦ rw kept (ground (arith, other))
      ]
    ]

-- After idt_init, with 32-bit addresses, the vectors 33 and 14 lead to the keyboard's stub and to the
-- page fault's, and every other vector below 256 has an entry of zeros.
pub idt_init_lem :
    (table keyboard_handler page_fault_handler : ℕ) (m : Machine)
    → keyboard_handler < 2 ^ 32
    → page_fault_handler < 2 ^ 32
    → let idt = (idt_init table keyboard_handler page_fault_handler m).kernel.idt in
      (offset (idt 0x21) ≡ keyboard_handler)
      × (offset (idt 0x0E) ≡ page_fault_handler)
      × ((j : ℕ) → j < 256 → j ≢ 0x21 → j ≢ 0x0E → idt j ≡ empty_entry)
unfolding idt_init remap_pic
idt_init_lem table keyboard_handler page_fault_handler m k p =
    let idt =
      update (update m.kernel.idt 0x21 (gate keyboard_handler)) 0x0E (gate page_fault_handler) in
    (
      ap offset (clear_others_at 256 0 idt 0x21) ∙ offset-gate keyboard_handler k,
      ap offset (clear_others_at 256 0 idt 0x0E) ∙ offset-gate page_fault_handler p,
      λ j lt not_key not_fault.
          let inside : (leb 0 j && ltb j (0 + 256)) ≡ true = ground (arith, lt) in
          clear_others_at 256 0 idt j
          ∙ rw (==_ne j 0x21 not_key, ==_ne j 0x0E not_fault, inside) refl,
    )
