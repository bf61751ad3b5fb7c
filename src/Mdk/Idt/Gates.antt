-- ===== src/Mdk/Idt/Gates.antt =====
-- The table behind `idt_init`.
use bumbellbee_testing.Base.{
  ℕ, zero, suc, ◌+◌, ◌-◌, ◌*◌, ◌^◌, ◌<◌, ◌≡◌, ◌≢◌, ◌&&◌, true, arith, refl, ◌∙◌, ltb, leb, ==_ne,
  if◌then◌else◌,
}
use bumbellbee_testing.Mdk.Idt.{Idt, IdtEntry, idt_set_gate, clear_gates, idt_init}

-- The address that the processor puts together.
abbrev pub offset : IdtEntry → ℕ
offset e = e.offset_low + e.offset_high * 2 ^ 16

abbrev pub empty : IdtEntry
empty = record { offset_low = 0; offset_high = 0; selector = 0; zero_byte = 0; type_attr = 0 }

clear_gates_at :
    (n i : ℕ) (t : Idt) (j : ℕ)
    → (clear_gates n i t).idt j ≡ (if leb i j && ltb j (i + n) then empty else t.idt j)
unfolding clear_gates idt_set_gate
clear_gates_at zero i t j = ground arith
clear_gates_at (suc n) i t j = clear_gates_at n (i + 1) (idt_set_gate i 0 0 0 t) j ∙ ground arith

-- After idt_init, with 32-bit addresses, the vectors 32 and 33 lead to the stubs of the timer and the
-- keyboard, and every other vector below 256 has an entry of zeros.
pub idt_init_lem :
    (table irq0 irq1 : ℕ) (t : Idt)
    → irq0 < 2 ^ 32
    → irq1 < 2 ^ 32
    → let u = idt_init table irq0 irq1 t in
      (offset (u.idt 32) ≡ irq0)
      × (offset (u.idt 33) ≡ irq1)
      × ((j : ℕ) → j < 256 → j ≢ 32 → j ≢ 33 → u.idt j ≡ empty)
unfolding idt_init idt_set_gate
idt_init_lem table irq0 irq1 t a b = (
  omega (arith, a),
  omega (arith, b),
  λ j lt not_timer not_key.
      let inside : (leb 0 j && ltb j (0 + 256)) ≡ true = ground (arith, lt) in
      rw (==_ne j 33 not_key, ==_ne j 32 not_timer)
        (clear_gates_at 256 0 (record t { limit = 8 * 256 - 1; base = table }) j ∙ rw inside refl),
)
