-- ===== src/Replay/Vga/Cells.antt =====
-- Where the driver writes: in the screen, and nowhere behind it.
use bumbellbee_testing.Base.{
  ℕ, zero, suc, ◌+◌, ◌*◌, ◌<◌, ◌≤◌, ◌≡◌, List, [], ◌∷◌, arith, refl, ◌∙◌, leb, ◌==◌, ==_ne,
  Bool-cases, inl, inr,
}
use bumbellbee_testing.Replay.Vga.{
  Vga, width, height, clear_row, clear_rows, vga_clear, place, wrap, restart, vga_putc, vga_print,
}

pub record OnScreen (v : Vga) : Type 0 where
  pub in_row : v.row < height
  pub in_col : v.col < width

clear_row_outside :
    (n y x : ℕ) (buffer : ℕ → ℕ) (i : ℕ) → y * 80 + x + n ≤ i → clear_row n y x buffer i ≡ buffer i
unfolding clear_row
clear_row_outside zero y x buffer i out = refl
clear_row_outside (suc n) y x buffer i out =
    clear_row_outside n y (x + 1) _ i (omega (arith, out))
    ∙ rw (==_ne i (y * 80 + x) (omega (arith, out))) refl

clear_rows_outside :
    (n y : ℕ) (buffer : ℕ → ℕ) (i : ℕ) → (y + n) * 80 ≤ i → clear_rows n y buffer i ≡ buffer i
unfolding clear_rows
clear_rows_outside zero y buffer i out = refl
clear_rows_outside (suc n) y buffer i out =
    clear_rows_outside n (y + 1) _ i (omega (arith, out))
    ∙ clear_row_outside 80 y 0 buffer i (omega (arith, out))

place-outside :
    (c i : ℕ) (v : Vga)
    → OnScreen v
    → 2000 ≤ i
    → (wrap (place c v)).terminal_buffer i ≡ v.terminal_buffer i
place-outside c i v on out = elim (Bool-cases (c == b'\n')) [
  | inl line ↦ rw line refl
  | inr char ↦ elim (Bool-cases (leb 80 (v.col + 1))) [
    | inl edge ↦
        rw (char, edge, ==_ne i (v.row * 80 + v.col) (omega (arith, out, on.in_row, on.in_col)))
          refl
    | inr inside ↦
        rw (char, inside, ==_ne i (v.row * 80 + v.col) (omega (arith, out, on.in_row, on.in_col)))
          refl
  ]
]

-- Before the restart the cursor may stand one row below the screen.
place-row :
    (c : ℕ) (v : Vga)
    → OnScreen v
    → ((wrap (place c v)).row ≤ height) × ((wrap (place c v)).col < width)
place-row c v on = ground (arith, on.in_row, on.in_col)

restart-OnScreen : (v : Vga) → v.row ≤ height → v.col < width → OnScreen (restart v)
unfolding restart vga_clear
restart-OnScreen v in_row in_col = ground (arith, in_row, in_col)

restart-outside : (i : ℕ) (v : Vga) → 2000 ≤ i → (restart v).terminal_buffer i ≡ v.terminal_buffer i
unfolding restart vga_clear
restart-outside i v out = elim (Bool-cases (leb 25 v.row)) [
  | inl full ↦ rw full (clear_rows_outside 25 0 v.terminal_buffer i (omega (arith, out)))
  | inr room ↦ rw room refl
]

-- Printing any text from a cursor on the screen leaves the cursor on the screen and writes no
-- cell behind the 2000 of the screen.
vga_print-OnScreen :
    (str : List ℕ) (i : ℕ) (v : Vga)
    → OnScreen v
    → 2000 ≤ i
    → OnScreen (vga_print str v) × ((vga_print str v).terminal_buffer i ≡ v.terminal_buffer i)
unfolding vga_print vga_putc
vga_print-OnScreen [] i v on out = (on, refl)
vga_print-OnScreen (c ∷ str) i v on out =
    let placed = place-row c v on in
    let next = restart-OnScreen (wrap (place c v)) placed.0 placed.1 in
    let rest = vga_print-OnScreen str i (vga_putc c v) next out in
    (rest.0, rest.1 ∙ (restart-outside i (wrap (place c v)) out ∙ place-outside c i v on out))
