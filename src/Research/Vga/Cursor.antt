-- ===== src/Research/Vga/Cursor.antt =====
-- The cursor never leaves the screen.
use bumbellbee_testing.Base.{
  ℕ, zero, suc, ◌+◌, ◌*◌, ◌<◌, ◌≤◌, ◌≡◌, arith, List, [], ◌∷◌, leb, ltb, if◌then◌else◌, update,
  ◌&&◌,
}
use bumbellbee_testing.Research.Core.{Call, vga_print, vga_putc, vga_set_color, vga_clear, vga_init}
use bumbellbee_testing.Research.Vga.{
  Vga, width, height, set_color, fill_row, clear, init, scroll, move, putc, print, perform,
}

pub record OnScreen (v : Vga) : Type 0 where
  pub column : v.cursor_x < width
  pub row : v.cursor_y < height

-- Behind a move the cursor may stand one row below the screen, never further.
move-row :
    (c : ℕ) (v : Vga) → OnScreen v → ((move c v).cursor_x < width) × ((move c v).cursor_y ≤ height)
unfolding move
move-row c v s = ground arith

scroll-OnScreen : (v : Vga) → v.cursor_x < width → v.cursor_y ≤ height → OnScreen (scroll v)
unfolding scroll
scroll-OnScreen v x y = ground arith

-- `vga_putc` keeps the cursor on the screen, and so it writes only cells of the screen.
putc-OnScreen : (c : ℕ) (v : Vga) → OnScreen v → OnScreen (putc c v)
unfolding putc
putc-OnScreen c v s =
    let m = move-row c v s in
    let t = scroll-OnScreen (move c v) m.0 m.1 in record { column = t.column; row = t.row }

print-OnScreen : (text : List ℕ) (v : Vga) → OnScreen v → OnScreen (print text v)
unfolding print
print-OnScreen [] v s = s
print-OnScreen (c ∷ text) v s = print-OnScreen text (putc c v) (putc-OnScreen c v s)

-- Every call of the screen driver keeps the cursor on the screen.
perform-OnScreen : (o : Call) (v : Vga) → OnScreen v → OnScreen (perform o v)
unfolding perform init clear set_color
perform-OnScreen (vga_print text) v s = print-OnScreen text v s
perform-OnScreen (vga_putc c) v s = putc-OnScreen c v s
perform-OnScreen (vga_set_color fg bg) v s = record { column = s.column; row = s.row }
perform-OnScreen vga_clear v s = record { column = s.column; row = s.row }
perform-OnScreen vga_init v s = record { column = omega arith; row = omega arith }

-- The copy loops, cell by cell.
fill_row_at :
    (n y x cell : ℕ) (b : ℕ → ℕ) (i : ℕ)
    → fill_row n y x cell b i ≡ (if leb (y * 80 + x) i && ltb i (y * 80 + x + n) then cell else b i)
unfolding fill_row
fill_row_at zero y x cell b i = ground arith
fill_row_at (suc n) y x cell b i =
    ground (arith, fill_row_at n y (x + 1) cell (update b (y * 80 + x) cell) i)
