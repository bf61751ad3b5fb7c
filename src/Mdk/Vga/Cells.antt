-- ===== src/Mdk/Vga/Cells.antt =====
-- Where the driver writes: in the 2000 cells of the screen.
use bumbellbee_testing.Base.{
  ℕ, zero, suc, ◌+◌, ◌-◌, ◌*◌, ◌^◌, ◌<◌, ◌≤◌, ◌≡◌, ◌&&◌, List, [], ◌∷◌, arith, refl, ◌∙◌, ltb, leb,
  ◌==◌, ==_ne, Bool-cases, inl, inr, if◌then◌else◌, update,
}
use bumbellbee_testing.Mdk.Console.{Arg}
use bumbellbee_testing.Mdk.Vga.{
  Screen, width, height, fill, vga_init, next_row, put_cell, erase, draw, vga_putc, emit, emit_all,
  print_int, text_of, number_of, head_arg, convert, remaining, vga_serial_printf,
}

-- Behind the last column the cursor waits for the next character.
pub record OnScreen (s : Screen) : Type 0 where
  pub in_row : s.vga_row < height
  pub in_col : s.vga_col ≤ width

fill_at :
    (n i cell : ℕ) (buffer : ℕ → ℕ) (j : ℕ)
    → fill n i cell buffer j ≡ (if leb i j && ltb j (i + n) then cell else buffer j)
unfolding fill
fill_at zero i cell buffer j = ground arith
fill_at (suc n) i cell buffer j = ground (arith, fill_at n (i + 1) cell (update buffer i cell) j)

-- The cursor stays on the screen, and the cell behind it at index `i` keeps its content.
record Inside (i : ℕ) (s t : Screen) : Type 0 where
  on : OnScreen t
  kept : t.vga_buffer i ≡ s.vga_buffer i

Inside-trans : (i : ℕ) (s t u : Screen) → Inside i s t → Inside i t u → Inside i s u
Inside-trans i s t u h k = record { on = k.on; kept = k.kept ∙ h.kept }

next_row-col : (s : Screen) → (next_row s).vga_col ≡ 0
unfolding next_row vga_init
next_row-col s = ground arith

module _ (i : ℕ) (out : 2000 ≤ i) where
  next_row-Inside : (s : Screen) → OnScreen s → Inside i s (next_row s)
  unfolding next_row vga_init
  next_row-Inside s on = elim (Bool-cases (s.vga_row + 1 == 25)) [
    | inl full ↦ rw full (record {
      on = record { in_row = omega arith; in_col = omega arith };
      kept = fill_at 2000 0 _ s.vga_buffer i ∙ ground (arith, out);
    })
    | inr room ↦ rw room (record {
      on = record { in_row = ground (arith, room, on.in_row); in_col = omega arith };
      kept = refl;
    })
  ]

  put_cell-kept :
      (c : ℕ) (s : Screen)
      → s.vga_row < 25
      → s.vga_col < 80
      → (put_cell c s).vga_buffer i ≡ s.vga_buffer i
  put_cell-kept c s r k = rw (==_ne i (s.vga_row * 80 + s.vga_col) (omega (arith, out, r, k))) refl

  erase-Inside : (s : Screen) → OnScreen s → Inside i s (erase s)
  unfolding erase
  erase-Inside s on = elim (Bool-cases (ltb 0 s.vga_col)) [
    | inl right ↦
        let back : s.vga_col - 1 < 80 = ground (arith, right, on.in_col) in
        rw right (record {
          on = record { in_row = on.in_row; in_col = omega (arith, back) };
          kept = put_cell-kept b' ' (record s { vga_col = s.vga_col - 1 }) on.in_row back;
        })
    | inr left ↦
        let still : s.vga_col < 80 = ground (arith, left) in
        rw left (record {
          on = record { in_row = on.in_row; in_col = on.in_col };
          kept = put_cell-kept b' ' s on.in_row still;
        })
  ]

  draw-Inside : (c : ℕ) (s : Screen) → OnScreen s → Inside i s (draw c s)
  unfolding draw
  draw-Inside c s on = elim (Bool-cases (s.vga_col == 80)) [
    | inl full ↦
        let n = next_row-Inside s on in
        let start = next_row-col s in
        rw full (record {
          on = record { in_row = n.on.in_row; in_col = omega (arith, start) };
          kept = put_cell-kept c (next_row s) n.on.in_row (omega (arith, start)) ∙ n.kept;
        })
    | inr room ↦
        let inside : s.vga_col < 80 = ground (arith, room, on.in_col) in
        rw room (record {
          on = record { in_row = on.in_row; in_col = omega (arith, inside) };
          kept = put_cell-kept c s on.in_row inside;
        })
  ]

  vga_putc-Inside : (c : ℕ) (s : Screen) → OnScreen s → Inside i s (vga_putc c s)
  unfolding vga_putc
  vga_putc-Inside c s on = elim (Bool-cases (c == b'\n')) [
    | inl line ↦ rw line (next_row-Inside s on)
    | inr other ↦ elim (Bool-cases (c == 8)) [
      | inl back ↦ rw (other, back) (erase-Inside s on)
      | inr plain ↦ rw (other, plain) (draw-Inside c s on)
    ]
  ]

  emit-Inside : (c : ℕ) (s : Screen) → OnScreen s → Inside i s (emit c s)
  emit-Inside c s on =
      let p = vga_putc-Inside c s on in
      record { on = record { in_row = p.on.in_row; in_col = p.on.in_col }; kept = p.kept }

  emit_all-Inside : (text : List ℕ) (s : Screen) → OnScreen s → Inside i s (emit_all text s)
  unfolding emit_all
  emit_all-Inside [] s on = record { on = on; kept = refl }
  emit_all-Inside (c ∷ text) s on =
      let p = emit-Inside c s on in
      Inside-trans i s (emit c s) _ p (emit_all-Inside text (emit c s) p.on)

  print_int-Inside : (d base : ℕ) (s : Screen) → OnScreen s → Inside i s (print_int d base s)
  unfolding print_int
  print_int-Inside d base s on = elim (Bool-cases (d == 0)) [
    | inl none_left ↦ rw none_left (emit-Inside b'0' s on)
    | inr some_left ↦ elim (Bool-cases (leb (2 ^ 31) d && base == 10)) [
      | inl minus ↦
          let p = emit-Inside b'-' s on in
          rw (some_left, minus)
            (Inside-trans i s (emit b'-' s) _ p (emit_all-Inside _ (emit b'-' s) p.on))
      | inr plus ↦ rw (some_left, plus) (emit_all-Inside _ s on)
    ]
  ]

  convert-Inside : (c : ℕ) (a : Arg) (s : Screen) → OnScreen s → Inside i s (convert c a s)
  convert-Inside c a s on = elim (Bool-cases (c == b's')) [
    | inl text ↦ rw text (emit_all-Inside (text_of a) s on)
    | inr not_text ↦ elim (Bool-cases (c == b'd')) [
      | inl dec ↦ rw (not_text, dec) (print_int-Inside (number_of a) 10 s on)
      | inr not_dec ↦ elim (Bool-cases (c == b'x')) [
        | inl hex ↦ rw (not_text, not_dec, hex) (print_int-Inside (number_of a) 16 s on)
        | inr other ↦ rw (not_text, not_dec, other) (record { on = on; kept = refl })
      ]
    ]
  ]

  printf-Inside :
      (fmt : List ℕ) (args : List Arg) (s : Screen)
      → OnScreen s
      → Inside i s (vga_serial_printf fmt args s)
  unfolding vga_serial_printf
  printf-Inside [] args s on = record { on = on; kept = refl }
  printf-Inside (p ∷ []) args s on = elim (Bool-cases (p == b'%')) [
    | inl percent ↦ rw percent (record { on = on; kept = refl })
    | inr plain ↦ rw plain (emit-Inside p s on)
  ]
  printf-Inside (p ∷ (c ∷ fmt)) args s on = elim (Bool-cases (p == b'%')) [
    | inl percent ↦
        let one = convert-Inside c (head_arg args) s on in
        rw percent (
          Inside-trans i s _ _ one
            (printf-Inside fmt (remaining c args) (convert c (head_arg args) s) one.on))
    | inr plain ↦
        let one = emit-Inside p s on in
        rw plain (Inside-trans i s _ _ one (printf-Inside (c ∷ fmt) args (emit p s) one.on))
  ]

-- From a cursor on the screen, vga_serial_printf leaves the cursor on the screen and writes no cell
-- behind the 2000 of the screen, for every format and all arguments.
pub vga_serial_printf-OnScreen :
    (fmt : List ℕ) (args : List Arg) (i : ℕ) (s : Screen)
    → OnScreen s
    → 2000 ≤ i
    → OnScreen (vga_serial_printf fmt args s)
      × ((vga_serial_printf fmt args s).vga_buffer i ≡ s.vga_buffer i)
vga_serial_printf-OnScreen fmt args i s on out =
    let p = printf-Inside i out fmt args s on in (p.on, p.kept)
