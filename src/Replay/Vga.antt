-- ===== src/Replay/Vga.antt =====
-- REPLAY-OS/kernel/vga.c: the screen, which clears when it is full.
pub mod Cells
use bumbellbee_testing.Base.{
  ℕ, zero, suc, ◌+◌, ◌*◌, ◌%◌, ◌^◌, bit_or, List, [], ◌∷◌, leb, ◌==◌, if◌then◌else◌, update,
}

abbrev pub width : ℕ
width = 80

abbrev pub height : ℕ
height = 25

-- The cells by their index, and the two statics.
pub record Vga : Type 0 where
  pub terminal_buffer : ℕ → ℕ
  pub row : ℕ
  pub col : ℕ

-- `(uint16_t)c`: a `char` is signed, so that the byte 0x80 and those above it are extended by ones.
abbrev pub widen : ℕ → ℕ
widen c = if leb 128 c then c + 0xFF00 else c

-- `(uint16_t)c | (uint16_t)0x0f << 8`
abbrev pub cell : ℕ → ℕ
cell c = bit_or (widen c) (0x0f * 2 ^ 8) % 2 ^ 16

-- The inner and the outer loop of `vga_clear`, by the rounds left and the index.
pub clear_row : ℕ → ℕ → ℕ → (ℕ → ℕ) → ℕ → ℕ
clear_row zero y x buffer = buffer
clear_row (suc n) y x buffer = clear_row n y (x + 1) (update buffer (y * width + x) (cell b' '))

unfoldable pub clear_rows : ℕ → ℕ → (ℕ → ℕ) → ℕ → ℕ
clear_rows zero y buffer = buffer
clear_rows (suc n) y buffer = clear_rows n (y + 1) (clear_row width y 0 buffer)

pub vga_clear : Vga → Vga
vga_clear v = record v { terminal_buffer = clear_rows height 0 v.terminal_buffer }

unfoldable pub vga_init : Vga → Vga
unfolding vga_clear
vga_init v = vga_clear (record v { row = 0; col = 0 })

-- The three parts of `vga_putc`.
abbrev pub place : ℕ → Vga → Vga
place c v = if c == b'\n' then record v { col = 0; row = v.row + 1 } else record v {
  terminal_buffer = update v.terminal_buffer (v.row * width + v.col) (cell c);
  col = v.col + 1;
}

abbrev pub wrap : Vga → Vga
wrap v = if leb width v.col then record v { col = 0; row = v.row + 1 } else v

pub restart : Vga → Vga
unfolding vga_clear
restart v = if leb height v.row then record (vga_clear v) { row = 0 } else v

unfoldable pub vga_putc : ℕ → Vga → Vga
vga_putc c v = restart (wrap (place c v))

pub vga_print : List ℕ → Vga → Vga
vga_print [] v = v
vga_print (c ∷ str) v = vga_print str (vga_putc c v)
