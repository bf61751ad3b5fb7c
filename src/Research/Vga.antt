-- ===== src/Research/Vga.antt =====
-- RESEARCH-OS/src/drivers/vga.c and serial.c: the text screen, copied to the serial port.
pub mod Cursor
use bumbellbee_testing.Base.{
  ℕ, zero, suc, ◌+◌, ◌-◌, ◌*◌, ◌%◌, ◌^◌, List, [], ◌∷◌, bit_or, leb, ◌==◌, if◌then◌else◌, update,
}
use bumbellbee_testing.Research.Core.{Call, vga_print, vga_putc, vga_set_color, vga_clear, vga_init}

abbrev pub width : ℕ
width = 80

abbrev pub height : ℕ
height = 25

-- `vga_buffer` holds the cells from 0xb8000 on; `serial` logs what `write_serial` sent, the last
-- byte first.
pub record Vga : Type 0 where
  pub vga_buffer : ℕ → ℕ
  pub cursor_x : ℕ
  pub cursor_y : ℕ
  pub current_color : ℕ
  pub serial : List ℕ

-- `(uint16_t)uc | (uint16_t)color << 8`
pub vga_entry : ℕ → ℕ → ℕ
vga_entry uc color = bit_or uc (color * 2 ^ 8) % 2 ^ 16

pub set_color : ℕ → ℕ → Vga → Vga
set_color fg bg v = record v { current_color = bit_or fg (bg * 2 ^ 4) % 2 ^ 8 }

-- One row of cells from column `x` on, by the rounds left.
fill_row : ℕ → ℕ → ℕ → ℕ → (ℕ → ℕ) → ℕ → ℕ
fill_row zero y x cell buffer = buffer
fill_row (suc n) y x cell buffer = fill_row n y (x + 1) cell (update buffer (y * width + x) cell)

clear_rows : ℕ → ℕ → ℕ → (ℕ → ℕ) → ℕ → ℕ
clear_rows zero y cell buffer = buffer
clear_rows (suc n) y cell buffer = clear_rows n (y + 1) cell (fill_row width y 0 cell buffer)

pub clear : Vga → Vga
unfolding vga_entry fill_row clear_rows
clear v = record v {
  vga_buffer = clear_rows height 0 (vga_entry b' ' v.current_color) v.vga_buffer;
}

pub init : Vga → Vga
init v = clear (record v { cursor_x = 0; cursor_y = 0 })

-- Row `y` is copied to the row above.
copy_row : ℕ → ℕ → ℕ → (ℕ → ℕ) → ℕ → ℕ
copy_row zero y x buffer = buffer
copy_row (suc n) y x buffer =
    copy_row n y (x + 1) (update buffer ((y - 1) * width + x) (buffer (y * width + x)))

move_rows : ℕ → ℕ → (ℕ → ℕ) → ℕ → ℕ
move_rows zero y buffer = buffer
move_rows (suc n) y buffer = move_rows n (y + 1) (copy_row width y 0 buffer)

pub scroll : Vga → Vga
unfolding copy_row move_rows fill_row
scroll v =
    if leb height v.cursor_y
    then record v {
      vga_buffer =
          fill_row width (height - 1) 0 (vga_entry b' ' v.current_color)
            (move_rows (height - 1) 1 v.vga_buffer);
      cursor_y = height - 1;
    }
    else v

-- The cell under the cursor is written and the cursor moves on; `vga_cursor_y` is eight bits wide.
abbrev pub advance : ℕ → Vga → Vga
advance c v =
    let v = record v {
      vga_buffer =
          update v.vga_buffer (v.cursor_y * width + v.cursor_x) (vga_entry c v.current_color);
      cursor_x = (v.cursor_x + 1) % 2 ^ 8;
    } in
    if leb width v.cursor_x
    then record v { cursor_x = 0; cursor_y = (v.cursor_y + 1) % 2 ^ 8 }
    else v

pub move : ℕ → Vga → Vga
move c v =
    if c == b'\n'
    then record v { cursor_x = 0; cursor_y = (v.cursor_y + 1) % 2 ^ 8 }
    else if c == b'\r'
    then record v { cursor_x = 0 }
    else advance c v

pub putc : ℕ → Vga → Vga
putc c v = let v = scroll (move c v) in record v { serial = c ∷ v.serial }

pub print : List ℕ → Vga → Vga
print [] v = v
print (c ∷ text) v = print text (putc c v)

-- The driver performs the calls that the other components log.
pub perform : Call → Vga → Vga
perform (vga_print text) v = print text v
perform (vga_putc c) v = putc c v
perform (vga_set_color fg bg) v = set_color fg bg v
perform vga_clear v = clear v
perform vga_init v = init v
