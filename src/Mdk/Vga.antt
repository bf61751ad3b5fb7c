-- ===== src/Mdk/Vga.antt =====
-- MDK/drivers/vga/vga.c: the screen, and the printing that goes to the screen and the serial line.
pub mod Cells
pub mod Digits
use bumbellbee_testing.Base.{
  ℕ, zero, suc, ◌+◌, ◌-◌, ◌*◌, ◌/◌, ◌%◌, ◌^◌, bit_or, Bool, true, false, ◌&&◌, List, [], ◌∷◌, ltb,
  leb, ◌==◌, if◌then◌else◌, update,
}
use bumbellbee_testing.Base.Text.{c_string}
use bumbellbee_testing.Mdk.Console.{Arg, str, int}

-- VGA_WIDTH and VGA_HEIGHT
abbrev pub width : ℕ
width = 80

abbrev pub height : ℕ
height = 25

-- The cells and the statics; `serial` logs the bytes sent on the serial line, the last one first.
pub record Screen : Type 0 where
  pub vga_buffer : ℕ → ℕ
  pub vga_row : ℕ
  pub vga_col : ℕ
  pub vga_color : ℕ
  pub serial : List ℕ

-- `(uint16_t)c` of the pattern of a signed char.
abbrev pub widen : ℕ → ℕ
widen c = if leb 128 c then c + 0xFF00 else c

-- `(uint16_t)c | (uint16_t)vga_color << 8`
abbrev pub entry : ℕ → Screen → ℕ
entry c s = bit_or (widen c) (s.vga_color * 2 ^ 8) % 2 ^ 16

-- The loop of `vga_init`, by the rounds left and the index.
pub fill : ℕ → ℕ → ℕ → (ℕ → ℕ) → ℕ → ℕ
fill zero i cell buffer = buffer
fill (suc n) i cell buffer = fill n (i + 1) cell (update buffer i cell)

pub vga_init : Screen → Screen
vga_init s = record s {
  vga_row = 0;
  vga_col = 0;
  vga_buffer = fill (width * height) 0 (entry b' ' s) s.vga_buffer;
}

unfoldable pub vga_set_color : ℕ → ℕ → Screen → Screen
vga_set_color fg bg s = record s { vga_color = bit_or fg (bg * 2 ^ 4) % 2 ^ 8 }

-- `vga_col = 0; if (++vga_row == VGA_HEIGHT) vga_init();`
pub next_row : Screen → Screen
next_row s =
    let s = record s { vga_col = 0; vga_row = s.vga_row + 1 } in
    if s.vga_row == height then vga_init s else s

abbrev pub put_cell : ℕ → Screen → Screen
put_cell c s = record s {
  vga_buffer = update s.vga_buffer (s.vga_row * width + s.vga_col) (entry c s);
}

-- The backspace branch.
pub erase : Screen → Screen
erase s = put_cell b' ' (if ltb 0 s.vga_col then record s { vga_col = s.vga_col - 1 } else s)

-- A character that is drawn, behind the test for a full row.
pub draw : ℕ → Screen → Screen
draw c s =
    let s = if s.vga_col == width then next_row s else s in
    record (put_cell c s) { vga_col = s.vga_col + 1 }

unfoldable pub vga_putc : ℕ → Screen → Screen
vga_putc c s = if c == b'\n' then next_row s else if c == 8 then erase s else draw c s

unfoldable pub vga_print : List ℕ → Screen → Screen
vga_print [] s = s
vga_print (c ∷ text) s = vga_print text (vga_putc c s)

unfoldable pub vga_println : List ℕ → Screen → Screen
vga_println text s = vga_putc b'\n' (vga_print text s)

-- `serial_putc` and `serial_print` of MDK/kernel/core/serial.c, once the line takes a byte.
abbrev pub serial_putc : ℕ → Screen → Screen
serial_putc c s = record s { serial = c ∷ s.serial }

unfoldable pub serial_print : List ℕ → Screen → Screen
serial_print [] s = s
serial_print (c ∷ text) s = serial_print text (serial_putc c s)

-- `vga_putc(c); serial_putc(c);`
abbrev pub emit : ℕ → Screen → Screen
emit c s = serial_putc c (vga_putc c s)

pub emit_all : List ℕ → Screen → Screen
emit_all [] s = s
emit_all (c ∷ text) s = emit_all text (emit c s)

-- `(r < 10) ? (r + '0') : (r - 10 + 'a')`
abbrev pub digit : ℕ → ℕ
digit r = if ltb r 10 then r + b'0' else r - 10 + b'a'

-- The first loop of `print_int`, by fuel: `buf` as a stack, its top the last digit stored.
unfoldable pub digits_loop : ℕ → ℕ → ℕ → List ℕ → List ℕ
digits_loop zero base ud buf = buf
digits_loop (suc fuel) base ud buf =
    let rest = digits_loop fuel base (ud / base) (digit (ud % base) ∷ buf) in
    if ud == 0 then buf else rest

-- `d` is the pattern of a 32-bit int, negative from 2 ^ 31 on. A number of 32 bits has at most 32
-- digits, the size of `buf`.
pub print_int : ℕ → ℕ → Screen → Screen
print_int d base s =
    if d == 0
    then emit b'0' s
    else if leb (2 ^ 31) d && base == 10
    then emit_all (digits_loop 32 base ((2 ^ 32 - d) % 2 ^ 32) []) (emit b'-' s)
    else emit_all (digits_loop 32 base d []) s

-- The argument that `va_arg` gives to a conversion; the kernel's formats never lack one.
abbrev pub text_of : Arg → List ℕ
text_of (str text) = text
text_of (int d) = []

abbrev pub number_of : Arg → ℕ
number_of (str text) = 0
number_of (int d) = d

abbrev pub head_arg : List Arg → Arg
head_arg [] = int 0
head_arg (a ∷ args) = a

abbrev pub tail_args : List Arg → List Arg
tail_args [] = []
tail_args (a ∷ args) = args

-- What the character behind a percent sign does.
abbrev pub convert : ℕ → Arg → Screen → Screen
convert c a s =
    if c == b's'
    then emit_all (text_of a) s
    else if c == b'd'
    then print_int (number_of a) 10 s
    else if c == b'x'
    then print_int (number_of a) 16 s
    else s

-- Only the three conversions take an argument.
abbrev pub remaining : ℕ → List Arg → List Arg
remaining c args =
    if c == b's'
    then tail_args args
    else if c == b'd'
    then tail_args args
    else if c == b'x'
    then tail_args args
    else args

-- The loop of `vga_serial_printf`; no format ends in a percent sign.
pub vga_serial_printf : List ℕ → List Arg → Screen → Screen
vga_serial_printf [] args s = s
vga_serial_printf (p ∷ []) args s = if p == b'%' then s else emit p s
vga_serial_printf (p ∷ (c ∷ fmt)) args s =
    let plain = vga_serial_printf (c ∷ fmt) args (emit p s) in
    let converted = vga_serial_printf fmt (remaining c args) (convert c (head_arg args) s) in
    if p == b'%' then converted else plain

unfoldable pub vga_serial_println : List ℕ → Screen → Screen
vga_serial_println text s =
    serial_putc b'\n' (serial_print text (vga_putc b'\n' (vga_print text s)))

unfoldable pub vga_serial_print : List ℕ → Screen → Screen
vga_serial_print text s = serial_print text (vga_print text s)
