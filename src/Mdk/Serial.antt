-- ===== src/Mdk/Serial.antt =====
-- MDK/kernel/core/serial.c: the serial line, and the formats that go to it alone.
use bumbellbee_testing.Base.{
  ℕ, zero, suc, ◌+◌, ◌-◌, ◌/◌, ◌%◌, ◌^◌, Bool, List, [], ◌∷◌, leb, ◌==◌, if◌then◌else◌, ◌<◌, ◌≡◌,
  refl, Option, some,
}
use mathlib.Core.Option
use bumbellbee_testing.Base.Bytes.{test_bit}
use bumbellbee_testing.Base.Ports.{PortWrite, outb}
use bumbellbee_testing.Base.Uart.{poll, ready, poll_lem}
use bumbellbee_testing.Mdk.Console.{Arg, Call}
use bumbellbee_testing.Mdk.Vga.{
  Screen, digit, text_of, number_of, head_arg, remaining, serial_putc, serial_print, vga_init,
  vga_set_color, vga_putc, vga_print, vga_serial_printf, vga_serial_println, vga_serial_print,
}

unfoldable pub serial_init : List PortWrite
serial_init =
    outb 0x3f9 0
    ∷ outb 0x3fb 0x80
    ∷ outb 0x3f8 3
    ∷ outb 0x3f9 0
    ∷ outb 0x3fb 3
    ∷ outb 0x3fa 0xC7
    ∷ outb 0x3fc 0x0B
    ∷ []

-- With the byte that the line status port gives.
unfoldable pub serial_received : ℕ → Bool
serial_received status = test_bit status 0

unfoldable pub is_transmit_empty : ℕ → Bool
is_transmit_empty status = test_bit status 5

-- With the statuses to come and the byte that the data port gives; `none` where no status to come
-- tells of a byte, and the loop goes on.
serial_getc : List ℕ → ℕ → Option (ℕ × List ℕ)
serial_getc status data_byte = Option.map (λ later. (data_byte, later)) (poll 0 status)

-- Where a status to come tells of a byte, serial_getc returns it, and it has read the statuses up to
-- the first such one.
serial_getc_lem :
    (status : List ℕ) (data_byte : ℕ)
    → 0 < ready 0 status
    → (later : List ℕ) × ((serial_getc status data_byte ≡ some (data_byte, later))
        × (ready 0 later + 1 ≡ ready 0 status))
unfolding serial_getc
serial_getc_lem status data_byte h =
    let (later, e, n) = poll_lem 0 status h in (later, (rw e refl, n))

-- The first loop of `%d`, by fuel, while the signed number is positive: `buf` as a stack.
unfoldable pub decimal_loop : ℕ → ℕ → List ℕ → List ℕ
decimal_loop zero d buf = buf
decimal_loop (suc fuel) d buf =
    let rest = decimal_loop fuel (d / 10) ((d % 10 + b'0') ∷ buf) in
    if d == 0 then buf else if leb (2 ^ 31) d then buf else rest

-- `%d` with the pattern of an int; a positive one has at most 10 digits, the size of `buf`.
unfoldable pub print_decimal : ℕ → Screen → Screen
print_decimal d s =
    if d == 0
    then serial_putc b'0' s
    else if leb (2 ^ 31) d
    then serial_print (decimal_loop 10 ((2 ^ 32 - d) % 2 ^ 32) []) (serial_putc b'-' s)
    else serial_print (decimal_loop 10 d []) s

-- `%x`, with `x & 0xF` and `x >>= 4` as remainder and quotient; 32 bits have at most 8 nibbles.
unfoldable pub nibble_loop : ℕ → ℕ → List ℕ → List ℕ
nibble_loop zero x buf = buf
nibble_loop (suc fuel) x buf =
    let rest = nibble_loop fuel (x / 16) (digit (x % 16) ∷ buf) in if x == 0 then buf else rest

unfoldable pub print_hex : ℕ → Screen → Screen
print_hex x s = if x == 0 then serial_putc b'0' s else serial_print (nibble_loop 8 x []) s

abbrev pub convert : ℕ → Arg → Screen → Screen
convert c a s =
    if c == b's'
    then serial_print (text_of a) s
    else if c == b'd'
    then print_decimal (number_of a) s
    else if c == b'x'
    then print_hex (number_of a) s
    else s

-- The loop of `serial_vprintf`.
unfoldable pub serial_printf : List ℕ → List Arg → Screen → Screen
serial_printf [] args s = s
serial_printf (p ∷ []) args s = if p == b'%' then s else serial_putc p s
serial_printf (p ∷ (c ∷ fmt)) args s =
    let plain = serial_printf (c ∷ fmt) args (serial_putc p s) in
    let converted = serial_printf fmt (remaining c args) (convert c (head_arg args) s) in
    if p == b'%' then converted else plain

-- The calls that the other components log, on the devices.
unfoldable pub perform : Call → Screen → Screen
perform (Call.vga_serial_printf fmt args) s = vga_serial_printf fmt args s
perform (Call.vga_serial_println text) s = vga_serial_println text s
perform (Call.vga_serial_print text) s = vga_serial_print text s
perform (Call.serial_printf fmt args) s = serial_printf fmt args s
perform (Call.serial_print text) s = serial_print text s
perform (Call.vga_print text) s = vga_print text s
perform (Call.vga_putc c) s = vga_putc c s
perform (Call.serial_putc c) s = serial_putc c s
perform Call.vga_init s = vga_init s
perform (Call.vga_set_color fg bg) s = vga_set_color fg bg s
