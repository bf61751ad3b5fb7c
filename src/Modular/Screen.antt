-- ===== src/Modular/Screen.antt =====
-- modular-kernel/src/screen.c and memory.c: text in the video memory, and the block operations.
pub mod Text
pub mod Hex
pub mod Clear
use bumbellbee_testing.Base.{
  ℕ, zero, suc, ◌+◌, ◌-◌, ◌*◌, ◌/◌, ◌%◌, ◌^◌, List, [], ◌∷◌, get_or, length, update,
}
use bumbellbee_testing.Base.Text.{codes}

-- The bytes from `vidptr` on, and the cursor. Nothing bounds either.
pub record Screen : Type 0 where
  pub vidptr : ℕ → ℕ
  pub current_loc : ℕ

-- `vidptr[current_loc++] = byte`
abbrev pub put_byte : ℕ → Screen → Screen
put_byte byte s = record {
  vidptr = update s.vidptr s.current_loc byte;
  current_loc = (s.current_loc + 1) % 2 ^ 32;
}

unfoldable pub putch : ℕ → Screen → Screen
putch c s = put_byte 0x07 (put_byte c s)

unfoldable pub kprint : List ℕ → Screen → Screen
kprint [] s = s
kprint (c ∷ str) s = kprint str (put_byte 0x07 (put_byte c s))

-- `BYTES_FOR_EACH_ELEMENT * COLUMNS_IN_LINE`
abbrev pub line_size : ℕ
line_size = 160

pub kprint_newline : Screen → Screen
kprint_newline s = record s {
  current_loc = (s.current_loc + (line_size - s.current_loc % line_size)) % 2 ^ 32;
}

-- The loop of `clear_screen`, by the rounds left and the index.
unfoldable pub blank : ℕ → ℕ → (ℕ → ℕ) → ℕ → ℕ
blank zero i vidptr = vidptr
blank (suc n) i vidptr = blank n (i + 2) (update (update vidptr i b' ') (i + 1) 0x07)

-- `SCREENSIZE` is 4000 bytes; the cursor stays where it is.
unfoldable pub clear_screen : Screen → Screen
clear_screen s = record s { vidptr = blank 2000 0 s.vidptr }

abbrev pub hex_digits : List ℕ
hex_digits = codes "0123456789ABCDEF"

-- The loop of `kprint_hex`, which fills the buffer from its end, with `n & 0xF` and `n >>= 4` as
-- remainder and quotient.
pub hex_loop : ℕ → ℕ → List ℕ → List ℕ
hex_loop zero n buffer = buffer
hex_loop (suc rounds) n buffer = hex_loop rounds (n / 16) (get_or hex_digits (n % 16) 0 ∷ buffer)

pub kprint_hex : ℕ → Screen → Screen
kprint_hex n s = kprint (hex_loop 8 n []) s

-- The loops of memory.c on a memory of bytes, or of words for `memsetw`.
unfoldable pub memset : ℕ → ℕ → ℕ → (ℕ → ℕ) → ℕ → ℕ
memset ptr c zero m = m
memset ptr c (suc size) m = memset (ptr + 1) c size (update m ptr (c % 2 ^ 8))

unfoldable pub memcpy : ℕ → ℕ → ℕ → (ℕ → ℕ) → ℕ → ℕ
memcpy dest src zero m = m
memcpy dest src (suc count) m = memcpy (dest + 1) (src + 1) count (update m dest (m src))

unfoldable pub memsetw : ℕ → ℕ → ℕ → (ℕ → ℕ) → ℕ → ℕ
memsetw dest val zero m = m
memsetw dest val (suc count) m = memsetw (dest + 1) val count (update m dest val)
