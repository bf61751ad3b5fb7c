-- ===== src/Base/Text.antt =====
-- Texts of the sources as lists of character codes.
use Prim.Native.Nat.{ℕ, ◌+◌, ◌-◌, ◌%◌, ◌^◌, ◌<◌}
use Prim.Native.Char.{code}
use Prim.Native.String.{String}
use mathlib.Core.List.{List, [], ◌∷◌}
use mathlib.Core.Bool.{Bool, true, false, ◌&&◌}
use mathlib.Core.Logic.{◌≢◌}
use bumbellbee_testing.Base.Tests.{◌==◌, if◌then◌else◌}

-- The bytes of an ASCII literal, without its terminating zero.
abbrev pub codes : String → List ℕ
codes String.[] = []
codes (String.◌∷◌ c s) = code c ∷ codes s

-- The byte that a pointer reads at the head of a buffer: a text literal ends in a zero.
abbrev pub first : List ℕ → ℕ
first [] = 0
first (x ∷ xs) = x

abbrev pub rest : List ℕ → List ℕ
rest [] = []
rest (x ∷ xs) = xs

-- The difference of two unsigned chars, as a 32-bit int.
abbrev pub char_difference : ℕ → ℕ → ℕ
char_difference a b = (a + 2 ^ 32 - b) % 2 ^ 32

-- The text that a loop to the terminator reads from a buffer: up to the first zero.
unfoldable pub c_string : List ℕ → List ℕ
c_string [] = []
c_string (x ∷ xs) = if x == 0 then [] else x ∷ c_string xs

-- Equality of words.
abbrev pub same_word : List ℕ → List ℕ → Bool
same_word [] [] = true
same_word [] (y ∷ ys) = false
same_word (x ∷ xs) [] = false
same_word (x ∷ xs) (y ∷ ys) = x == y && same_word xs ys

abbrev pub Byte : ℕ → Type 0
Byte x = x < 256

-- A character of a literal: a byte, and not the terminating zero.
abbrev pub Letter : ℕ → Type 0
Letter x = (x ≢ 0) × (x < 256)
