-- ===== src/Base/Keymap.antt =====
-- The US scan code table that the kernels share, up to its last key.
use Prim.Native.Nat.{ℕ, zero, suc, ◌<◌}
use mathlib.Core.Path.{◌≡◌, refl}
use mathlib.Core.Bool.{Bool, true, ◌&&◌}
use mathlib.Core.List.{List, [], ◌∷◌, ◌++◌}
use native.Mathlib.Omega.{arith}
use bumbellbee_testing.Base.Tests.{ltb}
use bumbellbee_testing.Base.Lists.{replicate, get_or}
use bumbellbee_testing.Base.Text.{codes}

-- Escape and the digits, backspace, tab, the three rows of letters, and the keypad's signs.
abbrev pub us_keymap : List ℕ
us_keymap =
    (0 ∷ 27 ∷ codes "1234567890-=")
    ++ ((8 ∷ 9 ∷ codes "qwertyuiop[]")
        ++ ((10 ∷ 0 ∷ codes "asdfghjkl;'`")
            ++ ((0 ∷ codes "\\zxcvbnm,./")
                ++ ((0 ∷ b'*' ∷ 0 ∷ b' ' ∷ replicate 16 0)
                    ++ ((b'-' ∷ 0 ∷ 0 ∷ 0 ∷ b'+' ∷ []) ++ replicate 11 0)))))

all_ascii : List ℕ → Bool
all_ascii [] = true
all_ascii (x ∷ xs) = ltb x 128 && all_ascii xs

all_ascii_at : (xs : List ℕ) (i : ℕ) → all_ascii xs ≡ true → get_or xs i 0 < 128
unfolding all_ascii
all_ascii_at [] i h = omega arith
all_ascii_at (x ∷ xs) zero h = ground arith
all_ascii_at (x ∷ xs) (suc i) h = all_ascii_at xs i (ground arith)

-- Every entry is a character below 128.
pub keymap-lt : (i : ℕ) → get_or us_keymap i 0 < 128
unfolding all_ascii
keymap-lt i = all_ascii_at us_keymap i refl
