-- ===== src/Tutorial/First.antt =====
-- Kernel101-implementation/kernel.c: a cleared screen and one text.
pub mod Same
use bumbellbee_testing.Base.{ℕ, zero, suc, ◌+◌, List, [], ◌∷◌, update}
use bumbellbee_testing.Base.Text.{codes}

-- The first loop, by the rounds left and the index.
unfoldable pub clear_loop : ℕ → ℕ → (ℕ → ℕ) → ℕ → ℕ
clear_loop zero j vidptr = vidptr
clear_loop (suc n) j vidptr = clear_loop n (j + 2) (update (update vidptr j b' ') (j + 1) 0x07)

-- The second loop, on the rest of the text and with the index in the video memory.
pub text_loop : List ℕ → ℕ → (ℕ → ℕ) → ℕ → ℕ
text_loop [] i vidptr = vidptr
text_loop (c ∷ str) i vidptr = text_loop str (i + 2) (update (update vidptr i c) (i + 1) 0x07)

unfoldable pub kmain : (ℕ → ℕ) → ℕ → ℕ
kmain vidptr = text_loop (codes "First step of my Bumbellbee kernel") 0 (clear_loop 2000 0 vidptr)
