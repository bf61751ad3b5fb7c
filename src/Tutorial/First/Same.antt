-- ===== src/Tutorial/First/Same.antt =====
-- The loops of the first kernel against the functions of the later ones.
use bumbellbee_testing.Base.{
  ℕ, zero, suc, ◌+◌, ◌*◌, ◌%◌, ◌^◌, ◌<◌, ◌≡◌, List, [], ◌∷◌, arith, refl, ap, ◌∙◌, length, update,
}
use bumbellbee_testing.Base.Text.{codes}
use bumbellbee_testing.Modular.Screen.{Screen, put_byte, kprint, blank, clear_screen}
use bumbellbee_testing.Tutorial.First.{clear_loop, text_loop, kmain}

clear_loop-blank : (n j : ℕ) (vidptr : ℕ → ℕ) → clear_loop n j vidptr ≡ blank n j vidptr
unfolding clear_loop blank
clear_loop-blank zero j vidptr = refl
clear_loop-blank (suc n) j vidptr = clear_loop-blank n (j + 2) _

text_loop-kprint :
    (str : List ℕ) (s : Screen)
    → s.current_loc + 2 * length str < 2 ^ 32
    → text_loop str s.current_loc s.vidptr ≡ (kprint str s).vidptr
unfolding text_loop kprint
text_loop-kprint [] s h = refl
text_loop-kprint (c ∷ str) s h =
    let first : (s.current_loc + 1) % 2 ^ 32 ≡ s.current_loc + 1 = omega (arith, h) in
    let second : ((s.current_loc + 1) % 2 ^ 32 + 1) % 2 ^ 32 ≡ s.current_loc + 2 =
      omega (arith, h) in
    let plain : Screen = record {
      vidptr = update (update s.vidptr s.current_loc c) (s.current_loc + 1) 0x07;
      current_loc = s.current_loc + 2;
    } in
    let same : plain ≡ put_byte 0x07 (put_byte c s) = rw (second, first) refl in
    text_loop-kprint str plain (omega (arith, h)) ∙ ap (λ u. (kprint str u).vidptr) same

-- From any video memory, kmain leaves what the later kernels' kprint leaves on their cleared screen.
kmain-kprint :
    (vidptr : ℕ → ℕ)
    → kmain vidptr
      ≡ (kprint
          (codes "First step of my Bumbellbee kernel")
          (clear_screen (record { vidptr = vidptr; current_loc = 0 }))).vidptr
unfolding kmain clear_screen
kmain-kprint vidptr =
    ap (text_loop (codes "First step of my Bumbellbee kernel") 0) (clear_loop-blank 2000 0 vidptr)
    ∙ text_loop-kprint (codes "First step of my Bumbellbee kernel")
        (clear_screen (record { vidptr = vidptr; current_loc = 0 })) (omega arith)
