-- ===== src/Research/Shell/Words.antt =====
-- What `strcmp` decides about a buffer and a literal.
use bumbellbee_testing.Base.{ℕ, ◌≡◌, true, List, [], ◌∷◌, All, arith, ◌==◌, refl}
use bumbellbee_testing.Base.Text.{c_string, same_word, Byte, Letter}
use bumbellbee_testing.Research.Shell.{strcmp}

-- For a buffer of bytes and a literal of nonzero bytes, strcmp is 0 exactly if the text of the
-- buffer up to its first zero is the literal.
pub strcmp_lem :
    (s t : List ℕ) → All Byte s → All Letter t → (strcmp s t == 0) ≡ same_word (c_string s) t
unfolding strcmp c_string
strcmp_lem [] [] b l = refl
strcmp_lem [] (y ∷ t) b l = ground arith
strcmp_lem (x ∷ s) [] b l = ground arith
strcmp_lem (x ∷ s) (y ∷ t) b l = ground (arith, strcmp_lem s t b.1 l.1)

pub same_word→≡ : (s t : List ℕ) → same_word s t ≡ true → s ≡ t
same_word→≡ [] [] h = refl
same_word→≡ [] (y ∷ t) h = cc
same_word→≡ (x ∷ s) [] h = cc
same_word→≡ (x ∷ s) (y ∷ t) h = ground (arith, same_word→≡ s t)
