-- ===== src/Mdk/Ramfs/Copy.antt =====
-- Strings in memory: what the copy loop writes, and what the reading loops find.
use bumbellbee_testing.Base.{
  ℕ, zero, suc, ◌+◌, ◌<◌, ◌≤◌, ◌≡◌, false, List, [], ◌∷◌, All, arith, refl, ap, ◌∙◌, length, ◌==◌,
  ==_ne, ==_refl, update,
}
use bumbellbee_testing.Base.Text.{Letter, same_word}
use bumbellbee_testing.Mdk.Ramfs.{str_copy, str_len, string_at, str_cmp}

-- A terminated string stands at an address.
abbrev pub Holds : (ℕ → ℕ) → ℕ → List ℕ → Type 0
Holds files s [] = files s ≡ 0
Holds files s (c ∷ text) = (files s ≡ c) × Holds files (s + 1) text

-- Memories that agree on the string.
pub Holds-same :
    (f g : ℕ → ℕ) (s : ℕ) (text : List ℕ)
    → ((j : ℕ) → s ≤ j → j ≤ s + length text → g j ≡ f j)
    → Holds f s text
    → Holds g s text
Holds-same f g s [] same h = same s (omega arith) (omega arith) ∙ h
Holds-same f g s (c ∷ text) same h = (
  same s (omega arith) (omega arith) ∙ h.0,
  Holds-same f g (s + 1) text (λ j lo hi. same j (omega (arith, lo)) (omega (arith, hi))) h.1,
)

pub str_copy-before :
    (dst : ℕ) (src : List ℕ) (files : ℕ → ℕ) (j : ℕ) → j < dst → str_copy dst src files j ≡ files j
unfolding str_copy
str_copy-before dst [] files j lt = rw (==_ne j dst (omega (arith, lt))) refl
str_copy-before dst (c ∷ src) files j lt =
    str_copy-before (dst + 1) src _ j (omega (arith, lt))
    ∙ rw (==_ne j dst (omega (arith, lt))) refl

str_copy-behind :
    (dst : ℕ) (src : List ℕ) (files : ℕ → ℕ) (j : ℕ)
    → dst + length src < j
    → str_copy dst src files j ≡ files j
unfolding str_copy
str_copy-behind dst [] files j lt = rw (==_ne j dst (omega (arith, lt))) refl
str_copy-behind dst (c ∷ src) files j lt =
    str_copy-behind (dst + 1) src _ j (omega (arith, lt))
    ∙ rw (==_ne j dst (omega (arith, lt))) refl

pub str_copy-Holds :
    (dst : ℕ) (src : List ℕ) (files : ℕ → ℕ) → Holds (str_copy dst src files) dst src
unfolding str_copy
str_copy-Holds dst [] files = rw (==_refl dst) refl
str_copy-Holds dst (c ∷ src) files = (
  str_copy-before (dst + 1) src (update files dst c) dst (omega arith) ∙ rw (==_refl dst) refl,
  str_copy-Holds (dst + 1) src (update files dst c),
)

pub string_at-Holds :
    (fuel : ℕ) (files : ℕ → ℕ) (s : ℕ) (text : List ℕ)
    → Holds files s text
    → All Letter text
    → length text < fuel
    → string_at fuel files s ≡ text
unfolding string_at
string_at-Holds zero files s text h l lt = absurd (omega (arith, lt))
string_at-Holds (suc fuel) files s [] h l lt = rw h refl
string_at-Holds (suc fuel) files s (c ∷ text) h l lt =
    let go : (files s == 0) ≡ false = rw h.0 (==_ne c 0 l.0.0) in
    rw (go, h.0)
      (ap (λ r. c ∷ r) (string_at-Holds fuel files (s + 1) text h.1 l.1 (omega (arith, lt))))

str_len-Holds :
    (fuel : ℕ) (files : ℕ → ℕ) (s : ℕ) (text : List ℕ)
    → Holds files s text
    → All Letter text
    → length text < fuel
    → str_len fuel files s ≡ length text
unfolding str_len
str_len-Holds zero files s text h l lt = absurd (omega (arith, lt))
str_len-Holds (suc fuel) files s [] h l lt = rw h refl
str_len-Holds (suc fuel) files s (c ∷ text) h l lt =
    let go : (files s == 0) ≡ false = rw h.0 (==_ne c 0 l.0.0) in
    rw go (omega (arith, str_len-Holds fuel files (s + 1) text h.1 l.1 (omega (arith, lt))))

-- The comparison decides whether the string is the text.
pub str_cmp_lem :
    (files : ℕ → ℕ) (s : ℕ) (text src : List ℕ)
    → Holds files s text
    → All Letter text
    → All Letter src
    → (str_cmp files s src == 0) ≡ same_word text src
unfolding str_cmp
str_cmp_lem files s [] [] h l k = rw h refl
str_cmp_lem files s [] (c ∷ src) h l k = rw h (ground (arith, k.0))
str_cmp_lem files s (b ∷ text) [] h l k = rw h.0 (ground (arith, l.0))
str_cmp_lem files s (b ∷ text) (c ∷ src) h l k =
    rw h.0 (ground (arith, l.0, k.0, str_cmp_lem files (s + 1) text src h.1 l.1 k.1))
