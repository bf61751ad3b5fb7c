-- ===== src/Mdk/Ramfs/Overlong.antt =====
-- A name of 16 characters or more runs into the content behind it.
use bumbellbee_testing.Base.{
  ℕ, zero, suc, ◌+◌, ◌*◌, ◌<◌, ◌≤◌, ◌≡◌, List, [], ◌∷◌, ◌++◌, All, arith, refl, ap, ◌∙◌, take, drop,
  length, ==_refl,
}
use bumbellbee_testing.Base.Text.{Letter, same_word}
use bumbellbee_testing.Mdk.Ramfs.{
  Ramfs, max_files, name_of, content_of, str_copy, ramfs_touch, is_match,
}
use bumbellbee_testing.Mdk.Ramfs.Copy.{Holds, str_copy-before, str_copy-Holds}
use bumbellbee_testing.Mdk.Ramfs.Files.{
  written, written-below, written-content, written-match, touch-written,
}

-- Characters at an address, with no terminator.
abbrev Starts : (ℕ → ℕ) → ℕ → List ℕ → Type 0
Starts files s [] = Unit {0}
Starts files s (c ∷ text) = (files s ≡ c) × Starts files (s + 1) text

Starts-take :
    (k : ℕ) (f g : ℕ → ℕ) (s : ℕ) (text : List ℕ)
    → ((j : ℕ) → s ≤ j → j < s + k → g j ≡ f j)
    → Holds f s text
    → Starts g s (take k text)
Starts-take zero f g s text same h = tt
Starts-take (suc k) f g s [] same h = tt
Starts-take (suc k) f g s (c ∷ text) same h = (
  same s (omega arith) (omega arith) ∙ h.0,
  Starts-take k f g (s + 1) text (λ j lo hi. same j (omega (arith, lo)) (omega (arith, hi))) h.1,
)

Holds-append :
    (f : ℕ → ℕ) (s e : ℕ) (xs ys : List ℕ)
    → e ≡ s + length xs
    → Starts f s xs
    → Holds f e ys
    → Holds f s (xs ++ ys)
Holds-append f s e [] ys q h k = let here : s ≡ e = omega (arith, q) in rw here k
Holds-append f s e (x ∷ xs) ys q h k =
    (h.0, Holds-append f (s + 1) e xs ys (omega (arith, q)) h.1 k)

All-take : (k : ℕ) (xs ys : List ℕ) → All Letter xs → All Letter ys → All Letter (take k xs ++ ys)
All-take zero xs ys h l = l
All-take (suc k) [] ys h l = l
All-take (suc k) (x ∷ xs) ys h l = (h.0, All-take k xs ys h.1 l)

length-take : (k : ℕ) (xs : List ℕ) → k ≤ length xs → length (take k xs) ≡ k
length-take zero xs h = refl
length-take (suc k) [] h = absurd (omega (arith, h))
length-take (suc k) (x ∷ xs) h = ap suc (length-take k xs (omega (arith, h)))

same_word-take :
    (k : ℕ) (xs ys : List ℕ)
    → k ≤ length xs
    → same_word (take k xs ++ ys) xs ≡ same_word ys (drop k xs)
same_word-take zero xs ys h = refl
same_word-take (suc k) [] ys h = absurd (omega (arith, h))
same_word-take (suc k) (x ∷ xs) ys h = rw (==_refl x) (same_word-take k xs ys (omega (arith, h)))

-- With a name of 16 characters or more, a content of fewer than 128 and room in the table, the file
-- that ramfs_touch makes is found under its own name only if the content is what the name has
-- behind its first 16 characters.
pub overlong_name :
    (name content : List ℕ) (f : Ramfs)
    → f.num_files < max_files
    → All Letter name
    → All Letter content
    → 16 ≤ length name
    → length content < 128
    → is_match name (ramfs_touch name content f).files f.num_files
      ≡ same_word content (drop 16 name)
overlong_name name content f room ln lc long fits =
    let n = f.num_files in
    let copied = str_copy (name_of n) name f.files in
    let text = take 16 name ++ content in
    let same = λ (j : ℕ) (lo : n * 146 ≤ j) (hi : j < n * 146 + 16).
      written-below n name content f.files j (omega (arith, hi))
      ∙ str_copy-before (content_of n) content copied j hi in
    let starts =
      Starts-take 16 copied (written n name content f.files) (name_of n) name same
        (str_copy-Holds (name_of n) name f.files) in
    let holds =
      Holds-append (written n name content f.files) (name_of n) (content_of n) (take 16 name)
        content (omega (arith, length-take 16 name long)) starts
        (written-content n name content f.files fits) in
    ap (λ g. is_match name (Ramfs.files g) n) (touch-written name content f room)
    ∙ (written-match n name content f.files text name holds (All-take 16 name content ln lc) ln
        ∙ same_word-take 16 name content long)
