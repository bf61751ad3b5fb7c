-- ===== src/Mdk/Ramfs/Files.antt =====
-- A file that is made and then read.
use bumbellbee_testing.Base.{
  ℕ, zero, suc, ◌+◌, ◌*◌, ◌<◌, ◌≤◌, ◌≡◌, true, false, none, some, List, [], ◌∷◌, All, arith, refl,
  ap, ◌∙◌, length, leb, ==_ne, ==_refl, Bool-cases, inl, inr, update,
}
use bumbellbee_testing.Base.Text.{codes, Letter, same_word}
use bumbellbee_testing.Mdk.Console.{vga_serial_print}
use bumbellbee_testing.Mdk.Ramfs.{
  Ramfs, max_files, name_of, content_of, is_dir_of, active_of, str_copy, str_cmp, table_size,
  ramfs_touch, is_match, find_file, cat_calls, ramfs_cat,
}
use bumbellbee_testing.Mdk.Ramfs.Copy.{
  Holds, Holds-same, str_copy-before, str_copy-Holds, string_at-Holds, str_cmp_lem,
}

same_word_refl : (text : List ℕ) → same_word text text ≡ true
same_word_refl [] = refl
same_word_refl (x ∷ text) = rw (==_refl x, same_word_refl text) refl

-- The bytes behind `ramfs_touch`.
abbrev pub written : ℕ → List ℕ → List ℕ → (ℕ → ℕ) → ℕ → ℕ
written n name content files =
    update
      (update (str_copy (content_of n) content (str_copy (name_of n) name files)) (is_dir_of n) 0)
      (active_of n) 1

pub touch-written :
    (name content : List ℕ) (f : Ramfs)
    → f.num_files < max_files
    → ramfs_touch name content f
      ≡ record { files = written f.num_files name content f.files; num_files = f.num_files + 1 }
unfolding ramfs_touch
touch-written name content f room =
    let e : leb 32 f.num_files ≡ false = ground (arith, room) in rw e refl

module _ (n : ℕ) (name content : List ℕ) (files : ℕ → ℕ) where
  -- The two flags stand behind the strings of the entry.
  pub written-below :
      (j : ℕ)
      → j < n * 146 + 144
      → written n name content files j
        ≡ str_copy (content_of n) content (str_copy (name_of n) name files) j
  written-below j lt =
      rw (==_ne j (n * 146 + 145) (omega (arith, lt)), ==_ne j (n * 146 + 144) (omega (arith, lt)))
        refl

  pub written-content :
      length content < 128 → Holds (written n name content files) (content_of n) content
  written-content short =
      Holds-same (str_copy (content_of n) content (str_copy (name_of n) name files))
        (written n name content files) (content_of n) content
        (λ j lo hi. written-below j (omega (arith, hi, short)))
        (str_copy-Holds (content_of n) content (str_copy (name_of n) name files))

  written-name : length name < 16 → Holds (written n name content files) (name_of n) name
  written-name short =
      Holds-same (str_copy (name_of n) name files) (written n name content files) (name_of n) name
        (λ j lo hi.
          written-below j (omega (arith, hi, short))
          ∙ str_copy-before (content_of n) content (str_copy (name_of n) name files) j
              (omega (arith, hi, short)))
        (str_copy-Holds (name_of n) name files)

  written-before : (j : ℕ) → j < n * 146 → written n name content files j ≡ files j
  written-before j lt =
      written-below j (omega (arith, lt))
      ∙ (str_copy-before (content_of n) content (str_copy (name_of n) name files) j
            (omega (arith, lt))
          ∙ str_copy-before (name_of n) name files j lt)

  written-flags :
      (written n name content files (is_dir_of n) ≡ 0)
      × (written n name content files (active_of n) ≡ 1)
  written-flags = (
    rw (==_ne (n * 146 + 144) (n * 146 + 145) (omega arith), ==_refl (n * 146 + 144)) refl,
    rw (==_refl (n * 146 + 145)) refl,
  )

  -- Whether the new entry answers to a name, given the string that stands in it.
  pub written-match :
      (text asked : List ℕ)
      → Holds (written n name content files) (name_of n) text
      → All Letter text
      → All Letter asked
      → is_match asked (written n name content files) n ≡ same_word text asked
  written-match text asked h l k =
      rw (written-flags.0, written-flags.1)
        (str_cmp_lem (written n name content files) (name_of n) text asked h l k)

str_cmp-same :
    (f g : ℕ → ℕ) (s : ℕ) (src : List ℕ)
    → ((j : ℕ) → s ≤ j → j ≤ s + length src → g j ≡ f j)
    → str_cmp g s src ≡ str_cmp f s src
unfolding str_cmp
str_cmp-same f g s [] same = rw (same s (omega arith) (omega arith)) refl
str_cmp-same f g s (c ∷ src) same =
    rw
      (
        same s (omega arith) (omega arith),
        str_cmp-same f g (s + 1) src (λ j lo hi. same j (omega (arith, lo)) (omega (arith, hi))),
      )
      refl

-- Entries that lie before an address up to which two memories agree.
match-same :
    (f g : ℕ → ℕ) (name : List ℕ) (n i : ℕ)
    → length name < 16
    → i < n
    → ((j : ℕ) → j < n * 146 → g j ≡ f j)
    → is_match name g i ≡ is_match name f i
match-same f g name n i short lt same =
    rw
      (
        same (i * 146 + 145) (omega (arith, lt)),
        same (i * 146 + 144) (omega (arith, lt)),
        str_cmp-same f g (i * 146) name (λ j lo hi. same j (omega (arith, hi, short, lt))),
      )
      refl

-- The search passes the entries that it passed before and stops at the new one.
find_file-new :
    (f g : ℕ → ℕ) (name : List ℕ) (n k i : ℕ)
    → length name < 16
    → i + k ≡ n
    → ((j : ℕ) → j < n * 146 → g j ≡ f j)
    → find_file name f k i ≡ none
    → is_match name g n ≡ true
    → find_file name g (suc k) i ≡ some n
unfolding find_file
find_file-new f g name n zero i short e same old new =
    let here : i ≡ n = omega (arith, e) in rw (here, new) refl
find_file-new f g name n (suc k) i short e same old new =
    let passed = match-same f g name n i short (omega (arith, e)) same in
    elim (Bool-cases (is_match name f i)) [
      | inl hit ↦ cc (rw hit at old)
      | inr miss ↦
          rw (passed, miss)
            (find_file-new f g name n k (i + 1) short (omega (arith, e)) same (rw miss at old) new)
    ]

-- If no file of the name stands in the table yet, the table has room, the name has fewer than 16
-- characters and the content fewer than 128, then ramfs_cat behind ramfs_touch prints exactly the
-- content and a line break.
pub cat-touch :
    (name content : List ℕ) (f : Ramfs)
    → f.num_files < max_files
    → All Letter name
    → All Letter content
    → length name < 16
    → length content < 128
    → find_file name f.files f.num_files 0 ≡ none
    → ramfs_cat name (ramfs_touch name content f)
      ≡ vga_serial_print content ∷ vga_serial_print (codes "\n") ∷ []
unfolding ramfs_cat
cat-touch name content f room ln lc short fits fresh =
    let n = f.num_files in
    let g = written n name content f.files in
    let new =
      written-match n name content f.files name name (written-name n name content f.files short) ln
        ln in
    let grown : n + 1 ≡ suc n = omega arith in
    let found : find_file name g (n + 1) 0 ≡ some n = rw grown (
      find_file-new f.files g name n n 0 short (omega arith) (written-before n name content f.files)
        fresh (new ∙ same_word_refl name)) in
    let printed =
      string_at-Holds table_size g (content_of n) content
        (written-content n name content f.files fits) lc (omega (arith, fits)) in
    ap (ramfs_cat name) (touch-written name content f room)
    ∙ (ap (cat_calls (record { files = g; num_files = n + 1 })) found
        ∙ ap (λ text. vga_serial_print text ∷ vga_serial_print (codes "\n") ∷ []) printed)
