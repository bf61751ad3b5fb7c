-- ===== src/Mdk/Shell/Prefix.antt =====
-- A command depends on the text of the line alone: nothing behind the terminator is read.
use bumbellbee_testing.Base.{
  ℕ, zero, suc, ◌≤◌, ◌≡◌, Bool, true, false, ◌&&◌, Option, none, some, List, [], ◌∷◌, All, arith,
  refl, ap, sym, ◌∙◌, drop, get_or, length, ◌==◌, Bool-cases, inl, inr,
}
use bumbellbee_testing.Base.Text.{first, rest, c_string, Byte, Letter}
use bumbellbee_testing.Mdk.Shell.{
  Node, str_ncmp, begins, Command, nodes, ls, cat, mkdir, touch, whoami, uptime, top, nodeinfo,
  runjob, help, clear, word, commands, choose, execute, execute_any, process_command,
}

c_string_twice : (s : List ℕ) → c_string (c_string s) ≡ c_string s
unfolding c_string
c_string_twice [] = refl
c_string_twice (x ∷ s) = elim (Bool-cases (x == 0)) [
  | inl nul ↦ rw nul refl
  | inr char ↦ rw (char, c_string_twice s) (rw char refl)
]

first-c_string : (s : List ℕ) → first (c_string s) ≡ first s
unfolding c_string
first-c_string [] = refl
first-c_string (x ∷ s) = ground arith

str_ncmp-c_string : (s t : List ℕ) (n : ℕ) → str_ncmp (c_string s) t n ≡ str_ncmp s t n
unfolding str_ncmp c_string
str_ncmp-c_string s t zero = refl
str_ncmp-c_string [] t (suc n) = refl
str_ncmp-c_string (x ∷ s) t (suc n) = elim (Bool-cases (x == 0)) [
  | inl nul ↦ let e : x ≡ 0 = ground (arith, nul) in rw e refl
  | inr char ↦ rw char (rw (char, str_ncmp-c_string s (rest t) n) refl)
]

-- A prefix of a text.
abbrev pub is_prefix : List ℕ → List ℕ → Bool
is_prefix [] s = true
is_prefix (c ∷ w) [] = false
is_prefix (c ∷ w) (x ∷ s) = x == c && is_prefix w s

-- For a buffer of bytes and a word of nonzero bytes, the test that str_ncmp makes with the length of
-- the word tells whether the text of the buffer, up to its first zero, begins with the word.
begins_lem : (s w : List ℕ) → All Byte s → All Letter w → begins s w ≡ is_prefix w (c_string s)
unfolding str_ncmp c_string
begins_lem s [] b l = refl
begins_lem [] (c ∷ w) b l = ground (arith, l.0)
begins_lem (x ∷ s) (c ∷ w) b l = ground (arith, b.0, l.0, begins_lem s w b.1 l.1)

begins-c_string : (s w : List ℕ) → begins (c_string s) w ≡ begins s w
begins-c_string s w = ap (λ d. d == 0) (str_ncmp-c_string s w (length w))

choose-c_string : (cs : List Command) (s : List ℕ) → choose cs (c_string s) ≡ choose cs s
unfolding choose
choose-c_string [] s = refl
choose-c_string (c ∷ cs) s = rw (begins-c_string s (word c), choose-c_string cs s) refl

is_prefix-length : (w s : List ℕ) → is_prefix w s ≡ true → length w ≤ length s
is_prefix-length [] s h = omega arith
is_prefix-length (c ∷ w) [] h = cc
is_prefix-length (c ∷ w) (x ∷ s) h = ground (arith, is_prefix-length w s)

c_string-drop :
    (k : ℕ) (s : List ℕ) → k ≤ length (c_string s) → c_string (drop k s) ≡ drop k (c_string s)
unfolding c_string
c_string-drop zero s h = refl
c_string-drop (suc k) [] h = refl
c_string-drop (suc k) (x ∷ s) h = elim (Bool-cases (x == 0)) [
  | inl nul ↦ absurd (omega (arith, rw nul at h))
  | inr char ↦ rw char (c_string-drop k s (omega (arith, rw char at h)))
]

-- The text behind a word is the same in the buffer and in its text.
argument-c_string :
    (k : ℕ) (s : List ℕ)
    → k ≤ length (c_string s)
    → c_string (drop k (c_string s)) ≡ c_string (drop k s)
argument-c_string k s h =
    let k' : k ≤ length (c_string (c_string s)) = rw (c_string_twice s) h in
    c_string-drop k (c_string s) k' ∙ (ap (drop k) (c_string_twice s) ∙ sym (c_string-drop k s h))

get_or-c_string :
    (k : ℕ) (s : List ℕ) → k ≤ length (c_string s) → get_or (c_string s) k 0 ≡ get_or s k 0
unfolding c_string
get_or-c_string k [] h = refl
get_or-c_string zero (x ∷ s) h = ground arith
get_or-c_string (suc k) (x ∷ s) h = elim (Bool-cases (x == 0)) [
  | inl nul ↦ absurd (omega (arith, rw nul at h))
  | inr char ↦ rw char (get_or-c_string k s (omega (arith, rw char at h)))
]

word-Letter : (c : Command) → All Letter (word c)
word-Letter nodes = omega arith
word-Letter _ = omega arith

begins-word :
    (cs : List Command) (c : Command) (s : List ℕ) → choose cs s ≡ some c → begins s (word c) ≡ true
unfolding choose
begins-word [] c s h = cc
begins-word (d ∷ cs) c s h = elim (Bool-cases (begins s (word d))) [
  | inl hit ↦
      let e : some d ≡ some c = rw hit at h in
      let same : d ≡ c = cc e in ap (λ k. begins s (word k)) (sym same) ∙ hit
  | inr miss ↦ begins-word cs c s (rw miss at h)
]

execute-c_string :
    (c : Command) (s : List ℕ) (n : Node)
    → length (word c) ≤ length (c_string s)
    → execute c (c_string s) n ≡ execute c s n
unfolding execute
execute-c_string nodes s n h = refl
execute-c_string ls s n h = refl
execute-c_string cat s n h = rw (argument-c_string 4 s h) refl
execute-c_string mkdir s n h = rw (argument-c_string 6 s h) refl
execute-c_string touch s n h = rw (argument-c_string 6 s h) refl
execute-c_string whoami s n h = refl
execute-c_string uptime s n h = refl
execute-c_string top s n h = refl
execute-c_string nodeinfo s n h = rw (get_or-c_string 9 s h) refl
execute-c_string runjob s n h = refl
execute-c_string help s n h = refl
execute-c_string clear s n h = refl

execute_any-c_string :
    (o : Option Command) (s : List ℕ) (n : Node)
    → All Byte s
    → choose commands s ≡ o
    → execute_any o (c_string s) n ≡ execute_any o s n
execute_any-c_string none s n b h = rw (c_string_twice s) refl
execute_any-c_string (some c) s n b h =
    let found = begins_lem s (word c) b (word-Letter c) in
    execute-c_string c s n
      (is_prefix-length (word c) (c_string s) (sym found ∙ begins-word commands c s h))

-- For a buffer of bytes, process_command acts on it as on the text up to its first zero: neither the
-- command chosen nor its argument depends on what older lines left behind the terminator.
pub process_command-c_string :
    (s : List ℕ) (n : Node) → All Byte s → process_command (c_string s) n ≡ process_command s n
unfolding process_command
process_command-c_string s n b =
    rw
      (
        first-c_string s,
        choose-c_string commands s,
        execute_any-c_string (choose commands s) s n b refl,
      )
      refl
