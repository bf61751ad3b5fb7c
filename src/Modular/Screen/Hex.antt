-- ===== src/Modular/Screen/Hex.antt =====
-- The eight digits that `kprint_hex` prints.
use bumbellbee_testing.Base.{
  ℕ, zero, suc, ◌+◌, ◌-◌, ◌*◌, ◌/◌, ◌%◌, ◌^◌, ◌<◌, ◌≡◌, List, [], ◌∷◌, arith, refl, ap, ◌∙◌, get_or,
  length, ltb, ◌==◌, ==_iff, all_below_at, if◌then◌else◌,
}
use native.Mathlib.Nat.{pow-suc}
use bumbellbee_testing.Modular.Screen.{Screen, kprint, hex_digits, hex_loop, kprint_hex}

-- The value of a digit in upper case, and of a numeral behind a leading part.
abbrev pub value : ℕ → ℕ
value c = if ltb c b'A' then c - b'0' else c - b'A' + 10

abbrev pub numeral : ℕ → List ℕ → ℕ
numeral acc [] = acc
numeral acc (c ∷ cs) = numeral (acc * 16 + value c) cs

value-digit : (r : ℕ) → r < 16 → value (get_or hex_digits r 0) ≡ r
value-digit r h =
    (==_iff _ r).0 (all_below_at (λ k. value (get_or hex_digits k 0) == k) 16 r refl h)

length-hex_loop :
    (rounds n : ℕ) (buffer : List ℕ) → length (hex_loop rounds n buffer) ≡ rounds + length buffer
unfolding hex_loop
length-hex_loop zero n buffer = omega arith
length-hex_loop (suc rounds) n buffer =
    length-hex_loop rounds (n / 16) (get_or hex_digits (n % 16) 0 ∷ buffer) ∙ omega arith

numeral-hex_loop :
    (rounds n : ℕ) (buffer : List ℕ)
    → n < 16 ^ rounds
    → numeral 0 (hex_loop rounds n buffer) ≡ numeral n buffer
unfolding hex_loop
numeral-hex_loop zero n buffer h = let e : n ≡ 0 = omega (arith, h) in rw e refl
numeral-hex_loop (suc rounds) n buffer h =
    let c = get_or hex_digits (n % 16) 0 in
    let split : n / 16 * 16 + value c ≡ n = rw (value-digit (n % 16) (omega arith)) (omega arith) in
    numeral-hex_loop rounds (n / 16) (c ∷ buffer) (omega (arith, pow-suc 16 rounds, h))
    ∙ ap (λ m. numeral m buffer) split

-- For a 32-bit number, kprint_hex prints a text of eight characters, which are hexadecimal digits
-- whose value is the number.
pub kprint_hex_lem :
    (n : ℕ) (s : Screen)
    → n < 2 ^ 32
    → (ds : List ℕ) × (kprint_hex n s ≡ kprint ds s) × (length ds ≡ 8) × (numeral 0 ds ≡ n)
unfolding kprint_hex
kprint_hex_lem n s h =
    (hex_loop 8 n [], refl, length-hex_loop 8 n [], numeral-hex_loop 8 n [] (omega (arith, h)))
