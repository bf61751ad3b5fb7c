-- ===== src/Modular/Keyboard/Keys.antt =====
-- The branches of the keyboard handler, and the page fault's report.
use bumbellbee_testing.Base.{
  ℕ, ◌+◌, ◌%◌, ◌^◌, ◌<◌, ◌≤◌, ◌≡◌, ◌≢◌, true, false, List, [], ◌∷◌, ◌++◌, arith, refl, get_or,
  length, leb, ◌==◌, Bool-cases, inl, inr,
}
use bumbellbee_testing.Base.Bytes.{test_bit}
use bumbellbee_testing.Base.Ports.{outb}
use bumbellbee_testing.Base.Text.{codes}
use bumbellbee_testing.Modular.Screen.{Screen, kprint}
use bumbellbee_testing.Modular.Screen.Text.{Shows, kprint_lem, kprint_newline_lem}
use bumbellbee_testing.Modular.Screen.Hex.{numeral, kprint_hex_lem}
use bumbellbee_testing.Modular.Keyboard.{
  Console, keyboard_map, enter_key_code, show_key, keyboard_handler_main, page_fault_handler_main,
}

-- What a key leaves on the screen: its character, the start of a line, or nothing.
pub record Shown (keycode : ℕ) (s t : Screen) : Type 0 where
  pub released : 128 ≤ keycode → t ≡ s
  pub enter :
      keycode ≡ enter_key_code
      → (t.current_loc % 160 ≡ 0) × (s.current_loc < t.current_loc) × (t.vidptr ≡ s.vidptr)
  pub plain :
      keycode < 128 → keycode ≢ enter_key_code → Shows (get_or keyboard_map keycode 0 ∷ []) s t

show_key-Shown :
    (keycode : ℕ) (s : Screen) → s.current_loc + 160 < 2 ^ 32 → Shown keycode s (show_key keycode s)
unfolding show_key kprint
show_key-Shown keycode s room = elim (Bool-cases (leb 128 keycode)) [
  | inl up ↦ rw up (record {
    released = λ h. refl;
    enter = λ h. absurd (ground (arith, up, h));
    plain = λ h k. absurd (ground (arith, up, h));
  })
  | inr down ↦ elim (Bool-cases (keycode == 0x1C)) [
    | inl is_enter ↦
        let line = kprint_newline_lem s room in
        rw (down, is_enter)
          (record {
            released = λ h. absurd (ground (arith, down, h));
            enter = λ h. (line.0, line.1, line.3);
            plain = λ h k. absurd (k (ground (arith, is_enter)));
          })
    | inr other ↦
        rw (down, other)
          (record {
            released = λ h. absurd (ground (arith, down, h));
            enter = λ h. absurd (ground (arith, other, h));
            plain = λ h k. kprint_lem (get_or keyboard_map keycode 0 ∷ []) s (omega (arith, room));
          })
  ]
]

-- From a cursor below 2^32 - 160, keyboard_handler_main ends the interrupt and, if the status byte
-- says that a key waits, does nothing for a key released, starts a new line for Enter, and otherwise
-- shows the one character that the table gives; without a waiting key the screen stays as it is.
keyboard_handler_main_lem :
    (status keycode : ℕ) (c : Console)
    → c.screen.current_loc + 160 < 2 ^ 32
    → let d = keyboard_handler_main status keycode c in
      (d.ports ≡ outb 0x20 0x20 ∷ c.ports)
      × (test_bit status 0 ≡ true → Shown keycode c.screen d.screen)
      × (test_bit status 0 ≡ false → d.screen ≡ c.screen)
unfolding keyboard_handler_main
keyboard_handler_main_lem status keycode c room = elim (Bool-cases (test_bit status 0)) [
  | inl waits ↦ rw waits (refl, λ h. show_key-Shown keycode c.screen room, λ h. absurd (cc h))
  | inr idle ↦ rw idle (refl, λ h. absurd (cc h), λ h. refl)
]

kprint_append : (xs ys : List ℕ) (s : Screen) → kprint (xs ++ ys) s ≡ kprint ys (kprint xs s)
unfolding kprint
kprint_append [] ys s = refl
kprint_append (x ∷ xs) ys s = kprint_append xs ys _

-- For a 32-bit address and error code, the page fault's report is one text, in which two numerals of
-- eight hexadecimal digits stand for the address and the code.
page_fault_lem :
    (address code : ℕ) (s : Screen)
    → address < 2 ^ 32
    → code < 2 ^ 32
    → (xs : List ℕ) × (ys : List ℕ) × (numeral 0 xs ≡ address)
      × (numeral 0 ys ≡ code)
      × (length xs ≡ 8)
      × (length ys ≡ 8)
      × (page_fault_handler_main address code s
          ≡ kprint
              (codes "PAGE FAULT!\nFaulting address: "
                ++ (xs ++ (codes "\nError code: " ++ (ys ++ codes "\nSystem halted."))))
              s)
unfolding page_fault_handler_main
page_fault_lem address code s a c =
    let head = codes "PAGE FAULT!\nFaulting address: " in
    let middle = codes "\nError code: " in
    let tail = codes "\nSystem halted." in
    let (xs, shown_a, eight_a, value_a) = kprint_hex_lem address (kprint head s) a in
    let (ys, shown_c, eight_c, value_c) =
      kprint_hex_lem code (kprint middle (kprint xs (kprint head s))) c in
    (
      xs,
      ys,
      value_a,
      value_c,
      eight_a,
      eight_c,
      rw
          (
            shown_a,
            shown_c,
            kprint_append head (xs ++ (middle ++ (ys ++ tail))) s,
            kprint_append xs (middle ++ (ys ++ tail)) (kprint head s),
            kprint_append middle (ys ++ tail) (kprint xs (kprint head s)),
            kprint_append ys tail (kprint middle (kprint xs (kprint head s))),
          )
          refl,
    )
