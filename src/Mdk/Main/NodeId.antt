-- ===== src/Mdk/Main/NodeId.antt =====
-- The node number that the command line names.
use bumbellbee_testing.Base.{
  ℕ, ◌+◌, ◌<◌, ◌≤◌, ◌≡◌, ◌≢◌, true, Option, none, some, List, [], ◌∷◌, ◌++◌, All, arith, ==_ne,
}
use bumbellbee_testing.Base.Text.{codes}
use bumbellbee_testing.Mdk.Main.{is_digit, scan, parse_node_id}

-- A character before the name: not the terminator, and not the first of the name.
abbrev pub Skipped : ℕ → Type 0
Skipped c = (c ≢ 0) × (c ≢ b'i')

-- If no character before "id=" is an i or a zero, parse_node_id gives the digit behind it.
parse_node_id_lem :
    (before after : List ℕ) (d : ℕ)
    → All Skipped before
    → d < 10
    → parse_node_id (some (before ++ (codes "id=" ++ ((b'0' + d) ∷ after)))) ≡ d
unfolding parse_node_id scan
parse_node_id_lem [] after d skipped digit =
    let e : is_digit (b'0' + d) ≡ true = ground (arith, digit) in rw e (omega arith)
parse_node_id_lem (c ∷ before) after d skipped digit =
    rw (==_ne c 0 skipped.0.0, ==_ne c b'i' skipped.0.1)
      (parse_node_id_lem before after d skipped.1 digit)

scan-le : (s : List ℕ) → scan s ≤ 9
unfolding scan
scan-le [] = omega arith
scan-le (c ∷ s) = ground (arith, scan-le s)

-- Whatever the command line, the number of a node is at most nine.
parse_node_id-le : (cmdline : Option (List ℕ)) → parse_node_id cmdline ≤ 9
unfolding parse_node_id
parse_node_id-le none = omega arith
parse_node_id-le (some s) = scan-le s
