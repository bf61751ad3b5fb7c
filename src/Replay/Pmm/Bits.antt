-- ===== src/Replay/Pmm/Bits.antt =====
-- The bits of the frame bitmap: what setting and clearing one does to every other.
use bumbellbee_testing.Base.{ℕ, ◌/◌, ◌%◌, ◌<◌, ◌≡◌, ◌||◌, ◌&&◌, not, arith, ◌==◌}
use bumbellbee_testing.Base.Bytes.{test_bit-set_bit, test_bit-clear_bit}
use bumbellbee_testing.Replay.Pmm.{is_used, mark, unmark}

-- Every cell is a byte.
abbrev pub Bytes : (ℕ → ℕ) → Type 0
Bytes m = (a : ℕ) → m a < 256

pub mark-Bytes : (m : ℕ → ℕ) (i : ℕ) → Bytes m → Bytes (mark m i)
unfolding mark
mark-Bytes m i h a = ground (arith, h a)

unmark-Bytes : (m : ℕ → ℕ) (i : ℕ) → Bytes m → Bytes (unmark m i)
unfolding unmark
unmark-Bytes m i h a = ground (arith, h a)

module _ (m : ℕ → ℕ) (i j : ℕ) (h : Bytes m) where
  pub is_used-mark : is_used (mark m i) j ≡ ((j == i) || is_used m j)
  unfolding is_used mark
  is_used-mark =
      ground (
        arith,
        test_bit-set_bit (m (i / 8)) (i % 8) (j % 8) (h (i / 8)) (omega arith) (omega arith),
      )

  pub is_used-unmark : is_used (unmark m i) j ≡ (not (j == i) && is_used m j)
  unfolding is_used unmark
  is_used-unmark = ground (
    arith,
    test_bit-clear_bit (m (i / 8)) (i % 8) (j % 8) (h (i / 8)) (omega arith) (omega arith),
  )
