-- ===== src/Base/Uart.antt =====
-- A serial line that is polled: the sender reads the line's status until it may send.
use Prim.Native.Nat.{ℕ, zero, suc, ◌+◌, ◌≤◌, ◌<◌}
use mathlib.Core.Path.{◌≡◌, refl, sym, ◌∙◌}
use mathlib.Core.Logic.{◌⊎◌, inl, inr}
use mathlib.Core.Option.{Option, none, some}
use mathlib.Core.List.{List, [], ◌∷◌, ◌++◌, append_assoc, append-nil}
use native.Mathlib.Omega.{arith}
use bumbellbee_testing.Base.Tests.{Bool-cases, if◌then◌else◌}
use bumbellbee_testing.Base.Lists.{length}
use bumbellbee_testing.Base.Bytes.{test_bit}

-- `status` holds what the line's status register gives at the reads to come, the next one first;
-- `sent` holds the bytes sent, in their order.
pub record Uart : Type 0 where
  pub status : List ℕ
  pub sent : List ℕ

-- The loop that polls: the statuses behind the first that has the bit. `none` where no status to come
-- has it, and the loop goes on.
pub poll : ℕ → List ℕ → Option (List ℕ)
poll bit [] = none
poll bit (s ∷ later) = let rest = poll bit later in if test_bit s bit then some later else rest

abbrev pub output : ℕ → List ℕ → Option (List ℕ) → Option Uart
output a sent none = none
output a sent (some later) = some (record { status = later; sent = sent ++ (a ∷ []) })

-- One byte, once bit 5 tells that the line takes it.
pub send : ℕ → Uart → Option Uart
send a u = output a u.sent (poll 5 u.status)

abbrev pub and_then : Option Uart → (Uart → Option Uart) → Option Uart
and_then none f = none
and_then (some u) f = f u

pub send_all : List ℕ → Uart → Option Uart
send_all [] u = some u
send_all (a ∷ text) u = and_then (send a u) (send_all text)

-- The statuses with the bit.
abbrev pub ready : ℕ → List ℕ → ℕ
ready bit [] = 0
ready bit (s ∷ later) = (if test_bit s bit then 1 else 0) + ready bit later

-- What a poll that ends leaves of the statuses.
pub poll_lem :
    (bit : ℕ) (status : List ℕ)
    → 0 < ready bit status
    → (later : List ℕ) × (poll bit status ≡ some later) × (ready bit later + 1 ≡ ready bit status)
unfolding poll
poll_lem bit [] h = absurd (omega arith)
poll_lem bit (s ∷ later) h = elim (Bool-cases (test_bit s bit)) [
  | inl now ↦ (later, rw now refl, rw now (omega arith))
  | inr wait ↦
      let (l, e, n) = poll_lem bit later (ground (arith, h, wait)) in
      (l, rw wait e, rw wait (omega (arith, n)))
]

poll_waits : (bit : ℕ) (status : List ℕ) → ready bit status ≡ 0 → poll bit status ≡ none
unfolding poll
poll_waits bit [] h = refl
poll_waits bit (s ∷ later) h = elim (Bool-cases (test_bit s bit)) [
  | inl now ↦ absurd (ground (arith, h, now))
  | inr wait ↦ rw wait (poll_waits bit later (ground (arith, h, wait)))
]

-- What is sent, and how many ready statuses are left.
pub record Sent (text : List ℕ) (u v : Uart) : Type 0 where
  pub sent : v.sent ≡ u.sent ++ text
  pub left : ready 5 v.status + length text ≡ ready 5 u.status

pub send_all_lem :
    (text : List ℕ) (u : Uart)
    → length text ≤ ready 5 u.status
    → (v : Uart) × ((send_all text u ≡ some v) × Sent text u v)
unfolding send_all send
send_all_lem [] u h = (u, (refl, record { sent = sym (append-nil u.sent); left = omega arith }))
send_all_lem (a ∷ text) u h =
    let (later, e, n) = poll_lem 5 u.status (omega (arith, h)) in
    let w : Uart = record { status = later; sent = u.sent ++ (a ∷ []) } in
    let (v, (more, s)) = send_all_lem text w (omega (arith, h, n)) in
    (
      v,
      (
        rw e more,
        record {
          sent = s.sent ∙ append_assoc u.sent (a ∷ []) text;
          left = omega (arith, s.left, n);
        },
      ),
    )

zero_or_more : (n : ℕ) → (n ≡ 0) ⊎ (0 < n)
zero_or_more zero = inl refl
zero_or_more (suc n) = inr (omega arith)

-- With fewer ready statuses to come than bytes, the sender goes on waiting.
pub send_all_waits :
    (text : List ℕ) (u : Uart) → ready 5 u.status < length text → send_all text u ≡ none
unfolding send_all send
send_all_waits [] u h = absurd (omega arith)
send_all_waits (a ∷ text) u h = elim (zero_or_more (ready 5 u.status)) [
  | inl stuck ↦ rw (poll_waits 5 u.status stuck)
  | inr some_ready ↦
      let (later, e, n) = poll_lem 5 u.status some_ready in
      rw e (
        send_all_waits text (record { status = later; sent = u.sent ++ (a ∷ []) })
          (omega (arith, h, n)))
]
