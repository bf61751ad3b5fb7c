-- ===== src/Modular/Irq/Wait.antt =====
-- modular-kernel/src/timer.c: the wait for a number of timer ticks, while requests arrive.
use mathlib.Core.Path.{subst}
use bumbellbee_testing.Base.{
  ℕ, zero, suc, ◌+◌, ◌%◌, ◌^◌, ◌<◌, ◌≤◌, ◌≡◌, true, false, Option, none, some, List, [], ◌∷◌, arith,
  refl, ap, sym, ◌∙◌, replicate, All, ltb, ◌==◌, Bool-cases, inl, inr, if◌then◌else◌,
}
use bumbellbee_testing.Modular.Irq.{
  Machine, timer_handler, keyboard_handler, irq_install_handler, timer_install, keyboard_install,
  irq_handler,
}
use bumbellbee_testing.Modular.Irq.Serve.{install, Served, all_requests_end}

-- Requests that are served one after the other, each with its vector and the byte that the keyboard's
-- port gives.
abbrev pub serve_all : List (ℕ × ℕ) → Machine → Machine
serve_all [] m = m
serve_all ((int_no, scancode) ∷ requests) m = serve_all requests (irq_handler int_no scancode m)

-- The loop, which leaves the counter to the requests: those that are served between two of its tests,
-- any number of them. `none` where it still waits behind the last.
wait_loop : ℕ → List (List (ℕ × ℕ)) → Machine → Option Machine
wait_loop eticks [] m = if ltb m.timer_ticks eticks then none else some m
wait_loop eticks (requests ∷ later) m =
    let rest = wait_loop eticks later (serve_all requests m) in
    if ltb m.timer_ticks eticks then rest else some m

pub timer_wait : ℕ → List (List (ℕ × ℕ)) → Machine → Option Machine
timer_wait ticks later m = wait_loop ((m.timer_ticks + ticks) % 2 ^ 32) later m

-- The requests of the timer.
abbrev pub timer_requests : List (ℕ × ℕ) → ℕ
timer_requests [] = 0
timer_requests ((int_no, scancode) ∷ requests) =
    (if int_no == 32 then 1 else 0) + timer_requests requests

abbrev pub all_timer_requests : List (List (ℕ × ℕ)) → ℕ
all_timer_requests [] = 0
all_timer_requests (requests ∷ later) = timer_requests requests + all_timer_requests later

-- The machine at the test number `n`, counted from zero.
abbrev pub at_test : ℕ → List (List (ℕ × ℕ)) → Machine → Machine
at_test zero later m = m
at_test (suc n) [] m = m
at_test (suc n) (requests ∷ later) m = at_test n later (serve_all requests m)

-- A vector of the controllers with a byte of the keyboard.
abbrev pub IsRequest : ℕ × ℕ → Type 0
IsRequest (int_no, scancode) = (32 ≤ int_no) × (int_no < 48) × (scancode < 256)

-- Both drivers' routines, and no other.
abbrev pub Installed : Machine → Type 0
Installed m = m.irq_routines ≡ some timer_handler ∷ some keyboard_handler ∷ replicate 14 none

pub install-Installed : (m : Machine) → Installed (install m)
unfolding timer_install keyboard_install irq_install_handler
install-Installed m = refl

install_again : (m : Machine) → Installed m → install m ≡ m
unfolding timer_install keyboard_install irq_install_handler
install_again m i = ap (λ r. record m { irq_routines = r }) (sym i)

irq_handler-Served :
    (int_no scancode : ℕ) (m : Machine)
    → Installed m
    → IsRequest (int_no, scancode)
    → Served int_no scancode m (irq_handler int_no scancode m)
irq_handler-Served int_no scancode m i (lo, hi, byte) =
    subst (λ n. Served int_no scancode n (irq_handler int_no scancode n)) (install_again m i)
      (all_requests_end int_no scancode m lo hi byte)

timer_tick :
    (int_no scancode : ℕ) (m m' : Machine)
    → Served int_no scancode m m'
    → (int_no == 32) ≡ true
    → m.timer_ticks + 1 < 2 ^ 32
    → m'.timer_ticks ≡ m.timer_ticks + 1
timer_tick int_no scancode m m' s tick small =
    subst (λ b. m'.timer_ticks ≡ (if b then (m.timer_ticks + 1) % 2 ^ 32 else m.timer_ticks)) tick
      s.ticks
    ∙ omega (arith, small)

no_timer_tick :
    (int_no scancode : ℕ) (m m' : Machine)
    → Served int_no scancode m m'
    → (int_no == 32) ≡ false
    → m'.timer_ticks ≡ m.timer_ticks
no_timer_tick int_no scancode m m' s other =
    subst (λ b. m'.timer_ticks ≡ (if b then (m.timer_ticks + 1) % 2 ^ 32 else m.timer_ticks)) other
      s.ticks

-- One request.
irq-ticks :
    (int_no scancode : ℕ) (m : Machine)
    → Installed m
    → IsRequest (int_no, scancode)
    → m.timer_ticks + (if int_no == 32 then 1 else 0) < 2 ^ 32
    → (irq_handler int_no scancode m).timer_ticks ≡ m.timer_ticks + (if int_no == 32 then 1 else 0)
irq-ticks int_no scancode m i r small =
    let s = irq_handler-Served int_no scancode m i r in
    elim (Bool-cases (int_no == 32)) [
      | inl tick ↦ rw tick (
          timer_tick int_no scancode m (irq_handler int_no scancode m) s tick
            (ground (arith, small, tick)))
      | inr no_tick ↦
          rw no_tick (
            no_timer_tick int_no scancode m (irq_handler int_no scancode m) s no_tick ∙ omega arith)
    ]

-- The requests between two tests.
serve_all_lem :
    (requests : List (ℕ × ℕ)) (m : Machine)
    → Installed m
    → All IsRequest requests
    → m.timer_ticks + timer_requests requests < 2 ^ 32
    → Installed (serve_all requests m)
      × ((serve_all requests m).timer_ticks ≡ m.timer_ticks + timer_requests requests)
serve_all_lem [] m i all small = (i, omega arith)
serve_all_lem ((int_no, scancode) ∷ requests) m i all small =
    let s = irq_handler-Served int_no scancode m i all.0 in
    let one = irq-ticks int_no scancode m i all.0 (omega (arith, small)) in
    let (j, more) =
      serve_all_lem requests (irq_handler int_no scancode m) (s.routines ∙ i) all.1
        (omega (arith, one, small)) in
    (j, omega (arith, more, one))

-- The loop ends at the first test that finds the counter at `eticks` or beyond.
pub record Ended (eticks : ℕ) (later : List (List (ℕ × ℕ))) (m m' : Machine) (n : ℕ) : Type 0 where
  pub served : m' ≡ at_test n later m
  pub reached : eticks ≤ m'.timer_ticks
  pub waited : (j : ℕ) → j < n → (at_test j later m).timer_ticks < eticks

-- One more round in front.
Ended-more :
    (eticks : ℕ) (requests : List (ℕ × ℕ)) (later : List (List (ℕ × ℕ))) (m m' : Machine) (n : ℕ)
    → m.timer_ticks < eticks
    → Ended eticks later (serve_all requests m) m' n
    → Ended eticks (requests ∷ later) m m' (suc n)
Ended-more eticks requests later m m' n below e = record {
  served = e.served;
  reached = e.reached;
  waited = earlier;
}
  where
    earlier : (j : ℕ) → j < suc n → (at_test j (requests ∷ later) m).timer_ticks < eticks
    earlier zero lt = below
    earlier (suc j) lt = e.waited j (omega (arith, lt))

wait_loop_lem :
    (eticks : ℕ) (later : List (List (ℕ × ℕ))) (m : Machine)
    → Installed m
    → All (All IsRequest) later
    → m.timer_ticks + all_timer_requests later < 2 ^ 32
    → eticks ≤ m.timer_ticks + all_timer_requests later
    → (m' : Machine) × (n : ℕ) × ((wait_loop eticks later m ≡ some m') × Ended eticks later m m' n)
unfolding wait_loop
wait_loop_lem eticks [] m i all small enough = (
  m,
  0,
  (
    ground (arith, enough),
    record {
      served = refl;
      reached = omega (arith, enough);
      waited = λ j lt. absurd (omega (arith, lt));
    },
  ),
)
wait_loop_lem eticks (requests ∷ later) m i all small enough =
    elim (Bool-cases (ltb m.timer_ticks eticks)) [
      | inr over ↦ (
        m,
        0,
        (
          rw over refl,
          record {
            served = refl;
            reached = ground (arith, over);
            waited = λ j lt. absurd (omega (arith, lt));
          },
        ),
      )
      | inl below ↦
          let (j, more) = serve_all_lem requests m i all.0 (omega (arith, small)) in
          let (m', n, r) =
            wait_loop_lem eticks later (serve_all requests m) j all.1 (omega (arith, more, small))
              (omega (arith, more, enough)) in
          (
            m',
            suc n,
            (rw below r.0, Ended-more eticks requests later m m' n (ground (arith, below)) r.1),
          )
    ]

-- While both drivers are installed and every request is one of the controllers', with any number of
-- requests served between two tests of the loop, timer_wait returns if the timer makes at least as many
-- of them as there are ticks to wait for, the counter staying below 2^32; it returns at the first test
-- that finds the counter moved on by that number or more.
pub timer_wait_lem :
    (ticks : ℕ) (later : List (List (ℕ × ℕ))) (m : Machine)
    → Installed m
    → All (All IsRequest) later
    → m.timer_ticks + all_timer_requests later < 2 ^ 32
    → ticks ≤ all_timer_requests later
    → (m' : Machine) × (n : ℕ) × ((timer_wait ticks later m ≡ some m')
        × Ended (m.timer_ticks + ticks) later m m' n)
unfolding timer_wait
timer_wait_lem ticks later m i all small enough =
    let e : (m.timer_ticks + ticks) % 2 ^ 32 ≡ m.timer_ticks + ticks =
      omega (arith, small, enough) in
    rw e (wait_loop_lem (m.timer_ticks + ticks) later m i all small (omega (arith, enough)))
