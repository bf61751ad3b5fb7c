-- ===== src/Research/Terminal/Serves.antt =====
-- Interrupts that print: what goes out on the serial line, and how long it must be free.
use mathlib.Core.List.{reverse}
use bumbellbee_testing.Base.{
  ℕ, ◌+◌, ◌<◌, ◌≤◌, ◌≡◌, none, some, List, [], ◌∷◌, ◌++◌, All, Bool-cases, arith, inl, inr, leb,
  length, length-append, refl, ap, sym, ◌∙◌,
}
use mathlib.Core.List.{append_assoc, append-nil}
use bumbellbee_testing.Base.Uart.{Uart, ready, Sent, send_all_lem, send_all_waits}
use bumbellbee_testing.Research.Irq.{Machine, irq_handler}
use bumbellbee_testing.Research.Irq.Serve.{Installed, Request, vector, irq_handler_lem}
use bumbellbee_testing.Research.Vga.{Vga}
use bumbellbee_testing.Research.Terminal.{Terminal, shown, unlogged, serve_one, serve_all}

abbrev terminal : Machine → Vga → Uart → Terminal
terminal m v u = record { machine = m; screen = v; line = u }

-- What the run needs of the line, and what it leaves.
pub record Prints (is : List (Request × ℕ)) (text : List ℕ) (m n : Machine) (v w : Vga)
    : Type 0 where
  pub installed : Installed n
  pub free :
      (u : Uart)
      → length text ≤ ready 5 u.status
      → (u' : Uart) × ((serve_all is (record { machine = m; screen = v; line = u })
            ≡ some (record { machine = n; screen = w; line = u' }))
          × Sent text u u')
  pub busy :
      (u : Uart)
      → ready 5 u.status < length text
      → serve_all is (record { machine = m; screen = v; line = u }) ≡ none

unlogged-Installed : (m : Machine) → Installed m → Installed (unlogged m)
unlogged-Installed m i =
    let p = i.power_valid in
    record {
      timer_routine = i.timer_routine;
      keyboard_routine = i.keyboard_routine;
      power_valid = record {
        queue = record {
          room = p.queue.room;
          head_in = p.queue.head_in;
          tail_in = p.queue.tail_in;
        };
        core = record {
          line = record {
            room = p.core.line.room;
            short = p.core.line.short;
            bytes = p.core.line.bytes;
            letters = p.core.line.letters;
          };
          io = record {
            room = p.core.io.room;
            few = p.core.io.few;
            accounted = p.core.io.accounted;
          };
        };
        letters = p.letters;
        order = p.order;
      };
    }

Sent-append : (s t : List ℕ) (u v w : Uart) → Sent s u v → Sent t v w → Sent (s ++ t) u w
Sent-append s t u v w a b = record {
  sent = b.sent ∙ ap (λ l. l ++ t) a.sent ∙ append_assoc u.sent s t;
  left = omega (arith, a.left, b.left, length-append s t);
}

serve_one-free :
    (r : Request) (scancode : ℕ) (m n : Machine) (v : Vga) (u : Uart)
    → irq_handler (vector r) scancode (unlogged m) ≡ some n
    → length (reverse (shown n v).serial) ≤ ready 5 u.status
    → (u' : Uart) × ((serve_one r scancode (terminal m v u) ≡ some (terminal n (shown n v) u'))
        × Sent (reverse (shown n v).serial) u u')
unfolding serve_one irq_handler
serve_one-free r scancode m n v u e h =
    let (u', (is, s)) = send_all_lem (reverse (shown n v).serial) u h in (u', (rw (e, is) refl, s))

serve_one-busy :
    (r : Request) (scancode : ℕ) (m n : Machine) (v : Vga) (u : Uart)
    → irq_handler (vector r) scancode (unlogged m) ≡ some n
    → ready 5 u.status < length (reverse (shown n v).serial)
    → serve_one r scancode (terminal m v u) ≡ none
unfolding serve_one irq_handler
serve_one-busy r scancode m n v u e h = rw (e, send_all_waits (reverse (shown n v).serial) u h) refl

-- From a valid state with both drivers installed, for any list of timer and keyboard interrupts,
-- whatever bytes the keyboard's port gives, there are bytes such that the list is served to its end
-- where as many of the statuses to come tell that the serial line is free, with exactly these bytes
-- sent, in order, and the drivers installed and the state valid again; with fewer such statuses an
-- interrupt waits for ever. The bytes and the state left do not depend on the line.
pub interrupts_print :
    (is : List (Request × ℕ)) (m : Machine) (v : Vga)
    → Installed m
    → All (λ i. i.1 < 256) is
    → (text : List ℕ) × (n : Machine) × (w : Vga) × Prints is text m n v w
unfolding serve_all
interrupts_print [] m v i lt = (
  [],
  m,
  v,
  record {
    installed = i;
    free = λ u h. (u, (refl, record { sent = sym (append-nil u.sent); left = omega arith }));
    busy = λ u h. absurd (omega (arith, h));
  },
)
interrupts_print ((r, scancode) ∷ is) m v i lt =
    let (n, (e, s)) = irq_handler_lem r scancode (unlogged m) lt.0 (unlogged-Installed m i) in
    let (text, o, w, p) = interrupts_print is n (shown n v) s.installed lt.1 in
    let first : List ℕ = reverse (shown n v).serial in
    let sum : length (first ++ text) ≡ length first + length text = length-append first text in
    (
      first ++ text,
      o,
      w,
      record {
        installed = p.installed;
        free = λ u h.
            let (u', (one, a)) = serve_one-free r scancode m n v u e (omega (arith, h, sum)) in
            let (u'', (more, b)) = p.free u' (omega (arith, h, sum, a.left)) in
            (u'', (rw one more, Sent-append first text u u' u'' a b));
        busy = λ u h. elim (Bool-cases (leb (length first) (ready 5 u.status))) [
          | inl enough ↦
              let (u', (one, a)) = serve_one-free r scancode m n v u e (ground (arith, enough)) in
              rw one (p.busy u' (omega (arith, h, sum, a.left)))
          | inr few ↦ rw (serve_one-busy r scancode m n v u e (ground (arith, few))) refl
        ];
      },
    )
