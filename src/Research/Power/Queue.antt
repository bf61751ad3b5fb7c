-- ===== src/Research/Power/Queue.antt =====
-- The keyboard ring as the list of keys that wait, and what a flush does with them.
use bumbellbee_testing.Base.{
  ℕ, zero, suc, ◌+◌, ◌-◌, ◌%◌, ◌<◌, ◌≤◌, ◌≡◌, true, false, List, [], ◌∷◌, ◌++◌, arith, ◌==◌, ltb,
  Bool-cases, inl, inr, if◌then◌else◌, refl, ap, set, get_or, length, get_or-set_self,
  get_or-set_ne, ==_refl, ==_ne,
}
use bumbellbee_testing.Research.Core.{Core, inc64}
use bumbellbee_testing.Research.Power.{Power, deliver, flush_loop, flush_keyboard_queue, enqueue}

-- The `n` keys from index `t` on, going round the ring.
abbrev pub span : List ℕ → ℕ → ℕ → List ℕ
span q zero t = []
span q (suc n) t = get_or q t 0 ∷ span q n ((t + 1) % 256)

abbrev pub waiting : Power → ℕ
waiting p = (p.keyboard_queue_head + 256 - p.keyboard_queue_tail) % 256

-- The keys that wait, the oldest first.
abbrev pub pending : Power → List ℕ
pending p = span p.keyboard_queue (waiting p) p.keyboard_queue_tail

pub record QueueValid (p : Power) : Type 0 where
  pub room : length p.keyboard_queue ≡ 256
  pub head_in : p.keyboard_queue_head < 256
  pub tail_in : p.keyboard_queue_tail < 256

length-span : (q : List ℕ) (n t : ℕ) → length (span q n t) ≡ n
length-span q zero t = refl
length-span q (suc n) t = ap suc (length-span q n ((t + 1) % 256))

-- A store behind the span extends it.
span-set :
    (q : List ℕ) (key n t h : ℕ)
    → length q ≡ 256
    → t < 256
    → n < 256
    → h ≡ (t + n) % 256
    → span (set q h key) (suc n) t ≡ span q n t ++ (key ∷ [])
span-set q key zero t h room ht hn e =
    let h' : h ≡ t = omega arith in
    rw h' (ap (λ x. x ∷ []) (get_or-set_self q t key 0 (omega arith)))
span-set q key (suc n) t h room ht hn e = rw (get_or-set_ne q h t key 0 (omega arith)) (
    ap (λ r. get_or q t 0 ∷ r)
      (span-set q key n ((t + 1) % 256) h room (omega arith) (omega arith) (omega arith)))

-- Keys that reach the screen and the shell one after the other.
abbrev pub deliver_all : List ℕ → Core → Core
deliver_all [] c = c
deliver_all (k ∷ ks) c = deliver_all ks (deliver k c)

flush_loop_lem :
    (n fuel : ℕ) (q : List ℕ) (h t ticks : ℕ) (c : Core)
    → n ≤ fuel
    → h < 256
    → t < 256
    → (h + 256 - t) % 256 ≡ n
    → flush_loop fuel (record {
      core = c;
      keyboard_queue = q;
      keyboard_queue_head = h;
      keyboard_queue_tail = t;
      ticks_since_flush = ticks;
    })
      ≡ record {
        core = deliver_all (span q n t) c;
        keyboard_queue = q;
        keyboard_queue_head = h;
        keyboard_queue_tail = h;
        ticks_since_flush = ticks;
      }
unfolding flush_loop
flush_loop_lem zero zero q h t ticks c le hh ht e = let same : t ≡ h = omega arith in rw same
flush_loop_lem zero (suc fuel) q h t ticks c le hh ht e =
    let same : t ≡ h = omega arith in rw (same, ==_refl h)
flush_loop_lem (suc n) zero q h t ticks c le hh ht e = absurd (omega arith)
flush_loop_lem (suc n) (suc fuel) q h t ticks c le hh ht e = rw (
  ==_ne t h (omega arith),
  flush_loop_lem n fuel q h ((t + 1) % 256) ticks (deliver (get_or q t 0) c) (omega arith) hh
      (omega arith) (omega arith),
)

-- On a valid key ring, flush_keyboard_queue does nothing if the ring is empty; otherwise it
-- counts one wakeup, delivers every waiting key in order and leaves the ring empty.
pub flush_lem :
    (p : Power)
    → QueueValid p
    → flush_keyboard_queue p ≡ (
        if p.keyboard_queue_head == p.keyboard_queue_tail then p else record p {
          core =
              deliver_all
                (pending p)
                (record p.core { metric_wakeups = inc64 p.core.metric_wakeups });
          keyboard_queue_tail = p.keyboard_queue_head;
        })
unfolding flush_keyboard_queue
flush_lem p v = rw (
    flush_loop_lem (waiting p) 256 p.keyboard_queue p.keyboard_queue_head p.keyboard_queue_tail
      p.ticks_since_flush _ (omega arith) v.head_in v.tail_in refl)

-- On a valid key ring, storing a key appends it to the waiting keys if fewer than 255 wait, and
-- otherwise leaves them unchanged.
pub enqueue_lem :
    (key : ℕ) (p : Power)
    → QueueValid p
    → pending (enqueue key p)
      ≡ (if ltb (length (pending p)) 255 then pending p ++ (key ∷ []) else pending p)
unfolding enqueue
enqueue_lem key p v =
    let n = waiting p in
    let h = p.keyboard_queue_head in
    let t = p.keyboard_queue_tail in
    rw (length-span p.keyboard_queue n t) (elim (Bool-cases ((h + 1) % 256 == t)) [
      | inl full ↦ let e : ltb n 255 ≡ false = ground (arith, v.head_in, v.tail_in) in rw (full, e)
      | inr room ↦
          let e : ltb n 255 ≡ true = ground (arith, v.head_in, v.tail_in) in
          let grown : ((h + 1) % 256 + 256 - t) % 256 ≡ suc n =
            ground (arith, v.head_in, v.tail_in) in
          rw (room, e, grown)
            (span-set p.keyboard_queue key n t h v.room v.tail_in (omega arith)
              (omega (arith, v.head_in, v.tail_in)))
    ])
