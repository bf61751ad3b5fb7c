-- ===== src/Replay/Session/Lost.antt =====
-- Which keys the shell gets, and which the interrupts overwrite or the reset clears.
use mathlib.Core.Path.{subst}
use mathlib.Core.Option.{none-ne-some}
use bumbellbee_testing.Base.{
  ℕ, ◌≡◌, Bool, true, false, not, Option, none, some, List, [], ◌∷◌, ◌++◌, leb, ◌==◌, arith, refl,
  ap, sym, ◌∙◌, Bool-cases, inl, inr, if◌then◌else◌, is_some,
}
use bumbellbee_testing.Replay.Console.{key_char, keep_char, shell_run, Keyboard, keyboard_callback}
use bumbellbee_testing.Replay.Dispatch.{Machine, callback, end_of_interrupt, irq_handler}
use bumbellbee_testing.Replay.Session.{Event, request, turn, Console, Session, type_char, run}

-- The key that a request brings.
abbrev pub key_of : ℕ → ℕ → Option ℕ
key_of int_no scancode = if int_no == 33 then key_char scancode else none

-- Whether a key that has just arrived is loaded: the next turn comes before the next key, and it is
-- not the one that resets (`resets`).
abbrev pub is_loaded : (resets : Bool) → List Event → Bool
is_loaded resets [] = false
is_loaded resets (turn ∷ es) = not resets
is_loaded resets (request int_no scancode ∷ es) =
    if is_some (key_of int_no scancode) then false else is_loaded resets es

abbrev pub keep_if : Bool → Option ℕ → List ℕ → List ℕ
keep_if loaded none rest = rest
keep_if loaded (some c) rest = if loaded then c ∷ rest else rest

-- The keys that are loaded, by what comes behind each of them.
abbrev pub heard : (resets : Bool) → List Event → List ℕ
heard resets [] = []
heard resets (turn ∷ es) = heard (not resets) es
heard resets (request int_no scancode ∷ es) =
    keep_if (is_loaded resets es) (key_of int_no scancode) (heard resets es)

-- Characters typed one after the other.
abbrev pub type_all : List ℕ → Console → Console
type_all [] k = k
type_all (c ∷ cs) k = type_all cs (type_char c k)

abbrev pick : Option ℕ → ℕ → ℕ
pick none p = p
pick (some c) p = c

last_char-keep : (o : Option ℕ) (k : Keyboard) → (keep_char o k).last_char ≡ pick o k.last_char
last_char-keep none k = refl
last_char-keep (some c) k = refl

last_char-end :
    (int_no : ℕ) (m : Machine)
    → (end_of_interrupt int_no m).keyboard.last_char ≡ m.keyboard.last_char
unfolding end_of_interrupt
last_char-end int_no m = elim (Bool-cases (leb 40 int_no)) [
  | inl slave ↦ rw slave refl
  | inr master ↦ rw master refl
]

-- The character in flight behind a request.
last_char-irq :
    (int_no scancode : ℕ) (m : Machine)
    → (irq_handler int_no scancode m).keyboard.last_char
      ≡ pick (key_of int_no scancode) m.keyboard.last_char
unfolding irq_handler keyboard_callback
last_char-irq int_no scancode m =
    last_char-end int_no (callback int_no scancode m) ∙ elim (Bool-cases (int_no == 32)) [
      | inl tick ↦
          let other : (int_no == 33) ≡ false = ground (arith, tick) in rw (tick, other) refl
      | inr no_tick ↦ elim (Bool-cases (int_no == 33)) [
        | inl key ↦ rw (no_tick, key) (last_char-keep (key_char scancode) _)
        | inr no_key ↦ rw (no_tick, no_key) refl
      ]
    ]

type_char-zero : (k : Console) → type_char 0 k ≡ k
unfolding type_char shell_run
type_char-zero k = refl

-- While the reset is due no key is loaded.
reset_clears : (es : List Event) → is_loaded true es ≡ false
reset_clears [] = refl
reset_clears (turn ∷ es) = refl
reset_clears (request int_no scancode ∷ es) = elim (Bool-cases (is_some (key_of int_no scancode))) [
  | inl key ↦ rw key refl
  | inr no_key ↦ rw no_key (reset_clears es)
]

-- What is loaded of the characters in flight.
abbrev in_flight : Option ℕ → ℕ → List Event → List ℕ
in_flight (some c) p es = c ∷ []
in_flight none p es = if is_loaded false es then p ∷ [] else []

-- A request, by its key.
request_lem :
    (o held : Option ℕ) (p : ℕ) (es : List Event) (int_no scancode : ℕ)
    → key_of int_no scancode ≡ o
    → in_flight held (pick o p) es ++ heard (is_some held) es
      ≡ in_flight held p (request int_no scancode ∷ es)
        ++ heard (is_some held) (request int_no scancode ∷ es)
request_lem none none p es int_no scancode e = rw e refl
request_lem none (some c) p es int_no scancode e = rw e refl
request_lem (some q) none p es int_no scancode e = elim (Bool-cases (is_loaded false es)) [
  | inl loaded ↦ rw (e, loaded) refl
  | inr lost ↦ rw (e, lost) refl
]
request_lem (some q) (some c) p es int_no scancode e = rw (e, reset_clears es) refl

drop_zero :
    (b : Bool) (cs : List ℕ) (k : Console)
    → type_all ((if b then 0 ∷ [] else []) ++ cs) k ≡ type_all cs k
drop_zero true cs k = ap (type_all cs) (type_char-zero k)
drop_zero false cs k = refl

session_lem :
    (es : List Event) (held : Option ℕ) (m : Machine) (k : Console)
    → let s = run es (record { machine = m; held = held; console = k }) in
      s.held ≡ none
      → s.console ≡ type_all (in_flight held m.keyboard.last_char es ++ heard (is_some held) es) k
session_lem [] none m k done = refl
session_lem [] (some c) m k done = absurd (none-ne-some _ (sym done))
session_lem (turn ∷ es) none m k done = session_lem es (some m.keyboard.last_char) m k done
session_lem (turn ∷ es) (some c) m k done =
    session_lem es none _ (type_char c k) done
    ∙ drop_zero (is_loaded false es) (heard false es) (type_char c k)
session_lem (request int_no scancode ∷ es) held m k done =
    session_lem es held (irq_handler int_no scancode m) k done
    ∙ ap (λ p. type_all (in_flight held p es ++ heard (is_some held) es) k)
        (last_char-irq int_no scancode m)
    ∙ ap (λ cs. type_all cs k)
        (request_lem (key_of int_no scancode) held m.keyboard.last_char es int_no scancode refl)

-- From a shell between two rounds and no character in flight, in every interleaving of requests with
-- the turns of the shell's loop that ends between two rounds, the shell gets exactly the keys whose
-- next turn is a load and comes before the next key, in their order, and it calls the commands that it
-- calls when these keys alone are typed; a key that comes between the load and the reset is lost.
pub shell_hears :
    (es : List Event) (s : Session)
    → s.held ≡ none
    → s.machine.keyboard.last_char ≡ 0
    → (run es s).held ≡ none
    → (run es s).console ≡ type_all (heard false es) s.console
shell_hears es s between empty done =
    let free : record s { held = none } ≡ s = ap (λ h. record s { held = h }) (sym between) in
    let typed =
      subst
        (λ t.
          (run es t).held ≡ none
          → (run es t).console
            ≡ type_all (in_flight none s.machine.keyboard.last_char es ++ heard false es) s.console)
        free (session_lem es none s.machine s.console) done in
    typed
    ∙ ap (λ p. type_all (in_flight none p es ++ heard false es) s.console) empty
    ∙ drop_zero (is_loaded false es) (heard false es) s.console
