-- ===== src/Modular/Start/First.antt =====
-- The first process: its two blocks are the start of the free part of a heap.
use mathlib.Core.Path.{subst}
use bumbellbee_testing.Base.{
  ℕ, ◌+◌, ◌-◌, ◌<◌, ◌≤◌, ◌≡◌, ◌≢◌, true, leb, Option, none, some, List, [], ◌∷◌, arith, refl, ap,
  ◌∙◌, ==_ne, ==_refl, update,
}
use bumbellbee_testing.Modular.Mm.{Mm, mm_alloc, align8}
use bumbellbee_testing.Modular.Mm.Blocks.{Block, first_fit}
use bumbellbee_testing.Modular.Mm.Loop.{Finds}
use bumbellbee_testing.Modular.Mm.Heap
use bumbellbee_testing.Modular.Mm.Heap.{mm_alloc-Served}
use bumbellbee_testing.Modular.Proc.{
  Procs, ready, proc_create, numbered, finish, new_context, append,
}
use bumbellbee_testing.Modular.Proc.Queue.{Links}

-- A request that is granted from the one free block.
pub record Granted (base size start room : ℕ) (live : List Block) (m m' : Mm) (fuel : ℕ)
    : Type 0 where
  pub found : mm_alloc fuel size m ≡ some (start + 8, m')
  pub valid : Heap.IsValid base m' ((start + 8 + size, room - size - 8) ∷ []) ((start, size) ∷ live)

-- A process that is ready, alone in the list.
pub record First (entry proc : ℕ) (mm' : Mm) (s t : Procs) : Type 0 where
  pub links : Links t.process t.proc_list (proc ∷ [])
  pub is_ready : (t.process proc).state ≡ ready
  pub entered : (t.process proc).context.eip ≡ entry
  pub number : (t.process proc).pid ≡ s.next_pid
  pub heap : t.mm ≡ mm'
  pub current : t.current_proc ≡ s.current_proc
  pub shown : t.screen ≡ s.screen

-- From a free block with room to spare, the block granted is the start of it.
module _ (base size start room fuel : ℕ) (live : List Block) (m : Mm)
    (v : Heap.IsValid base m ((start, room) ∷ []) live) where
  abbrev rest : List Block
  rest = (start + 8 + size, room - size - 8) ∷ []

  taken :
      (o : Option (ℕ × Mm))
      → mm_alloc fuel size m ≡ o
      → Finds
          (λ r. Heap.Served base m ((start, room) ∷ []) live v size r (some ((start, size), rest)))
          o
      → (m' : Mm) × Granted base size start room live m m' fuel
  taken none e h = absurd h
  taken (some (p, m')) e h = (m', record { found = e ∙ ap (λ q. some (q, m')) h.0; valid = h.3 })

  fits : size + 16 ≤ room → first_fit size ((start, room) ∷ []) ≡ some ((start, size), rest)
  unfolding first_fit
  fits big =
      let room_for : leb size room ≡ true = ground (arith, big) in
      let spare : leb (size + 16) room ≡ true = ground (arith, big) in rw (room_for, spare) refl

  pub grant :
      align8 size ≡ size
      → size + 16 ≤ room
      → 1 < fuel
      → (m' : Mm) × Granted base size start room live m m' fuel
  grant round big enough =
      let found =
        mm_alloc-Served base m ((start, room) ∷ []) live v fuel size (omega (arith, enough)) in
      taken (mm_alloc fuel size m) refl (
        subst
          (λ o.
            Finds (λ r. Heap.Served base m ((start, room) ∷ []) live v size r o)
              (mm_alloc fuel size m))
          (fits big)
          (subst
            (λ n.
              Finds
                (λ r.
                  Heap.Served base m ((start, room) ∷ []) live v n r
                    (first_fit n ((start, room) ∷ [])))
                (mm_alloc fuel size m))
            round found))

-- The first process, on an empty list.
pub sole_process :
    (fuel entry proc stack : ℕ) (mm mm' : Mm) (s : Procs)
    → s.proc_list ≡ 0
    → proc ≢ 0
    → stack ≢ 0
    → mm_alloc fuel 56 s.mm ≡ some (proc, mm)
    → mm_alloc fuel 4096 mm ≡ some (stack, mm')
    → (t : Procs) × ((proc_create fuel entry s ≡ some (proc, t)) × First entry proc mm' s t)
unfolding proc_create numbered finish append
sole_process fuel entry proc stack mm mm' s empty nz nz' block frame =
    let n = numbered proc entry (record s { mm = mm }) in
    let t : Procs = record n {
      mm = mm';
      process = update n.process proc (record (n.process proc) {
        context = new_context entry stack;
        page_directory = 0;
        next = 0;
      });
      proc_list = proc;
    } in
    (
      t,
      (
        rw (block, ==_ne proc 0 nz, frame, ==_ne stack 0 nz', empty) refl,
        record {
          links = (refl, nz, rw (==_refl proc) refl);
          is_ready = rw (==_refl proc) refl;
          entered = rw (==_refl proc) refl;
          number = rw (==_refl proc) refl;
          heap = refl;
          current = refl;
          shown = refl;
        },
      ),
    )
