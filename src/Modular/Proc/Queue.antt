-- ===== src/Modular/Proc/Queue.antt =====
-- The list of processes, and what a creation adds to it.
use bumbellbee_testing.Base.{
  ℕ, zero, suc, ◌+◌, ◌^◌, ◌%◌, ◌<◌, ◌≤◌, ◌≡◌, ◌≢◌, some, List, [], ◌∷◌, ◌++◌, All, arith, refl, ap,
  sym, ◌∙◌, length, ◌==◌, ==_ne, ==_refl, true, false, update,
}
use bumbellbee_testing.Base.Text.{codes}
use bumbellbee_testing.Modular.Mm.{Mm, mm_alloc}
use bumbellbee_testing.Modular.Screen.{kprint}
use bumbellbee_testing.Modular.Proc.{
  Process, ready, Procs, new_context, last, append, finish, numbered, proc_create,
}

-- The list from `p` on has exactly these processes, and ends.
abbrev pub Links : (ℕ → Process) → ℕ → List ℕ → Type 0
Links process p [] = p ≡ 0
Links process p (q ∷ qs) = (p ≡ q) × (q ≢ 0) × Links process (process q).next qs

abbrev pub Differs : ℕ → ℕ → Type 0
Differs p q = q ≢ p

abbrev pub Distinct : List ℕ → Type 0
Distinct [] = Unit
Distinct (q ∷ qs) = All (Differs q) qs × Distinct qs

-- A change of a process outside the list that starts at `p`.
pub Links-update :
    (process : ℕ → Process) (p x : ℕ) (v : Process) (qs : List ℕ)
    → All (Differs x) qs
    → Links process p qs
    → Links (update process x v) p qs
Links-update process p x v [] out h = h
Links-update process p x v (q ∷ qs) out (e, ne, rest) =
    (e, ne, rw (==_ne q x out.0) (Links-update process (process q).next x v qs out.1 rest))

abbrev pub linked : (ℕ → Process) → ℕ → ℕ → ℕ → Process
linked process l proc = update process l (record (process l) { next = proc })

-- The last process, and the list once the new one is linked behind it.
record Ends (fuel proc p : ℕ) (process : ℕ → Process) (qs : List ℕ) : Type 0 where
  end : ℕ
  found : last fuel process p ≡ some end
  longer : Links (linked process end proc) p (qs ++ (proc ∷ []))
  among : (x : ℕ) → All (Differs x) qs → end ≢ x

last-Ends :
    (fuel proc p q : ℕ) (process : ℕ → Process) (qs : List ℕ)
    → Links process p (q ∷ qs)
    → Distinct (q ∷ qs)
    → All (Differs proc) (q ∷ qs)
    → proc ≢ 0
    → (process proc).next ≡ 0
    → length qs < fuel
    → Ends fuel proc p process (q ∷ qs)
unfolding last
last-Ends zero proc p q process qs l d out ne z f = absurd (omega (arith, f))
last-Ends (suc fuel) proc p q process [] (e, nz, stop) d out ne z f =
    let fresh : proc ≢ q = λ same. out.0 (sym same) in
    let stops : ((process p).next == 0) ≡ true = rw (e, stop) refl in
    record {
      end = p;
      found = rw stops refl;
      longer = (e, nz, rw e (rw (==_refl q) (refl, ne, rw (==_ne proc q fresh) z)));
      among = λ x a. rw e a.0;
    }
last-Ends (suc fuel) proc p q process (r ∷ qs) (e, nz, rest) d out ne z f =
    let later =
      last-Ends fuel proc (process q).next r process qs rest d.1 out.1 ne z (omega (arith, f)) in
    let goes : ((process q).next == 0) ≡ false = rw rest.0 (==_ne r 0 rest.1) in
    let kept : q ≢ later.end = λ same. later.among q d.0 (sym same) in
    record {
      end = later.end;
      found = rw (e, goes) later.found;
      longer = (e, nz, rw (==_ne q later.end kept) later.longer);
      among = λ x a. later.among x a.1;
    }

-- A creation on a list: the new process stands at its end, ready to start at its entry on its own
-- stack, under the next number.
pub record Created (entry proc stack : ℕ) (qs : List ℕ) (s t : Procs) : Type 0 where
  pub listed : Links t.process t.proc_list (qs ++ (proc ∷ []))
  pub pid : (t.process proc).pid ≡ s.next_pid
  pub state : (t.process proc).state ≡ ready
  pub context : (t.process proc).context ≡ new_context entry stack
  pub following : t.next_pid ≡ (s.next_pid + 1) % 2 ^ 32

-- The list of `s`, outside of which `proc` lies.
pub record Apart (fuel proc : ℕ) (qs : List ℕ) (s : Procs) : Type 0 where
  pub links : Links s.process s.proc_list qs
  pub distinct : Distinct qs
  pub fresh : All (Differs proc) qs
  pub nonnull : proc ≢ 0
  pub enough : length qs ≤ fuel

append_lem :
    (fuel proc : ℕ) (qs : List ℕ) (s : Procs)
    → Apart fuel proc qs s
    → (s.process proc).next ≡ 0
    → (t : Procs) × (append fuel proc s ≡ some (proc, t))
      × Links t.process t.proc_list (qs ++ (proc ∷ []))
      × ((t.process proc) ≡ s.process proc)
      × (t.next_pid ≡ s.next_pid)
      × (t.mm ≡ s.mm)
unfolding append
append_lem fuel proc [] s a z =
    let e : s.proc_list ≡ 0 = a.links in
    (record s { proc_list = proc }, rw e refl, (refl, a.nonnull, z), refl, refl, refl)
append_lem fuel proc (q ∷ qs) s a z =
    let some_list : (s.proc_list == 0) ≡ false = rw a.links.0 (==_ne q 0 a.links.1) in
    let ends =
      last-Ends fuel proc s.proc_list q s.process qs a.links a.distinct a.fresh a.nonnull z
        (omega (arith, a.enough)) in
    let fresh : proc ≢ ends.end = λ same. ends.among proc a.fresh (sym same) in
    (
      record s { process = linked s.process ends.end proc },
      rw (some_list, ends.found) refl,
      ends.longer,
      rw (==_ne proc ends.end fresh) refl,
      refl,
      refl,
    )

-- A creation, with the heap that it leaves.
pub create-Created :
    (fuel entry proc stack : ℕ) (mm mm' : Mm) (qs : List ℕ) (s : Procs)
    → Apart fuel proc qs s
    → stack ≢ 0
    → mm_alloc fuel 56 s.mm ≡ some (proc, mm)
    → mm_alloc fuel 4096 mm ≡ some (stack, mm')
    → (t : Procs) × (proc_create fuel entry s ≡ some (proc, t))
      × Created entry proc stack qs s t
      × (t.mm ≡ mm')
unfolding proc_create numbered finish
create-Created fuel entry proc stack mm mm' qs s a nz block frame =
    let s' = numbered proc entry (record s { mm = mm }) in
    let s'' : Procs = record s' {
      mm = mm';
      process = update s'.process proc (record (s'.process proc) {
        context = new_context entry stack;
        page_directory = 0;
        next = 0;
      });
    } in
    let apart : Apart fuel proc qs s'' = record {
      links =
          Links-update _ s.proc_list proc _ qs a.fresh
            (Links-update _ s.proc_list proc _ qs a.fresh a.links);
      distinct = a.distinct;
      fresh = a.fresh;
      nonnull = a.nonnull;
      enough = a.enough;
    } in
    let (t, made, links, same, number, heap) =
      append_lem fuel proc qs s'' apart (rw (==_refl proc) refl) in
    (
      t,
      rw (block, ==_ne proc 0 a.nonnull, frame, ==_ne stack 0 nz) made,
      record {
        listed = links;
        pid = ap Process.pid same ∙ rw (==_refl proc) refl;
        state = ap Process.state same ∙ rw (==_refl proc) refl;
        context = ap Process.context same ∙ rw (==_refl proc) refl;
        following = number;
      },
      heap,
    )

-- If the heap grants a block for the process, outside the list and not null, and one for the stack,
-- and the fuel is at least the length of the list, proc_create returns the block, and the list then
-- ends with a process that is ready, has the next number and starts at the entry on that stack.
proc_create-Created :
    (fuel entry proc stack : ℕ) (mm mm' : Mm) (qs : List ℕ) (s : Procs)
    → Apart fuel proc qs s
    → stack ≢ 0
    → mm_alloc fuel 56 s.mm ≡ some (proc, mm)
    → mm_alloc fuel 4096 mm ≡ some (stack, mm')
    → (t : Procs) × (proc_create fuel entry s ≡ some (proc, t)) × Created entry proc stack qs s t
proc_create-Created fuel entry proc stack mm mm' qs s a nz block frame =
    let made = create-Created fuel entry proc stack mm mm' qs s a nz block frame in
    (made.0, made.1, made.2)

-- If the heap grants the block of the process and not the stack, proc_create returns the null
-- pointer and leaves the heap as the two requests did, with the block in use; the number is spent,
-- and the list is as before.
proc_create_leaks :
    (fuel entry proc : ℕ) (mm mm' : Mm) (s : Procs)
    → proc ≢ 0
    → mm_alloc fuel 56 s.mm ≡ some (proc, mm)
    → mm_alloc fuel 4096 mm ≡ some (0, mm')
    → (t : Procs) × (proc_create fuel entry s ≡ some (0, t))
      × (t.mm ≡ mm')
      × (t.next_pid ≡ (s.next_pid + 1) % 2 ^ 32)
      × (t.proc_list ≡ s.proc_list)
unfolding proc_create numbered finish
proc_create_leaks fuel entry proc mm mm' s nz block frame = (
  record (numbered proc entry (record s { mm = mm })) {
    mm = mm';
    screen = kprint (codes "proc_create: Out of memory for stack") s.screen;
  },
  rw (block, ==_ne proc 0 nz, frame) refl,
  refl,
  refl,
  refl,
)
