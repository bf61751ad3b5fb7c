-- ===== src/Modular/Proc/Rounds.antt =====
-- Every process of the list gets its turn and ends.
use bumbellbee_testing.Base.{
  ℕ, zero, suc, ◌≡◌, ◌≢◌, List, [], ◌∷◌, All, All-mono, All-both, refl, ap, sym, ◌∙◌, length, ◌==◌,
  ==_ne, ==_refl, false,
}
use bumbellbee_testing.Modular.Screen.{Screen}
use bumbellbee_testing.Modular.Proc.{
  Process, ready, terminated, Procs, turn, run_current, proc_schedule,
}
use bumbellbee_testing.Modular.Proc.Queue.{Links, Links-update, Differs, Distinct}

-- Functions that print and return.
abbrev pub printing : (ℕ → Screen → Screen) → ℕ → Procs → Procs
printing effect entry s = record s { screen = effect entry s.screen }

-- Successive calls of the scheduler.
abbrev pub rounds : (ℕ → Procs → Procs) → ℕ → Procs → Procs
rounds enter zero s = s
rounds enter (suc n) s = rounds enter n (proc_schedule enter s)

-- The functions of the processes, called in the order of the list.
abbrev pub called : (ℕ → Screen → Screen) → (ℕ → Process) → List ℕ → Screen → Screen
called effect process [] screen = screen
called effect process (q ∷ qs) screen =
    called effect process qs (effect (process q).context.eip screen)

abbrev pub IsReady : (ℕ → Process) → ℕ → Type 0
IsReady process q = (process q).state ≡ ready

abbrev pub IsTerminated : (ℕ → Process) → ℕ → Type 0
IsTerminated process q = (process q).state ≡ terminated

module _ (effect : ℕ → Screen → Screen) where
  -- The state behind one turn of a ready process.
  abbrev pub stepped : ℕ → Procs → Procs
  stepped q s = run_current (printing effect) (record s { current_proc = q })

  pub step :
      (q : ℕ) (s : Procs)
      → turn s ≡ q
      → s.proc_list ≢ 0
      → IsReady s.process q
      → proc_schedule (printing effect) s ≡ stepped q s
  unfolding proc_schedule
  step q s e ne r = rw (==_ne s.proc_list 0 ne, e, r) refl

  stepped-other : (q p : ℕ) (s : Procs) → p ≢ q → (stepped q s).process p ≡ s.process p
  stepped-other q p s ne = rw (==_ne p q ne) refl

  pub stepped-next : (q : ℕ) (s : Procs) → ((stepped q s).process q).next ≡ (s.process q).next
  stepped-next q s = rw (==_refl q) refl

  pub stepped-terminated : (q : ℕ) (s : Procs) → IsTerminated (stepped q s).process q
  stepped-terminated q s = rw (==_refl q) refl

  pub stepped-screen :
      (q : ℕ) (s : Procs) → (stepped q s).screen ≡ effect (s.process q).context.eip s.screen
  stepped-screen q s = rw (==_refl q) refl

  -- What the turns of a whole list come to.
  pub record Done (qs : List ℕ) (s t : Procs) : Type 0 where
    pub ended : All (IsTerminated t.process) qs
    pub shown : t.screen ≡ called effect s.process qs s.screen
    pub kept : (p : ℕ) → All (Differs p) qs → t.process p ≡ s.process p

  called-same :
      (f g : ℕ → Process) (qs : List ℕ) (screen : Screen)
      → All (λ q. f q ≡ g q) qs
      → called effect f qs screen ≡ called effect g qs screen
  called-same f g [] screen h = refl
  called-same f g (q ∷ qs) screen h =
      rw h.0 (called-same f g qs (effect (g q).context.eip screen) h.1)

  Done-step :
      (qs : List ℕ) (n : ℕ) (s u : Procs)
      → proc_schedule (printing effect) s ≡ u
      → Done qs s (rounds (printing effect) n u)
      → Done qs s (rounds (printing effect) (suc n) s)
  Done-step qs n s u e d = rw e d

  rounds-Done :
      (q : ℕ) (qs : List ℕ) (s : Procs)
      → turn s ≡ q
      → s.proc_list ≢ 0
      → q ≢ 0
      → Links s.process (s.process q).next qs
      → Distinct (q ∷ qs)
      → All (IsReady s.process) (q ∷ qs)
      → Done (q ∷ qs) s (rounds (printing effect) (suc (length qs)) s)
  rounds-Done q [] s e ne nz l d r = rw (step q s e ne r.0) (record {
    ended = (stepped-terminated q s, tt);
    shown = stepped-screen q s;
    kept = λ p a. stepped-other q p s (λ same. a.0 (sym same));
  })
  rounds-Done q (x ∷ qs) s e ne nz l d r =
      let s' = stepped q s in
      let more : (s.process q).next == 0 ≡ false = rw l.0 (==_ne x 0 l.1) in
      let next : (s'.process q).next ≡ (s.process q).next = stepped-next q s in
      let turn' : turn s' ≡ x = rw (==_ne q 0 nz, next, more) l.0 in
      let same = All-mono (x ∷ qs) (λ p far. stepped-other q p s far) d.0 in
      let links : Links s'.process (s'.process x).next qs =
        rw same.0 (Links-update _ _ q _ qs d.0.1 (Links-update _ _ q _ qs d.0.1 l.2)) in
      let alive = All-both (x ∷ qs) (λ p e ready_p. ap Process.state e ∙ ready_p) same r.1 in
      let later = rounds-Done x qs s' turn' ne l.1 links d.1 alive in
      let shown =
        later.shown
        ∙ (called-same s'.process s.process (x ∷ qs) s'.screen same
            ∙ ap (called effect s.process (x ∷ qs)) (stepped-screen q s)) in
      Done-step (q ∷ x ∷ qs) (suc (length qs)) s s' (step q s e ne r.0) (record {
        ended = (ap Process.state (later.kept q d.0) ∙ stepped-terminated q s, later.ended);
        shown = shown;
        kept = λ p a. later.kept p a.1 ∙ stepped-other q p s (λ same. a.0 (sym same));
      })

  -- If every function prints and returns, and no process of the list has had its turn yet, then as
  -- many calls of proc_schedule as there are processes, all of them ready, end every one of them: each
  -- function is called once, in the order of the list, and no process outside the list changes.
  pub every_process_ends :
      (qs : List ℕ) (s : Procs)
      → Links s.process s.proc_list qs
      → Distinct qs
      → All (IsReady s.process) qs
      → s.current_proc ≡ 0
      → Done qs s (rounds (printing effect) (length qs) s)
  every_process_ends [] s l d r e = record { ended = tt; shown = refl; kept = λ p a. refl }
  every_process_ends (q ∷ qs) s l d r e =
      let some_list : s.proc_list ≢ 0 = λ nul. l.1 (sym l.0 ∙ nul) in
      rounds-Done q qs s (rw e l.0) some_list l.1 l.2 d r
