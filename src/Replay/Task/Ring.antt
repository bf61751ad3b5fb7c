-- ===== src/Replay/Task/Ring.antt =====
-- The scheduler takes the tasks of the ring in turn.
use bumbellbee_testing.Base.{
  ℕ, suc, ◌+◌, ◌*◌, ◌%◌, ◌^◌, ◌≡◌, ◌≢◌, true, some, List, [], ◌∷◌, ◌++◌, All, refl, ap, sym, ◌∙◌,
  ◌==◌, ==_ne, ==_refl, ==_iff, All-mono, All-snoc, Bool-cases, inl, inr, if◌then◌else◌,
}
use bumbellbee_testing.Replay.Task.{
  Task, Scheduler, runnable, scheduler_next, save_stack, switch_to, run_task, scheduler_schedule,
  new_task, link_task, task_create, initial_context, task_ready,
}
use bumbellbee_testing.Replay.Pmm.{pmm_alloc_frame}

-- The links lead from `a` through the addresses to `z`.
abbrev pub Links : (ℕ → Task) → ℕ → List ℕ → ℕ → Type 0
Links tasks a [] z = (tasks a).next ≡ z
Links tasks a (y ∷ ys) z = ((tasks a).next ≡ y) × Links tasks y ys z

abbrev pub Runs : (ℕ → Task) → ℕ → Type 0
Runs tasks a = runnable (tasks a).state ≡ true

-- The current task heads the ring, and every task of it can run.
pub record Round (s : Scheduler) (p : ℕ) (others : List ℕ) : Type 0 where
  pub current : s.current_task ≡ p
  pub real : p ≢ 0
  pub others_real : All (λ a. a ≢ 0) others
  pub links : Links s.tasks p others p
  pub runs : Runs s.tasks p
  pub others_run : All (Runs s.tasks) others

-- The task whose turn is next, and those behind it.
abbrev pub next_turn : ℕ → List ℕ → ℕ
next_turn p [] = p
next_turn p (y ∷ ys) = y

abbrev pub next_others : ℕ → List ℕ → List ℕ
next_others p [] = []
next_others p (y ∷ ys) = ys ++ (p ∷ [])

Links-same :
    (t u : ℕ → Task) (a : ℕ) (ys : List ℕ) (z : ℕ)
    → ((b : ℕ) → (u b).next ≡ (t b).next)
    → Links t a ys z
    → Links u a ys z
Links-same t u a [] z same h = same a ∙ h
Links-same t u a (y ∷ ys) z same h = (same a ∙ h.0, Links-same t u y ys z same h.1)

Links-snoc :
    (t : ℕ → Task) (a : ℕ) (ys : List ℕ) (p z : ℕ)
    → Links t a ys p
    → (t p).next ≡ z
    → Links t a (ys ++ (p ∷ [])) z
Links-snoc t a [] p z h e = (h, e)
Links-snoc t a (y ∷ ys) p z h e = (h.0, Links-snoc t y ys p z h.1 e)

-- What saving the stack pointer changes.
saved-next : (sp b : ℕ) (s : Scheduler) → ((save_stack sp s).tasks b).next ≡ (s.tasks b).next
saved-next sp b s = elim (Bool-cases (s.current_task == 0)) [
  | inl null ↦ rw null
  | inr real ↦ elim (Bool-cases (b == s.current_task)) [
    | inl same ↦ let e : b ≡ s.current_task = (==_iff b s.current_task).0 same in rw (real, same, e)
    | inr other ↦ rw (real, other)
  ]
]

saved-state : (sp b : ℕ) (s : Scheduler) → ((save_stack sp s).tasks b).state ≡ (s.tasks b).state
saved-state sp b s = elim (Bool-cases (s.current_task == 0)) [
  | inl null ↦ rw null
  | inr real ↦ elim (Bool-cases (b == s.current_task)) [
    | inl same ↦ let e : b ≡ s.current_task = (==_iff b s.current_task).0 same in rw (real, same, e)
    | inr other ↦ rw (real, other)
  ]
]

saved-stack_ptr :
    (sp b : ℕ) (s : Scheduler)
    → s.current_task ≢ 0
    → ((save_stack sp s).tasks b).stack_ptr
      ≡ (if b == s.current_task then sp else (s.tasks b).stack_ptr)
saved-stack_ptr sp b s real = elim (Bool-cases (b == s.current_task)) [
  | inl same ↦ rw (==_ne s.current_task 0 real, same)
  | inr other ↦ rw (==_ne s.current_task 0 real, other)
]

saved-current_task : (sp : ℕ) (s : Scheduler) → (save_stack sp s).current_task ≡ s.current_task
saved-current_task sp s = elim (Bool-cases (s.current_task == 0)) [
  | inl null ↦ rw null
  | inr real ↦ rw real
]

next-Links :
    (t : ℕ → Task) (p : ℕ) (others : List ℕ) → Links t p others p → (t p).next ≡ next_turn p others
next-Links t p [] h = h
next-Links t p (y ∷ ys) h = h.0

-- A turn of the ring.
turn-Links :
    (t : ℕ → Task) (p : ℕ) (others : List ℕ)
    → Links t p others p
    → Links t (next_turn p others) (next_others p others) (next_turn p others)
turn-Links t p [] h = h
turn-Links t p (y ∷ ys) h = Links-snoc t y ys p y h.1 h.0

turn-All :
    (P : ℕ → Type 0) (p : ℕ) (others : List ℕ)
    → P p
    → All P others
    → P (next_turn p others) × All P (next_others p others)
turn-All P p [] h k = (h, tt)
turn-All P p (y ∷ ys) h k = (k.0, All-snoc P ys p h k.1)

scheduler_next-Runs :
    (fuel : ℕ) (t : ℕ → Task) (a : ℕ) → Runs t a → scheduler_next (suc fuel) t a ≡ some a
unfolding scheduler_next
scheduler_next-Runs fuel t a h = rw h

-- In a ring of runnable tasks, with fuel for one round or more, scheduler_schedule saves the
-- stack pointer of the current task and of no other, switches to the task next in the ring with
-- the pointer saved for it, and the task left goes to the end of the ring.
pub schedule_lem :
    (fuel sp a : ℕ) (s : Scheduler) (p : ℕ) (others : List ℕ)
    → Round s p others
    → (n : Scheduler) × (scheduler_schedule (suc fuel) sp s
        ≡ some ((n.tasks (next_turn p others)).stack_ptr, n))
      × Round n (next_turn p others) (next_others p others)
      × ((n.tasks a).stack_ptr ≡ (if a == p then sp else (s.tasks a).stack_ptr))
unfolding scheduler_schedule
schedule_lem fuel sp a s p others r =
    let s' = save_stack sp s in
    let t = s'.tasks in
    let y = next_turn p others in
    let links = Links-same s.tasks t p others p (λ b. saved-next sp b s) r.links in
    let runs =
      turn-All (Runs t) p others (ap runnable (saved-state sp p s) ∙ r.runs)
        (All-mono others (λ b h. ap runnable (saved-state sp b s) ∙ h) r.others_run) in
    let real = turn-All (λ b. b ≢ 0) p others r.real r.others_real in
    let found : scheduler_next (suc fuel) t (t s'.current_task).next ≡ some y =
      ap (λ c. scheduler_next (suc fuel) t (t c).next) (saved-current_task sp s ∙ r.current)
      ∙ (ap (scheduler_next (suc fuel) t) (next-Links t p others links)
          ∙ scheduler_next-Runs fuel t y runs.0) in
    (
      run_task y s',
      ap (λ o. switch_to o s') found,
      record {
        current = refl;
        real = real.0;
        others_real = real.1;
        links = turn-Links t p others links;
        runs = runs.0;
        others_run = runs.1;
      },
      saved-stack_ptr sp a s (λ e. r.real (sym r.current ∙ e)) ∙ rw r.current,
    )

-- Other links that agree on the way.
Links-on :
    (t u : ℕ → Task) (a c : ℕ) (ys : List ℕ) (z : ℕ)
    → (u c).next ≡ (t a).next
    → All (λ b. (u b).next ≡ (t b).next) ys
    → Links t a ys z
    → Links u c ys z
Links-on t u a c [] z e same h = e ∙ h
Links-on t u a c (y ∷ ys) z e same h = (e ∙ h.0, Links-on t u y y ys z same.0 same.1 h.1)

link_task-Links :
    (a : ℕ) (task : Task) (s : Scheduler) (ys : List ℕ)
    → a ≢ s.task_list
    → All (λ b. (b ≢ a) × (b ≢ s.task_list)) ys
    → Links s.tasks s.task_list ys s.task_list
    → Links (link_task a task s).tasks s.task_list (a ∷ ys) s.task_list
unfolding link_task
link_task-Links a task s ys new apart links = (
  rw (==_refl s.task_list) refl,
  Links-on s.tasks (link_task a task s).tasks s.task_list a ys s.task_list
      (rw (==_ne a s.task_list new, ==_refl a) refl)
      (All-mono ys (λ b h. rw (==_ne b s.task_list h.1, ==_ne b a h.0) refl) apart) links,
)

-- If the address of the new task differs from every task of the ring, and the head of the list
-- stands in the ring once, task_create links the new task right behind the head.
pub task_create-Links :
    (rsp entry_point : ℕ) (s : Scheduler) (ys : List ℕ)
    → new_task s ≢ s.task_list
    → All (λ b. (b ≢ new_task s) × (b ≢ s.task_list)) ys
    → Links s.tasks s.task_list ys s.task_list
    → Links (task_create rsp entry_point s).tasks s.task_list (new_task s ∷ ys) s.task_list
unfolding task_create
task_create-Links rsp entry_point s ys new apart links =
    let frame = pmm_alloc_frame s.pmm in
    let pushed = initial_context rsp entry_point ((frame.0 + 511 * 8) % 2 ^ 64, s.memory) in
    link_task-Links (new_task s)
      (record { pid = s.next_pid; state = task_ready; stack_ptr = pushed.0; next = 0 })
      (record s { next_pid = (s.next_pid + 1) % 2 ^ 32; memory = pushed.1; pmm = frame.1 }) ys new
      apart links
