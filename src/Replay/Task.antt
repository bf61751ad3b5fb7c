-- ===== src/Replay/Task.antt =====
-- REPLAY-OS/kernel/task.c: tasks in a ring, and the scheduler that goes round it.
pub mod Ring
use bumbellbee_testing.Base.{
  ℕ, zero, suc, ◌+◌, ◌-◌, ◌*◌, ◌%◌, ◌^◌, Bool, true, false, Option, none, some, List, [], ◌∷◌, ◌==◌,
  if◌then◌else◌, update,
}
use bumbellbee_testing.Replay.Pmm.{Pmm, pmm_alloc_frame}
use bumbellbee_testing.Replay.Trace.{Tracer, event_scheduler, trace_record}

-- `task_state_t`
pub data TaskState : Type 0 where
  task_running task_ready task_sleeping task_exited : TaskState

-- `task_t`, 24 bytes.
pub record Task : Type 0 where
  pub pid : ℕ
  pub state : TaskState
  pub stack_ptr : ℕ
  pub next : ℕ

-- The statics, the tasks by their addresses, and what the functions reach beside them: the words of
-- memory, the frames and the trace. Address 0 is the null pointer.
pub record Scheduler : Type 0 where
  pub current_task : ℕ
  pub task_list : ℕ
  pub next_pid : ℕ
  pub tasks : ℕ → Task
  pub memory : ℕ → ℕ
  pub pmm : Pmm
  pub tracer : Tracer

abbrev pub first_task : ℕ
first_task = 0x110000

unfoldable pub scheduler_init : Scheduler → Scheduler
scheduler_init s =
    let task = record (s.tasks first_task) {
      pid = s.next_pid;
      state = task_running;
      next = first_task;
    } in
    record s {
      tasks = update s.tasks first_task task;
      next_pid = (s.next_pid + 1) % 2 ^ 32;
      task_list = first_task;
      current_task = first_task;
    }

-- `*--stack = word`
abbrev pub push : ℕ → ℕ × (ℕ → ℕ) → ℕ × (ℕ → ℕ)
push word (stack, memory) =
    let below = (stack + 2 ^ 64 - 8) % 2 ^ 64 in (below, update memory below word)

-- The loop over the general registers.
push_zeros : ℕ → ℕ × (ℕ → ℕ) → ℕ × (ℕ → ℕ)
push_zeros zero s = s
push_zeros (suc n) s = push_zeros n (push 0 s)

-- The words that a task starts with. `rsp` is the second one: its expression reads the pointer that
-- it changes, which C leaves open.
unfoldable pub initial_context : ℕ → ℕ → ℕ × (ℕ → ℕ) → ℕ × (ℕ → ℕ)
unfolding push_zeros
initial_context rsp entry_point s =
    push_zeros 15 (push entry_point (push 0x18 (push 0x202 (push rsp (push 0x20 s)))))

-- The new task stands behind the first one of the list.
pub link_task : ℕ → Task → Scheduler → Scheduler
link_task address task s =
    let tasks = update s.tasks address (record task { next = (s.tasks s.task_list).next }) in
    let head = record (tasks s.task_list) { next = address } in
    record s { tasks = update tasks s.task_list head }

-- `0x110000 + next_pid * sizeof(task_t)`
abbrev pub new_task : Scheduler → ℕ
new_task s = (first_task + s.next_pid * 24) % 2 ^ 64

pub task_create : ℕ → ℕ → Scheduler → Scheduler
unfolding link_task
task_create rsp entry_point s =
    let frame = pmm_alloc_frame s.pmm in
    let pushed = initial_context rsp entry_point ((frame.0 + 511 * 8) % 2 ^ 64, s.memory) in
    link_task (new_task s)
      (record { pid = s.next_pid; state = task_ready; stack_ptr = pushed.0; next = 0 })
      (record s { next_pid = (s.next_pid + 1) % 2 ^ 32; memory = pushed.1; pmm = frame.1 })

abbrev pub runnable : TaskState → Bool
runnable task_running = true
runnable task_ready = true
runnable task_sleeping = false
runnable task_exited = false

-- The search from `task` on, by fuel: without a runnable task it never ends.
pub scheduler_next : ℕ → (ℕ → Task) → ℕ → Option ℕ
scheduler_next zero tasks task = none
scheduler_next (suc fuel) tasks task =
    let rest = scheduler_next fuel tasks (tasks task).next in
    if runnable (tasks task).state then some task else rest

abbrev pub save_stack : ℕ → Scheduler → Scheduler
save_stack sp s = if s.current_task == 0 then s else record s {
  tasks = update s.tasks s.current_task (record (s.tasks s.current_task) { stack_ptr = sp });
}

abbrev pub run_task : ℕ → Scheduler → Scheduler
run_task task s = record s {
  current_task = task;
  tracer = trace_record event_scheduler (s.tasks task).pid s.tracer;
}

-- The switch to the task found, and its stack pointer.
abbrev pub switch_to : Option ℕ → Scheduler → Option (ℕ × Scheduler)
switch_to none s = none
switch_to (some task) s = some ((s.tasks task).stack_ptr, run_task task s)

pub scheduler_schedule : ℕ → ℕ → Scheduler → Option (ℕ × Scheduler)
scheduler_schedule fuel sp s =
    let s = save_stack sp s in
    switch_to (scheduler_next fuel s.tasks (s.tasks s.current_task).next) s
