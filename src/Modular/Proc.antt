-- ===== src/Modular/Proc.antt =====
-- modular-kernel/src/proc.c: processes, created on the dynamic heap and run to completion in turn.
pub mod Queue
pub mod Rounds
pub mod Owned
use bumbellbee_testing.Base.{
  ℕ, zero, suc, ◌+◌, ◌*◌, ◌%◌, ◌^◌, Option, none, some, List, [], ◌∷◌, ◌==◌, if◌then◌else◌, update,
}
use bumbellbee_testing.Base.Text.{codes}
use bumbellbee_testing.Modular.Mm.{Mm, mm_alloc}
use bumbellbee_testing.Modular.Screen.{Screen, kprint}

pub data ProcState : Type 0 where
  running ready waiting terminated : ProcState

-- `context_t`
pub record Context : Type 0 where
  pub eip : ℕ
  pub esp : ℕ
  pub ebp : ℕ
  pub eax : ℕ
  pub ebx : ℕ
  pub ecx : ℕ
  pub edx : ℕ
  pub esi : ℕ
  pub edi : ℕ
  pub eflags : ℕ

-- `process_t`, 56 bytes on the 32-bit target; address 0 is the null pointer.
pub record Process : Type 0 where
  pub pid : ℕ
  pub state : ProcState
  pub context : Context
  pub page_directory : ℕ
  pub next : ℕ

-- The processes by their addresses, the three statics, and the heap and the screen that they use.
pub record Procs : Type 0 where
  pub process : ℕ → Process
  pub proc_list : ℕ
  pub current_proc : ℕ
  pub next_pid : ℕ
  pub mm : Mm
  pub screen : Screen

unfoldable pub proc_init : Procs → Procs
proc_init s = record s { proc_list = 0; current_proc = 0 }

-- `p->state = state` and `p->next = q`
abbrev pub set_state : ℕ → ProcState → Procs → Procs
set_state p state s = record s {
  process = update s.process p (record (s.process p) { state = state });
}

abbrev pub set_next : ℕ → ℕ → Procs → Procs
set_next p q s = record s { process = update s.process p (record (s.process p) { next = q }) }

-- The context of a new process, with the address of its stack.
abbrev pub new_context : ℕ → ℕ → Context
new_context entry stack = record {
  eip = entry;
  esp = (stack + 4096) % 2 ^ 32;
  ebp = (stack + 4096) % 2 ^ 32;
  eax = 0;
  ebx = 0;
  ecx = 0;
  edx = 0;
  esi = 0;
  edi = 0;
  eflags = 0x202;
}

-- The loop to the last process, by fuel: `none` if the fuel runs out, as it does on a cyclic list.
pub last : ℕ → (ℕ → Process) → ℕ → Option ℕ
last zero process p = none
last (suc fuel) process p =
    let rest = last fuel process (process p).next in if (process p).next == 0 then some p else rest

abbrev pub link_behind : ℕ → Procs → Option ℕ → Option (ℕ × Procs)
link_behind proc s none = none
link_behind proc s (some p) = some (proc, set_next p proc s)

-- Behind the list.
unfoldable pub append : ℕ → ℕ → Procs → Option (ℕ × Procs)
append fuel proc s =
    if s.proc_list == 0
    then some (proc, record s { proc_list = proc })
    else link_behind proc s (last fuel s.process s.proc_list)

-- The message of a failed creation.
abbrev pub fail : List ℕ → Procs → Option (ℕ × Procs)
fail message s = some (0, record s { screen = kprint message s.screen })

-- With the stack's address, 0 for none.
unfoldable pub finish : ℕ → ℕ → ℕ → ℕ → Procs → Option (ℕ × Procs)
finish fuel proc entry stack s =
    if stack == 0
    then fail (codes "proc_create: Out of memory for stack") s
    else append fuel proc (record s {
      process = update s.process proc (record (s.process proc) {
        context = new_context entry stack;
        page_directory = 0;
        next = 0;
      });
    })

abbrev pub with_stack : ℕ → ℕ → ℕ → Procs → Option (ℕ × Mm) → Option (ℕ × Procs)
with_stack fuel proc entry s none = none
with_stack fuel proc entry s (some (stack, mm)) =
    finish fuel proc entry stack (record s { mm = mm })

-- The number, the state and the entry are stored before the stack is asked for.
unfoldable pub numbered : ℕ → ℕ → Procs → Procs
numbered proc entry s = record s {
  next_pid = (s.next_pid + 1) % 2 ^ 32;
  process = update s.process proc (record (s.process proc) {
    pid = s.next_pid;
    state = ready;
    context = record (s.process proc).context { eip = entry };
  });
}

abbrev pub with_block : ℕ → ℕ → Procs → Option (ℕ × Mm) → Option (ℕ × Procs)
with_block fuel entry s none = none
with_block fuel entry s (some (proc, mm)) =
    let s = record s { mm = mm } in
    let n = numbered proc entry s in
    if proc == 0
    then fail (codes "proc_create: Out of memory") s
    else with_stack fuel proc entry n (mm_alloc fuel 4096 n.mm)

-- With the fuel for the free list and for the list of processes, and the entry's address.
unfoldable pub proc_create : ℕ → ℕ → Procs → Option (ℕ × Procs)
proc_create fuel entry s = with_block fuel entry s (mm_alloc fuel 56 s.mm)

-- Whose turn it is.
abbrev pub turn : Procs → ℕ
turn s =
    if s.current_proc == 0
    then s.proc_list
    else if (s.process s.current_proc).next == 0
    then s.proc_list
    else (s.process s.current_proc).next

abbrev pub is_ready : ProcState → Procs → Procs → Procs
is_ready ready t e = t
is_ready _ t e = e

-- `enter` is what the call of the function at an address does. `current_proc` is read again behind
-- the call, since the function may yield.
abbrev pub run_current : (enter : ℕ → Procs → Procs) → Procs → Procs
run_current enter s =
    let s = set_state s.current_proc running s in
    let s = enter (s.process s.current_proc).context.eip s in set_state s.current_proc terminated s

pub proc_schedule : (enter : ℕ → Procs → Procs) → Procs → Procs
proc_schedule enter s =
    let t = record s { current_proc = turn s } in
    if s.proc_list == 0
    then s
    else is_ready (t.process t.current_proc).state (run_current enter t) t

abbrev pub proc_yield : (enter : ℕ → Procs → Procs) → Procs → Procs
proc_yield enter s = proc_schedule enter s
