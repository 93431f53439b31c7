-- ===== src/Sched.antt =====
-- kernal/sched.h, kernal/sched.c and kernal/switch_riscv.s: the task table, round-robin scheduling
-- and the context switch. `current_task` and `num_tasks` start at 0 and are never negative, so they
-- are natural numbers; log output and the counters that only feed it are left out, and so are the
-- contents of the stacks. `tasks_base` is the address of the array `tasks`.
pub mod Search
pub mod Inv
pub mod Calls
pub mod Run
pub mod Isolation
pub mod Boot
pub mod Fair
pub mod Tests
use hydra_microkernal.Prelude.{
  ℕ, zero, suc, ◌+◌, ◌-◌, ◌*◌, ◌%◌, Bool, true, false, ◌||◌, Option, none, some, ℤ, pos, negsuc,
  leb, ltb, ◌==◌, if◌then◌else◌, update,
}

-- MAX_TASKS and TASK_STACK_SIZE
abbrev pub max_tasks : ℕ
max_tasks = 8

abbrev pub task_stack_size : ℕ
task_stack_size = 4096

-- `task_state_t`
pub data TaskState : Type 0 where
  unused running ready blocked : TaskState

-- `struct task_context`: the registers that `context_switch` saves and loads.
pub record Context : Type 0 where
  pub ra : ℕ
  pub sp : ℕ
  pub s0 : ℕ
  pub s1 : ℕ
  pub s2 : ℕ
  pub s3 : ℕ
  pub s4 : ℕ
  pub s5 : ℕ
  pub s6 : ℕ
  pub s7 : ℕ
  pub s8 : ℕ
  pub s9 : ℕ
  pub s10 : ℕ
  pub s11 : ℕ

-- `struct task`
pub record Task : Type 0 where
  pub pid : ℕ
  pub state : TaskState
  pub context : Context

-- `tasks`, `current_task`, `num_tasks`, and the processor's callee-saved registers.
pub record Sched : Type 0 where
  pub tasks : ℕ → Task
  pub current_task : ℕ
  pub num_tasks : ℕ
  pub cpu : Context

abbrev pub is_ready : TaskState → Bool
is_ready ready = true
is_ready unused = false
is_ready running = false
is_ready blocked = false

-- `&tasks[i].stack[TASK_STACK_SIZE - 1]`: a `struct task` has 4216 bytes, and its stack begins
-- behind the 8 bytes of `pid` and `state` and the 112 bytes of the context.
unfoldable pub stack_top : ℕ → ℕ → ℕ
stack_top tasks_base i = tasks_base + i * 4216 + 8 + 112 + (task_stack_size - 1)

unfoldable pub create_task : ℕ → ℕ → Sched → Sched × ℤ
unfolding stack_top
create_task tasks_base entry s = if leb max_tasks s.num_tasks then (s, negsuc 0) else (
  record s {
    tasks = update s.tasks s.num_tasks (record {
      pid = s.num_tasks;
      state = ready;
      context = record {
        ra = entry;
        sp = stack_top tasks_base s.num_tasks;
        s0 = 0;
        s1 = 0;
        s2 = 0;
        s3 = 0;
        s4 = 0;
        s5 = 0;
        s6 = 0;
        s7 = 0;
        s8 = 0;
        s9 = 0;
        s10 = 0;
        s11 = 0;
      };
    });
    num_tasks = s.num_tasks + 1;
  },
  pos s.num_tasks,
)

-- `for (i = 0; i < MAX_TASKS; i++)` of `sched_init`, with `n` rounds left.
unfoldable pub clear_tasks : ℕ → ℕ → (ℕ → Task) → ℕ → Task
clear_tasks zero i tasks = tasks
clear_tasks (suc n) i tasks =
    clear_tasks n (i + 1) (update tasks i (record (tasks i) { pid = i; state = unused }))

-- `idle1` to `idle3` are the entry points of the three test tasks.
unfoldable pub sched_init : ℕ → ℕ → ℕ → ℕ → Sched → Sched
sched_init tasks_base idle1 idle2 idle3 s =
    let cleared = record s { tasks = clear_tasks max_tasks 0 s.tasks } in
    let one = (create_task tasks_base idle1 cleared).0 in
    let two = (create_task tasks_base idle2 one).0 in (create_task tasks_base idle3 two).0

-- kernal/switch_riscv.s: save into the context of task `old`, load from that of task `new`.
unfoldable pub context_switch : ℕ → ℕ → Sched → Sched
context_switch old new s =
    let saved = update s.tasks old (record (s.tasks old) { context = s.cpu }) in
    record s { tasks = saved; cpu = (saved new).context }

-- The search of `schedule`, with fuel; `none` means that the fuel ran out.
unfoldable pub next_ready : ℕ → (ℕ → Task) → ℕ → ℕ → ℕ → Option ℕ
next_ready zero tasks current num_tasks next = none
next_ready (suc fuel) tasks current num_tasks next =
    let rest = next_ready fuel tasks current num_tasks ((next + 1) % num_tasks) in
    if next == current || is_ready (tasks next).state then some next else rest

-- A running task that is switched away from is ready again.
unfoldable pub demote : Task → Task
demote t = elim t.state [ running ↦ record t { state = ready } | _ ↦ t ]

-- "Update task states" of `schedule`, and the switch.
unfoldable pub switch_to : ℕ → Sched → Sched
unfolding demote context_switch
switch_to next s =
    let old = update s.tasks s.current_task (demote (s.tasks s.current_task)) in
    context_switch s.current_task next (record s {
      tasks = update old next (record (old next) { state = running });
      current_task = next;
    })

-- The fuel is `num_tasks`: `schedule_total` of Sched/Search shows that it is enough.
unfoldable pub schedule : Sched → Option Sched
schedule s =
    if leb s.num_tasks 1
    then some s
    else elim (next_ready s.num_tasks s.tasks s.current_task s.num_tasks
        ((s.current_task + 1) % s.num_tasks)) [
          | none ↦ none
          | some next ↦ if next == s.current_task then some s else some (switch_to next s)
        ]

unfoldable pub task_yield : Sched → Option Sched
task_yield s = if ltb 1 s.num_tasks then schedule s else some s

unfoldable pub sched_tick : Sched → Option Sched
sched_tick s = if ltb 1 s.num_tasks then schedule s else some s

-- `case SYS_EXIT` of kernal/syscall.c.
unfoldable pub sys_exit : Sched → Option Sched
sys_exit s =
    if ltb s.current_task max_tasks
    then task_yield (record s {
      tasks = update s.tasks s.current_task (record (s.tasks s.current_task) { state = unused });
    })
    else some s
