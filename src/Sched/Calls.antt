-- ===== src/Sched/Calls.antt =====
-- `create_task`, `sched_init`, `task_yield`, `sched_tick` and SYS_EXIT keep the task table valid.
use hydra_microkernal.Prelude.{
  ℕ, ◌+◌, ◌%◌, ◌≤◌, ◌<◌, ◌≡◌, refl, sym, ◌∙◌, some, some-injective, Option, pos, negsuc, update,
  update-ind, update_self, arith, dec_lt,
}
use hydra_microkernal.Sched.{
  Task, Sched, unused, running, ready, max_tasks, stack_top, create_task, schedule, task_yield,
  sched_tick, sys_exit,
}
use hydra_microkernal.Sched.Search.{Schedules}
use hydra_microkernal.Sched.Inv.{IsValid, schedule-IsValid}

-- With one task or none `schedule` returns at once, so the test before the call changes nothing.
task_yield-schedule : (s : Sched) → task_yield s ≡ schedule s
unfolding task_yield schedule
task_yield-schedule s = ground arith

pub sched_tick-schedule : (s : Sched) → sched_tick s ≡ schedule s
unfolding sched_tick schedule
sched_tick-schedule s = ground arith

-- What a step of the scheduler must do: return, as `schedule` may, and leave a valid table.
abbrev pub Schedulable : Sched → Option Sched → Type 0
Schedulable s run = (s' : Sched) × (run ≡ some s') × Schedules s s' × IsValid s'

-- What such a step did.
pub Schedulable-result :
    {s s' : Sched} {run : Option Sched}
    → Schedulable s run
    → run ≡ some s'
    → Schedules s s' × IsValid s'
Schedulable-result r e =
    let same = some-injective (sym r.1 ∙ e) in (rw (← same) r.2, rw (← same) r.3)

-- From a valid table `task_yield` returns, as `schedule` may, with a valid table.
pub task_yield-IsValid : {s : Sched} → IsValid s → Schedulable s (task_yield s)
task_yield-IsValid {s} v = rw (task_yield-schedule s) (schedule-IsValid v)

pub sched_tick-IsValid : {s : Sched} → IsValid s → Schedulable s (sched_tick s)
sched_tick-IsValid {s} v = rw (sched_tick-schedule s) (schedule-IsValid v)

-- The table in which the current task has exited.
abbrev pub exited : Sched → Sched
exited s = record s {
  tasks = update s.tasks s.current_task (record (s.tasks s.current_task) { state = unused });
}

pub exited-IsValid : {s : Sched} → IsValid s → IsValid (exited s)
exited-IsValid {s} v = record {
  count = v.count;
  current = v.current;
  only_running =
      update-ind (λ i (t : Task). t.state ≡ running → i ≡ s.current_task) s.tasks s.current_task
        (record (s.tasks s.current_task) { state = unused }) (λ e. refl) (λ i ne. v.only_running i);
  free =
      update-ind (λ i (t : Task). s.num_tasks ≤ i → i < max_tasks → t.state ≡ unused) s.tasks
        s.current_task (record (s.tasks s.current_task) { state = unused }) (λ p q. refl)
        (λ i ne. v.free i);
  pids =
      update-ind (λ i (t : Task). i < s.num_tasks → t.pid ≡ i) s.tasks s.current_task
        (record (s.tasks s.current_task) { state = unused }) (λ p. v.pids s.current_task p)
        (λ i ne. v.pids i);
}

sys_exit-yield : (s : Sched) → s.current_task < max_tasks → sys_exit s ≡ task_yield (exited s)
unfolding sys_exit
sys_exit-yield s h = ground arith

-- From a valid table SYS_EXIT marks the current task unused and schedules, and the table is valid.
pub sys_exit-IsValid : {s : Sched} → IsValid s → Schedulable (exited s) (sys_exit s)
sys_exit-IsValid {s} v =
    rw (sys_exit-yield s (omega (arith, v.count, v.current)))
      (task_yield-IsValid (exited-IsValid v))

-- The slot that `create_task` fills.
abbrev pub fresh_task : ℕ → ℕ → ℕ → Task
fresh_task tasks_base entry i = record {
  pid = i;
  state = ready;
  context = record {
    ra = entry;
    sp = stack_top tasks_base i;
    s0 = 0;
    s1 = 0;
    s2 = 0;
    s3 = 0;
    s4 = 0;
    s5 = 0;
    s6 = 0;
    s7 = 0;
    s8 = 0;
    s9 = 0;
    s10 = 0;
    s11 = 0;
  };
}

module _ (tasks_base entry : ℕ) (s : Sched) where
  pub create_task-room :
      s.num_tasks < max_tasks
      → create_task tasks_base entry s ≡ (
        record s {
          tasks = update s.tasks s.num_tasks (fresh_task tasks_base entry s.num_tasks);
          num_tasks = s.num_tasks + 1;
        },
        pos s.num_tasks,
      )
  unfolding create_task
  create_task-room h = ground arith

  pub create_task-full : max_tasks ≤ s.num_tasks → create_task tasks_base entry s ≡ (s, negsuc 0)
  unfolding create_task
  create_task-full h = ground arith

-- `create_task` keeps the table valid, whether or not it is full.
pub create_task-IsValid :
    (tasks_base entry : ℕ) {s : Sched} → IsValid s → IsValid (create_task tasks_base entry s).0
create_task-IsValid tasks_base entry {s} v = elim (dec_lt s.num_tasks max_tasks) [
  | no full ↦ rw (create_task-full tasks_base entry s (omega arith)) v
  | yes room ↦ rw (create_task-room tasks_base entry s room) (record {
    count = room_count room;
    current = omega (arith, v.current);
    only_running =
        update-ind (λ i (t : Task). t.state ≡ running → i ≡ s.current_task) s.tasks s.num_tasks
          (fresh_task tasks_base entry s.num_tasks) (λ e. cc) (λ i ne. v.only_running i);
    free =
        update-ind (λ i (t : Task). s.num_tasks + 1 ≤ i → i < max_tasks → t.state ≡ unused) s.tasks
          s.num_tasks (fresh_task tasks_base entry s.num_tasks) (λ p q. absurd (omega arith))
          (λ i ne p q. v.free i (omega arith) q);
    pids =
        update-ind (λ i (t : Task). i < s.num_tasks + 1 → t.pid ≡ i) s.tasks s.num_tasks
          (fresh_task tasks_base entry s.num_tasks) (λ p. refl) (λ i ne p. v.pids i (omega arith));
  })
]
  where
    room_count : s.num_tasks < max_tasks → s.num_tasks + 1 ≤ max_tasks
    room_count h = omega arith

-- The stack pointer of a new task is the address of the last byte of its stack. With a task table at
-- a multiple of 8 it is 7 more than a multiple of 8, so it is never aligned to 16 bytes.
pub create_task-misaligned :
    (tasks_base entry : ℕ) (s : Sched)
    → tasks_base % 8 ≡ 0
    → s.num_tasks < max_tasks
    → ((create_task tasks_base entry s).0.tasks s.num_tasks).context.sp % 8 ≡ 7
create_task-misaligned tasks_base entry s aligned room =
    rw
      (
        create_task-room tasks_base entry s room,
        update_self s.tasks s.num_tasks (fresh_task tasks_base entry s.num_tasks),
      )
      (top tasks_base s.num_tasks aligned)
  where
    top : (tasks_base i : ℕ) → tasks_base % 8 ≡ 0 → stack_top tasks_base i % 8 ≡ 7
    top tasks_base i h = unfold stack_top in omega arith
