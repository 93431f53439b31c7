-- ===== src/Sched/Tests.antt =====
-- The theorems about kernal/sched.c at a table of three tasks.
use hydra_microkernal.Prelude.{
  ℕ, ◌-◌, ◌<◌, ◌≡◌, ◌≢◌, inr, refl, some, none, Option, arith, ◌==◌, if◌then◌else◌,
}
use hydra_microkernal.Sched.{
  Task, Sched, Context, TaskState, unused, running, ready, create_task, schedule, next_ready,
  switch_to, task_yield, sched_tick, sys_exit, max_tasks,
}
use hydra_microkernal.Sched.Search.{Schedules, schedule_total}
use hydra_microkernal.Sched.Inv.{IsValid}
use hydra_microkernal.Sched.Calls.{Schedulable, exited}
use hydra_microkernal.Sched.Run.{
  Step, Step-IsValid, create, yields, exit, work, here, more, IsGone, Reach-IsGone, sys_exit-IsGone,
}
use hydra_microkernal.Sched.Isolation.{Parked, start, step, registers_restored}
use hydra_microkernal.Sched.Fair.{
  IsWaiting, Waits, here as here_waits, more as more_waits, Waits-lt,
}
use hydra_microkernal.Sched.Boot.{IsCold}

abbrev pub registers : ℕ → Context
registers n = record {
  ra = n;
  sp = n;
  s0 = n;
  s1 = n;
  s2 = n;
  s3 = n;
  s4 = n;
  s5 = n;
  s6 = n;
  s7 = n;
  s8 = n;
  s9 = n;
  s10 = n;
  s11 = n;
}

abbrev pub task : ℕ → TaskState → Task
task i st = record { pid = i; state = st; context = registers i }

-- Task 1 runs, and tasks 0 and 2 are ready.
abbrev pub three : Sched
three = record {
  tasks = λ i.
      task i
        (if i == 0 then ready else if i == 1 then running else if i == 2 then ready else unused);
  current_task = 1;
  num_tasks = 3;
  cpu = registers 77;
}

pub three-IsValid : IsValid three
three-IsValid = record {
  count = omega arith;
  current = omega arith;
  only_running = λ i e. ground arith;
  free = λ i p q. ground arith;
  pids = λ i p. refl;
}

-- What a call leaves, if it returns.
abbrev result : Sched → Option Sched → Sched
result s none = s
result s (some s') = s'

schedule_total_example : (s' : Sched) × (schedule three ≡ some s') × Schedules three s'
schedule_total_example = schedule_total three (inr (omega arith))

abbrev two_runs : Sched
two_runs = result three (task_yield three)

abbrev two_works : Sched
two_works = record two_runs { cpu = registers 88 }

abbrev zero_runs : Sched
zero_runs = result two_works (task_yield two_works)

abbrev one_runs : Sched
one_runs = result zero_runs (task_yield zero_runs)

first-Step : Step 4096 three two_runs
unfolding task_yield schedule next_ready switch_to
first-Step = yields refl

others : Parked 4096 1 two_runs one_runs
unfolding task_yield schedule next_ready switch_to
others =
    step (step (step start (omega arith) (work (registers 88) refl)) (omega arith) (yields refl))
      (omega arith) (yields refl)

back : (1 ≢ two_runs.current_task) × (1 ≡ one_runs.current_task)
unfolding task_yield schedule next_ready switch_to
back = (omega arith, refl)

-- Task 1 yields to task 2, which changes its registers and yields to task 0, which yields to task 1.
registers_restored_example : one_runs.cpu ≡ registers 77
registers_restored_example =
    registers_restored three-IsValid (omega arith) refl first-Step back.0 others back.1

abbrev one_left : Sched
one_left = result three (sys_exit three)

one_left_exit : sys_exit three ≡ some one_left
unfolding sys_exit task_yield schedule next_ready switch_to
one_left_exit = refl

one_left_moved : one_left.current_task ≢ 1
unfolding sys_exit task_yield schedule next_ready switch_to
one_left_moved = omega arith

one_left-IsGone : IsGone 1 one_left
one_left-IsGone = sys_exit-IsGone three-IsValid (omega arith) one_left_exit one_left_moved

one_left-IsValid : IsValid one_left
one_left-IsValid = Step-IsValid {tasks_base = 4096} three-IsValid (exit one_left_exit)

-- Task 1 has exited, and a new task is created.
Reach-IsGone_example :
    IsValid (create_task 4096 512 one_left).0 × IsGone 1 (create_task 4096 512 one_left).0
Reach-IsGone_example =
    Reach-IsGone {tasks_base = 4096} one_left-IsValid one_left-IsGone (more here (create 512 refl))

abbrev cold : Sched
cold = record { tasks = λ i. task 0 unused; current_task = 0; num_tasks = 0; cpu = registers 5 }

cold-IsCold : IsCold cold
cold-IsCold = record { current = refl; count = refl; slots = λ i. refl }

-- Task 0 is ready; task 1 yields to task 2.
first_turn : Waits 4096 0 three 1 two_runs
unfolding task_yield schedule next_ready switch_to
first_turn = more_waits (here_waits refl) (yields refl) (omega arith) refl

Waits-lt_example :
    (1 < max_tasks - 1)
    × IsWaiting 0 two_runs
    × Schedulable two_runs (task_yield two_runs)
    × Schedulable two_runs (sched_tick two_runs)
    × Schedulable (exited two_runs) (sys_exit two_runs)
Waits-lt_example =
    Waits-lt three-IsValid
      (record { created = omega arith; state = refl; not_current = omega arith }) first_turn
