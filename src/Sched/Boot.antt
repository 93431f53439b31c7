-- ===== src/Sched/Boot.antt =====
-- `sched_init` of kernal/sched.c: the table that the kernel boots with, and its first switch.
use hydra_microkernal.Prelude.{
  ℕ, zero, suc, ◌+◌, ◌≤◌, ◌<◌, ◌≡◌, refl, ap, ◌∙◌, some, update, update_self, update_ne, arith,
  ℕ_discrete, dec_lt,
}
use hydra_microkernal.Sched.{
  Task, Sched, unused, max_tasks, create_task, clear_tasks, sched_init, schedule, next_ready,
  switch_to,
}
use hydra_microkernal.Sched.Inv.{IsValid}
use hydra_microkernal.Sched.Calls.{fresh_task, create_task-IsValid}

clear_tasks-before : (n i : ℕ) (f : ℕ → Task) (j : ℕ) → j < i → clear_tasks n i f j ≡ f j
unfolding clear_tasks
clear_tasks-before zero i f j h = refl
clear_tasks-before (suc n) i f j h =
    clear_tasks-before n (i + 1) (update f i (record (f i) { pid = i; state = unused })) j
      (omega arith)
    ∙ update_ne f i j (record (f i) { pid = i; state = unused }) (omega arith)

clear_tasks-after : (n i : ℕ) (f : ℕ → Task) (j : ℕ) → i + n ≤ j → clear_tasks n i f j ≡ f j
unfolding clear_tasks
clear_tasks-after zero i f j h = refl
clear_tasks-after (suc n) i f j h =
    clear_tasks-after n (i + 1) (update f i (record (f i) { pid = i; state = unused })) j
      (omega arith)
    ∙ update_ne f i j (record (f i) { pid = i; state = unused }) (omega arith)

-- The clearing loop sets the slots from `i` on.
clear_tasks-within :
    (n i : ℕ) (f : ℕ → Task) (j : ℕ)
    → i ≤ j
    → j < i + n
    → clear_tasks n i f j ≡ record (f j) { pid = j; state = unused }
unfolding clear_tasks
clear_tasks-within zero i f j h k = absurd (omega arith)
clear_tasks-within (suc n) i f j h k = elim (ℕ_discrete i j) [
  | yes e ↦
      clear_tasks-before n (i + 1) (update f i (record (f i) { pid = i; state = unused })) j
        (omega arith)
      ∙ rw (← e) (update_self f i (record (f i) { pid = i; state = unused }))
  | no ne ↦
      clear_tasks-within n (i + 1) (update f i (record (f i) { pid = i; state = unused })) j
        (omega arith) (omega arith)
      ∙ ap (λ (t : Task). record t { pid = j; state = unused })
          (update_ne f i j (record (f i) { pid = i; state = unused }) ne)
]

-- The table before `sched_init`: static storage, all zero.
pub record IsCold (s : Sched) : Type 0 where
  pub current : s.current_task ≡ 0
  pub count : s.num_tasks ≡ 0
  pub slots : (i : ℕ) → (s.tasks i).state ≡ unused

abbrev cleared : Sched → Sched
cleared s = record s { tasks = clear_tasks max_tasks 0 s.tasks }

cleared-state : (s : Sched) → IsCold s → (i : ℕ) → ((cleared s).tasks i).state ≡ unused
cleared-state s c i = elim (dec_lt i max_tasks) [
  | yes p ↦
      ap (λ (t : Task). t.state)
        (clear_tasks-within max_tasks 0 s.tasks i (omega arith) (omega arith))
  | no p ↦
      ap (λ (t : Task). t.state) (clear_tasks-after max_tasks 0 s.tasks i (omega arith)) ∙ c.slots i
]

cleared-IsValid : (s : Sched) → IsCold s → IsValid (cleared s)
cleared-IsValid s c = record {
  count = omega (arith, c.count);
  current = omega (arith, c.current);
  only_running = λ i e. cc (e, cleared-state s c i);
  free = λ i p q. cleared-state s c i;
  pids = λ i p. absurd (omega (arith, c.count));
}

pub create_task-at :
    (tasks_base entry k : ℕ) (s : Sched)
    → s.num_tasks ≡ k
    → k < max_tasks
    → (create_task tasks_base entry s).0
      ≡ record s { tasks = update s.tasks k (fresh_task tasks_base entry k); num_tasks = suc k }
unfolding create_task
create_task-at tasks_base entry k s e h = ground arith

module _ (tasks_base idle1 idle2 idle3 : ℕ) {s : Sched} (c : IsCold s) where
  abbrev boot_tasks : ℕ → Task
  boot_tasks =
      update
        (update (update (cleared s).tasks 0 (fresh_task tasks_base idle1 0)) 1
          (fresh_task tasks_base idle2 1))
        2 (fresh_task tasks_base idle3 2)

  abbrev booted : Sched
  booted = record { tasks = boot_tasks; current_task = 0; num_tasks = 3; cpu = s.cpu }

  sched_init-booted : sched_init tasks_base idle1 idle2 idle3 s ≡ booted
  unfolding sched_init
  sched_init-booted =
      ap (λ t. (create_task tasks_base idle3 (create_task tasks_base idle2 t).0).0)
        (create_task-at tasks_base idle1 0 (cleared s) c.count (omega arith))
      ∙ ap (λ t. (create_task tasks_base idle3 t).0)
          (create_task-at tasks_base idle2 1 _ refl (omega arith))
      ∙ create_task-at tasks_base idle3 2 _ refl (omega arith)
      ∙ ap (λ k. record { tasks = boot_tasks; current_task = k; num_tasks = 3; cpu = s.cpu })
          c.current

  -- From zeroed storage `sched_init` leaves a valid table of three ready tasks, with the entries and
  -- stacks of their slots; no task is marked running, and `current_task` is 0.
  pub sched_init-IsValid :
      IsValid (sched_init tasks_base idle1 idle2 idle3 s)
      × ((sched_init tasks_base idle1 idle2 idle3 s).num_tasks ≡ 3)
      × ((sched_init tasks_base idle1 idle2 idle3 s).current_task ≡ 0)
      × ((sched_init tasks_base idle1 idle2 idle3 s).tasks 0 ≡ fresh_task tasks_base idle1 0)
      × ((sched_init tasks_base idle1 idle2 idle3 s).tasks 1 ≡ fresh_task tasks_base idle2 1)
      × ((sched_init tasks_base idle1 idle2 idle3 s).tasks 2 ≡ fresh_task tasks_base idle3 2)
  unfolding sched_init
  sched_init-IsValid = (
    create_task-IsValid tasks_base idle3 (
        create_task-IsValid tasks_base idle2
          (create_task-IsValid tasks_base idle1 (cleared-IsValid s c))),
    ap (λ (t : Sched). t.num_tasks) sched_init-booted,
    ap (λ (t : Sched). t.current_task) sched_init-booted,
    ap (λ (t : Sched). t.tasks 0) sched_init-booted,
    ap (λ (t : Sched). t.tasks 1) sched_init-booted,
    ap (λ (t : Sched). t.tasks 2) sched_init-booted,
  )

  booted-schedule :
      (s' : Sched) × (schedule booted ≡ some s')
      × (s'.current_task ≡ 1)
      × (s'.cpu.ra ≡ idle2)
      × ((s'.tasks 0).context ≡ s.cpu)
  unfolding schedule next_ready switch_to
  booted-schedule = (switch_to 1 booted, refl, refl, refl, refl)

  -- A call of `schedule` at once behind `sched_init` switches from slot 0 to task 1, and stores the
  -- registers of the boot code over the context that `create_task` made for the first test task.
  pub first_schedule-overwrites :
      (s' : Sched) × (schedule (sched_init tasks_base idle1 idle2 idle3 s) ≡ some s')
      × (s'.current_task ≡ 1)
      × (s'.cpu.ra ≡ idle2)
      × ((s'.tasks 0).context ≡ s.cpu)
  first_schedule-overwrites = rw sched_init-booted booted-schedule
