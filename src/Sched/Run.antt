-- ===== src/Sched/Run.antt =====
-- Runs of the scheduler: kernel calls in any order, and work of the current task in between.
use hydra_microkernal.Prelude.{
  ℕ, ◌<◌, ◌≡◌, ◌≢◌, sym, ap, ◌∙◌, ◌⊎◌, inl, inr, some, update_self, update_ne, arith, dec_lt, true,
}
use hydra_microkernal.Sched.{
  Task, Sched, Context, unused, max_tasks, create_task, task_yield, sched_tick, sys_exit, is_ready,
}
use hydra_microkernal.Sched.Search.{Schedules, alone, stay, switch}
use hydra_microkernal.Sched.Inv.{
  IsValid, switch_to-other, switch_to-num, switch_to-current, switch_to-unused,
}
use hydra_microkernal.Sched.Calls.{
  Schedulable-result, task_yield-IsValid, sched_tick-IsValid, exited, sys_exit-IsValid, fresh_task,
  create_task-room, create_task-full, create_task-IsValid,
}

-- One step: a call, or a change of registers by the current task.
pub data Step (tasks_base : ℕ) (s s' : Sched) : Type 0 where
  create : (entry : ℕ) → s' ≡ (create_task tasks_base entry s).0 → Step tasks_base s s'
  yields : task_yield s ≡ some s' → Step tasks_base s s'
  tick : sched_tick s ≡ some s' → Step tasks_base s s'
  exit : sys_exit s ≡ some s' → Step tasks_base s s'
  work : (cpu : Context) → s' ≡ record s { cpu = cpu } → Step tasks_base s s'

-- What a step amounts to.
pub data Effect (tasks_base : ℕ) (s s' : Sched) : Type 0 where
  creates : (entry : ℕ) → s' ≡ (create_task tasks_base entry s).0 → Effect tasks_base s s'
  schedules : Schedules s s' → Effect tasks_base s s'
  exits : Schedules (exited s) s' → Effect tasks_base s s'
  works : (cpu : Context) → s' ≡ record s { cpu = cpu } → Effect tasks_base s s'

pub effect :
    {tasks_base : ℕ} {s s' : Sched}
    → IsValid s
    → Step tasks_base s s'
    → Effect tasks_base s s' × IsValid s'
effect {tasks_base} v (create entry e) =
    (creates entry e, rw e (create_task-IsValid tasks_base entry v))
effect v (yields e) = let r = Schedulable-result (task_yield-IsValid v) e in (schedules r.0, r.1)
effect v (tick e) = let r = Schedulable-result (sched_tick-IsValid v) e in (schedules r.0, r.1)
effect v (exit e) = let r = Schedulable-result (sys_exit-IsValid v) e in (exits r.0, r.1)
effect v (work cpu e) = (
  works cpu e,
  rw e (record {
    count = v.count;
    current = v.current;
    only_running = v.only_running;
    free = v.free;
    pids = v.pids;
  }),
)

-- Every step of a valid table leads to a valid table.
pub Step-IsValid : {tasks_base : ℕ} {s s' : Sched} → IsValid s → Step tasks_base s s' → IsValid s'
Step-IsValid v st = (effect v st).1

-- Task `i` has exited: its slot is in use no longer, and it does not run.
pub record IsGone (i : ℕ) (s : Sched) : Type 0 where
  pub created : i < s.num_tasks
  pub state : (s.tasks i).state ≡ unused
  pub not_current : i ≢ s.current_task

-- The next task that runs is ready, so it is no exited one.
next_ne_gone :
    {i next : ℕ} (s : Sched)
    → IsGone i s
    → next ≢ s.current_task
    → (next ≡ s.current_task) ⊎ (is_ready (s.tasks next).state ≡ true)
    → i ≢ next
next_ne_gone s g ne (inl e) q = ne e
next_ne_gone s g ne (inr r) q = cc (ap is_ready g.state, ap (λ k. is_ready (s.tasks k).state) q, r)

Schedules-IsGone : {i : ℕ} {s s' : Sched} → Schedules s s' → IsGone i s → IsGone i s'
Schedules-IsGone (alone p e) g = rw e g
Schedules-IsGone (stay n e) g = rw e g
Schedules-IsGone {i} {s} (switch next n ne e) g = rw e (record {
  created = omega (arith, g.created, switch_to-num s next ne);
  state = ap (λ (t : Task). t.state) (switch_to-other s next ne i away g.not_current) ∙ g.state;
  not_current = λ q. away (q ∙ switch_to-current s next ne);
})
  where
    away : i ≢ next
    away = next_ne_gone s g ne n.outcome

create_task-IsGone :
    (tasks_base entry : ℕ) {i : ℕ} {s : Sched}
    → IsGone i s
    → IsGone i (create_task tasks_base entry s).0
create_task-IsGone tasks_base entry {i} {s} g = elim (dec_lt s.num_tasks max_tasks) [
  | no full ↦ rw (create_task-full tasks_base entry s (omega arith)) g
  | yes room ↦ rw (create_task-room tasks_base entry s room) (record {
    created = omega (arith, g.created);
    state =
        ap (λ (t : Task). t.state)
          (update_ne s.tasks s.num_tasks i (fresh_task tasks_base entry s.num_tasks)
            (omega (arith, g.created)))
        ∙ g.state;
    not_current = g.not_current;
  })
]

exited-IsGone : {i : ℕ} {s : Sched} → IsGone i s → IsGone i (exited s)
exited-IsGone {i} {s} g = record {
  created = g.created;
  state =
      ap (λ (t : Task). t.state)
        (update_ne s.tasks s.current_task i (record (s.tasks s.current_task) { state = unused })
          (λ q. g.not_current (sym q)))
      ∙ g.state;
  not_current = g.not_current;
}

Effect-IsGone :
    {tasks_base i : ℕ} {s s' : Sched} → Effect tasks_base s s' → IsGone i s → IsGone i s'
Effect-IsGone {tasks_base} (creates entry e) g = rw e (create_task-IsGone tasks_base entry g)
Effect-IsGone (schedules d) g = Schedules-IsGone d g
Effect-IsGone (exits d) g = Schedules-IsGone d (exited-IsGone g)
Effect-IsGone (works cpu e) g =
    rw e (record { created = g.created; state = g.state; not_current = g.not_current })

pub data Reach (tasks_base : ℕ) (s : Sched) : Sched → Type 0 where
  here : Reach tasks_base s s
  more : {t u : Sched} → Reach tasks_base s t → Step tasks_base t u → Reach tasks_base s u

-- Whatever calls are made from a valid table, it stays valid, and a task that has exited and was
-- switched away from never runs again: its slot stays unused, and no call makes it current.
pub Reach-IsGone :
    {tasks_base i : ℕ} {s s' : Sched}
    → IsValid s
    → IsGone i s
    → Reach tasks_base s s'
    → IsValid s' × IsGone i s'
Reach-IsGone v g here = (v, g)
Reach-IsGone v g (more r st) =
    let before = Reach-IsGone v g r in
    let after = effect before.0 st in (after.1, Effect-IsGone after.0 before.1)

-- The end of SYS_EXIT for the task that calls it: if the call switched to another task, the caller
-- is gone for good.
pub sys_exit-IsGone :
    {s s' : Sched}
    → IsValid s
    → s.current_task < s.num_tasks
    → sys_exit s ≡ some s'
    → s'.current_task ≢ s.current_task
    → IsGone s.current_task s'
sys_exit-IsGone {s} {s'} v h e moved = leaves (Schedulable-result (sys_exit-IsValid v) e).0
  where
    leaves : Schedules (exited s) s' → IsGone s.current_task s'
    leaves (alone p q) = absurd (moved (ap (λ (t : Sched). t.current_task) q))
    leaves (stay n q) = absurd (moved (ap (λ (t : Sched). t.current_task) q))
    leaves (switch next n ne q) = rw q (record {
      created = omega (arith, h, switch_to-num (exited s) next ne);
      state = switch_to-unused (exited s) next ne (
          ap (λ (t : Task). t.state)
            (update_self s.tasks s.current_task
              (record (s.tasks s.current_task) { state = unused })));
      not_current = λ k. ne (sym (k ∙ switch_to-current (exited s) next ne));
    })
