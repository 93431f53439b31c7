-- ===== src/Sched/Inv.antt =====
-- The invariant of the task table of kernal/sched.c, and its operations.
use native.Mathlib.Nat.{mod-lt}
use hydra_microkernal.Prelude.{
  ℕ, ◌-◌, ◌≤◌, ◌<◌, ◌≡◌, ◌≢◌, sym, ap, ◌∙◌, ◌⊎◌, some, arith, ℕ_discrete,
}
use hydra_microkernal.Sched.{Task, Sched, unused, running, max_tasks, schedule, switch_to}
use hydra_microkernal.Sched.Search.{IsNext, Schedules, alone, stay, switch, schedule_total}

pub record IsValid (s : Sched) : Type 0 where
  pub count : s.num_tasks ≤ max_tasks
  -- With no task at all, `current_task` is 0.
  pub current : s.current_task ≤ s.num_tasks - 1
  pub only_running : (i : ℕ) → (s.tasks i).state ≡ running → i ≡ s.current_task
  pub free : (i : ℕ) → s.num_tasks ≤ i → i < max_tasks → (s.tasks i).state ≡ unused
  pub pids : (i : ℕ) → i < s.num_tasks → (s.tasks i).pid ≡ i

module _ (s : Sched) (next : ℕ) (ne : next ≢ s.current_task) where
  pub switch_to-new : ((switch_to next s).tasks next).state ≡ running
  unfolding switch_to
  switch_to-new = ground arith

  pub switch_to-old : ((switch_to next s).tasks s.current_task).state ≢ running
  unfolding switch_to
  switch_to-old = ground arith

  pub switch_to-other :
      (i : ℕ) → i ≢ next → i ≢ s.current_task → (switch_to next s).tasks i ≡ s.tasks i
  unfolding switch_to
  switch_to-other i p q = ground arith

  pub switch_to-pid : (i : ℕ) → ((switch_to next s).tasks i).pid ≡ (s.tasks i).pid
  unfolding switch_to
  switch_to-pid i = ground arith

  pub switch_to-num : (switch_to next s).num_tasks ≡ s.num_tasks
  unfolding switch_to
  switch_to-num = ground arith

  pub switch_to-current : (switch_to next s).current_task ≡ next
  unfolding switch_to
  switch_to-current = ground arith

  -- The registers of the old task go to its context, and those of the new one come from its own.
  pub switch_to-saved : ((switch_to next s).tasks s.current_task).context ≡ s.cpu
  unfolding switch_to
  switch_to-saved = ground arith

  pub switch_to-loaded : (switch_to next s).cpu ≡ (s.tasks next).context
  unfolding switch_to
  switch_to-loaded = ground arith

  -- An exited task that is switched away from stays exited.
  pub switch_to-unused :
      (s.tasks s.current_task).state ≡ unused
      → ((switch_to next s).tasks s.current_task).state ≡ unused
  unfolding switch_to
  switch_to-unused e = ground arith

  pub switch_to-IsValid : IsValid s → next < s.num_tasks → IsValid (switch_to next s)
  switch_to-IsValid v h = record {
    count = omega (arith, v.count, switch_to-num);
    current = omega (arith, switch_to-num, switch_to-current);
    only_running = λ i e. only i e ∙ sym switch_to-current;
    free = λ i p q.
        let below : s.num_tasks ≤ i = omega (arith, switch_to-num) in
        ap (λ (t : Task). t.state) (switch_to-other i (omega arith) (omega (arith, v.current)))
        ∙ v.free i below q;
    pids = λ i p. switch_to-pid i ∙ v.pids i (omega (arith, switch_to-num));
  }
    where
      only : (i : ℕ) → ((switch_to next s).tasks i).state ≡ running → i ≡ next
      only i e = elim (ℕ_discrete i next) [
        | yes p ↦ p
        | no p ↦ elim (ℕ_discrete i s.current_task) [
          | yes q ↦ absurd (switch_to-old (rw q at e))
          | no q ↦
              absurd (
                q (v.only_running i (sym (ap (λ (t : Task). t.state) (switch_to-other i p q)) ∙ e)))
        ]
      ]

pub IsNext-lt :
    {tasks : ℕ → Task} {current num next : ℕ} → IsNext tasks current num next → next < num
IsNext-lt {num} n = rw n.found (mod-lt _ (omega arith))

pub Schedules-IsValid : {s s' : Sched} → Schedules s s' → IsValid s → IsValid s'
Schedules-IsValid (alone p e) v = rw e v
Schedules-IsValid (stay n e) v = rw e v
Schedules-IsValid {s} (switch next n ne e) v = rw e (switch_to-IsValid s next ne v (IsNext-lt n))

-- A valid table needs no more fuel, and stays valid.
pub schedule-IsValid :
    {s : Sched} → IsValid s → (s' : Sched) × (schedule s ≡ some s') × Schedules s s' × IsValid s'
schedule-IsValid {s} v =
    let end = schedule_total s (live s v.current) in
    (end.0, end.1, end.2, Schedules-IsValid end.2 v)
  where
    live :
        (s : Sched)
        → s.current_task ≤ s.num_tasks - 1
        → (s.num_tasks ≤ 1) ⊎ (s.current_task < s.num_tasks)
    live s h = grind arith
