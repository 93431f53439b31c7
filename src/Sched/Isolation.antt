-- ===== src/Sched/Isolation.antt =====
-- A task finds its registers as it left them, whatever the other tasks do meanwhile.
use hydra_microkernal.Prelude.{
  ℕ, ◌≤◌, ◌<◌, ◌≡◌, ◌≢◌, refl, sym, ap, ◌∙◌, update, update_ne, arith, dec_lt,
}
use hydra_microkernal.Sched.{Task, Sched, Context, max_tasks, create_task, switch_to}
use hydra_microkernal.Sched.Search.{Schedules, alone, stay, switch}
use hydra_microkernal.Sched.Inv.{
  IsValid, switch_to-current, switch_to-saved, switch_to-loaded, switch_to-num,
}
use hydra_microkernal.Sched.Calls.{exited, fresh_task, create_task-room, create_task-full}
use hydra_microkernal.Sched.Run.{Step, Effect, creates, schedules, exits, works, effect}

switch_to-context :
    (s : Sched) (next i : ℕ)
    → i ≢ s.current_task
    → ((switch_to next s).tasks i).context ≡ (s.tasks i).context
unfolding switch_to
switch_to-context s next i p = ground arith

-- What a step owes to a task `i`: while another task runs, the context of `i` is kept; when `i`
-- stops, its context holds the processor's registers; when it starts, the processor holds its context.
record Keeps (i : ℕ) (s s' : Sched) : Type 0 where
  created : s.num_tasks ≤ s'.num_tasks
  away : i ≢ s.current_task → (s'.tasks i).context ≡ (s.tasks i).context
  stops : i ≡ s.current_task → i ≢ s'.current_task → (s'.tasks i).context ≡ s.cpu
  starts : i ≢ s.current_task → i ≡ s'.current_task → s'.cpu ≡ (s.tasks i).context

Keeps-refl : (i : ℕ) (s : Sched) → Keeps i s s
Keeps-refl i s = record {
  created = omega arith;
  away = λ p. refl;
  stops = λ p q. absurd (q p);
  starts = λ p q. absurd (p q);
}

Schedules-Keeps : {i : ℕ} {s s' : Sched} → Schedules s s' → Keeps i s s'
Schedules-Keeps {i} {s} {s'} (alone p e) = rw e (Keeps-refl i s)
Schedules-Keeps {i} {s} {s'} (stay n e) = rw e (Keeps-refl i s)
Schedules-Keeps {i} {s} {s'} (switch next n ne e) = rw e (record {
  created = omega (arith, switch_to-num s next ne);
  away = λ p. switch_to-context s next i p;
  stops = λ p q. ap (λ k. ((switch_to next s).tasks k).context) p ∙ switch_to-saved s next ne;
  starts = λ p q.
      switch_to-loaded s next ne
      ∙ ap (λ k. (s.tasks k).context) (sym (q ∙ switch_to-current s next ne));
})

exited-context : (s : Sched) (i : ℕ) → ((exited s).tasks i).context ≡ (s.tasks i).context
exited-context s i = ground arith

exited-Keeps : {i : ℕ} {s s' : Sched} → Keeps i (exited s) s' → Keeps i s s'
exited-Keeps {i} {s} k = record {
  created = k.created;
  away = λ p. k.away p ∙ exited-context s i;
  stops = k.stops;
  starts = λ p q. k.starts p q ∙ exited-context s i;
}

create_task-Keeps :
    (tasks_base entry i : ℕ) (s : Sched)
    → i < s.num_tasks
    → Keeps i s (create_task tasks_base entry s).0
create_task-Keeps tasks_base entry i s h = elim (dec_lt s.num_tasks max_tasks) [
  | no full ↦ rw (create_task-full tasks_base entry s (omega arith)) (Keeps-refl i s)
  | yes room ↦ rw (create_task-room tasks_base entry s room) (record {
    created = omega arith;
    away = λ p. ap (λ (t : Task). t.context) same;
    stops = λ p q. absurd (q p);
    starts = λ p q. absurd (p q);
  })
]
  where
    same : update s.tasks s.num_tasks (fresh_task tasks_base entry s.num_tasks) i ≡ s.tasks i
    same = update_ne s.tasks s.num_tasks i (fresh_task tasks_base entry s.num_tasks) (omega arith)

Effect-Keeps :
    {tasks_base i : ℕ} {s s' : Sched} → i < s.num_tasks → Effect tasks_base s s' → Keeps i s s'
Effect-Keeps {tasks_base} {i} {s} h (creates entry e) =
    rw e (create_task-Keeps tasks_base entry i s h)
Effect-Keeps h (schedules d) = Schedules-Keeps d
Effect-Keeps h (exits d) = exited-Keeps (Schedules-Keeps d)
Effect-Keeps h (works cpu e) = rw e (record {
  created = omega arith;
  away = λ p. refl;
  stops = λ p q. absurd (q p);
  starts = λ p q. absurd (p q);
})

-- Steps that all begin while another task than `i` runs.
pub data Parked (tasks_base i : ℕ) (s : Sched) : Sched → Type 0 where
  start : Parked tasks_base i s s
  step :
      {t u : Sched}
      → Parked tasks_base i s t
      → i ≢ t.current_task
      → Step tasks_base t u
      → Parked tasks_base i s u

-- The registers `r` of task `i` lie in its context, or in the processor if it runs.
record Holds (i : ℕ) (r : Context) (s : Sched) : Type 0 where
  valid : IsValid s
  created : i < s.num_tasks
  saved : i ≢ s.current_task → (s.tasks i).context ≡ r
  loaded : i ≡ s.current_task → s.cpu ≡ r

Parked-Holds :
    {tasks_base i : ℕ} {r : Context} {s u : Sched}
    → i ≢ s.current_task
    → Holds i r s
    → Parked tasks_base i s u
    → Holds i r u
Parked-Holds p h start = h
Parked-Holds p h (step d away st) =
    let before = Parked-Holds p h d in
    let after = effect before.valid st in
    let keeps = Effect-Keeps before.created after.0 in
    record {
      valid = after.1;
      created = omega (arith, before.created, keeps.created);
      saved = λ q. keeps.away away ∙ before.saved away;
      loaded = λ q. keeps.starts away q ∙ before.saved away;
    }

-- If task `i` runs in a valid table, a step switches away from it, and after any steps of other
-- tasks it runs again, then the processor holds the registers that it held when `i` stopped.
pub registers_restored :
    {tasks_base i : ℕ} {s t u : Sched}
    → IsValid s
    → i < s.num_tasks
    → i ≡ s.current_task
    → Step tasks_base s t
    → i ≢ t.current_task
    → Parked tasks_base i t u
    → i ≡ u.current_task
    → u.cpu ≡ s.cpu
registers_restored {i = i} {s = s} {t = t} v h now st away d again =
    let first = effect v st in
    let keeps = Effect-Keeps h first.0 in
    let holds : Holds i s.cpu t = record {
      valid = first.1;
      created = omega (arith, keeps.created);
      saved = λ q. keeps.stops now away;
      loaded = λ q. absurd (away q);
    } in
    (Parked-Holds away holds d).loaded again
