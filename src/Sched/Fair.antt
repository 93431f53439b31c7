-- ===== src/Sched/Fair.antt =====
-- No ready task of kernal/sched.c starves: a bound on its wait.
use native.Mathlib.Nat.{mod-eq_of_lt, mod-eq-sub-mod}
use hydra_microkernal.Prelude.{
  ℕ, ◌+◌, ◌-◌, ◌%◌, ◌≤◌, ◌<◌, ◌≡◌, ◌≢◌, refl, sym, ap, ◌∙◌, ◌⊎◌, inl, inr, true, false, ltb,
  if◌then◌else◌, arith, dec_lt, ℕ_discrete, update_ne,
}
use hydra_microkernal.Sched.{
  Task, Sched, ready, unused, max_tasks, is_ready, create_task, task_yield, sched_tick, sys_exit,
}
use hydra_microkernal.Sched.Search.{IsNext, Schedules, alone, stay, switch}
use hydra_microkernal.Sched.Inv.{IsValid, switch_to-other, switch_to-num, switch_to-current}
use hydra_microkernal.Sched.Calls.{
  Schedulable, Schedulable-result, task_yield-IsValid, sched_tick-IsValid, sys_exit-IsValid,
  exited-IsValid, exited, fresh_task, create_task-room, create_task-full,
}
use hydra_microkernal.Sched.Run.{Step, create, yields, tick, exit, work, Step-IsValid}

-- Task `j` is ready, and another task runs.
pub record IsWaiting (j : ℕ) (s : Sched) : Type 0 where
  pub created : j < s.num_tasks
  pub state : (s.tasks j).state ≡ ready
  pub not_current : j ≢ s.current_task

-- How many slots the current one is before slot `j`, in a table of `max_tasks` slots.
abbrev distance : ℕ → ℕ → ℕ
distance j c = if ltb c j then j - c else j + max_tasks - c

-- Going round a table of `num` slots, at most once.
around :
    (c k num : ℕ)
    → c < num
    → k ≤ num
    → ((c + k < num) × ((c + k) % num ≡ c + k)) ⊎ ((num ≤ c + k) × ((c + k) % num ≡ c + k - num))
around c k num h p = elim (dec_lt (c + k) num) [
  | yes q ↦ inl (q, mod-eq_of_lt q)
  | no q ↦
      let back : c + k - num < num = omega arith in
      inr (omega arith, mod-eq-sub-mod (omega arith) ∙ mod-eq_of_lt back)
]

-- How far behind the current slot the search meets `j`.
place :
    (c j num : ℕ) → c < num → j < num → j ≢ c → (k : ℕ) × (0 < k) × (k < num) × ((c + k) % num ≡ j)
place c j num h p ne = elim (dec_lt c j) [
  | yes q ↦ (
    j - c,
    omega arith,
    omega arith,
    elim (around c (j - c) num h (omega arith)) [
      | inl a ↦ omega (arith, a)
      | inr a ↦ absurd (omega (arith, a))
    ],
  )
  | no q ↦
      let k : ℕ = j + num - c in
      (
        k,
        omega arith,
        omega arith,
        elim (around c k num h (omega arith)) [
          | inl a ↦ absurd (omega (arith, a))
          | inr a ↦ omega (arith, a)
        ],
      )
]

-- The arithmetic of the search, on either side of the end of the table.
nearer :
    (c j num next steps k : ℕ)
    → num ≤ max_tasks
    → c < num
    → j < num
    → j ≢ c
    → 0 < k
    → k < num
    → 0 < steps
    → steps < k
    → ((c + k < num) × ((c + k) % num ≡ c + k)) ⊎ ((num ≤ c + k) × ((c + k) % num ≡ c + k - num))
    → ((c + steps < num) × ((c + steps) % num ≡ c + steps))
      ⊎ ((num ≤ c + steps) × ((c + steps) % num ≡ c + steps - num))
    → (c + k) % num ≡ j
    → next ≡ (c + steps) % num
    → distance j next < distance j c
nearer c j num next steps k small h p ne q r start before x y e f = ground arith

true-ne-false : true ≢ false
true-ne-false e = cc

-- The task that is chosen is `j`, or one between the current one and `j`.
IsNext-nearer :
    {tasks : ℕ → Task} {c num next : ℕ} (j : ℕ)
    → IsNext tasks c num next
    → num ≤ max_tasks
    → c < num
    → j < num
    → j ≢ c
    → (tasks j).state ≡ ready
    → j ≢ next
    → distance j next < distance j c
IsNext-nearer {tasks} {c} {num} {next} j n small h p ne r away =
    nearer c j num next n.steps k.0 small h p ne k.1 k.2 n.first before
      (around c k.0 num h (omega (arith, k.2))) (around c n.steps num h n.last) k.3 n.found
  where
    k : (k : ℕ) × (0 < k) × (k < num) × ((c + k) % num ≡ j)
    k = place c j num h p ne

    seen : is_ready (tasks ((c + k.0) % num)).state ≡ true
    seen = rw k.3 (ap is_ready r)

    before : n.steps < k.0
    before = elim (dec_lt n.steps k.0) [
      | yes q ↦ q
      | no q ↦ elim (ℕ_discrete n.steps k.0) [
        | yes e ↦ absurd (away (sym (n.found ∙ ap (λ m. (c + m) % num) e ∙ k.3)))
        | no d ↦ absurd (true-ne-false (sym seen ∙ n.skipped k.0 k.1 (omega arith)))
      ]
    ]

-- The search does not come back to the current task while another one is ready.
not-stay :
    {j : ℕ} {s : Sched}
    → IsNext s.tasks s.current_task s.num_tasks s.current_task
    → IsValid s
    → IsWaiting j s
    → ⊥
not-stay {j} {s} n v w =
    let near =
      IsNext-nearer j n v.count (omega (arith, v.current, w.created)) w.created w.not_current
        w.state w.not_current in
    omega (arith, near)

-- While another task is ready, `schedule` switches.
pub Schedules-switches :
    {j : ℕ} {s s' : Sched}
    → Schedules s s'
    → IsValid s
    → IsWaiting j s
    → s'.current_task ≢ s.current_task
Schedules-switches (alone p e) v w = absurd (w.not_current (omega (arith, w.created, v.current, p)))
Schedules-switches (stay n e) v w = absurd (not-stay n v w)
Schedules-switches {j} {s} (switch next n ne e) v w = rw (e, switch_to-current s next ne) ne

Schedules-IsWaiting :
    {j : ℕ} {s s' : Sched}
    → Schedules s s'
    → IsValid s
    → IsWaiting j s
    → j ≢ s'.current_task
    → IsWaiting j s' × (distance j s'.current_task < distance j s.current_task)
Schedules-IsWaiting {j} {s} (alone p e) v w away =
    absurd (w.not_current (omega (arith, w.created, v.current, p)))
Schedules-IsWaiting {j} {s} (stay n e) v w away = absurd (not-stay n v w)
Schedules-IsWaiting {j} {s} (switch next n ne e) v w away = rw e (
  record {
    created = omega (arith, w.created, switch_to-num s next ne);
    state = ap (λ (t : Task). t.state) (switch_to-other s next ne j other w.not_current) ∙ w.state;
    not_current = λ q. other (q ∙ switch_to-current s next ne);
  },
  rw (switch_to-current s next ne) (
      IsNext-nearer j n v.count (omega (arith, v.current, w.created)) w.created w.not_current
        w.state other),
)
  where
    other : j ≢ next
    other q = away (q ∙ sym (rw e (switch_to-current s next ne)))

-- The calls of a step that let the scheduler choose.
abbrev turns : {tasks_base : ℕ} {s s' : Sched} → Step tasks_base s s' → ℕ
turns (create entry e) = 0
turns (yields e) = 1
turns (tick e) = 1
turns (exit e) = 1
turns (work cpu e) = 0

-- Steps of other tasks, some of them calls of the scheduler, none of which gives `j` its turn; their number
-- is the one of those calls.
pub data Waits (tasks_base j : ℕ) (s : Sched) : ℕ → Sched → Type 0 where
  here : {n : ℕ} → n ≡ 0 → Waits tasks_base j s n s
  more :
      {m n : ℕ} {t u : Sched}
      → Waits tasks_base j s m t
      → (st : Step tasks_base t u) → j ≢ u.current_task
      → n ≡ m + turns st
      → Waits tasks_base j s n u

create_task-IsWaiting :
    (tasks_base entry : ℕ) {j : ℕ} {s : Sched}
    → IsWaiting j s
    → IsWaiting j (create_task tasks_base entry s).0
      × ((create_task tasks_base entry s).0.current_task ≡ s.current_task)
create_task-IsWaiting tasks_base entry {j} {s} w = elim (dec_lt s.num_tasks max_tasks) [
  | no full ↦ rw (create_task-full tasks_base entry s (omega arith)) (w, refl)
  | yes room ↦ rw (create_task-room tasks_base entry s room) (
    record {
      created = omega (arith, w.created);
      state =
          ap (λ (t : Task). t.state)
            (update_ne s.tasks s.num_tasks j (fresh_task tasks_base entry s.num_tasks)
              (omega (arith, w.created)))
          ∙ w.state;
      not_current = w.not_current;
    },
    refl,
  )
]

exited-IsWaiting : {j : ℕ} {s : Sched} → IsWaiting j s → IsWaiting j (exited s)
exited-IsWaiting {j} {s} w = record {
  created = w.created;
  state =
      ap (λ (t : Task). t.state)
        (update_ne s.tasks s.current_task j (record (s.tasks s.current_task) { state = unused })
          (λ q. w.not_current (sym q)))
      ∙ w.state;
  not_current = w.not_current;
}

Step-IsWaiting :
    {tasks_base j : ℕ} {s s' : Sched}
    → IsValid s
    → IsWaiting j s
    → (st : Step tasks_base s s') → j ≢ s'.current_task
    → IsWaiting j s' × (turns st + distance j s'.current_task ≤ distance j s.current_task)
Step-IsWaiting {tasks_base} {j} v w (create entry e) away =
    let c = create_task-IsWaiting tasks_base entry w in rw e (c.0, rw c.1 (omega arith))
Step-IsWaiting v w (yields e) away =
    let r = Schedules-IsWaiting (Schedulable-result (task_yield-IsValid v) e).0 v w away in
    (r.0, omega (arith, r.1))
Step-IsWaiting v w (tick e) away =
    let r = Schedules-IsWaiting (Schedulable-result (sched_tick-IsValid v) e).0 v w away in
    (r.0, omega (arith, r.1))
Step-IsWaiting v w (exit e) away =
    let r =
      Schedules-IsWaiting (Schedulable-result (sys_exit-IsValid v) e).0 (exited-IsValid v)
        (exited-IsWaiting w) away in
    (r.0, omega (arith, r.1))
Step-IsWaiting v w (work cpu e) away =
    rw e (record { created = w.created; state = w.state; not_current = w.not_current }, omega arith)

distance-le : (j c : ℕ) → j < max_tasks → j ≢ c → distance j c < max_tasks
distance-le j c h ne = ground arith

distance_pos : (j c : ℕ) → c < max_tasks → j ≢ c → 0 < distance j c
distance_pos j c h ne = ground arith

Waits-distance :
    {tasks_base j : ℕ} {s : Sched} {n : ℕ} {s' : Sched}
    → IsValid s
    → IsWaiting j s
    → Waits tasks_base j s n s'
    → IsValid s' × IsWaiting j s' × (n + distance j s'.current_task ≤ distance j s.current_task)
Waits-distance v w (here e) = (v, w, omega (arith, e))
Waits-distance v w (more r st away e) =
    let before = Waits-distance v w r in
    let after = Step-IsWaiting before.0 before.1 st away in
    (Step-IsValid before.0 st, after.0, omega (arith, before.2, after.1, e))

-- A ready task gets its turn: whatever the tasks that run do, there are at most six yields, timer ticks and exits
-- before it runs, and while it waits it stays ready and the table stays valid. Each such call returns, so
-- the seventh at the latest gives it the processor.
pub Waits-lt :
    {tasks_base j : ℕ} {s : Sched} {n : ℕ} {s' : Sched}
    → IsValid s
    → IsWaiting j s
    → Waits tasks_base j s n s'
    → (n < max_tasks - 1)
      × IsWaiting j s'
      × Schedulable s' (task_yield s')
      × Schedulable s' (sched_tick s')
      × Schedulable (exited s') (sys_exit s')
Waits-lt {j = j} {s = s} {s' = s'} v w r =
    let end = Waits-distance v w r in
    (
      omega (
        arith,
        end.2,
        distance-le j s.current_task (omega (arith, w.created, v.count)) w.not_current,
        distance_pos j s'.current_task (omega (arith, end.1.created, end.0.count, end.0.current))
            end.1.not_current,
      ),
      end.1,
      task_yield-IsValid end.0,
      sched_tick-IsValid end.0,
      sys_exit-IsValid end.0,
    )
