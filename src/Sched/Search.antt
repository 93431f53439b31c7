-- ===== src/Sched/Search.antt =====
-- The search of `schedule` in kernal/sched.c ends, and is round-robin.
use native.Mathlib.Nat.{mod-add-mod, mod-eq_of_lt}
use hydra_microkernal.Prelude.{
  ℕ, zero, suc, ◌+◌, ◌%◌, ◌≤◌, ◌<◌, ◌≡◌, ◌≢◌, refl, ap, ◌∙◌, ◌⊎◌, inl, inr, Bool, true, false, ◌||◌,
  some, ◌==◌, if◌then◌else◌, Bool-cases, arith, ℕ_discrete, dec_le, if_ne, if_eq, subst, leb,
}
use hydra_microkernal.Sched.{Task, Sched, is_ready, next_ready, schedule, switch_to}

stop_cases : (m n : ℕ) (b : Bool) → (m == n || b) ≡ true → (m ≡ n) ⊎ (b ≡ true)
stop_cases m n true h = inr refl
stop_cases m n false h = inl (ground arith)

more_cases : (m n : ℕ) (b : Bool) → (m == n || b) ≡ false → (m ≢ n) × (b ≡ false)
more_cases m n true h = absurd (ground arith)
more_cases m n false h = (ground arith, refl)

module _ (tasks : ℕ → Task) (current num : ℕ) where
  -- The task `k` places behind the current one, going round.
  abbrev pub at : ℕ → ℕ
  at k = (current + k) % num

  -- The search stops at the first ready task behind the current one, or comes back to it.
  pub record IsNext (next : ℕ) : Type 0 where
    pub steps : ℕ
    pub first : 0 < steps
    pub last : steps ≤ num
    pub found : next ≡ at steps
    pub skipped : (j : ℕ) → 0 < j → j < steps → is_ready (tasks (at j)).state ≡ false
    pub outcome : (next ≡ current) ⊎ (is_ready (tasks next).state ≡ true)

  at-suc : (k : ℕ) → 0 < num → (at k + 1) % num ≡ at (suc k)
  at-suc k h = mod-add-mod (current + k) num 1 ∙ ap (λ m. m % num) (omega arith)

  at-num : current < num → at num ≡ current
  at-num h = grind (arith, mod-eq_of_lt)

  -- A search that has come round stops.
  further : (k : ℕ) → current < num → k ≤ num → at k ≢ current → suc k ≤ num
  further k h q ne = elim (ℕ_discrete k num) [
    | yes e ↦ absurd (ne (ap at e ∙ at-num h))
    | no lt ↦ omega arith
  ]

  also_skipped :
      (k : ℕ)
      → ((j : ℕ) → 0 < j → j < k → is_ready (tasks (at j)).state ≡ false)
      → is_ready (tasks (at k)).state ≡ false
      → (j : ℕ) → 0 < j
      → j < suc k
      → is_ready (tasks (at j)).state ≡ false
  also_skipped k skip here j p q = elim (ℕ_discrete k j) [
    | yes e ↦ rw (← e) here
    | no lt ↦ skip j p (omega arith)
  ]

  next_ready_lem :
      (fuel k : ℕ)
      → current < num
      → 0 < k
      → k ≤ num
      → num < fuel + k
      → ((j : ℕ) → 0 < j → j < k → is_ready (tasks (at j)).state ≡ false)
      → (next : ℕ) × (next_ready fuel tasks current num (at k) ≡ some next) × IsNext next
  unfolding next_ready
  next_ready_lem zero k h p q r skip = absurd (omega arith)
  next_ready_lem (suc fuel) k h p q r skip =
      elim (Bool-cases (at k == current || is_ready (tasks (at k)).state)) [
        | inl stop ↦ (
          at k,
          rw stop,
          record {
            steps = k;
            first = p;
            last = q;
            found = refl;
            skipped = skip;
            outcome = stop_cases (at k) current (is_ready (tasks (at k)).state) stop;
          },
        )
        | inr more ↦
            rw (more, at-suc k (omega arith))
              (next_ready_lem fuel (suc k) h (omega arith) (further k h q (more_cases _ _ _ more).0)
                (omega arith) (also_skipped k skip (more_cases _ _ _ more).1))
      ]

  -- The search that `schedule` starts returns, with the next task in turn.
  pub next_ready-IsNext :
      1 < num
      → current < num
      → (next : ℕ) × (next_ready num tasks current num ((current + 1) % num) ≡ some next)
        × IsNext next
  next_ready-IsNext h p =
      next_ready_lem num 1 p (omega arith) (omega arith) (omega arith)
        (λ j q r. absurd (omega arith))

-- What a call of `schedule` may do.
pub data Schedules (s s' : Sched) : Type 0 where
  alone : s.num_tasks ≤ 1 → s' ≡ s → Schedules s s'
  stay : IsNext s.tasks s.current_task s.num_tasks s.current_task → s' ≡ s → Schedules s s'
  switch :
      (next : ℕ)
      → IsNext s.tasks s.current_task s.num_tasks next
      → next ≢ s.current_task
      → s' ≡ switch_to next s
      → Schedules s s'

module _ (s : Sched) where
  settle :
      (next : ℕ)
      → IsNext s.tasks s.current_task s.num_tasks next
      → (s' : Sched) × ((if next == s.current_task then some s else some (switch_to next s))
          ≡ some s')
        × Schedules s s'
  settle next n = elim (ℕ_discrete next s.current_task) [
    | yes e ↦ (
      s,
      if_eq next s.current_task _ _ e,
      stay (subst (IsNext s.tasks s.current_task s.num_tasks) e n) refl,
    )
    | no ne ↦ (switch_to next s, if_ne next s.current_task _ _ ne, switch next n ne refl)
  ]

  -- Where there is at most one task, or `current_task` is below `num_tasks`, `schedule` does not run out of fuel: its
  -- loop ends. With one task or none it does nothing; otherwise it stays with the current task if the search comes
  -- back to it, and switches to the first ready task behind it if there is one.
  pub schedule_total :
      (s.num_tasks ≤ 1) ⊎ (s.current_task < s.num_tasks)
      → (s' : Sched) × (schedule s ≡ some s') × Schedules s s'
  unfolding schedule
  schedule_total h = elim (dec_le s.num_tasks 1) [
    | yes p ↦ (s, ground arith, alone p refl)
    | no p ↦
        let found =
          next_ready-IsNext s.tasks s.current_task s.num_tasks (omega arith) (omega arith) in
        let end = settle found.0 found.2 in (end.0, rw (several p, found.1) end.1, end.2)
  ]
    where
      several : ¬ (s.num_tasks ≤ 1) → leb s.num_tasks 1 ≡ false
      several p = ground arith
