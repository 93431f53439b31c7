-- ===== src/Ipc/Conserved.antt =====
-- Sending and receiving keep the number of messages in the pool of kernal/ipc.c.
use hydra_microkernal.Prelude.{
  ℕ, zero, suc, ◌+◌, ◌≤◌, ◌<◌, ◌≡◌, refl, ap, ap₂, ◌∙◌, ℤ, List, [], ◌∷◌, ◌++◌, length,
  length-append, update, update_self, update_ne, arith, ℕ_discrete,
}
use hydra_microkernal.Sched.{max_tasks}
use hydra_microkernal.Ipc.Queues
use hydra_microkernal.Ipc.Queues.{
  Queues, Represents, nexts, send-full, send-free, recv-nil, recv-cons,
}

-- The messages in `n` queues from the `i`th on.
abbrev pub total : ℕ → ℕ → (ℕ → List ℕ) → ℕ
total zero i queued = 0
total (suc n) i queued = length (queued i) + total n (suc i) queued

total-before :
    (n i : ℕ) (q : ℕ → List ℕ) (r : ℕ) (l : List ℕ) → r < i → total n i (update q r l) ≡ total n i q
total-before zero i q r l h = refl
total-before (suc n) i q r l h =
    ap₂ (λ (xs : List ℕ) k. length xs + k) (update_ne q r i l (omega arith))
      (total-before n (suc i) q r l (omega arith))

-- One queue changed.
total-update :
    (n i : ℕ) (q : ℕ → List ℕ) (r : ℕ) (l : List ℕ)
    → i ≤ r
    → r < i + n
    → total n i (update q r l) + length (q r) ≡ total n i q + length l
total-update zero i q r l h k = absurd (omega arith)
total-update (suc n) i q r l h k = elim (ℕ_discrete i r) [
  | yes e ↦ omega (
    arith,
    ap length (ap (update q r l) e ∙ update_self q r l),
    ap (λ j. length (q j)) e,
    total-before n (suc i) q r l (omega arith),
  )
  | no ne ↦ omega (
    arith,
    ap length (update_ne q r i l (omega arith)),
    total-update n (suc i) q r l (omega arith) (omega arith),
  )
]

-- `n` messages in the free list and the queues of the tasks.
abbrev pub HasAll : ℕ → Queues → Type 0
HasAll n v = length v.free + total max_tasks 0 v.queued ≡ n

pub send-HasAll :
    (n : ℕ) (t : ℤ) (r : ℕ) (bytes : List ℕ) (v : Queues)
    → r < max_tasks
    → HasAll n v
    → HasAll n (Queues.send t r bytes v).0
send-HasAll n t r bytes v h all = go v.free refl
  where
    go : (free : List ℕ) → v.free ≡ free → HasAll n (Queues.send t r bytes v).0
    go [] e = rw (send-full t r bytes v e) all
    go (a ∷ rest) e = rw (send-free t r bytes v a rest e) (
        omega (
          arith,
          ap length e,
          length-append (v.queued r) (a ∷ []),
          total-update max_tasks 0 v.queued r (v.queued r ++ a ∷ []) (omega arith) (omega arith),
          all,
        ))

pub recv-HasAll : (n c : ℕ) (v : Queues) → c < max_tasks → HasAll n v → HasAll n (Queues.recv c v)
recv-HasAll n c v h all = go (v.queued c) refl
  where
    go : (l : List ℕ) → v.queued c ≡ l → HasAll n (Queues.recv c v)
    go [] e = rw (recv-nil c v e) all
    go (a ∷ rest) e = rw (recv-cons c v a rest e) (
        omega (
          arith,
          ap length e,
          total-update max_tasks 0 v.queued c rest (omega arith) (omega arith),
          all,
        ))
