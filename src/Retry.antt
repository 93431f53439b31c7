-- ===== src/Retry.antt =====
-- The loop that the client functions of server/bullet.c and server/net_srv.c send a message with, and the answer that they
-- wait for.
use hydra_microkernal.Prelude.{
  ℕ, zero, suc, ◌+◌, ◌≤◌, ◌<◌, ◌≡◌, refl, inl, inr, Bool, true, false, Bool-cases, Option, none,
  some, ℤ, negsuc, is_neg, if◌then◌else◌, arith, ℕ_discrete,
}

-- The loop of the client functions that sends a message: attempt `k` returns `sent k`. Is it left by the `break`?
unfoldable pub send_retries : ℕ → ℕ → (ℕ → ℤ) → Bool
send_retries zero k sent = false
send_retries (suc retries) k sent =
    let rest = send_retries retries (suc k) sent in if is_neg (sent k) then rest else true

-- The `int` that starts as -1 and that an answer, where one is received, overwrites.
abbrev pub received_or : Option ℤ → ℤ
received_or none = negsuc 0
received_or (some x) = x

pub send_retries-sent :
    (n i : ℕ) (sent : ℕ → ℤ) (k : ℕ)
    → i ≤ k
    → k < i + n
    → is_neg (sent k) ≡ false
    → send_retries n i sent ≡ true
unfolding send_retries
send_retries-sent zero i sent k a b e = absurd (omega arith)
send_retries-sent (suc n) i sent k a b e = elim (Bool-cases (is_neg (sent i))) [
  | inr ok ↦ rw ok refl
  | inl failed ↦ elim (ℕ_discrete i k) [
    | yes same ↦ rw (same, e) refl
    | no other ↦ rw failed (send_retries-sent n (suc i) sent k (omega arith) (omega arith) e)
  ]
]
