-- ===== src/Ipc/Calls.antt =====
-- Every call of kernal/ipc.c, whatever its arguments, keeps the pool well formed.
use hydra_microkernal.Prelude.{
  ◌⊎◌, inl, inr, true, pos_part, ℕ, ◌≤◌, ◌<◌, ◌≡◌, refl, ap₂, ℤ, pos, negsuc, is_nonpos, Option,
  none, some, List, [], ◌∷◌, Bytes, prefix, arith, dec_lt,
}
use hydra_microkernal.Sched.{max_tasks}
use hydra_microkernal.Ipc.{Ipc, send_message, recv_message}
use hydra_microkernal.Ipc.Queues.{Queues, Represents, nexts}
use hydra_microkernal.Ipc.Queues
use hydra_microkernal.Ipc.Send.{send_message-atomic, send_message-Refines}
use hydra_microkernal.Ipc.Recv.{recv_message-Delivers}

-- The pool holds queues of which `P` holds.
abbrev pub Holds : (Queues → Type 0) → Ipc → Type 0
Holds P s = (v : Queues) × Represents s v × P v

-- The pool holds some queues.
abbrev pub IsPool : Ipc → Type 0
IsPool s = (v : Queues) × Represents s v

pos_part-pos : (x : ℤ) → 0 < pos_part x → x ≡ pos (pos_part x)
pos_part-pos x h = ground arith

-- The checks of `recv_message`, and an empty queue.
recv_message-kept :
    (s : Ipc) (c : ℕ) (sender_pid : ℤ) (buffer : Bytes) (max_size : ℤ)
    → (is_nonpos max_size ≡ true) ⊎ (max_tasks ≤ c) ⊎ ((s.message_queues c).head ≡ 0)
    → (recv_message s (pos c) sender_pid (some buffer) max_size).0 ≡ s
unfolding recv_message
recv_message-kept s c sender_pid buffer max_size h = ground arith

-- What the two operations on queues keep, the calls keep.
module _ (P : Queues → Type 0)
    (keeps_send : (t : ℤ) (r : ℕ) (bytes : List ℕ) (v : Queues)
      → r < max_tasks
      → P v
      → P (Queues.send t r bytes v).0)
    (keeps_recv : (c : ℕ) (v : Queues) → c < max_tasks → P v → P (Queues.recv c v)) where
  pub send_message-Holds :
      (s : Ipc) (t receiver : ℤ) (payload : Option Bytes) (size : ℤ)
      → Holds P s
      → Holds P (send_message s t receiver payload size).0
  send_message-Holds s t receiver none size p = elim (send_message-atomic s t receiver none size) [
    | inl kept ↦ rw kept.1 p
    | inr sent ↦ absurd (sent.2 refl)
  ]
  send_message-Holds s t receiver (some src) size (v, R, p) =
      elim (send_message-atomic s t receiver (some src) size) [
        | inl kept ↦ rw kept.1 (v, R, p)
        | inr sent ↦
            rw (sent.4, pos_part-pos size sent.5)
              (
                (Queues.send t (pos_part receiver) (prefix (pos_part size) src) v).0,
                (send_message-Refines R t (pos_part receiver) src (pos_part size) sent.3 sent.5
                    sent.6).state,
                keeps_send t (pos_part receiver) (prefix (pos_part size) src) v sent.3 p,
              )
      ]

  pub recv_message-Holds :
      (s : Ipc) (c : ℕ) (sender_pid : ℤ) (buffer : Option Bytes) (max_size : ℤ)
      → Holds P s
      → Holds P (recv_message s (pos c) sender_pid buffer max_size).0
  recv_message-Holds s c sender_pid none max_size p = unfold recv_message in p
  recv_message-Holds s c sender_pid (some buffer) (negsuc n) p =
      rw (recv_message-kept s c sender_pid buffer (negsuc n) (inl refl)) p
  recv_message-Holds s c sender_pid (some buffer) (pos n) (v, R, p) = elim (dec_lt 0 n) [
    | no q ↦ rw (recv_message-kept s c sender_pid buffer (pos n) (inl (ground arith))) (v, R, p)
    | yes q ↦ elim (dec_lt c max_tasks) [
      | no k ↦
          rw (recv_message-kept s c sender_pid buffer (pos n) (inr (inl (omega arith)))) (v, R, p)
      | yes k ↦ go (v.queued c) refl q k
    ]
  ]
    where
      go :
          (l : List ℕ)
          → v.queued c ≡ l
          → 0 < n
          → c < max_tasks
          → Holds P (recv_message s (pos c) sender_pid (some buffer) (pos n)).0
      go [] e q k =
          rw (recv_message-kept s c sender_pid buffer (pos n) (inr (inr (rw e at (R.chain c)))))
            (v, R, p)
      go (a ∷ rest) e q k = (
        Queues.recv c v,
        (recv_message-Delivers R c sender_pid buffer n a rest e k q).state,
        keeps_recv c v k p,
      )

pub send_message-IsPool :
    (s : Ipc) (t receiver : ℤ) (payload : Option Bytes) (size : ℤ)
    → IsPool s
    → IsPool (send_message s t receiver payload size).0
send_message-IsPool s t receiver payload size (v, R) =
    let h =
      send_message-Holds (λ v. Unit) (λ t r bytes v h p. tt) (λ c v h p. tt) s t receiver payload
        size (v, R, tt) in
    (h.0, h.1)

pub recv_message-IsPool :
    (s : Ipc) (c : ℕ) (sender_pid : ℤ) (buffer : Option Bytes) (max_size : ℤ)
    → IsPool s
    → IsPool (recv_message s (pos c) sender_pid buffer max_size).0
recv_message-IsPool s c sender_pid buffer max_size (v, R) =
    let h =
      recv_message-Holds (λ v. Unit) (λ t r bytes v h p. tt) (λ c v h p. tt) s c sender_pid buffer
        max_size (v, R, tt) in
    (h.0, h.1)

pub send_message_large :
    (t : Ipc) (from to : ℤ) (payload : Option Bytes) (m : ℕ)
    → 256 < m
    → send_message t from to payload (pos m) ≡ (t, negsuc 0)
send_message_large t from to payload m h = elim (send_message-atomic t from to payload (pos m)) [
  | inl (e, same) ↦ ap₂ (λ (x : Ipc) (y : ℤ). (x, y)) same e
  | inr r ↦ absurd (omega (arith, r.6))
]
