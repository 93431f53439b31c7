-- ===== src/Ipc/Reports.antt =====
-- What the status reports of kernal/ipc.c find in a well-formed pool.
use hydra_microkernal.Prelude.{
  ℕ, zero, suc, ◌+◌, ◌<◌, ◌≡◌, refl, sym, ap, ◌∙◌, false, Option, some, ℤ, pos, List, [], ◌∷◌,
  length, Bytes, Chain, arith, if◌then◌else◌, leb, if_eq, if_ne,
}
use hydra_microkernal.Sched.{max_tasks}
use hydra_microkernal.Mm.{Heap}
use hydra_microkernal.Ipc.{
  Ipc, Message, MsgQueue, max_messages, count_nodes, count_free_messages, send_message,
  recv_message,
}
use hydra_microkernal.Ipc.Queues.{Queues, Represents}
use hydra_microkernal.Ipc.Calls.{Holds, send_message-Holds, recv_message-Holds}
use hydra_microkernal.Ipc.Boot.{IsStarted, all_free}
use hydra_microkernal.Ipc.Status.{
  tally, StatusReport, status_report, ipc_debug_status, walk_queue, intact, queue_report,
  ipc_log_queue_status,
}
use hydra_microkernal.Ipc.Conserved.{total, HasAll, send-HasAll, recv-HasAll}

count_nodes-length :
    (store : ℕ → Message) (fuel p n : ℕ) (xs : List ℕ)
    → Chain (λ a. (store a).next) p xs
    → length xs < fuel
    → count_nodes fuel store p n ≡ some (n + length xs)
unfolding count_nodes
count_nodes-length store zero p n xs c h = absurd (omega arith)
count_nodes-length store (suc fuel) p n [] c h = if_eq p 0 _ _ c ∙ ap some (omega arith)
count_nodes-length store (suc fuel) p n (a ∷ xs) c h =
    if_ne p 0 _ _ (λ e. c.1 (sym c.0 ∙ e))
    ∙ ap (λ q. count_nodes fuel store (store q).next (n + 1)) c.0
    ∙ count_nodes-length store fuel (store a).next (n + 1) xs c.2 (omega arith)
    ∙ ap some (omega arith)

walk_queue-length :
    (store : ℕ → Message) (k p n : ℕ) (xs : List ℕ)
    → Chain (λ a. (store a).next) p xs
    → length xs < k
    → walk_queue k store p n ≡ n + length xs
unfolding walk_queue
walk_queue-length store zero p n xs c h = absurd (omega arith)
walk_queue-length store (suc k) p n [] c h = if_eq p 0 _ _ c ∙ omega arith
walk_queue-length store (suc k) p n (a ∷ xs) c h =
    if_ne p 0 _ _ (λ e. c.1 (sym c.0 ∙ e))
    ∙ ap (λ q. walk_queue k store (store q).next (n + 1)) c.0
    ∙ walk_queue-length store k (store a).next (n + 1) xs c.2 (omega arith)
    ∙ omega arith

tally-total :
    (n i : ℕ) (queues : ℕ → MsgQueue) (q : ℕ → List ℕ) (t active : ℕ)
    → ((j : ℕ) → (queues j).count ≡ pos (length (q j)))
    → (tally n i queues t active).0 ≡ t + total n i q
unfolding tally
tally-total zero i queues q t active h = omega arith
tally-total (suc n) i queues q t active h = rw (h i) (
    ground (
      arith,
      tally-total n (suc i) queues q (t + length (q i)) (active + 1) h,
      tally-total n (suc i) queues q t active h,
    ))

queue_report-intact :
    (store : ℕ → Message) (queue : MsgQueue) (xs : List ℕ)
    → Chain (λ a. (store a).next) queue.head xs
    → queue.count ≡ pos (length xs)
    → queue_report store queue ≡ intact (pos (length xs))
queue_report-intact store queue xs c e =
    rw (e, walk_queue-length store (length xs + 5) queue.head 0 xs c (omega arith)) (ground arith)

-- On a well-formed pool the walk of `ipc_log_queue_status` finds the count of each task's queue, and no corruption.
pub ipc_log_queue_status-intact :
    {s : Ipc} {v : Queues} (i : ℕ)
    → Represents s v
    → i < max_tasks
    → ipc_log_queue_status (pos i) s ≡ intact (pos (length (v.queued i)))
unfolding ipc_log_queue_status
ipc_log_queue_status-intact {s} {v} i R h =
    ge_off i h _ _
    ∙ queue_report-intact s.store (s.message_queues i) (v.queued i) (R.chain i) (R.count i)
  where
    ge_off :
        {A : Type 0} (i : ℕ) → i < max_tasks → (x y : A) → (if leb max_tasks i then x else y) ≡ y
    ge_off i h x y = ground arith

no_mismatch :
    (active free t : ℕ)
    → free + t ≡ max_messages
    → (status_report free (t, active)).mismatch ≡ false
no_mismatch active free t e = ground arith

-- A report on a pool of `n` messages.
pub record IsComplete (n : ℕ) (run : Option StatusReport) : Type 0 where
  pub report : StatusReport
  pub returns : run ≡ some report
  pub accounted : report.free_count + report.total_queued ≡ n
  pub no_warning : n ≡ max_messages → report.mismatch ≡ false

ipc_debug_status-IsComplete :
    (n fuel : ℕ) {s : Ipc} {v : Queues}
    → Represents s v
    → HasAll n v
    → n < fuel
    → IsComplete n (ipc_debug_status fuel s)
unfolding ipc_debug_status count_free_messages
ipc_debug_status-IsComplete n fuel {s} {v} R all h =
    let counts = tally max_tasks 0 s.message_queues 0 0 in
    let queued = tally-total max_tasks 0 s.message_queues v.queued 0 0 R.count in
    record {
      report = status_report (0 + length v.free) counts;
      returns =
          rw
            (
              count_nodes-length s.store fuel s.free_messages 0 v.free R.free_chain
                  (omega (arith, all)),
              ipc_debug_status,
            )
            refl;
      accounted = omega (arith, queued, all);
      no_warning =
          λ e. no_mismatch counts.1 (0 + length v.free) counts.0 (omega (arith, queued, all, e));
    }

-- A call of the two functions, with any arguments; the caller of `recv_message` is a task.
pub data Step (s s' : Ipc) : Type 0 where
  sends :
      (t receiver : ℤ) (payload : Option Bytes) (size : ℤ)
      → s' ≡ (send_message s t receiver payload size).0
      → Step s s'
  receives :
      (c : ℕ) (sender_pid : ℤ) (buffer : Option Bytes) (max_size : ℤ)
      → s' ≡ (recv_message s (pos c) sender_pid buffer max_size).0
      → Step s s'

pub data Reach (s : Ipc) : Ipc → Type 0 where
  here : Reach s s
  more : {t u : Ipc} → Reach s t → Step t u → Reach s u

Reach-Holds : (n : ℕ) {s s' : Ipc} → Holds (HasAll n) s → Reach s s' → Holds (HasAll n) s'
Reach-Holds n h here = h
Reach-Holds n h (more {t} r (sends from receiver payload size e)) = rw e (
    send_message-Holds (HasAll n) (send-HasAll n) (recv-HasAll n) t from receiver payload size
      (Reach-Holds n h r))
Reach-Holds n h (more {t} r (receives c sender_pid buffer max_size e)) = rw e (
    recv_message-Holds (HasAll n) (send-HasAll n) (recv-HasAll n) t c sender_pid buffer max_size
      (Reach-Holds n h r))

-- After `ipc_init` has made a pool of `n` messages, and after any calls of `send_message` and `recv_message`, `ipc_debug_status`
-- returns with fuel for 64 nodes, and the free messages and the queued ones that it counts are `n`: none is lost. With a pool of 64
-- it never warns of a mismatch.
pub Reach-IsComplete :
    {start limit : ℕ} {run : Option (Ipc × Heap)} (p : IsStarted start limit run) {s : Ipc}
    (fuel : ℕ)
    → Reach p.pool s
    → max_messages < fuel
    → IsComplete (length p.slots) (ipc_debug_status fuel s)
Reach-IsComplete p {s} fuel r h =
    let start : Holds (HasAll (length p.slots)) p.pool =
      (all_free p.slots, p.represents, omega arith) in
    let end = Reach-Holds (length p.slots) start r in
    ipc_debug_status-IsComplete (length p.slots) fuel end.1 end.2 (omega (arith, p.most))
