-- ===== src/Ipc/Status.antt =====
-- kernal/ipc.c: the status reports, as what they find. What they print of it, and the rates in percent, are left out.
use hydra_microkernal.Prelude.{
  ℕ, zero, suc, ◌+◌, ◌-◌, Bool, false, not, ◌||◌, Option, none, some, ℤ, pos, negsuc, is_neg,
  is_above, is_at_least, is_int, pos_part, ltb, ◌==◌, if◌then◌else◌,
}
use hydra_microkernal.Sched.{max_tasks}
use hydra_microkernal.Ipc.{Ipc, Message, MsgQueue, max_messages, count_free_messages}

-- `MAX_MESSAGES - free_count`
abbrev pub used_messages : ℕ → ℤ
used_messages free =
    if ltb max_messages free then negsuc (free - max_messages - 1) else pos (max_messages - free)

-- The loop over the queues from `i` on, with `n` rounds left: `total_queued` and `active_queues`.
unfoldable pub tally : ℕ → ℕ → (ℕ → MsgQueue) → ℕ → ℕ → ℕ × ℕ
tally zero i queues total active = (total, active)
tally (suc n) i queues total active =
    let next = tally n (suc i) queues (total + pos_part (queues i).count) (active + 1) in
    let same = tally n (suc i) queues total active in
    if is_above (queues i).count 0 then next else same

pub data Health : Type 0 where
  critical : Health
  warning : Health
  caution : Health
  healthy : Health

-- What `ipc_debug_status` finds: `mismatch` is its warning that the queues hold another number of messages than are in use.
pub record StatusReport : Type 0 where
  pub free_count : ℕ
  pub used_count : ℤ
  pub total_queued : ℕ
  pub active_queues : ℕ
  pub mismatch : Bool
  pub health : Health

abbrev pub status_report : ℕ → ℕ × ℕ → StatusReport
status_report free (total, active) = record {
  free_count = free;
  used_count = used_messages free;
  total_queued = total;
  active_queues = active;
  mismatch = if active == 0 then false else not (is_int (used_messages free) total);
  health = if ltb free 5 then critical else if ltb free 15 then warning else healthy;
}

-- `fuel` is for the walk over the free list.
unfoldable pub ipc_debug_status : ℕ → Ipc → Option StatusReport
unfolding tally
ipc_debug_status fuel s = elim (count_free_messages fuel s) [
  | none ↦ none
  | some free ↦ some (status_report free (tally max_tasks 0 s.message_queues 0 0))
]

-- The walk over a queue, with `n` more messages until the "safety limit".
unfoldable pub walk_queue : ℕ → (ℕ → Message) → ℕ → ℕ → ℕ
walk_queue zero store current actual_count = actual_count
walk_queue (suc n) store current actual_count =
    let rest = walk_queue n store (store current).next (actual_count + 1) in
    if current == 0 then actual_count else rest

-- "Invalid PID", a queue with its count, or "CORRUPTION" with the count and the number of messages found.
pub data QueueReport : Type 0 where
  invalid_pid : QueueReport
  intact : ℤ → QueueReport
  corruption : ℤ → ℕ → QueueReport

abbrev pub queue_report : (ℕ → Message) → MsgQueue → QueueReport
queue_report store queue =
    let actual_count = walk_queue (pos_part queue.count + 5) store queue.head 0 in
    if is_above queue.count 0
    then if is_int queue.count actual_count
      then intact queue.count
      else corruption queue.count actual_count
    else intact queue.count

unfoldable pub ipc_log_queue_status : ℤ → Ipc → QueueReport
unfolding walk_queue
ipc_log_queue_status pid s =
    if is_neg pid || is_at_least pid max_tasks
    then invalid_pid
    else queue_report s.store (s.message_queues (pos_part pid))

-- What `ipc_log_memory_usage` finds.
pub record MemoryReport : Type 0 where
  pub free_slots : ℕ
  pub used_slots : ℤ
  pub pressure : Health

unfoldable pub ipc_log_memory_usage : ℕ → Ipc → Option MemoryReport
ipc_log_memory_usage fuel s = elim (count_free_messages fuel s) [
  | none ↦ none
  | some free ↦ some (record {
    free_slots = free;
    used_slots = used_messages free;
    pressure =
        if ltb free 5
        then critical
        else if ltb free 15
        then warning
        else if ltb free 32
        then caution
        else healthy;
  })
]
