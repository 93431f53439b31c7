-- ===== src/Ipc/Start.antt =====
-- kernal/ipc.c: `ipc_init`, which takes the messages of the pool from the heap of kernal/mm.c. The heap's headers and the
-- messages are two parts of memory; `none` means that `kmalloc` ran out of fuel.
use hydra_microkernal.Prelude.{ℕ, zero, suc, Option, none, some, pos, ◌==◌, if◌then◌else◌, update}
use hydra_microkernal.Sched.{max_tasks}
use hydra_microkernal.Mm.{Heap, kmalloc}
use hydra_microkernal.Ipc.{Ipc, MsgQueue, max_messages}

-- `sizeof(struct message)`: three words, 256 bytes, and a pointer at a multiple of 8
abbrev pub message_size : ℕ
message_size = 280

abbrev pub empty_queue : MsgQueue
empty_queue = record { head = 0; tail = 0; count = pos 0 }

-- The loop over the queues from `i` on, with `n` rounds left.
unfoldable pub clear_queues : ℕ → ℕ → (ℕ → MsgQueue) → ℕ → MsgQueue
clear_queues zero i queues = queues
clear_queues (suc n) i queues = clear_queues n (suc i) (update queues i empty_queue)

-- A message in front of the free list; null changes nothing.
abbrev pub push_free : ℕ → Ipc → Ipc
push_free msg s = if msg == 0 then s else record s {
  store = update s.store msg (record (s.store msg) { next = s.free_messages });
  free_messages = msg;
}

-- The loop that allocates, with `n` rounds left.
unfoldable pub fill_pool : ℕ → ℕ → Ipc → Heap → Option (Ipc × Heap)
fill_pool zero fuel s h = some (s, h)
fill_pool (suc n) fuel s h = elim (kmalloc fuel message_size h) [
  | none ↦ none
  | some (h', msg) ↦ fill_pool n fuel (push_free msg s) h'
]

unfoldable pub ipc_init : ℕ → Ipc → Heap → Option (Ipc × Heap)
unfolding clear_queues fill_pool
ipc_init fuel s h =
    fill_pool max_messages fuel
      (record s { message_queues = clear_queues max_tasks 0 s.message_queues }) h
