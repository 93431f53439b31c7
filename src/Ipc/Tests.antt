-- ===== src/Ipc/Tests.antt =====
-- The theorems about kernal/ipc.c at a pool of two messages.
use hydra_microkernal.Prelude.{
  false, ℕ, ◌+◌, ◌≤◌, ◌<◌, ◌≡◌, ◌≢◌, ◌⊎◌, refl, some, none, pos, negsuc, [], ◌∷◌, length, Bytes,
  update, arith,
}
use hydra_microkernal.Ipc.{
  Ipc, Message, send_message, recv_message, deliver, alloc_message, fill, enqueue, take_message,
}
use hydra_microkernal.Sched.{max_tasks}
use hydra_microkernal.Mm.{Heap, mm_init}
use hydra_microkernal.Mm.Boot.{mm_init-IsHeap}
use hydra_microkernal.Ipc.Start.{ipc_init}
use hydra_microkernal.Ipc.Boot.{IsStarted, ipc_init-IsStarted}
use hydra_microkernal.Ipc.Status.{ipc_debug_status}
use hydra_microkernal.Ipc.Reports.{IsComplete, sends, here, more, Reach-IsComplete}
use hydra_microkernal.Ipc.Queues
use hydra_microkernal.Ipc.Queues.{Queues, Packet, Represents}
use hydra_microkernal.Ipc.Send.{Refines, send_message-Refines, send_message-atomic}
use hydra_microkernal.Ipc.Recv.{Delivers, recv_message-Delivers}

abbrev pub blank : ℕ → Message
blank next = record {
  sender_pid = negsuc 0;
  receiver_pid = negsuc 0;
  size = pos 0;
  content = λ i. 0;
  next = next;
}

-- Two free messages, at 100 and 200.
abbrev pub pool : Ipc
pool = record {
  store = update (λ a. blank 0) 100 (blank 200);
  free_messages = 100;
  message_queues = λ i. record { head = 0; tail = 0; count = pos 0 };
}

abbrev pub pool_view : Queues
pool_view = record {
  free = 100 ∷ 200 ∷ [];
  queued = λ i. [];
  packet = λ a. record { sender = negsuc 0; bytes = [] };
  place = λ a. 0;
}

pub pool-Represents : Represents pool pool_view
pool-Represents = record {
  free_chain = omega arith;
  free_nodup = omega arith;
  free_place = omega arith;
  chain = λ i. refl;
  nodup = λ i. tt;
  placed = λ i. tt;
  tail = λ i. refl;
  count = λ i. refl;
  stored = λ a i h. absurd (omega arith);
}

-- The bytes 7, 8, 9, …
abbrev counting : Bytes
counting i = 7 + i

abbrev one_sent : Ipc
one_sent = (send_message pool (pos 2) (pos 1) (some counting) (pos 3)).0

abbrev one_sent_view : Queues
one_sent_view = (Queues.send (pos 2) 1 (7 ∷ 8 ∷ 9 ∷ []) pool_view).0

-- Task 2 sends three bytes to task 1.
send_message-Refines_example :
    Refines
      (send_message pool (pos 2) (pos 1) (some counting) (pos 3))
      (Queues.send (pos 2) 1 (7 ∷ 8 ∷ 9 ∷ []) pool_view)
send_message-Refines_example =
    send_message-Refines pool-Represents (pos 2) 1 counting 3 (omega arith) (omega arith)
      (omega arith)

one_sent-Represents : Represents one_sent one_sent_view
one_sent-Represents =
    (send_message-Refines pool-Represents (pos 2) 1 counting 3 (omega arith) (omega arith)
      (omega arith)).state

one_sent_queue : one_sent_view.queued 1 ≡ 100 ∷ []
unfolding Queues.send
one_sent_queue = refl

-- Task 1 asks for a message of task 5, with room for two bytes, and is given that of task 2.
recv_message-Delivers_example :
    Delivers
      (λ i. 0)
      2
      (one_sent_view.packet 100)
      (Queues.recv 1 one_sent_view)
      (recv_message one_sent (pos 1) (pos 5) (some (λ i. 0)) (pos 2))
recv_message-Delivers_example =
    recv_message-Delivers {v = one_sent_view} one_sent-Represents 1 (pos 5) (λ i. 0) 2 100 []
      one_sent_queue (omega arith) (omega arith)

-- A message of 300 bytes is refused.
send_message-atomic_example :
    (((send_message pool (pos 2) (pos 1) (some counting) (pos 300)).1 ≡ negsuc 0)
      × ((send_message pool (pos 2) (pos 1) (some counting) (pos 300)).0 ≡ pool))
    ⊎ (((send_message pool (pos 2) (pos 1) (some counting) (pos 300)).1 ≡ pos 0)
        × (pool.free_messages ≢ 0)
        × (some counting ≢ none)
        × (1 < max_tasks)
        × (pos 1 ≡ pos 1)
        × (0 < 300)
        × (300 ≤ 256))
send_message-atomic_example = send_message-atomic pool (pos 2) (pos 1) (some counting) (pos 300)

received_length : (recv_message one_sent (pos 1) (pos 5) (some (λ i. 0)) (pos 2)).2 ≡ pos 3
unfolding recv_message take_message send_message deliver alloc_message fill enqueue
received_length = refl

-- A fresh heap of 1 KB: three slots fit.
abbrev fresh_heap : Heap
fresh_heap = mm_init 4096 5120 (record {
  store = λ a. record { size = 0; free = false; next = 0 };
  heap_head = 0;
  total_allocated = 0;
})

ipc_init-IsStarted_example :
    IsStarted 4096 5120 (ipc_init 66 (record pool { free_messages = 0 }) fresh_heap)
ipc_init-IsStarted_example =
    ipc_init-IsStarted 66 (record pool { free_messages = 0 })
      (mm_init-IsHeap 4096 5120
        (record {
          store = λ a. record { size = 0; free = false; next = 0 };
          heap_head = 0;
          total_allocated = 0;
        })
        refl (omega arith) (omega arith) (omega arith))
      refl (λ i h. refl) (omega arith)

abbrev ipc_started :
    IsStarted 4096 5120 (ipc_init 66 (record pool { free_messages = 0 }) fresh_heap)
ipc_started =
    ipc_init-IsStarted 66 (record pool { free_messages = 0 })
      (mm_init-IsHeap 4096 5120
        (record {
          store = λ a. record { size = 0; free = false; next = 0 };
          heap_head = 0;
          total_allocated = 0;
        })
        refl (omega arith) (omega arith) (omega arith))
      refl (λ i h. refl) (omega arith)

-- Task 1 sends three bytes to task 2.
Reach-IsComplete_example :
    IsComplete (length ipc_started.slots) (
      ipc_debug_status 65 (send_message ipc_started.pool (pos 1) (pos 2) (some counting) (pos 3)).0)
Reach-IsComplete_example =
    Reach-IsComplete ipc_started 65 (more here (sends (pos 1) (pos 2) (some counting) (pos 3) refl))
      (omega arith)
