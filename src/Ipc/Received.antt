-- ===== src/Ipc/Received.antt =====
-- The writes of a `recv_message` of kernal/ipc.c that finds a message.
use hydra_microkernal.Prelude.{ℕ, ◌≡◌, ◌≢◌, pos, negsuc, decrement, arith}
use hydra_microkernal.Ipc.{Ipc, dequeue, free_message}
use hydra_microkernal.Ipc.Queues.{nexts}

module _ (s : Ipc) (c : ℕ) (a : ℕ) where
  -- The state behind the removal of the first message, `a`, from queue `c`.
  unfoldable pub received : Ipc
  received = free_message a (dequeue c s)

  module _ (e : (s.message_queues c).head ≡ a) (ne : a ≢ 0) where
    pub received-free : received.free_messages ≡ a
    unfolding received free_message dequeue
    received-free = ground arith

    pub received-next : nexts received a ≡ s.free_messages
    unfolding received free_message dequeue
    received-next = ground arith

    pub received-other : (b : ℕ) → b ≢ a → received.store b ≡ s.store b
    unfolding received free_message dequeue
    received-other b p = ground arith

    pub received-head : (received.message_queues c).head ≡ nexts s a
    unfolding received free_message dequeue
    received-head = ground arith

    pub received-tail_last : nexts s a ≡ 0 → (received.message_queues c).tail ≡ 0
    unfolding received free_message dequeue
    received-tail_last p = ground arith

    pub received-tail : nexts s a ≢ 0 → (received.message_queues c).tail ≡ (s.message_queues c).tail
    unfolding received free_message dequeue
    received-tail p = ground arith

    pub received-count : (received.message_queues c).count ≡ decrement (s.message_queues c).count
    unfolding received free_message dequeue
    received-count = ground arith

    pub received-queue_ne : (i : ℕ) → i ≢ c → received.message_queues i ≡ s.message_queues i
    unfolding received free_message dequeue
    received-queue_ne i p = ground arith

    -- The slot is wiped.
    pub received-wiped :
        ((received.store a).sender_pid ≡ negsuc 0)
        × ((received.store a).receiver_pid ≡ negsuc 0)
        × ((received.store a).size ≡ pos 0)
    unfolding received free_message dequeue
    received-wiped = ground arith
