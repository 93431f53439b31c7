-- ===== src/Ipc/Sent.antt =====
-- The writes of a `send_message` of kernal/ipc.c that finds a free slot.
use hydra_microkernal.Prelude.{
  ℕ, ◌≤◌, ◌<◌, ◌≡◌, ◌≢◌, ap, ℤ, pos, negsuc, Bytes, prefix, arith, increment, length-slice,
  prefix-copy_bytes, if_ne,
}
use hydra_microkernal.Ipc.{Ipc, Message, alloc_message, fill, enqueue, deliver, max_message_size}
use hydra_microkernal.Ipc.Queues.{Packet, IsStored, nexts}

module _ (s : Ipc) (a : ℕ) (current_task : ℤ) (r : ℕ) (src : Bytes) (n : ℕ) where
  -- The state behind a successful send that takes the slot `a`.
  pub sent : Ipc
  sent = enqueue r a (fill a current_task (pos r) src (pos n) (alloc_message s).1)

  alloc_message-slot : s.free_messages ≡ a → a ≢ 0 → (alloc_message s).0 ≡ a
  unfolding alloc_message
  alloc_message-slot e ne = ground arith

  pub deliver-sent :
      s.free_messages ≡ a → a ≢ 0 → deliver s current_task (pos r) src (pos n) ≡ (sent, pos 0)
  unfolding deliver sent
  deliver-sent e ne = rw (alloc_message-slot e ne) (if_ne a 0 _ _ ne)

  module _ (e : s.free_messages ≡ a) (ne : a ≢ 0) where
    pub sent-free : sent.free_messages ≡ nexts s a
    unfolding sent alloc_message fill enqueue
    sent-free = ground arith

    pub sent-other : (b : ℕ) → b ≢ a → b ≢ (s.message_queues r).tail → sent.store b ≡ s.store b
    unfolding sent alloc_message fill enqueue
    sent-other b p q = ground arith

    pub sent-other_first :
        (b : ℕ) → b ≢ a → (s.message_queues r).head ≡ 0 → sent.store b ≡ s.store b
    unfolding sent alloc_message fill enqueue
    sent-other_first b p q = ground arith

    pub sent-next : a ≢ (s.message_queues r).tail → nexts sent a ≡ 0
    unfolding sent alloc_message fill enqueue
    sent-next p = ground arith

    pub sent-next_first : (s.message_queues r).head ≡ 0 → nexts sent a ≡ 0
    unfolding sent alloc_message fill enqueue
    sent-next_first p = ground arith

    pub sent-link : (s.message_queues r).head ≢ 0 → nexts sent (s.message_queues r).tail ≡ a
    unfolding sent alloc_message fill enqueue
    sent-link p = ground arith

    pub sent-next_ne : (b : ℕ) → b ≢ a → b ≢ (s.message_queues r).tail → nexts sent b ≡ nexts s b
    sent-next_ne b p q = ap (λ (m : Message). m.next) (sent-other b p q)

    -- The rest of another message does not change.
    pub sent-payload :
        (b i : ℕ) (p : Packet) → b ≢ a → IsStored (s.store b) p i → IsStored (sent.store b) p i
    unfolding sent alloc_message fill enqueue
    sent-payload b i p q h = ground arith

    pub sent-filled :
        0 < n
        → n ≤ max_message_size
        → IsStored (sent.store a) (record { sender = current_task; bytes = prefix n src }) r
    unfolding sent alloc_message fill enqueue
    sent-filled p q =
        ground (arith, length-slice n 0 src, prefix-copy_bytes n (s.store a).content src)

    pub sent-head_first : (s.message_queues r).head ≡ 0 → (sent.message_queues r).head ≡ a
    unfolding sent alloc_message fill enqueue
    sent-head_first p = ground arith

    pub sent-head :
        (s.message_queues r).head ≢ 0 → (sent.message_queues r).head ≡ (s.message_queues r).head
    unfolding sent alloc_message fill enqueue
    sent-head p = ground arith

    pub sent-tail : (sent.message_queues r).tail ≡ a
    unfolding sent alloc_message fill enqueue
    sent-tail = ground arith

    pub sent-count : (sent.message_queues r).count ≡ increment (s.message_queues r).count
    unfolding sent alloc_message fill enqueue
    sent-count = ground arith

    pub sent-queue_ne : (i : ℕ) → i ≢ r → sent.message_queues i ≡ s.message_queues i
    unfolding sent alloc_message fill enqueue
    sent-queue_ne i p = ground arith

alloc_message-empty : (s : Ipc) → s.free_messages ≡ 0 → alloc_message s ≡ (0, s)
unfolding alloc_message
alloc_message-empty s e = ground arith

-- With no free slot nothing changes.
pub deliver-empty :
    (s : Ipc) (t receiver : ℤ) (src : Bytes) (size : ℤ)
    → s.free_messages ≡ 0
    → deliver s t receiver src size ≡ (s, negsuc 0)
unfolding deliver
deliver-empty s t receiver src size e = rw (alloc_message-empty s e)

pub deliver-full :
    (s : Ipc) (t receiver : ℤ) (src : Bytes) (size : ℤ)
    → s.free_messages ≢ 0
    → (deliver s t receiver src size).1 ≡ pos 0
unfolding deliver alloc_message
deliver-full s t receiver src size ne = ground arith
