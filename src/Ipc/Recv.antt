-- ===== src/Ipc/Recv.antt =====
-- `recv_message` of kernal/ipc.c refines `Queues.recv`, and keeps the pool well formed.
use Prim.Native.Nat.{min}
use hydra_microkernal.Prelude.{
  ℕ, suc, ◌≤◌, ◌<◌, ◌≡◌, ◌≢◌, refl, sym, ◌∙◌, ap, ℤ, pos, List, [], ◌∷◌, length, take, last_or, All,
  All-map, update, update_self, update_ne, update-ind, Chain, Chain-frame, IsNodup, Avoids, Bytes,
  prefix, copy_bytes, prefix-copy_bytes, copy_bytes-beyond, take-slice, arith, if◌then◌else◌, ltb,
  some, Option, ℕ_discrete,
}
use hydra_microkernal.Ipc.{Ipc, Message, take_message, recv_message}
use hydra_microkernal.Sched.{max_tasks}
use hydra_microkernal.Ipc.Received.{
  received, received-free, received-next, received-other, received-head, received-tail_last,
  received-tail, received-count, received-queue_ne,
}
use hydra_microkernal.Ipc.Queues
use hydra_microkernal.Ipc.Queues.{Queues, Packet, Represents, IsStored, nexts, recv-cons}

module _ {s : Ipc} {v : Queues} (R : Represents s v) (c a : ℕ) (rest : List ℕ)
    (split : v.queued c ≡ a ∷ rest) where
  chain' : Chain (nexts s) (s.message_queues c).head (a ∷ rest)
  chain' = rw split at (R.chain c)

  nodup' : IsNodup (a ∷ rest)
  nodup' = rw split at (R.nodup c)

  placed' : All (λ x. v.place x ≡ suc c) (a ∷ rest)
  placed' = rw split at (R.placed c)

  abbrev u : Ipc
  u = received s c a

  abbrev w : Queues
  w = record {
    free = a ∷ v.free;
    queued = update v.queued c rest;
    packet = v.packet;
    place = update v.place a 0;
  }

  kept :
      (i : ℕ) (xs : List ℕ)
      → All (λ x. v.place x ≡ i) xs
      → Avoids a xs
      → All (λ x. w.place x ≡ i) xs
  kept i [] h d = tt
  kept i (x ∷ xs) h d = (update_ne v.place a x 0 (λ q. d.0 (sym q)) ∙ h.0, kept i xs h.1 d.1)

  unchanged : (xs : List ℕ) → Avoids a xs → All (λ x. nexts u x ≡ nexts s x) xs
  unchanged xs d =
      All-map xs (λ x k. ap (λ (m : Message). m.next) (received-other s c a chain'.0 chain'.1 x k))
        d

  apart : (i : ℕ) (xs : List ℕ) → i ≢ suc c → All (λ x. v.place x ≡ i) xs → Avoids a xs
  apart i xs k h = All-map xs (λ x p q. k (sym p ∙ ap v.place q ∙ placed'.0)) h

  away : (i : ℕ) → i ≢ c → Avoids a (v.queued i)
  away i ne = apart (suc i) (v.queued i) (λ q. ne (omega arith)) (R.placed i)

  new_tail :
      (xs : List ℕ)
      → Chain (nexts s) (nexts s a) xs
      → (s.message_queues c).tail ≡ last_or a xs
      → (u.message_queues c).tail ≡ last_or 0 xs
  new_tail [] h t = received-tail_last s c a chain'.0 chain'.1 h
  new_tail (x ∷ xs) h t = received-tail s c a chain'.0 chain'.1 (λ q. h.1 (sym h.0 ∙ q)) ∙ t

  old-IsStored : (b i : ℕ) → w.place b ≡ suc i → IsStored (u.store b) (v.packet b) i
  old-IsStored b i h = elim (ℕ_discrete a b) [
    | yes q ↦ absurd (omega (arith, h, update_self v.place a 0, ap w.place q))
    | no ne ↦
        rw (received-other s c a chain'.0 chain'.1 b (λ q. ne (sym q)))
          (R.stored b i (sym (update_ne v.place a b 0 ne) ∙ h))
  ]

  pub received-Represents : Represents u w
  received-Represents = record {
    free_chain = (
      received-free s c a chain'.0 chain'.1,
      chain'.1,
      rw (received-next s c a chain'.0 chain'.1) (
          Chain-frame (nexts s) (nexts u) s.free_messages v.free
            (unchanged v.free (apart 0 v.free (λ q. absurd (omega arith)) R.free_place))
            R.free_chain),
    );
    free_nodup = (apart 0 v.free (λ q. absurd (omega arith)) R.free_place, R.free_nodup);
    free_place = (
      update_self v.place a 0,
      kept 0 v.free R.free_place (apart 0 v.free (λ q. absurd (omega arith)) R.free_place),
    );
    chain =
        update-ind (λ i l. Chain (nexts u) (u.message_queues i).head l) v.queued c rest
          (rw (received-head s c a chain'.0 chain'.1)
            (Chain-frame (nexts s) (nexts u) (nexts s a) rest (unchanged rest nodup'.0) chain'.2))
          (λ i ne. rw (received-queue_ne s c a chain'.0 chain'.1 i ne) (
            Chain-frame (nexts s) (nexts u) (s.message_queues i).head (v.queued i)
              (unchanged (v.queued i) (away i ne)) (R.chain i)));
    nodup = update-ind (λ i l. IsNodup l) v.queued c rest nodup'.1 (λ i ne. R.nodup i);
    placed =
        update-ind (λ i l. All (λ x. w.place x ≡ suc i) l) v.queued c rest
          (kept (suc c) rest placed'.1 nodup'.0)
          (λ i ne. kept (suc i) (v.queued i) (R.placed i) (away i ne));
    tail =
        update-ind (λ i l. (u.message_queues i).tail ≡ last_or 0 l) v.queued c rest
          (new_tail rest chain'.2 (rw split at (R.tail c)))
          (λ i ne. rw (received-queue_ne s c a chain'.0 chain'.1 i ne) (R.tail i));
    count =
        update-ind (λ i l. (u.message_queues i).count ≡ pos (length l)) v.queued c rest
          (rw (received-count s c a chain'.0 chain'.1, R.count c, split) refl)
          (λ i ne. rw (received-queue_ne s c a chain'.0 chain'.1 i ne) (R.count i));
    stored = old-IsStored;
  }

-- What `recv_message` owes for the first packet of a queue, read into `buffer` of `max` bytes: the
-- state behind it, the full length as its value, and the bytes that fit in the buffer, whose rest
-- stays as it was.
pub record Delivers (buffer : Bytes) (max : ℕ) (p : Packet) (spec : Queues)
    (run : Ipc × Option Bytes × ℤ) : Type 0 where
  pub state : Represents run.0 spec
  pub value : run.2 ≡ pos (length p.bytes)
  pub out : Bytes
  pub written : run.1 ≡ some out
  pub copied : prefix (min (length p.bytes) max) out ≡ take (min (length p.bytes) max) p.bytes
  pub beyond : (j : ℕ) → min (length p.bytes) max ≤ j → out j ≡ buffer j

take_message_sound :
    (s : Ipc) (c a : ℕ) (buffer : Bytes) (max : ℕ) (p : Packet)
    → (s.message_queues c).head ≡ a
    → IsStored (s.store a) p c
    → take_message s c buffer (pos max) ≡ (
      received s c a,
      some (copy_bytes (min (length p.bytes) max) buffer (s.store a).content),
      pos (length p.bytes),
    )
unfolding take_message received
take_message_sound s c a buffer max p e h = ground (arith, least)
  where
    least : (if ltb (length p.bytes) max then length p.bytes else max) ≡ min (length p.bytes) max
    least = ground arith

recv_message-taken :
    (s : Ipc) (c : ℕ) (sender_pid : ℤ) (buffer : Bytes) (max : ℕ)
    → (s.message_queues c).head ≢ 0
    → c < max_tasks
    → 0 < max
    → recv_message s (pos c) sender_pid (some buffer) (pos max) ≡ take_message s c buffer (pos max)
unfolding recv_message
recv_message-taken s c sender_pid buffer max ne h k = ground arith

prefix-fits :
    (k : ℕ) (bytes : List ℕ) (f : Bytes)
    → k ≤ length bytes
    → prefix (length bytes) f ≡ bytes
    → prefix k f ≡ take k bytes
prefix-fits k bytes f h e = sym (take-slice k (length bytes) 0 f h) ∙ ap (take k) e

-- A call of `recv_message` by a task of the table whose queue is not empty, with room for at least
-- one byte: it takes the first packet off the queue, whatever sender it asks for, gives its slot
-- back to the free list, and delivers it. The pool stays well formed.
pub recv_message-Delivers :
    {s : Ipc} {v : Queues}
    → Represents s v
    → (c : ℕ) (sender_pid : ℤ) (buffer : Bytes) (max a : ℕ) (rest : List ℕ) → v.queued c ≡ a ∷ rest
    → c < max_tasks
    → 0 < max
    → Delivers buffer max
        (v.packet a)
        (Queues.recv c v)
        (recv_message s (pos c) sender_pid (some buffer) (pos max))
recv_message-Delivers {s} {v} R c sender_pid buffer max a rest e h k =
    rw
      (
        recv_message-taken s c sender_pid buffer max (λ q. at_head.1 (sym at_head.0 ∙ q)) h k,
        take_message_sound s c a buffer max (v.packet a) at_head.0 stored,
        recv-cons c v a rest e,
      )
      (record {
        state = received-Represents R c a rest e;
        value = refl;
        out = copy_bytes size buffer (s.store a).content;
        written = refl;
        copied =
            prefix-copy_bytes size buffer (s.store a).content
            ∙ prefix-fits size (v.packet a).bytes (s.store a).content (omega arith) stored.bytes;
        beyond = λ j q. copy_bytes-beyond size buffer (s.store a).content j q;
      })
  where
    at_head : Chain (nexts s) (s.message_queues c).head (a ∷ rest)
    at_head = rw e at (R.chain c)

    here : All (λ x. v.place x ≡ suc c) (a ∷ rest)
    here = rw e at (R.placed c)

    stored : IsStored (s.store a) (v.packet a) c
    stored = R.stored a c here.0

    size : ℕ
    size = min (length (v.packet a).bytes) max
