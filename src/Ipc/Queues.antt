-- ===== src/Ipc/Queues.antt =====
-- What the message pool of kernal/ipc.c promises: a FIFO of packets for each task, and a list of
-- free slots. `Represents` says that the pointers in memory hold such a state.
use hydra_microkernal.Prelude.{
  ℕ, suc, arith, ◌≤◌, ◌<◌, ◌≡◌, ℤ, pos, negsuc, List, [], ◌∷◌, ◌++◌, length, last_or, All, update,
  IsNodup, Chain, prefix,
}
use hydra_microkernal.Ipc.{Ipc, Message, max_message_size}

-- Who sent a message, and its bytes.
pub record Packet : Type 0 where
  pub sender : ℤ
  pub bytes : List ℕ

-- Where a slot is: 0 for the free list or nowhere, `suc i` for the queue of task `i`.
pub record Queues : Type 0 where
  pub free : List ℕ
  pub queued : ℕ → List ℕ
  pub packet : ℕ → Packet
  pub place : ℕ → ℕ

abbrev pub nexts : Ipc → ℕ → ℕ
nexts s a = (s.store a).next

-- Slot contents.
pub record IsStored (m : Message) (p : Packet) (i : ℕ) : Type 0 where
  pub sender : m.sender_pid ≡ p.sender
  pub receiver : m.receiver_pid ≡ pos i
  pub size : m.size ≡ pos (length p.bytes)
  pub bytes : prefix (length p.bytes) m.content ≡ p.bytes
  pub nonempty : 0 < length p.bytes
  pub small : length p.bytes ≤ max_message_size

-- The well-formedness of the pool.
pub record Represents (s : Ipc) (v : Queues) : Type 0 where
  pub free_chain : Chain (nexts s) s.free_messages v.free
  pub free_nodup : IsNodup v.free
  pub free_place : All (λ a. v.place a ≡ 0) v.free
  pub chain : (i : ℕ) → Chain (nexts s) (s.message_queues i).head (v.queued i)
  pub nodup : (i : ℕ) → IsNodup (v.queued i)
  pub placed : (i : ℕ) → All (λ a. v.place a ≡ suc i) (v.queued i)
  pub tail : (i : ℕ) → (s.message_queues i).tail ≡ last_or 0 (v.queued i)
  pub count : (i : ℕ) → (s.message_queues i).count ≡ pos (length (v.queued i))
  pub stored : (a i : ℕ) → v.place a ≡ suc i → IsStored (s.store a) (v.packet a) i

-- A slot leaves the free list for the end of queue `r`.
unfoldable pub send : ℤ → ℕ → List ℕ → Queues → Queues × ℤ
send sender r bytes v = elim v.free [
  | [] ↦ (v, negsuc 0)
  | a ∷ rest ↦ (
    record {
      free = rest;
      queued = update v.queued r (v.queued r ++ a ∷ []);
      packet = update v.packet a (record { sender = sender; bytes = bytes });
      place = update v.place a (suc r);
    },
    pos 0,
  )
]

-- The first slot of queue `c` goes back to the free list.
unfoldable pub recv : ℕ → Queues → Queues
recv c v = elim (v.queued c) [
  | [] ↦ v
  | a ∷ rest ↦ record {
    free = a ∷ v.free;
    queued = update v.queued c rest;
    packet = v.packet;
    place = update v.place a 0;
  }
]

module _ (t : ℤ) (r : ℕ) (bytes : List ℕ) (v : Queues) where
  pub send-full : v.free ≡ [] → send t r bytes v ≡ (v, negsuc 0)
  unfolding send
  send-full e = ground arith

  pub send-free :
      (a : ℕ) (rest : List ℕ)
      → v.free ≡ a ∷ rest
      → send t r bytes v ≡ (
        record {
          free = rest;
          queued = update v.queued r (v.queued r ++ a ∷ []);
          packet = update v.packet a (record { sender = t; bytes = bytes });
          place = update v.place a (suc r);
        },
        pos 0,
      )
  unfolding send
  send-free a rest e = ground arith

pub recv-cons :
    (c : ℕ) (v : Queues) (a : ℕ) (rest : List ℕ)
    → v.queued c ≡ a ∷ rest
    → recv c v ≡ record {
      free = a ∷ v.free;
      queued = update v.queued c rest;
      packet = v.packet;
      place = update v.place a 0;
    }
unfolding recv
recv-cons c v a rest e = ground arith

pub recv-nil : (c : ℕ) (v : Queues) → v.queued c ≡ [] → recv c v ≡ v
unfolding recv
recv-nil c v e = ground arith
