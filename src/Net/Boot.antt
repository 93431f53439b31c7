-- ===== src/Net/Boot.antt =====
-- The packet pool of kernal/net_driver.c behind `net_init`.
use mathlib.Core.List.{Perm, append-nil}
use mathlib.Core.List.Perm
use hydra_microkernal.Prelude.{
  ℕ, zero, suc, ◌+◌, ◌≤◌, ◌<◌, ◌≡◌, refl, ap, ◌∙◌, inl, inr, not, Bool-cases, List, [], ◌∷◌, ◌++◌,
  All, update, update_ne, arith, IsNodup, Avoids, Chain, Chain-head, Bytes, ◌==◌, ℕ_discrete,
}
use hydra_microkernal.Net.{Net, NetPacket, packet_pool_size, init_packet_pool, link_from, net_init}
use hydra_microkernal.Net.Pool.{nexts, IsPool, IsPool-rest}

-- `n` packets from packet number `i` on.
abbrev pub numbered : ℕ → ℕ → List ℕ
numbered zero i = []
numbered (suc n) i = suc i ∷ numbered n (suc i)

-- The free list and the queue together are the packets 1 to 32 in some order.
pub record IsFull (s : Net) : Type 0 where
  pub free : List ℕ
  pub rx : List ℕ
  pub pool : IsPool s free rx
  pub all : Perm (free ++ rx) (numbered packet_pool_size 0)

numbered-Avoids : (n i a : ℕ) → a ≤ i → Avoids a (numbered n i)
numbered-Avoids zero i a h = tt
numbered-Avoids (suc n) i a h = (omega arith, numbered-Avoids n (suc i) a (omega arith))

numbered-IsNodup : (n i : ℕ) → IsNodup (numbered n i)
numbered-IsNodup zero i = tt
numbered-IsNodup (suc n) i =
    (numbered-Avoids n (suc i) (suc i) (omega arith), numbered-IsNodup n (suc i))

numbered-Chain :
    (f : ℕ → ℕ) (n i : ℕ)
    → ((j : ℕ) → i < j → j ≤ i + n → f j ≡ suc j)
    → f (suc (i + n)) ≡ 0
    → Chain f (suc i) (numbered (suc n) i)
numbered-Chain f zero i h z = (refl, omega arith, rw (← at_end) z)
  where
    at_end : suc (i + 0) ≡ suc i
    at_end = omega arith
numbered-Chain f (suc n) i h z = (
  refl,
  omega arith,
  Chain-head f (numbered (suc n) (suc i)) (h (suc i) (omega arith) (omega arith))
      (numbered-Chain f n (suc i) (λ j p q. h j (omega arith) (omega arith)) (rw (← at_end) z)),
)
  where
    at_end : suc (i + suc n) ≡ suc (suc i + n)
    at_end = omega arith

link_from-before : (n i : ℕ) (f : ℕ → NetPacket) (j : ℕ) → j ≤ i → link_from n i f j ≡ f j
unfolding link_from
link_from-before zero i f j h = refl
link_from-before (suc n) i f j h =
    link_from-before n (suc i) _ j (omega arith)
    ∙ update_ne f (suc i) j (record (f (suc i)) { next = i + 2 }) (omega arith)

update_at : (f : ℕ → NetPacket) {k j : ℕ} → k ≡ j → (v : NetPacket) → update f k v j ≡ v
update_at f e v = ground arith

link_from-next :
    (n i : ℕ) (f : ℕ → NetPacket) (j : ℕ) → i < j → j ≤ i + n → (link_from n i f j).next ≡ suc j
unfolding link_from
link_from-next zero i f j h k = absurd (omega arith)
link_from-next (suc n) i f j h k = elim (ℕ_discrete (suc i) j) [
  | yes e ↦
      ap (λ (m : NetPacket). m.next)
        (link_from-before n (suc i) _ j (omega arith) ∙ update_at f e _)
      ∙ omega arith
  | no ne ↦ link_from-next n (suc i) _ j (omega arith) (omega arith)
]

All-Avoids_empty : (xs : List ℕ) → All (λ a. Avoids a []) xs
All-Avoids_empty [] = tt
All-Avoids_empty (x ∷ xs) = (tt, All-Avoids_empty xs)

init_packet_pool-IsFull :
    (s : Net) → s.rx_queue_head ≡ 0 → s.rx_queue_tail ≡ 0 → IsFull (init_packet_pool s)
unfolding init_packet_pool
init_packet_pool-IsFull s head tail = record {
  free = numbered packet_pool_size 0;
  rx = [];
  pool = record {
    free_chain =
        numbered-Chain (nexts (init_packet_pool s)) 31 0
          (λ j p q.
            ap (λ (m : NetPacket). m.next)
              (update_ne (link_from 31 0 s.packets) packet_pool_size j _ (omega arith))
            ∙ link_from-next 31 0 s.packets j p q)
          refl;
    rx_chain = head;
    rx_end = tail;
    free_nodup = numbered-IsNodup packet_pool_size 0;
    rx_nodup = tt;
    apart = All-Avoids_empty (numbered packet_pool_size 0);
    received = tt;
  };
  all = rw (append-nil (numbered packet_pool_size 0)) (Perm.refl (numbered packet_pool_size 0));
}

IsFull-mac : {s : Net} (m : Bytes) → IsFull s → IsFull (record s { mac_addr = m })
IsFull-mac {s} m f = record {
  free = f.free;
  rx = f.rx;
  pool = IsPool-rest s.stats m s.interrupt_count f.pool;
  all = f.all;
}

pub net_init-IsFull :
    (magic device_id : ℕ) (s : Net)
    → s.rx_queue_head ≡ 0
    → s.rx_queue_tail ≡ 0
    → IsFull (net_init magic device_id s)
unfolding net_init
net_init-IsFull magic device_id s head tail = elim (Bool-cases (not (magic == 1953655158))) [
  | inl e ↦ rw e full
  | inr e ↦ elim (Bool-cases (not (device_id == 1))) [
    | inl e' ↦ rw (e, e') full
    | inr e' ↦ rw (e, e') (IsFull-mac _ full)
  ]
]
  where
    full : IsFull (init_packet_pool s)
    full = init_packet_pool-IsFull s head tail
