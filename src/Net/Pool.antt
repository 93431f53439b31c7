-- ===== src/Net/Pool.antt =====
-- The packet pool of kernal/net_driver.c: one list of free packets, one queue of received ones.
use hydra_microkernal.Prelude.{
  Bytes, ℕ, ◌≡◌, ◌≢◌, List, [], ◌∷◌, last_or, All, arith, IsNodup, Avoids, Chain, prefix,
  prefix-copy_bytes, ◌%◌,
}
use hydra_microkernal.Net.{
  Net, NetPacket, NetStats, alloc_packet, dummy, add_to_rx_queue, count_received, simulate_packet,
}

abbrev pub nexts : Net → ℕ → ℕ
nexts s a = (s.packets a).next

-- A packet as the interrupt handler makes it: 64 bytes, byte `i` being `i`.
pub record IsDummy (p : NetPacket) : Type 0 where
  pub size : p.length ≡ 64
  pub bytes : prefix 64 p.content ≡ prefix 64 (λ i. i % 256)

-- `free` are the free packets and `rx` the received ones, the oldest first; no packet is in both or twice.
pub record IsPool (s : Net) (free rx : List ℕ) : Type 0 where
  pub free_chain : Chain (nexts s) s.free_packets free
  pub rx_chain : Chain (nexts s) s.rx_queue_head rx
  pub rx_end : s.rx_queue_tail ≡ last_or 0 rx
  pub free_nodup : IsNodup free
  pub rx_nodup : IsNodup rx
  pub apart : All (λ a. Avoids a rx) free
  pub received : All (λ a. IsDummy (s.packets a)) rx

-- The pool does not depend on the other variables.
pub IsPool-rest :
    {s : Net} {free rx : List ℕ} (x : NetStats) (mac : Bytes) (n : ℕ)
    → IsPool s free rx
    → IsPool (record s { stats = x; mac_addr = mac; interrupt_count = n }) free rx
IsPool-rest x mac n v = record {
  free_chain = v.free_chain;
  rx_chain = v.rx_chain;
  rx_end = v.rx_end;
  free_nodup = v.free_nodup;
  rx_nodup = v.rx_nodup;
  apart = v.apart;
  received = v.received;
}

pub Chain-nonnull : (f : ℕ → ℕ) (p : ℕ) (xs : List ℕ) → Chain f p xs → All (λ a. a ≢ 0) xs
Chain-nonnull f p [] c = tt
Chain-nonnull f p (a ∷ xs) c = (c.1, Chain-nonnull f (f a) xs c.2)

-- What a received packet does to the pointers.
module _ (s : Net) (a : ℕ) (e : s.free_packets ≡ a) (ne : a ≢ 0) where
  pub simulated_free : (simulate_packet s).free_packets ≡ nexts s a
  unfolding simulate_packet alloc_packet dummy add_to_rx_queue count_received
  simulated_free = ground arith

  pub simulated_tail : (simulate_packet s).rx_queue_tail ≡ a
  unfolding simulate_packet alloc_packet dummy add_to_rx_queue count_received
  simulated_tail = ground arith

  pub simulated_head_first : s.rx_queue_tail ≡ 0 → (simulate_packet s).rx_queue_head ≡ a
  unfolding simulate_packet alloc_packet dummy add_to_rx_queue count_received
  simulated_head_first t = ground arith

  pub simulated_head : s.rx_queue_tail ≢ 0 → (simulate_packet s).rx_queue_head ≡ s.rx_queue_head
  unfolding simulate_packet alloc_packet dummy add_to_rx_queue count_received
  simulated_head t = ground arith

  pub simulated_next : a ≢ s.rx_queue_tail → nexts (simulate_packet s) a ≡ 0
  unfolding simulate_packet alloc_packet dummy add_to_rx_queue count_received
  simulated_next t = ground arith

  pub simulated_link : s.rx_queue_tail ≢ 0 → nexts (simulate_packet s) s.rx_queue_tail ≡ a
  unfolding simulate_packet alloc_packet dummy add_to_rx_queue count_received
  simulated_link t = ground arith

  pub simulated_next_ne :
      (b : ℕ) → b ≢ s.rx_queue_tail → b ≢ a → nexts (simulate_packet s) b ≡ nexts s b
  unfolding simulate_packet alloc_packet dummy add_to_rx_queue count_received
  simulated_next_ne b p q = ground arith

  pub simulated_next_first :
      (b : ℕ) → s.rx_queue_tail ≡ 0 → b ≢ a → nexts (simulate_packet s) b ≡ nexts s b
  unfolding simulate_packet alloc_packet dummy add_to_rx_queue count_received
  simulated_next_first b p q = ground arith

  pub simulated_dummy : IsDummy ((simulate_packet s).packets a)
  unfolding simulate_packet alloc_packet dummy add_to_rx_queue count_received
  simulated_dummy = ground (arith, prefix-copy_bytes 64 (s.packets a).content (λ i. i % 256))

  pub simulated_others :
      (b : ℕ) → b ≢ a → IsDummy (s.packets b) → IsDummy ((simulate_packet s).packets b)
  unfolding simulate_packet alloc_packet dummy add_to_rx_queue count_received
  simulated_others b p d = ground arith

pub simulate_packet-empty : (s : Net) → s.free_packets ≡ 0 → simulate_packet s ≡ s
unfolding simulate_packet alloc_packet
simulate_packet-empty s e = ground arith
