-- ===== src/Net/Receive.antt =====
-- Packets on their way through the pool of kernal/net_driver.c.
use hydra_microkernal.Prelude.{
  ℕ, ◌≡◌, ◌≢◌, sym, ap, subst, ◌∙◌, List, [], ◌∷◌, ◌++◌, last_or, last_or-append, All-map,
  All-append, All-last, arith, Avoids, Chain-frame, Chain-snoc, Chain-head, All-Avoids_snoc,
  Avoids-last, All-map₂, IsNodup-snoc,
}
use hydra_microkernal.Net.{Net, NetPacket, net_free_packet, net_receive, simulate_packet}
use hydra_microkernal.Net.Pool.{
  nexts, IsDummy, IsPool, Chain-nonnull, simulated_free, simulated_tail, simulated_head_first,
  simulated_head, simulated_next, simulated_link, simulated_next_ne, simulated_next_first,
  simulated_dummy, simulated_others,
}

-- With a free packet, the queue grows by it.
module _ {s : Net} (a : ℕ) (free : List ℕ) where
  simulate_packet-IsPool_first : IsPool s (a ∷ free) [] → IsPool (simulate_packet s) free (a ∷ [])
  simulate_packet-IsPool_first v = record {
    free_chain = Chain-head (nexts (simulate_packet s)) free (simulated_free s a head ne) (
        Chain-frame (nexts s) (nexts (simulate_packet s)) (nexts s a) free
          (All-map free (λ b p. simulated_next_first s a head ne b v.rx_end p) v.free_nodup.0)
          v.free_chain.2);
    rx_chain = (
      simulated_head_first s a head ne v.rx_end,
      ne,
      simulated_next s a head ne (λ q. ne (q ∙ v.rx_end)),
    );
    rx_end = simulated_tail s a head ne;
    free_nodup = v.free_nodup.1;
    rx_nodup = (tt, tt);
    apart = All-Avoids_snoc a free [] v.free_nodup.0 v.apart.1;
    received = (simulated_dummy s a head ne, tt);
  }
    where
      head : s.free_packets ≡ a
      head = v.free_chain.0

      ne : a ≢ 0
      ne = v.free_chain.1

  simulate_packet-IsPool_more :
      (x : ℕ) (xs : List ℕ)
      → IsPool s (a ∷ free) (x ∷ xs)
      → IsPool (simulate_packet s) free (x ∷ xs ++ a ∷ [])
  simulate_packet-IsPool_more x xs v = record {
    free_chain = Chain-head (nexts (simulate_packet s)) free (simulated_free s a head ne) (
        Chain-frame (nexts s) (nexts (simulate_packet s)) (nexts s a) free
          (All-map₂ free
            (λ b p q.
              simulated_next_ne s a head ne b (λ e. Avoids-last b x xs q (sym (e ∙ v.rx_end))) p)
            v.free_nodup.0 v.apart.1)
          v.free_chain.2);
    rx_chain =
        Chain-head (nexts (simulate_packet s)) (x ∷ xs ++ a ∷ [])
          (simulated_head s a head ne some_tail)
          (Chain-snoc (nexts s) (nexts (simulate_packet s)) s.rx_queue_head x xs a v.rx_nodup
            v.apart.0 ne (rw (← v.rx_end) (simulated_link s a head ne some_tail))
            (simulated_next s a head ne (λ e. end_ne (sym (e ∙ v.rx_end))))
            (λ b p q. simulated_next_ne s a head ne b (λ e. p (e ∙ v.rx_end)) q) v.rx_chain);
    rx_end = simulated_tail s a head ne ∙ sym (last_or-append x a xs);
    free_nodup = v.free_nodup.1;
    rx_nodup = IsNodup-snoc a (x ∷ xs) v.rx_nodup v.apart.0;
    apart = All-Avoids_snoc a free (x ∷ xs) v.free_nodup.0 v.apart.1;
    received =
        All-append (λ b. IsDummy ((simulate_packet s).packets b)) (x ∷ xs) (a ∷ [])
          (All-map₂ (x ∷ xs) (λ b. simulated_others s a head ne b) v.apart.0 v.received)
          (simulated_dummy s a head ne, tt);
  }
    where
      head : s.free_packets ≡ a
      head = v.free_chain.0

      ne : a ≢ 0
      ne = v.free_chain.1

      end_ne : last_or x xs ≢ a
      end_ne = Avoids-last a x xs v.apart.0

      some_tail : s.rx_queue_tail ≢ 0
      some_tail e =
          All-last (λ b. b ≢ 0) x xs (Chain-nonnull (nexts s) s.rx_queue_head (x ∷ xs) v.rx_chain)
            (sym v.rx_end ∙ e)

  pub simulate_packet-IsPool :
      (rx : List ℕ) → IsPool s (a ∷ free) rx → IsPool (simulate_packet s) free (rx ++ a ∷ [])
  simulate_packet-IsPool [] v = simulate_packet-IsPool_first v
  simulate_packet-IsPool (x ∷ xs) v = simulate_packet-IsPool_more x xs v

module _ (s : Net) (ne : s.rx_queue_head ≢ 0) where
  received_packet : (net_receive s).0 ≡ s.rx_queue_head
  unfolding net_receive
  received_packet = ground arith

  received_head : (net_receive s).1.rx_queue_head ≡ nexts s s.rx_queue_head
  unfolding net_receive
  received_head = ground arith

  received_last : nexts s s.rx_queue_head ≡ 0 → (net_receive s).1.rx_queue_tail ≡ 0
  unfolding net_receive
  received_last e = ground arith

  received_more : nexts s s.rx_queue_head ≢ 0 → (net_receive s).1.rx_queue_tail ≡ s.rx_queue_tail
  unfolding net_receive
  received_more e = ground arith

  received_packets : (net_receive s).1.packets ≡ s.packets
  unfolding net_receive
  received_packets = ground arith

  received_nexts : nexts (net_receive s).1 ≡ nexts s
  received_nexts = ap {B = ℕ → ℕ} (λ f i. (f i).next) received_packets

  received_free : (net_receive s).1.free_packets ≡ s.free_packets
  unfolding net_receive
  received_free = ground arith

pub net_receive-empty : (s : Net) → s.rx_queue_head ≡ 0 → net_receive s ≡ (0, s)
unfolding net_receive
net_receive-empty s e = ground arith

received_end :
    {s : Net} (a : ℕ) (free rx : List ℕ)
    → IsPool s free (a ∷ rx)
    → s.rx_queue_head ≢ 0
    → (net_receive s).1.rx_queue_tail ≡ last_or 0 rx
received_end {s} a free [] v ne = received_last s ne (ap (nexts s) v.rx_chain.0 ∙ v.rx_chain.2)
received_end {s} a free (x ∷ xs) v ne =
    received_more s ne
      (λ e. v.rx_chain.2.1 (sym v.rx_chain.2.0 ∙ ap (nexts s) (sym v.rx_chain.0) ∙ e))
    ∙ v.rx_end

pub net_receive-IsPool :
    {s : Net} (a : ℕ) (free rx : List ℕ)
    → IsPool s free (a ∷ rx)
    → ((net_receive s).0 ≡ a)
      × ((net_receive s).1.packets ≡ s.packets)
      × IsPool (net_receive s).1 free rx
net_receive-IsPool {s} a free rx v = (
  received_packet s ne ∙ v.rx_chain.0,
  received_packets s ne,
  record {
    free_chain = rw (received_nexts s ne, received_free s ne) v.free_chain;
    rx_chain = rw (received_nexts s ne, received_head s ne, v.rx_chain.0) v.rx_chain.2;
    rx_end = received_end a free rx v ne;
    free_nodup = v.free_nodup;
    rx_nodup = v.rx_nodup.1;
    apart = All-map free (λ b p. p.1) v.apart;
    received = rw (received_packets s ne) v.received.1;
  },
)
  where
    ne : s.rx_queue_head ≢ 0
    ne e = v.rx_chain.1 (sym v.rx_chain.0 ∙ e)

module _ (s : Net) (a : ℕ) (ne : a ≢ 0) where
  freed_head : (net_free_packet a s).free_packets ≡ a
  unfolding net_free_packet
  freed_head = ground arith

  freed_next : nexts (net_free_packet a s) a ≡ s.free_packets
  unfolding net_free_packet
  freed_next = ground arith

  freed_others : (b : ℕ) → b ≢ a → (net_free_packet a s).packets b ≡ s.packets b
  unfolding net_free_packet
  freed_others b p = ground arith

  freed_queue :
      ((net_free_packet a s).rx_queue_head ≡ s.rx_queue_head)
      × ((net_free_packet a s).rx_queue_tail ≡ s.rx_queue_tail)
  unfolding net_free_packet
  freed_queue = ground arith

pub net_free_packet-IsPool :
    {s : Net} (a : ℕ) (free rx : List ℕ)
    → a ≢ 0
    → Avoids a free
    → Avoids a rx
    → IsPool s free rx
    → IsPool (net_free_packet a s) (a ∷ free) rx
net_free_packet-IsPool {s} a free rx ne p q v = record {
  free_chain = (
    freed_head s a ne,
    ne,
    Chain-head (nexts (net_free_packet a s)) free (freed_next s a ne) (
        Chain-frame (nexts s) (nexts (net_free_packet a s)) s.free_packets free
          (All-map free (λ b h. ap (λ (m : NetPacket). m.next) (freed_others s a ne b h)) p)
          v.free_chain),
  );
  rx_chain = Chain-head (nexts (net_free_packet a s)) rx (freed_queue s a ne).0 (
      Chain-frame (nexts s) (nexts (net_free_packet a s)) s.rx_queue_head rx
        (All-map rx (λ b h. ap (λ (m : NetPacket). m.next) (freed_others s a ne b h)) q)
        v.rx_chain);
  rx_end = (freed_queue s a ne).1 ∙ v.rx_end;
  free_nodup = (p, v.free_nodup);
  rx_nodup = v.rx_nodup;
  apart = (q, v.apart);
  received = All-map₂ rx (λ b h d. subst IsDummy (sym (freed_others s a ne b h)) d) q v.received;
}
