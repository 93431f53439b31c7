-- ===== src/Net/Traffic.antt =====
-- What the entry points of the network driver do to its pool.
use hydra_microkernal.Prelude.{
  ◌≤◌, copy_bytes-beyond, if_eq, if_ne, ℕ, ◌%◌, ◌≡◌, ◌≢◌, refl, sym, ◌∙◌, List, [], ◌∷◌, ◌++◌,
  All-map, arith, Bytes, prefix, copy_bytes, prefix-copy_bytes, ℤ, ◌==◌, if◌then◌else◌, ℕ_discrete,
}
use hydra_microkernal.Net.{
  Net, net_free_packet, net_receive, simulate_packet, net_interrupt_handler,
  net_is_packet_available, copy_len, sys_net_recv, next_count, magnitude,
}
use hydra_microkernal.Net.Pool.{IsPool, IsPool-rest, simulate_packet-empty}
use hydra_microkernal.Net.Receive.{
  simulate_packet-IsPool, net_receive-empty, net_receive-IsPool, net_free_packet-IsPool,
}

-- The free packets and the queue behind an interrupt.
abbrev pub arrive : ℕ → List ℕ → List ℕ → List ℕ × List ℕ
arrive count [] rx = ([], rx)
arrive count (a ∷ free) rx = if count % 100 == 0 then (free, rx ++ a ∷ []) else (a ∷ free, rx)

interrupt_hundredth :
    (s : Net)
    → magnitude (next_count s) % 100 ≡ 0
    → net_interrupt_handler s ≡ simulate_packet (record s { interrupt_count = next_count s })
unfolding net_interrupt_handler
interrupt_hundredth s e = if_eq (magnitude (next_count s) % 100) 0 _ _ e

interrupt_other :
    (s : Net)
    → magnitude (next_count s) % 100 ≢ 0
    → net_interrupt_handler s ≡ record s { interrupt_count = next_count s }
unfolding net_interrupt_handler
interrupt_other s ne = if_ne (magnitude (next_count s) % 100) 0 _ _ ne

-- The pool behind an interrupt: every hundredth one moves the first free packet to the end of the queue, where there
-- is one, and fills it with the bytes 0 to 63; every other one leaves the pool as it is. Both lists keep
-- their invariant.
pub net_interrupt_handler-IsPool :
    {s : Net} (free rx : List ℕ)
    → IsPool s free rx
    → IsPool
        (net_interrupt_handler s)
        (arrive (magnitude (next_count s)) free rx).0
        (arrive (magnitude (next_count s)) free rx).1
net_interrupt_handler-IsPool {s} [] rx v = elim (ℕ_discrete (magnitude (next_count s) % 100) 0) [
  | yes e ↦
      rw
        (
          interrupt_hundredth s e,
          simulate_packet-empty (record s { interrupt_count = next_count s }) v.free_chain,
        )
        (IsPool-rest s.stats s.mac_addr (next_count s) v)
  | no ne ↦ rw (interrupt_other s ne) (IsPool-rest s.stats s.mac_addr (next_count s) v)
]
net_interrupt_handler-IsPool {s} (a ∷ free) rx v =
    elim (ℕ_discrete (magnitude (next_count s) % 100) 0) [
      | yes e ↦
          rw
            (
              interrupt_hundredth s e,
              if_eq {A = List ℕ × List ℕ} (magnitude (next_count s) % 100) 0 (free, rx ++ a ∷ [])
                  (a ∷ free, rx) e,
            )
            (simulate_packet-IsPool a free rx (IsPool-rest s.stats s.mac_addr (next_count s) v))
      | no ne ↦
          rw
            (
              interrupt_other s ne,
              if_ne {A = List ℕ × List ℕ} (magnitude (next_count s) % 100) 0 (free, rx ++ a ∷ [])
                  (a ∷ free, rx) ne,
            )
            (IsPool-rest s.stats s.mac_addr (next_count s) v)
    ]

-- What SYS_NET_RECV and `net_is_packet_available` share: the first packet of the queue becomes free.
taken-IsPool :
    {s : Net} (a : ℕ) (free rx : List ℕ)
    → IsPool s free (a ∷ rx)
    → IsPool (net_free_packet (net_receive s).0 (net_receive s).1) (a ∷ free) rx
taken-IsPool {s} a free rx v =
    let r = net_receive-IsPool a free rx v in
    rw r.0 (
      net_free_packet-IsPool a free rx v.rx_chain.1 (All-map free (λ b p q. p.0 (sym q)) v.apart)
        v.rx_nodup.0 r.2)

net_is_packet_available-some :
    (s : Net)
    → (net_receive s).0 ≢ 0
    → net_is_packet_available s ≡ (net_free_packet (net_receive s).0 (net_receive s).1, 1)
unfolding net_is_packet_available
net_is_packet_available-some s ne = ground arith

net_is_packet_available-none : (s : Net) → s.rx_queue_head ≡ 0 → net_is_packet_available s ≡ (s, 0)
unfolding net_is_packet_available
net_is_packet_available-none s e = rw (net_receive-empty s e)

-- What `net_is_packet_available` leaves of a pool: with an empty queue, the same state and the answer 0; else the
-- answer 1, and the first packet is no longer in the queue but free.
abbrev pub Peeked : Net → List ℕ → List ℕ → Type 0
Peeked s free [] = net_is_packet_available s ≡ (s, 0)
Peeked s free (a ∷ rx) =
    IsPool (net_is_packet_available s).0 (a ∷ free) rx × ((net_is_packet_available s).1 ≡ 1)

-- `net_is_packet_available` answers truly whether a packet waits, but it drops the packet: on an empty
-- queue it answers 0 and changes nothing; else it answers 1 and moves the first packet of the queue to the free list, so
-- that the reader it reports the packet to gets the next one.
pub net_is_packet_available-drops :
    {s : Net} (free rx : List ℕ) → IsPool s free rx → Peeked s free rx
net_is_packet_available-drops {s} free [] v = net_is_packet_available-none s v.rx_chain
net_is_packet_available-drops {s} free (a ∷ rx) v =
    let e =
      net_is_packet_available-some s
        (λ q. v.rx_chain.1 (sym (net_receive-IsPool a free rx v).0 ∙ q)) in
    rw e (taken-IsPool a free rx v, refl)

sys_net_recv-some :
    (buffer : Bytes) (arg2 : ℤ) (s : Net)
    → (net_receive s).0 ≢ 0
    → sys_net_recv buffer arg2 s ≡ (
      net_free_packet (net_receive s).0 (net_receive s).1,
      copy_bytes
          (copy_len ((net_receive s).1.packets (net_receive s).0).length arg2)
          buffer
          ((net_receive s).1.packets (net_receive s).0).content,
      ((net_receive s).1.packets (net_receive s).0).length,
    )
unfolding sys_net_recv
sys_net_recv-some buffer arg2 s ne = if_ne (net_receive s).0 0 _ _ ne

sys_net_recv-none :
    (buffer : Bytes) (arg2 : ℤ) (s : Net)
    → s.rx_queue_head ≡ 0
    → sys_net_recv buffer arg2 s ≡ (s, buffer, 0)
unfolding sys_net_recv
sys_net_recv-none buffer arg2 s e = rw (net_receive-empty s e)

-- What SYS_NET_RECV leaves of a pool.
abbrev pub Taken : Bytes → ℤ → Net → List ℕ → List ℕ → Type 0
Taken buffer arg2 s free [] = sys_net_recv buffer arg2 s ≡ (s, buffer, 0)
Taken buffer arg2 s free (a ∷ rx) =
    IsPool (sys_net_recv buffer arg2 s).0 (a ∷ free) rx
    × (prefix (copy_len 64 arg2) (sys_net_recv buffer arg2 s).1
        ≡ prefix (copy_len 64 arg2) (s.packets a).content)
    × ((sys_net_recv buffer arg2 s).2 ≡ 64)

-- SYS_NET_RECV takes the packets in the order of the queue. On an empty queue it returns 0 and changes nothing. Else the
-- first packet leaves the queue and is free again, its first bytes are in the buffer, as many as
-- `arg2` allows, and the result is 64, the length of the whole packet, also where `arg2` is less.
pub sys_net_recv-Taken :
    (buffer : Bytes) (arg2 : ℤ) {s : Net} (free rx : List ℕ)
    → IsPool s free rx
    → Taken buffer arg2 s free rx
sys_net_recv-Taken buffer arg2 {s} free [] v = sys_net_recv-none buffer arg2 s v.rx_chain
sys_net_recv-Taken buffer arg2 {s} free (a ∷ rx) v =
    let r = net_receive-IsPool a free rx v in
    let e = sys_net_recv-some buffer arg2 s (λ q. v.rx_chain.1 (sym r.0 ∙ q)) in
    let size : ((net_receive s).1.packets (net_receive s).0).length ≡ 64 =
      rw (r.0, r.1) v.received.0.size in
    rw e (
      taken-IsPool a free rx v,
      rw (size, r.0, r.1) (prefix-copy_bytes (copy_len 64 arg2) buffer (s.packets a).content),
      size,
    )

-- The bytes of the buffer that SYS_NET_RECV does not write.
pub sys_net_recv-beyond :
    (buffer : Bytes) (arg2 : ℤ) {s : Net} (free rx : List ℕ)
    → IsPool s free rx
    → (j : ℕ) → copy_len 64 arg2 ≤ j
    → (sys_net_recv buffer arg2 s).1 j ≡ buffer j
sys_net_recv-beyond buffer arg2 {s} free [] v j h =
    rw (sys_net_recv-none buffer arg2 s v.rx_chain) refl
sys_net_recv-beyond buffer arg2 {s} free (a ∷ rx) v j h =
    let r = net_receive-IsPool a free rx v in
    let e = sys_net_recv-some buffer arg2 s (λ q. v.rx_chain.1 (sym r.0 ∙ q)) in
    let size : ((net_receive s).1.packets (net_receive s).0).length ≡ 64 =
      rw (r.0, r.1) v.received.0.size in
    rw (e, size)
      (copy_bytes-beyond (copy_len 64 arg2) buffer
        ((net_receive s).1.packets (net_receive s).0).content j h)
