-- ===== src/Netlib/Drain.antt =====
-- The packets that lib/libnet takes off the driver's queue.
use hydra_microkernal.Prelude.{
  ℕ, zero, suc, ◌+◌, ◌<◌, ◌≡◌, refl, ◌∙◌, some, Option, pos, List, [], ◌∷◌, length, arith, Bytes,
}
use hydra_microkernal.Net.{Net, net_is_packet_available, sys_net_recv}
use hydra_microkernal.Net.Pool.{IsPool}
use hydra_microkernal.Net.Traffic.{net_is_packet_available-drops}
use hydra_microkernal.Netlib.{net_recv_packet, lwip_process_packets}

-- The free list behind the loop: the packets of the queue are in front, the last one first.
abbrev pub freed_onto : List ℕ → List ℕ → List ℕ
freed_onto [] free = free
freed_onto (a ∷ rx) free = freed_onto rx (a ∷ free)

length-freed_onto : (rx free : List ℕ) → length (freed_onto rx free) ≡ length rx + length free
length-freed_onto [] free = omega arith
length-freed_onto (a ∷ rx) free = omega (arith, length-freed_onto rx (a ∷ free))

-- A round of the loop does to the driver what `net_is_packet_available` does.
lwip_process_packets-next :
    (fuel : ℕ) (s : Net)
    → (net_is_packet_available s).1 ≡ 1
    → lwip_process_packets (suc fuel) s ≡ lwip_process_packets fuel (net_is_packet_available s).0
unfolding lwip_process_packets net_is_packet_available
lwip_process_packets-next fuel s e = ground arith

lwip_process_packets-last :
    (fuel : ℕ) (s : Net)
    → net_is_packet_available s ≡ (s, 0)
    → lwip_process_packets (suc fuel) s ≡ some s
unfolding lwip_process_packets net_is_packet_available
lwip_process_packets-last fuel s e = ground arith

-- A run that leaves all packets of a pool free, and none in the queue.
pub record IsDrained (free rx : List ℕ) (run : Option Net) : Type 0 where
  pub after : Net
  pub returns : run ≡ some after
  pub pool : IsPool after (freed_onto rx free) []

-- On a well-formed pool and with more fuel than packets in the queue, the loop of `lwip_process_packets` ends: every packet of the
-- queue is free again, and the queue is empty.
pub lwip_process_packets-IsDrained :
    (fuel : ℕ) {s : Net} (free rx : List ℕ)
    → IsPool s free rx
    → length rx < fuel
    → IsDrained free rx (lwip_process_packets fuel s)
lwip_process_packets-IsDrained zero free rx v h = absurd (omega arith)
lwip_process_packets-IsDrained (suc fuel) {s} free [] v h = record {
  after = s;
  returns = lwip_process_packets-last fuel s (net_is_packet_available-drops free [] v);
  pool = v;
}
lwip_process_packets-IsDrained (suc fuel) {s} free (a ∷ rx) v h =
    let peeked = net_is_packet_available-drops free (a ∷ rx) v in
    let rest = lwip_process_packets-IsDrained fuel (a ∷ free) rx peeked.0 (omega arith) in
    record {
      after = rest.after;
      returns = lwip_process_packets-next fuel s peeked.1 ∙ rest.returns;
      pool = rest.pool;
    }

-- `net_recv_packet` does what the system call does for a length that is not negative.
pub net_recv_packet-sys_net_recv :
    (buffer : Bytes) (max_len : ℕ) (s : Net)
    → net_recv_packet buffer max_len s ≡ sys_net_recv buffer (pos max_len) s
unfolding net_recv_packet sys_net_recv
net_recv_packet-sys_net_recv buffer max_len s = refl
