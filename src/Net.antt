-- ===== src/Net.antt =====
-- kernal/net_driver.h and kernal/net_driver.c: the packet pool, the queue of received packets and the statistics;
-- `net_is_packet_available` of lib/libnet/net_util.c; SYS_NET_SEND and SYS_NET_RECV of kernal/syscall.c.
-- A pointer to `packet_pool[i]` is the number i + 1. Registers that the driver reads are arguments. Its writes to the
-- device and log output are left out.
pub mod Pool
pub mod Receive
pub mod Traffic
pub mod Boot
pub mod Runs
pub mod Stats
pub mod Tests
use hydra_microkernal.Prelude.{
  ℕ, zero, suc, ◌+◌, ◌-◌, ◌%◌, ◌^◌, Bool, not, ℤ, pos, negsuc, pos_part, to_int, ltb, ◌==◌,
  if◌then◌else◌, update, Bytes, copy_bytes,
}

-- PACKET_POOL_SIZE
abbrev pub packet_pool_size : ℕ
packet_pool_size = 32

-- `struct net_packet`
pub record NetPacket : Type 0 where
  pub content : Bytes
  pub length : ℕ
  pub next : ℕ

-- `struct net_stats`
pub record NetStats : Type 0 where
  pub tx_packets : ℕ
  pub rx_packets : ℕ
  pub tx_bytes : ℕ
  pub rx_bytes : ℕ
  pub tx_errors : ℕ
  pub rx_errors : ℕ

-- The driver's variables.
pub record Net : Type 0 where
  pub packets : ℕ → NetPacket
  pub free_packets : ℕ
  pub rx_queue_head : ℕ
  pub rx_queue_tail : ℕ
  pub stats : NetStats
  pub mac_addr : Bytes
  pub interrupt_count : ℕ

-- `x += y` on a `uint32_t`
abbrev pub add32 : ℕ → ℕ → ℕ
add32 x y = (x + y) % 2 ^ 32

-- The loop of `init_packet_pool` from packet number `i` on, with `n` rounds left.
unfoldable pub link_from : ℕ → ℕ → (ℕ → NetPacket) → ℕ → NetPacket
link_from zero i packets = packets
link_from (suc n) i packets =
    link_from n (suc i) (update packets (suc i) (record (packets (suc i)) { next = i + 2 }))

unfoldable pub init_packet_pool : Net → Net
unfolding link_from
init_packet_pool s = record s {
  packets = update linked packet_pool_size (record (linked packet_pool_size) { next = 0 });
  free_packets = 1;
}
  where
    linked : ℕ → NetPacket
    linked = link_from 31 0 s.packets

unfoldable pub alloc_packet : Net → ℕ × Net
alloc_packet s = if pkt == 0 then (0, s) else (
  pkt,
  record s {
    free_packets = (s.packets pkt).next;
    packets = update s.packets pkt (record (s.packets pkt) { next = 0 });
  },
)
  where
    pkt : ℕ
    pkt = s.free_packets

unfoldable pub net_free_packet : ℕ → Net → Net
net_free_packet pkt s = if pkt == 0 then s else record s {
  packets = update s.packets pkt (record (s.packets pkt) { next = s.free_packets });
  free_packets = pkt;
}

-- "Set a default MAC address for testing"
abbrev pub default_mac : Bytes → Bytes
default_mac m = update (update (update (update (update (update m 0 82) 1 84) 2 0) 3 18) 4 52) 5 86

-- `magic` and `device_id` are what the registers hold.
unfoldable pub net_init : ℕ → ℕ → Net → Net
net_init magic device_id s =
    let s' = init_packet_pool s in
    if not (magic == 1953655158)
    then s'
    else if not (device_id == 1)
    then s'
    else record s' { mac_addr = default_mac s'.mac_addr }

unfoldable pub net_send : ℕ → Net → Net × ℤ
net_send len s =
    if ltb 1514 len
    then (record s { stats = record s.stats { tx_errors = add32 s.stats.tx_errors 1 } }, negsuc 0)
    else (
      record s {
        stats = record s.stats {
          tx_packets = add32 s.stats.tx_packets 1;
          tx_bytes = add32 s.stats.tx_bytes len;
        };
      },
      pos 0,
    )

-- Null, or the packet that is taken off the queue.
unfoldable pub net_receive : Net → ℕ × Net
net_receive s = if s.rx_queue_head == 0 then (0, s) else (
  s.rx_queue_head,
  record s { rx_queue_head = rest; rx_queue_tail = if rest == 0 then 0 else s.rx_queue_tail },
)
  where
    rest : ℕ
    rest = (s.packets s.rx_queue_head).next

-- "Create a dummy packet"
unfoldable pub dummy : ℕ → Net → Net
dummy pkt s = record s {
  packets = update s.packets pkt (record (s.packets pkt) {
    length = 64;
    content = copy_bytes 64 (s.packets pkt).content (λ i. i % 256);
  });
}

-- "Add to RX queue"
unfoldable pub add_to_rx_queue : ℕ → Net → Net
add_to_rx_queue pkt s =
    if s.rx_queue_tail == 0
    then record s {
      packets = update s.packets pkt (record (s.packets pkt) { next = 0 });
      rx_queue_head = pkt;
      rx_queue_tail = pkt;
    }
    else record s {
      packets =
          update (update s.packets pkt (record (s.packets pkt) { next = 0 })) s.rx_queue_tail
            (record (update s.packets pkt (record (s.packets pkt) { next = 0 }) s.rx_queue_tail) {
              next = pkt;
            });
      rx_queue_tail = pkt;
    }

-- The statistics of a received packet.
unfoldable pub count_received : ℕ → Net → Net
count_received pkt s = record s {
  stats = record s.stats {
    rx_packets = add32 s.stats.rx_packets 1;
    rx_bytes = add32 s.stats.rx_bytes (s.packets pkt).length;
  };
}

-- What every hundredth interrupt does.
unfoldable pub simulate_packet : Net → Net
simulate_packet s =
    let (pkt, s') = alloc_packet s in
    if pkt == 0 then s' else count_received pkt (add_to_rx_queue pkt (dummy pkt s'))

-- The counter of interrupts is the 32 bits of an `int`: C leaves its overflow undefined, and the model goes on with the
-- bits of the sum.
abbrev pub next_count : Net → ℕ
next_count s = (s.interrupt_count + 1) % 2 ^ 32

-- The absolute value of the `int` with these bits, which 100 divides if it divides the `int`.
abbrev pub magnitude : ℕ → ℕ
magnitude w = if ltb w (2 ^ 31) then w else 2 ^ 32 - w

unfoldable pub net_interrupt_handler : Net → Net
net_interrupt_handler s =
    let s' = record s { interrupt_count = next_count s } in
    if magnitude s'.interrupt_count % 100 == 0 then simulate_packet s' else s'

unfoldable pub net_is_packet_available : Net → Net × ℕ
net_is_packet_available s =
    let (pkt, s') = net_receive s in if not (pkt == 0) then (net_free_packet pkt s', 1) else (s', 0)

-- SYS_NET_SEND, for a length `arg2` of 0 or more: the cast to `uint16_t` is the remainder.
unfoldable pub sys_net_send : ℕ → Net → Net × ℤ
sys_net_send arg2 s = net_send (arg2 % 2 ^ 16) s

-- `(length < arg2) ? length : (int) arg2`, as the number of rounds of a loop up to it. The length has 16
-- bits, so the cast keeps a number up to it. The lowest bits of a negative `long` may
-- be a positive `int`, above the length and the size of the packet's array too: what is copied from behind the array is the
-- rest of `content`.
abbrev pub copy_len : ℕ → ℤ → ℕ
copy_len length (pos n) = if ltb length n then length else n
copy_len length (negsuc n) = pos_part (to_int (negsuc n))

-- SYS_NET_RECV: the driver, the caller's buffer and the result.
unfoldable pub sys_net_recv : Bytes → ℤ → Net → Net × Bytes × ℕ
sys_net_recv buffer arg2 s =
    let (pkt, s') = net_receive s in
    if pkt == 0 then (s', buffer, 0) else (
      net_free_packet pkt s',
      copy_bytes (copy_len (s'.packets pkt).length arg2) buffer (s'.packets pkt).content,
      (s'.packets pkt).length,
    )
