-- ===== src/Netlib.antt =====
-- lib/libnet: net_send.c, net_recv.c and lwip_hooks.c, over the network driver of kernal/net_driver.c. Log output is left
-- out, and with it net_init.c and `net_print_stats` of net_util.c, which only print.
pub mod Drain
mod Tests
use hydra_microkernal.Prelude.{
  ℕ, zero, suc, ◌%◌, ◌^◌, Option, none, some, ℤ, pos, ltb, ◌==◌, if◌then◌else◌, Bytes, copy_bytes,
}
use hydra_microkernal.Net.{Net, net_init, net_send, net_receive, net_free_packet}

-- `len` is a `uint16_t`.
unfoldable pub net_send_packet : ℕ → Net → Net × ℤ
net_send_packet len s = net_send (len % 2 ^ 16) s

-- The driver, the buffer and the result.
unfoldable pub net_recv_packet : Bytes → ℕ → Net → Net × Bytes × ℕ
net_recv_packet buffer max_len s =
    let (pkt, s') = net_receive s in
    if pkt == 0 then (s', buffer, 0) else (
      net_free_packet pkt s',
      copy_bytes (if ltb (s'.packets pkt).length max_len then (s'.packets pkt).length else max_len)
          buffer (s'.packets pkt).content,
      (s'.packets pkt).length,
    )

unfoldable pub lwip_init : ℕ → ℕ → Net → Net
lwip_init magic device_id s = net_init magic device_id s

-- The loop takes fuel, and `none` means that it ran out.
unfoldable pub lwip_process_packets : ℕ → Net → Option Net
lwip_process_packets zero s = none
lwip_process_packets (suc fuel) s =
    let (pkt, s') = net_receive s in
    let rest = lwip_process_packets fuel (net_free_packet pkt s') in
    if pkt == 0 then some s' else rest
