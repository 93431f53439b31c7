-- ===== src/Net/Tests.antt =====
-- The theorems about kernal/net_driver.c at small inputs.
use hydra_microkernal.Prelude.{◌%◌, refl, [], ◌∷◌, arith}
use hydra_microkernal.Net.{Net, NetStats, net_init}
use hydra_microkernal.Net.Pool.{IsPool}

abbrev pub no_stats : NetStats
no_stats = record {
  tx_packets = 0;
  rx_packets = 0;
  tx_bytes = 0;
  rx_bytes = 0;
  tx_errors = 0;
  rx_errors = 0;
}

-- Packet 1 waits in the queue, and packet 2 is free; the next interrupt is a hundredth one.
abbrev pub one_waiting : Net
one_waiting = record {
  packets = λ i. record { content = λ j. j % 256; length = 64; next = 0 };
  free_packets = 2;
  rx_queue_head = 1;
  rx_queue_tail = 1;
  stats = no_stats;
  mac_addr = λ i. 0;
  interrupt_count = 99;
}

-- Memory as the kernel starts with it.
abbrev pub at_start : Net
at_start = record {
  packets = λ i. record { content = λ j. 0; length = 0; next = 0 };
  free_packets = 0;
  rx_queue_head = 0;
  rx_queue_tail = 0;
  stats = no_stats;
  mac_addr = λ i. 0;
  interrupt_count = 0;
}

abbrev pub started : Net
started = net_init 1953655158 1 at_start

pub one_waiting-IsPool : IsPool one_waiting (2 ∷ []) (1 ∷ [])
one_waiting-IsPool = record {
  free_chain = (refl, omega arith, refl);
  rx_chain = (refl, omega arith, refl);
  rx_end = refl;
  free_nodup = (tt, tt);
  rx_nodup = (tt, tt);
  apart = ((omega arith, tt), tt);
  received = (record { size = refl; bytes = refl }, tt);
}
