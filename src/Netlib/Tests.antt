-- ===== src/Netlib/Tests.antt =====
-- The theorems about lib/libnet's use of the driver at a pool of two packets.
use hydra_microkernal.Prelude.{[], ◌∷◌, arith}
use hydra_microkernal.Net.Tests.{one_waiting, one_waiting-IsPool}
use hydra_microkernal.Netlib.{lwip_process_packets}
use hydra_microkernal.Netlib.Drain.{IsDrained, lwip_process_packets-IsDrained}

lwip_process_packets-IsDrained_example :
    IsDrained (2 ∷ []) (1 ∷ []) (lwip_process_packets 2 one_waiting)
lwip_process_packets-IsDrained_example =
    lwip_process_packets-IsDrained 2 (2 ∷ []) (1 ∷ []) one_waiting-IsPool (omega arith)
