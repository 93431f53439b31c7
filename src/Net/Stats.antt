-- ===== src/Net/Stats.antt =====
-- The statistics of the network driver.
use hydra_microkernal.Prelude.{ℕ, ◌+◌, ◌%◌, ◌^◌, ◌≤◌, ◌≡◌, refl, ap, arith, pos, negsuc}
use hydra_microkernal.Net.{Net, net_send, sys_net_send}

sys_net_send-mod : (len : ℕ) (s : Net) → sys_net_send (len + 2 ^ 16) s ≡ sys_net_send len s
unfolding sys_net_send
sys_net_send-mod len s = ap (λ n. net_send n s) (omega arith)

net_send-fits : {len : ℕ} (s : Net) → len ≤ 1514 → (sys_net_send len s).1 ≡ pos 0
unfolding sys_net_send net_send
net_send-fits {len} s h = let small : len % 2 ^ 16 ≡ len = omega (arith, h) in ground arith

refused : (s : Net) → (sys_net_send 1515 s).1 ≡ negsuc 0
unfolding sys_net_send net_send
refused s = refl

-- SYS_NET_SEND of a frame whose length is 65536 more than that of one that fits reports success, and counts only the
-- part of the length that is left by the cast to 16 bits, where a frame of 1515 bytes is refused.
pub sys_net_send-wraps :
    {len : ℕ} (s : Net)
    → len ≤ 1514
    → sys_net_send (len + 2 ^ 16) s ≡ sys_net_send len s
      × ((sys_net_send (len + 2 ^ 16) s).1 ≡ pos 0)
      × ((sys_net_send 1515 s).1 ≡ negsuc 0)
sys_net_send-wraps {len} s h =
    (sys_net_send-mod len s, rw (sys_net_send-mod len s) (net_send-fits s h), refused s)
