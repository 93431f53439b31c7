-- ===== src/NetServer/Boot.antt =====
-- The initialisation of server/net_srv.c.
use hydra_microkernal.Prelude.{
  ℕ, zero, suc, ◌+◌, ◌≤◌, ◌<◌, ◌≡◌, refl, ◌∙◌, false, ℤ, update, update_self, update_ne, arith,
  ℕ_discrete,
}
use hydra_microkernal.NetServer.{
  closed, NetSocket, NetServer, server_sockets, clear_sockets, net_server_init,
}
use hydra_microkernal.NetServer.Buffer.{IsBuffer}
use hydra_microkernal.NetServer.Ids.{IsServer}

clear_sockets-before :
    (n i : ℕ) (socks : ℕ → NetSocket) (j : ℕ) → j < i → clear_sockets n i socks j ≡ socks j
unfolding clear_sockets
clear_sockets-before zero i socks j h = refl
clear_sockets-before (suc n) i socks j h =
    clear_sockets-before n (suc i) _ j (omega arith) ∙ update_ne socks i j _ (omega arith)

-- A socket that the initialisation has cleared.
record IsClear (sock : NetSocket) : Type 0 where
  unused : sock.in_use ≡ false
  ring : IsBuffer sock

clear_sockets-IsClear :
    (n i : ℕ) (socks : ℕ → NetSocket) (j : ℕ)
    → i ≤ j
    → j < i + n
    → IsClear (clear_sockets n i socks j)
unfolding clear_sockets
clear_sockets-IsClear zero i socks j p q = absurd (omega arith)
clear_sockets-IsClear (suc n) i socks j p q = elim (ℕ_discrete i j) [
  | yes same ↦
      rw
        (
          ← same,
          clear_sockets-before n (suc i)
              (update socks i (record (socks i) {
                in_use = false;
                state = closed;
                rx_head = 0;
                rx_tail = 0;
                rx_count = 0;
              }))
              i (omega arith),
          update_self socks i (record (socks i) {
            in_use = false;
            state = closed;
            rx_head = 0;
            rx_tail = 0;
            rx_count = 0;
          }),
        )
        (record {
          unused = refl;
          ring = record { room = omega arith; start = omega arith; end = refl };
        })
  | no other ↦ clear_sockets-IsClear n (suc i) _ j (omega arith) (omega arith)
]

pub net_server_init-IsServer : (pid : ℤ) (s : NetServer) → IsServer 1 (net_server_init pid s)
unfolding net_server_init
net_server_init-IsServer pid s =
    let clear = λ (i : ℕ) (h : i < server_sockets).
      clear_sockets-IsClear server_sockets 0 s.sockets i (omega arith) (omega arith) in
    record {
      small = omega arith;
      counted = omega arith;
      fresh = λ i h u. absurd (ground (arith, u, (clear i h).unused));
      unique = λ i j h h' u u' e. absurd (ground (arith, u, (clear i h).unused));
      buffers = λ i h. (clear i h).ring;
    }
