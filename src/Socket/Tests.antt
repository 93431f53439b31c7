-- ===== src/Socket/Tests.antt =====
-- The theorems about lib/libnet/socket.c at small inputs.
use hydra_microkernal.Prelude.{some, ◌≡◌, refl, pos, negsuc, arith}
use hydra_microkernal.Socket.Inet.{inet_addr, inet_ntoa}
use hydra_microkernal.Socket.Parts.{inet_addr-inet_ntoa}
use hydra_microkernal.Socket.{
  SockaddrIn, Sockets, socket, bind, listen, accept, connect, send, recv,
}
use hydra_microkernal.Socket.Table.{
  AllClosed, opens, binds, here, more, Reach-AllClosed, AllClosed-fails,
}

-- Memory as a program starts with it.
abbrev at_start : Sockets
at_start = λ i. record {
  type = pos 0;
  state = 0;
  local_port = 0;
  local_addr = 0;
  remote_port = 0;
  remote_addr = 0;
}

abbrev local : SockaddrIn
local = record { sin_family = 2; sin_port = 80; sin_addr = 16777343 }

-- A socket is created and bound.
Reach-AllClosed_example : AllClosed (bind (pos 1) local (socket (pos 2) (pos 1) at_start).0).0
Reach-AllClosed_example =
    Reach-AllClosed {t = at_start} (λ i. refl)
      (more (more here (opens (pos 2) (pos 1) refl)) (binds (pos 1) local refl))

AllClosed-fails_example :
    (bind (pos 1) local at_start ≡ (at_start, negsuc 0))
    × (listen (pos 1) at_start ≡ (at_start, negsuc 0))
    × (accept (pos 1) at_start ≡ (at_start, negsuc 0))
    × (connect (pos 1) local at_start ≡ (at_start, negsuc 0))
    × (send (pos 1) (pos 5) at_start ≡ negsuc 0)
    × (recv (pos 1) (pos 5) at_start ≡ negsuc 0)
    × ((socket (pos 2) (pos 1) at_start).1 ≡ pos 1)
AllClosed-fails_example = AllClosed-fails at_start (pos 1) local (pos 5) (pos 2) (pos 1) (λ i. refl)

-- 10.0.2.15
inet_addr-inet_ntoa_example : inet_addr 16 (λ i. 0) (inet_ntoa 167772687 (λ i. 0)) ≡ some 167772687
inet_addr-inet_ntoa_example =
    inet_addr-inet_ntoa 167772687 16 (λ i. 0) (λ i. 0) (omega arith) (omega arith)
