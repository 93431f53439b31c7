-- ===== src/NetServer/Buffer.antt =====
-- The receive buffer of a socket in server/net_srv.c is a queue of at most 1024 bytes that drops what does not fit.

use mathlib.Core.List.{append-nil, append_assoc}
use hydra_microkernal.Prelude.{
  ℕ, zero, suc, ◌+◌, ◌%◌, ◌≤◌, ◌<◌, ◌≡◌, refl, sym, ap, ◌∙◌, ℤ, pos_part, List, [], ◌∷◌, ◌++◌,
  length, take, take-all, window, length-window, window-update, take-full, update, Bytes, slice,
  prefix, ltb, if_cases, arith, dec_lt,
}
use hydra_microkernal.NetServer.{NetSocket}
use hydra_microkernal.NetServer.Rx.{rx_size, add_from, socket_add_rx_data}

-- The ring's numbers agree: its head is `count` places behind its tail.
pub record IsRing (count tail head : ℕ) : Type 0 where
  pub room : count ≤ rx_size
  pub start : tail < rx_size
  pub end : head ≡ (tail + count) % rx_size

abbrev pub IsBuffer : NetSocket → Type 0
IsBuffer sock = IsRing sock.rx_count sock.rx_tail sock.rx_head

-- The bytes that wait, oldest first.
abbrev pub waiting : NetSocket → List ℕ
waiting sock = window rx_size sock.rx_buffer sock.rx_tail sock.rx_count

-- The socket with one more byte.
abbrev added : ℕ → NetSocket → NetSocket
added c sock = record sock {
  rx_buffer = update sock.rx_buffer sock.rx_head c;
  rx_head = (sock.rx_head + 1) % rx_size;
  rx_count = sock.rx_count + 1;
}

added-IsBuffer :
    (sock : NetSocket) (c : ℕ)
    → IsBuffer sock
    → sock.rx_count < rx_size
    → IsBuffer (added c sock) × (waiting (added c sock) ≡ waiting sock ++ c ∷ [])
added-IsBuffer sock c v h = (
  record { room = omega arith; start = v.start; end = omega (arith, v.end) },
  ap (window rx_size (update sock.rx_buffer sock.rx_head c) sock.rx_tail) {y = suc sock.rx_count}
        (omega arith)
      ∙ window-update rx_size sock.rx_buffer sock.rx_tail sock.rx_count sock.rx_head c v.start h
          v.end,
)

add_from-room :
    (n i : ℕ) (src : Bytes) (sock : NetSocket)
    → sock.rx_count < rx_size
    → add_from (suc n) i src sock ≡ add_from n (suc i) src (added (src i) sock)
unfolding add_from
add_from-room n i src sock h = ground arith

add_from-full :
    (n i : ℕ) (src : Bytes) (sock : NetSocket)
    → rx_size ≤ sock.rx_count
    → add_from n i src sock ≡ sock
unfolding add_from
add_from-full zero i src sock h = refl
add_from-full (suc n) i src sock h = ground arith

add_from-IsBuffer :
    (n i : ℕ) (src : Bytes) (sock : NetSocket)
    → IsBuffer sock
    → IsBuffer (add_from n i src sock)
      × (waiting (add_from n i src sock) ≡ take rx_size (waiting sock ++ slice n i src))
add_from-IsBuffer zero i src sock v =
    unfold add_from in
    (
      v,
      rw (append-nil (waiting sock)) (
          sym (
            take-all rx_size (waiting sock) (
              omega
                (arith, length-window rx_size sock.rx_buffer sock.rx_tail sock.rx_count, v.room)))),
    )
add_from-IsBuffer (suc n) i src sock v = elim (dec_lt sock.rx_count rx_size) [
  | yes p ↦
      let one = added-IsBuffer sock (src i) v p in
      let rest = add_from-IsBuffer n (suc i) src (added (src i) sock) one.0 in
      rw (add_from-room n i src sock p) (
        rest.0,
        rest.1
            ∙ ap (λ l. take rx_size (l ++ slice n (suc i) src)) one.1
            ∙ ap (take rx_size) (append_assoc (waiting sock) (src i ∷ []) (slice n (suc i) src)),
      )
  | no p ↦
      let size = length-window rx_size sock.rx_buffer sock.rx_tail sock.rx_count in
      let full : length (waiting sock) ≡ rx_size = omega (arith, size, v.room) in
      rw (add_from-full (suc n) i src sock (omega arith))
        (v, sym (take-full rx_size (waiting sock) (slice (suc n) i src) full))
]

add_from-same :
    (n i : ℕ) (src : Bytes) (sock : NetSocket)
    → ((add_from n i src sock).sock_id ≡ sock.sock_id)
      × ((add_from n i src sock).in_use ≡ sock.in_use)
unfolding add_from
add_from-same zero i src sock = (refl, refl)
add_from-same (suc n) i src sock =
    if_cases (λ (t : NetSocket). (t.sock_id ≡ sock.sock_id) × (t.in_use ≡ sock.in_use))
      (ltb sock.rx_count rx_size) (add_from-same n (suc i) src (added (src i) sock)) (refl, refl)

-- A packet leaves the socket's number and its use.
pub socket_add_rx_data-same :
    (src : Bytes) (len : ℤ) (sock : NetSocket)
    → ((socket_add_rx_data src len sock).sock_id ≡ sock.sock_id)
      × ((socket_add_rx_data src len sock).in_use ≡ sock.in_use)
unfolding socket_add_rx_data
socket_add_rx_data-same src len sock = add_from-same (pos_part len) 0 src sock

-- On a well-formed buffer `socket_add_rx_data` keeps it so and appends the bytes of the packet to those that wait in the buffer, up to 1024 in all, and drops the
-- rest.
pub socket_add_rx_data-IsBuffer :
    (src : Bytes) (len : ℤ) (sock : NetSocket)
    → IsBuffer sock
    → IsBuffer (socket_add_rx_data src len sock)
      × (waiting (socket_add_rx_data src len sock)
          ≡ take rx_size (waiting sock ++ prefix (pos_part len) src))
unfolding socket_add_rx_data
socket_add_rx_data-IsBuffer src len sock v = add_from-IsBuffer (pos_part len) 0 src sock v
