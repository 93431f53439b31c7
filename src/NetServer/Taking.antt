-- ===== src/NetServer/Taking.antt =====
-- What `recv_socket_data` of server/net_srv.c takes out of a socket's buffer.

use hydra_microkernal.Prelude.{
  ℕ, zero, suc, ◌+◌, ◌-◌, ◌%◌, ◌≤◌, ◌<◌, ◌≡◌, ◌≢◌, refl, sym, ap, ap₂, ◌∙◌, ℤ, pos, negsuc,
  pos_part, ◌∷◌, ◌++◌, window, update, update_self, update_ne, Bytes, slice, ltb, if_cases, ◌==◌,
  if◌then◌else◌, arith, ℕ_discrete,
}
use hydra_microkernal.NetServer.{NetSocket, NetServer, put}
use hydra_microkernal.NetServer.Rx.{rx_size, take_from, bytes_to_copy, recv_at}
use hydra_microkernal.NetServer.Buffer.{IsBuffer, waiting}

-- The socket without its first byte.
abbrev taken : NetSocket → NetSocket
taken sock = record sock { rx_tail = (sock.rx_tail + 1) % rx_size; rx_count = sock.rx_count - 1 }

taken-IsBuffer :
    (sock : NetSocket)
    → IsBuffer sock
    → 0 < sock.rx_count
    → IsBuffer (taken sock) × (waiting sock ≡ sock.rx_buffer sock.rx_tail ∷ waiting (taken sock))
taken-IsBuffer sock v h = (
  record { room = omega (arith, v.room); start = omega arith; end = omega (arith, v.end) },
  ap (window rx_size sock.rx_buffer sock.rx_tail) {y = suc (sock.rx_count - 1)} (omega arith),
)

take_from-before :
    (n i : ℕ) (buf : Bytes) (sock : NetSocket) (j : ℕ)
    → j < i
    → (take_from n i buf sock).0 j ≡ buf j
unfolding take_from
take_from-before zero i buf sock j h = refl
take_from-before (suc n) i buf sock j h =
    take_from-before n (suc i) (update buf i (sock.rx_buffer sock.rx_tail)) (taken sock) j
      (omega arith)
    ∙ update_ne buf i j (sock.rx_buffer sock.rx_tail) (omega arith)

-- What the loop of `recv_socket_data` owes: the buffer is kept, and the bytes that waited are those that it copied and
-- those that still wait.
take_from-IsBuffer :
    (n i : ℕ) (buf : Bytes) (sock : NetSocket)
    → IsBuffer sock
    → n ≤ sock.rx_count
    → IsBuffer (take_from n i buf sock).1
      × (waiting sock ≡ slice n i (take_from n i buf sock).0 ++ waiting (take_from n i buf sock).1)
unfolding take_from
take_from-IsBuffer zero i buf sock v h = (v, refl)
take_from-IsBuffer (suc n) i buf sock v h =
    let one = taken-IsBuffer sock v (omega arith) in
    let b : Bytes = update buf i (sock.rx_buffer sock.rx_tail) in
    let rest = take_from-IsBuffer n (suc i) b (taken sock) one.0 (omega arith) in
    let first =
      take_from-before n (suc i) b (taken sock) i (omega arith)
      ∙ update_self buf i (sock.rx_buffer sock.rx_tail) in
    (rest.0, one.1 ∙ ap₂ ◌∷◌ (sym first) rest.1)

-- The number of bytes that `recv_socket_data` gives.
abbrev pub given : NetSocket → ℕ → ℕ
given sock n = if ltb sock.rx_count n then sock.rx_count else n

given-le : (sock : NetSocket) (n : ℕ) → given sock n ≤ sock.rx_count
given-le sock n = ground arith

bytes_to_copy-pos :
    (count n : ℕ) → bytes_to_copy count (pos n) ≡ pos (if ltb count n then count else n)
bytes_to_copy-pos count n = ground arith

-- A socket whose bytes wait, and the copy from it.
recv_at-some :
    (i n : ℕ) (buf : Bytes) (s : NetServer)
    → (s.sockets i).rx_count ≢ 0
    → let run = take_from (given (s.sockets i) n) 0 buf (s.sockets i) in
      recv_at i buf (pos n) s ≡ (put i run.1 s, run.0, pos (given (s.sockets i) n))
unfolding recv_at
recv_at-some i n buf s h = rw (sym (bytes_to_copy-pos (s.sockets i).rx_count n)) (ground arith)

recv_at-none :
    (i n : ℕ) (buf : Bytes) (s : NetServer)
    → (s.sockets i).rx_count ≡ 0
    → recv_at i buf (pos n) s ≡ (s, buf, pos 0)
unfolding recv_at
recv_at-none i n buf s h = ground arith

given-none : (sock : NetSocket) (n : ℕ) → sock.rx_count ≡ 0 → given sock n ≡ 0
given-none sock n h = ground arith

-- On a well-formed buffer, which it keeps so, `recv_at` with a room of `n` bytes returns how many of the waiting bytes it copied, which are all of them or `n`; the
-- copied bytes are the oldest ones in their order, and those behind them still wait.
pub recv_at-IsBuffer :
    (i n : ℕ) (buf : Bytes) (s : NetServer)
    → IsBuffer (s.sockets i)
    → let (s', out, size) = recv_at i buf (pos n) s in
      IsBuffer (s'.sockets i)
      × (size ≡ pos (given (s.sockets i) n))
      × (waiting (s.sockets i) ≡ slice (given (s.sockets i) n) 0 out ++ waiting (s'.sockets i))
recv_at-IsBuffer i n buf s v = elim (ℕ_discrete (s.sockets i).rx_count 0) [
  | yes p ↦ rw (recv_at-none i n buf s p) (rw (given-none (s.sockets i) n p) (v, refl, refl))
  | no p ↦
      let run = take_from (given (s.sockets i) n) 0 buf (s.sockets i) in
      let rest =
        take_from-IsBuffer (given (s.sockets i) n) 0 buf (s.sockets i) v
          (given-le (s.sockets i) n) in
      rw (recv_at-some i n buf s p) (rw (update_self s.sockets i run.1) (rest.0, refl, rest.1))
]

bytes_to_copy-le : (count : ℕ) (max_len : ℤ) → pos_part (bytes_to_copy count max_len) ≤ count
bytes_to_copy-le count (pos n) = ground arith
bytes_to_copy-le count (negsuc n) = omega arith

-- The loop of `recv_socket_data` writes nothing but the ring's place.
take_from-same :
    (n i : ℕ) (buf : Bytes) (sock : NetSocket)
    → ((take_from n i buf sock).1.sock_id ≡ sock.sock_id)
      × ((take_from n i buf sock).1.in_use ≡ sock.in_use)
unfolding take_from
take_from-same zero i buf sock = (refl, refl)
take_from-same (suc n) i buf sock =
    take_from-same n (suc i) (update buf i (sock.rx_buffer sock.rx_tail)) (taken sock)

-- Whatever the room, the server is as it was or the one socket is written back, its buffer well formed.
pub recv_at-cases :
    (i : ℕ) (buf : Bytes) (max_len : ℤ) (s : NetServer) (P : NetServer → Type 0)
    → IsBuffer (s.sockets i)
    → P s
    → ((sock : NetSocket)
        → IsBuffer sock
        → sock.sock_id ≡ (s.sockets i).sock_id
        → sock.in_use ≡ (s.sockets i).in_use
        → P (put i sock s))
    → P (recv_at i buf max_len s).0
unfolding recv_at
recv_at-cases i buf max_len s P v same other =
    let n = pos_part (bytes_to_copy (s.sockets i).rx_count max_len) in
    let run = take_from n 0 buf (s.sockets i) in
    let kept = take_from-same n 0 buf (s.sockets i) in
    let fits =
      take_from-IsBuffer n 0 buf (s.sockets i) v
        (bytes_to_copy-le (s.sockets i).rx_count max_len) in
    if_cases (λ (x : NetServer × Bytes × ℤ). P x.0) ((s.sockets i).rx_count == 0) same
      (other run.1 fits.0 kept.0 kept.1)
