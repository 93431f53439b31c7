-- ===== src/NetServer.antt =====
-- server/net_srv.c: the socket table of the network server. `in_use` is a truth value. A socket
-- number is kept as the 32 bits of the `int`; C leaves the overflow of the counter undefined, and the model goes on
-- with the bits of the sum. The
-- receive buffers are in NetServer/Rx, the messages in NetServer/Handler, the client functions in NetServer/Clients. Log
-- output is left out.
pub mod Rx
pub mod Handler
pub mod Clients
pub mod Buffer
pub mod Taking
pub mod Boot
pub mod Ids
pub mod Edits
pub mod Rounds
pub mod Messages
mod Tests
use hydra_microkernal.Prelude.{
  is_int, ℕ, zero, suc, ◌+◌, ◌-◌, ◌%◌, ◌^◌, Bool, true, false, not, ◌&&◌, ◌||◌, Option, none, some,
  ℤ, pos, negsuc, pos_part, is_above, low_bits, signed32, ltb, ◌==◌, if◌then◌else◌, update, Bytes,
}

-- MAX_SOCKETS of the server
abbrev pub server_sockets : ℕ
server_sockets = 32

-- `socket_state_t`
pub data SocketState : Type 0 where
  closed : SocketState
  listening : SocketState
  connected : SocketState
  bound : SocketState

abbrev pub is_connected : SocketState → Bool
is_connected closed = false
is_connected listening = false
is_connected connected = true
is_connected bound = false

-- `struct socket`
pub record NetSocket : Type 0 where
  pub sock_id : ℕ
  pub owner_pid : ℤ
  pub type : ℤ
  pub state : SocketState
  pub local_ip : ℕ
  pub local_port : ℕ
  pub remote_ip : ℕ
  pub remote_port : ℕ
  pub rx_buffer : Bytes
  pub rx_head : ℕ
  pub rx_tail : ℕ
  pub rx_count : ℕ
  pub in_use : Bool

-- `struct net_server`
pub record NetServer : Type 0 where
  pub server_pid : ℤ
  pub sockets : ℕ → NetSocket
  pub next_socket_id : ℕ
  pub active : Bool

-- The loop of `net_server_init` from slot `i` on, with `n` rounds left.
unfoldable pub clear_sockets : ℕ → ℕ → (ℕ → NetSocket) → ℕ → NetSocket
clear_sockets zero i socks = socks
clear_sockets (suc n) i socks = clear_sockets n (suc i) (
    update socks i
      (record (socks i) { in_use = false; state = closed; rx_head = 0; rx_tail = 0; rx_count = 0 }))

unfoldable pub net_server_init : ℤ → NetServer → NetServer
unfolding clear_sockets
net_server_init pid s = record s {
  server_pid = pid;
  next_socket_id = 1;
  active = true;
  sockets = clear_sockets server_sockets 0 s.sockets;
}

-- The search of `allocate_socket` for a free slot, from `i` on.
unfoldable pub find_unused : ℕ → ℕ → NetServer → Option ℕ
find_unused zero i s = none
find_unused (suc n) i s =
    let rest = find_unused n (suc i) s in if not (s.sockets i).in_use then some i else rest

-- What `allocate_socket` does with the slot that it found.
unfoldable pub allocate_in : ℤ → ℤ → NetServer → Option ℕ → NetServer × ℤ
allocate_in client_pid type s none = (s, negsuc 0)
allocate_in client_pid type s (some i) = (
  record s {
    sockets = update s.sockets i (record (s.sockets i) {
      sock_id = s.next_socket_id;
      owner_pid = client_pid;
      type = type;
      state = closed;
      in_use = true;
      rx_head = 0;
      rx_tail = 0;
      rx_count = 0;
    });
    next_socket_id = (s.next_socket_id + 1) % 2 ^ 32;
  },
  signed32 s.next_socket_id,
)

unfoldable pub allocate_socket : ℤ → ℤ → NetServer → NetServer × ℤ
unfolding find_unused allocate_in
allocate_socket client_pid type s = allocate_in client_pid type s (find_unused server_sockets 0 s)

unfoldable pub find_from : ℕ → ℕ → ℤ → NetServer → Option ℕ
find_from zero i id s = none
find_from (suc n) i id s =
    let rest = find_from n (suc i) id s in
    if (s.sockets i).in_use && low_bits (2 ^ 32) id == (s.sockets i).sock_id then some i else rest

-- The slot of a socket, or none for null.
unfoldable pub find_socket : ℤ → NetServer → Option ℕ
unfolding find_from
find_socket id s = find_from server_sockets 0 id s

-- A write to the socket in slot `i`.
abbrev pub put : ℕ → NetSocket → NetServer → NetServer
put i sock s = record s { sockets = update s.sockets i sock }

-- What a function does without a socket, and with the one in a slot.
abbrev pub with_socket {ℓ} : {A : Type ℓ} → Option ℕ → A → (ℕ → A) → A
with_socket none x f = x
with_socket (some i) x f = f i

unfoldable pub close_socket : ℤ → NetServer → NetServer
close_socket id s =
    with_socket (find_socket id s) s
      λ i. put i (record (s.sockets i) { in_use = false; state = closed }) s

unfoldable pub bind_socket : ℤ → ℕ → ℕ → NetServer → NetServer × ℤ
bind_socket id ip port s =
    with_socket (find_socket id s) (s, negsuc 0)
      λ i.
        (put i (record (s.sockets i) { local_ip = ip; local_port = port; state = bound }) s, pos 0)

unfoldable pub listen_socket : ℤ → NetServer → NetServer × ℤ
listen_socket id s =
    with_socket (find_socket id s) (s, negsuc 0)
      λ i.
        if not (is_int (s.sockets i).type 1)
        then (s, negsuc 0)
        else (put i (record (s.sockets i) { state = listening }) s, pos 0)

unfoldable pub connect_socket : ℤ → ℕ → ℕ → NetServer → NetServer × ℤ
connect_socket id ip port s =
    with_socket (find_socket id s) (s, negsuc 0)
      λ i. if not (is_int (s.sockets i).type 1) then (s, negsuc 0) else (
        put i (record (s.sockets i) { remote_ip = ip; remote_port = port; state = connected }) s,
        pos 0,
      )

-- `result` is what `syscall_net_send` returns, if it is called.
unfoldable pub send_socket_data : ℤ → ℤ → NetServer → ℤ
send_socket_data id result s =
    with_socket (find_socket id s) (negsuc 0)
      λ i. if not (is_connected (s.sockets i).state) then negsuc 0 else result
