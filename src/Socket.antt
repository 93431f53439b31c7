-- ===== src/Socket.antt =====
-- lib/libnet/socket.c: the table of a program's sockets, and the byte order of numbers. The result of the
-- system call that passes data to or from the network server is an argument. A descriptor counts slots from 1.
pub mod Table
pub mod Order
pub mod Inet
pub mod Parts
mod Tests
use hydra_microkernal.Prelude.{
  is_int, ℕ, zero, suc, ◌+◌, ◌-◌, ◌*◌, ◌/◌, ◌%◌, Bool, true, false, not, ◌&&◌, ◌||◌, Option, none,
  some, ℤ, pos, negsuc, is_above, is_at_least, pos_part, ◌==◌, if◌then◌else◌, update,
}

-- `struct socket_info`
pub record SocketInfo : Type 0 where
  pub type : ℤ
  pub state : ℕ
  pub local_port : ℕ
  pub local_addr : ℕ
  pub remote_port : ℕ
  pub remote_addr : ℕ

-- SOCK_CLOSED, SOCK_BOUND, SOCK_LISTENING and SOCK_CONNECTED
abbrev pub sock_closed : ℕ
sock_closed = 0

abbrev pub sock_bound : ℕ
sock_bound = 1

abbrev pub sock_listening : ℕ
sock_listening = 2

abbrev pub sock_connected : ℕ
sock_connected = 3

-- SOCK_STREAM, SOCK_DGRAM and AF_INET
abbrev pub sock_stream : ℕ
sock_stream = 1

abbrev pub sock_dgram : ℕ
sock_dgram = 2

abbrev pub af_inet : ℕ
af_inet = 2

-- MAX_SOCKETS
abbrev pub max_sockets : ℕ
max_sockets = 16

-- `struct sockaddr_in`
pub record SockaddrIn : Type 0 where
  pub sin_family : ℕ
  pub sin_port : ℕ
  pub sin_addr : ℕ

abbrev pub Sockets : Type 0
Sockets = ℕ → SocketInfo

-- The search of `socket` for a free slot from `i` on, with `n` rounds left.
unfoldable pub find_closed : ℕ → ℕ → Sockets → Option ℕ
find_closed zero i sockets = none
find_closed (suc n) i sockets =
    let rest = find_closed n (suc i) sockets in
    if (sockets i).state == sock_closed then some i else rest

-- What `socket` does with the slot that the search found.
unfoldable pub fill_slot : ℤ → Sockets → Option ℕ → Sockets × ℤ
fill_slot type sockets none = (sockets, negsuc 0)
fill_slot type sockets (some i) = (
  update sockets i (record {
    type = type;
    state = sock_closed;
    local_port = 0;
    local_addr = 0;
    remote_port = 0;
    remote_addr = 0;
  }),
  pos (i + 1),
)

unfoldable pub socket : ℤ → ℤ → Sockets → Sockets × ℤ
socket domain type sockets =
    if not (is_int domain af_inet)
    then (sockets, negsuc 0)
    else if not (is_int type sock_stream) && not (is_int type sock_dgram)
    then (sockets, negsuc 0)
    else fill_slot type sockets (find_closed max_sockets 0 sockets)

-- The check that every call with a descriptor starts with.
abbrev pub is_bad : ℤ → Bool
is_bad sockfd = not (is_at_least sockfd 1) || is_above sockfd max_sockets

-- `sockfd - 1`, for a descriptor that passed the check
abbrev pub slot : ℤ → ℕ
slot sockfd = pos_part sockfd - 1

unfoldable pub bind : ℤ → SockaddrIn → Sockets → Sockets × ℤ
bind sockfd addr_in sockets =
    if is_bad sockfd
    then (sockets, negsuc 0)
    else if (sockets (slot sockfd)).state == sock_closed
    then (sockets, negsuc 0)
    else if not (addr_in.sin_family == af_inet)
    then (sockets, negsuc 0)
    else (
      update sockets (slot sockfd) (record (sockets (slot sockfd)) {
        local_port = addr_in.sin_port;
        local_addr = addr_in.sin_addr;
        state = sock_bound;
      }),
      pos 0,
    )

unfoldable pub listen : ℤ → Sockets → Sockets × ℤ
listen sockfd sockets =
    if is_bad sockfd
    then (sockets, negsuc 0)
    else if not ((sockets (slot sockfd)).state == sock_bound)
        || not (is_int (sockets (slot sockfd)).type sock_stream)
    then (sockets, negsuc 0)
    else (
      update sockets (slot sockfd) (record (sockets (slot sockfd)) { state = sock_listening }),
      pos 0,
    )

-- The slot of an accepted connection.
abbrev pub connected_to : ℕ → ℕ → Sockets → Sockets
connected_to new_idx idx sockets = update sockets new_idx (record (sockets new_idx) {
  state = sock_connected;
  local_port = (sockets idx).local_port;
  local_addr = (sockets idx).local_addr;
})

unfoldable pub accept : ℤ → Sockets → Sockets × ℤ
accept sockfd sockets =
    if is_bad sockfd
    then (sockets, negsuc 0)
    else if not ((sockets (slot sockfd)).state == sock_listening)
    then (sockets, negsuc 0)
    else (let (sockets', new_sockfd) = socket (pos af_inet) (pos sock_stream) sockets in
        if not (is_at_least new_sockfd 0)
        then (sockets', negsuc 0)
        else (connected_to (slot new_sockfd) (slot sockfd) sockets', new_sockfd))

unfoldable pub connect : ℤ → SockaddrIn → Sockets → Sockets × ℤ
connect sockfd addr_in sockets =
    if is_bad sockfd
    then (sockets, negsuc 0)
    else if (sockets (slot sockfd)).state == sock_closed
    then (sockets, negsuc 0)
    else if not (addr_in.sin_family == af_inet)
    then (sockets, negsuc 0)
    else (
      update sockets (slot sockfd) (record (sockets (slot sockfd)) {
        remote_port = addr_in.sin_port;
        remote_addr = addr_in.sin_addr;
        state = sock_connected;
      }),
      pos 0,
    )

-- `result` is what the system call returns, if it is made.
unfoldable pub send : ℤ → ℤ → Sockets → ℤ
send sockfd result sockets =
    if is_bad sockfd
    then negsuc 0
    else if not ((sockets (slot sockfd)).state == sock_connected)
    then negsuc 0
    else result

unfoldable pub recv : ℤ → ℤ → Sockets → ℤ
recv sockfd result sockets =
    if is_bad sockfd
    then negsuc 0
    else if not ((sockets (slot sockfd)).state == sock_connected)
    then negsuc 0
    else result

unfoldable pub sendto : ℤ → ℤ → Sockets → ℤ
sendto sockfd result sockets =
    if is_bad sockfd
    then negsuc 0
    else if not (is_int (sockets (slot sockfd)).type sock_dgram)
    then negsuc 0
    else result

unfoldable pub recvfrom : ℤ → ℤ → Sockets → ℤ
recvfrom sockfd result sockets =
    if is_bad sockfd
    then negsuc 0
    else if not (is_int (sockets (slot sockfd)).type sock_dgram)
    then negsuc 0
    else result

unfoldable pub close_user_socket : ℤ → Sockets → Sockets × ℤ
close_user_socket sockfd sockets = if is_bad sockfd then (sockets, negsuc 0) else (
  update sockets (slot sockfd) (record (sockets (slot sockfd)) { state = sock_closed }),
  pos 0,
)

-- The masks and shifts, as quotients and remainders; the parts that are joined share no bit.
unfoldable pub htons : ℕ → ℕ
htons hostshort = hostshort % 256 * 256 + hostshort / 256 % 256

unfoldable pub ntohs : ℕ → ℕ
unfolding htons
ntohs netshort = htons netshort

unfoldable pub htonl : ℕ → ℕ
htonl hostlong =
    hostlong % 256 * 16777216
    + hostlong / 256 % 256 * 65536
    + hostlong / 65536 % 256 * 256
    + hostlong / 16777216 % 256

unfoldable pub ntohl : ℕ → ℕ
unfolding htonl
ntohl netlong = htonl netlong
