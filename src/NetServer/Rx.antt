-- ===== src/NetServer/Rx.antt =====
-- server/net_srv.c: the receive buffer of a socket, a ring of 1024 bytes, and the routing of packets to it. The packet that
-- `syscall_net_recv` gives is an argument.
use hydra_microkernal.Prelude.{
  ℕ, zero, suc, ◌+◌, ◌-◌, ◌%◌, ◌&&◌, Option, none, some, ℤ, pos, negsuc, pos_part, is_above, ltb,
  ◌==◌, if◌then◌else◌, update, Bytes,
}
use hydra_microkernal.NetServer.{
  NetSocket, NetServer, server_sockets, is_connected, find_socket, put, with_socket,
}

-- `sizeof(sock->rx_buffer)`
abbrev pub rx_size : ℕ
rx_size = 1024

-- The loop of `socket_add_rx_data` from byte `i` on, with `n` rounds left.
unfoldable pub add_from : ℕ → ℕ → Bytes → NetSocket → NetSocket
add_from zero i src sock = sock
add_from (suc n) i src sock =
    let rest = add_from n (suc i) src (record sock {
      rx_buffer = update sock.rx_buffer sock.rx_head (src i);
      rx_head = (sock.rx_head + 1) % rx_size;
      rx_count = sock.rx_count + 1;
    }) in
    if ltb sock.rx_count rx_size then rest else sock

unfoldable pub socket_add_rx_data : Bytes → ℤ → NetSocket → NetSocket
unfolding add_from
socket_add_rx_data src len sock = add_from (pos_part len) 0 src sock

-- The loop of `recv_socket_data` from byte `i` on, with `n` rounds left.
unfoldable pub take_from : ℕ → ℕ → Bytes → NetSocket → Bytes × NetSocket
take_from zero i buf sock = (buf, sock)
take_from (suc n) i buf sock =
    take_from n (suc i) (update buf i (sock.rx_buffer sock.rx_tail))
      (record sock { rx_tail = (sock.rx_tail + 1) % rx_size; rx_count = sock.rx_count - 1 })

-- `(sock->rx_count < max_len) ? sock->rx_count : max_len`
abbrev pub bytes_to_copy : ℕ → ℤ → ℤ
bytes_to_copy count (pos n) = if ltb count n then pos count else pos n
bytes_to_copy count (negsuc n) = negsuc n

-- The part of `recv_socket_data` for the socket in slot `i`: the server, the buffer, and the value returned.
unfoldable pub recv_at : ℕ → Bytes → ℤ → NetServer → NetServer × Bytes × ℤ
unfolding take_from
recv_at i buffer max_len s =
    if (s.sockets i).rx_count == 0
    then (s, buffer, pos 0)
    else (let size = bytes_to_copy (s.sockets i).rx_count max_len in
        let (buf, sock) = take_from (pos_part size) 0 buffer (s.sockets i) in
        (put i sock s, buf, size))

unfoldable pub recv_socket_data : ℤ → Bytes → ℤ → NetServer → NetServer × Bytes × ℤ
unfolding recv_at
recv_socket_data id buffer max_len s =
    with_socket (find_socket id s) (s, buffer, negsuc 0) λ i. recv_at i buffer max_len s

-- The search of `process_network_packets` for a connected socket, from `i` on.
unfoldable pub find_connected : ℕ → ℕ → NetServer → Option ℕ
find_connected zero i s = none
find_connected (suc n) i s =
    let rest = find_connected n (suc i) s in
    if (s.sockets i).in_use && is_connected (s.sockets i).state then some i else rest

unfoldable pub process_network_packets : Bytes → ℤ → NetServer → NetServer
process_network_packets packet packet_len s =
    if is_above packet_len 0
    then with_socket (find_connected server_sockets 0 s) s
        (λ i. put i (socket_add_rx_data packet packet_len (s.sockets i)) s)
    else s
