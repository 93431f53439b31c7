-- ===== src/NetServer/Messages.antt =====
-- What the server of server/net_srv.c does with the messages of its client functions.
use hydra_microkernal.Prelude.{
  true, ℕ, ◌+◌, ◌≤◌, ◌<◌, ◌≡◌, refl, ap, length, length-append, length-slice, length-window, sym,
  ◌∙◌, some, ℤ, pos, negsuc, is_above, if◌then◌else◌, Bytes, slice, false, dec_lt, ltb, arith,
}
use hydra_microkernal.Ipc.{Ipc, send_message}
use hydra_microkernal.Ipc.Calls.{send_message_large}
use hydra_microkernal.NetServer.{
  NetSocket, NetServer, server_sockets, allocate_socket, send_socket_data,
}
use hydra_microkernal.NetServer.Rx.{rx_size, process_network_packets, recv_socket_data, recv_at}
use hydra_microkernal.NetServer.Handler.{
  Reply, response, received, handle_command, net_handle_client_message, net_round, recv_command,
  at_most_1024,
}
use hydra_microkernal.NetServer.Ids.{IsServer}
use hydra_microkernal.NetServer.Buffer.{IsBuffer, waiting}
use hydra_microkernal.NetServer.Taking.{recv_at-IsBuffer, given}
use hydra_microkernal.NetServer.Rounds.{find_socket-IsServer}
use hydra_microkernal.NetServer.Clients.{socket_words, bind_words, send_words, send_size}

size_short : (len : ℕ) → len < 240 → send_size (pos len) ≡ pos (16 + len)
size_short len h = ground arith

size_long : (len : ℕ) → 240 ≤ len → send_size (pos len) ≡ pos (16 + 240)
size_long len h = ground arith

not_short : (len : ℕ) → 4 ≤ len → ltb len 4 ≡ false
not_short len h = ground arith

module _ (buffer packet : Bytes) (packet_len sent : ℤ) (s : NetServer) where
  -- A round that treats the message of `net_socket` makes a socket for the client and answers with its number, or with -1
  -- where the table is full.
  pub net_round-socket :
      (pid type : ℤ)
      → net_round (socket_words pid type) (pos 12) sent buffer packet packet_len s ≡ (
        process_network_packets packet packet_len (allocate_socket pid type s).0,
        some (response (allocate_socket pid type s).1),
      )
  unfolding net_round net_handle_client_message handle_command
  net_round-socket pid type = refl

  -- A round that treats the message of `net_bind` answers -1 and binds nothing, whatever socket, address and port it names:
  -- the message has three words behind the process id, and the server asks for four.
  pub net_round-bind :
      (pid sock_id : ℤ) (ip port : ℕ)
      → net_round (bind_words pid sock_id ip port) (pos 16) sent buffer packet packet_len s
        ≡ (process_network_packets packet packet_len s, some (response (negsuc 0)))
  unfolding net_round net_handle_client_message handle_command
  net_round-bind pid sock_id ip port = refl

  sized_send :
      (pid sock_id len : ℤ) (m : ℕ)
      → net_round (send_words pid sock_id len) (pos (16 + m)) sent buffer packet packet_len s ≡ (
        process_network_packets packet packet_len s,
        some (response (if ltb m 4 then negsuc 0 else send_socket_data sock_id sent s)),
      )
  unfolding net_round net_handle_client_message handle_command
  sized_send pid sock_id len m = ground arith

  -- A round that treats the message of `net_socket_send` with `len` bytes sends on the socket, if `len` is at least 4, and
  -- refuses a shorter one.
  pub net_round-send :
      (pid sock_id : ℤ) (len : ℕ)
      → net_round
          (send_words pid sock_id (pos len))
          (send_size (pos len))
          sent
          buffer
          packet
          packet_len
          s
        ≡ (
          process_network_packets packet packet_len s,
          some (response (if ltb len 4 then negsuc 0 else send_socket_data sock_id sent s)),
        )
  net_round-send pid sock_id len = elim (dec_lt len 240) [
    | yes p ↦ rw (size_short len p) (sized_send pid sock_id (pos len) len)
    | no p ↦
        rw (size_long len (omega arith))
          (sized_send pid sock_id (pos len) 240 ∙ rw (not_short len (omega arith)) refl)
  ]

-- Bytes that the server took for a client and that do not reach it: the reply has them all, every message pool
-- refuses it, and fewer bytes wait.
pub record IsLost (count : ℕ) (reply : Reply) (after : NetSocket) : Type 0 where
  size : ℕ
  out : Bytes
  replied : reply ≡ received out (pos size)
  refused : (t : Ipc) (from to : ℤ) → send_message t from to (some out) (pos size) ≡ (t, negsuc 0)
  taken : length (waiting after) + size ≡ count
  some_taken : 256 < size

recv_at-IsLost :
    (k m : ℕ) (buffer : Bytes) (s : NetServer)
    → IsBuffer (s.sockets k)
    → 256 < (s.sockets k).rx_count
    → 256 < m
    → let run = recv_at k buffer (pos m) s in
      IsLost (s.sockets k).rx_count (received run.1 run.2) (run.0.sockets k)
recv_at-IsLost k m buffer s v h h' =
    let run = recv_at k buffer (pos m) s in
    let r = recv_at-IsBuffer k m buffer s v in
    let sock = s.sockets k in
    let n = given (s.sockets k) m in
    let large : 256 < given (s.sockets k) m = ground arith in
    record {
      size = given (s.sockets k) m;
      out = run.1;
      replied = ap (received run.1) r.1;
      refused =
          λ t from to. send_message_large t from to (some run.1) (given (s.sockets k) m) large;
      taken = omega (
        arith,
        sym (length-window rx_size sock.rx_buffer sock.rx_tail sock.rx_count)
            ∙ ap length r.2
            ∙ length-append (slice n 0 run.1) (waiting (run.0.sockets k)),
        length-slice n 0 run.1,
      );
      some_taken = large;
    }

reads-some :
    (k m : ℕ) (buffer : Bytes) (s : NetServer)
    → IsBuffer (s.sockets k)
    → 256 < (s.sockets k).rx_count
    → 256 < m
    → is_above (recv_at k buffer (pos m) s).2 0 ≡ true
reads-some k m buffer s v h h' = rw (recv_at-IsBuffer k m buffer s v).1 (ground arith)

at_most-pos : (n : ℕ) → at_most_1024 (pos n) ≡ pos (if ltb n 1024 then n else 1024)
at_most-pos n = ground arith

at_most-large : (n : ℕ) → 256 < n → 256 < (if ltb n 1024 then n else 1024)
at_most-large n h = ground arith

-- In a well-formed table, `case 6` for a client that asks a socket in use with more than 256 waiting bytes for more than 256: the server takes the bytes
-- out of the socket's buffer and replies with all of them at once, and `send_message` of kernal/ipc.c refuses the reply, so that
-- they are lost.
pub recv_command-IsLost :
    {ids : ℕ} (s : NetServer) (k n : ℕ) (buffer : Bytes)
    → IsServer ids s
    → k < server_sockets
    → (s.sockets k).in_use ≡ true
    → 256 < (s.sockets k).rx_count
    → 256 < n
    → let run = recv_command (pos (s.sockets k).sock_id) (pos n) buffer s in
      IsLost (s.sockets k).rx_count run.1 (run.0.sockets k)
unfolding recv_command recv_socket_data
recv_command-IsLost s k n buffer v h u more asked =
    let m = if ltb n 1024 then n else 1024 in
    let lost = recv_at-IsLost k m buffer s (v.buffers k h) more (at_most-large n asked) in
    let some_bytes = reads-some k m buffer s (v.buffers k h) more (at_most-large n asked) in
    rw (find_socket-IsServer s k v h u, at_most-pos n, some_bytes) lost
