-- ===== src/NetServer/Handler.antt =====
-- server/net_srv.c: the handler of client messages and a round of the main loop. A message is read as `int` words, so that
-- word `i` is the one at byte 4 * i. `sent` is what `syscall_net_send` returns, if it is called.
use hydra_microkernal.Prelude.{
  ℕ, suc, ◌^◌, not, Option, none, some, ℤ, pos, negsuc, is_int, is_above, is_at_least, low_bits,
  less_header, ltb, if◌then◌else◌, Bytes, List, [], ◌∷◌,
}
use hydra_microkernal.NetServer.{
  NetServer, net_server_init, allocate_socket, bind_socket, listen_socket, connect_socket,
  send_socket_data, close_socket,
}
use hydra_microkernal.NetServer.Rx.{recv_socket_data, process_network_packets}

-- What `syscall_send_msg` is called with: the response, or received bytes and their number.
pub data Reply : Type 0 where
  response : ℤ → Reply
  received : Bytes → ℤ → Reply

-- `(max_len < sizeof(recv_buffer)) ? max_len : sizeof(recv_buffer)`: the comparison is one of unsigned numbers, where a
-- negative one is large.
abbrev pub at_most_1024 : ℤ → ℤ
at_most_1024 (pos n) = if ltb n 1024 then pos n else pos 1024
at_most_1024 (negsuc n) = pos 1024

abbrev pub responds : NetServer × ℤ → NetServer × Reply
responds (s, result) = (s, response result)

-- `case 6`, behind the check of the size.
unfoldable pub recv_command : ℤ → ℤ → Bytes → NetServer → NetServer × Reply
recv_command sock_id max_len buffer s =
    let (s', buf, size) = recv_socket_data sock_id buffer (at_most_1024 max_len) s in
    if is_above size 0 then (s', received buf size) else (s', response size)

-- The cases of the handler: `least` is the size that a case asks for.
abbrev pub case_of : ℤ → ℕ → NetServer → NetServer × Reply → NetServer × Reply
case_of msg_size least s run = if is_at_least msg_size least then run else (s, response (negsuc 0))

-- The reply goes to the sender. `buffer` is the new array that `case 6` receives into.
unfoldable pub handle_command : ℤ → (ℕ → ℤ) → ℤ → ℤ → Bytes → NetServer → NetServer × Reply
handle_command sender_pid words msg_size sent buffer s =
    if is_int (words 0) 1
    then case_of msg_size 8 s (responds (allocate_socket sender_pid (words 1) s))
    else if is_int (words 0) 2
    then case_of msg_size 16 s (
        responds
          (bind_socket (words 1) (low_bits (2 ^ 32) (words 2)) (low_bits (2 ^ 16) (words 3)) s))
    else if is_int (words 0) 3
    then case_of msg_size 12 s (responds (listen_socket (words 1) s))
    else if is_int (words 0) 4
    then case_of msg_size 16 s (
        responds
          (connect_socket (words 1) (low_bits (2 ^ 32) (words 2)) (low_bits (2 ^ 16) (words 3)) s))
    else if is_int (words 0) 5
    then case_of msg_size 16 s (s, response (send_socket_data (words 1) sent s))
    else if is_int (words 0) 6
    then case_of msg_size 12 s (recv_command (words 1) (words 2) buffer s)
    else if is_int (words 0) 7
    then case_of msg_size 8 s (close_socket (words 1) s, response (pos 0))
    else (s, response (negsuc 0))

abbrev pub replies : NetServer × Reply → NetServer × Option Reply
replies (s, r) = (s, some r)

unfoldable pub net_handle_client_message :
    ℤ → (ℕ → ℤ) → ℤ → ℤ → Bytes → NetServer → NetServer × Option Reply
unfolding handle_command
net_handle_client_message sender_pid words msg_size sent buffer s =
    if not (is_at_least msg_size 4)
    then (s, none)
    else replies (handle_command sender_pid words msg_size sent buffer s)

-- A round of the loop of `net_server_main`: `msg_size` and `words` are what `syscall_recv_msg` gave, `packet_len` and
-- `packet` what `syscall_net_recv` gives behind it.
unfoldable pub net_round :
    (ℕ → ℤ) → ℤ → ℤ → Bytes → Bytes → ℤ → NetServer → NetServer × Option Reply
net_round words msg_size sent buffer packet packet_len s =
    let (s', reply) =
      if is_above msg_size 0
      then net_handle_client_message (words 0) (λ i. words (suc i)) (less_header msg_size) sent
          buffer s
      else (s, none) in
    (process_network_packets packet packet_len s', reply)

-- What the system calls of a round give.
pub record Round : Type 0 where
  pub words : ℕ → ℤ
  pub msg_size : ℤ
  pub sent : ℤ
  pub buffer : Bytes
  pub packet : Bytes
  pub packet_len : ℤ

unfoldable pub rounds_from : List Round → NetServer → NetServer
unfolding net_round
rounds_from [] s = s
rounds_from (r ∷ rs) s =
    rounds_from rs (net_round r.words r.msg_size r.sent r.buffer r.packet r.packet_len s).0

-- `net_server_main` after the given rounds of its loop, which nothing ends: no code clears `active`.
unfoldable pub net_server_main : ℤ → List Round → NetServer → NetServer
unfolding net_server_init rounds_from
net_server_main pid rounds s = rounds_from rounds (net_server_init pid s)
