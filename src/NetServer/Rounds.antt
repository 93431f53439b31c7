-- ===== src/NetServer/Rounds.antt =====
-- The rounds of the main loop of server/net_srv.c.
use hydra_microkernal.Prelude.{
  low_bits, ℕ, suc, ◌^◌, ◌<◌, ◌≡◌, refl, sym, ap, ◌∙◌, true, not, Option, none, some, ℤ, pos,
  is_int, is_above, is_at_least, less_header, ==_iff, if◌then◌else◌, Bytes, if_cases, arith, List,
  [], ◌∷◌, length, ◌%◌, ◌+◌,
}
use hydra_microkernal.NetServer.{NetServer, server_sockets, net_server_init, find_from, find_socket}
use hydra_microkernal.NetServer.Rx.{
  socket_add_rx_data, recv_socket_data, find_connected, process_network_packets,
}
use hydra_microkernal.NetServer.Handler.{
  Reply, case_of, recv_command, handle_command, net_handle_client_message, net_round, Round,
  rounds_from, net_server_main, at_most_1024,
}
use hydra_microkernal.NetServer.Buffer.{socket_add_rx_data-same, socket_add_rx_data-IsBuffer}
use hydra_microkernal.NetServer.Ids.{
  IsServer, IsServer-suc, find_from-some, find_from-none, find_connected-some, with_socket-cases,
}
use hydra_microkernal.NetServer.Edits.{
  edit, close_socket-IsServer, bind_socket-IsServer, listen_socket-IsServer,
  connect_socket-IsServer, recv_socket_data-IsServer, allocate_socket-IsServer,
}
use hydra_microkernal.NetServer.Boot.{net_server_init-IsServer}

-- In a well-formed table `find_socket` finds every socket in use by its number.
pub find_socket-IsServer :
    {ids : ℕ} (s : NetServer) (k : ℕ)
    → IsServer ids s
    → k < server_sockets
    → (s.sockets k).in_use ≡ true
    → find_socket (pos (s.sockets k).sock_id) s ≡ some k
unfolding find_socket
find_socket-IsServer s k v h u = go (find_from server_sockets 0 (pos (s.sockets k).sock_id) s) refl
  where
    same : (s.sockets k).sock_id % 2 ^ 32 ≡ (s.sockets k).sock_id
    same = omega (arith, v.fresh k h u, v.counted, v.small)

    go : (o : Option ℕ) → find_from server_sockets 0 (pos (s.sockets k).sock_id) s ≡ o → o ≡ some k
    go none e = absurd (
        ground (
          arith,
          find_from-none server_sockets 0 (pos (s.sockets k).sock_id) s k e (omega arith) h u,
          same,
        ))
    go (some j) e =
        let r = find_from-some server_sockets 0 (pos (s.sockets k).sock_id) s j e in
        ap some (
          v.unique j k r.0 h r.1 u (
            sym (sym same ∙ (==_iff ((s.sockets k).sock_id % 2 ^ 32) (s.sockets j).sock_id).0 r.2)))

-- The server that a run leaves is well formed.
record Leaves {A : Type 0} (ids : ℕ) (run : NetServer × A) : Type 0 where
  state : IsServer ids run.0

recv_command-Leaves :
    {ids : ℕ} (sock_id max_len : ℤ) (buffer : Bytes) (s : NetServer)
    → IsServer ids s
    → Leaves ids (recv_command sock_id max_len buffer s)
unfolding recv_command
recv_command-Leaves sock_id max_len buffer s v =
    let run = recv_socket_data sock_id buffer (at_most_1024 max_len) s in
    let w = recv_socket_data-IsServer v sock_id buffer (at_most_1024 max_len) in
    if_cases (Leaves _) (is_above run.2 0) (record { state = w }) (record { state = w })

module _ (sender_pid : ℤ) (words : ℕ → ℤ) (msg_size sent : ℤ) (buffer : Bytes) (s : NetServer)
    {ids : ℕ} (v : IsServer ids s) (room : suc ids < 2 ^ 31) where
  kept : IsServer (suc ids) s
  kept = IsServer-suc room v

  either :
      (n : ℕ) {x y : NetServer × Reply}
      → Leaves (suc ids) x
      → Leaves (suc ids) y
      → Leaves (suc ids) (if is_int (words 0) n then x else y)
  either n p q = if_cases (Leaves (suc ids)) (is_int (words 0) n) p q

  sized :
      (least : ℕ) {run : NetServer × Reply}
      → Leaves (suc ids) run
      → Leaves (suc ids) (case_of msg_size least s run)
  sized least w =
      if_cases (Leaves (suc ids)) (is_at_least msg_size least) w (record { state = kept })

  handle_command-Leaves : Leaves (suc ids) (handle_command sender_pid words msg_size sent buffer s)
  unfolding handle_command
  handle_command-Leaves =
      either 1 (sized 8 (record { state = allocate_socket-IsServer sender_pid (words 1) s v room }))
        (either 2
          (sized 16 (record {
            state =
                bind_socket-IsServer kept (words 1) (low_bits (2 ^ 32) (words 2))
                  (low_bits (2 ^ 16) (words 3));
          }))
          (either 3 (sized 12 (record { state = listen_socket-IsServer kept (words 1) })) (
            either 4
              (sized 16 (record {
                state =
                    connect_socket-IsServer kept (words 1) (low_bits (2 ^ 32) (words 2))
                      (low_bits (2 ^ 16) (words 3));
              }))
              (either 5 (sized 16 (record { state = kept })) (
                either 6 (sized 12 (recv_command-Leaves (words 1) (words 2) buffer s kept)) (
                  either 7 (sized 8 (record { state = close_socket-IsServer kept (words 1) }))
                    (record { state = kept })))))))

  net_handle_client_message-Leaves :
      Leaves (suc ids) (net_handle_client_message sender_pid words msg_size sent buffer s)
  unfolding net_handle_client_message
  net_handle_client_message-Leaves =
      if_cases (Leaves (suc ids)) (not (is_at_least msg_size 4)) (record { state = kept })
        (record { state = handle_command-Leaves.state })

process_network_packets-IsServer :
    {ids : ℕ} (packet : Bytes) (packet_len : ℤ) (s : NetServer)
    → IsServer ids s
    → IsServer ids (process_network_packets packet packet_len s)
unfolding process_network_packets
process_network_packets-IsServer packet packet_len s v =
    if_cases (IsServer _) (is_above packet_len 0)
      (with_socket-cases (IsServer _) (find_connected server_sockets 0 s) s _ v (λ k e.
        edit v k (socket_add_rx_data packet packet_len (s.sockets k))
          (find_connected-some server_sockets 0 s k e)
          (socket_add_rx_data-same packet packet_len (s.sockets k)).0
          (λ u. sym (socket_add_rx_data-same packet packet_len (s.sockets k)).1 ∙ u)
          (socket_add_rx_data-IsBuffer packet packet_len (s.sockets k)
            (v.buffers k (find_connected-some server_sockets 0 s k e))).0))
      v

-- Whatever message and whatever packet a round of the server's loop treats, the table stays well formed, while there is a number left:
-- sockets in use have different numbers, and every receive buffer keeps its ring.
pub net_round-IsServer :
    {ids : ℕ} (words : ℕ → ℤ) (msg_size sent : ℤ) (buffer packet : Bytes) (packet_len : ℤ)
    {s : NetServer}
    → IsServer ids s
    → suc ids < 2 ^ 31
    → IsServer (suc ids) (net_round words msg_size sent buffer packet packet_len s).0
unfolding net_round
net_round-IsServer words msg_size sent buffer packet packet_len {s} v room =
    process_network_packets-IsServer packet packet_len _
      (if_cases (Leaves _) (is_above msg_size 0)
        (net_handle_client_message-Leaves (words 0) (λ i. words (suc i)) (less_header msg_size) sent
          buffer s v room)
        (record { state = IsServer-suc room v })).state

rounds_from-IsServer :
    (rounds : List Round) {ids : ℕ} (s : NetServer) (last : ℕ)
    → ids + length rounds ≡ last
    → last < 2 ^ 31
    → IsServer ids s
    → IsServer last (rounds_from rounds s)
unfolding rounds_from
rounds_from-IsServer [] {ids} s last e room v = rw (last_is) v
  where
    last_is : last ≡ ids
    last_is = omega (arith, e)
rounds_from-IsServer (r ∷ rs) {ids} s last e room v =
    rounds_from-IsServer rs _ last (omega (arith, e)) room (
      net_round-IsServer r.words r.msg_size r.sent r.buffer r.packet r.packet_len v
        (omega (arith, e)))

-- From its start on, after fewer than 2^31 - 1 rounds with any messages and packets, the server's table is well formed: the
-- counter of socket numbers has not passed the number of rounds and 1, so that the `int` has not overflowed, sockets in use have
-- different numbers, every receive buffer keeps its ring, and `find_socket` finds each socket in use by its number.
pub net_server_main-IsServer :
    (pid : ℤ) (rounds : List Round) (s : NetServer)
    → 1 + length rounds < 2 ^ 31
    → let after = net_server_main pid rounds s in
      IsServer (1 + length rounds) after
      × ((k : ℕ)
          → k < server_sockets
          → (after.sockets k).in_use ≡ true
          → find_socket (pos (after.sockets k).sock_id) after ≡ some k)
unfolding net_server_main
net_server_main-IsServer pid rounds s room =
    let v =
      rounds_from-IsServer rounds (net_server_init pid s) (1 + length rounds) refl room
        (net_server_init-IsServer pid s) in
    (v, λ k h u. find_socket-IsServer (rounds_from rounds (net_server_init pid s)) k v h u)
