-- ===== src/NetServer/Tests.antt =====
-- Runs of the network server's functions at small inputs.
use hydra_microkernal.Prelude.{
  ℕ, ◌+◌, ◌<◌, ◌≡◌, refl, pos, negsuc, none, some, true, false, [], ◌∷◌, ◌++◌, take, prefix, slice,
  ◌==◌, if◌then◌else◌, arith,
}
use hydra_microkernal.NetServer.{
  server_sockets, NetSocket, NetServer, closed, net_server_init, allocate_socket, find_socket,
  close_socket, connect_socket, send_socket_data,
}
use hydra_microkernal.NetServer.Rx.{
  rx_size, socket_add_rx_data, recv_at, find_connected, process_network_packets,
}
use hydra_microkernal.NetServer.Handler.{
  Round, net_handle_client_message, net_server_main, recv_command,
}
use hydra_microkernal.NetServer.Buffer.{IsBuffer, waiting, socket_add_rx_data-IsBuffer}
use hydra_microkernal.NetServer.Taking.{given, recv_at-IsBuffer}
use hydra_microkernal.NetServer.Ids.{IsServer}
use hydra_microkernal.NetServer.Rounds.{net_server_main-IsServer}
use hydra_microkernal.NetServer.Messages.{IsLost, recv_command-IsLost}
use hydra_microkernal.NetServer.Clients.{socket_words}

abbrev blank : NetSocket
blank = record {
  sock_id = 0;
  owner_pid = pos 0;
  type = pos 0;
  state = closed;
  local_ip = 0;
  local_port = 0;
  remote_ip = 0;
  remote_port = 0;
  rx_buffer = λ i. 0;
  rx_head = 1023;
  rx_tail = 1023;
  rx_count = 0;
  in_use = true;
}

abbrev before : NetServer
before = record { server_pid = pos 0; sockets = λ i. blank; next_socket_id = 0; active = false }

abbrev one_socket : NetServer
one_socket = (allocate_socket (pos 5) (pos 1) (net_server_init (pos 4) before)).0

first_id : (allocate_socket (pos 5) (pos 1) (net_server_init (pos 4) before)).1 ≡ pos 1
unfolding allocate_socket net_server_init
first_id = refl

found : find_socket (pos 1) one_socket ≡ some 0
unfolding allocate_socket net_server_init find_socket
found = refl

-- Data needs a connection.
not_connected : send_socket_data (pos 1) (pos 9) one_socket ≡ negsuc 0
unfolding allocate_socket net_server_init send_socket_data find_socket
not_connected = refl

through : send_socket_data (pos 1) (pos 9) (connect_socket (pos 1) 7 80 one_socket).0 ≡ pos 9
unfolding allocate_socket net_server_init connect_socket send_socket_data find_socket
through = refl

gone : find_socket (pos 1) (close_socket (pos 1) one_socket) ≡ none
unfolding allocate_socket net_server_init close_socket find_socket
gone = refl

-- The buffer wraps around.
wrapped : (socket_add_rx_data (λ i. i) (pos 2) blank).rx_head ≡ 1
unfolding socket_add_rx_data
wrapped = refl

blank-IsBuffer : IsBuffer blank
blank-IsBuffer = record { room = omega arith; start = omega arith; end = refl }

-- Three bytes into the empty ring, across its end.
socket_add_rx_data-IsBuffer_example :
    IsBuffer (socket_add_rx_data (λ i. i + 5) (pos 3) blank)
    × (waiting (socket_add_rx_data (λ i. i + 5) (pos 3) blank)
        ≡ take rx_size (waiting blank ++ prefix 3 (λ i. i + 5)))
socket_add_rx_data-IsBuffer_example =
    socket_add_rx_data-IsBuffer (λ i. i + 5) (pos 3) blank blank-IsBuffer

abbrev holding : NetServer
holding = record before { sockets = λ i. socket_add_rx_data (λ i. i + 5) (pos 3) blank }

recv_at-IsBuffer_example :
    let (s', out, size) = recv_at 4 (λ i. 0) (pos 2) holding in
    IsBuffer (s'.sockets 4)
    × (size ≡ pos (given (holding.sockets 4) 2))
    × (waiting (holding.sockets 4)
        ≡ slice (given (holding.sockets 4) 2) 0 out ++ waiting (s'.sockets 4))
recv_at-IsBuffer_example =
    recv_at-IsBuffer 4 2 (λ i. 0) holding socket_add_rx_data-IsBuffer_example.0

-- A client makes a socket and connects it; then a packet of 300 bytes comes.
abbrev first : Round
first = record {
  words = socket_words (pos 6) (pos 1);
  msg_size = pos 12;
  sent = pos 0;
  buffer = λ i. 0;
  packet = λ i. 0;
  packet_len = pos 0;
}

abbrev second : Round
second = record {
  words = λ i. if i == 0 then pos 6 else if i == 1 then pos 4 else if i == 2 then pos 1 else pos 80;
  msg_size = pos 20;
  sent = pos 0;
  buffer = λ i. 0;
  packet = λ i. 7;
  packet_len = pos 300;
}

abbrev running : NetServer
running = net_server_main (pos 4) (first ∷ second ∷ []) before

net_server_main-IsServer_example :
    IsServer 3 running
    × ((k : ℕ)
        → k < server_sockets
        → (running.sockets k).in_use ≡ true
        → find_socket (pos (running.sockets k).sock_id) running ≡ some k)
net_server_main-IsServer_example =
    net_server_main-IsServer (pos 4) (first ∷ second ∷ []) before (omega arith)

is_used : (running.sockets 0).in_use ≡ true
unfolding net_server_main process_network_packets find_connected net_handle_client_message
    connect_socket find_socket allocate_socket socket_add_rx_data
is_used = refl

many : (running.sockets 0).rx_count ≡ 300
unfolding net_server_main process_network_packets find_connected net_handle_client_message
    connect_socket find_socket allocate_socket socket_add_rx_data
many = refl

recv_command-IsLost_example :
    let run = recv_command (pos (running.sockets 0).sock_id) (pos 1024) (λ i. 0) running in
    IsLost (running.sockets 0).rx_count run.1 (run.0.sockets 0)
recv_command-IsLost_example =
    recv_command-IsLost running 0 1024 (λ i. 0) net_server_main-IsServer_example.0 (omega arith)
      is_used (omega (arith, many)) (omega arith)
