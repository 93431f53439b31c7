-- ===== src/Sender/Tests.antt =====
-- The theorems about apps/image_sender.c at small inputs.
use hydra_microkernal.Prelude.{ℕ, ◌≤◌, ℤ, pos, pos_part, arith, ltb, if◌then◌else◌}
use hydra_microkernal.Socket.{Sockets, sock_connected}
use hydra_microkernal.Sender.{chunk_size, send_http_data}
use hydra_microkernal.Sender.Chunks.{IsSent, send_http_data-IsSent}

-- Descriptor 1 is connected.
abbrev connected : Sockets
connected = λ i. record {
  type = pos 1;
  state = sock_connected;
  local_port = 80;
  local_addr = 0;
  remote_port = 8080;
  remote_addr = 0;
}

-- The server takes at most 400 bytes of a chunk.
abbrev takes_some : ℕ → ℕ → ℤ
takes_some o n = pos (if ltb n 400 then n else 400)

takes_some-le : (o n : ℕ) → pos_part (takes_some o n) ≤ n
takes_some-le o n = ground arith

send_http_data-IsSent_example :
    IsSent chunk_size 1000 0 (send_http_data 1001 (pos 1) takes_some 1000 connected)
send_http_data-IsSent_example =
    send_http_data-IsSent 1001 (pos 1) takes_some 1000 connected takes_some-le (omega arith)
