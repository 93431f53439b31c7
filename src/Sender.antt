-- ===== src/Sender.antt =====
-- apps/image_sender.c: the loops that send data in chunks, and the test pattern. What the server of sockets answers
-- to a call is a function of the offset and the size of the chunk. The loops take fuel, and `none` means that it ran out. Log output
-- is left out.
pub mod Chunks
pub mod Pattern
mod Tests
use hydra_microkernal.Prelude.{
  ℕ, zero, suc, ◌+◌, ◌-◌, ◌*◌, ◌/◌, ◌%◌, ◌^◌, Option, none, some, ℤ, is_nonpos, pos_part, List, [],
  ◌∷◌, ltb, if◌then◌else◌, update, Bytes,
}
use hydra_microkernal.Socket.{Sockets, send, sendto}

-- A call of `send` or `sendto`: the part of the data that it is given, and its result.
pub record Call : Type 0 where
  pub offset : ℕ
  pub size : ℕ
  pub result : ℤ

-- The size of the next chunk: CHUNK_SIZE, or what is left.
abbrev pub next_size : ℕ → ℕ → ℕ → ℕ
next_size chunk data_size sent = if ltb chunk (data_size - sent) then chunk else data_size - sent

-- What a round adds to the calls and to the end of the loop.
abbrev pub with_call : Call → Option (ℕ × List Call) → Option (ℕ × List Call)
with_call c none = none
with_call c (some (sent, calls)) = some (sent, c ∷ calls)

-- `while (sent < data_size)`: the offset where the loop ends, and its calls. `reply` gives the result of a call.
unfoldable pub send_chunks : ℕ → ℕ → (ℕ → ℕ → ℤ) → ℕ → ℕ → Option (ℕ × List Call)
send_chunks zero chunk reply data_size sent = none
send_chunks (suc fuel) chunk reply data_size sent =
    let size = next_size chunk data_size sent in
    let result = reply sent size in
    let call : Call = record { offset = sent; size = size; result = result } in
    let rest = send_chunks fuel chunk reply data_size (sent + pos_part result) in
    if ltb sent data_size
    then if is_nonpos result then some (sent, call ∷ []) else with_call call rest
    else some (sent, [])

-- CHUNK_SIZE
abbrev pub chunk_size : ℕ
chunk_size = 512

-- The data of `send_http_response`; `answer` is what the system call returns, if it is made.
unfoldable pub send_http_data : ℕ → ℤ → (ℕ → ℕ → ℤ) → ℕ → Sockets → Option (ℕ × List Call)
unfolding send_chunks send
send_http_data fuel client_sock answer data_size t =
    send_chunks fuel chunk_size (λ o n. send client_sock (answer o n) t) data_size 0

-- `test_size`
abbrev pub test_size : ℕ
test_size = 576

-- The data of `udp_image_broadcast_demo`.
unfoldable pub send_udp_data : ℕ → ℤ → (ℕ → ℕ → ℤ) → Sockets → Option (ℕ × List Call)
unfolding send_chunks sendto
send_udp_data fuel udp_sock answer t =
    send_chunks fuel 64 (λ o n. sendto udp_sock (answer o n) t) test_size 0

-- A pixel of the test pattern at `test_image[i]`.
abbrev pub put_pixel : ℕ → ℕ → ℕ → Bytes → Bytes
put_pixel x y i image =
    update (update (update image i (x * 255 / 16 % 256)) (i + 1) (y * 255 / 12 % 256)) (i + 2)
      ((x + y) * 255 / 28 % 256)

-- The inner loop from `x` on, with `n` rounds left, and the outer loop from `y` on.
unfoldable pub put_row : ℕ → ℕ → ℕ → ℕ → Bytes → Bytes
put_row zero x y i image = image
put_row (suc n) x y i image = put_row n (suc x) y (i + 3) (put_pixel x y i image)

unfoldable pub put_rows : ℕ → ℕ → ℕ → Bytes → Bytes
unfolding put_row
put_rows zero y i image = image
put_rows (suc n) y i image = put_rows n (suc y) (i + 48) (put_row 16 0 y i image)

unfoldable pub test_pattern : Bytes → Bytes
unfolding put_rows
test_pattern image = put_rows 12 0 0 image
