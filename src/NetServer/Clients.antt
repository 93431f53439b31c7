-- ===== src/NetServer/Clients.antt =====
-- server/net_srv.c: the client functions, by the results of the system calls that they make, and their messages. Word 0 is
-- the client's process id, which `syscall_get_pid` gives.
use hydra_microkernal.Prelude.{
  ℕ, ◌+◌, ◌-◌, ◌*◌, ◌%◌, ◌^◌, Option, ℤ, pos, negsuc, pos_part, signed32, ltb, ◌==◌, if◌then◌else◌,
  Bytes, copy_bytes,
}
use hydra_microkernal.Retry.{send_retries, received_or}

-- Three words, sent with their size of 12 bytes.
abbrev pub socket_words : ℤ → ℤ → ℕ → ℤ
socket_words pid type i = if i == 0 then pid else if i == 1 then pos 1 else type

-- Four words, sent with their size of 16 bytes; `port` has 16 bits, so that `|` adds it.
abbrev pub bind_words : ℤ → ℤ → ℕ → ℕ → ℕ → ℤ
bind_words pid sock_id ip port i =
    if i == 0
    then pid
    else if i == 1
    then pos 2
    else if i == 2
    then sock_id
    else signed32 (ip * 2 ^ 16 % 2 ^ 32 + port)

-- Four words, and the bytes behind them.
abbrev pub send_words : ℤ → ℤ → ℤ → ℕ → ℤ
send_words pid sock_id len i =
    if i == 0 then pid else if i == 1 then pos 5 else if i == 2 then sock_id else len

-- `copy_len`: `(len < 240) ? len : 240`
abbrev pub client_copy_len : ℤ → ℤ
client_copy_len (pos n) = if ltb n 240 then pos n else pos 240
client_copy_len (negsuc n) = negsuc n

-- What follows the words: `stack` is what the array held before.
unfoldable pub send_payload : Bytes → Bytes → ℤ → Bytes
unfolding copy_bytes
send_payload stack src len = copy_bytes (pos_part (client_copy_len len)) stack src

-- `16 + copy_len`
abbrev pub add_header : ℤ → ℤ
add_header (pos n) = pos (16 + n)
add_header (negsuc n) = if ltb n 16 then pos (15 - n) else negsuc (n - 16)

abbrev pub send_size : ℤ → ℤ
send_size len = add_header (client_copy_len len)

-- The client functions by what the system calls give: the results of sending, and the answer.
unfoldable pub net_socket : (ℕ → ℤ) → Option ℤ → ℤ
unfolding send_retries
net_socket sent answer = if send_retries 3 0 sent then received_or answer else negsuc 0

unfoldable pub net_bind : (ℕ → ℤ) → Option ℤ → ℤ
unfolding send_retries
net_bind sent answer = if send_retries 3 0 sent then received_or answer else negsuc 0

unfoldable pub net_socket_send : (ℕ → ℤ) → Option ℤ → ℤ
unfolding send_retries
net_socket_send sent answer = if send_retries 3 0 sent then received_or answer else negsuc 0
