-- ===== src/Hydra.antt =====
-- lib/libhydra: the wrappers of system calls in syscall_user.c, and the messages of ipc.c. The wrappers call the dispatcher
-- of kernal/syscall.c; `none` means that its scheduler ran out of fuel. Local variables of a function stand in user memory, at
-- an address that is an argument. Integers in memory have four bytes, the lowest first.
pub mod Console
pub mod Clients
pub mod Capability
pub mod Refused
pub mod Rights
pub mod Requests
mod Tests
use hydra_microkernal.Prelude.{
  ℕ, zero, suc, ◌+◌, ◌*◌, ◌/◌, ◌%◌, ◌^◌, Option, none, some, ℤ, pos, negsuc, is_neg, is_above,
  low_bits, signed32, to_int, ltb, if◌then◌else◌, update, Bytes,
}
use hydra_microkernal.Kernel.{Kernel, handle_syscall}

-- The `int` that a wrapper returns.
abbrev pub as_int : Option (Kernel × ℤ) → Option (Kernel × ℤ)
as_int none = none
as_int (some (k, x)) = some (k, to_int x)

-- A wrapper without a result.
abbrev pub no_result : Option (Kernel × ℤ) → Option Kernel
no_result none = none
no_result (some (k, x)) = some k

module _ (tasks_base : ℕ) where
  unfoldable pub syscall_send_msg : ℤ → ℤ → ℤ → Kernel → Option (Kernel × ℤ)
  syscall_send_msg receiver_pid src size k =
      as_int (handle_syscall tasks_base (pos 1) receiver_pid src size k)

  unfoldable pub syscall_recv_msg : ℤ → ℤ → ℤ → Kernel → Option (Kernel × ℤ)
  syscall_recv_msg sender_pid buffer max_size k =
      as_int (handle_syscall tasks_base (pos 2) sender_pid buffer max_size k)

  unfoldable pub syscall_net_send : ℤ → ℤ → Kernel → Option (Kernel × ℤ)
  syscall_net_send src size k = as_int (handle_syscall tasks_base (pos 3) src size (pos 0) k)

  unfoldable pub syscall_net_recv : ℤ → ℤ → Kernel → Option (Kernel × ℤ)
  syscall_net_recv buffer max_size k =
      as_int (handle_syscall tasks_base (pos 4) buffer max_size (pos 0) k)

  unfoldable pub syscall_get_pid : Kernel → Option (Kernel × ℤ)
  syscall_get_pid k = as_int (handle_syscall tasks_base (pos 5) (pos 0) (pos 0) (pos 0) k)

  unfoldable pub syscall_yield : Kernel → Option Kernel
  syscall_yield k = no_result (handle_syscall tasks_base (pos 6) (pos 0) (pos 0) (pos 0) k)

  unfoldable pub syscall_create_task : ℤ → Kernel → Option (Kernel × ℤ)
  syscall_create_task entry_point k =
      as_int (handle_syscall tasks_base (pos 7) entry_point (pos 0) (pos 0) k)

  unfoldable pub syscall_exit : Kernel → Option Kernel
  syscall_exit k = no_result (handle_syscall tasks_base (pos 8) (pos 0) (pos 0) (pos 0) k)

-- `sizeof(struct ipc_message)`: four integers and 256 bytes
abbrev pub ipc_message_size : ℕ
ipc_message_size = 272

abbrev pub write_int : Bytes → ℕ → ℤ → Bytes
write_int memory a x =
    let w = low_bits (2 ^ 32) x in
    update
      (update (update (update memory a (w % 256)) (a + 1) (w / 256 % 256)) (a + 2)
        (w / 65536 % 256))
      (a + 3) (w / 16777216)

abbrev pub read_int : Bytes → ℕ → ℤ
read_int memory a =
    signed32 (memory a + memory (a + 1) * 256 + memory (a + 2) * 65536 + memory (a + 3) * 16777216)

-- The loop `for (i = 0; i < n; i++) dst[i] = src[i]` on two places of one memory, from `i` on.
unfoldable pub copy_in : ℕ → ℕ → ℕ → ℕ → Bytes → Bytes
copy_in zero i dst src memory = memory
copy_in (suc n) i dst src memory =
    copy_in n (suc i) dst src (update memory (dst + i) (memory (src + i)))

-- The fields of the message at `msg`.
unfoldable pub fill_message : ℕ → ℤ → ℤ → ℤ → ℕ → ℕ → Bytes → Bytes
unfolding copy_in
fill_message msg pid receiver msg_type src size memory = copy_in size 0 (msg + 16) src (
    write_int
      (write_int (write_int (write_int memory msg pid) (msg + 4) receiver) (msg + 8) msg_type)
      (msg + 12) (to_int (pos size)))

-- `(msg.data_size < max_size) ? msg.data_size : max_size`, a comparison of unsigned numbers
abbrev pub copy_size : ℤ → ℕ → ℕ
copy_size data_size max_size =
    if ltb (low_bits (2 ^ 64) data_size) max_size then low_bits (2 ^ 64) data_size else max_size

module _ (tasks_base msg : ℕ) where
  unfoldable pub ipc_send_message : ℤ → ℤ → ℕ → ℕ → Kernel → Option (Kernel × ℤ)
  unfolding syscall_get_pid syscall_send_msg
  ipc_send_message receiver msg_type src size k =
      if ltb 256 size then some (k, negsuc 0) else elim (syscall_get_pid tasks_base k) [
        | none ↦ none
        | some (k', pid) ↦
            syscall_send_msg tasks_base receiver (pos msg) (pos ipc_message_size)
              (record k' { memory = fill_message msg pid receiver msg_type src size k'.memory })
      ]

  -- What `ipc_receive_message` does with what was received.
  unfoldable pub take_message_data : ℕ → ℕ → ℕ → Kernel × ℤ → Kernel × ℤ
  take_message_data msg_type buffer max_size (k, result) =
      if is_above result 0
      then (
        record k {
          memory =
              copy_in (copy_size (read_int k.memory (msg + 12)) max_size) 0 buffer (msg + 16)
                (write_int k.memory msg_type (read_int k.memory (msg + 8)));
        },
        to_int (pos (copy_size (read_int k.memory (msg + 12)) max_size)),
      )
      else (k, result)

  unfoldable pub ipc_receive_message : ℤ → ℕ → ℕ → ℕ → Kernel → Option (Kernel × ℤ)
  ipc_receive_message sender msg_type buffer max_size k =
      elim (syscall_recv_msg tasks_base sender (pos msg) (pos ipc_message_size) k) [
        | none ↦ none
        | some run ↦ some (take_message_data msg_type buffer max_size run)
      ]

  -- `msg_type` is the address of the local variable, and MSG_TYPE_REQUEST is 2.
  unfoldable pub send_request : ℤ → ℕ → ℕ → ℕ → ℕ → ℕ → Kernel → Option (Kernel × ℤ)
  unfolding ipc_send_message
  send_request server request req_size msg_type response max_resp_size k =
      elim (ipc_send_message server (pos 2) request req_size k) [
        | none ↦ none
        | some (k', result) ↦
            if is_neg result
            then some (k', result)
            else ipc_receive_message server msg_type response max_resp_size k'
      ]
