-- ===== src/Kernel.antt =====
-- kernal/syscall.h and kernal/syscall.c: the system calls, over the state of message passing, the scheduler and the
-- network driver. A `long` is an integer; memory is a function from addresses, and the kernel's structures are values apart from it:
-- a buffer that overlaps them is outside the model. A call that switches tasks is followed to the switch, and its result is what the
-- caller gets when it runs again. `none` means that the search of the scheduler ran out of fuel. Log output is left out.
pub mod Calls
pub mod Frame
pub mod Messages
pub mod Tests
use hydra_microkernal.Prelude.{
  ℕ, ◌+◌, ◌-◌, ◌%◌, ◌^◌, Bool, true, false, Option, none, some, ℤ, pos, negsuc, is_int, low_bits,
  to_int, ltb, leb, ◌==◌, if◌then◌else◌, Bytes,
}
use hydra_microkernal.Sched.{Sched, create_task, task_yield, sys_exit}
use hydra_microkernal.Ipc.{Ipc, send_message, recv_message}
use hydra_microkernal.Net.{Net, sys_net_send, sys_net_recv}

pub record Kernel : Type 0 where
  pub ipc : Ipc
  pub sched : Sched
  pub net : Net
  pub memory : Bytes

-- A `long` as an address.
abbrev pub address : ℤ → ℕ
address (pos n) = n
address (negsuc n) = 2 ^ 64 - 1 - n

-- The bytes behind a pointer, none for null.
abbrev pub behind : Bytes → ℤ → Option Bytes
behind memory pointer =
    if address pointer == 0 then none else some (λ i. memory (address pointer + i))

-- Memory with the bytes behind a pointer replaced.
abbrev pub overwrite : Bytes → ℤ → Bytes → Bytes
overwrite memory pointer bytes a =
    if leb (address pointer) a then bytes (a - address pointer) else memory a

abbrev pub overwrite_some : Bytes → ℤ → Option Bytes → Bytes
overwrite_some memory pointer none = memory
overwrite_some memory pointer (some bytes) = overwrite memory pointer bytes

-- SYS_SEND_MSG
unfoldable pub sys_send_msg : ℤ → ℤ → ℤ → Kernel → Kernel × ℤ
sys_send_msg arg1 arg2 arg3 k =
    let (ipc', result) =
      send_message k.ipc (pos k.sched.current_task) (to_int arg1) (behind k.memory arg2)
        (to_int arg3) in
    (record k { ipc = ipc' }, result)

-- SYS_RECV_MSG
unfoldable pub sys_recv_msg : ℤ → ℤ → ℤ → Kernel → Kernel × ℤ
sys_recv_msg arg1 arg2 arg3 k =
    let (ipc', buffer, result) =
      recv_message k.ipc (pos k.sched.current_task) (to_int arg1) (behind k.memory arg2)
        (to_int arg3) in
    (record k { ipc = ipc'; memory = overwrite_some k.memory arg2 buffer }, result)

-- SYS_NET_SEND
unfoldable pub sys_net_send_call : ℤ → Kernel → Kernel × ℤ
sys_net_send_call arg2 k =
    let (net', result) = sys_net_send (low_bits (2 ^ 16) arg2) k.net in
    (record k { net = net' }, result)

-- SYS_NET_RECV
unfoldable pub sys_net_recv_call : ℤ → ℤ → Kernel → Kernel × ℤ
sys_net_recv_call arg1 arg2 k =
    let (net', buffer, result) = sys_net_recv (λ i. k.memory (address arg1 + i)) arg2 k.net in
    (record k { net = net'; memory = overwrite k.memory arg1 buffer }, pos result)

-- SYS_CREATE_TASK
unfoldable pub sys_create_task : ℕ → ℤ → Kernel → Kernel × ℤ
sys_create_task tasks_base arg1 k =
    let (sched', result) = create_task tasks_base (address arg1) k.sched in
    (record k { sched = sched' }, result)

-- The end of SYS_YIELD and SYS_EXIT: SYSCALL_OK.
abbrev pub scheduled : Kernel → Option Sched → Option (Kernel × ℤ)
scheduled k none = none
scheduled k (some sched') = some (record k { sched = sched' }, pos 0)

unfoldable pub handle_syscall : ℕ → ℤ → ℤ → ℤ → ℤ → Kernel → Option (Kernel × ℤ)
handle_syscall tasks_base syscall_num arg1 arg2 arg3 k =
    if is_int syscall_num 1
    then some (sys_send_msg arg1 arg2 arg3 k)
    else if is_int syscall_num 2
    then some (sys_recv_msg arg1 arg2 arg3 k)
    else if is_int syscall_num 3
    then some (sys_net_send_call arg2 k)
    else if is_int syscall_num 4
    then some (sys_net_recv_call arg1 arg2 k)
    else if is_int syscall_num 5
    then some (k, pos k.sched.current_task)
    else if is_int syscall_num 6
    then scheduled k (task_yield k.sched)
    else if is_int syscall_num 7
    then some (sys_create_task tasks_base arg1 k)
    else if is_int syscall_num 8
    then scheduled k (sys_exit k.sched)
    else some (k, negsuc 0)
