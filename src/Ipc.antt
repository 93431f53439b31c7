-- ===== src/Ipc.antt =====
-- kernal/ipc.h and kernal/ipc.c: message queues over a pool of messages linked by pointers.
-- `current_task` of kernal/sched.c is an argument. Log output is left out.
pub mod Queues
pub mod Sent
pub mod Send
pub mod Received
pub mod Recv
pub mod Calls
pub mod Start
pub mod Slots
pub mod Boot
pub mod Status
pub mod Conserved
pub mod Reports
pub mod Tests
use hydra_microkernal.Prelude.{
  ℕ, zero, suc, ◌+◌, ◌-◌, Bool, ◌||◌, Option, none, some, ℤ, pos, negsuc, is_neg, is_nonpos,
  is_above, is_at_least, pos_part, increment, decrement, ltb, leb, ◌==◌, if◌then◌else◌, update,
  Bytes, copy_bytes,
}
use hydra_microkernal.Sched.{max_tasks}

-- MAX_MESSAGE_SIZE and MAX_MESSAGES
abbrev pub max_message_size : ℕ
max_message_size = 256

abbrev pub max_messages : ℕ
max_messages = 64

-- `struct message`; a pointer is a number, and 0 is null.
pub record Message : Type 0 where
  pub sender_pid : ℤ
  pub receiver_pid : ℤ
  pub size : ℤ
  pub content : Bytes
  pub next : ℕ

-- `struct msg_queue`
pub record MsgQueue : Type 0 where
  pub head : ℕ
  pub tail : ℕ
  pub count : ℤ

-- The memory that holds the messages, `free_messages`, and `message_queues`.
pub record Ipc : Type 0 where
  pub store : ℕ → Message
  pub free_messages : ℕ
  pub message_queues : ℕ → MsgQueue

-- The walk of `count_free_messages`, with fuel; `none` means that the fuel ran out.
unfoldable pub count_nodes : ℕ → (ℕ → Message) → ℕ → ℕ → Option ℕ
count_nodes zero store p count = none
count_nodes (suc fuel) store p count =
    let rest = count_nodes fuel store (store p).next (count + 1) in
    if p == 0 then some count else rest

unfoldable pub count_free_messages : ℕ → Ipc → Option ℕ
unfolding count_nodes
count_free_messages fuel s = count_nodes fuel s.store s.free_messages 0

-- Null, or a message taken off the free list.
unfoldable pub alloc_message : Ipc → ℕ × Ipc
alloc_message s = if msg == 0 then (0, s) else (
  msg,
  record s {
    free_messages = (s.store msg).next;
    store = update s.store msg (record (s.store msg) { next = 0 });
  },
)
  where
    msg : ℕ
    msg = s.free_messages

unfoldable pub free_message : ℕ → Ipc → Ipc
free_message msg s = if msg == 0 then s else record s {
  store = update s.store msg (record (s.store msg) {
    sender_pid = negsuc 0;
    receiver_pid = negsuc 0;
    size = pos 0;
    next = s.free_messages;
  });
  free_messages = msg;
}

-- "Fill message" and "Copy data" of `send_message`.
unfoldable pub fill : ℕ → ℤ → ℤ → Bytes → ℤ → Ipc → Ipc
fill msg current_task receiver_pid src size s = record s {
  store = update s.store msg (record (s.store msg) {
    sender_pid = current_task;
    receiver_pid = receiver_pid;
    size = size;
    content = copy_bytes (pos_part size) (s.store msg).content src;
  });
}

-- "Add to receiver's queue" of `send_message`.
unfoldable pub enqueue : ℕ → ℕ → Ipc → Ipc
enqueue r msg s =
    if queue.head == 0
    then record s {
      message_queues =
          update s.message_queues r
            (record { head = msg; tail = msg; count = increment queue.count });
    }
    else record s {
      store = update s.store queue.tail (record (s.store queue.tail) { next = msg });
      message_queues =
          update s.message_queues r (record queue { tail = msg; count = increment queue.count });
    }
  where
    queue : MsgQueue
    queue = s.message_queues r

-- The part of `send_message` behind its checks.
unfoldable pub deliver : Ipc → ℤ → ℤ → Bytes → ℤ → Ipc × ℤ
deliver s current_task receiver_pid src size =
    let (msg, s') = alloc_message s in
    if msg == 0 then (s', negsuc 0) else (
      enqueue (pos_part receiver_pid) msg (fill msg current_task receiver_pid src size s'),
      pos 0,
    )

unfoldable pub send_message : Ipc → ℤ → ℤ → Option Bytes → ℤ → Ipc × ℤ
send_message s current_task receiver_pid payload size =
    if is_neg receiver_pid || is_at_least receiver_pid max_tasks
    then (s, negsuc 0)
    else if is_nonpos size
    then (s, negsuc 0)
    else if is_above size max_message_size
    then (s, negsuc 0)
    else elim payload [
      | none ↦ (s, negsuc 0)
      | some src ↦ deliver s current_task receiver_pid src size
    ]

-- Takes the first message off queue `c`.
unfoldable pub dequeue : ℕ → Ipc → Ipc
dequeue c s = record s {
  message_queues = update s.message_queues c (record {
    head = rest;
    tail = if rest == 0 then 0 else queue.tail;
    count = decrement queue.count;
  });
}
  where
    queue : MsgQueue
    queue = s.message_queues c

    rest : ℕ
    rest = (s.store queue.head).next

-- The part of `recv_message` behind its checks: the state, the buffer, and the value returned.
unfoldable pub take_message : Ipc → ℕ → Bytes → ℤ → Ipc × Option Bytes × ℤ
take_message s c buffer max_size =
    if is_nonpos m.size || is_above m.size max_message_size
    then (free_message msg (dequeue c s), some buffer, negsuc 0)
    else (free_message msg (dequeue c s), some (copy_bytes copy_size buffer m.content), m.size)
  where
    msg : ℕ
    msg = (s.message_queues c).head

    m : Message
    m = s.store msg

    copy_size : ℕ
    copy_size =
        if ltb (pos_part m.size) (pos_part max_size) then pos_part m.size else pos_part max_size

-- `sender_pid` is only logged.
unfoldable pub recv_message : Ipc → ℤ → ℤ → Option Bytes → ℤ → Ipc × Option Bytes × ℤ
recv_message s current_task sender_pid none max_size = (s, none, negsuc 0)
recv_message s current_task sender_pid (some buffer) max_size =
    if is_nonpos max_size
    then (s, some buffer, negsuc 0)
    else if is_neg current_task || is_at_least current_task max_tasks
    then (s, some buffer, negsuc 0)
    else if (s.message_queues (pos_part current_task)).head == 0
    then (s, some buffer, negsuc 0)
    else take_message s (pos_part current_task) buffer max_size

unfoldable pub try_recv_message : Ipc → ℤ → ℤ → Option Bytes → ℤ → Ipc × Option Bytes × ℤ
try_recv_message s current_task sender_pid buffer max_size =
    recv_message s current_task sender_pid buffer max_size
