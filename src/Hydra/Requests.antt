-- ===== src/Hydra/Requests.antt =====
-- The messages of lib/libhydra/ipc.c against the limit of kernal/ipc.h.
use hydra_microkernal.Prelude.{
  ℕ, ◌≡◌, refl, ap, Option, some, ℤ, pos, negsuc, to_int, ltb, if_cases, arith,
}
use hydra_microkernal.Ipc.{Ipc}
use hydra_microkernal.Ipc.Calls.{send_message_large}
use hydra_microkernal.Kernel.{Kernel, behind, handle_syscall, sys_send_msg}
use hydra_microkernal.Hydra.{
  ipc_message_size, fill_message, syscall_get_pid, syscall_send_msg, ipc_send_message, send_request,
}

-- A call that returns -1 and leaves the messages, the tasks and the packets of the kernel as they were.
pub record IsRefused (k : Kernel) (run : Option (Kernel × ℤ)) : Type 0 where
  pub after : Kernel
  pub returns : run ≡ some (after, negsuc 0)
  pub ipc : after.ipc ≡ k.ipc
  pub sched : after.sched ≡ k.sched
  pub net : after.net ≡ k.net

sys_send_msg-refused :
    (receiver src : ℤ) (k : Kernel)
    → sys_send_msg receiver src (pos ipc_message_size) k ≡ (k, negsuc 0)
unfolding sys_send_msg
sys_send_msg-refused receiver src k =
    ap (λ (t : Ipc × ℤ). (record k { ipc = t.0 }, t.1))
      (send_message_large k.ipc (pos k.sched.current_task) (to_int receiver) (behind k.memory src)
        ipc_message_size (omega arith))

-- `ipc_send_message` refuses every message, whatever its size: for at most 256 bytes of data it passes the whole structure of
-- 272 bytes on, which is more than `send_message` of the kernel takes. It returns -1 and queues nothing.
pub ipc_send_message-IsRefused :
    (tasks_base msg : ℕ) (receiver msg_type : ℤ) (src size : ℕ) (k : Kernel)
    → IsRefused k (ipc_send_message tasks_base msg receiver msg_type src size k)
unfolding ipc_send_message syscall_get_pid syscall_send_msg handle_syscall
ipc_send_message-IsRefused tasks_base msg receiver msg_type src size k =
    let filled = record k {
      memory =
          fill_message msg (to_int (pos k.sched.current_task)) receiver msg_type src size k.memory;
    } in
    if_cases (IsRefused k) (ltb 256 size)
      (record { after = k; returns = refl; ipc = refl; sched = refl; net = refl })
      (record {
        after = filled;
        returns =
            ap (λ (run : Kernel × ℤ). some (run.0, to_int run.1))
              (sys_send_msg-refused receiver (pos msg) filled);
        ipc = refl;
        sched = refl;
        net = refl;
      })

-- `send_request` fails for every server and every request: it returns -1, the server gets no message, and no answer is
-- waited for.
pub send_request-IsRefused :
    (tasks_base msg : ℕ) (server : ℤ) (request req_size msg_type response max_resp_size : ℕ)
    (k : Kernel)
    → IsRefused k
        (send_request tasks_base msg server request req_size msg_type response max_resp_size k)
unfolding send_request
send_request-IsRefused tasks_base msg server request req_size msg_type response max_resp_size k =
    let r = ipc_send_message-IsRefused tasks_base msg server (pos 2) request req_size k in
    record {
      after = r.after;
      returns = rw (r.returns, send_request) refl;
      ipc = r.ipc;
      sched = r.sched;
      net = r.net;
    }
