-- ===== src/Kernel/Calls.antt =====
-- The system calls of kernal/syscall.c keep the kernel well formed.
use hydra_microkernal.Prelude.{
  low_bits, to_int, ℕ, ◌+◌, ◌^◌, ◌≡◌, refl, ap, Bool, true, false, Option, some, ℤ, pos, is_int,
  if◌then◌else◌,
}
use hydra_microkernal.Sched.{Sched}
use hydra_microkernal.Sched.Inv.{IsValid}
use hydra_microkernal.Sched.Calls.{
  Schedulable, task_yield-IsValid, sys_exit-IsValid, create_task-IsValid,
}
use hydra_microkernal.Ipc.Calls.{IsPool, send_message-IsPool, recv_message-IsPool}
use hydra_microkernal.Net.Boot.{IsFull}
use hydra_microkernal.Net.Runs.{sends, receives, Step-IsFull}
use hydra_microkernal.Kernel.{
  Kernel, address, behind, sys_send_msg, sys_recv_msg, sys_net_send_call, sys_net_recv_call,
  sys_create_task, scheduled, handle_syscall,
}

-- The message pool, the task table and the packet pool are well formed.
pub record IsKernel (k : Kernel) : Type 0 where
  pub ipc : IsPool k.ipc
  pub sched : IsValid k.sched
  pub net : IsFull k.net

module _ {k : Kernel} (v : IsKernel k) where
  sys_send_msg-IsKernel : (arg1 arg2 arg3 : ℤ) → IsKernel (sys_send_msg arg1 arg2 arg3 k).0
  unfolding sys_send_msg
  sys_send_msg-IsKernel arg1 arg2 arg3 = record {
    ipc =
        send_message-IsPool k.ipc (pos k.sched.current_task) (to_int arg1) (behind k.memory arg2)
          (to_int arg3) v.ipc;
    sched = v.sched;
    net = v.net;
  }

  sys_recv_msg-IsKernel : (arg1 arg2 arg3 : ℤ) → IsKernel (sys_recv_msg arg1 arg2 arg3 k).0
  unfolding sys_recv_msg
  sys_recv_msg-IsKernel arg1 arg2 arg3 = record {
    ipc =
        recv_message-IsPool k.ipc k.sched.current_task (to_int arg1) (behind k.memory arg2)
          (to_int arg3) v.ipc;
    sched = v.sched;
    net = v.net;
  }

  sys_net_send_call-IsKernel : (arg2 : ℤ) → IsKernel (sys_net_send_call arg2 k).0
  unfolding sys_net_send_call
  sys_net_send_call-IsKernel arg2 = record {
    ipc = v.ipc;
    sched = v.sched;
    net = Step-IsFull v.net (sends (low_bits (2 ^ 16) arg2) refl);
  }

  sys_net_recv_call-IsKernel : (arg1 arg2 : ℤ) → IsKernel (sys_net_recv_call arg1 arg2 k).0
  unfolding sys_net_recv_call
  sys_net_recv_call-IsKernel arg1 arg2 = record {
    ipc = v.ipc;
    sched = v.sched;
    net = Step-IsFull v.net (receives (λ i. k.memory (address arg1 + i)) arg2 refl);
  }

  sys_create_task-IsKernel :
      (tasks_base : ℕ) (arg1 : ℤ) → IsKernel (sys_create_task tasks_base arg1 k).0
  unfolding sys_create_task
  sys_create_task-IsKernel tasks_base arg1 = record {
    ipc = v.ipc;
    sched = create_task-IsValid tasks_base (address arg1) v.sched;
    net = v.net;
  }

-- A call that returns, with a well-formed kernel.
pub record Returns (run : Option (Kernel × ℤ)) : Type 0 where
  pub state : Kernel
  pub value : ℤ
  pub returns : run ≡ some (state, value)
  pub valid : IsKernel state

scheduled-Returns :
    {k : Kernel} {t : Sched} {run : Option Sched}
    → IsKernel k
    → Schedulable t run
    → Returns (scheduled k run)
scheduled-Returns {k} v r = record {
  state = record k { sched = r.0 };
  value = pos 0;
  returns = ap (scheduled k) r.1;
  valid = record { ipc = v.ipc; sched = r.3; net = v.net };
}

done : {k : Kernel} {x : ℤ} → IsKernel k → Returns (some (k, x))
done {k} {x} v = record { state = k; value = x; returns = refl; valid = v }

-- One branch of the dispatch.
either :
    (b : Bool) {x y : Option (Kernel × ℤ)} → Returns x → Returns y → Returns (if b then x else y)
either true p q = p
either false p q = q

-- Every system call comes to its end, or to the switch of tasks, from a well-formed kernel, and leaves the kernel well formed;
-- the kernel's structures are apart from memory here.
pub handle_syscall-IsKernel :
    (tasks_base : ℕ) (syscall_num arg1 arg2 arg3 : ℤ) {k : Kernel}
    → IsKernel k
    → Returns (handle_syscall tasks_base syscall_num arg1 arg2 arg3 k)
unfolding handle_syscall
handle_syscall-IsKernel tasks_base syscall_num arg1 arg2 arg3 {k} v =
    either (is_int syscall_num 1) (done (sys_send_msg-IsKernel v arg1 arg2 arg3)) (
      either (is_int syscall_num 2) (done (sys_recv_msg-IsKernel v arg1 arg2 arg3)) (
        either (is_int syscall_num 3) (done (sys_net_send_call-IsKernel v arg2)) (
          either (is_int syscall_num 4) (done (sys_net_recv_call-IsKernel v arg1 arg2)) (
            either (is_int syscall_num 5) (done v) (
              either (is_int syscall_num 6) (scheduled-Returns v (task_yield-IsValid v.sched)) (
                either (is_int syscall_num 7) (done (sys_create_task-IsKernel v tasks_base arg1)) (
                  either (is_int syscall_num 8) (scheduled-Returns v (sys_exit-IsValid v.sched))
                    (done v))))))))
