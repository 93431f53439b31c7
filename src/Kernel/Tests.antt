-- ===== src/Kernel/Tests.antt =====
-- The theorems about kernal/syscall.c at small inputs.
use hydra_microkernal.Prelude.{ℕ, ◌+◌, ◌≤◌, ◌<◌, ◌≡◌, refl, inl, inr, [], ◌∷◌, pos, arith}
use hydra_microkernal.Sched.Tests.{three, three-IsValid}
use hydra_microkernal.Ipc.Tests.{pool, pool_view, pool-Represents}
use hydra_microkernal.Net.Tests.{at_start, started}
use hydra_microkernal.Net.Boot.{net_init-IsFull}
use hydra_microkernal.Kernel.{Kernel, handle_syscall, sys_send_msg, sys_recv_msg}
use hydra_microkernal.Kernel.Calls.{IsKernel, Returns}
use hydra_microkernal.Kernel.Frame.{IsGiven, handle_syscall-IsApart}
use hydra_microkernal.Kernel.Messages.{sys_recv_msg-sys_send_msg}

-- Task 1 runs, two message slots are free, and the network driver has started. Byte `a` of memory is `a`.
abbrev pub running_kernel : Kernel
running_kernel = record { ipc = pool; sched = three; net = started; memory = λ a. a }

pub running_kernel-IsKernel : IsKernel running_kernel
running_kernel-IsKernel = record {
  ipc = (pool_view, pool-Represents);
  sched = three-IsValid;
  net = net_init-IsFull 1953655158 1 at_start refl refl;
}

-- Task 1 asks for a message of at most 8 bytes at 2000, and the kernel's structures lie above 4096.
avoids : (a : ℕ) → 4096 < a → ¬ IsGiven (pos 2) (pos 1) (pos 2000) (pos 8) a
avoids a h (inl (e, w)) = omega (arith, w.1)
avoids a h (inr (e, w)) = absurd (cc e)

handle_syscall-IsApart_example :
    (r : Returns (handle_syscall 4096 (pos 2) (pos 1) (pos 2000) (pos 8) running_kernel)) × ((a : ℕ)
      → 4096 < a
      → r.state.memory a ≡ a)
handle_syscall-IsApart_example =
    handle_syscall-IsApart (λ a. 4096 < a) 4096 (pos 2) (pos 1) (pos 2000) (pos 8)
      running_kernel-IsKernel avoids

-- Task 1 sends itself the three bytes at 1000, and reads them to 2000.
abbrev one_sent : Kernel
one_sent = (sys_send_msg (pos 1) (pos 1000) (pos 3) running_kernel).0

one_sent_runs : one_sent.sched.current_task ≡ 1
unfolding sys_send_msg
one_sent_runs = refl

sys_recv_msg-sys_send_msg_example :
    ((sys_recv_msg (pos 1) (pos 2000) (pos 8) one_sent).1 ≡ pos 3)
    × ((i : ℕ)
        → i < 3
        → (sys_recv_msg (pos 1) (pos 2000) (pos 8) one_sent).0.memory (2000 + i) ≡ 1000 + i)
    × ((b : ℕ)
        → b < 2000
        → (sys_recv_msg (pos 1) (pos 2000) (pos 8) one_sent).0.memory b ≡ one_sent.memory b)
    × ((b : ℕ)
        → 2000 + 3 ≤ b
        → (sys_recv_msg (pos 1) (pos 2000) (pos 8) one_sent).0.memory b ≡ one_sent.memory b)
sys_recv_msg-sys_send_msg_example =
    sys_recv_msg-sys_send_msg running_kernel {v = pool_view} one_sent 1 1000 3 2000 8 100 (200 ∷ [])
      (pos 1) pool-Represents refl refl (omega arith) (omega arith) (omega arith) (omega arith) refl
      one_sent_runs (omega arith) (omega arith) (omega arith)
