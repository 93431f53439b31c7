-- ===== src/Kernel/Frame.antt =====
-- What the system calls of kernal/syscall.c write to memory. They do not check the pointers that a task gives them.
use hydra_microkernal.Prelude.{
  ℕ, ◌+◌, ◌-◌, ◌≤◌, ◌<◌, ◌≡◌, refl, ap, sym, ◌∙◌, ◌⊎◌, inl, inr, Bool, true, false, ◌||◌, Option,
  none, some, some-injective, ℤ, pos, pos_part, to_int, is_int, is_nonpos, is_above, is_neg,
  is_at_least, ltb, ◌==◌, if◌then◌else◌, if_cases, Bytes, copy_bytes, copy_bytes-beyond, dec_lt,
  arith, negsuc,
}
use hydra_microkernal.Sched.{Sched, max_tasks, task_yield, sys_exit}
use hydra_microkernal.Ipc.{Ipc, max_message_size, take_message, recv_message}
use hydra_microkernal.Net.{copy_len, sys_net_recv}
use hydra_microkernal.Net.Traffic.{sys_net_recv-beyond}
use hydra_microkernal.Kernel.{
  Kernel, address, overwrite, overwrite_some, sys_send_msg, sys_recv_msg, sys_net_send_call,
  sys_net_recv_call, sys_create_task, scheduled, handle_syscall,
}
use hydra_microkernal.Kernel.Calls.{IsKernel, Returns, handle_syscall-IsKernel}

-- The address `a` lies among the `size` bytes from `start` on.
abbrev pub IsWithin : ℕ → ℕ → ℕ → Type 0
IsWithin start size a = (start ≤ a) × (a < start + size)

-- The address `a` lies in the buffer that a task gives a system call to write to: `arg3` bytes for SYS_RECV_MSG, and for
-- SYS_NET_RECV as many of a packet of 64 bytes as `arg2` allows.
abbrev pub IsGiven : ℤ → ℤ → ℤ → ℤ → ℕ → Type 0
IsGiven syscall_num arg1 arg2 arg3 a =
    ((is_int syscall_num 2 ≡ true) × IsWithin (address arg2) (pos_part (to_int arg3)) a)
    ⊎ ((is_int syscall_num 4 ≡ true) × IsWithin (address arg1) (copy_len 64 arg2) a)

-- A buffer that is as it was from byte `n` on.
record Beyond (n : ℕ) (buffer : Bytes) (run : Ipc × Option Bytes × ℤ) : Type 0 where
  out : Bytes
  written : run.1 ≡ some out
  same : (j : ℕ) → n ≤ j → out j ≡ buffer j

untouched : {n : ℕ} {buffer : Bytes} {s : Ipc} {x : ℤ} → Beyond n buffer (s, some buffer, x)
untouched {buffer = buffer} = record { out = buffer; written = refl; same = λ j h. refl }

least_le : (a b : ℕ) → (if ltb a b then a else b) ≤ b
least_le a b = ground arith

take_message-Beyond :
    (s : Ipc) (c : ℕ) (buffer : Bytes) (max_size : ℤ)
    → Beyond (pos_part max_size) buffer (take_message s c buffer max_size)
unfolding take_message
take_message-Beyond s c buffer max_size =
    let m = s.store (s.message_queues c).head in
    if_cases (Beyond (pos_part max_size) buffer)
      (is_nonpos m.size || is_above m.size max_message_size) untouched
      (record {
        out =
            copy_bytes
              (if ltb (pos_part m.size) (pos_part max_size)
                then pos_part m.size
                else pos_part max_size)
              buffer m.content;
        written = refl;
        same = λ j h.
            copy_bytes-beyond
              (if ltb (pos_part m.size) (pos_part max_size)
                then pos_part m.size
                else pos_part max_size)
              buffer m.content j (omega (arith, least_le (pos_part m.size) (pos_part max_size)));
      })

recv_message-Beyond :
    (s : Ipc) (current_task sender_pid : ℤ) (buffer : Bytes) (max_size : ℤ)
    → Beyond
        (pos_part max_size)
        buffer
        (recv_message s current_task sender_pid (some buffer) max_size)
unfolding recv_message
recv_message-Beyond s current_task sender_pid buffer max_size =
    let P = Beyond (pos_part max_size) buffer in
    if_cases P (is_nonpos max_size) untouched (
      if_cases P (is_neg current_task || is_at_least current_task max_tasks) untouched (
        if_cases P ((s.message_queues (pos_part current_task)).head == 0) untouched
          (take_message-Beyond s (pos_part current_task) buffer max_size)))

-- Memory outside the written part of a buffer.
overwrite-outside :
    (memory : Bytes) (pointer : ℤ) (bytes : Bytes) (n a : ℕ)
    → ((j : ℕ) → n ≤ j → bytes j ≡ memory (address pointer + j))
    → ¬ IsWithin (address pointer) n a
    → overwrite memory pointer bytes a ≡ memory a
overwrite-outside memory pointer bytes n a same out = elim (dec_lt a (address pointer)) [
  | yes p ↦ ground arith
  | no p ↦
      let far : n ≤ a - address pointer = ground arith in
      let back : address pointer + (a - address pointer) ≡ a = omega arith in
      let e = same (a - address pointer) far ∙ ap memory back in ground arith
]

recv_msg-memory :
    (arg1 arg2 arg3 : ℤ) (k : Kernel) (a : ℕ)
    → ¬ IsWithin (address arg2) (pos_part (to_int arg3)) a
    → (sys_recv_msg arg1 arg2 arg3 k).0.memory a ≡ k.memory a
unfolding sys_recv_msg
recv_msg-memory arg1 arg2 arg3 k a out =
    if_cases
      (λ o.
        overwrite_some k.memory arg2
          (recv_message k.ipc (pos k.sched.current_task) (to_int arg1) o (to_int arg3)).1 a
        ≡ k.memory a)
      (address arg2 == 0) none_written some_written
  where
    none_written :
        overwrite_some k.memory arg2
          (recv_message k.ipc (pos k.sched.current_task) (to_int arg1) none (to_int arg3)).1
          a
        ≡ k.memory a
    none_written = unfold recv_message in refl

    some_written :
        overwrite_some k.memory arg2
          (recv_message k.ipc
            (pos k.sched.current_task)
            (to_int arg1)
            (some (λ i. k.memory (address arg2 + i)))
            (to_int arg3)).1
          a
        ≡ k.memory a
    some_written =
        let b =
          recv_message-Beyond k.ipc (pos k.sched.current_task) (to_int arg1)
            (λ i. k.memory (address arg2 + i)) (to_int arg3) in
        rw b.written (overwrite-outside k.memory arg2 b.out (pos_part (to_int arg3)) a b.same out)

net_recv-memory :
    (arg1 arg2 : ℤ) {k : Kernel} (a : ℕ)
    → IsKernel k
    → ¬ IsWithin (address arg1) (copy_len 64 arg2) a
    → (sys_net_recv_call arg1 arg2 k).0.memory a ≡ k.memory a
unfolding sys_net_recv_call
net_recv-memory arg1 arg2 {k} a v out =
    overwrite-outside k.memory arg1 (sys_net_recv (λ i. k.memory (address arg1 + i)) arg2 k.net).1
      (copy_len 64 arg2) a
      (sys_net_recv-beyond (λ i. k.memory (address arg1 + i)) arg2 v.net.free v.net.rx v.net.pool)
      out

-- A call that, if it returns, leaves the byte at an address.
abbrev Leaves : Kernel → ℕ → Option (Kernel × ℤ) → Type 0
Leaves k a run = (k' : Kernel) (x : ℤ) → run ≡ some (k', x) → k'.memory a ≡ k.memory a

done : (k : Kernel) (a : ℕ) (run : Kernel × ℤ) → run.0.memory a ≡ k.memory a → Leaves k a (some run)
done k a run same k' x e = sym (ap (λ (r : Kernel × ℤ). r.0.memory a) (some-injective e)) ∙ same

scheduled-Leaves : (k : Kernel) (a : ℕ) (run : Option Sched) → Leaves k a (scheduled k run)
scheduled-Leaves k a none = λ k' x e. absurd (cc e)
scheduled-Leaves k a (some t) = done k a (record k { sched = t }, pos 0) refl

-- The branches of a test, each with what the test says.
tested :
    (P : Option (Kernel × ℤ) → Type 0) (b : Bool) {x y : Option (Kernel × ℤ)}
    → (b ≡ true → P x)
    → P y
    → P (if b then x else y)
tested P true p q = p refl
tested P false p q = q

handle_syscall-Leaves :
    (tasks_base : ℕ) (syscall_num arg1 arg2 arg3 : ℤ) {k : Kernel} (a : ℕ)
    → IsKernel k
    → ¬ IsGiven syscall_num arg1 arg2 arg3 a
    → Leaves k a (handle_syscall tasks_base syscall_num arg1 arg2 arg3 k)
unfolding handle_syscall sys_send_msg sys_net_send_call sys_create_task
handle_syscall-Leaves tasks_base num arg1 arg2 arg3 {k} a v out =
    let P = Leaves k a in
    tested P (is_int num 1) (λ e. done k a (sys_send_msg arg1 arg2 arg3 k) refl)
      (tested P (is_int num 2)
        (λ e.
          done k a (sys_recv_msg arg1 arg2 arg3 k)
            (recv_msg-memory arg1 arg2 arg3 k a (λ w. out (inl (e, w)))))
        (tested P (is_int num 3) (λ e. done k a (sys_net_send_call arg2 k) refl)
          (tested P (is_int num 4)
            (λ e.
              done k a (sys_net_recv_call arg1 arg2 k)
                (net_recv-memory arg1 arg2 a v (λ w. out (inr (e, w)))))
            (tested P (is_int num 5) (λ e. done k a (k, pos k.sched.current_task) refl)
              (tested P (is_int num 6) (λ e. scheduled-Leaves k a (task_yield k.sched))
                (tested P (is_int num 7) (λ e. done k a (sys_create_task tasks_base arg1 k) refl)
                  (tested P (is_int num 8) (λ e. scheduled-Leaves k a (sys_exit k.sched))
                    (done k a (k, negsuc 0) refl))))))))

-- Let `structures` be the addresses of the kernel's own structures, which the model keeps apart from memory. From a well-formed kernel, every
-- system call whose buffer for the result avoids them (SYS_RECV_MSG and SYS_NET_RECV have one; the code does not check it) comes to its end,
-- or for SYS_YIELD and SYS_EXIT to the switch of tasks, whatever its number and its other arguments; messages, tasks and packets are well formed again, and no byte at
-- those addresses is written.
pub handle_syscall-IsApart :
    (structures : ℕ → Type 0) (tasks_base : ℕ) (syscall_num arg1 arg2 arg3 : ℤ) {k : Kernel}
    → IsKernel k
    → ((a : ℕ) → structures a → ¬ IsGiven syscall_num arg1 arg2 arg3 a)
    → (r : Returns (handle_syscall tasks_base syscall_num arg1 arg2 arg3 k)) × ((a : ℕ)
        → structures a
        → r.state.memory a ≡ k.memory a)
handle_syscall-IsApart structures tasks_base num arg1 arg2 arg3 {k} v apart =
    let r = handle_syscall-IsKernel tasks_base num arg1 arg2 arg3 v in
    (
      r,
      λ a inside.
          handle_syscall-Leaves tasks_base num arg1 arg2 arg3 a v (apart a inside) r.state r.value
            r.returns,
    )
