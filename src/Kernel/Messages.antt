-- ===== src/Kernel/Messages.antt =====
-- A message on its way through SYS_SEND_MSG and SYS_RECV_MSG of kernal/syscall.c.
use native.Mathlib.Nat.{min-eq_left}
use Prim.Native.Nat.{min}
use hydra_microkernal.Prelude.{
  to_int, ℕ, suc, ◌+◌, ◌-◌, ◌^◌, ◌≤◌, ◌<◌, ◌≡◌, ◌≢◌, sym, ap, ap₂, subst, ◌∙◌, Option, some, ℤ, pos,
  List, [], ◌∷◌, ◌++◌, length, take, take-all, Bytes, prefix, length-slice, slice-eq, update,
  update_self, arith,
}
use hydra_microkernal.Sched.{max_tasks}
use hydra_microkernal.Ipc.{Ipc, max_message_size, send_message, recv_message}
use hydra_microkernal.Ipc.Queues.{Queues, Packet, Represents, send-free}
use hydra_microkernal.Ipc.Send.{send_message-Refines}
use hydra_microkernal.Ipc.Recv.{Delivers, recv_message-Delivers}
use hydra_microkernal.Kernel.{Kernel, behind, overwrite, sys_send_msg, sys_recv_msg}

to_int-small : (n : ℕ) → n < 2 ^ 31 → to_int (pos n) ≡ pos n
to_int-small n h = ground arith

behind-pointer :
    (memory : Bytes) (p : ℕ) → p ≢ 0 → behind memory (pos p) ≡ some (λ i. memory (p + i))
behind-pointer memory p ne = ground arith

overwrite-before :
    (memory : Bytes) (q : ℕ) (bytes : Bytes) (b : ℕ)
    → b < q
    → overwrite memory (pos q) bytes b ≡ memory b
overwrite-before memory q bytes b h = ground arith

overwrite-behind :
    (memory : Bytes) (q : ℕ) (bytes : Bytes) (b : ℕ)
    → q ≤ b
    → overwrite memory (pos q) bytes b ≡ bytes (b - q)
overwrite-behind memory q bytes b h = ground arith

overwrite-at :
    (memory : Bytes) (q : ℕ) (bytes : Bytes) (i : ℕ)
    → overwrite memory (pos q) bytes (q + i) ≡ bytes i
overwrite-at memory q bytes i =
    overwrite-behind memory q bytes (q + i) (omega arith) ∙ ap bytes (omega arith)

-- A delivery whose packet fits.
record Fits (buffer : Bytes) (n : ℕ) (bytes : List ℕ) (run : Ipc × Option Bytes × ℤ) : Type 0 where
  value : run.2 ≡ pos n
  out : Bytes
  written : run.1 ≡ some out
  copied : prefix n out ≡ bytes
  beyond : (j : ℕ) → n ≤ j → out j ≡ buffer j

Delivers-Fits :
    {buffer : Bytes} {max : ℕ} {packet : Packet} {spec : Queues} {run : Ipc × Option Bytes × ℤ}
    (n : ℕ)
    → Delivers buffer max packet spec run
    → length packet.bytes ≡ n
    → n ≤ max
    → Fits buffer n packet.bytes run
Delivers-Fits {max = max} {packet = packet} n d e fits = record {
  value = d.value ∙ ap pos e;
  out = d.out;
  written = d.written;
  copied =
      ap (λ m. prefix m d.out) (sym least)
      ∙ d.copied
      ∙ ap (λ m. take m packet.bytes) least
      ∙ take-all n packet.bytes (omega (arith, e));
  beyond = λ j h. d.beyond j (rw least h);
}
  where
    least : min (length packet.bytes) max ≡ n
    least = min-eq_left (omega (arith, e, fits)) ∙ e

module _ (s : Ipc) (c r n max a : ℕ) (sender : ℤ) (src buffer : Bytes) where
  sent-Fits :
      {v : Queues} (free : List ℕ)
      → Represents s v
      → v.free ≡ a ∷ free
      → v.queued r ≡ []
      → r < max_tasks
      → 0 < n
      → n ≤ max_message_size
      → n ≤ max
      → Fits buffer n (prefix n src) (
          recv_message
            (send_message s (pos c) (pos r) (some src) (pos n)).0
            (pos r)
            sender
            (some buffer)
            (pos max))
  sent-Fits {v} free R e empty h n0 n1 fits = rw bytes at (
      Delivers-Fits n (recv_message-Delivers after r sender buffer max a [] first h (omega arith))
        (rw bytes (length-slice n 0 src)) fits)
    where
      w : Queues
      w = record {
        free = free;
        queued = update v.queued r (v.queued r ++ a ∷ []);
        packet = update v.packet a (record { sender = pos c; bytes = prefix n src });
        place = update v.place a (suc r);
      }

      after : Represents (send_message s (pos c) (pos r) (some src) (pos n)).0 w
      after =
          subst
            (λ (t : Queues × ℤ).
              Represents (send_message s (pos c) (pos r) (some src) (pos n)).0 t.0)
            (send-free (pos c) r (prefix n src) v a free e)
            (send_message-Refines R (pos c) r src n h n0 n1).state

      first : w.queued r ≡ a ∷ []
      first = update_self v.queued r _ ∙ ap (λ l. l ++ a ∷ []) empty

      bytes : (w.packet a).bytes ≡ prefix n src
      bytes = ap (λ (m : Packet). m.bytes) (update_self v.packet a _)

-- A message of 1 to 256 bytes that a task sends with SYS_SEND_MSG to a task `r` whose queue is empty, with a slot free, is read
-- back: when `r` runs next to use message passing, SYS_RECV_MSG with room for it returns its size, the buffer
-- holds its bytes, and all other memory is as it was.
pub sys_recv_msg-sys_send_msg :
    (k : Kernel) {v : Queues} (k' : Kernel) (r p n q max a : ℕ) (free : List ℕ) (sender : ℤ)
    → Represents k.ipc v
    → v.free ≡ a ∷ free
    → v.queued r ≡ []
    → r < max_tasks
    → p ≢ 0
    → 0 < n
    → n ≤ max_message_size
    → k'.ipc ≡ (sys_send_msg (pos r) (pos p) (pos n) k).0.ipc
    → k'.sched.current_task ≡ r
    → q ≢ 0
    → n ≤ max
    → max < 2 ^ 31
    → ((sys_recv_msg sender (pos q) (pos max) k').1 ≡ pos n)
      × ((i : ℕ)
          → i < n
          → (sys_recv_msg sender (pos q) (pos max) k').0.memory (q + i) ≡ k.memory (p + i))
      × ((b : ℕ) → b < q → (sys_recv_msg sender (pos q) (pos max) k').0.memory b ≡ k'.memory b)
      × ((b : ℕ) → q + n ≤ b → (sys_recv_msg sender (pos q) (pos max) k').0.memory b ≡ k'.memory b)
unfolding sys_recv_msg sys_send_msg
sys_recv_msg-sys_send_msg k k' r p n q max a free sender R e empty h np n0 n1 same cur nq fits
      small =
    let sent : k'.ipc
        ≡ (send_message k.ipc (pos k.sched.current_task) (pos r) (some (λ i. k.memory (p + i)))
            (pos n)).0 =
      same
      ∙ ap₂ (λ b x. (send_message k.ipc (pos k.sched.current_task) x b (to_int (pos n))).0)
          (behind-pointer k.memory p np) (to_int-small r (omega arith))
      ∙ ap
          (λ x.
            (send_message k.ipc (pos k.sched.current_task) (pos r) (some (λ i. k.memory (p + i)))
              x).0)
          (to_int-small n (omega arith)) in
    let f =
      sent-Fits k.ipc k.sched.current_task r n max a (to_int sender) (λ i. k.memory (p + i))
        (λ i. k'.memory (q + i)) free R e empty h n0 n1 fits in
    rw (sent, cur, behind-pointer k'.memory q nq, to_int-small max small, f.written)
      (
        f.value,
        λ i less.
            overwrite-at k'.memory q f.out i
            ∙ slice-eq n 0 f.out (λ j. k.memory (p + j)) f.copied i (omega arith) (omega arith),
        λ b less. overwrite-before k'.memory q f.out b less,
        λ b less.
            overwrite-behind k'.memory q f.out b (omega arith)
            ∙ f.beyond (b - q) (omega arith)
            ∙ ap k'.memory (omega arith),
      )
