-- ===== src/Servers/Started.antt =====
-- The servers that `start_servers` of server/server_mgmt.c creates.
use hydra_microkernal.Prelude.{
  ℕ, ◌+◌, ◌<◌, ◌≡◌, refl, ap, subst, ◌∙◌, Option, some, ℤ, pos, to_int, arith, update, update_self,
  update_ne,
}
use hydra_microkernal.Sched.{Sched, max_tasks, create_task}
use hydra_microkernal.Sched.Inv.{IsValid}
use hydra_microkernal.Sched.Calls.{fresh_task, create_task-room, create_task-IsValid}
use hydra_microkernal.Kernel.{Kernel, handle_syscall, sys_create_task}
use hydra_microkernal.Kernel.Calls.{IsKernel}
use hydra_microkernal.Hydra.{syscall_create_task}
use hydra_microkernal.Servers.{Servers, start_servers, net_started}

-- The wrapper and the dispatcher pass the call on to the scheduler.
syscall_create_task-sched :
    (tasks_base entry : ℕ) (k : Kernel)
    → syscall_create_task tasks_base (pos entry) k
      ≡ some (
        record k { sched = (create_task tasks_base entry k.sched).0 },
        to_int (create_task tasks_base entry k.sched).1,
      )
unfolding syscall_create_task handle_syscall sys_create_task
syscall_create_task-sched tasks_base entry k = refl

to_int-small : (n : ℕ) → n < max_tasks → to_int (pos n) ≡ pos n
to_int-small n h = ground arith

-- The kernel with one more task.
abbrev with_task : ℕ → ℕ → Kernel → Kernel
with_task tasks_base entry k = record k {
  sched = record k.sched {
    tasks = update k.sched.tasks k.sched.num_tasks (fresh_task tasks_base entry k.sched.num_tasks);
    num_tasks = k.sched.num_tasks + 1;
  };
}

module _ (tasks_base entry : ℕ) (k : Kernel) where
  -- The call with a free slot.
  syscall_create_task-room :
      k.sched.num_tasks < max_tasks
      → syscall_create_task tasks_base (pos entry) k
        ≡ some (with_task tasks_base entry k, pos k.sched.num_tasks)
  syscall_create_task-room h =
      syscall_create_task-sched tasks_base entry k
      ∙ ap (λ (r : Sched × ℤ). some (record k { sched = r.0 }, to_int r.1))
          (create_task-room tasks_base entry k.sched h)
      ∙ ap (λ x. some (with_task tasks_base entry k, x)) (to_int-small k.sched.num_tasks h)

  with_task-IsKernel :
      IsKernel k → k.sched.num_tasks < max_tasks → IsKernel (with_task tasks_base entry k)
  with_task-IsKernel v h = record {
    ipc = v.ipc;
    sched =
        subst IsValid (ap (λ (r : Sched × ℤ). r.0) (create_task-room tasks_base entry k.sched h))
          (create_task-IsValid tasks_base entry v.sched);
    net = v.net;
  }

-- Both servers are tasks, the bullet server in the first free slot and the network server behind it, and their numbers
-- are stored.
pub record AreStarted (tasks_base bullet_entry net_entry first : ℕ) (run : Option Servers)
    : Type 0 where
  pub after : Servers
  pub returns : run ≡ some after
  pub kernel : IsKernel after.kernel
  pub bullet_pid : after.bullet_server_pid ≡ pos first
  pub net_pid : after.net_server_pid ≡ pos (first + 1)
  pub bullet : after.kernel.sched.tasks first ≡ fresh_task tasks_base bullet_entry first
  pub network : after.kernel.sched.tasks (first + 1) ≡ fresh_task tasks_base net_entry (first + 1)

-- In a well-formed kernel with two free slots in the task table, `start_servers` returns with the kernel well formed, the two servers created
-- with their entry points in the next two slots, and their process numbers stored.
pub start_servers-AreStarted :
    (tasks_base bullet_entry net_entry : ℕ) (s : Servers)
    → IsKernel s.kernel
    → s.kernel.sched.num_tasks + 1 < max_tasks
    → AreStarted tasks_base bullet_entry net_entry s.kernel.sched.num_tasks
        (start_servers tasks_base bullet_entry net_entry s)
unfolding start_servers
start_servers-AreStarted tasks_base bullet_entry net_entry s v room = record {
  after = after;
  returns =
      rw (syscall_create_task-room tasks_base bullet_entry s.kernel (omega arith), start_servers)
        (ap (net_started half) (syscall_create_task-room tasks_base net_entry half.kernel room));
  kernel =
      with_task-IsKernel tasks_base net_entry half.kernel
        (with_task-IsKernel tasks_base bullet_entry s.kernel v (omega arith)) room;
  bullet_pid = refl;
  net_pid = refl;
  bullet =
      update_ne half.kernel.sched.tasks (first + 1) first
        (fresh_task tasks_base net_entry (first + 1)) (omega arith)
      ∙ update_self s.kernel.sched.tasks first (fresh_task tasks_base bullet_entry first);
  network =
      update_self half.kernel.sched.tasks (first + 1) (fresh_task tasks_base net_entry (first + 1));
}
  where
    first : ℕ
    first = s.kernel.sched.num_tasks

    half : Servers
    half = record s {
      kernel = with_task tasks_base bullet_entry s.kernel;
      bullet_server_pid = pos first;
    }

    after : Servers
    after = record half {
      kernel = with_task tasks_base net_entry half.kernel;
      net_server_pid = pos (first + 1);
    }
