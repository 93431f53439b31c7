-- ===== src/Main/Boot.antt =====
-- The state in which `kmain` of kernal/main.c starts the kernel.
use hydra_microkernal.Prelude.{
  ℕ, ◌+◌, ◌^◌, ◌≤◌, ◌<◌, ◌≡◌, refl, ap, ◌∙◌, Option, some, List, [], arith, update, update_ne,
  update_self,
}
use hydra_microkernal.Mm.{header_size, mm_init}
use hydra_microkernal.Mm.Cells.{Cell, IsHeap}
use hydra_microkernal.Mm.Boot.{aligned_start, mm_init-IsHeap}
use hydra_microkernal.Uart.{Uart, uart_init}
use hydra_microkernal.Uart.Ring.{IsRing, waiting}
use hydra_microkernal.Sched.{Sched, max_tasks, create_task, sched_init}
use hydra_microkernal.Sched.Inv.{IsValid}
use hydra_microkernal.Sched.Calls.{fresh_task, create_task-IsValid}
use hydra_microkernal.Sched.Boot.{IsCold, sched_init-IsValid, create_task-at}
use hydra_microkernal.Ipc.Start.{empty_queue, ipc_init}
use hydra_microkernal.Ipc.Boot.{all_free, IsStarted, ipc_init-IsStarted}
use hydra_microkernal.Net.{net_init}
use hydra_microkernal.Net.Boot.{net_init-IsFull}
use hydra_microkernal.Kernel.Calls.{IsKernel}
use hydra_microkernal.Main.{System, Platform, start_tasks, started, kmain_start}

-- What `kmain` needs of static storage, which is all zero: no task, no message, no packet and no block.
pub record IsOff (s : System) : Type 0 where
  pub sched : IsCold s.kernel.sched
  pub messages : s.kernel.ipc.free_messages ≡ 0
  pub queues : (i : ℕ) → max_tasks ≤ i → s.kernel.ipc.message_queues i ≡ empty_queue
  pub rx_head : s.kernel.net.rx_queue_head ≡ 0
  pub rx_tail : s.kernel.net.rx_queue_tail ≡ 0
  pub allocated : s.heap.total_allocated ≡ 0

-- The linker's heap: below 2^32, not at null, with room for a header.
pub record HasHeap (p : Platform) : Type 0 where
  pub ne_null : 0 < p.heap_start
  pub small : p.heap_end < 2 ^ 32
  pub room : aligned_start p.heap_start + header_size ≤ p.heap_end

-- All parts of the kernel are well formed.
pub record IsSystem (p : Platform) (s : System) : Type 0 where
  pub kernel : IsKernel s.kernel
  pub cells : List Cell
  pub heap : IsHeap s.heap (aligned_start p.heap_start) p.heap_end cells
  pub uart : IsRing s.uart

-- A well-formed kernel with five tasks, in which the bullet server is task 3 and the network server task 4, boot code
-- in the place of task 0, and no input.
pub record IsBooted (p : Platform) (s : System) : Type 0 where
  pub system : IsSystem p s
  pub count : s.kernel.sched.num_tasks ≡ 5
  pub current : s.kernel.sched.current_task ≡ 0
  pub bullet : s.kernel.sched.tasks 3 ≡ fresh_task p.tasks_base p.bullet_server_main 3
  pub network : s.kernel.sched.tasks 4 ≡ fresh_task p.tasks_base p.net_server_main 4
  pub no_input : waiting s.uart ≡ []

pub record Boots (p : Platform) (run : Option System) : Type 0 where
  pub state : System
  pub returns : run ≡ some state
  pub booted : IsBooted p state

module _ (p : Platform) {s : Sched} (c : IsCold s) where
  abbrev idle : Sched
  idle = sched_init p.tasks_base p.idle_task1 p.idle_task2 p.idle_task3 s

  idle-IsValid : IsValid idle × (idle.num_tasks ≡ 3) × (idle.current_task ≡ 0)
  idle-IsValid =
      let r = sched_init-IsValid p.tasks_base p.idle_task1 p.idle_task2 p.idle_task3 c in
      (r.0, r.1, r.2)

  abbrev with_bullet : Sched
  with_bullet = record idle {
    tasks = update idle.tasks 3 (fresh_task p.tasks_base p.bullet_server_main 3);
    num_tasks = 4;
  }

  abbrev with_servers : Sched
  with_servers = record with_bullet {
    tasks = update with_bullet.tasks 4 (fresh_task p.tasks_base p.net_server_main 4);
    num_tasks = 5;
  }

  start_tasks-with_servers : start_tasks p s ≡ with_servers
  unfolding start_tasks
  start_tasks-with_servers =
      ap (λ t. (create_task p.tasks_base p.net_server_main t).0)
        (create_task-at p.tasks_base p.bullet_server_main 3 idle idle-IsValid.1 (omega arith))
      ∙ create_task-at p.tasks_base p.net_server_main 4 with_bullet refl (omega arith)

  start_tasks-IsValid : IsValid (start_tasks p s)
  unfolding start_tasks
  start_tasks-IsValid =
      create_task-IsValid p.tasks_base p.net_server_main
        (create_task-IsValid p.tasks_base p.bullet_server_main idle-IsValid.0)

  start_tasks-bullet : (start_tasks p s).tasks 3 ≡ fresh_task p.tasks_base p.bullet_server_main 3
  start_tasks-bullet =
      ap (λ (t : Sched). t.tasks 3) start_tasks-with_servers
      ∙ update_ne with_bullet.tasks 4 3 (fresh_task p.tasks_base p.net_server_main 4) (omega arith)
      ∙ update_self idle.tasks 3 (fresh_task p.tasks_base p.bullet_server_main 3)

  start_tasks-network : (start_tasks p s).tasks 4 ≡ fresh_task p.tasks_base p.net_server_main 4
  start_tasks-network =
      ap (λ (t : Sched). t.tasks 4) start_tasks-with_servers
      ∙ update_self with_bullet.tasks 4 (fresh_task p.tasks_base p.net_server_main 4)

uart_init-IsRing : (u : Uart) → IsRing (uart_init u) × (waiting (uart_init u) ≡ [])
unfolding uart_init
uart_init-IsRing u = (record { count = omega arith; tail = omega arith; head = refl }, refl)

-- From zeroed storage, on a heap below 2^32 with room for a header, and with fuel for 66 blocks of the heap, `kmain` gets as far as the tests of
-- the libraries and leaves a well-formed kernel: message pool, tasks, packets, heap and input buffer. The bullet server is task 3 and the network server
-- task 4, ready at their entry points.
pub kmain_start-IsBooted :
    (fuel : ℕ) (p : Platform) {s : System}
    → IsOff s
    → HasHeap p
    → 65 < fuel
    → Boots p (kmain_start fuel p s)
unfolding kmain_start
kmain_start-IsBooted fuel p {s} off has enough = record {
  state = state;
  returns = ap (started p s) r.returns;
  booted = record {
    system = record {
      kernel = record {
        ipc = (all_free r.slots, r.represents);
        sched = start_tasks-IsValid p off.sched;
        net = net_init-IsFull p.magic p.device_id s.kernel.net off.rx_head off.rx_tail;
      };
      cells = r.cells;
      heap = r.is_heap;
      uart = (uart_init-IsRing s.uart).0;
    };
    count = ap (λ (t : Sched). t.num_tasks) (start_tasks-with_servers p off.sched);
    current =
        ap (λ (t : Sched). t.current_task) (start_tasks-with_servers p off.sched)
        ∙ (idle-IsValid p off.sched).2;
    bullet = start_tasks-bullet p off.sched;
    network = start_tasks-network p off.sched;
    no_input = (uart_init-IsRing s.uart).1;
  };
}
  where
    r :
        IsStarted
          (aligned_start p.heap_start)
          p.heap_end
          (ipc_init fuel s.kernel.ipc (mm_init p.heap_start p.heap_end s.heap))
    r =
        ipc_init-IsStarted fuel s.kernel.ipc
          (mm_init-IsHeap p.heap_start p.heap_end s.heap off.allocated has.ne_null has.small
            has.room)
          off.messages off.queues (omega arith)

    state : System
    state = record {
      kernel = record s.kernel {
        ipc = r.pool;
        sched = start_tasks p s.kernel.sched;
        net = net_init p.magic p.device_id s.kernel.net;
      };
      heap = r.heap;
      uart = uart_init s.uart;
    }
