-- ===== src/Main.antt =====
-- kernal/main.c: `kmain`, which starts the parts of the kernel and then reads commands from the serial line. What the linker,
-- the compiler and the device give is a record of addresses and registers. The test programs of apps/ that `kmain` runs are
-- arguments: they use the system calls and the libraries. Log output and the echo of a command are left out, and
-- with them the command 's', which only prints. `none` means that a loop over the heap or over the tasks ran out
-- of fuel, or that a test program did not return.
pub mod Boot
pub mod Idle
pub mod Runs
mod Tests
use hydra_microkernal.Prelude.{
  ℕ, suc, ◌==◌, Option, none, some, ℤ, pos, List, [], ◌∷◌, Bytes, update, if◌then◌else◌,
}
use hydra_microkernal.Mm.{Heap, mm_init}
use hydra_microkernal.Uart.{Uart, uart_init, uart_getc}
use hydra_microkernal.Sched.{Sched, sched_init, create_task, task_yield}
use hydra_microkernal.Ipc.{Ipc}
use hydra_microkernal.Ipc.Start.{ipc_init}
use hydra_microkernal.Net.{Net, net_init, net_send, net_receive, net_free_packet}
use hydra_microkernal.Kernel.{Kernel, handle_syscall}

pub record System : Type 0 where
  pub kernel : Kernel
  pub heap : Heap
  pub uart : Uart

-- `__heap_start` and `__heap_end`, the task table, the entry points of the test tasks and of the servers, the
-- registers of the network device, and the local variable `test_data` of the command 'b'.
pub record Platform : Type 0 where
  pub heap_start : ℕ
  pub heap_end : ℕ
  pub tasks_base : ℕ
  pub idle_task1 : ℕ
  pub idle_task2 : ℕ
  pub idle_task3 : ℕ
  pub bullet_server_main : ℕ
  pub net_server_main : ℕ
  pub magic : ℕ
  pub device_id : ℕ
  pub test_data : ℕ

-- The task table of `sched_init` with the two servers.
unfoldable pub start_tasks : Platform → Sched → Sched
start_tasks p s =
    let idle = sched_init p.tasks_base p.idle_task1 p.idle_task2 p.idle_task3 s in
    let bullet = (create_task p.tasks_base p.bullet_server_main idle).0 in
    (create_task p.tasks_base p.net_server_main bullet).0

-- What follows `ipc_init`.
abbrev pub started : Platform → System → Option (Ipc × Heap) → Option System
started p s none = none
started p s (some (ipc', heap')) = some (record {
  kernel = record s.kernel {
    ipc = ipc';
    sched = start_tasks p s.kernel.sched;
    net = net_init p.magic p.device_id s.kernel.net;
  };
  heap = heap';
  uart = uart_init s.uart;
})

-- `kmain` up to the tests of the libraries.
unfoldable pub kmain_start : ℕ → Platform → System → Option System
unfolding start_tasks
kmain_start fuel p s =
    started p s (ipc_init fuel s.kernel.ipc (mm_init p.heap_start p.heap_end s.heap))

-- `test_data` of the command 'b': "Migration test data" with its terminating zero.
abbrev pub migration_data : List ℕ
migration_data =
    77 ∷ 105 ∷ 103 ∷ 114 ∷ 97 ∷ 116 ∷ 105 ∷ 111 ∷ 110 ∷ 32 ∷ 116 ∷ 101 ∷ 115 ∷ 116 ∷ 32 ∷ 100 ∷ 97
    ∷ 116 ∷ 97 ∷ 0 ∷ []

-- The bytes of an initialised array, from an address on.
unfoldable pub store_bytes : ℕ → List ℕ → Bytes → Bytes
store_bytes a [] memory = memory
store_bytes a (c ∷ cs) memory = store_bytes (suc a) cs (update memory a c)

-- The command 'r': a packet is taken off the queue and freed at once.
unfoldable pub receive_command : Net → Net
receive_command s = let (pkt, s') = net_receive s in if pkt == 0 then s' else net_free_packet pkt s'

-- The rest of a command that makes a system call.
abbrev pub called : System → Option (Kernel × ℤ) → Option System
called s none = none
called s (some (k, result)) = some (record s { kernel = k })

-- The commands: 'n', 'r', 'b', 't', 'l' and '6'. The first argument is what `phase5_test` and `phase6_demo` do.
unfoldable pub run_command :
    (System → Option System) → (System → Option System) → Platform → ℕ → System → Option System
unfolding receive_command store_bytes
run_command phase5_test phase6_demo p c s =
    if c == 110
    then some (record s { kernel = record s.kernel { net = (net_send 15 s.kernel.net).0 } })
    else if c == 114
    then some (record s { kernel = record s.kernel { net = receive_command s.kernel.net } })
    else if c == 98
    then called s (
        handle_syscall p.tasks_base (pos 1) (pos 1) (pos p.test_data) (pos 20)
          (record s.kernel { memory = store_bytes p.test_data migration_data s.kernel.memory }))
    else if c == 116
    then called s (handle_syscall p.tasks_base (pos 1) (pos 1) (pos 1) (pos 0) s.kernel)
    else if c == 108
    then phase5_test s
    else if c == 54
    then phase6_demo s
    else some s

-- The call of `task_yield` at the end of a round, up to the switch of tasks in it: the task that it chose goes on in the
-- state that it leaves. The code behind the switch runs when the boot code is scheduled again, if it ever is; it
-- changes nothing.
abbrev pub switched : System → Option Sched → Option System
switched s none = none
switched s (some sched') = some (record s { kernel = record s.kernel { sched = sched' } })

abbrev pub yielded : Option System → Option System
yielded none = none
yielded (some s) = switched s (task_yield s.kernel.sched)

-- One round of the main loop, from the place behind `task_yield` to the switch in the next call of it.
unfoldable pub main_round :
    (System → Option System) → (System → Option System) → Platform → System → Option System
unfolding run_command
main_round phase5_test phase6_demo p s =
    let (c, uart') = uart_getc s.uart in
    let read = record s { uart = uart' } in
    yielded (if c == 0 then some read else run_command phase5_test phase6_demo p c read)
