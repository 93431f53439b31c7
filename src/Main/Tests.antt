-- ===== src/Main/Tests.antt =====
-- The theorems about kernal/main.c at a heap of 4 KB.
use hydra_microkernal.Prelude.{◌≡◌, refl, arith, some, [], ◌∷◌, false}
use hydra_microkernal.Uart.{uart_interrupt_handler}
use hydra_microkernal.Sched.{unused, task_yield}
use hydra_microkernal.Sched.Tests.{registers, task}
use hydra_microkernal.Ipc.Start.{empty_queue}
use hydra_microkernal.Ipc.Tests.{blank}
use hydra_microkernal.Net.Tests.{at_start}
use hydra_microkernal.Main.{System, Platform, kmain_start, main_round, switched}
use hydra_microkernal.Main.Boot.{IsOff, HasHeap, Boots, kmain_start-IsBooted}
use hydra_microkernal.Main.Runs.{here}
use hydra_microkernal.Main.Idle.{here as here_silent, main_round-idle}

abbrev platform : Platform
platform = record {
  heap_start = 4096;
  heap_end = 8192;
  tasks_base = 65536;
  idle_task1 = 100;
  idle_task2 = 200;
  idle_task3 = 300;
  bullet_server_main = 400;
  net_server_main = 500;
  magic = 1953655158;
  device_id = 1;
  test_data = 9000;
}

-- Memory as the kernel starts with it.
abbrev off : System
off = record {
  kernel = record {
    ipc = record { store = λ a. blank 0; free_messages = 0; message_queues = λ i. empty_queue };
    sched = record {
      tasks = λ i. task 0 unused;
      current_task = 0;
      num_tasks = 0;
      cpu = registers 9;
    };
    net = at_start;
    memory = λ a. 0;
  };
  heap = record {
    store = λ a. record { size = 0; free = false; next = 0 };
    heap_head = 0;
    total_allocated = 0;
  };
  uart = record { input_buffer = λ i. 0; buffer_head = 0; buffer_tail = 0; buffer_count = 0 };
}

off-IsOff : IsOff off
off-IsOff = record {
  sched = record { current = refl; count = refl; slots = λ i. refl };
  messages = refl;
  queues = λ i h. refl;
  rx_head = refl;
  rx_tail = refl;
  allocated = refl;
}

platform-HasHeap : HasHeap platform
platform-HasHeap = record { ne_null = omega arith; small = omega arith; room = omega arith }

kmain_start-IsBooted_example : Boots platform (kmain_start 66 platform off)
kmain_start-IsBooted_example =
    kmain_start-IsBooted 66 platform off-IsOff platform-HasHeap (omega arith)

abbrev started : Boots platform (kmain_start 66 platform off)
started = kmain_start-IsBooted 66 platform off-IsOff platform-HasHeap (omega arith)

-- A 'b' is typed.
abbrev typed : System
typed = record started.state { uart = uart_interrupt_handler started.state.uart (98 ∷ []) }

main_round-idle_example :
    main_round some some platform started.state
    ≡ switched started.state (task_yield started.state.kernel.sched)
main_round-idle_example = main_round-idle some some platform started.booted here_silent
