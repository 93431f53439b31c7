-- ===== src/Trap/Tests.antt =====
-- The theorems about kernal/timer.c at a table of three tasks.
use hydra_microkernal.Prelude.{ℕ, ◌+◌, ◌^◌, ◌≡◌, ◌≢◌, refl, false, true, List, [], ◌∷◌, some, arith}
use hydra_microkernal.Uart.{Uart}
use hydra_microkernal.Sched.Tests.{three, three-IsValid}
use hydra_microkernal.Trap.{Machine, halts, returns, switches, cause_timer_interrupt, trap_handler}
use hydra_microkernal.Trap.Handler.{Handled, trap_handler-recursive, trap_handler-Handled}

abbrev idle_uart : Uart
idle_uart = record { input_buffer = λ i. 0; buffer_head = 0; buffer_tail = 0; buffer_count = 0 }

abbrev machine : Machine
machine = record {
  timer = record {
    timer_ticks = 0;
    trap_count = 0;
    in_trap = false;
    mtimecmp = 0;
    timer_enabled = true;
    interrupts_enabled = true;
    mepc = 0;
  };
  sched = three;
  uart = idle_uart;
}

-- Task 1 is interrupted, and task 0 is ready.
trap_handler-recursive_example :
    (m' : Machine) × (trap_handler 500 [] cause_timer_interrupt 64 machine ≡ some (switches m'))
    × (m'.sched.current_task ≢ 1)
    × ((m'' : Machine) (later : ℕ) (bytes : List ℕ) (cause pc : ℕ)
        → m''.timer.in_trap ≡ m'.timer.in_trap
        → trap_handler later bytes cause pc m''
          ≡ some (halts (record m'' { timer = record m''.timer { interrupts_enabled = false } })))
trap_handler-recursive_example =
    trap_handler-recursive machine {j = 0} 500 [] 64 three-IsValid
      (record { created = omega arith; state = refl; not_current = omega arith }) refl

-- Two bytes come over the serial line.
trap_handler-Handled_example :
    (m' : Machine) × (trap_handler 500 (65 ∷ 66 ∷ []) (2 ^ 63 + 9) 64 machine ≡ some (returns m'))
    × Handled (65 ∷ 66 ∷ []) (2 ^ 63 + 9) 64 machine m'
trap_handler-Handled_example =
    trap_handler-Handled 500 (65 ∷ 66 ∷ []) (2 ^ 63 + 9) 64 machine refl (omega arith) (omega arith)
