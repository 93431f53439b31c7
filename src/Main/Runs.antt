-- ===== src/Main/Runs.antt =====
-- Runs of the kernel behind `kmain` of kernal/main.c: rounds of the main loop, system calls of the tasks and interrupts, in any
-- order.
use hydra_microkernal.Prelude.{ℕ, ◌≡◌, Option, some, ℤ, List}
use hydra_microkernal.Uart.{uart_interrupt_handler}
use hydra_microkernal.Sched.{Sched}
use hydra_microkernal.Net.{Net, net_interrupt_handler}
use hydra_microkernal.Kernel.{Kernel, handle_syscall}
use hydra_microkernal.Kernel.Frame.{IsGiven}
use hydra_microkernal.Main.{System, Platform, main_round}
use hydra_microkernal.Main.Boot.{IsSystem}

-- A run that comes to its end, for a round the switch in `task_yield`, in a well-formed kernel.
pub record Ends (p : Platform) (run : Option System) : Type 0 where
  pub state : System
  pub returns : run ≡ some state
  pub system : IsSystem p state

-- What a test program has to do.
abbrev pub Keeps : Platform → (System → Option System) → Type 0
Keeps p program = (s : System) → IsSystem p s → Ends p (program s)

module _ (structures : ℕ → Type 0) (phase5_test phase6_demo : System → Option System)
    (p : Platform) where
  -- A round of the main loop up to its switch, a system call of the running task whose buffer avoids the kernel's structures, bytes on
  -- the serial line, or a packet's interrupt.
  pub data Step (s s' : System) : Type 0 where
    rounds : main_round phase5_test phase6_demo p s ≡ some s' → Step s s'
    calls :
        (syscall_num arg1 arg2 arg3 result : ℤ) (k : Kernel)
        → ((a : ℕ) → structures a → ¬ IsGiven syscall_num arg1 arg2 arg3 a)
        → handle_syscall p.tasks_base syscall_num arg1 arg2 arg3 s.kernel ≡ some (k, result)
        → s' ≡ record s { kernel = k }
        → Step s s'
    types :
        (incoming : List ℕ)
        → s' ≡ record s { uart = uart_interrupt_handler s.uart incoming }
        → Step s s'
    arrives :
        s' ≡ record s { kernel = record s.kernel { net = net_interrupt_handler s.kernel.net } }
        → Step s s'

  pub data Reach (s : System) : System → Type 0 where
    here : Reach s s
    more : {t u : System} → Reach s t → Step t u → Reach s u
