-- ===== src/Trap.antt =====
-- kernal/timer.c: the timer and the trap handler that kernal/trap_riscv.s calls. What the device and the processor give is an
-- argument: `now` is the register of the time, and `incoming` the bytes that the serial line has ready. A call of `sched_tick`
-- that switches goes on in another task: what the handler does behind it waits until the old task runs again.
-- `trap_count` is the 32 bits of the `int`: C leaves its overflow undefined, and the model goes on with the bits of the
-- sum. What the processor itself does to `mstatus` at a trap and
-- at `mret`, and log output, are left out.
pub mod Handler
mod Tests
use hydra_microkernal.Prelude.{
  ℕ, ◌+◌, ◌*◌, ◌/◌, ◌%◌, ◌^◌, Bool, true, false, ◌&&◌, Option, none, some, List, is_above, signed32,
  ◌==◌, if◌then◌else◌,
}
use hydra_microkernal.Sched.{Sched, sched_tick}
use hydra_microkernal.Uart.{Uart, uart_interrupt_handler}

-- CAUSE_TIMER_INTERRUPT and CAUSE_ECALL_FROM_M
abbrev pub cause_timer_interrupt : ℕ
cause_timer_interrupt = 2 ^ 63 + 7

abbrev pub cause_ecall_from_m : ℕ
cause_ecall_from_m = 11

-- TIMER_INTERVAL
abbrev pub timer_interval : ℕ
timer_interval = 1000000

-- `timer_ticks`, the two variables of the handler, the register of the next interrupt, the bit of the timer in `mie`, the
-- bit of `mstatus` that enables interrupts, and `mepc`.
pub record Timer : Type 0 where
  pub timer_ticks : ℕ
  pub trap_count : ℕ
  pub in_trap : Bool
  pub mtimecmp : ℕ
  pub timer_enabled : Bool
  pub interrupts_enabled : Bool
  pub mepc : ℕ

pub record Machine : Type 0 where
  pub timer : Timer
  pub sched : Sched
  pub uart : Uart

unfoldable pub timer_init : ℕ → Timer → Timer
timer_init now t = record t {
  mtimecmp = (now + timer_interval * 10) % 2 ^ 64;
  timer_enabled = true;
}

unfoldable pub enable_interrupts : ℕ → Timer → Timer
enable_interrupts now t = record t {
  mtimecmp = (now + timer_interval) % 2 ^ 64;
  interrupts_enabled = true;
}

-- The handler halts, it returns to the code that was interrupted, or it stands in the middle of the old task's call while another
-- task runs.
pub data Outcome : Type 0 where
  halts : Machine → Outcome
  returns : Machine → Outcome
  switches : Machine → Outcome

-- `in_trap = 0`
unfoldable pub leave : Machine → Machine
leave m = record m { timer = record m.timer { in_trap = false } }

-- `in_trap = 1; trap_count++`
unfoldable pub enter : Machine → Machine
enter m = record m {
  timer = record m.timer { in_trap = true; trap_count = (m.timer.trap_count + 1) % 2 ^ 32 };
}

-- The timer's branch up to the call of `sched_tick`.
unfoldable pub tick : ℕ → Machine → Machine
tick now m = record m {
  timer = record m.timer {
    timer_ticks = (m.timer.timer_ticks + 1) % 2 ^ 64;
    mtimecmp = (now + timer_interval) % 2 ^ 64;
  };
}

-- What follows that call.
unfoldable pub ticked : Machine → Option Sched → Option Outcome
unfolding leave
ticked m none = none
ticked m (some sched') =
    if sched'.current_task == m.sched.current_task
    then some (returns (leave (record m { sched = sched' })))
    else some (switches (record m { sched = sched' }))

-- "Handle other traps"
unfoldable pub unknown_trap : Machine → Machine
unknown_trap m =
    if is_above (signed32 m.timer.trap_count) 10
    then record m { timer = record m.timer { interrupts_enabled = false } }
    else m

-- `(cause & 0x8000000000000000UL) && ((cause & 0xFF) == 9)`
abbrev pub is_external : ℕ → Bool
is_external cause = cause / 2 ^ 63 % 2 == 1 && cause % 256 == 9

-- The branches of the handler.
unfoldable pub dispatch : ℕ → List ℕ → ℕ → ℕ → Machine → Option Outcome
unfolding leave unknown_trap tick
dispatch now incoming cause epc m =
    if cause == cause_timer_interrupt
    then ticked (tick now m) (sched_tick m.sched)
    else if cause == cause_ecall_from_m
    then some (returns (leave (record m { timer = record m.timer { mepc = (epc + 4) % 2 ^ 64 } })))
    else if is_external cause
    then some (returns (leave (record m { uart = uart_interrupt_handler m.uart incoming })))
    else some (returns (leave (unknown_trap m)))

unfoldable pub trap_handler : ℕ → List ℕ → ℕ → ℕ → Machine → Option Outcome
unfolding enter
trap_handler now incoming cause epc m =
    if m.timer.in_trap
    then some (halts (record m { timer = record m.timer { interrupts_enabled = false } }))
    else dispatch now incoming cause epc (enter m)
