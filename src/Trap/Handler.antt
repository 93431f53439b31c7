-- ===== src/Trap/Handler.antt =====
-- The trap handler of kernal/timer.c.
use hydra_microkernal.Prelude.{
  ℕ, ◌+◌, ◌%◌, ◌^◌, ◌<◌, ◌≡◌, ◌≢◌, ap, ◌∙◌, true, false, some, List, ltb, ◌==◌, if◌then◌else◌,
  if_ne, arith,
}
use hydra_microkernal.Sched.{sched_tick}
use hydra_microkernal.Sched.Inv.{IsValid}
use hydra_microkernal.Sched.Calls.{sched_tick-IsValid}
use hydra_microkernal.Sched.Fair.{IsWaiting, Schedules-switches}
use hydra_microkernal.Uart.{uart_interrupt_handler}
use hydra_microkernal.Trap.{
  Machine, halts, returns, switches, cause_timer_interrupt, cause_ecall_from_m, leave, enter, tick,
  ticked, unknown_trap, is_external, dispatch, trap_handler,
}

trap_handler-halts :
    (now : ℕ) (incoming : List ℕ) (cause epc : ℕ) (m : Machine)
    → m.timer.in_trap ≡ true
    → trap_handler now incoming cause epc m
      ≡ some (halts (record m { timer = record m.timer { interrupts_enabled = false } }))
unfolding trap_handler
trap_handler-halts now incoming cause epc m e = rw e

trap_handler-tick :
    (now : ℕ) (incoming : List ℕ) (epc : ℕ) (m : Machine)
    → m.timer.in_trap ≡ false
    → trap_handler now incoming cause_timer_interrupt epc m
      ≡ ticked (tick now (enter m)) (sched_tick m.sched)
unfolding trap_handler dispatch
trap_handler-tick now incoming epc m e = rw e

-- A timer interrupt that finds another task ready, in a valid table, switches to a task and leaves `in_trap` set. If that task
-- goes on outside the handler, as every task does that has not been stopped by a timer interrupt before, then the
-- next trap of any kind halts the machine, interrupts disabled.
pub trap_handler-recursive :
    (m : Machine) {j : ℕ} (now : ℕ) (incoming : List ℕ) (epc : ℕ)
    → IsValid m.sched
    → IsWaiting j m.sched
    → m.timer.in_trap ≡ false
    → (m' : Machine) × (trap_handler now incoming cause_timer_interrupt epc m ≡ some (switches m'))
      × (m'.sched.current_task ≢ m.sched.current_task)
      × ((m'' : Machine) (later : ℕ) (bytes : List ℕ) (cause pc : ℕ)
          → m''.timer.in_trap ≡ m'.timer.in_trap
          → trap_handler later bytes cause pc m''
            ≡ some (halts (record m'' { timer = record m''.timer { interrupts_enabled = false } })))
unfolding ticked tick enter
trap_handler-recursive m now incoming epc v w e =
    let r = sched_tick-IsValid v in
    let moved = Schedules-switches r.2 v w in
    (
      record (tick now (enter m)) { sched = r.0 },
      trap_handler-tick now incoming epc m e
          ∙ ap (ticked (tick now (enter m))) r.1
          ∙ if_ne r.0.current_task m.sched.current_task _ _ moved,
      moved,
      λ m'' later bytes cause pc same. trap_handler-halts later bytes cause pc m'' same,
    )

-- What a trap other than the timer's is to do: a system call is skipped, a serial interrupt takes its bytes, and
-- a trap of no known kind disables the interrupts once more than ten traps have come.
pub record Handled (incoming : List ℕ) (cause epc : ℕ) (m m' : Machine) : Type 0 where
  pub sched : m'.sched ≡ m.sched
  pub uart : m'.uart ≡ (
      if cause == cause_ecall_from_m
      then m.uart
      else if is_external cause
      then uart_interrupt_handler m.uart incoming
      else m.uart)
  pub mepc :
      m'.timer.mepc ≡ (if cause == cause_ecall_from_m then (epc + 4) % 2 ^ 64 else m.timer.mepc)
  pub interrupts : m'.timer.interrupts_enabled ≡ (
      if cause == cause_ecall_from_m
      then m.timer.interrupts_enabled
      else if is_external cause
      then m.timer.interrupts_enabled
      else if ltb 9 m.timer.trap_count
      then false
      else m.timer.interrupts_enabled)
  pub outside : m'.timer.in_trap ≡ false
  pub count : m'.timer.trap_count ≡ m.timer.trap_count + 1
  pub clock : (m'.timer.timer_ticks ≡ m.timer.timer_ticks) × (m'.timer.mtimecmp ≡ m.timer.mtimecmp)

-- What a trap that returns leaves.
abbrev after_trap : List ℕ → ℕ → ℕ → Machine → Machine
after_trap incoming cause epc m = leave (
    if cause == cause_ecall_from_m
    then record m { timer = record m.timer { mepc = (epc + 4) % 2 ^ 64 } }
    else if is_external cause
    then record m { uart = uart_interrupt_handler m.uart incoming }
    else unknown_trap m)

dispatch-returns :
    (now : ℕ) (incoming : List ℕ) (cause epc : ℕ) (m : Machine)
    → cause ≢ cause_timer_interrupt
    → dispatch now incoming cause epc m ≡ some (returns (after_trap incoming cause epc m))
unfolding dispatch
dispatch-returns now incoming cause epc m ne = ground arith

-- A trap that is not the timer's and does not interrupt the handler, when fewer than 2^31 - 1 traps have come, so that the `int` that counts them
-- does not overflow: the handler returns, outside itself again, with
-- the task table and the clock as they were, and with what the kind of trap asks for done.
pub trap_handler-Handled :
    (now : ℕ) (incoming : List ℕ) (cause epc : ℕ) (m : Machine)
    → m.timer.in_trap ≡ false
    → cause ≢ cause_timer_interrupt
    → m.timer.trap_count + 1 < 2 ^ 31
    → (m' : Machine) × (trap_handler now incoming cause epc m ≡ some (returns m'))
      × Handled incoming cause epc m m'
unfolding trap_handler enter leave unknown_trap
trap_handler-Handled now incoming cause epc m e ne small = (
  after_trap incoming cause epc (enter m),
  rw e (dispatch-returns now incoming cause epc (enter m) ne),
  ground arith,
)
