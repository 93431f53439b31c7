-- ===== src/Main/Idle.antt =====
-- kernal/main.c with interrupts disabled: `kmain` calls neither `enable_interrupts` nor `timer_init`, so the handler that
-- reads the serial line is never called.
use hydra_microkernal.Prelude.{
  ◌≡◌, refl, sym, ap, subst, ◌∙◌, inl, inr, Option, none, some, some-injective,
}
use hydra_microkernal.Uart.{uart_getc}
use hydra_microkernal.Uart.Ring.{uart_getc-IsRing}
use hydra_microkernal.Sched.{Sched, task_yield}
use hydra_microkernal.Kernel.{Kernel}
use hydra_microkernal.Main.{System, Platform, switched, main_round}
use hydra_microkernal.Main.Boot.{IsBooted}

module _ (phase5_test phase6_demo : System → Option System) (p : Platform) where
  -- Rounds of the main loop, and whatever other tasks and the network do to the kernel, but no input.
  pub data Silent (s : System) : System → Type 0 where
    here : Silent s s
    round :
        {t u : System} → Silent s t → main_round phase5_test phase6_demo p t ≡ some u → Silent s u
    elsewhere : {t u : System} (k : Kernel) → Silent s t → u ≡ record t { kernel = k } → Silent s u

  -- A round that reads nothing only yields.
  main_round-empty :
      (s : System)
      → uart_getc s.uart ≡ (0, s.uart)
      → main_round phase5_test phase6_demo p s ≡ switched s (task_yield s.kernel.sched)
  unfolding main_round
  main_round-empty s e = rw e refl

  switched-uart : (s u : System) (run : Option Sched) → switched s run ≡ some u → s.uart ≡ u.uart
  switched-uart s u none e = absurd (cc e)
  switched-uart s u (some t) e = ap (λ (x : System). x.uart) (some-injective e)

  Silent-empty :
      {s t : System} → uart_getc s.uart ≡ (0, s.uart) → Silent s t → uart_getc t.uart ≡ (0, t.uart)
  Silent-empty e here = e
  Silent-empty e (round {t} {u} r f) =
      subst (λ x. uart_getc x ≡ (0, x))
        (switched-uart t u (task_yield t.kernel.sched)
          (sym (main_round-empty t (Silent-empty e r)) ∙ f))
        (Silent-empty e r)
  Silent-empty e (elsewhere k r f) = rw f (Silent-empty e r)

  -- Behind the start of the kernel, as long as no handler reads the serial line, no round of the main loop runs a
  -- command: every round only calls `task_yield`.
  pub main_round-idle :
      {s t : System}
      → IsBooted p s
      → Silent s t
      → main_round phase5_test phase6_demo p t ≡ switched t (task_yield t.kernel.sched)
  main_round-idle {s} {t} b r = main_round-empty t (Silent-empty nothing r)
    where
      nothing : uart_getc s.uart ≡ (0, s.uart)
      nothing = elim (uart_getc-IsRing b.system.uart).1 [ inl e ↦ e.1 | inr e ↦ cc (e, b.no_input) ]
