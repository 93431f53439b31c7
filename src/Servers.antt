-- ===== src/Servers.antt =====
-- server/server_mgmt.c: `start_servers`, over the kernel's system calls. The entry points of the servers are addresses; log output is
-- left out. `none` would mean that the scheduler ran out of fuel.
pub mod Started
use hydra_microkernal.Prelude.{ℕ, Option, none, some, ℤ, pos, is_neg, if◌then◌else◌}
use hydra_microkernal.Kernel.{Kernel}
use hydra_microkernal.Hydra.{syscall_create_task}

-- `g_bullet_server_pid` and `g_net_server_pid`, which are -1 at first, with the kernel.
pub record Servers : Type 0 where
  pub kernel : Kernel
  pub bullet_server_pid : ℤ
  pub net_server_pid : ℤ

-- A number that is set only if the task was created.
abbrev pub pid_or : ℤ → ℤ → ℤ
pid_or pid old = if is_neg pid then old else pid

-- The two halves, behind their system calls.
abbrev pub bullet_started : Servers → Option (Kernel × ℤ) → Option Servers
bullet_started s none = none
bullet_started s (some (k, pid)) =
    some (record s { kernel = k; bullet_server_pid = pid_or pid s.bullet_server_pid })

abbrev pub net_started : Servers → Option (Kernel × ℤ) → Option Servers
net_started s none = none
net_started s (some (k, pid)) =
    some (record s { kernel = k; net_server_pid = pid_or pid s.net_server_pid })

unfoldable pub start_servers : ℕ → ℕ → ℕ → Servers → Option Servers
unfolding syscall_create_task
start_servers tasks_base bullet_server_main net_server_main s =
    elim (bullet_started s (syscall_create_task tasks_base (pos bullet_server_main) s.kernel)) [
      | none ↦ none
      | some s' ↦ net_started s' (syscall_create_task tasks_base (pos net_server_main) s'.kernel)
    ]
