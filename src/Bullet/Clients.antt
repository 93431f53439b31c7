-- ===== src/Bullet/Clients.antt =====
-- The client functions of server/bullet.c.
use hydra_microkernal.Prelude.{ℕ, ◌<◌, ◌≡◌, refl, false, Option, ℤ, is_neg, arith}
use hydra_microkernal.Retry.{received_or, send_retries-sent}
use hydra_microkernal.Bullet.{bullet_migrate_process, bullet_check_migration_status}

-- If one of the three attempts to send succeeds, both client functions return the server's answer, or -1 where
-- none is received.
pub bullet_clients_answer :
    (sent : ℕ → ℤ) (answer : Option ℤ) (k : ℕ)
    → k < 3
    → is_neg (sent k) ≡ false
    → (bullet_migrate_process sent answer ≡ received_or answer)
      × (bullet_check_migration_status sent answer ≡ received_or answer)
unfolding bullet_migrate_process bullet_check_migration_status
bullet_clients_answer sent answer k h e =
    let left = send_retries-sent 3 0 sent k (omega arith) (omega arith) e in
    (rw left refl, rw left refl)
