-- ===== src/Bullet/Tests.antt =====
-- The theorems about server/bullet.c at small inputs.
use hydra_microkernal.Prelude.{[], ◌∷◌, ℕ, refl, true, ℤ, pos, ◌==◌, if◌then◌else◌, arith}
use hydra_microkernal.Bullet.{Bullet, MigrationRequest, Received, bullet_server_main}
use hydra_microkernal.Bullet.Rounds.{Extends, bullet_server_main-Extends}
use hydra_microkernal.Bullet.Table.{IsTable}

-- Task 7 has moved to node 4.
abbrev moved : MigrationRequest
moved = record {
  source_pid = pos 7;
  target_node = pos 4;
  process_size = pos 64;
  process_data = 528;
  status = pos 2;
}

abbrev one_moved : Bullet
one_moved = record { server_pid = pos 3; requests = λ i. moved; num_requests = 1; active = true }

-- A migration message of task 7, the sender's word first.
abbrev move_words : ℕ → ℤ
move_words i = if i == 0 then pos 7 else if i == 1 then pos 1 else if i == 2 then pos 5 else pos 64

one_moved-IsTable : IsTable one_moved
one_moved-IsTable = record { room = omega arith; done = λ i h. refl }

abbrev move : Received
move = record { words = move_words; msg_size = pos 20 }

bullet_server_main-Extends_example :
    IsTable (bullet_server_main (pos 3) 512 (move ∷ []) one_moved).0
    × Extends
        (bullet_server_main (pos 3) 512 (move ∷ []) one_moved).0
        (bullet_server_main (pos 3) 512 (move ∷ move ∷ []) one_moved).0
bullet_server_main-Extends_example =
    bullet_server_main-Extends (pos 3) 512 (move ∷ []) (move ∷ []) one_moved
