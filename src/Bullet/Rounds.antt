-- ===== src/Bullet/Rounds.antt =====
-- The main loop of server/bullet.c.
use hydra_microkernal.Prelude.{ℕ, ◌≤◌, ◌<◌, ◌≡◌, refl, ◌∙◌, ℤ, List, [], ◌∷◌, ◌++◌, arith}
use hydra_microkernal.Bullet.{
  Bullet, MigrationRequest, Received, bullet_round, bullet_rounds, bullet_init, bullet_server_main,
}
use hydra_microkernal.Bullet.Table.{IsTable, SameRequest, bullet_round-IsTable, bullet_init-IsTable}

-- A later state of the table.
pub record Extends (b b' : Bullet) : Type 0 where
  pub table : IsTable b'
  pub longer : b.num_requests ≤ b'.num_requests
  pub same : (i : ℕ) → i < b.num_requests → SameRequest (b.requests i) (b'.requests i)

SameRequest-trans :
    {r r' r'' : MigrationRequest} → SameRequest r r' → SameRequest r' r'' → SameRequest r r''
SameRequest-trans p q = record {
  source = q.source ∙ p.source;
  target = q.target ∙ p.target;
  size = q.size ∙ p.size;
  data_at = q.data_at ∙ p.data_at;
}

Extends-trans : {b b' b'' : Bullet} → Extends b b' → Extends b' b'' → Extends b b''
Extends-trans p q = record {
  table = q.table;
  longer = omega (arith, p.longer, q.longer);
  same = λ i h. SameRequest-trans (p.same i h) (q.same i (omega (arith, p.longer)));
}

-- Rounds keep the table, and the requests in it.
bullet_rounds-Extends :
    (msg_buffer : ℕ) (received : List Received) {b : Bullet}
    → IsTable b
    → Extends b (bullet_rounds msg_buffer received b).0
unfolding bullet_rounds
bullet_rounds-Extends msg_buffer [] t = record {
  table = t;
  longer = omega arith;
  same = λ i h. record { source = refl; target = refl; size = refl; data_at = refl };
}
bullet_rounds-Extends msg_buffer (r ∷ rs) t =
    let (table, longer, same) = bullet_round-IsTable msg_buffer r.words r.msg_size t in
    Extends-trans (record { table = table; longer = longer; same = same })
      (bullet_rounds-Extends msg_buffer rs table)

bullet_rounds-append :
    (msg_buffer : ℕ) (xs ys : List Received) (b : Bullet)
    → (bullet_rounds msg_buffer (xs ++ ys) b).0
      ≡ (bullet_rounds msg_buffer ys (bullet_rounds msg_buffer xs b).0).0
unfolding bullet_rounds
bullet_rounds-append msg_buffer [] ys b = refl
bullet_rounds-append msg_buffer (x ∷ xs) ys b =
    bullet_rounds-append msg_buffer xs ys (bullet_round msg_buffer x.words x.msg_size b).0

-- Whatever messages arrive, the server's table has at most 16 requests, all of them completed, and a request that is in the table after some rounds is
-- there after all later ones, with the same source, target, size and data pointer.
pub bullet_server_main-Extends :
    (pid : ℤ) (msg_buffer : ℕ) (earlier later : List Received) (b : Bullet)
    → IsTable (bullet_server_main pid msg_buffer earlier b).0
      × Extends
          (bullet_server_main pid msg_buffer earlier b).0
          (bullet_server_main pid msg_buffer (earlier ++ later) b).0
unfolding bullet_server_main
bullet_server_main-Extends pid msg_buffer earlier later b =
    let first = bullet_rounds-Extends msg_buffer earlier (bullet_init-IsTable pid b) in
    (
      first.table,
      rw (bullet_rounds-append msg_buffer earlier later (bullet_init pid b))
          (bullet_rounds-Extends msg_buffer later first.table),
    )
