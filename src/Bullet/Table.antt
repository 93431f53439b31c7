-- ===== src/Bullet/Table.antt =====
-- The request table of server/bullet.c.
use hydra_microkernal.Prelude.{
  less_header, ℕ, zero, suc, ◌+◌, ◌≤◌, ◌<◌, ◌≡◌, refl, ap, ◌∙◌, ◌⊎◌, inl, inr, not, ◌&&◌, none,
  some, ℤ, pos, negsuc, is_neg, is_above, pos_part, ltb, if◌then◌else◌, update, update_self,
  update_ne, update-ind, arith, dec_lt, dec_le, ℕ_discrete, Bool-cases,
}
use hydra_microkernal.Bullet.{
  Bullet, MigrationRequest, max_migration_requests, bullet_init, handle_migration_request, migrate,
  migrate_from, process_migrations, migration_command, status_command, bullet_handle_client_message,
  bullet_round, migrate_words, status_words,
}

-- A request is pending or completed.
abbrev IsSettled : MigrationRequest → Type 0
IsSettled req = (req.status ≡ pos 0) ⊎ (req.status ≡ pos 2)

-- Between rounds every request in the table is completed.
pub record IsTable (b : Bullet) : Type 0 where
  pub room : b.num_requests ≤ max_migration_requests
  pub done : (i : ℕ) → i < b.num_requests → (b.requests i).status ≡ pos 2

-- What stays of a request, whatever its status.
pub record SameRequest (r r' : MigrationRequest) : Type 0 where
  pub source : r'.source_pid ≡ r.source_pid
  pub target : r'.target_node ≡ r.target_node
  pub size : r'.process_size ≡ r.process_size
  pub data_at : r'.process_data ≡ r.process_data

migrate-done : (req : MigrationRequest) → IsSettled req → (migrate req).status ≡ pos 2
unfolding migrate
migrate-done req (inl e) = ground arith
migrate-done req (inr e) = ground arith

migrate-SameRequest : (req : MigrationRequest) → SameRequest req (migrate req)
unfolding migrate
migrate-SameRequest req = ground arith

migrate_from-before :
    (n i : ℕ) (f : ℕ → MigrationRequest) (j : ℕ) → j < i → migrate_from n i f j ≡ f j
unfolding migrate_from
migrate_from-before zero i f j h = refl
migrate_from-before (suc n) i f j h =
    migrate_from-before n (i + 1) (update f i (migrate (f i))) j (omega arith)
    ∙ update_ne f i j (migrate (f i)) (omega arith)

migrate_from-within :
    (n i : ℕ) (f : ℕ → MigrationRequest) (j : ℕ)
    → i ≤ j
    → j < i + n
    → migrate_from n i f j ≡ migrate (f j)
unfolding migrate_from
migrate_from-within zero i f j h k = absurd (omega arith)
migrate_from-within (suc n) i f j h k = elim (ℕ_discrete i j) [
  | yes e ↦
      migrate_from-before n (i + 1) (update f i (migrate (f i))) j (omega arith)
      ∙ rw (← e) (update_self f i (migrate (f i)))
  | no ne ↦
      migrate_from-within n (i + 1) (update f i (migrate (f i))) j (omega arith) (omega arith)
      ∙ ap migrate (update_ne f i j (migrate (f i)) ne)
]

-- The loop of `process_migrations` treats each request of the table once.
process_migrations-migrate :
    (b : Bullet) (i : ℕ)
    → i < b.num_requests
    → (process_migrations b).requests i ≡ migrate (b.requests i)
unfolding process_migrations
process_migrations-migrate b i h =
    migrate_from-within b.num_requests 0 b.requests i (omega arith) (omega arith)

process_migrations-num : (b : Bullet) → (process_migrations b).num_requests ≡ b.num_requests
unfolding process_migrations
process_migrations-num b = refl

-- A step of the table: it fits, its requests are settled, and the old ones are as they were.
record Grows (b b' : Bullet) : Type 0 where
  room : b'.num_requests ≤ max_migration_requests
  longer : b.num_requests ≤ b'.num_requests
  settled : (i : ℕ) → i < b'.num_requests → IsSettled (b'.requests i)
  same : (i : ℕ) → i < b.num_requests → b'.requests i ≡ b.requests i

Grows-refl : {b : Bullet} → IsTable b → Grows b b
Grows-refl t = record {
  room = t.room;
  longer = omega arith;
  settled = λ i h. inr (t.done i h);
  same = λ i h. refl;
}

-- The entry that a request is queued as.
abbrev entry : ℤ → ℤ → ℕ → ℤ → MigrationRequest
entry source target at size = record {
  source_pid = source;
  target_node = target;
  process_size = size;
  process_data = at;
  status = pos 0;
}

handle_migration_request_full :
    (source target : ℤ) (at : ℕ) (size : ℤ) (b : Bullet)
    → max_migration_requests ≤ b.num_requests
    → handle_migration_request source target at size b ≡ (b, negsuc 0)
unfolding handle_migration_request
handle_migration_request_full source target at size b h = ground arith

handle_migration_request_queued :
    (source target : ℤ) (at : ℕ) (size : ℤ) (b : Bullet)
    → b.num_requests < max_migration_requests
    → handle_migration_request source target at size b ≡ (
      record b {
        requests = update b.requests b.num_requests (entry source target at size);
        num_requests = b.num_requests + 1;
      },
      pos b.num_requests,
    )
unfolding handle_migration_request
handle_migration_request_queued source target at size b h = ground arith

handle_migration_request-Grows :
    (source target : ℤ) (at : ℕ) (size : ℤ) {b : Bullet}
    → IsTable b
    → Grows b (handle_migration_request source target at size b).0
handle_migration_request-Grows source target at size {b} t =
    elim (dec_le max_migration_requests b.num_requests) [
      | yes full ↦ rw (handle_migration_request_full source target at size b full) (Grows-refl t)
      | no room ↦
          rw (handle_migration_request_queued source target at size b (omega arith)) (record {
            room = omega arith;
            longer = omega arith;
            settled =
                update-ind (λ i req. i < b.num_requests + 1 → IsSettled req) b.requests
                  b.num_requests (entry source target at size) (λ h. inl refl)
                  (λ i ne h. inr (t.done i (omega arith)));
            same = λ i h.
                update_ne b.requests b.num_requests i (entry source target at size) (omega arith);
          })
    ]

bullet_handle_client_message-Grows :
    (sender : ℤ) (at : ℕ) (words : ℕ → ℤ) (size : ℤ) {b : Bullet}
    → IsTable b
    → Grows b (bullet_handle_client_message sender at words size b).0
unfolding bullet_handle_client_message migration_command status_command
bullet_handle_client_message-Grows sender at words size t =
    ground
      (arith, handle_migration_request-Grows sender (words 1) (at + 12) (words 2) t, Grows-refl t)

-- What `bullet_round` runs `process_migrations` on.
bullet_round-Grows :
    (msg_buffer : ℕ) (words : ℕ → ℤ) (msg_size : ℤ) {b : Bullet}
    → IsTable b
    → (b' : Bullet) × (Grows b b')
      × ((bullet_round msg_buffer words msg_size b).0 ≡ process_migrations b')
unfolding bullet_round
bullet_round-Grows msg_buffer words msg_size {b} t = elim (Bool-cases (is_above msg_size 0)) [
  | inl above ↦ (
    (bullet_handle_client_message (words 0) (msg_buffer + 4) (λ i. words (suc i))
        (less_header msg_size) b).0,
    bullet_handle_client_message-Grows (words 0) (msg_buffer + 4) (λ i. words (suc i))
        (less_header msg_size) t,
    ground arith,
  )
  | inr below ↦ (b, Grows-refl t, ground arith)
]

process_migrations-IsTable :
    {b b' : Bullet}
    → Grows b b'
    → IsTable (process_migrations b')
      × (b.num_requests ≤ (process_migrations b').num_requests)
      × ((i : ℕ)
          → i < b.num_requests
          → SameRequest (b.requests i) ((process_migrations b').requests i))
process_migrations-IsTable {b} {b'} g = (
  record {
    room = rw (process_migrations-num b') g.room;
    done = λ i h.
        let below : i < b'.num_requests = rw (← process_migrations-num b') h in
        rw (process_migrations-migrate b' i below)
          (migrate-done (b'.requests i) (g.settled i below));
  },
  rw (process_migrations-num b') g.longer,
  λ i h.
      let below : i < b'.num_requests = omega (arith, h, g.longer) in
      rw (process_migrations-migrate b' i below)
        (rw (← g.same i h) (migrate-SameRequest (b'.requests i))),
)

-- A round of the server keeps the table: it stays within 16 requests, every request in it is
-- completed by the end of the round, none leaves it, and no old one changes its source, target, size
-- or data pointer. So whatever messages arrive, no request is left pending or in progress.
pub bullet_round-IsTable :
    (msg_buffer : ℕ) (words : ℕ → ℤ) (msg_size : ℤ) {b : Bullet}
    → IsTable b
    → IsTable (bullet_round msg_buffer words msg_size b).0
      × (b.num_requests ≤ (bullet_round msg_buffer words msg_size b).0.num_requests)
      × ((i : ℕ)
          → i < b.num_requests
          → SameRequest (b.requests i) ((bullet_round msg_buffer words msg_size b).0.requests i))
bullet_round-IsTable msg_buffer words msg_size {b} t =
    let (b', grows, state) = bullet_round-Grows msg_buffer words msg_size t in
    rw state (process_migrations-IsTable grows)

pub bullet_init-IsTable : (pid : ℤ) (b : Bullet) → IsTable (bullet_init pid b)
unfolding bullet_init
bullet_init-IsTable pid b = record { room = omega arith; done = λ i h. absurd (omega arith) }

-- The answer to the message that `bullet_check_migration_status` sends: 2, completed, for the number of
-- a request in the table, and -1 for any other number. The round then leaves every request as it was.
pub bullet_round-status :
    (msg_buffer : ℕ) (pid req_id : ℤ) {b : Bullet}
    → IsTable b
    → (bullet_round msg_buffer (status_words pid req_id) (pos 12) b).1
      ≡ some (
        pid,
        if not (is_neg req_id) && ltb (pos_part req_id) b.num_requests then pos 2 else negsuc 0,
      )
unfolding bullet_round bullet_handle_client_message status_command
bullet_round-status msg_buffer pid (negsuc m) t = refl
bullet_round-status msg_buffer pid (pos m) {b} t = elim (dec_lt m b.num_requests) [
  | yes known ↦ ground (arith, t.done m known)
  | no unknown ↦ ground arith
]

-- The message that `bullet_migrate_process` sends, 16 bytes of which the server takes the first four
-- as the sender, is dropped: no request is added and no answer is sent, whatever the node, the size and the table. The
-- round only does what it would do without a message.
pub bullet_round-migrate_words :
    (msg_buffer : ℕ) (pid target_node size : ℤ) (b : Bullet)
    → bullet_round msg_buffer (migrate_words pid target_node size) (pos 16) b
      ≡ (process_migrations b, none)
unfolding bullet_round bullet_handle_client_message migration_command
bullet_round-migrate_words msg_buffer pid target_node size b = refl

bullet_round-migration :
    (msg_buffer : ℕ) (words : ℕ → ℤ) (n : ℕ) (b : Bullet)
    → 20 ≤ n
    → words 1 ≡ pos 1
    → b.num_requests < max_migration_requests
    → bullet_round msg_buffer words (pos n) b ≡ (
      process_migrations (record b {
        requests =
            update b.requests b.num_requests
              (entry (words 0) (words 2) (msg_buffer + 4 + 12) (words 3));
        num_requests = b.num_requests + 1;
      }),
      some (words 0, pos b.num_requests),
    )
unfolding bullet_round bullet_handle_client_message migration_command
bullet_round-migration msg_buffer words n b h e room = ground (
  arith,
  handle_migration_request_queued (words 0) (words 2) (msg_buffer + 4 + 12) (words 3) b room,
)

-- A migration message of 20 bytes or more, the sender's word first, is queued when there is room: the new request carries the
-- sender, the node and the size of the message, is completed by the end of the round, and the answer is its
-- number. Its data pointer is 16 bytes into the buffer that the next message overwrites, so it is the same for every
-- request of every sender.
pub bullet_round-queued :
    (msg_buffer : ℕ) (words : ℕ → ℤ) (n : ℕ) (b : Bullet)
    → 20 ≤ n
    → words 1 ≡ pos 1
    → b.num_requests < max_migration_requests
    → let r = bullet_round msg_buffer words (pos n) b in
      (r.1 ≡ some (words 0, pos b.num_requests))
      × (r.0.num_requests ≡ b.num_requests + 1)
      × (r.0.requests b.num_requests ≡ record {
        source_pid = words 0;
        target_node = words 2;
        process_size = words 3;
        process_data = msg_buffer + 16;
        status = pos 2;
      })
bullet_round-queued msg_buffer words n b h e room =
    rw (bullet_round-migration msg_buffer words n b h e room) (
      refl,
      process_migrations-num _,
      process_migrations-migrate _ b.num_requests (omega arith)
          ∙ ap migrate (update_self b.requests b.num_requests _)
          ∙ unfold migrate in ground arith,
    )
