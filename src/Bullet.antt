-- ===== src/Bullet.antt =====
-- server/bullet.c: the table of migration requests and the server's main loop, and the messages of its
-- client functions. A message is read as `int` words, so that word `i` is the one at byte 4 * i; a reply
-- that `syscall_send_msg` is called with is returned, its receiver first. `num_requests` counts up from 0, so it is a
-- natural number. Log output is left out.
pub mod Table
pub mod Clients
pub mod Rounds
mod Tests
use hydra_microkernal.Prelude.{
  is_int, less_header, ℕ, zero, suc, ◌+◌, ◌-◌, Bool, true, false, not, ◌&&◌, Option, none, some, ℤ,
  pos, negsuc, List, [], ◌∷◌, is_neg, is_above, is_at_least, pos_part, leb, ltb, ◌==◌,
  if◌then◌else◌, update,
}
use hydra_microkernal.Retry.{send_retries, received_or}

-- MAX_MIGRATION_REQUESTS
abbrev pub max_migration_requests : ℕ
max_migration_requests = 16

-- `struct migration_request`; the status is 0 (pending), 1 (in progress), 2 (completed) or -1.
pub record MigrationRequest : Type 0 where
  pub source_pid : ℤ
  pub target_node : ℤ
  pub process_size : ℤ
  pub process_data : ℕ
  pub status : ℤ

-- `struct bullet_server`
pub record Bullet : Type 0 where
  pub server_pid : ℤ
  pub requests : ℕ → MigrationRequest
  pub num_requests : ℕ
  pub active : Bool

unfoldable pub bullet_init : ℤ → Bullet → Bullet
bullet_init pid b = record b { server_pid = pid; num_requests = 0; active = true }

unfoldable pub handle_migration_request : ℤ → ℤ → ℕ → ℤ → Bullet → Bullet × ℤ
handle_migration_request source_pid target_node process_data size b =
    if leb max_migration_requests b.num_requests then (b, negsuc 0) else (
      record b {
        requests = update b.requests b.num_requests (record {
          source_pid = source_pid;
          target_node = target_node;
          process_size = size;
          process_data = process_data;
          status = pos 0;
        });
        num_requests = b.num_requests + 1;
      },
      pos b.num_requests,
    )

-- A pending request is in progress, and then completed.
unfoldable pub migrate : MigrationRequest → MigrationRequest
migrate req =
    if is_int req.status 0
    then (let started = record req { status = pos 1 } in record started { status = pos 2 })
    else req

-- The loop of `process_migrations` from `i` on, with `n` rounds left.
unfoldable pub migrate_from : ℕ → ℕ → (ℕ → MigrationRequest) → ℕ → MigrationRequest
unfolding migrate
migrate_from zero i requests = requests
migrate_from (suc n) i requests = migrate_from n (i + 1) (update requests i (migrate (requests i)))

unfoldable pub process_migrations : Bullet → Bullet
process_migrations b = record b { requests = migrate_from b.num_requests 0 b.requests }

-- `case 1`: the request's data is a pointer into the message.
unfoldable pub migration_command : ℤ → ℕ → (ℕ → ℤ) → ℤ → Bullet → Bullet × Option (ℤ × ℤ)
migration_command sender_pid msg_data words msg_size b =
    if is_at_least msg_size 16
    then (let (b', req_id) =
          handle_migration_request sender_pid (words 1) (msg_data + 12) (words 2) b in
        (b', some (sender_pid, req_id)))
    else (b, none)

-- `case 2`
unfoldable pub status_command : ℤ → (ℕ → ℤ) → ℤ → Bullet → Bullet × Option (ℤ × ℤ)
status_command sender_pid words msg_size b =
    if is_at_least msg_size 8
    then if not (is_neg (words 1)) && ltb (pos_part (words 1)) b.num_requests
      then (b, some (sender_pid, (b.requests (pos_part (words 1))).status))
      else (b, some (sender_pid, negsuc 0))
    else (b, none)

unfoldable pub bullet_handle_client_message : ℤ → ℕ → (ℕ → ℤ) → ℤ → Bullet → Bullet × Option (ℤ × ℤ)
bullet_handle_client_message sender_pid msg_data words msg_size b =
    if not (is_at_least msg_size 4)
    then (b, none)
    else if is_int (words 0) 1
    then migration_command sender_pid msg_data words msg_size b
    else if is_int (words 0) 2
    then status_command sender_pid words msg_size b
    else (b, none)

-- One round of the loop of `bullet_server_main`: `msg_size` is what `syscall_recv_msg` returned, and
-- `words` is what it left in `msg_buffer`.
unfoldable pub bullet_round : ℕ → (ℕ → ℤ) → ℤ → Bullet → Bullet × Option (ℤ × ℤ)
bullet_round msg_buffer words msg_size b =
    let (b', reply) =
      if is_above msg_size 0
      then bullet_handle_client_message (words 0) (msg_buffer + 4) (λ i. words (suc i))
          (less_header msg_size) b
      else (b, none) in
    (process_migrations b', reply)

-- What `syscall_recv_msg` gives in a round.
pub record Received : Type 0 where
  pub words : ℕ → ℤ
  pub msg_size : ℤ

-- Rounds of the loop, and the replies that they send.
unfoldable pub bullet_rounds : ℕ → List Received → Bullet → Bullet × List (ℤ × ℤ)
unfolding bullet_round
bullet_rounds msg_buffer [] b = (b, [])
bullet_rounds msg_buffer (r ∷ rs) b =
    let (b', reply) = bullet_round msg_buffer r.words r.msg_size b in
    let (end, replies) = bullet_rounds msg_buffer rs b' in
    (end, elim reply [ none ↦ replies | some sent ↦ sent ∷ replies ])

-- `bullet_server_main` after the given rounds of its loop, which nothing ends: no code clears `active`.
unfoldable pub bullet_server_main : ℤ → ℕ → List Received → Bullet → Bullet × List (ℤ × ℤ)
unfolding bullet_init bullet_rounds
bullet_server_main pid msg_buffer received b = bullet_rounds msg_buffer received (bullet_init pid b)

-- The message of `bullet_migrate_process`: four words, sent with their size of 16 bytes.
abbrev pub migrate_words : ℤ → ℤ → ℤ → ℕ → ℤ
migrate_words pid target_node size i =
    if i == 0 then pid else if i == 1 then pos 1 else if i == 2 then target_node else size

-- The message of `bullet_check_migration_status`: three words, 12 bytes.
abbrev pub status_words : ℤ → ℤ → ℕ → ℤ
status_words pid req_id i = if i == 0 then pid else if i == 1 then pos 2 else req_id

-- The client functions by what the system calls give: the results of sending, and the answer.
unfoldable pub bullet_migrate_process : (ℕ → ℤ) → Option ℤ → ℤ
unfolding send_retries
bullet_migrate_process sent answer = if send_retries 3 0 sent then received_or answer else negsuc 0

unfoldable pub bullet_check_migration_status : (ℕ → ℤ) → Option ℤ → ℤ
unfolding send_retries
bullet_check_migration_status sent answer =
    if send_retries 3 0 sent then received_or answer else negsuc 0
