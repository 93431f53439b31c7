-- ===== src/Hydra/Clients.antt =====
-- lib/libhydra/net_client.c and lib/libhydra/bullet_client.c: requests to the two servers. A function's local variables stand
-- at the addresses of its frame.
use hydra_microkernal.Prelude.{
  ℕ, zero, suc, ◌+◌, ◌/◌, ◌%◌, ◌&&◌, Option, none, some, ℤ, pos, negsuc, is_above, to_int, ltb,
  ◌==◌, if◌then◌else◌, update, Bytes,
}
use hydra_microkernal.Kernel.{Kernel}
use hydra_microkernal.Hydra.{write_int, read_int, copy_in, copy_size, send_request}

-- `req` and `resp`, and the locals `msg` and `msg_type` of the functions of ipc.c.
pub record Frame : Type 0 where
  pub req : ℕ
  pub resp : ℕ
  pub msg : ℕ
  pub msg_type : ℕ

-- NET_SERVER_PID and BULLET_SERVER_PID
abbrev pub net_server_pid : ℤ
net_server_pid = pos 2

abbrev pub bullet_server_pid : ℤ
bullet_server_pid = pos 1

-- `sizeof(struct net_response)` and `sizeof(struct bullet_response)`
abbrev pub net_response_size : ℕ
net_response_size = 212

abbrev pub bullet_response_size : ℕ
bullet_response_size = 132

abbrev pub write_short : Bytes → ℕ → ℕ → Bytes
write_short memory a x = update (update memory a (x % 256)) (a + 1) (x / 256)

-- The field of the response at an address, if there was one, or -1.
abbrev pub field_or_error : ℕ → Option (Kernel × ℤ) → Option (Kernel × ℤ)
field_or_error a none = none
field_or_error a (some (k, result)) =
    some (k, if is_above result 0 then read_int k.memory a else negsuc 0)

-- "Copy received data"
abbrev pub received_data : ℕ → ℕ → ℕ → Option (Kernel × ℤ) → Option (Kernel × ℤ)
received_data resp buffer max_size none = none
received_data resp buffer max_size (some (k, result)) =
    if is_above result 0 && is_above (read_int k.memory (resp + 8)) 0
    then some (
      record k {
        memory =
            copy_in (copy_size (read_int k.memory (resp + 8)) max_size) 0 buffer (resp + 12)
              k.memory;
      },
      to_int (pos (copy_size (read_int k.memory (resp + 8)) max_size)),
    )
    else some (k, negsuc 0)

-- "Copy target node name": at most `n` characters more, from the `i`th on, and a zero.
unfoldable pub copy_name : ℕ → ℕ → ℕ → ℕ → Bytes → Bytes
copy_name zero i dst src memory = update memory (dst + i) 0
copy_name (suc n) i dst src memory =
    let rest = copy_name n (suc i) dst src (update memory (dst + i) (memory (src + i))) in
    if memory (src + i) == 0 then update memory (dst + i) 0 else rest

module _ (tasks_base : ℕ) (f : Frame) where
  -- A request of `size` bytes to the network server, with memory as the caller has filled it.
  abbrev pub net_request : ℕ → Kernel → Bytes → Option (Kernel × ℤ)
  net_request size k memory =
      send_request tasks_base f.msg net_server_pid f.req size f.msg_type f.resp net_response_size
        (record k { memory = memory })

  unfoldable pub net_service_bind : ℕ → Kernel → Option (Kernel × ℤ)
  net_service_bind port k =
      field_or_error (f.resp + 4) (net_request 2 k (write_short k.memory f.req port))

  unfoldable pub net_service_connect : ℕ → ℕ → Kernel → Option (Kernel × ℤ)
  net_service_connect addr port k =
      field_or_error (f.resp + 4)
        (net_request 8 k (write_short (write_int k.memory f.req (pos addr)) (f.req + 4) port))

  unfoldable pub net_service_send : ℤ → ℕ → ℕ → Kernel → Option (Kernel × ℤ)
  unfolding copy_in
  net_service_send socket_id src size k =
      if ltb 200 size
      then some (k, negsuc 0)
      else field_or_error f.resp (
          net_request 208 k (
            copy_in size 0 (f.req + 8) src
              (write_int (write_int k.memory f.req socket_id) (f.req + 4) (pos size))))

  unfoldable pub net_service_receive : ℤ → ℕ → ℕ → Kernel → Option (Kernel × ℤ)
  net_service_receive socket_id buffer max_size k = received_data f.resp buffer max_size (
      net_request 8 k (
        write_int (write_int k.memory f.req socket_id) (f.req + 4)
          (pos (if ltb 200 max_size then 200 else max_size))))

  -- A request to the bullet server.
  abbrev pub bullet_request : ℕ → Kernel → Bytes → Option (Kernel × ℤ)
  bullet_request size k memory =
      send_request tasks_base f.msg bullet_server_pid f.req size f.msg_type f.resp
        bullet_response_size (record k { memory = memory })

  unfoldable pub client_bullet_migrate_process : ℤ → ℕ → Kernel → Option (Kernel × ℤ)
  unfolding copy_name
  client_bullet_migrate_process process target_node k = field_or_error f.resp (
      bullet_request 68 k
        (copy_name 63 0 (f.req + 4) target_node (write_int k.memory f.req process)))

  unfoldable pub client_bullet_get_migration_status : ℤ → Kernel → Option (Kernel × ℤ)
  client_bullet_get_migration_status process k =
      field_or_error f.resp (bullet_request 4 k (write_int k.memory f.req process))
