-- ===== src/Hydra/Refused.antt =====
-- The requests of lib/libhydra/net_client.c and lib/libhydra/bullet_client.c, which all go through `send_request`.
use hydra_microkernal.Prelude.{
  ℕ, ◌+◌, ◌≡◌, refl, ap, ◌∙◌, Option, some, ℤ, negsuc, ltb, if_cases, Bytes,
}
use hydra_microkernal.Kernel.{Kernel}
use hydra_microkernal.Hydra.Clients.{
  Frame, net_server_pid, bullet_server_pid, net_response_size, bullet_response_size, field_or_error,
  received_data, net_request, bullet_request, net_service_bind, net_service_connect,
  net_service_send, net_service_receive, client_bullet_migrate_process,
  client_bullet_get_migration_status,
}
use hydra_microkernal.Hydra.Requests.{IsRefused, send_request-IsRefused}

-- A call on changed memory, and a function that makes -1 of -1.
IsRefused-then :
    {k : Kernel} {memory : Bytes} {run : Option (Kernel × ℤ)}
    (f : Option (Kernel × ℤ) → Option (Kernel × ℤ))
    → ((k' : Kernel) → f (some (k', negsuc 0)) ≡ some (k', negsuc 0))
    → IsRefused (record k { memory = memory }) run
    → IsRefused k (f run)
IsRefused-then f keeps r = record {
  after = r.after;
  returns = ap f r.returns ∙ keeps r.after;
  ipc = r.ipc;
  sched = r.sched;
  net = r.net;
}

module _ (tasks_base : ℕ) (f : Frame) (k : Kernel) where
  net_request-IsRefused :
      (size : ℕ) (memory : Bytes)
      → IsRefused (record k { memory = memory }) (net_request tasks_base f size k memory)
  net_request-IsRefused size memory =
      send_request-IsRefused tasks_base f.msg net_server_pid f.req size f.msg_type f.resp
        net_response_size (record k { memory = memory })

  bullet_request-IsRefused :
      (size : ℕ) (memory : Bytes)
      → IsRefused (record k { memory = memory }) (bullet_request tasks_base f size k memory)
  bullet_request-IsRefused size memory =
      send_request-IsRefused tasks_base f.msg bullet_server_pid f.req size f.msg_type f.resp
        bullet_response_size (record k { memory = memory })

  -- No function of net_client.c reaches the network server: whatever its arguments, each one returns -1 and leaves the messages, the tasks and the
  -- packets of the kernel as they were.
  pub net_service-IsRefused :
      (addr port src size buffer max_size : ℕ) (socket_id : ℤ)
      → IsRefused k (net_service_bind tasks_base f port k)
        × IsRefused k (net_service_connect tasks_base f addr port k)
        × IsRefused k (net_service_send tasks_base f socket_id src size k)
        × IsRefused k (net_service_receive tasks_base f socket_id buffer max_size k)
  unfolding net_service_bind net_service_connect net_service_send net_service_receive
  net_service-IsRefused addr port src size buffer max_size socket_id = (
    IsRefused-then (field_or_error (f.resp + 4)) (λ k'. refl) (net_request-IsRefused 2 _),
    IsRefused-then (field_or_error (f.resp + 4)) (λ k'. refl) (net_request-IsRefused 8 _),
    if_cases (IsRefused k) (ltb 200 size)
        (record { after = k; returns = refl; ipc = refl; sched = refl; net = refl })
        (IsRefused-then (field_or_error f.resp) (λ k'. refl) (net_request-IsRefused 208 _)),
    IsRefused-then (received_data f.resp buffer max_size) (λ k'. refl) (net_request-IsRefused 8 _),
  )

  -- Neither function of bullet_client.c reaches the bullet server: each one returns -1 and leaves the messages, the tasks and the packets of
  -- the kernel as they were.
  pub client_bullet-IsRefused :
      (process : ℤ) (target_node : ℕ)
      → IsRefused k (client_bullet_migrate_process tasks_base f process target_node k)
        × IsRefused k (client_bullet_get_migration_status tasks_base f process k)
  unfolding client_bullet_migrate_process client_bullet_get_migration_status
  client_bullet-IsRefused process target_node = (
    IsRefused-then (field_or_error f.resp) (λ k'. refl) (bullet_request-IsRefused 68 _),
    IsRefused-then (field_or_error f.resp) (λ k'. refl) (bullet_request-IsRefused 4 _),
  )
