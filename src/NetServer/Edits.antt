-- ===== src/NetServer/Edits.antt =====
-- The socket functions of server/net_srv.c keep the socket table well formed.
use hydra_microkernal.Prelude.{
  ℕ, suc, ◌+◌, ◌%◌, ◌^◌, ◌<◌, ◌≡◌, ◌≢◌, refl, sym, ◌∙◌, true, false, not, Option, none, some, ℤ,
  negsuc, is_int, update, update-ind, Bytes, if_cases, arith, ℕ_discrete,
}
use hydra_microkernal.NetServer.{
  NetSocket, NetServer, server_sockets, closed, find_unused, allocate_in, allocate_socket,
  find_from, find_socket, put, with_socket, close_socket, bind_socket, listen_socket,
  connect_socket,
}
use hydra_microkernal.NetServer.Rx.{recv_at, recv_socket_data}
use hydra_microkernal.NetServer.Buffer.{IsBuffer}
use hydra_microkernal.NetServer.Taking.{recv_at-cases}
use hydra_microkernal.NetServer.Ids.{
  IsServer, IsServer-suc, put-IsServer, find_from-some, with_socket-cases,
}

-- What every socket function keeps: it does nothing without a socket, and works on the one found.
module _ {ids : ℕ} {s : NetServer} (v : IsServer ids s) where
  on_found :
      {A : Type 0} (g : A → NetServer) (id : ℤ) (x : A) (f : ℕ → A)
      → IsServer ids (g x)
      → ((k : ℕ) → k < server_sockets → IsServer ids (g (f k)))
      → IsServer ids (g (with_socket (find_socket id s) x f))
  unfolding find_socket
  on_found g id x f p q =
      with_socket-cases (λ y. IsServer ids (g y)) (find_from server_sockets 0 id s) x f p
        (λ k e. q k (find_from-some server_sockets 0 id s k e).0)

  pub edit :
      (k : ℕ) (sock : NetSocket)
      → k < server_sockets
      → sock.sock_id ≡ (s.sockets k).sock_id
      → (sock.in_use ≡ true → (s.sockets k).in_use ≡ true)
      → IsBuffer sock
      → IsServer ids (put k sock s)
  edit k sock h e u b = put-IsServer k sock v (record { id = e; used = u; buffer = b })

  pub close_socket-IsServer : (id : ℤ) → IsServer ids (close_socket id s)
  unfolding close_socket
  close_socket-IsServer id =
      on_found (λ t. t) id s
        (λ k. put k (record (s.sockets k) { in_use = false; state = closed }) s) v
        (λ k h. edit k _ h refl (λ e. absurd (ground arith)) (v.buffers k h))

  pub bind_socket-IsServer : (id : ℤ) (ip port : ℕ) → IsServer ids (bind_socket id ip port s).0
  unfolding bind_socket
  bind_socket-IsServer id ip port =
      on_found (λ (t : NetServer × ℤ). t.0) id (s, negsuc 0) _ v
        (λ k h. edit k _ h refl (λ e. e) (v.buffers k h))

  pub listen_socket-IsServer : (id : ℤ) → IsServer ids (listen_socket id s).0
  unfolding listen_socket
  listen_socket-IsServer id =
      on_found (λ (t : NetServer × ℤ). t.0) id (s, negsuc 0) _ v
        (λ k h.
          if_cases (λ (t : NetServer × ℤ). IsServer ids t.0) (not (is_int (s.sockets k).type 1)) v
            (edit k _ h refl (λ e. e) (v.buffers k h)))

  pub connect_socket-IsServer :
      (id : ℤ) (ip port : ℕ) → IsServer ids (connect_socket id ip port s).0
  unfolding connect_socket
  connect_socket-IsServer id ip port =
      on_found (λ (t : NetServer × ℤ). t.0) id (s, negsuc 0) _ v
        (λ k h.
          if_cases (λ (t : NetServer × ℤ). IsServer ids t.0) (not (is_int (s.sockets k).type 1)) v
            (edit k _ h refl (λ e. e) (v.buffers k h)))

  pub recv_socket_data-IsServer :
      (id : ℤ) (buffer : Bytes) (max_len : ℤ)
      → IsServer ids (recv_socket_data id buffer max_len s).0
  unfolding recv_socket_data
  recv_socket_data-IsServer id buffer max_len =
      on_found (λ t. t.0) id (s, buffer, negsuc 0) (λ k. recv_at k buffer max_len s) v
        (λ k h.
          recv_at-cases k buffer max_len s (IsServer ids) (v.buffers k h) v
            (λ sock b e u. edit k sock h e (λ t. sym u ∙ t) b))

-- The new socket in slot `k`, and the others.
module _ {ids : ℕ} (client_pid type : ℤ) (s : NetServer) (k : ℕ) (v : IsServer ids s)
    (room : suc ids < 2 ^ 31) where
  abbrev fresh_socket : NetSocket
  fresh_socket = record (s.sockets k) {
    sock_id = s.next_socket_id;
    owner_pid = client_pid;
    type = type;
    state = closed;
    in_use = true;
    rx_head = 0;
    rx_tail = 0;
    rx_count = 0;
  }

  record Placed (i : ℕ) (sock : NetSocket) : Type 0 where
    below : sock.in_use ≡ true → sock.sock_id < (s.next_socket_id + 1) % 2 ^ 32
    slot : sock.in_use ≡ true → sock.sock_id ≡ s.next_socket_id → i ≡ k
    old :
        sock.in_use ≡ true
        → sock.sock_id ≢ s.next_socket_id
        → ((s.sockets i).in_use ≡ true) × ((s.sockets i).sock_id ≡ sock.sock_id)
    ring : IsBuffer sock

  placed : (i : ℕ) → i < server_sockets → Placed i (update s.sockets k fresh_socket i)
  placed i h =
      update-ind (λ i x. i < server_sockets → Placed i x) s.sockets k fresh_socket
        (λ less. record {
          below = λ u. omega (arith, v.counted);
          slot = λ u e. refl;
          old = λ u ne. absurd (ne refl);
          ring = record { room = omega arith; start = omega arith; end = refl };
        })
        (λ i ne less. record {
          below = λ u. omega (arith, v.fresh i less u, v.counted);
          slot = λ u e. absurd (omega (arith, v.fresh i less u, e));
          old = λ u other. (u, refl);
          ring = v.buffers i less;
        })
        i h

allocate_in-IsServer :
    {ids : ℕ} (client_pid type : ℤ) (s : NetServer) (o : Option ℕ)
    → IsServer ids s
    → suc ids < 2 ^ 31
    → IsServer (suc ids) (allocate_in client_pid type s o).0
unfolding allocate_in
allocate_in-IsServer client_pid type s none v room = IsServer-suc room v
allocate_in-IsServer client_pid type s (some k) v room = record {
  small = room;
  counted = omega (arith, v.counted);
  fresh = λ i h. (placed client_pid type s k v room i h).below;
  unique = λ i j h h' u u' e.
      let p = placed client_pid type s k v room i h in
      let q = placed client_pid type s k v room j h' in
      elim (ℕ_discrete (update s.sockets k (fresh_socket client_pid type s k v room) i).sock_id
        s.next_socket_id) [
          | yes new ↦ p.slot u new ∙ sym (q.slot u' (sym e ∙ new))
          | no other ↦
              let a = p.old u other in
              let b = q.old u' (λ f. other (e ∙ f)) in v.unique i j h h' a.0 b.0 (a.1 ∙ e ∙ sym b.1)
        ];
  buffers = λ i h. (placed client_pid type s k v room i h).ring;
}

pub allocate_socket-IsServer :
    {ids : ℕ} (client_pid type : ℤ) (s : NetServer)
    → IsServer ids s
    → suc ids < 2 ^ 31
    → IsServer (suc ids) (allocate_socket client_pid type s).0
unfolding allocate_socket
allocate_socket-IsServer client_pid type s v room =
    allocate_in-IsServer client_pid type s (find_unused server_sockets 0 s) v room
