-- ===== src/NetServer/Ids.antt =====
-- The socket table of server/net_srv.c: the numbers of its sockets, and what every round of the server keeps.
use hydra_microkernal.Prelude.{
  ℕ, zero, suc, ◌+◌, ◌≤◌, ◌<◌, ◌≡◌, refl, sym, ◌∙◌, inl, inr, Bool, true, false, not, ◌&&◌, Option,
  none, some, ℤ, low_bits, ◌==◌, ◌^◌, update, update-ind, some_if, none_if, arith, ℕ_discrete,
}
use hydra_microkernal.NetServer.{
  NetSocket, NetServer, server_sockets, is_connected, find_unused, find_from, put, with_socket,
}
use hydra_microkernal.NetServer.Rx.{find_connected}
use hydra_microkernal.NetServer.Buffer.{IsBuffer}

-- The counter of socket numbers is at most `ids`, which is an `int`. Sockets in use have different numbers, all of them
-- handed out before; every buffer is well formed.
pub record IsServer (ids : ℕ) (s : NetServer) : Type 0 where
  pub small : ids < 2 ^ 31
  pub counted : s.next_socket_id ≤ ids
  pub fresh :
      (i : ℕ)
      → i < server_sockets
      → (s.sockets i).in_use ≡ true
      → (s.sockets i).sock_id < s.next_socket_id
  pub unique :
      (i j : ℕ)
      → i < server_sockets
      → j < server_sockets
      → (s.sockets i).in_use ≡ true
      → (s.sockets j).in_use ≡ true
      → (s.sockets i).sock_id ≡ (s.sockets j).sock_id
      → i ≡ j
  pub buffers : (i : ℕ) → i < server_sockets → IsBuffer (s.sockets i)

-- The numbers that are not in use yet stay so, and a socket that is in use was so before, under its number.
pub record Keeps (old new : NetSocket) : Type 0 where
  pub id : new.sock_id ≡ old.sock_id
  pub used : new.in_use ≡ true → old.in_use ≡ true
  pub buffer : IsBuffer new

put-Keeps :
    {ids : ℕ} {s : NetServer} (k : ℕ) (sock : NetSocket)
    → IsServer ids s
    → Keeps (s.sockets k) sock
    → (i : ℕ) → i < server_sockets
    → Keeps (s.sockets i) (update s.sockets k sock i)
put-Keeps {ids} {s} k sock v keep i h =
    update-ind (λ i x. i < server_sockets → Keeps (s.sockets i) x) s.sockets k sock (λ less. keep)
      (λ i ne less. record { id = refl; used = λ u. u; buffer = v.buffers i less }) i h

pub put-IsServer :
    {ids : ℕ} {s : NetServer} (k : ℕ) (sock : NetSocket)
    → IsServer ids s
    → Keeps (s.sockets k) sock
    → IsServer ids (put k sock s)
put-IsServer {ids} {s} k sock v keep = record {
  small = v.small;
  counted = v.counted;
  fresh = λ i h u. let p = put-Keeps k sock v keep i h in rw p.id (v.fresh i h (p.used u));
  unique = λ i j h h' u u' e.
      let p = put-Keeps k sock v keep i h in
      let q = put-Keeps k sock v keep j h' in
      v.unique i j h h' (p.used u) (q.used u') (sym p.id ∙ e ∙ q.id);
  buffers = λ i h. (put-Keeps k sock v keep i h).buffer;
}

-- One number more.
pub IsServer-suc :
    {ids : ℕ} {s : NetServer} → suc ids < 2 ^ 31 → IsServer ids s → IsServer (suc ids) s
IsServer-suc {ids} h v = record {
  small = h;
  counted = omega (arith, v.counted);
  fresh = v.fresh;
  unique = v.unique;
  buffers = v.buffers;
}

and_cases : (a b : Bool) → (a && b) ≡ true → (a ≡ true) × (b ≡ true)
and_cases true b e = (refl, e)
and_cases false b e = absurd (ground arith)

and_right : (a b : Bool) → a ≡ true → (a && b) ≡ false → b ≡ false
and_right true b e f = f
and_right false b e f = absurd (ground arith)

-- The slot that the search from slot `i` on finds: the first of that number.
pub find_from-some :
    (n i : ℕ) (id : ℤ) (s : NetServer) (k : ℕ)
    → find_from n i id s ≡ some k
    → (k < i + n)
      × ((s.sockets k).in_use ≡ true)
      × (low_bits (2 ^ 32) id == (s.sockets k).sock_id ≡ true)
unfolding find_from
find_from-some zero i id s k e = absurd (ground arith)
find_from-some (suc n) i id s k e =
    elim (some_if ((s.sockets i).in_use && low_bits (2 ^ 32) id == (s.sockets i).sock_id) i k
      (find_from n (suc i) id s) e) [
        | inl (t, same) ↦
            let u =
              and_cases (s.sockets i).in_use (low_bits (2 ^ 32) id == (s.sockets i).sock_id) t in
            rw (← same) (omega arith, u.0, u.1)
        | inr (t, e') ↦ let r = find_from-some n (suc i) id s k e' in (omega (arith, r.0), r.1, r.2)
      ]

pub find_from-none :
    (n i : ℕ) (id : ℤ) (s : NetServer) (k : ℕ)
    → find_from n i id s ≡ none
    → i ≤ k
    → k < i + n
    → (s.sockets k).in_use ≡ true
    → low_bits (2 ^ 32) id == (s.sockets k).sock_id ≡ false
unfolding find_from
find_from-none zero i id s k e p q u = absurd (omega arith)
find_from-none (suc n) i id s k e p q u =
    let r =
      none_if ((s.sockets i).in_use && low_bits (2 ^ 32) id == (s.sockets i).sock_id) i
        (find_from n (suc i) id s) e in
    elim (ℕ_discrete i k) [
      | yes same ↦ rw (← same) (
          and_right (s.sockets i).in_use (low_bits (2 ^ 32) id == (s.sockets i).sock_id) (rw same u)
            r.0)
      | no other ↦ find_from-none n (suc i) id s k r.1 (omega arith) (omega arith) u
    ]

pub with_socket-cases {ℓ κ} :
    {A : Type ℓ} (P : A → Type κ) (o : Option ℕ) (x : A) (f : ℕ → A)
    → P x
    → ((k : ℕ) → o ≡ some k → P (f k))
    → P (with_socket o x f)
with_socket-cases P none x f p q = p
with_socket-cases P (some k) x f p q = q k refl

pub find_unused-some :
    (n i : ℕ) (s : NetServer) (k : ℕ)
    → find_unused n i s ≡ some k
    → (k < i + n) × ((s.sockets k).in_use ≡ false)
unfolding find_unused
find_unused-some zero i s k e = absurd (ground arith)
find_unused-some (suc n) i s k e =
    elim (some_if (not (s.sockets i).in_use) i k (find_unused n (suc i) s) e) [
      | inl (t, same) ↦ rw (← same) (omega arith, ground arith)
      | inr (t, e') ↦ let r = find_unused-some n (suc i) s k e' in (omega (arith, r.0), r.1)
    ]

pub find_connected-some :
    (n i : ℕ) (s : NetServer) (k : ℕ) → find_connected n i s ≡ some k → k < i + n
unfolding find_connected
find_connected-some zero i s k e = absurd (ground arith)
find_connected-some (suc n) i s k e =
    elim (some_if ((s.sockets i).in_use && is_connected (s.sockets i).state) i k
      (find_connected n (suc i) s) e) [
        | inl (t, same) ↦ rw (← same) (omega arith)
        | inr (t, e') ↦ omega (arith, find_connected-some n (suc i) s k e')
      ]
