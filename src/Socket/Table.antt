-- ===== src/Socket/Table.antt =====
-- The socket table of lib/libnet/socket.c.
use hydra_microkernal.Prelude.{
  if_eq, if_ne, is_int, ℕ, zero, suc, ◌+◌, ◌≤◌, ◌<◌, ◌≡◌, ◌≢◌, refl, inl, inr, not, ◌&&◌, ◌||◌,
  if◌then◌else◌, Bool-cases, Option, none, some, ℤ, pos, negsuc, update, update-ind, arith,
  ℕ_discrete,
}
use hydra_microkernal.Socket.{
  SocketInfo, SockaddrIn, Sockets, sock_closed, sock_stream, sock_dgram, af_inet, max_sockets,
  find_closed, fill_slot, socket, is_bad, slot, bind, listen, accept, connect, send, recv,
  close_user_socket,
}

abbrev pub AllClosed : Sockets → Type 0
AllClosed t = (i : ℕ) → (t i).state ≡ sock_closed

-- What the search finds, and what it means to find nothing.
abbrev pub Found : ℕ → ℕ → Sockets → Option ℕ → Type 0
Found n i t none = (j : ℕ) → i ≤ j → j < i + n → (t j).state ≢ sock_closed
Found n i t (some k) =
    (i ≤ k)
    × (k < i + n)
    × ((t k).state ≡ sock_closed)
    × ((j : ℕ) → i ≤ j → j < k → (t j).state ≢ sock_closed)

-- The search of `socket` finds the first slot that is closed; where it finds none, no slot is closed.
pub find_closed-Found : (n i : ℕ) (t : Sockets) → Found n i t (find_closed n i t)
unfolding find_closed
find_closed-Found zero i t = λ j h k. absurd (omega arith)
find_closed-Found (suc n) i t = elim (ℕ_discrete (t i).state sock_closed) [
  | yes e ↦
      rw (if_eq (t i).state sock_closed (some i) (find_closed n (suc i) t) e)
        (omega arith, omega arith, e, λ j h k. absurd (omega arith))
  | no ne ↦
      rw (if_ne (t i).state sock_closed (some i) (find_closed n (suc i) t) ne)
        (later (find_closed n (suc i) t) ne (find_closed-Found n (suc i) t))
]
  where
    past :
        {k : ℕ}
        → (t i).state ≢ sock_closed
        → ((j : ℕ) → suc i ≤ j → j < k → (t j).state ≢ sock_closed)
        → (j : ℕ) → i ≤ j
        → j < k
        → (t j).state ≢ sock_closed
    past ne h j p q = elim (ℕ_discrete i j) [ yes e ↦ rw (← e) ne | no d ↦ h j (omega arith) q ]

    later : (o : Option ℕ) → (t i).state ≢ sock_closed → Found n (suc i) t o → Found (suc n) i t o
    later none ne f = past ne (λ j p q. f j p (omega arith))
    later (some k) ne f = (omega (arith, f.0), omega (arith, f.1), f.2, past ne f.3)

update-AllClosed :
    (t : Sockets) (k : ℕ) (v : SocketInfo)
    → v.state ≡ sock_closed
    → AllClosed t
    → AllClosed (update t k v)
update-AllClosed t k v e c = update-ind (λ i w. w.state ≡ sock_closed) t k v e (λ i ne. c i)

fill_slot-AllClosed :
    (type : ℤ) (t : Sockets) (o : Option ℕ) → AllClosed t → AllClosed (fill_slot type t o).0
unfolding fill_slot
fill_slot-AllClosed type t none c = c
fill_slot-AllClosed type t (some i) c = update-AllClosed t i _ refl c

socket-AllClosed :
    (domain type : ℤ) (t : Sockets) → AllClosed t → AllClosed (socket domain type t).0
unfolding socket
socket-AllClosed domain type t c = elim (Bool-cases (not (is_int domain af_inet))) [
  | inl e ↦ rw e c
  | inr e ↦ elim (Bool-cases (not (is_int type sock_stream) && not (is_int type sock_dgram))) [
    | inl e' ↦ rw (e, e') c
    | inr e' ↦ rw (e, e') (fill_slot-AllClosed type t (find_closed max_sockets 0 t) c)
  ]
]

module _ (t : Sockets) (c : AllClosed t) where
  bind_closed : (fd : ℤ) (a : SockaddrIn) → bind fd a t ≡ (t, negsuc 0)
  unfolding bind
  bind_closed fd a = ground (arith, c (slot fd))

  listen_closed : (fd : ℤ) → listen fd t ≡ (t, negsuc 0)
  unfolding listen
  listen_closed fd = ground (arith, c (slot fd))

  accept_closed : (fd : ℤ) → accept fd t ≡ (t, negsuc 0)
  unfolding accept
  accept_closed fd = ground (arith, c (slot fd))

  connect_closed : (fd : ℤ) (a : SockaddrIn) → connect fd a t ≡ (t, negsuc 0)
  unfolding connect
  connect_closed fd a = ground (arith, c (slot fd))

  send_closed : (fd result : ℤ) → send fd result t ≡ negsuc 0
  unfolding send
  send_closed fd result = ground (arith, c (slot fd))

  recv_closed : (fd result : ℤ) → recv fd result t ≡ negsuc 0
  unfolding recv
  recv_closed fd result = ground (arith, c (slot fd))

  close-AllClosed : (fd : ℤ) → AllClosed (close_user_socket fd t).0
  unfolding close_user_socket
  close-AllClosed fd = elim (Bool-cases (is_bad fd)) [
    | inl e ↦ rw e c
    | inr e ↦ rw e (update-AllClosed t (slot fd) _ refl c)
  ]

find_closed-first :
    (n i : ℕ) (t : Sockets) → (t i).state ≡ sock_closed → find_closed (suc n) i t ≡ some i
unfolding find_closed
find_closed-first n i t e = if_eq (t i).state sock_closed (some i) (find_closed n (suc i) t) e

-- The descriptor 1 for a stream or a datagram socket of the domain AF_INET, and -1 for any other.
abbrev pub asked : ℤ → ℤ → ℤ
asked domain type =
    if is_int domain af_inet && (is_int type sock_stream || is_int type sock_dgram)
    then pos 1
    else negsuc 0

-- The result of `socket` in a table whose slots are all closed.
socket_closed :
    (domain type : ℤ) (t : Sockets) → AllClosed t → (socket domain type t).1 ≡ asked domain type
unfolding socket fill_slot
socket_closed domain type t c = rw (find_closed-first 15 0 t (c 0)) (ground arith)

-- A call of the library.
pub data Step (t t' : Sockets) : Type 0 where
  opens : (domain type : ℤ) → t' ≡ (socket domain type t).0 → Step t t'
  binds : (fd : ℤ) (a : SockaddrIn) → t' ≡ (bind fd a t).0 → Step t t'
  listens : (fd : ℤ) → t' ≡ (listen fd t).0 → Step t t'
  accepts : (fd : ℤ) → t' ≡ (accept fd t).0 → Step t t'
  connects : (fd : ℤ) (a : SockaddrIn) → t' ≡ (connect fd a t).0 → Step t t'
  closes : (fd : ℤ) → t' ≡ (close_user_socket fd t).0 → Step t t'

pub data Reach (t : Sockets) : Sockets → Type 0 where
  here : Reach t t
  more : {u v : Sockets} → Reach t u → Step u v → Reach t v

Step-AllClosed : {t t' : Sockets} → AllClosed t → Step t t' → AllClosed t'
Step-AllClosed {t} c (opens domain type e) = rw e (socket-AllClosed domain type t c)
Step-AllClosed {t} c (binds fd a e) = rw (e, bind_closed t c fd a) c
Step-AllClosed {t} c (listens fd e) = rw (e, listen_closed t c fd) c
Step-AllClosed {t} c (accepts fd e) = rw (e, accept_closed t c fd) c
Step-AllClosed {t} c (connects fd a e) = rw (e, connect_closed t c fd a) c
Step-AllClosed {t} c (closes fd e) = rw e (close-AllClosed t c fd)

-- From a table whose slots are all closed, as at the program's start, every slot stays closed whatever calls are made,
-- since `socket` hands out a slot without leaving the closed state.
pub Reach-AllClosed : {t t' : Sockets} → AllClosed t → Reach t t' → AllClosed t'
Reach-AllClosed c here = c
Reach-AllClosed c (more r st) = Step-AllClosed (Reach-AllClosed c r) st

-- In a table whose slots are all closed, `bind`, `listen`, `accept`, `connect`, `send` and `recv` return -1 for every
-- descriptor, and the first four leave the table as it is (the last two only read it). `socket` gives the descriptor 1 to every caller that
-- asks for a stream or a datagram socket of the domain AF_INET, and -1 to every other caller.
pub AllClosed-fails :
    (t : Sockets) (fd : ℤ) (a : SockaddrIn) (result domain type : ℤ)
    → AllClosed t
    → (bind fd a t ≡ (t, negsuc 0))
      × (listen fd t ≡ (t, negsuc 0))
      × (accept fd t ≡ (t, negsuc 0))
      × (connect fd a t ≡ (t, negsuc 0))
      × (send fd result t ≡ negsuc 0)
      × (recv fd result t ≡ negsuc 0)
      × ((socket domain type t).1 ≡ asked domain type)
AllClosed-fails t fd a result domain type c = (
  bind_closed t c fd a,
  listen_closed t c fd,
  accept_closed t c fd,
  connect_closed t c fd a,
  send_closed t c fd result,
  recv_closed t c fd result,
  socket_closed domain type t c,
)
