-- ===== src/Ipc/Boot.antt =====
-- The pool that `ipc_init` of kernal/ipc.c builds in the heap.
use hydra_microkernal.Prelude.{
  ℕ, zero, suc, ◌+◌, ◌≤◌, ◌<◌, ◌≡◌, refl, ap, ap₂, ◌∙◌, ◌⊎◌, inl, inr, Option, some, pos, List, [],
  ◌∷◌, length, All, update, update_self, update_ne, arith, ℕ_discrete,
}
use hydra_microkernal.Sched.{max_tasks}
use hydra_microkernal.Mm.{Heap, align8, kmalloc}
use hydra_microkernal.Mm.Cells.{Cell, IsHeap}
use hydra_microkernal.Mm.Kmalloc.{kmalloc_lem}
use hydra_microkernal.Ipc.{Ipc, MsgQueue, max_messages}
use hydra_microkernal.Ipc.Queues.{Queues, Represents}
use hydra_microkernal.Ipc.Start.{
  message_size, empty_queue, clear_queues, push_free, fill_pool, ipc_init,
}
use hydra_microkernal.Ipc.Slots.{
  IsSlot, Spread, NoRoom, IsPooled, Spread-IsNodup, pushed-IsPooled, length-alloc,
}

-- The loop has done what it could: all slots are there, or the heap has no room for another one.
record IsFilled (start limit fuel n : ℕ) (s : Ipc) (h : Heap) (before : ℕ) : Type 0 where
  pool : Ipc
  heap : Heap
  cells : List Cell
  slots : List ℕ
  returns : fill_pool n fuel s h ≡ some (pool, heap)
  pooled : IsPooled start limit pool heap cells slots
  most : length slots ≤ n + before
  full : (length slots ≡ n + before) ⊎ NoRoom cells

fill_pool-suc :
    (n fuel : ℕ) (s : Ipc) (h h' : Heap) (p : ℕ)
    → kmalloc fuel message_size h ≡ some (h', p)
    → fill_pool (suc n) fuel s h ≡ fill_pool n fuel (push_free p s) h'
unfolding fill_pool
fill_pool-suc n fuel s h h' p e = rw (e, fill_pool) refl

fill_pool-null :
    (n fuel : ℕ) (s : Ipc) (h : Heap)
    → kmalloc fuel message_size h ≡ some (h, 0)
    → fill_pool n fuel s h ≡ some (s, h)
unfolding fill_pool
fill_pool-null zero fuel s h e = refl
fill_pool-null (suc n) fuel s h e = fill_pool-suc n fuel s h h 0 e ∙ fill_pool-null n fuel s h e

fill_pool-IsFilled :
    {start limit : ℕ} (n fuel : ℕ) {s : Ipc} {h : Heap} {cells : List Cell} {slots : List ℕ}
    → IsPooled start limit s h cells slots
    → length cells + n < fuel
    → IsFilled start limit fuel n s h (length slots)
unfolding align8
fill_pool-IsFilled zero fuel {s} {h} {cells} {slots} v enough =
    unfold fill_pool in
    record {
      pool = s;
      heap = h;
      cells = cells;
      slots = slots;
      returns = refl;
      pooled = v;
      most = omega arith;
      full = inl (omega arith);
    }
fill_pool-IsFilled {start} {limit} (suc n) fuel {s} {h} {cells} {slots} v enough =
    let (h', p, run, end) = kmalloc_lem v.heap fuel message_size (omega arith) in
    elim end [
      | inl r ↦ record {
        pool = s;
        heap = h;
        cells = cells;
        slots = slots;
        returns =
            fill_pool-null (suc n) fuel s h
              (run ∙ ap₂ (λ (x : Heap) (y : ℕ). some (x, y)) r.same r.null);
        pooled = v;
        most = omega arith;
        full = inr r.no_room;
      }
      | inr a ↦
          let rest =
            fill_pool-IsFilled n fuel (pushed-IsPooled v a)
              (omega (arith, length-alloc message_size cells)) in
          record {
            pool = rest.pool;
            heap = rest.heap;
            cells = rest.cells;
            slots = rest.slots;
            returns = fill_pool-suc n fuel s h h' p run ∙ rest.returns;
            pooled = rest.pooled;
            most = omega (arith, rest.most);
            full = elim rest.full [
              | inl e ↦ inl (omega (arith, e))
              | inr none_fits ↦ inr none_fits
            ];
          }
    ]

clear_queues-before : (n i : ℕ) (q : ℕ → MsgQueue) (j : ℕ) → j < i → clear_queues n i q j ≡ q j
unfolding clear_queues
clear_queues-before zero i q j h = refl
clear_queues-before (suc n) i q j h =
    clear_queues-before n (suc i) (update q i empty_queue) j (omega arith)
    ∙ update_ne q i j empty_queue (omega arith)

clear_queues-empty :
    (n i : ℕ) (q : ℕ → MsgQueue) (j : ℕ)
    → i ≤ j
    → (i + n ≤ j → q j ≡ empty_queue)
    → clear_queues n i q j ≡ empty_queue
unfolding clear_queues
clear_queues-empty zero i q j p h = h (omega arith)
clear_queues-empty (suc n) i q j p h = elim (ℕ_discrete i j) [
  | yes same ↦ rw (← same) (
      clear_queues-before n (suc i) (update q i empty_queue) i (omega arith)
      ∙ update_self q i empty_queue)
  | no other ↦
      clear_queues-empty n (suc i) (update q i empty_queue) j (omega arith)
        (λ le. update_ne q i j empty_queue other ∙ h (omega arith))
]

-- The queues that a pool of free slots stands for.
abbrev pub all_free : List ℕ → Queues
all_free slots = record {
  free = slots;
  queued = λ i. [];
  packet = λ a. record { sender = pos 0; bytes = [] };
  place = λ a. 0;
}

every : {P : ℕ → Type 0} → ((a : ℕ) → P a) → (xs : List ℕ) → All P xs
every f [] = tt
every f (x ∷ xs) = (f x, every f xs)

IsPooled-Represents :
    {start limit : ℕ} {s : Ipc} {h : Heap} {cells : List Cell} {slots : List ℕ}
    → IsPooled start limit s h cells slots
    → Represents s (all_free slots)
IsPooled-Represents {slots = slots} v = record {
  free_chain = v.chain;
  free_nodup = Spread-IsNodup slots v.spread;
  free_place = every {P = λ a. 0 ≡ 0} (λ a. refl) slots;
  chain = λ i. ap (λ (q : MsgQueue). q.head) (v.queues i);
  nodup = λ i. tt;
  placed = λ i. tt;
  tail = λ i. ap (λ (q : MsgQueue). q.tail) (v.queues i);
  count = λ i. ap (λ (q : MsgQueue). q.count) (v.queues i);
  stored = λ a i e. absurd (omega arith);
}

-- What `ipc_init` leaves: a well-formed pool of at most 64 free slots and empty queues. The slots are the bytes of
-- blocks in use of a well-formed heap and share no byte, and there are 64 of them or no free block has room for one more.
pub record IsStarted (start limit : ℕ) (run : Option (Ipc × Heap)) : Type 0 where
  pub pool : Ipc
  pub heap : Heap
  pub cells : List Cell
  pub slots : List ℕ
  pub returns : run ≡ some (pool, heap)
  pub represents : Represents pool (all_free slots)
  pub is_heap : IsHeap heap start limit cells
  pub in_heap : All (IsSlot start cells) slots
  pub spread : Spread slots
  pub most : length slots ≤ max_messages
  pub full : (length slots ≡ max_messages) ⊎ NoRoom cells

-- On a well-formed heap, with an empty free list, no queues but those of the eight tasks, and fuel for 64 blocks more than the
-- heap has, `ipc_init` returns and leaves a message pool that `send_message` and `recv_message` can work on: its slots are distinct blocks of the heap, which
-- share no byte, and they are 64 or as many as the heap has room for.
pub ipc_init-IsStarted :
    {start limit : ℕ} {h : Heap} {cells : List Cell} (fuel : ℕ) (s : Ipc)
    → IsHeap h start limit cells
    → s.free_messages ≡ 0
    → ((i : ℕ) → max_tasks ≤ i → s.message_queues i ≡ empty_queue)
    → length cells + max_messages < fuel
    → IsStarted start limit (ipc_init fuel s h)
unfolding ipc_init
ipc_init-IsStarted {start} {limit} {h} {cells} fuel s v none_free outside enough =
    let cleared : Ipc = record s { message_queues = clear_queues max_tasks 0 s.message_queues } in
    let before : IsPooled start limit cleared h cells [] = record {
      heap = v;
      chain = none_free;
      in_heap = tt;
      spread = tt;
      queues = λ i. clear_queues-empty max_tasks 0 s.message_queues i (omega arith) (outside i);
    } in
    let r = fill_pool-IsFilled max_messages fuel before enough in
    record {
      pool = r.pool;
      heap = r.heap;
      cells = r.cells;
      slots = r.slots;
      returns = r.returns;
      represents = IsPooled-Represents r.pooled;
      is_heap = r.pooled.heap;
      in_heap = r.pooled.in_heap;
      spread = r.pooled.spread;
      most = r.most;
      full = r.full;
    }
