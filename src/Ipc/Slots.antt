-- ===== src/Ipc/Slots.antt =====
-- The slots of the message pool of kernal/ipc.c as blocks of the heap of kernal/mm.c.
use hydra_microkernal.Prelude.{
  ℕ, suc, ◌+◌, ◌≤◌, ◌<◌, ◌≡◌, ◌≢◌, refl, sym, ap, ◌⊎◌, inl, inr, true, ◌&&◌, List, [], ◌∷◌, length,
  All, ltb, leb, if_cases, if_ne, update, update_self, update_ne, Avoids, IsNodup, Chain,
  Chain-frame, Chain-head, arith,
}
use hydra_microkernal.Mm.{Heap, header_size}
use hydra_microkernal.Mm.Cells.{Cell, IsHeap, alloc, InUse}
use hydra_microkernal.Mm.Kmalloc.{Allocates}
use hydra_microkernal.Ipc.{Ipc, Message}
use hydra_microkernal.Ipc.Queues.{nexts}
use hydra_microkernal.Ipc.Start.{message_size, empty_queue, push_free}

-- A slot of the pool: the bytes behind the header of a block in use that has room for a message.
pub record IsSlot (start : ℕ) (cells : List Cell) (p : ℕ) : Type 0 where
  pub block : ℕ
  pub room : ℕ
  pub pointer : p ≡ block + header_size
  pub enough : message_size ≤ room
  pub in_use : InUse block room start cells

-- Two messages that share no byte.
abbrev pub Apart : ℕ → ℕ → Type 0
Apart p q = (p + message_size ≤ q) ⊎ (q + message_size ≤ p)

abbrev pub Spread : List ℕ → Type 0
Spread [] = Unit
Spread (p ∷ ps) = All (Apart p) ps × Spread ps

-- No free block has room for a message.
abbrev pub NoRoom : List Cell → Type 0
NoRoom = All (λ c. c.free ≡ true → c.size < message_size)

-- What the loop keeps: the free list leads through slots of the heap that share no byte, and all queues are empty.
pub record IsPooled (start limit : ℕ) (s : Ipc) (h : Heap) (cells : List Cell) (slots : List ℕ)
    : Type 0 where
  pub heap : IsHeap h start limit cells
  pub chain : Chain (nexts s) s.free_messages slots
  pub in_heap : All (IsSlot start cells) slots
  pub spread : Spread slots
  pub queues : (i : ℕ) → s.message_queues i ≡ empty_queue

pub slots-kept :
    {start : ℕ} {cells cells' : List Cell}
    → ((y k : ℕ) → InUse y k start cells → InUse y k start cells')
    → (ps : List ℕ) → All (IsSlot start cells) ps
    → All (IsSlot start cells') ps
slots-kept kept [] h = tt
slots-kept kept (p ∷ ps) h = (
  record {
    block = h.0.block;
    room = h.0.room;
    pointer = h.0.pointer;
    enough = h.0.enough;
    in_use = kept h.0.block h.0.room h.0.in_use;
  },
  slots-kept kept ps h.1,
)

pub slots-Apart :
    {start limit : ℕ} {cells : List Cell} {h' : Heap} {p : ℕ}
    → Allocates start limit cells message_size h' p
    → (ps : List ℕ) → All (IsSlot start cells) ps
    → All (Apart p) ps
slots-Apart a [] h = tt
slots-Apart a (q ∷ ps) h = (
  elim (a.apart h.0.block h.0.room h.0.in_use) [
    | inl e ↦ inl (omega (arith, a.pointer, a.enough, h.0.pointer))
    | inr e ↦ inr (omega (arith, a.pointer, h.0.enough, h.0.pointer))
  ],
  slots-Apart a ps h.1,
)

pub Apart-Avoids : (p : ℕ) (ps : List ℕ) → All (Apart p) ps → Avoids p ps
Apart-Avoids p [] h = tt
Apart-Avoids p (q ∷ ps) h = (λ e. ground arith, Apart-Avoids p ps h.1)

pub Spread-IsNodup : (ps : List ℕ) → Spread ps → IsNodup ps
Spread-IsNodup [] h = tt
Spread-IsNodup (p ∷ ps) h = (Apart-Avoids p ps h.0, Spread-IsNodup ps h.1)

pub unchanged-next :
    (f : ℕ → Message) (p : ℕ) (m : Message) (ps : List ℕ)
    → Avoids p ps
    → All (λ a. (update f p m a).next ≡ (f a).next) ps
unchanged-next f p m [] h = tt
unchanged-next f p m (q ∷ ps) h = (
  ap (λ (x : Message). x.next) (update_ne f p q m (λ e. h.0 (sym e))),
  unchanged-next f p m ps h.1,
)

pub push_free-ne :
    (p : ℕ) (s : Ipc)
    → p ≢ 0
    → push_free p s ≡ record s {
      store = update s.store p (record (s.store p) { next = s.free_messages });
      free_messages = p;
    }
push_free-ne p s ne = if_ne p 0 _ _ ne

module _ {start limit : ℕ} {s : Ipc} {h : Heap} {cells : List Cell} {slots : List ℕ}
    (v : IsPooled start limit s h cells slots) where
  pub pushed-IsPooled :
      {h' : Heap} {p : ℕ}
      → Allocates start limit cells message_size h' p
      → IsPooled start limit (push_free p s) h' (alloc message_size cells) (p ∷ slots)
  pushed-IsPooled {h'} {p} a =
      let ne : p ≢ 0 = omega (arith, a.pointer) in
      let apart = slots-Apart a slots v.in_heap in
      let away = Apart-Avoids p slots apart in
      let m = record (s.store p) { next = s.free_messages } in
      rw (push_free-ne p s ne) (record {
        heap = a.heap;
        chain = (
          refl,
          ne,
          Chain-head (λ b. (update s.store p m b).next) slots
              (ap (λ (x : Message). x.next) (update_self s.store p m))
              (Chain-frame (nexts s) (λ b. (update s.store p m b).next) s.free_messages slots
                (unchanged-next s.store p m slots away) v.chain),
        );
        in_heap = (
          record {
            block = a.block;
            room = a.room;
            pointer = a.pointer;
            enough = a.enough;
            in_use = a.in_use;
          },
          slots-kept a.kept slots v.in_heap,
        );
        spread = (apart, v.spread);
        queues = v.queues;
      })

pub length-alloc : (n : ℕ) (cells : List Cell) → length (alloc n cells) ≤ suc (length cells)
unfolding alloc
length-alloc n [] = omega arith
length-alloc n (c ∷ cs) =
    if_cases (λ (l : List Cell). length l ≤ suc (suc (length cs))) (c.free && leb n c.size)
      (if_cases (λ (l : List Cell). length l ≤ suc (suc (length cs)))
        (ltb (n + header_size + 32) c.size) (omega arith) (omega arith))
      (omega (arith, length-alloc n cs))
