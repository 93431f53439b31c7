-- ===== src/Ipc/Send.antt =====
-- `send_message` of kernal/ipc.c refines `Queues.send`, and keeps the pool well formed.
use hydra_microkernal.Prelude.{
  ℕ, suc, ◌≤◌, ◌<◌, ◌≡◌, ◌≢◌, refl, sym, ◌∙◌, ap, ℤ, pos, negsuc, List, [], ◌∷◌, ◌++◌, length,
  length-append, last_or, last_or-append, All, All-map, All-last, All-append, update, update_self,
  update_ne, update-ind, Chain, Chain-frame, Chain-snoc, IsNodup, IsNodup-snoc, Avoids, Bytes,
  prefix, arith, some, none, Option, negsuc, dec_lt, dec_le, ◌⊎◌, inl, inr, pos_part, subst,
  ℕ_discrete,
}
use hydra_microkernal.Ipc.{Ipc, Message, deliver, send_message, max_message_size}
use hydra_microkernal.Sched.{max_tasks}
use hydra_microkernal.Ipc.Sent.{
  sent, sent-free, sent-other, sent-other_first, sent-next, sent-next_first, sent-link,
  sent-next_ne, sent-payload, sent-filled, sent-head_first, sent-head, sent-tail, sent-count,
  sent-queue_ne, deliver-sent, deliver-empty, deliver-full,
}
use hydra_microkernal.Ipc.Queues
use hydra_microkernal.Ipc.Queues.{Queues, Represents, IsStored, nexts, send-full, send-free}

module _ (s : Ipc) (a : ℕ) (t : ℤ) (r : ℕ) (src : Bytes) (n : ℕ) (place : ℕ → ℕ)
    (e : s.free_messages ≡ a) (ne : a ≢ 0) (free : place a ≡ 0) where
  abbrev s' : Ipc
  s' = sent s a t r src n

  -- A slot outside queue `r` and other than the new one is left alone.
  same_store :
      (l : List ℕ)
      → Chain (nexts s) (s.message_queues r).head l
      → (s.message_queues r).tail ≡ last_or 0 l
      → All (λ x. place x ≡ suc r) l
      → (b i : ℕ) → place b ≡ i
      → i ≢ suc r
      → b ≢ a
      → s'.store b ≡ s.store b
  same_store [] c q p b i h k away = sent-other_first s a t r src n e ne b away c
  same_store (x ∷ xs) c q p b i h k away =
      sent-other s a t r src n e ne b away
        (λ d. k (sym h ∙ ap place (d ∙ q) ∙ All-last (λ y. place y ≡ suc r) x xs p))

  -- The chain of queue `r` is longer by the new slot.
  grown-Chain :
      (l : List ℕ)
      → Chain (nexts s) (s.message_queues r).head l
      → (s.message_queues r).tail ≡ last_or 0 l
      → All (λ x. place x ≡ suc r) l
      → IsNodup l
      → Chain (nexts s') (s'.message_queues r).head (l ++ a ∷ [])
  grown-Chain [] c q p d =
      (sent-head_first s a t r src n e ne c, ne, sent-next_first s a t r src n e ne c)
  grown-Chain (x ∷ xs) c q p d = rw (sent-head s a t r src n e ne head_ne) (
      Chain-snoc (nexts s) (nexts s') (s.message_queues r).head x xs a d away ne
        (rw (← q) (sent-link s a t r src n e ne head_ne))
        (sent-next s a t r src n e ne (λ k. last_ne (sym (k ∙ q))))
        (λ y u w. sent-next_ne s a t r src n e ne y w (λ k. u (k ∙ q))) c)
    where
      head_ne : (s.message_queues r).head ≢ 0
      head_ne = λ k. c.1 (sym c.0 ∙ k)

      away : Avoids a (x ∷ xs)
      away = All-map (x ∷ xs) (λ y h k. absurd (omega (arith, h, free, ap place k))) p

      last_ne : last_or x xs ≢ a
      last_ne = All-last (λ y. y ≢ a) x xs away

module _ {s : Ipc} {v : Queues} (R : Represents s v) (a : ℕ) (rest : List ℕ)
    (split : v.free ≡ a ∷ rest) (t : ℤ) (r : ℕ) (src : Bytes) (n : ℕ) (pos_n : 0 < n)
    (small : n ≤ max_message_size) where
  free' : Chain (nexts s) s.free_messages (a ∷ rest)
  free' = rw split at R.free_chain

  nodup' : IsNodup (a ∷ rest)
  nodup' = rw split at R.free_nodup

  place' : All (λ x. v.place x ≡ 0) (a ∷ rest)
  place' = rw split at R.free_place

  abbrev u : Ipc
  u = sent s a t r src n

  abbrev w : Queues
  w = record {
    free = rest;
    queued = update v.queued r (v.queued r ++ a ∷ []);
    packet = update v.packet a (record { sender = t; bytes = prefix n src });
    place = update v.place a (suc r);
  }

  same : (b i : ℕ) → v.place b ≡ i → i ≢ suc r → b ≢ a → u.store b ≡ s.store b
  same =
      same_store s a t r src n v.place free'.0 free'.1 place'.0 (v.queued r) (R.chain r) (R.tail r)
        (R.placed r)

  -- The new place of a slot of another list.
  kept :
      (i : ℕ) (xs : List ℕ)
      → All (λ x. v.place x ≡ i) xs
      → Avoids a xs
      → All (λ x. w.place x ≡ i) xs
  kept i [] h d = tt
  kept i (x ∷ xs) h d = (update_ne v.place a x (suc r) (λ q. d.0 (sym q)) ∙ h.0, kept i xs h.1 d.1)

  apart : (i : ℕ) → Avoids a (v.queued i)
  apart i =
      All-map (v.queued i) (λ x h q. absurd (omega (arith, h, place'.0, ap v.place q))) (R.placed i)

  unchanged :
      (i : ℕ) (xs : List ℕ)
      → All (λ x. v.place x ≡ i) xs
      → Avoids a xs
      → i ≢ suc r
      → All (λ x. nexts u x ≡ nexts s x) xs
  unchanged i [] h d k = tt
  unchanged i (x ∷ xs) h d k =
      (ap (λ (m : Message). m.next) (same x i h.0 k d.0), unchanged i xs h.1 d.1 k)

  new-IsStored : (i : ℕ) → w.place a ≡ suc i → IsStored (u.store a) (w.packet a) i
  new-IsStored i h =
      rw (update_self v.packet a (record { sender = t; bytes = prefix n src }), ← i-eq)
        (sent-filled s a t r src n free'.0 free'.1 pos_n small)
    where
      i-eq : r ≡ i
      i-eq = omega (arith, h, update_self v.place a (suc r))

  old-IsStored : (b i : ℕ) → a ≢ b → w.place b ≡ suc i → IsStored (u.store b) (w.packet b) i
  old-IsStored b i ne h =
      rw (update_ne v.packet a b (record { sender = t; bytes = prefix n src }) ne) (
        sent-payload s a t r src n free'.0 free'.1 b i (v.packet b) (λ q. ne (sym q))
          (R.stored b i (sym (update_ne v.place a b (suc r) ne) ∙ h)))

  pub sent-Represents : Represents u w
  sent-Represents = record {
    free_chain = rw (sent-free s a t r src n free'.0 free'.1) (
        Chain-frame (nexts s) (nexts u) (nexts s a) rest
          (unchanged 0 rest place'.1 nodup'.0 (λ q. absurd (omega arith))) free'.2);
    free_nodup = nodup'.1;
    free_place = kept 0 rest place'.1 nodup'.0;
    chain =
        update-ind (λ i l. Chain (nexts u) (u.message_queues i).head l) v.queued r
          (v.queued r ++ a ∷ [])
          (grown-Chain s a t r src n v.place free'.0 free'.1 place'.0 (v.queued r) (R.chain r)
            (R.tail r) (R.placed r) (R.nodup r))
          (λ i ne. rw (sent-queue_ne s a t r src n free'.0 free'.1 i ne) (
            Chain-frame (nexts s) (nexts u) (s.message_queues i).head (v.queued i)
              (unchanged (suc i) (v.queued i) (R.placed i) (apart i) (λ q. ne (omega arith)))
              (R.chain i)));
    nodup =
        update-ind (λ i l. IsNodup l) v.queued r (v.queued r ++ a ∷ [])
          (IsNodup-snoc a (v.queued r) (R.nodup r) (apart r)) (λ i ne. R.nodup i);
    placed =
        update-ind (λ i l. All (λ x. w.place x ≡ suc i) l) v.queued r (v.queued r ++ a ∷ [])
          (All-append (λ x. w.place x ≡ suc r) (v.queued r) (a ∷ [])
            (kept (suc r) (v.queued r) (R.placed r) (apart r)) (update_self v.place a (suc r), tt))
          (λ i ne. kept (suc i) (v.queued i) (R.placed i) (apart i));
    tail =
        update-ind (λ i l. (u.message_queues i).tail ≡ last_or 0 l) v.queued r
          (v.queued r ++ a ∷ [])
          (sent-tail s a t r src n free'.0 free'.1 ∙ sym (last_or-append 0 a (v.queued r)))
          (λ i ne. rw (sent-queue_ne s a t r src n free'.0 free'.1 i ne) (R.tail i));
    count =
        update-ind (λ i l. (u.message_queues i).count ≡ pos (length l)) v.queued r
          (v.queued r ++ a ∷ [])
          (rw
            (
              sent-count s a t r src n free'.0 free'.1,
              R.count r,
              length-append (v.queued r) (a ∷ []),
            )
            (ap pos (omega arith)))
          (λ i ne. rw (sent-queue_ne s a t r src n free'.0 free'.1 i ne) (R.count i));
    stored = λ b i h. elim (ℕ_discrete a b) [
      | yes q ↦ rw (← q) (new-IsStored i (ap w.place q ∙ h))
      | no q ↦ old-IsStored b i q h
    ];
  }

-- What a call returns with: the state behind it and its code.
pub record Refines (run : Ipc × ℤ) (spec : Queues × ℤ) : Type 0 where
  pub state : Represents run.0 spec.0
  pub code : run.1 ≡ spec.1

deliver-Refines :
    {s : Ipc} (v : Queues) (free : List ℕ)
    → v.free ≡ free
    → Represents s v
    → (t : ℤ) (r : ℕ) (src : Bytes) (n : ℕ) → 0 < n
    → n ≤ max_message_size
    → Refines (deliver s t (pos r) src (pos n)) (Queues.send t r (prefix n src) v)
deliver-Refines {s} v [] e R t r src n p q =
    rw (send-full t r (prefix n src) v e, deliver-empty s t (pos r) src (pos n) none_free)
      (record { state = R; code = refl })
  where
    none_free : s.free_messages ≡ 0
    none_free = rw e at R.free_chain
deliver-Refines {s} v (a ∷ rest) e R t r src n p q =
    rw (send-free t r (prefix n src) v a rest e, deliver-sent s a t r src n here.0 here.1)
      (record { state = sent-Represents R a rest e t r src n p q; code = refl })
  where
    here : Chain (nexts s) s.free_messages (a ∷ rest)
    here = rw e at R.free_chain

-- A call of `send_message` to a task of the table, with 1 to 256 bytes behind a pointer that is
-- not null, is the queue's `send`: it appends the sender and the bytes to the receiver's queue, or
-- reports -1 if no slot is free. The pool stays well formed.
pub send_message-Refines :
    {s : Ipc} {v : Queues}
    → Represents s v
    → (t : ℤ) (r : ℕ) (src : Bytes) (n : ℕ) → r < max_tasks
    → 0 < n
    → n ≤ max_message_size
    → Refines (send_message s t (pos r) (some src) (pos n)) (Queues.send t r (prefix n src) v)
unfolding send_message
send_message-Refines {s} {v} R t r src n h p q =
    subst (λ x. Refines x (Queues.send t r (prefix n src) v)) (ground arith)
      (deliver-Refines v v.free refl R t r src n p q)

-- Whatever its arguments, `send_message` returns 0 or -1. If it returns -1 it has changed nothing;
-- it returns 0 only for a receiver of the table, a size from 1 to 256, a pointer that is not null,
-- and a free list that is not empty.
pub send_message-atomic :
    (s : Ipc) (t receiver : ℤ) (payload : Option Bytes) (size : ℤ)
    → (((send_message s t receiver payload size).1 ≡ negsuc 0)
        × ((send_message s t receiver payload size).0 ≡ s))
      ⊎ (((send_message s t receiver payload size).1 ≡ pos 0)
          × (s.free_messages ≢ 0)
          × (payload ≢ none)
          × (pos_part receiver < max_tasks)
          × (receiver ≡ pos (pos_part receiver))
          × (0 < pos_part size)
          × (pos_part size ≤ max_message_size))
unfolding send_message
send_message-atomic s t (negsuc k) payload size = inl (refl, refl)
send_message-atomic s t (pos r) none size = inl (ground arith, ground arith)
send_message-atomic s t (pos r) (some src) (negsuc n) = inl (ground arith, ground arith)
send_message-atomic s t (pos r) (some src) (pos n) = elim (dec_lt r max_tasks) [
  | no p ↦ inl (ground arith, ground arith)
  | yes p ↦ elim (dec_lt 0 n) [
    | no q ↦ inl (ground arith, ground arith)
    | yes q ↦ elim (dec_le n max_message_size) [
      | no k ↦ inl (ground arith, ground arith)
      | yes k ↦ elim (ℕ_discrete s.free_messages 0) [
        | yes e ↦ inl (
          ground (arith, deliver-empty s t (pos r) src (pos n) e),
          ground (arith, deliver-empty s t (pos r) src (pos n) e),
        )
        | no ne ↦
            inr (
              ground (arith, deliver-full s t (pos r) src (pos n) ne),
              ne,
              (λ e. cc),
              p,
              refl,
              q,
              k,
            )
      ]
    ]
  ]
]
