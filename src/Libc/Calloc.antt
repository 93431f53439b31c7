-- ===== src/Libc/Calloc.antt =====
-- `calloc` of lib/libc/stdlib.c over the heap of kernal/mm.c.
use native.Mathlib.Nat.{mod-eq_of_lt}
use hydra_microkernal.Prelude.{
  ℕ, zero, suc, ◌+◌, ◌*◌, ◌%◌, ◌^◌, ◌≤◌, ◌<◌, ◌≡◌, refl, ap, ap₂, ◌∙◌, ◌⊎◌, inl, inr, Option, some,
  List, length, update, update_self, update_ne, if_eq, if_ne, All, true, ◌==◌, if◌then◌else◌, Bytes,
  arith, ℕ_discrete,
}
use hydra_microkernal.Mm.{Heap, align8, kmalloc}
use hydra_microkernal.Mm.Cells.{Cell, IsHeap}
use hydra_microkernal.Mm.Kmalloc.{Allocates, kmalloc_lem}
use hydra_microkernal.Libc.Stdlib.{clear_from, malloc, calloc}

clear_from-outside :
    (n i p : ℕ) (memory : Bytes) (x : ℕ)
    → (x < p + i) ⊎ (p + i + n ≤ x)
    → clear_from n i p memory x ≡ memory x
unfolding clear_from
clear_from-outside zero i p memory x h = refl
clear_from-outside (suc n) i p memory x h =
    clear_from-outside n (suc i) p (update memory (p + i) 0) x (ground arith)
    ∙ update_ne memory (p + i) x 0 (ground arith)

clear_from-zero :
    (n i p : ℕ) (memory : Bytes) (k : ℕ) → i ≤ k → k < i + n → clear_from n i p memory (p + k) ≡ 0
unfolding clear_from
clear_from-zero zero i p memory k a b = absurd (omega arith)
clear_from-zero (suc n) i p memory k a b = elim (ℕ_discrete k i) [
  | yes e ↦
      clear_from-outside n (suc i) p (update memory (p + i) 0) (p + k) (inl (omega arith))
      ∙ ap (update memory (p + i) 0) (omega arith)
      ∙ update_self memory (p + i) 0
  | no ne ↦ clear_from-zero n (suc i) p (update memory (p + i) 0) k (omega arith) (omega arith)
]

-- A block of `total` bytes, all of them 0; the other memory is as it was.
pub record IsZeroed (start limit : ℕ) (cells : List Cell) (total : ℕ) (memory : Bytes)
    (run : Option (Heap × Bytes × ℕ)) : Type 0 where
  pub heap : Heap
  pub out : Bytes
  pub ptr : ℕ
  pub returns : run ≡ some (heap, out, ptr)
  pub allocated : Allocates start limit cells (align8 total) heap ptr
  pub zeros : (k : ℕ) → k < total → out (ptr + k) ≡ 0
  pub outside : (x : ℕ) → (x < ptr) ⊎ (ptr + total ≤ x) → out x ≡ memory x

module _ {h : Heap} {start limit : ℕ} {cells : List Cell} (v : IsHeap h start limit cells) where
  calloc-block :
      (fuel num size : ℕ) (memory : Bytes) (h' : Heap) (ptr : ℕ)
      → num * size < 2 ^ 32
      → kmalloc fuel (num * size) h ≡ some (h', ptr)
      → calloc fuel num size h memory ≡ (
          if ptr == 0
          then some (h', memory, ptr)
          else some (h', clear_from (num * size) 0 ptr memory, ptr))
  unfolding calloc malloc
  calloc-block fuel num size memory h' ptr small run =
      let wide : num * size % 2 ^ 64 ≡ num * size = mod-eq_of_lt (omega arith) in
      let word : num * size % 2 ^ 32 ≡ num * size = mod-eq_of_lt small in
      rw (wide, word, run, calloc)
        (ap
          (λ n.
            if ptr == 0 then some (h', memory, ptr) else some (h', clear_from n 0 ptr memory, ptr))
          wide)

  -- In a well-formed heap, for a product that `kmalloc` can round up without wrap-around, `calloc` returns, with more fuel than there
  -- are blocks: null, with heap and memory as they were, if no free block has the rounded size, and otherwise a block in use of at least
  -- that size, as `kmalloc` promises, whose `num * size` bytes are 0; no other memory changes.
  pub calloc-IsZeroed :
      (fuel num size : ℕ) (memory : Bytes)
      → length cells < fuel
      → num * size + 7 < 2 ^ 32
      → ((calloc fuel num size h memory ≡ some (h, memory, 0))
          × All (λ c. c.free ≡ true → c.size < align8 (num * size)) cells)
        ⊎ IsZeroed start limit cells (num * size) memory (calloc fuel num size h memory)
  calloc-IsZeroed fuel num size memory enough small =
      let (h', ptr, run, end) = kmalloc_lem v fuel (num * size) enough in
      let block = calloc-block fuel num size memory h' ptr (omega arith) run in
      elim end [
        | inl r ↦ inl (
          block
              ∙ if_eq ptr 0 _ _ r.null
              ∙ ap₂ (λ (x : Heap) (p : ℕ). some (x, memory, p)) r.same r.null,
          r.no_room,
        )
        | inr a ↦ inr (record {
          heap = h';
          out = clear_from (num * size) 0 ptr memory;
          ptr = ptr;
          returns = block ∙ if_ne ptr 0 _ _ (omega (arith, a.pointer));
          allocated = a;
          zeros = λ k less. clear_from-zero (num * size) 0 ptr memory k (omega arith) (omega arith);
          outside = λ x away.
              clear_from-outside (num * size) 0 ptr memory x
                (elim away [ inl l ↦ inl (omega arith) | inr g ↦ inr (omega arith) ]);
        })
      ]
