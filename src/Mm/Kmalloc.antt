-- ===== src/Mm/Kmalloc.antt =====
-- What `kmalloc` of kernal/mm.c promises its callers.
use hydra_microkernal.Prelude.{
  ℕ, ◌+◌, ◌%◌, ◌^◌, ◌≤◌, ◌<◌, ◌≡◌, ◌≢◌, refl, sym, ap, ◌∙◌, true, false, some, List, [], ◌∷◌,
  length, All, ◌==◌, if◌then◌else◌, update, arith, ℕ_discrete, if_eq, if_ne, ◌⊎◌, inl, inr,
}
use hydra_microkernal.Mm.{MemBlock, Heap, header_size, align8, find_fit, split, take_block, kmalloc}
use hydra_microkernal.Mm.Cells.{
  Cell, behind, link, Layout, used, IsHeap, alloc, fit, IsAt, InUse, now, later,
}
use hydra_microkernal.Mm.Search.{
  used-le, fit-ge, fit-none, find_fit-fit, IsAt-le, fit-not-InUse, InUse-apart,
}
use hydra_microkernal.Mm.Alloc.{alloc-Layout, alloc-used, alloc-InUse, alloc-keeps}

pub align8_mod : (size : ℕ) → align8 size % 8 ≡ 0
unfolding align8
align8_mod size = omega arith

-- Rounding up, for a size of which the sum with 7 is no more than an `unsigned int`.
pub align8_bounds : (size : ℕ) → size + 7 < 2 ^ 32 → (size ≤ align8 size) × (align8 size ≤ size + 7)
unfolding align8
align8_bounds size h = omega arith

-- A successful allocation of `n` bytes at `ptr`.
pub record Allocates (start limit : ℕ) (cells : List Cell) (n : ℕ) (h' : Heap) (ptr : ℕ)
    : Type 0 where
  pub heap : IsHeap h' start limit (alloc n cells)
  pub block : ℕ
  pub room : ℕ
  pub pointer : ptr ≡ block + header_size
  pub enough : n ≤ room
  pub in_use : InUse block room start (alloc n cells)
  pub aligned : ptr % 8 ≡ 0
  pub above : start ≤ block
  pub below : ptr + room ≤ limit
  pub kept : (y k : ℕ) → InUse y k start cells → InUse y k start (alloc n cells)
  pub apart :
      (y k : ℕ)
      → InUse y k start cells
      → (block + header_size + room ≤ y) ⊎ (y + header_size + k ≤ block)

-- An allocation that fails.
pub record Refuses (cells : List Cell) (n : ℕ) (h h' : Heap) (ptr : ℕ) : Type 0 where
  pub null : ptr ≡ 0
  pub same : h' ≡ h
  pub no_room : All (λ c. c.free ≡ true → c.size < n) cells

alloc-nonempty : (n : ℕ) (cs : List Cell) → cs ≢ [] → alloc n cs ≢ []
unfolding alloc
alloc-nonempty n [] h = h
alloc-nonempty n (c ∷ cs) h = ground arith

fit-aligned :
    (st : ℕ → MemBlock) (n a limit : ℕ) (cs : List Cell)
    → Layout st a limit cs
    → fit n a cs ≢ 0
    → fit n a cs % 8 ≡ 0
unfolding fit
fit-aligned st n a limit [] l h = absurd (h refl)
fit-aligned st n a limit (c ∷ cs) l h = ground (arith, fit-aligned st n (behind a c) limit cs l.2)

take_block-eq :
    (b n : ℕ) (h : Heap)
    → take_block b n h ≡ (
      record h {
        store = update (split b n h.store) b (record (split b n h.store b) { free = false });
        total_allocated = (h.total_allocated + (split b n h.store b).size) % 2 ^ 32;
      },
      b + header_size,
    )
unfolding take_block
take_block-eq b n h = refl

module _ {h : Heap} {start limit : ℕ} {cells : List Cell} (v : IsHeap h start limit cells) (n : ℕ)
    (aligned : n % 8 ≡ 0) where
  abbrev at : ℕ
  at = fit n start cells

  take_block-Allocates :
      fit n start cells ≢ 0
      → Allocates start limit cells n (take_block at n h).0 (take_block at n h).1
  take_block-Allocates ne =
      let block = alloc-InUse n start cells ne in
      let new = alloc-Layout n aligned h.store start limit cells v.ne_null ne v.layout in
      rw (take_block-eq at n h) (record {
        heap = record {
          head = v.head;
          ne_null = v.ne_null;
          nonempty = alloc-nonempty n cells v.nonempty;
          layout = new;
          small = v.small;
          total = total ne;
        };
        block = at;
        room = block.0;
        pointer = refl;
        enough = block.1;
        in_use = block.2;
        aligned = omega (arith, fit-aligned h.store n start limit cells v.layout ne);
        above = fit-ge n start cells ne;
        below = IsAt-le _ limit block.2 new;
        kept = λ y k u. alloc-keeps n u;
        apart = λ y k u. InUse-apart block.2 (alloc-keeps n u) (fit-not-InUse n u v.ne_null ne);
      })
    where
      total :
          fit n start cells ≢ 0
          → (h.total_allocated + (split at n h.store at).size) % 2 ^ 32 ≡ used (alloc n cells)
      total ne =
          let new = alloc-Layout n aligned h.store start limit cells v.ne_null ne v.layout in
          omega (
            arith,
            v.total,
            v.small,
            alloc-used n aligned h.store start limit cells ne v.layout,
            used-le _ start limit (alloc n cells) new,
          )

pub link-eq : (a : ℕ) (cs : List Cell) → cs ≢ [] → link a cs ≡ a
link-eq a [] h = absurd (h refl)
link-eq a (c ∷ cs) h = refl

kmalloc-found :
    (fuel size b : ℕ) (h : Heap)
    → h.heap_head ≢ 0
    → find_fit fuel h.store (align8 size) h.heap_head ≡ some b
    → kmalloc fuel size h ≡ (if b == 0 then some (h, 0) else some (take_block b (align8 size) h))
unfolding kmalloc
kmalloc-found fuel size b h ne e = rw e (if_ne h.heap_head 0 _ _ ne)

-- In a well-formed heap `kmalloc` returns, with more fuel than there are blocks. If no free block
-- has the rounded size, it returns null and changes nothing. Otherwise the pointer is a multiple of
-- 8, behind the header of a block that lies in the heap, has at least the rounded size and overlaps
-- no block that was in use before, header and all; those stay in use; and the heap stays well
-- formed, its cells being those of first fit and its total the bytes in use.
pub kmalloc_lem :
    {h : Heap} {start limit : ℕ} {cells : List Cell}
    → IsHeap h start limit cells
    → (fuel size : ℕ) → length cells < fuel
    → (h' : Heap) × (ptr : ℕ) × (kmalloc fuel size h ≡ some (h', ptr))
      × (Refuses cells (align8 size) h h' ptr ⊎ Allocates start limit cells (align8 size) h' ptr)
kmalloc_lem {h} {start} {limit} {cells} v fuel size enough = elim (ℕ_discrete at_fit 0) [
  | yes e ↦ (
    h,
    0,
    run ∙ if_eq at_fit 0 _ _ e,
    inl (record {
      null = refl;
      same = refl;
      no_room = fit-none (align8 size) start cells v.ne_null e;
    }),
  )
  | no ne ↦ (
    (take_block at_fit (align8 size) h).0,
    (take_block at_fit (align8 size) h).1,
    run ∙ if_ne at_fit 0 _ _ ne,
    inr (take_block-Allocates v (align8 size) (align8_mod size) ne),
  )
]
  where
    at_fit : ℕ
    at_fit = fit (align8 size) start cells

    search : find_fit fuel h.store (align8 size) h.heap_head ≡ some at_fit
    search =
        ap (find_fit fuel h.store (align8 size)) (v.head ∙ sym (link-eq start cells v.nonempty))
        ∙ find_fit-fit h.store (align8 size) limit fuel start cells v.ne_null enough v.layout

    run :
        kmalloc fuel size h
        ≡ (if at_fit == 0 then some (h, 0) else some (take_block at_fit (align8 size) h))
    run = kmalloc-found fuel size at_fit h (λ e. v.ne_null (sym v.head ∙ e)) search

align8_wraps : (size : ℕ) → 2 ^ 32 ≤ size + 7 → size < 2 ^ 32 → align8 size ≡ 0
unfolding align8
align8_wraps size h k = omega arith

no_room-free :
    {n x m a : ℕ} {cs : List Cell}
    → All (λ c. c.free ≡ true → c.size < n) cs
    → IsAt x m true a cs
    → m < n
no_room-free h (now p q r) = omega (arith, h.0 r, q)
no_room-free h (later u) = no_room-free h.1 u

-- A size within 6 of the largest `unsigned int` is rounded up to 0. So, in a well-formed heap with a
-- free block of any size and more fuel than blocks, `kmalloc` of nearly 4 GiB does not fail: it
-- returns a block as for 0 bytes.
pub kmalloc-oversize :
    {h : Heap} {start limit : ℕ} {cells : List Cell}
    → IsHeap h start limit cells
    → (fuel size x m : ℕ) → length cells < fuel
    → IsAt x m true start cells
    → 2 ^ 32 ≤ size + 7
    → size < 2 ^ 32
    → (h' : Heap) × (ptr : ℕ) × (kmalloc fuel size h ≡ some (h', ptr))
      × Allocates start limit cells 0 h' ptr
kmalloc-oversize {h} {start} {limit} {cells} v fuel size x m enough u big word =
    let (h', ptr, run, end) = kmalloc_lem v fuel size enough in (h', ptr, run, sort end)
  where
    zero_size : align8 size ≡ 0
    zero_size = align8_wraps size big word

    sort :
        {h' : Heap} {ptr : ℕ}
        → Refuses cells (align8 size) h h' ptr ⊎ Allocates start limit cells (align8 size) h' ptr
        → Allocates start limit cells 0 h' ptr
    sort (inl r) = absurd (omega (arith, no_room-free r.no_room u, zero_size))
    sort (inr a) = rw (← zero_size) a
