-- ===== src/Mm.antt =====
-- kernal/mm.h and kernal/mm.c: the kernel heap, a first-fit allocator over a list of block headers
-- that lie in the heap itself. The addresses `__heap_start` and `__heap_end` of the linker script are
-- arguments; log output is left out. What clients write into their blocks is not modelled, so the
-- headers change only by the functions below. A loop takes fuel, and `none` means that it ran out.
pub mod Cells
pub mod Search
pub mod Alloc
pub mod Kmalloc
pub mod Free
pub mod Join
pub mod Kfree
pub mod Boot
mod Tests
use hydra_microkernal.Prelude.{
  ℕ, zero, suc, ◌+◌, ◌-◌, ◌*◌, ◌/◌, ◌%◌, ◌^◌, Bool, true, false, not, ◌&&◌, ◌||◌, Option, none,
  some, leb, ltb, ◌==◌, if◌then◌else◌, update,
}

-- `struct mem_block`; a pointer is a number, and 0 is null.
pub record MemBlock : Type 0 where
  pub size : ℕ
  pub free : Bool
  pub next : ℕ

-- sizeof(struct mem_block)
abbrev pub header_size : ℕ
header_size = 16

-- The headers in memory, `heap_head` and `total_allocated`.
pub record Heap : Type 0 where
  pub store : ℕ → MemBlock
  pub heap_head : ℕ
  pub total_allocated : ℕ

unfoldable pub mm_init : ℕ → ℕ → Heap → Heap
mm_init heap_start heap_end h =
    let start = (heap_start + 7) % 2 ^ 64 / 8 * 8 in
    record h {
      store = update h.store start (record {
        size = (heap_end + 2 ^ 64 - start + 2 ^ 64 - header_size) % 2 ^ 32;
        free = true;
        next = 0;
      });
      heap_head = start;
    }

-- `(size + 7) & ~7` on an `unsigned int`
unfoldable pub align8 : ℕ → ℕ
align8 size = (size + 7) % 2 ^ 32 / 8 * 8

-- The first-fit search; the address 0 means that no block fits.
unfoldable pub find_fit : ℕ → (ℕ → MemBlock) → ℕ → ℕ → Option ℕ
find_fit zero store size current = none
find_fit (suc fuel) store size current =
    let rest = find_fit fuel store size (store current).next in
    if current == 0
    then some 0
    else if (store current).free && leb size (store current).size
    then some current
    else rest

-- The block is cut only if more than 48 bytes are left over, so the subtractions do not wrap.
unfoldable pub split : ℕ → ℕ → (ℕ → MemBlock) → ℕ → MemBlock
split best_fit size store =
    if ltb (size + header_size + 32) (store best_fit).size
    then update
        (update store (best_fit + header_size + size) (record {
          size = (store best_fit).size - size - header_size;
          free = true;
          next = (store best_fit).next;
        }))
        best_fit (record (store best_fit) { size = size; next = best_fit + header_size + size })
    else store

-- The part of `kmalloc` behind the search.
unfoldable pub take_block : ℕ → ℕ → Heap → Heap × ℕ
take_block best_fit size h =
    let store = split best_fit size h.store in
    (
      record h {
        store = update store best_fit (record (store best_fit) { free = false });
        total_allocated = (h.total_allocated + (store best_fit).size) % 2 ^ 32;
      },
      best_fit + header_size,
    )

unfoldable pub kmalloc : ℕ → ℕ → Heap → Option (Heap × ℕ)
kmalloc fuel size h =
    if h.heap_head == 0
    then some (h, 0)
    else elim (find_fit fuel h.store (align8 size) h.heap_head) [
      | none ↦ none
      | some best_fit ↦
          if best_fit == 0 then some (h, 0) else some (take_block best_fit (align8 size) h)
    ]

-- "Coalesce with next block if it's free"
unfoldable pub coalesce_next : ℕ → (ℕ → MemBlock) → ℕ → MemBlock
coalesce_next block store =
    let after = (store block).next in
    if not (after == 0) && (store after).free
    then update store block (record (store block) {
      size = ((store block).size + ((store after).size + header_size)) % 2 ^ 32;
      next = (store after).next;
    })
    else store

-- The search for the block whose successor is `block`; 0 means that there is none.
unfoldable pub find_previous : ℕ → (ℕ → MemBlock) → ℕ → ℕ → Option ℕ
find_previous zero store block current = none
find_previous (suc fuel) store block current =
    let rest = find_previous fuel store block (store current).next in
    if current == 0 then some 0 else if (store current).next == block then some current else rest

-- "Coalesce with previous block if it's free"
unfoldable pub coalesce_previous : ℕ → ℕ → (ℕ → MemBlock) → ℕ → MemBlock
coalesce_previous current block store =
    if not (current == 0) && (store current).free
    then update store current (record (store current) {
      size = ((store current).size + ((store block).size + header_size)) % 2 ^ 32;
      next = (store block).next;
    })
    else store

-- The part of `kfree` behind the test for null.
unfoldable pub free_block : ℕ → ℕ → Heap → Option Heap
free_block fuel block h =
    if (h.store block).free
    then some h
    else let store =
        coalesce_next block (update h.store block (record (h.store block) { free = true })) in
      elim (find_previous fuel store block h.heap_head) [
        | none ↦ none
        | some current ↦ some (record h {
          store = coalesce_previous current block store;
          total_allocated = (h.total_allocated + 2 ^ 32 - (h.store block).size) % 2 ^ 32;
        })
      ]

-- `block = ptr - sizeof(struct mem_block)`; a pointer that `kmalloc` returned is at least 16.
unfoldable pub kfree : ℕ → ℕ → Heap → Option Heap
kfree fuel ptr h = if ptr == 0 then some h else free_block fuel (ptr - header_size) h

-- The totals of `mm_stats`: blocks, free blocks, and free bytes.
pub record Stats : Type 0 where
  pub num_blocks : ℕ
  pub num_free_blocks : ℕ
  pub total_free : ℕ

unfoldable pub stats_from : ℕ → (ℕ → MemBlock) → ℕ → Stats → Option Stats
stats_from zero store current acc = none
stats_from (suc fuel) store current acc =
    let rest = stats_from fuel store (store current).next (record {
      num_blocks = acc.num_blocks + 1;
      num_free_blocks =
          if (store current).free then acc.num_free_blocks + 1 else acc.num_free_blocks;
      total_free =
          if (store current).free then acc.total_free + (store current).size else acc.total_free;
    }) in
    if current == 0 then some acc else rest

unfoldable pub mm_stats : ℕ → Heap → Option Stats
mm_stats fuel h =
    stats_from fuel h.store h.heap_head
      (record { num_blocks = 0; num_free_blocks = 0; total_free = 0 })
