-- ===== src/Mm/Tests.antt =====
-- The theorems about kernal/mm.c at a heap of 1024 bytes from address 4096 on.
use hydra_microkernal.Prelude.{
  ℕ, ◌+◌, ◌≡◌, ◌⊎◌, refl, true, false, some, [], ◌∷◌, update, arith, List,
}
use hydra_microkernal.Mm.{Heap, align8, kmalloc, kfree}
use hydra_microkernal.Mm.Cells.{Cell, cell, IsHeap, InUse, now, later, used}
use hydra_microkernal.Mm.Kmalloc.{Refuses, Allocates, kmalloc_lem}
use hydra_microkernal.Mm.Kfree.{Frees, kfree_lem}

-- A block of 32 bytes in use between two free ones.
abbrev heap : Heap
heap = record {
  store =
      update
        (update
          (update (λ a. record { size = 0; free = true; next = 0 }) 4096
            (record { size = 64; free = true; next = 4176 }))
          4176 (record { size = 32; free = false; next = 4224 }))
        4224 (record { size = 880; free = true; next = 0 });
  heap_head = 4096;
  total_allocated = 32;
}

abbrev cells : List Cell
cells = cell 64 true ∷ cell 32 false ∷ cell 880 true ∷ []

heap-IsHeap : IsHeap heap 4096 5120 cells
unfolding used
heap-IsHeap = record {
  head = refl;
  ne_null = omega arith;
  nonempty = λ e. cc;
  layout = ((refl, refl, (refl, refl, (refl, refl, refl))));
  small = omega arith;
  total = refl;
}

block-InUse : InUse 4176 32 4096 cells
block-InUse = later (now refl refl refl)

-- 100 bytes fit in the last block only.
kmalloc_lem_example :
    (h' : Heap) × (ptr : ℕ) × (kmalloc 4 100 heap ≡ some (h', ptr))
    × (Refuses cells (align8 100) heap h' ptr ⊎ Allocates 4096 5120 cells (align8 100) h' ptr)
kmalloc_lem_example = kmalloc_lem heap-IsHeap 4 100 (omega arith)

-- The block in use joins both of its neighbours.
kfree_lem_example :
    (h' : Heap) × (kfree 4 (4176 + 16) heap ≡ some h') × Frees 4176 32 4096 5120 cells h'
kfree_lem_example = kfree_lem heap-IsHeap 4 4176 32 (omega arith) block-InUse
