-- ===== src/Mm/Cells.antt =====
-- What the heap of kernal/mm.c stands for: cells that tile the memory from the first header to the
-- end of the heap, and the allocator on such a list.
use hydra_microkernal.Prelude.{
  ℕ, ◌+◌, ◌-◌, ◌%◌, ◌^◌, ◌<◌, ◌≡◌, ◌≢◌, Bool, true, false, ◌&&◌, List, [], ◌∷◌, leb, ltb, ◌==◌,
  if◌then◌else◌,
}
use hydra_microkernal.Mm.{MemBlock, Heap, header_size}

pub record Cell : Type 0 where
  pub size : ℕ
  pub free : Bool

abbrev pub cell : ℕ → Bool → Cell
cell n b = record { size = n; free = b }

-- The address behind a cell.
abbrev pub behind : ℕ → Cell → ℕ
behind a c = a + header_size + c.size

-- The pointer to the cells at `a`: null if there are none.
abbrev pub link : ℕ → List Cell → ℕ
link a [] = 0
link a (c ∷ cs) = a

-- The headers from address `a` on describe the cells, one behind the other up to `limit`.
abbrev pub Layout : (ℕ → MemBlock) → ℕ → ℕ → List Cell → Type 0
Layout store a limit [] = a ≡ limit
Layout store a limit (c ∷ cs) =
    (store a ≡ record { size = c.size; free = c.free; next = link (behind a c) cs })
    × (a % 8 ≡ 0)
    × Layout store (behind a c) limit cs

-- Bytes in use.
unfoldable pub used : List Cell → ℕ
used [] = 0
used (c ∷ cs) = if c.free then used cs else c.size + used cs

pub record IsHeap (h : Heap) (start limit : ℕ) (cells : List Cell) : Type 0 where
  pub head : h.heap_head ≡ start
  pub ne_null : start ≢ 0
  pub nonempty : cells ≢ []
  pub layout : Layout h.store start limit cells
  pub small : limit < 2 ^ 32
  pub total : h.total_allocated ≡ used cells

-- A cell that is taken for `n` bytes: cut in two if more than 48 bytes are left over.
abbrev pub cut : ℕ → ℕ → List Cell → List Cell
cut n size cs =
    if ltb (n + header_size + 32) size
    then cell n false ∷ cell (size - n - header_size) true ∷ cs
    else cell size false ∷ cs

-- First fit: the cells behind the allocation.
unfoldable pub alloc : ℕ → List Cell → List Cell
alloc n [] = []
alloc n (c ∷ cs) = if c.free && leb n c.size then cut n c.size cs else c ∷ alloc n cs

-- The address of the first cell that fits, from `a` on; 0 if none does.
unfoldable pub fit : ℕ → ℕ → List Cell → ℕ
fit n a [] = 0
fit n a (c ∷ cs) = if c.free && leb n c.size then a else fit n (behind a c) cs

-- At address `x` is a cell of `n` bytes, free or not, among the cells from `a` on.
pub data IsAt (x n : ℕ) (free : Bool) : ℕ → List Cell → Type 0 where
  now :
      {a : ℕ} {c : Cell} {cs : List Cell}
      → a ≡ x
      → c.size ≡ n
      → c.free ≡ free
      → IsAt x n free a (c ∷ cs)
  later :
      {a : ℕ} {c : Cell} {cs : List Cell} → IsAt x n free (behind a c) cs → IsAt x n free a (c ∷ cs)

abbrev pub InUse : ℕ → ℕ → ℕ → List Cell → Type 0
InUse x n a cs = IsAt x n false a cs

-- A cell that is freed, joined with the next one if that is free.
abbrev pub freed : Cell → List Cell → List Cell
freed c [] = cell c.size true ∷ []
freed c (d ∷ cs) =
    if d.free then cell (c.size + (d.size + header_size)) true ∷ cs else cell c.size true ∷ d ∷ cs

unfoldable pub free_at : ℕ → ℕ → List Cell → List Cell
free_at b a [] = []
free_at b a (c ∷ cs) = if a == b then freed c cs else c ∷ free_at b (behind a c) cs

-- The cell before the one at `b` takes it in, if it is free.
abbrev pub joined : Cell → Cell → List Cell → List Cell
joined c d cs = if c.free then cell (c.size + (d.size + header_size)) true ∷ cs else c ∷ d ∷ cs

unfoldable pub join_before : ℕ → ℕ → List Cell → List Cell
join_before b a [] = []
join_before b a (c ∷ []) = c ∷ []
join_before b a (c ∷ d ∷ cs) =
    if behind a c == b then joined c d cs else c ∷ join_before b (behind a c) (d ∷ cs)

-- The address of the cell before the one at `b`; 0 if there is none.
unfoldable pub before : ℕ → ℕ → List Cell → ℕ
before b a [] = 0
before b a (c ∷ []) = 0
before b a (c ∷ d ∷ cs) = if behind a c == b then a else before b (behind a c) (d ∷ cs)

-- What `kfree` makes of the cells.
unfoldable pub release : ℕ → ℕ → List Cell → List Cell
release b a cs = join_before b a (free_at b a cs)
