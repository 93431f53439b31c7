-- ===== src/Mm/Boot.antt =====
-- `mm_init` and `mm_stats` of kernal/mm.c.
use hydra_microkernal.Prelude.{
  ℕ, zero, suc, ◌+◌, ◌-◌, ◌*◌, ◌/◌, ◌%◌, ◌^◌, ◌≤◌, ◌<◌, ◌≡◌, ◌≢◌, sym, ap, ◌∙◌, true, some, List,
  [], ◌∷◌, length, if◌then◌else◌, if_eq, arith,
}
use hydra_microkernal.Mm.{MemBlock, Heap, header_size, mm_init, Stats, stats_from, mm_stats}
use hydra_microkernal.Mm.Cells.{Cell, cell, behind, link, Layout, used, IsHeap}
use hydra_microkernal.Mm.Kmalloc.{link-eq}

-- `heap_start`, rounded up to a multiple of 8.
abbrev pub aligned_start : ℕ → ℕ
aligned_start heap_start = (heap_start + 7) / 8 * 8

-- With nothing allocated, and an address range below 2^32 that has room for a header behind the
-- rounded start, `mm_init` leaves a well-formed heap of one free block up to the end.
pub mm_init-IsHeap :
    (heap_start heap_end : ℕ) (h : Heap)
    → h.total_allocated ≡ 0
    → 0 < heap_start
    → heap_end < 2 ^ 32
    → aligned_start heap_start + header_size ≤ heap_end
    → IsHeap
        (mm_init heap_start heap_end h)
        (aligned_start heap_start)
        heap_end
        (cell (heap_end - aligned_start heap_start - header_size) true ∷ [])
unfolding mm_init used
mm_init-IsHeap heap_start heap_end h z p q r = record {
  head = start;
  ne_null = omega arith;
  nonempty = λ e. cc;
  layout = (
    if_eq _ _ _ _ start ∙ ap (λ n. record { size = n; free = true; next = 0 }) (omega arith),
    omega arith,
    omega arith,
  );
  small = q;
  total = z;
}
  where
    start : (heap_start + 7) % 2 ^ 64 / 8 * 8 ≡ aligned_start heap_start
    start = omega arith

-- What `mm_stats` counts.
count_free : List Cell → ℕ
count_free [] = 0
count_free (c ∷ cs) = if c.free then suc (count_free cs) else count_free cs

free_bytes : List Cell → ℕ
free_bytes [] = 0
free_bytes (c ∷ cs) = if c.free then c.size + free_bytes cs else free_bytes cs

stats_from_lem :
    (st : ℕ → MemBlock) (limit fuel a : ℕ) (cs : List Cell) (acc : Stats)
    → a ≢ 0
    → length cs < fuel
    → Layout st a limit cs
    → stats_from fuel st (link a cs) acc
      ≡ some (record {
        num_blocks = acc.num_blocks + length cs;
        num_free_blocks = acc.num_free_blocks + count_free cs;
        total_free = acc.total_free + free_bytes cs;
      })
unfolding stats_from count_free free_bytes
stats_from_lem st limit zero a cs acc h k l = absurd (omega arith)
stats_from_lem st limit (suc fuel) a [] acc h k l = ground arith
stats_from_lem st limit (suc fuel) a (c ∷ cs) acc h k l = rw l.0 (
    ground (
      arith,
      stats_from_lem st limit fuel (behind a c) cs
          (record {
            num_blocks = acc.num_blocks + 1;
            num_free_blocks = if c.free then acc.num_free_blocks + 1 else acc.num_free_blocks;
            total_free = if c.free then acc.total_free + c.size else acc.total_free;
          })
          (omega arith) (omega arith) l.2,
    ))

tiles :
    (st : ℕ → MemBlock) (a limit : ℕ) (cs : List Cell)
    → Layout st a limit cs
    → a + (used cs + free_bytes cs + length cs * header_size) ≡ limit
unfolding used free_bytes
tiles st a limit [] l = omega arith
tiles st a limit (c ∷ cs) l = ground (arith, tiles st (behind a c) limit cs l.2)

-- In a well-formed heap `mm_stats` returns, with more fuel than there are blocks, and its totals
-- add up: the bytes allocated, the bytes free and a header for each block are the whole heap.
pub mm_stats-tiles :
    {h : Heap} {start limit : ℕ} {cells : List Cell}
    → IsHeap h start limit cells
    → (fuel : ℕ) → length cells < fuel
    → (st : Stats) × (mm_stats fuel h ≡ some st)
      × (start + (h.total_allocated + st.total_free + st.num_blocks * header_size) ≡ limit)
unfolding mm_stats
mm_stats-tiles {h} {start} {limit} {cells} v fuel enough = (
  record {
    num_blocks = 0 + length cells;
    num_free_blocks = 0 + count_free cells;
    total_free = 0 + free_bytes cells;
  },
  ap
        (λ p.
          stats_from fuel h.store p
            (record { num_blocks = 0; num_free_blocks = 0; total_free = 0 }))
        (v.head ∙ sym (link-eq start cells v.nonempty))
      ∙ stats_from_lem h.store limit fuel start cells
          (record { num_blocks = 0; num_free_blocks = 0; total_free = 0 }) v.ne_null enough
          v.layout,
  omega (arith, tiles h.store start limit cells v.layout, v.total),
)
