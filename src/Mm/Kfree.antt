-- ===== src/Mm/Kfree.antt =====
-- What `kfree` of kernal/mm.c does to a well-formed heap, and how the heap begins.
use hydra_microkernal.Prelude.{
  ℕ, ◌+◌, ◌-◌, ◌%◌, ◌^◌, ◌≤◌, ◌<◌, ◌≡◌, ◌≢◌, refl, sym, ap, ◌∙◌, true, false, some, List, [], ◌∷◌,
  length, arith, if_ne,
}
use hydra_microkernal.Mm.{Heap, header_size, coalesce_previous, find_previous, free_block, kfree}
use hydra_microkernal.Mm.Cells.{
  Cell, behind, used, IsHeap, IsAt, InUse, free_at, join_before, before, release,
}
use hydra_microkernal.Mm.Search.{used-le, IsAt-ge, IsAt-free}
use hydra_microkernal.Mm.Kmalloc.{link-eq}
use hydra_microkernal.Mm.Free.{released, free_at-Layout, free_at-IsAt, free_at-used, free_at-keeps}
use hydra_microkernal.Mm.Join.{find_previous-before, join-Layout, join-used, join-keeps}

-- A successful `kfree` of the block of `n` bytes at `b`.
pub record Frees (b n start limit : ℕ) (cells : List Cell) (h' : Heap) : Type 0 where
  pub heap : IsHeap h' start limit (release b start cells)
  pub given_back : used (release b start cells) + n ≡ used cells
  pub kept : (y k : ℕ) → InUse y k start cells → y ≢ b → InUse y k start (release b start cells)

kfree-block : (fuel b : ℕ) (h : Heap) → kfree fuel (b + header_size) h ≡ free_block fuel b h
unfolding kfree
kfree-block fuel b h =
    if_ne (b + header_size) 0 _ _ (omega arith) ∙ ap (λ x. free_block fuel x h) (omega arith)

free_block-ignored :
    (fuel b : ℕ) (h : Heap) → (h.store b).free ≡ true → free_block fuel b h ≡ some h
unfolding free_block
free_block-ignored fuel b h e = rw e

-- `kfree` of a block in use behind its tests.
kfree-runs :
    (fuel b p : ℕ) (h : Heap)
    → (h.store b).free ≡ false
    → find_previous fuel (released b h.store) b h.heap_head ≡ some p
    → kfree fuel (b + header_size) h
      ≡ some (record h {
        store = coalesce_previous p b (released b h.store);
        total_allocated = (h.total_allocated + 2 ^ 32 - (h.store b).size) % 2 ^ 32;
      })
unfolding free_block
kfree-runs fuel b p h f e = kfree-block fuel b h ∙ rw (f, e) refl

length-free_at : (b a : ℕ) (cs : List Cell) → length (free_at b a cs) ≤ length cs
unfolding free_at
length-free_at b a [] = omega arith
length-free_at b a (c ∷ []) = ground arith
length-free_at b a (c ∷ d ∷ cs) = ground (arith, length-free_at b (behind a c) (d ∷ cs))

nonempty-free_at : (b a : ℕ) (cs : List Cell) → cs ≢ [] → free_at b a cs ≢ []
unfolding free_at
nonempty-free_at b a [] h = h
nonempty-free_at b a (c ∷ []) h = ground arith
nonempty-free_at b a (c ∷ d ∷ cs) h = ground arith

nonempty-join : (b a : ℕ) (cs : List Cell) → cs ≢ [] → join_before b a cs ≢ []
unfolding join_before
nonempty-join b a [] h = h
nonempty-join b a (c ∷ []) h = h
nonempty-join b a (c ∷ d ∷ cs) h = ground arith

-- In a well-formed heap, with more fuel than there are blocks, `kfree` of the pointer of a block in
-- use returns: the heap stays well formed, the block's bytes are no longer counted as in use, and
-- every other block in use stays in use at its place.
pub kfree_lem :
    {h : Heap} {start limit : ℕ} {cells : List Cell}
    → IsHeap h start limit cells
    → (fuel b n : ℕ) → length cells < fuel
    → InUse b n start cells
    → (h' : Heap) × (kfree fuel (b + header_size) h ≡ some h') × Frees b n start limit cells h'
unfolding release
kfree_lem {h} {start} {limit} {cells} v fuel b n enough u =
    let new = free_at-IsAt u in
    let one =
      free_at-Layout h.store b limit v.small (omega (arith, v.ne_null, IsAt-ge u)) u v.layout in
    let two =
      join-Layout (released b h.store) b limit v.small start (free_at b start cells) v.ne_null
        one in
    let size = IsAt-free h.store limit u v.layout in
    let bytes = join-used new.2 in
    let header : ℕ = before b start (free_at b start cells) in
    (
      record h {
        store = coalesce_previous header b (released b h.store);
        total_allocated = (h.total_allocated + 2 ^ 32 - (h.store b).size) % 2 ^ 32;
      },
      kfree-runs fuel b header h size.0 (
          ap (find_previous fuel (released b h.store) b) (
            v.head
            ∙ sym
                (link-eq start (free_at b start cells) (nonempty-free_at b start cells v.nonempty)))
          ∙ find_previous-before (released b h.store) b limit fuel start (free_at b start cells)
              v.ne_null (omega (arith, v.ne_null, IsAt-ge u))
              (omega (arith, length-free_at b start cells)) one),
      record {
        heap = record {
          head = v.head;
          ne_null = v.ne_null;
          nonempty =
              nonempty-join b start (free_at b start cells)
                (nonempty-free_at b start cells v.nonempty);
          layout = two;
          small = v.small;
          total = omega (
            arith,
            bytes,
            free_at-used u,
            size.1,
            v.total,
            v.small,
            used-le h.store start limit cells v.layout,
          );
        };
        given_back = omega (arith, bytes, free_at-used u);
        kept = λ y k w ne. join-keeps new.2 (free_at-keeps u w ne);
      },
    )

-- A block that is free already, and the null pointer, are left alone.
pub kfree-ignored :
    {h : Heap} {start limit : ℕ} {cells : List Cell}
    → IsHeap h start limit cells
    → (fuel b n : ℕ) → IsAt b n true start cells
    → (kfree fuel (b + header_size) h ≡ some h) × (kfree fuel 0 h ≡ some h)
unfolding kfree
kfree-ignored {h} {start} {limit} v fuel b n u = (
  kfree-block fuel b h ∙ free_block-ignored fuel b h (IsAt-free h.store limit u v.layout).0,
  refl,
)
