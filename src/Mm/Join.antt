-- ===== src/Mm/Join.antt =====
-- The second half of `kfree` of kernal/mm.c: the search for the block before, and the join with it.
use hydra_microkernal.Prelude.{
  ℕ, zero, suc, ◌+◌, ◌^◌, ◌≤◌, ◌<◌, ◌≡◌, ◌≢◌, refl, sym, ap, subst, ◌∙◌, true, false, Bool-cases,
  ◌⊎◌, inl, inr, some, List, [], ◌∷◌, length, arith, ℕ_discrete, if_ne, if_eq,
}
use hydra_microkernal.Mm.{MemBlock, header_size, coalesce_previous, find_previous}
use hydra_microkernal.Mm.Cells.{
  Cell, cell, behind, link, Layout, used, IsAt, InUse, now, later, joined, join_before, before,
}
use hydra_microkernal.Mm.Search.{Layout-le, Layout-frame, IsAt-ge}

-- Behind the cell at `b` the search finds nothing.
before-past : (b a : ℕ) (cs : List Cell) → b ≤ a → before b a cs ≡ 0
unfolding before
before-past b a [] h = refl
before-past b a (c ∷ []) h = refl
before-past b a (c ∷ d ∷ cs) h =
    if_ne (behind a c) b _ _ (omega arith) ∙ before-past b (behind a c) (d ∷ cs) (omega arith)

join_before-past : (b a : ℕ) (cs : List Cell) → b ≤ a → join_before b a cs ≡ cs
unfolding join_before
join_before-past b a [] h = refl
join_before-past b a (c ∷ []) h = refl
join_before-past b a (c ∷ d ∷ cs) h =
    if_ne (behind a c) b _ _ (omega arith)
    ∙ ap (λ l. c ∷ l) (join_before-past b (behind a c) (d ∷ cs) (omega arith))

pub before-ge : (b a : ℕ) (cs : List Cell) → (before b a cs ≡ 0) ⊎ (a ≤ before b a cs)
unfolding before
before-ge b a [] = inl refl
before-ge b a (c ∷ []) = inl refl
before-ge b a (c ∷ d ∷ cs) = ground (arith, before-ge b (behind a c) (d ∷ cs))

-- The search ends within its fuel, at the cell before the one at `b`.
pub find_previous-before :
    (st : ℕ → MemBlock) (b limit fuel a : ℕ) (cs : List Cell)
    → a ≢ 0
    → b ≢ 0
    → length cs < fuel
    → Layout st a limit cs
    → find_previous fuel st b (link a cs) ≡ some (before b a cs)
unfolding find_previous before
find_previous-before st b limit zero a cs h n k l = absurd (omega arith)
find_previous-before st b limit (suc fuel) a [] h n k l = refl
find_previous-before st b limit (suc fuel) a (c ∷ []) h n k l = rw l.0 (
    ground (
      arith,
      find_previous-before st b limit fuel (behind a c) [] (omega arith) n (omega arith) l.2,
    ))
find_previous-before st b limit (suc fuel) a (c ∷ d ∷ cs) h n k l = rw l.0 (
    ground (
      arith,
      find_previous-before st b limit fuel (behind a c) (d ∷ cs) (omega arith) n (omega arith) l.2,
    ))

join_next :
    (b a : ℕ) (c d : Cell) (cs : List Cell)
    → behind a c ≡ b
    → join_before b a (c ∷ d ∷ cs) ≡ joined c d cs
unfolding join_before
join_next b a c d cs e = if_eq (behind a c) b _ _ e

join_later :
    (b a : ℕ) (c d : Cell) (cs : List Cell)
    → behind a c ≢ b
    → join_before b a (c ∷ d ∷ cs) ≡ c ∷ join_before b (behind a c) (d ∷ cs)
unfolding join_before
join_later b a c d cs e = if_ne (behind a c) b _ _ e

before-next : (b a : ℕ) (c d : Cell) (cs : List Cell) → behind a c ≡ b → before b a (c ∷ d ∷ cs) ≡ a
unfolding before
before-next b a c d cs e = if_eq (behind a c) b _ _ e

before-later :
    (b a : ℕ) (c d : Cell) (cs : List Cell)
    → behind a c ≢ b
    → before b a (c ∷ d ∷ cs) ≡ before b (behind a c) (d ∷ cs)
unfolding before
before-later b a c d cs e = if_ne (behind a c) b _ _ e

previous-other : (p b x : ℕ) (st : ℕ → MemBlock) → x ≢ p → coalesce_previous p b st x ≡ st x
unfolding coalesce_previous
previous-other p b x st h = ground arith

previous-none : (b : ℕ) (st : ℕ → MemBlock) → coalesce_previous 0 b st ≡ st
unfolding coalesce_previous
previous-none b st = refl

previous-used : (p b : ℕ) (st : ℕ → MemBlock) → (st p).free ≡ false → coalesce_previous p b st ≡ st
unfolding coalesce_previous
previous-used p b st e = ground arith

previous-join :
    (p b m k n j : ℕ) (st : ℕ → MemBlock)
    → p ≢ 0
    → m + (n + header_size) < 2 ^ 32
    → st p ≡ record { size = m; free = true; next = k }
    → (st b).size ≡ n
    → (st b).next ≡ j
    → coalesce_previous p b st p ≡ record { size = m + (n + header_size); free = true; next = j }
unfolding coalesce_previous
previous-join p b m k n j st ne small e u w = ground arith

module _ (st : ℕ → MemBlock) (b limit : ℕ) (small : limit < 2 ^ 32) where
  abbrev after : ℕ → ℕ → MemBlock
  after p = coalesce_previous p b st

  -- The cell before the one at `b` takes it in, or stays.
  next-Layout :
      (a : ℕ) (c d : Cell) (cs : List Cell)
      → a ≢ 0
      → behind a c ≡ b
      → Layout st a limit (c ∷ d ∷ cs)
      → Layout (after a) a limit (joined c d cs)
  next-Layout a c d cs h e l = elim (Bool-cases c.free) [
    | inl f ↦ subst (Layout (after a) a limit) (sym (joined-free f)) (
      rw apart (
          previous-join a b c.size (behind a c) d.size (link (behind (behind a c) d) cs) st h
            (omega (arith, Layout-le st (behind (behind a c) d) limit cs l.2.2))
            (l.0 ∙ ap (λ k. record { size = c.size; free = k; next = behind a c }) f)
            (ap (λ x. (st x).size) (sym e) ∙ ap (λ (k : MemBlock). k.size) l.2.0)
            (ap (λ x. (st x).next) (sym e) ∙ ap (λ (k : MemBlock). k.next) l.2.0)),
      l.1,
      rw apart (
          Layout-frame st (after a) (behind (behind a c) d) limit cs
            (λ x p q. previous-other a b x st (omega arith)) l.2.2),
    )
    | inr f ↦ subst (Layout (after a) a limit) (sym (joined-used f)) (
        subst (λ g. Layout g a limit (c ∷ d ∷ cs))
          (sym (previous-used a b st (ap (λ (k : MemBlock). k.free) l.0 ∙ f))) l)
  ]
    where
      joined-free : c.free ≡ true → joined c d cs ≡ cell (c.size + (d.size + header_size)) true ∷ cs
      joined-free f = ground arith

      joined-used : c.free ≡ false → joined c d cs ≡ c ∷ d ∷ cs
      joined-used f = ground arith

      apart :
          a + header_size + (c.size + (d.size + header_size))
          ≡ a + header_size + c.size + header_size + d.size
      apart = omega arith

  link-join : (a x : ℕ) (cs : List Cell) → link x (join_before b a cs) ≡ link x cs
  unfolding join_before
  link-join a x [] = refl
  link-join a x (c ∷ []) = refl
  link-join a x (c ∷ d ∷ cs) = ground arith

  -- The headers behind the second half of `kfree`.
  pub join-Layout :
      (a : ℕ) (cs : List Cell)
      → a ≢ 0
      → Layout st a limit cs
      → Layout (after (before b a cs)) a limit (join_before b a cs)
  unfolding before join_before
  join-Layout a [] h l = l
  join-Layout a (c ∷ []) h l = subst (λ g. Layout g a limit (c ∷ [])) (sym (previous-none b st)) l
  join-Layout a (c ∷ d ∷ cs) h l = elim (ℕ_discrete (behind a c) b) [
    | yes e ↦
        subst (λ x. Layout (after x) a limit (join_before b a (c ∷ d ∷ cs)))
          (sym (before-next b a c d cs e))
          (subst (Layout (after a) a limit) (sym (join_next b a c d cs e))
            (next-Layout a c d cs h e l))
    | no ne ↦
        subst (λ x. Layout (after x) a limit (join_before b a (c ∷ d ∷ cs)))
          (sym (before-later b a c d cs ne))
          (subst (Layout (after (before b (behind a c) (d ∷ cs))) a limit)
            (sym (join_later b a c d cs ne))
            (
              previous-other (before b (behind a c) (d ∷ cs)) b a st (elsewhere ne)
                  ∙ rw (link-join (behind a c) (behind a c) (d ∷ cs)) l.0,
              l.1,
              join-Layout (behind a c) (d ∷ cs) (omega arith) l.2,
            ))
  ]
    where
      elsewhere : behind a c ≢ b → a ≢ before b (behind a c) (d ∷ cs)
      elsewhere ne = omega (arith, before-ge b (behind a c) (d ∷ cs))

head_free :
    {b m a : ℕ} {d : Cell} {cs : List Cell} → IsAt b m true a (d ∷ cs) → a ≡ b → d.free ≡ true
head_free (now p q r) e = r
head_free (later u) e = absurd (omega (arith, IsAt-ge u))

used-joined :
    (c d : Cell) (cs : List Cell) → d.free ≡ true → used (joined c d cs) ≡ used (c ∷ d ∷ cs)
unfolding used
used-joined c d cs f = ground arith

used-cons : (c : Cell) (xs ys : List Cell) → used xs ≡ used ys → used (c ∷ xs) ≡ used (c ∷ ys)
unfolding used
used-cons c xs ys h = ground arith

-- The join keeps the bytes in use: it is of free cells.
pub join-used :
    {b m a : ℕ} {cs : List Cell} → IsAt b m true a cs → used (join_before b a cs) ≡ used cs
join-used {b} (now {a} {c} {cs} p q r) = ap used (join_before-past b a (c ∷ cs) (omega arith))
join-used (later {cs = []} u) = elim u [ ]
join-used {b} (later {a} {c} {cs = d ∷ cs} u) = elim (ℕ_discrete (behind a c) b) [
  | yes e ↦ ap used (join_next b a c d cs e) ∙ used-joined c d cs (head_free u e)
  | no ne ↦ ap used (join_later b a c d cs ne) ∙ used-cons c _ _ (join-used u)
]

joined-keeps :
    {y k a : ℕ} (c d : Cell) (cs : List Cell)
    → d.free ≡ true
    → InUse y k a (c ∷ d ∷ cs)
    → InUse y k a (joined c d cs)
joined-keeps {y} {k} {a} c d cs f v = elim (Bool-cases c.free) [
  | inl g ↦ subst (InUse y k a) (sym (joined-free g)) (inside v g)
  | inr g ↦ subst (InUse y k a) (sym (joined-used g)) v
]
  where
    joined-free : c.free ≡ true → joined c d cs ≡ cell (c.size + (d.size + header_size)) true ∷ cs
    joined-free g = ground arith

    joined-used : c.free ≡ false → joined c d cs ≡ c ∷ d ∷ cs
    joined-used g = ground arith

    apart :
        a + header_size + (c.size + (d.size + header_size))
        ≡ a + header_size + c.size + header_size + d.size
    apart = omega arith

    inside :
        InUse y k a (c ∷ d ∷ cs)
        → c.free ≡ true
        → InUse y k a (cell (c.size + (d.size + header_size)) true ∷ cs)
    inside (now p q r) g = absurd (ground arith)
    inside (later (now p q r)) g = absurd (ground arith)
    inside (later (later w)) g = later (rw apart w)

InUse-tail :
    {y k a : ℕ} {c : Cell} {xs ys : List Cell}
    → (InUse y k (behind a c) xs → InUse y k (behind a c) ys)
    → InUse y k a (c ∷ xs)
    → InUse y k a (c ∷ ys)
InUse-tail f (now p q r) = now p q r
InUse-tail f (later w) = later (f w)

-- The blocks in use stay where they are.
pub join-keeps :
    {b m y k a : ℕ} {cs : List Cell}
    → IsAt b m true a cs
    → InUse y k a cs
    → InUse y k a (join_before b a cs)
join-keeps {b} {m} {y} {k} (now {a} {c} {cs} p q r) v =
    subst (InUse y k a) (sym (join_before-past b a (c ∷ cs) (omega arith))) v
join-keeps (later {cs = []} u) v = elim u [ ]
join-keeps {b} {m} {y} {k} (later {a} {c} {cs = d ∷ cs} u) v = elim (ℕ_discrete (behind a c) b) [
  | yes e ↦
      subst (InUse y k a) (sym (join_next b a c d cs e)) (joined-keeps c d cs (head_free u e) v)
  | no ne ↦
      subst (InUse y k a) (sym (join_later b a c d cs ne)) (InUse-tail (λ w. join-keeps u w) v)
]
