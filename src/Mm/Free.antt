-- ===== src/Mm/Free.antt =====
-- The two joins of `kfree` of kernal/mm.c, on the cells.
use hydra_microkernal.Prelude.{
  ℕ, ◌+◌, ◌^◌, ◌≤◌, ◌<◌, ◌≡◌, ◌≢◌, refl, sym, ap, subst, ◌∙◌, true, false, Bool-cases, inl, inr,
  List, [], ◌∷◌, update, arith, if_ne, if_eq,
}
use hydra_microkernal.Mm.{MemBlock, header_size, coalesce_next}
use hydra_microkernal.Mm.Cells.{
  Cell, cell, behind, link, Layout, used, IsAt, InUse, now, later, freed, free_at,
}
use hydra_microkernal.Mm.Search.{Layout-le, Layout-frame, IsAt-ge}

-- The headers behind the first half of `kfree`.
abbrev pub released : ℕ → (ℕ → MemBlock) → ℕ → MemBlock
released b st = coalesce_next b (update st b (record (st b) { free = true }))

released-other : (b x : ℕ) (st : ℕ → MemBlock) → x ≢ b → released b st x ≡ st x
unfolding coalesce_next
released-other b x st h = ground arith

-- The cell at `b` is the last one, or is followed by a cell in use or a free one.
released-last :
    (b m : ℕ) (st : ℕ → MemBlock)
    → st b ≡ record { size = m; free = false; next = 0 }
    → released b st b ≡ record { size = m; free = true; next = 0 }
unfolding coalesce_next
released-last b m st e = ground arith

released-alone :
    (b m k : ℕ) (st : ℕ → MemBlock)
    → k ≢ b
    → st b ≡ record { size = m; free = false; next = k }
    → (st k).free ≡ false
    → released b st b ≡ record { size = m; free = true; next = k }
unfolding coalesce_next
released-alone b m k st ne e u = ground arith

released-join :
    (b m k n j : ℕ) (st : ℕ → MemBlock)
    → k ≢ b
    → k ≢ 0
    → m + (n + header_size) < 2 ^ 32
    → st b ≡ record { size = m; free = false; next = k }
    → st k ≡ record { size = n; free = true; next = j }
    → released b st b ≡ record { size = m + (n + header_size); free = true; next = j }
unfolding coalesce_next
released-join b m k n j st ne nn small e u = ground arith

freed-joins :
    (c d : Cell) (cs : List Cell)
    → d.free ≡ true
    → freed c (d ∷ cs) ≡ cell (c.size + (d.size + header_size)) true ∷ cs
freed-joins c d cs e = ground arith

freed-stays :
    (c d : Cell) (cs : List Cell) → d.free ≡ false → freed c (d ∷ cs) ≡ cell c.size true ∷ d ∷ cs
freed-stays c d cs e = ground arith

pub free_at-now : (b a : ℕ) (c : Cell) (cs : List Cell) → a ≡ b → free_at b a (c ∷ cs) ≡ freed c cs
unfolding free_at
free_at-now b a c cs e = if_eq a b _ _ e

pub free_at-later :
    (b a : ℕ) (c : Cell) (cs : List Cell)
    → a ≢ b
    → free_at b a (c ∷ cs) ≡ c ∷ free_at b (behind a c) cs
unfolding free_at
free_at-later b a c cs ne = if_ne a b _ _ ne

link-free_at : (b a x : ℕ) (cs : List Cell) → link x (free_at b a cs) ≡ link x cs
unfolding free_at
link-free_at b a x [] = refl
link-free_at b a x (c ∷ []) = ground arith
link-free_at b a x (c ∷ d ∷ cs) = ground arith

module _ (st : ℕ → MemBlock) (b limit : ℕ) (small : limit < 2 ^ 32) (nn : b ≢ 0) where
  rest-frame :
      (a : ℕ) (cs : List Cell) → b < a → Layout st a limit cs → Layout (released b st) a limit cs
  rest-frame a cs h l =
      Layout-frame st (released b st) a limit cs (λ x p q. released-other b x st (omega arith)) l

  freed-Layout :
      (m : ℕ) (cs : List Cell)
      → Layout st b limit (cell m false ∷ cs)
      → Layout (released b st) b limit (freed (cell m false) cs)
  freed-Layout m [] l = (released-last b m st l.0, l.1, l.2)
  freed-Layout m (d ∷ cs) l = elim (Bool-cases d.free) [
    | inl f ↦
        let e : b + header_size + (m + (d.size + header_size))
            ≡ b + header_size + m + header_size + d.size =
          omega arith in
        let end = Layout-le st (behind (behind b (cell m false)) d) limit cs l.2.2 in
        subst (Layout (released b st) b limit) (sym (freed-joins (cell m false) d cs f)) (
          rw e (
              released-join b m (b + header_size + m) d.size
                (link (behind (behind b (cell m false)) d) cs) st (omega arith) (omega arith)
                (omega arith) l.0 (l.2.0 ∙ flag d cs f)),
          l.1,
          rw e (rest-frame (behind (behind b (cell m false)) d) cs (omega arith) l.2.2),
        )
    | inr f ↦ subst (Layout (released b st) b limit) (sym (freed-stays (cell m false) d cs f)) (
      released-alone b m (b + header_size + m) st (omega arith) l.0
          (ap (λ (k : MemBlock). k.free) l.2.0 ∙ f),
      l.1,
      rest-frame (behind b (cell m false)) (d ∷ cs) (omega arith) l.2,
    )
  ]
    where
      flag :
          (d : Cell) (cs : List Cell) {x : ℕ}
          → d.free ≡ true
          → Path MemBlock
              (record { size = d.size; free = d.free; next = x })
              (record { size = d.size; free = true; next = x })
      flag d cs {x} f = ap (λ k. record { size = d.size; free = k; next = x }) f

  pub free_at-Layout :
      {n a : ℕ} {cs : List Cell}
      → InUse b n a cs
      → Layout st a limit cs
      → Layout (released b st) a limit (free_at b a cs)
  free_at-Layout (now {a} {c} {cs} p q r) l =
      subst (Layout (released b st) a limit) (sym (free_at-now b a c cs p))
        (rw p (freed-Layout c.size cs (rw p at in_use)))
    where
      in_use : Layout st a limit (cell c.size false ∷ cs)
      in_use = (
        l.0 ∙ ap (λ k. record { size = c.size; free = k; next = link (behind a c) cs }) r,
        l.1,
        l.2,
      )
  free_at-Layout (later {a} {c} {cs} u) l =
      subst (Layout (released b st) a limit)
        (sym (free_at-later b a c cs (omega (arith, IsAt-ge u))))
        (
          released-other b a st (omega (arith, IsAt-ge u))
              ∙ rw (link-free_at b (behind a c) (behind a c) cs) l.0,
          l.1,
          free_at-Layout u l.2,
        )

freed-IsAt :
    (b a : ℕ) (c : Cell) (cs : List Cell)
    → a ≡ b
    → (m : ℕ) × (c.size ≤ m) × IsAt b m true a (freed c cs)
freed-IsAt b a c [] p = (c.size, omega arith, now p refl refl)
freed-IsAt b a c (d ∷ cs) p = elim (Bool-cases d.free) [
  | inl f ↦
      subst (λ l. (m : ℕ) × (c.size ≤ m) × IsAt b m true a l) (sym (freed-joins c d cs f))
        (c.size + (d.size + header_size), omega arith, now p refl refl)
  | inr f ↦
      subst (λ l. (m : ℕ) × (c.size ≤ m) × IsAt b m true a l) (sym (freed-stays c d cs f))
        (c.size, omega arith, now p refl refl)
]

-- The cell that was in use is free, perhaps larger.
pub free_at-IsAt :
    {b n a : ℕ} {cs : List Cell}
    → InUse b n a cs
    → (m : ℕ) × (n ≤ m) × IsAt b m true a (free_at b a cs)
free_at-IsAt {b} (now {a} {c} {cs} p q r) = rw (← q, free_at-now b a c cs p) (freed-IsAt b a c cs p)
free_at-IsAt {b} (later {a} {c} {cs} u) =
    let tail = free_at-IsAt u in
    rw (free_at-later b a c cs (omega (arith, IsAt-ge u))) (tail.0, tail.1, later tail.2)

used-freed : (c : Cell) (cs : List Cell) → used (freed c cs) ≡ used cs
unfolding used
used-freed c [] = refl
used-freed c (d ∷ cs) = ground arith

-- Its bytes are in use no longer.
pub free_at-used :
    {b n a : ℕ} {cs : List Cell} → InUse b n a cs → used (free_at b a cs) + n ≡ used cs
unfolding used
free_at-used {b} (now {a} {c} {cs} p q r) =
    rw (free_at-now b a c cs p, used-freed c cs, r) (omega (arith, q))
free_at-used {b} (later {a} {c} {cs} u) =
    rw (free_at-later b a c cs (omega (arith, IsAt-ge u))) (ground (arith, free_at-used u))

freed-keeps :
    {y k a : ℕ} (c : Cell) {cs : List Cell} → InUse y k (behind a c) cs → InUse y k a (freed c cs)
freed-keeps {y} {k} {a} c (now {c = d} {cs = cs} p q r) =
    subst (InUse y k a) (sym (freed-stays c d cs r)) (later (now p q r))
freed-keeps {y} {k} {a} c (later {c = d} {cs = cs} v) = elim (Bool-cases d.free) [
  | inl f ↦
      let e : a + header_size + (c.size + (d.size + header_size))
          ≡ a + header_size + c.size + header_size + d.size =
        omega arith in
      subst (InUse y k a) (sym (freed-joins c d cs f)) (later (rw e v))
  | inr f ↦ subst (InUse y k a) (sym (freed-stays c d cs f)) (later (later v))
]

-- The other blocks in use stay.
pub free_at-keeps :
    {b n y k a : ℕ} {cs : List Cell}
    → InUse b n a cs
    → InUse y k a cs
    → y ≢ b
    → InUse y k a (free_at b a cs)
free_at-keeps (now p q r) (now p' q' r') ne = absurd (ne (sym p' ∙ p))
free_at-keeps {b} {n} {y} {k} (now {a} {c} {cs} p q r) (later v) ne =
    subst (InUse y k a) (sym (free_at-now b a c cs p)) (freed-keeps c v)
free_at-keeps {b} {n} {y} {k} (later {a} {c} {cs} u) (now p q r) ne =
    subst (InUse y k a) (sym (free_at-later b a c cs (omega (arith, IsAt-ge u)))) (now p q r)
free_at-keeps {b} {n} {y} {k} (later {a} {c} {cs} u) (later v) ne =
    subst (InUse y k a) (sym (free_at-later b a c cs (omega (arith, IsAt-ge u))))
      (later (free_at-keeps u v ne))
