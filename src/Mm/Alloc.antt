-- ===== src/Mm/Alloc.antt =====
-- `kmalloc` of kernal/mm.c allocates as `Cells.alloc` does.
use hydra_microkernal.Prelude.{
  ℕ, ◌+◌, ◌-◌, ◌%◌, ◌≤◌, ◌<◌, ◌≡◌, ◌≢◌, refl, ap, ◌∙◌, true, false, ◌&&◌, Bool-cases, ◌⊎◌, inl, inr,
  List, [], ◌∷◌, leb, ltb, update, arith,
}
use hydra_microkernal.Mm.{MemBlock, header_size, split}
use hydra_microkernal.Mm.Cells.{
  Cell, cell, behind, link, Layout, used, alloc, fit, cut, InUse, now, later,
}
use hydra_microkernal.Mm.Search.{Layout-frame, fit-ge}

module _ (n : ℕ) (aligned : n % 8 ≡ 0) (st : ℕ → MemBlock) where
  -- The headers behind `take_block`.
  abbrev taken : ℕ → ℕ → MemBlock
  taken b = update (split b n st) b (record (split b n st b) { free = false })

  taken-cut :
      (b m k : ℕ)
      → st b ≡ record { size = m; free = true; next = k }
      → n + header_size + 32 < m
      → (taken b b ≡ record { size = n; free = false; next = b + header_size + n })
        × (taken b (b + header_size + n)
            ≡ record { size = m - n - header_size; free = true; next = k })
  unfolding split
  taken-cut b m k e h = ground arith

  taken-whole :
      (b m k : ℕ)
      → st b ≡ record { size = m; free = true; next = k }
      → ¬ (n + header_size + 32 < m)
      → taken b b ≡ record { size = m; free = false; next = k }
  unfolding split
  taken-whole b m k e h = ground arith

  -- Outside the cell that is taken no header changes.
  taken-other :
      (b m k x : ℕ)
      → st b ≡ record { size = m; free = true; next = k }
      → (x < b) ⊎ (b + header_size + m ≤ x)
      → taken b x ≡ st x
  unfolding split
  taken-other b m k x e h = ground arith

  taken-below : (b x : ℕ) → x < b → taken b x ≡ st x
  unfolding split
  taken-below b x h = ground arith

  taken-rest :
      (a limit m : ℕ) (cs : List Cell)
      → Layout st a limit (cell m true ∷ cs)
      → Layout (taken a) (a + header_size + m) limit cs
  taken-rest a limit m cs l =
      Layout-frame st (taken a) (a + header_size + m) limit cs
        (λ x p q. taken-other a m (link (a + header_size + m) cs) x l.0 (inr p)) l.2

  cut-Layout :
      (a limit m : ℕ) (cs : List Cell)
      → n ≤ m
      → Layout st a limit (cell m true ∷ cs)
      → Layout (taken a) a limit (cut n m cs)
  cut-Layout a limit m cs h l = elim (Bool-cases (ltb (n + header_size + 32) m)) [
    | inl p ↦
        let room : n + header_size + 32 < m = ground arith in
        let e : a + header_size + n + header_size + (m - n - header_size) ≡ a + header_size + m =
          omega arith in
        let headers = taken-cut a m (link (a + header_size + m) cs) l.0 room in
        rw p
          (headers.0, l.1, (rw e headers.1, omega (arith, l.1), rw e (taken-rest a limit m cs l)))
    | inr p ↦
        let tight : ¬ (n + header_size + 32 < m) = ground arith in
        rw p (
          taken-whole a m (link (a + header_size + m) cs) l.0 tight,
          l.1,
          taken-rest a limit m cs l,
        )
  ]

  link-alloc : (a : ℕ) (cs : List Cell) → link a (alloc n cs) ≡ link a cs
  unfolding alloc
  link-alloc a [] = refl
  link-alloc a (c ∷ cs) = ground arith

  -- The headers behind `take_block` are those of the cells behind `alloc`.
  pub alloc-Layout :
      (a limit : ℕ) (cs : List Cell)
      → a ≢ 0
      → fit n a cs ≢ 0
      → Layout st a limit cs
      → Layout (taken (fit n a cs)) a limit (alloc n cs)
  unfolding fit alloc
  alloc-Layout a limit [] h k l = absurd (k refl)
  alloc-Layout a limit (c ∷ cs) h k l = elim (Bool-cases (c.free && leb n c.size)) [
    | inl p ↦ rw p (cut-Layout a limit c.size cs (fits p) (free_layout p))
    | inr p ↦ rw p (
      rw (link-alloc (behind a c) cs) (taken-below (fit n (behind a c) cs) a (below p) ∙ l.0),
      l.1,
      alloc-Layout (behind a c) limit cs (omega arith) (rw p at k) l.2,
    )
  ]
    where
      fits : (c.free && leb n c.size) ≡ true → n ≤ c.size
      fits p = ground arith

      below : (c.free && leb n c.size) ≡ false → a < fit n (behind a c) cs
      below p = omega (arith, fit-ge n (behind a c) cs (rw p at k))

      is_free : (c.free && leb n c.size) ≡ true → c.free ≡ true
      is_free p = ground arith

      free_layout : (c.free && leb n c.size) ≡ true → Layout st a limit (cell c.size true ∷ cs)
      free_layout p = (
        l.0 ∙ ap (λ b. record { size = c.size; free = b; next = link (behind a c) cs }) (is_free p),
        l.1,
        l.2,
      )

  -- The cell that is taken: its header, and what is accounted for.
  pub alloc-used :
      (a limit : ℕ) (cs : List Cell)
      → fit n a cs ≢ 0
      → Layout st a limit cs
      → used (alloc n cs) ≡ used cs + (split (fit n a cs) n st (fit n a cs)).size
  unfolding fit alloc used split
  alloc-used a limit [] k l = absurd (k refl)
  alloc-used a limit (c ∷ cs) k l = elim (Bool-cases (c.free && leb n c.size)) [
    | inl p ↦ rw (p, l.0) (ground arith)
    | inr p ↦ rw p (ground (arith, alloc-used (behind a c) limit cs (rw p at k) l.2))
  ]

module _ (n : ℕ) where
  -- The block that is taken is in use, and has the bytes.
  pub alloc-InUse :
      (a : ℕ) (cs : List Cell)
      → fit n a cs ≢ 0
      → (m : ℕ) × (n ≤ m) × InUse (fit n a cs) m a (alloc n cs)
  unfolding fit alloc
  alloc-InUse a [] k = absurd (k refl)
  alloc-InUse a (c ∷ cs) k = elim (Bool-cases (c.free && leb n c.size)) [
    | inl p ↦ elim (Bool-cases (ltb (n + header_size + 32) c.size)) [
      | inl q ↦ rw (p, q) (n, omega arith, now refl refl refl)
      | inr q ↦ rw (p, q) (c.size, ground arith, now refl refl refl)
    ]
    | inr p ↦
        let tail = alloc-InUse (behind a c) cs (rw p at k) in rw p (tail.0, tail.1, later tail.2)
  ]

  -- The other blocks in use stay where they are.
  pub alloc-keeps : {x m a : ℕ} {cs : List Cell} → InUse x m a cs → InUse x m a (alloc n cs)
  unfolding alloc
  alloc-keeps (now {a} {c} {cs} p q r) = elim (Bool-cases (c.free && leb n c.size)) [
    | inl taken ↦ absurd (ground arith)
    | inr kept ↦ rw kept (now p q r)
  ]
  alloc-keeps (later {a} {c} {cs} u) = elim (Bool-cases (c.free && leb n c.size)) [
    | inl p ↦ elim (Bool-cases (ltb (n + header_size + 32) c.size)) [
      | inl q ↦
          let room : n + header_size + 32 < c.size = ground arith in
          let e : a + header_size + n + header_size + (c.size - n - header_size)
              ≡ a + header_size + c.size =
            omega arith in
          rw (p, q) (later (later (rw e u)))
      | inr q ↦ rw (p, q) (later u)
    ]
    | inr p ↦ rw p (later (alloc-keeps u))
  ]
