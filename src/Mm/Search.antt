-- ===== src/Mm/Search.antt =====
-- Lists of cells: bounds, and the first-fit search of `kmalloc`.
use hydra_microkernal.Prelude.{
  ℕ, zero, suc, ◌+◌, ◌≤◌, ◌<◌, ◌≡◌, ◌≢◌, refl, sym, ◌∙◌, Bool, true, ◌&&◌, Bool-cases, ◌⊎◌, inl,
  inr, some, List, [], ◌∷◌, length, All, leb, arith,
}
use hydra_microkernal.Mm.{MemBlock, find_fit, header_size}
use hydra_microkernal.Mm.Cells.{Cell, behind, link, Layout, used, fit, IsAt, InUse, now, later}

pub Layout-le :
    (st : ℕ → MemBlock) (a limit : ℕ) (cs : List Cell) → Layout st a limit cs → a ≤ limit
Layout-le st a limit [] l = omega arith
Layout-le st a limit (c ∷ cs) l = omega (arith, Layout-le st (behind a c) limit cs l.2)

pub used-le :
    (st : ℕ → MemBlock) (a limit : ℕ) (cs : List Cell) → Layout st a limit cs → a + used cs ≤ limit
unfolding used
used-le st a limit [] l = omega arith
used-le st a limit (c ∷ cs) l = ground (arith, used-le st (behind a c) limit cs l.2)

-- A change outside the cells leaves them.
pub Layout-frame :
    (st st' : ℕ → MemBlock) (a limit : ℕ) (cs : List Cell)
    → ((x : ℕ) → a ≤ x → x < limit → st' x ≡ st x)
    → Layout st a limit cs
    → Layout st' a limit cs
Layout-frame st st' a limit [] same l = l
Layout-frame st st' a limit (c ∷ cs) same l = (
  same a (omega arith) (omega (arith, Layout-le st (behind a c) limit cs l.2)) ∙ l.0,
  l.1,
  Layout-frame st st' (behind a c) limit cs (λ x p q. same x (omega arith) q) l.2,
)

pub fit-ge : (n a : ℕ) (cs : List Cell) → fit n a cs ≢ 0 → a ≤ fit n a cs
unfolding fit
fit-ge n a [] h = absurd (h refl)
fit-ge n a (c ∷ cs) h = ground (arith, fit-ge n (behind a c) cs)

-- If no cell fits, each free cell is too small.
pub fit-none :
    (n a : ℕ) (cs : List Cell) → a ≢ 0 → fit n a cs ≡ 0 → All (λ c. c.free ≡ true → c.size < n) cs
unfolding fit
fit-none n a [] h e = tt
fit-none n a (c ∷ cs) h e = elim (Bool-cases (c.free && leb n c.size)) [
  | inl p ↦ absurd (h (rw p at e))
  | inr p ↦ (ground arith, fit-none n (behind a c) cs (omega arith) (rw p at e))
]

-- The search walks the headers to the first cell that fits, and ends within its fuel.
pub find_fit-fit :
    (st : ℕ → MemBlock) (n limit fuel a : ℕ) (cs : List Cell)
    → a ≢ 0
    → length cs < fuel
    → Layout st a limit cs
    → find_fit fuel st n (link a cs) ≡ some (fit n a cs)
unfolding find_fit fit
find_fit-fit st n limit zero a cs h k l = absurd (omega arith)
find_fit-fit st n limit (suc fuel) a [] h k l = refl
find_fit-fit st n limit (suc fuel) a (c ∷ cs) h k l =
    rw l.0
      (ground (arith, find_fit-fit st n limit fuel (behind a c) cs (omega arith) (omega arith) l.2))

pub IsAt-ge : {x n : ℕ} {f : Bool} {a : ℕ} {cs : List Cell} → IsAt x n f a cs → a ≤ x
IsAt-ge (now p q r) = omega arith
IsAt-ge (later u) = omega (arith, IsAt-ge u)

pub IsAt-le :
    {x n : ℕ} {f : Bool} {a : ℕ} {cs : List Cell} (st : ℕ → MemBlock) (limit : ℕ)
    → IsAt x n f a cs
    → Layout st a limit cs
    → x + header_size + n ≤ limit
IsAt-le st limit (now {a} {c} {cs} p q r) l = omega (arith, Layout-le st (behind a c) limit cs l.2)
IsAt-le st limit (later u) l = IsAt-le st limit u l.2

-- The header of a cell.
pub IsAt-free :
    {x n : ℕ} {f : Bool} {a : ℕ} {cs : List Cell} (st : ℕ → MemBlock) (limit : ℕ)
    → IsAt x n f a cs
    → Layout st a limit cs
    → ((st x).free ≡ f) × ((st x).size ≡ n)
IsAt-free st limit (now {a} {c} {cs} p q r) l = rw (← p, l.0) (r, q)
IsAt-free st limit (later u) l = IsAt-free st limit u l.2

-- A block in use is no cell that fits.
pub fit-not-InUse :
    {x m a : ℕ} {cs : List Cell} (n : ℕ) → InUse x m a cs → a ≢ 0 → fit n a cs ≢ 0 → fit n a cs ≢ x
unfolding fit
fit-not-InUse n (now {a} {c} {cs} p q r) h k = ground (arith, fit-ge n (behind a c) cs)
fit-not-InUse n (later {a} {c} {cs} u) h k = elim (Bool-cases (c.free && leb n c.size)) [
  | inl p ↦ rw p (λ e. absurd (omega (arith, IsAt-ge u)))
  | inr p ↦ rw p (fit-not-InUse n u (omega arith) (rw p at k))
]

-- Two blocks in use at different addresses do not overlap, headers included.
pub InUse-apart :
    {x n y m a : ℕ} {cs : List Cell}
    → InUse x n a cs
    → InUse y m a cs
    → x ≢ y
    → (x + header_size + n ≤ y) ⊎ (y + header_size + m ≤ x)
InUse-apart (now p q r) (now p' q' r') ne = absurd (ne (sym p ∙ p'))
InUse-apart (now p q r) (later v) ne = inl (omega (arith, IsAt-ge v))
InUse-apart (later u) (now p q r) ne = inr (omega (arith, IsAt-ge u))
InUse-apart (later u) (later v) ne = InUse-apart u v ne
