-- ===== src/Libc/Memory.antt =====
-- The memory functions of lib/libc/string.c.
use hydra_microkernal.Prelude.{
  ℕ, zero, suc, ◌+◌, ◌≤◌, ◌<◌, ◌≡◌, ◌↔◌, refl, pos, arith, ℕ_discrete, Bytes, copy_bytes,
  copy_bytes-beyond, copy_from-within,
}
use hydra_microkernal.Libc.{difference, memcpy, memcmp_from, memcmp}

pub difference-zero : {a b : ℕ} → difference a b ≡ pos 0 → a ≡ b
difference-zero {a} {b} e = ground arith

pub difference_self : (a : ℕ) → difference a a ≡ pos 0
difference_self a = ground arith

memcmp_from-equal :
    (n i : ℕ) (p q : Bytes)
    → ((j : ℕ) → i ≤ j → j < i + n → p j ≡ q j)
    → memcmp_from n i p q ≡ pos 0
unfolding memcmp_from
memcmp_from-equal zero i p q h = refl
memcmp_from-equal (suc n) i p q h =
    let e = h i (omega arith) (omega arith) in
    let rest = memcmp_from-equal n (suc i) p q (λ j a b. h j (omega arith) (omega arith)) in
    ground (arith, e, rest)

memcmp_from-step :
    (n i : ℕ) (p q : Bytes)
    → memcmp_from (suc n) i p q ≡ pos 0
    → (p i ≡ q i) × (memcmp_from n (suc i) p q ≡ pos 0)
unfolding memcmp_from
memcmp_from-step n i p q e = elim (ℕ_discrete (p i) (q i)) [
  | yes same ↦ (same, ground (arith, same, e))
  | no other ↦ absurd (other (difference-zero {a = p i} {b = q i} (ground (arith, other, e))))
]

memcmp_from-zero :
    (n i : ℕ) (p q : Bytes) → memcmp_from n i p q ≡ pos 0 → (j : ℕ) → i ≤ j → j < i + n → p j ≡ q j
memcmp_from-zero zero i p q e j a b = absurd (omega arith)
memcmp_from-zero (suc n) i p q e j a b = elim (ℕ_discrete i j) [
  | yes same ↦ rw (← same) (memcmp_from-step n i p q e).0
  | no other ↦
      memcmp_from-zero n (suc i) p q (memcmp_from-step n i p q e).1 j (omega arith) (omega arith)
]

-- `memcmp` answers 0 exactly when the two arrays agree in each of the `n` bytes.
pub memcmp-zero : (p q : Bytes) (n : ℕ) → (memcmp p q n ≡ pos 0) ↔ ((j : ℕ) → j < n → p j ≡ q j)
unfolding memcmp
memcmp-zero p q n = (
  λ e j h. memcmp_from-zero n 0 p q e j (omega arith) (omega arith),
  λ h. memcmp_from-equal n 0 p q (λ j a b. h j (omega arith)),
)

-- After `memcpy`, `memcmp` finds the copy equal to the source, and the bytes of the target behind the first `n` are as
-- before.
pub memcmp-memcpy :
    (dest src : Bytes) (n : ℕ)
    → (memcmp (memcpy dest src n) src n ≡ pos 0) × ((j : ℕ) → n ≤ j → memcpy dest src n j ≡ dest j)
unfolding memcmp memcpy copy_bytes
memcmp-memcpy dest src n = (
  memcmp_from-equal n 0 (copy_bytes n dest src) src (λ j a b. copy_from-within n 0 dest src j a b),
  λ j h. copy_bytes-beyond n dest src j h,
)
