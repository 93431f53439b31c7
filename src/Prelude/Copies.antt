-- ===== src/Prelude/Copies.antt =====
-- Byte arrays as functions from offsets, and the copying loop `for (i = 0; i < n; i++) d[i] = s[i]`.
use Prim.Native.Nat.{ℕ, zero, suc, ◌+◌, ◌≤◌, ◌<◌}
use mathlib.Core.Path.{◌≡◌, refl, ap, ap₂, ◌∙◌}
use mathlib.Core.List.{List, [], ◌∷◌}
use native.Mathlib.Omega.{arith}
use native.Mathlib.Decide.{ℕ_discrete}
use hydra_microkernal.Prelude.Lists.{length, take}
use hydra_microkernal.Prelude.Store.{update}

abbrev pub Bytes : Type 0
Bytes = ℕ → ℕ

-- The loop from `i` on, with `n` rounds left.
unfoldable pub copy_from : ℕ → ℕ → Bytes → Bytes → Bytes
copy_from zero i dst src = dst
copy_from (suc n) i dst src = copy_from n (suc i) (update dst i (src i)) src

unfoldable pub copy_bytes : ℕ → Bytes → Bytes → Bytes
unfolding copy_from
copy_bytes n dst src = copy_from n 0 dst src

-- `n` bytes from offset `i` on.
abbrev pub slice : ℕ → ℕ → Bytes → List ℕ
slice zero i f = []
slice (suc n) i f = f i ∷ slice n (suc i) f

abbrev pub prefix : ℕ → Bytes → List ℕ
prefix n f = slice n 0 f

pub length-slice : (n i : ℕ) (f : Bytes) → length (slice n i f) ≡ n
length-slice zero i f = refl
length-slice (suc n) i f = ap suc (length-slice n (suc i) f)

pub slice-ext :
    (n i : ℕ) (f g : Bytes) → ((j : ℕ) → i ≤ j → j < i + n → f j ≡ g j) → slice n i f ≡ slice n i g
slice-ext zero i f g h = refl
slice-ext (suc n) i f g h =
    ap₂ ◌∷◌ (h i (omega arith) (omega arith))
      (slice-ext n (suc i) f g (λ j p q. h j (omega arith) (omega arith)))

pub take-slice : (k n i : ℕ) (f : Bytes) → k ≤ n → take k (slice n i f) ≡ slice k i f
take-slice zero n i f h = refl
take-slice (suc k) zero i f h = absurd (omega arith)
take-slice (suc k) (suc n) i f h = ap (λ xs. f i ∷ xs) (take-slice k n (suc i) f (omega arith))

pub copy_from-before : (n i : ℕ) (dst src : Bytes) (j : ℕ) → j < i → copy_from n i dst src j ≡ dst j
unfolding copy_from
copy_from-before zero i dst src j h = refl
copy_from-before (suc n) i dst src j h =
    copy_from-before n (suc i) (update dst i (src i)) src j (omega arith) ∙ ground arith

pub copy_from-after :
    (n i : ℕ) (dst src : Bytes) (j : ℕ) → i + n ≤ j → copy_from n i dst src j ≡ dst j
unfolding copy_from
copy_from-after zero i dst src j h = refl
copy_from-after (suc n) i dst src j h =
    copy_from-after n (suc i) (update dst i (src i)) src j (omega arith) ∙ ground arith

pub copy_from-within :
    (n i : ℕ) (dst src : Bytes) (j : ℕ) → i ≤ j → j < i + n → copy_from n i dst src j ≡ src j
unfolding copy_from
copy_from-within zero i dst src j p q = absurd (omega arith)
copy_from-within (suc n) i dst src j p q = elim (ℕ_discrete i j) [
  | yes e ↦
      rw (← e)
        (copy_from-before n (suc i) (update dst i (src i)) src i (omega arith) ∙ ground arith)
  | no ne ↦ copy_from-within n (suc i) (update dst i (src i)) src j (omega arith) (omega arith)
]

-- The loop copies the first `n` bytes and leaves the others.
pub prefix-copy_bytes : (n : ℕ) (dst src : Bytes) → prefix n (copy_bytes n dst src) ≡ prefix n src
unfolding copy_bytes
prefix-copy_bytes n dst src =
    slice-ext n 0 (copy_from n 0 dst src) src (λ j p q. copy_from-within n 0 dst src j p q)

pub copy_bytes-beyond : (n : ℕ) (dst src : Bytes) (j : ℕ) → n ≤ j → copy_bytes n dst src j ≡ dst j
unfolding copy_bytes
copy_bytes-beyond n dst src j h = copy_from-after n 0 dst src j (omega arith)

cons-head : {x y : ℕ} {xs ys : List ℕ} → x ∷ xs ≡ y ∷ ys → x ≡ y
cons-head e = cc

cons-tail : {x y : ℕ} {xs ys : List ℕ} → x ∷ xs ≡ y ∷ ys → xs ≡ ys
cons-tail e = cc

pub slice-eq :
    (n i : ℕ) (f g : Bytes) → slice n i f ≡ slice n i g → (j : ℕ) → i ≤ j → j < i + n → f j ≡ g j
slice-eq zero i f g e j p q = absurd (omega arith)
slice-eq (suc n) i f g e j p q = elim (ℕ_discrete i j) [
  | yes same ↦ rw (← same) (cons-head e)
  | no other ↦ slice-eq n (suc i) f g (cons-tail e) j (omega arith) (omega arith)
]
