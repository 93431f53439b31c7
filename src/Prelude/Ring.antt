-- ===== src/Prelude/Ring.antt =====
-- Bytes in a ring: windows of an array whose indices go round at its size.
use Prim.Native.Nat.{ℕ, zero, suc, ◌+◌, ◌%◌, ◌<◌}
use mathlib.Core.Path.{◌≡◌, refl, sym, ap, ap₂, ◌∙◌}
use mathlib.Core.Logic.{◌≢◌}
use mathlib.Core.List.{List, [], ◌∷◌, ◌++◌}
use native.Mathlib.Omega.{arith}
use native.Mathlib.Nat.{mod-add-mod, mod-lt, mod-eq_of_lt}
use hydra_microkernal.Prelude.Lists.{length, take}
use hydra_microkernal.Prelude.Store.{update, update_self, update_ne}

-- `n` bytes of the ring, from index `i` on.
abbrev pub window : ℕ → (ℕ → ℕ) → ℕ → ℕ → List ℕ
window size f i zero = []
window size f i (suc n) = f i ∷ window size f ((i + 1) % size) n

pub length-window : (size : ℕ) (f : ℕ → ℕ) (i n : ℕ) → length (window size f i n) ≡ n
length-window size f i zero = refl
length-window size f i (suc n) = ap suc (length-window size f ((i + 1) % size) n)

-- The index moves on with the window.
pub index-next : (size i n : ℕ) → ((i + 1) % size + n) % size ≡ (i + suc n) % size
index-next size i n = mod-add-mod (i + 1) size n ∙ ap (λ m. m % size) (omega arith)

-- Fewer than `size` steps do not come back.
index-ne : (size i n : ℕ) → i < size → suc n < size → (i + suc n) % size ≢ i
index-ne size i n h p = grind arith

-- The index just behind a window that is not the whole ring is no index of it.
pub window-update :
    (size : ℕ) (f : ℕ → ℕ) (i n k c : ℕ)
    → i < size
    → n < size
    → k ≡ (i + n) % size
    → window size (update f k c) i (suc n) ≡ window size f i n ++ c ∷ []
window-update size f i zero k c h p e = ap (λ x. x ∷ []) (rw at (update_self f k c))
  where
    at : i ≡ k
    at = sym (e ∙ ap (λ m. m % size) {y = i} (omega arith) ∙ mod-eq_of_lt h)
window-update size f i (suc n) k c h p e =
    ap₂ ◌∷◌ (update_ne f k i c (λ q. index-ne size i n h p (sym e ∙ q))) (
      window-update size f ((i + 1) % size) n k c (mod-lt (i + 1) (omega arith)) (omega arith)
        (e ∙ sym (index-next size i n)))

pub take-full {ℓ} : {A : Type ℓ} (n : ℕ) (xs ys : List A) → length xs ≡ n → take n (xs ++ ys) ≡ xs
take-full zero [] ys e = refl
take-full zero (x ∷ xs) ys e = absurd (omega arith)
take-full (suc n) [] ys e = absurd (omega arith)
take-full (suc n) (x ∷ xs) ys e = ap (λ l. x ∷ l) (take-full n xs ys (omega arith))
