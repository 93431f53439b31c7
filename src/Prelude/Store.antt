-- ===== src/Prelude/Store.antt =====
-- Memory as a function from addresses, and singly linked chains in it. Address 0 is the null pointer.
use Prim.Native.Nat.{ℕ}
use mathlib.Core.Path.{◌≡◌, sym}
use mathlib.Core.Logic.{◌≢◌}
use mathlib.Core.List.{List, [], ◌∷◌, ◌++◌}
use native.Mathlib.Omega.{arith}
use native.Mathlib.Decide.{ℕ_discrete}
use hydra_microkernal.Prelude.Tests.{◌==◌, if◌then◌else◌}
use hydra_microkernal.Prelude.Lists.{All, All-append, last_or}

-- `f` with a new value at one place: a write through a pointer, or into an array.
abbrev pub update {ℓ} : {A : Type ℓ} → (ℕ → A) → ℕ → A → ℕ → A
update f k v i = if k == i then v else f i

pub update_self {ℓ} : {A : Type ℓ} (f : ℕ → A) (k : ℕ) (v : A) → update f k v k ≡ v
update_self f k v = ground arith

pub update_ne {ℓ} : {A : Type ℓ} (f : ℕ → A) (k i : ℕ) (v : A) → k ≢ i → update f k v i ≡ f i
update_ne f k i v h = ground arith

-- What holds of the new value, and of the old ones elsewhere, holds everywhere.
pub update-ind {ℓ κ} :
    {A : Type ℓ} (P : ℕ → A → Type κ) (f : ℕ → A) (k : ℕ) (v : A)
    → P k v
    → ((i : ℕ) → i ≢ k → P i (f i))
    → (i : ℕ) → P i (update f k v i)
update-ind P f k v new old i = elim (ℕ_discrete k i) [
  | yes e ↦ rw (← e, update_self f k v) new
  | no ne ↦ rw (update_ne f k i v ne) (old i (λ q. ne (sym q)))
]

-- The address is none of the list's.
abbrev pub Avoids : ℕ → List ℕ → Type 0
Avoids a = All (λ b. b ≢ a)

abbrev pub IsNodup : List ℕ → Type 0
IsNodup [] = Unit
IsNodup (a ∷ xs) = Avoids a xs × IsNodup xs

pub Avoids-last : (a x : ℕ) (xs : List ℕ) → Avoids a (x ∷ xs) → last_or x xs ≢ a
Avoids-last a x [] h = h.0
Avoids-last a x (y ∷ xs) h = Avoids-last a y xs h.1

pub IsNodup-snoc : (b : ℕ) (xs : List ℕ) → IsNodup xs → Avoids b xs → IsNodup (xs ++ b ∷ [])
IsNodup-snoc b [] d h = (tt, tt)
IsNodup-snoc b (x ∷ xs) d h =
    (All-append (λ y. y ≢ x) xs (b ∷ []) d.0 (λ e. h.0 (sym e), tt), IsNodup-snoc b xs d.1 h.1)

-- From `p` the pointers `next` lead through the nodes `xs`, none of them null, to null.
abbrev pub Chain : (ℕ → ℕ) → ℕ → List ℕ → Type 0
Chain next p [] = p ≡ 0
Chain next p (a ∷ xs) = (p ≡ a) × (a ≢ 0) × Chain next (next a) xs

-- A chain outlives a change that spares its nodes.
pub Chain-frame :
    (f g : ℕ → ℕ) (p : ℕ) (xs : List ℕ) → All (λ a. g a ≡ f a) xs → Chain f p xs → Chain g p xs
Chain-frame f g p [] same c = c
Chain-frame f g p (a ∷ xs) same c = (c.0, c.1, rw same.0 (Chain-frame f g (f a) xs same.1 c.2))

-- Linking a node with a null successor behind the last one extends a chain by it.
pub Chain-snoc :
    (f g : ℕ → ℕ) (p a : ℕ) (xs : List ℕ) (b : ℕ)
    → IsNodup (a ∷ xs)
    → Avoids b (a ∷ xs)
    → b ≢ 0
    → g (last_or a xs) ≡ b
    → g b ≡ 0
    → ((x : ℕ) → x ≢ last_or a xs → x ≢ b → g x ≡ f x)
    → Chain f p (a ∷ xs)
    → Chain g p (a ∷ xs ++ b ∷ [])
Chain-snoc f g p a [] b d away nn link end same c = (c.0, c.1, (link, nn, end))
Chain-snoc f g p a (x ∷ xs) b d away nn link end same c =
    (c.0, c.1, rw still (Chain-snoc f g (f a) x xs b d.1 away.1 nn link end same c.2))
  where
    still : g a ≡ f a
    still = same a (λ e. Avoids-last a x xs d.0 (sym e)) away.0

-- A node that none of `xs` is can be appended to what they avoid.
pub All-Avoids_snoc :
    (a : ℕ) (xs ys : List ℕ)
    → Avoids a xs
    → All (λ b. Avoids b ys) xs
    → All (λ b. Avoids b (ys ++ a ∷ [])) xs
All-Avoids_snoc a [] ys away apart = tt
All-Avoids_snoc a (b ∷ xs) ys away apart = (
  All-append (λ y. y ≢ b) ys (a ∷ []) apart.0 (λ e. away.0 (sym e), tt),
  All-Avoids_snoc a xs ys away.1 apart.1,
)

pub Chain-head : (f : ℕ → ℕ) {p q : ℕ} (xs : List ℕ) → p ≡ q → Chain f q xs → Chain f p xs
Chain-head f xs e c = rw e c
