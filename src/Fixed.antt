-- ===== src/Fixed.antt =====
-- apps/raytracer/raytracer.h: integers of 16.16 fixed point. An `int` is an integer in its range; `none` stands for what C leaves
-- undefined: a sum of `int` or a 64-bit product that overflows, and a division by 0. A conversion to `int` wraps, and `>>` of
-- a negative number rounds down, as the compiler does both.
use hydra_microkernal.Prelude.{
  ℕ, suc, ◌+◌, ◌-◌, ◌*◌, ◌/◌, Bool, Option, none, some, ℤ, pos, negsuc, pos_part, ltb, leb, ◌==◌,
  if◌then◌else◌,
}

abbrev pub neg_part : ℤ → ℕ
neg_part (pos n) = 0
neg_part (negsuc n) = suc n

-- a - b, as an integer.
abbrev pub sub_ℕ : ℕ → ℕ → ℤ
sub_ℕ a b = if leb b a then pos (a - b) else negsuc (b - a - 1)

abbrev pub ltb_ℤ : ℤ → ℤ → Bool
ltb_ℤ a b = ltb (pos_part a + neg_part b) (pos_part b + neg_part a)

unfoldable pub plus : ℤ → ℤ → ℤ
plus a b = sub_ℕ (pos_part a + pos_part b) (neg_part a + neg_part b)

unfoldable pub minus : ℤ → ℤ → ℤ
minus a b = sub_ℕ (pos_part a + neg_part b) (neg_part a + pos_part b)

unfoldable pub times : ℤ → ℤ → ℤ
times a b =
    sub_ℕ (pos_part a * pos_part b + neg_part a * neg_part b)
      (pos_part a * neg_part b + neg_part a * pos_part b)

-- The integer in a signed type of values below `m`.
abbrev pub checked : ℕ → ℤ → Option ℤ
checked m (pos n) = if ltb n m then some (pos n) else none
checked m (negsuc n) = if ltb n m then some (negsuc n) else none

-- `a >> k`, with `m` for 2^k
abbrev pub shifted : ℕ → ℤ → ℤ
shifted m (pos n) = pos (n / m)
shifted m (negsuc n) = negsuc (n / m)

-- FIXED_MUL
abbrev pub fixed_mul : ℤ → ℤ → ℤ
fixed_mul a b = shifted 65536 (times a b)

-- The quotient of two integers, rounded towards 0.
abbrev pub quotient : ℤ → ℤ → ℤ
quotient a b =
    sub_ℕ (pos_part a / pos_part b + neg_part a / neg_part b)
      (pos_part a / neg_part b + neg_part a / pos_part b)

-- FIXED_DIV
abbrev pub fixed_div : ℤ → ℤ → Option ℤ
fixed_div a b =
    if pos_part b + neg_part b == 0 then none else some (quotient (times a (pos 65536)) b)

-- A sequence of computations that may be undefined.
infixl 20 ◌>>=◌
abbrev pub ◌>>=◌ {ℓ κ} : {A : Type ℓ} {B : Type κ} → Option A → (A → Option B) → Option B
none >>= f = none
some x >>= f = f x
