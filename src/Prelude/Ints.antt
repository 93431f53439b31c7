-- ===== src/Prelude/Ints.antt =====
-- C's `int` as an integer: its range is stated where it matters. `negsuc n` is -(n + 1).
use Prim.Native.Nat.{ℕ, zero, suc, ◌+◌, ◌-◌, ◌%◌, ◌^◌}
use mathlib.Core.Bool.{Bool, true, false}
use hydra_microkernal.Prelude.Tests.{ltb, leb, ◌==◌, if◌then◌else◌}

pub data ℤ : Type 0 where
  pos : ℕ → ℤ
  negsuc : ℕ → ℤ

abbrev pub is_neg : ℤ → Bool
is_neg (pos n) = false
is_neg (negsuc n) = true

-- The value of an integer that is not negative; 0 for a negative one.
abbrev pub pos_part : ℤ → ℕ
pos_part (pos n) = n
pos_part (negsuc n) = 0

-- `x <= 0`
abbrev pub is_nonpos : ℤ → Bool
is_nonpos (pos n) = leb n 0
is_nonpos (negsuc n) = true

-- `x > n` and `x >= n`, for a constant n that is not negative
abbrev pub is_above : ℤ → ℕ → Bool
is_above (pos m) n = ltb n m
is_above (negsuc m) n = false

abbrev pub is_at_least : ℤ → ℕ → Bool
is_at_least (pos m) n = leb n m
is_at_least (negsuc m) n = false

-- `x == n`
abbrev pub is_int : ℤ → ℕ → Bool
is_int (pos m) n = m == n
is_int (negsuc m) n = false

-- `x++` and `x--`
abbrev pub increment : ℤ → ℤ
increment (pos n) = pos (suc n)
increment (negsuc zero) = pos 0
increment (negsuc (suc n)) = negsuc n

abbrev pub decrement : ℤ → ℤ
decrement (pos zero) = negsuc 0
decrement (pos (suc n)) = pos n
decrement (negsuc n) = negsuc (suc n)

-- The lowest bits of an integer, as in `(uint16_t)x`: the remainder by `m`.
abbrev pub low_bits : ℕ → ℤ → ℕ
low_bits m (pos n) = n % m
low_bits m (negsuc n) = m - 1 - n % m

-- The `int` whose bit pattern is `w`.
abbrev pub signed32 : ℕ → ℤ
signed32 w = if ltb w (2 ^ 31) then pos w else negsuc (2 ^ 32 - w - 1)

-- `(int)x` of a `long`
abbrev pub to_int : ℤ → ℤ
to_int x = signed32 (low_bits (2 ^ 32) x)

-- `x - 4`: the size of a message behind its first word
abbrev pub less_header : ℤ → ℤ
less_header (pos n) = if ltb n 4 then negsuc (3 - n) else pos (n - 4)
less_header (negsuc n) = negsuc (n + 4)
