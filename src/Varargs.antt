-- ===== src/Varargs.antt =====
-- The variable arguments of kernal/printk.c and lib/libc/stdio.c. `none` stands for what C leaves undefined: no argument left, or
-- one of another type. Texts are the bytes before the terminating zero.
use hydra_microkernal.Prelude.{ℕ, Option, none, some, ℤ, low_bits, List, [], ◌∷◌, ◌++◌}

-- A number, a pointer to a string, and the null pointer.
pub data Argument : Type 0 where
  number : ℤ → Argument
  text : List ℕ → Argument
  null : Argument

-- `va_arg` of a number.
abbrev pub number_arg : List Argument → Option ℤ
number_arg [] = none
number_arg (number x ∷ args) = some x
number_arg (text s ∷ args) = none
number_arg (null ∷ args) = none

-- The arguments behind the first.
abbrev pub rest_args : List Argument → List Argument
rest_args [] = []
rest_args (x ∷ args) = args

-- What a possibly undefined output is followed by.
abbrev pub followed_by : Option (List ℕ) → Option (List ℕ) → Option (List ℕ)
followed_by none rest = none
followed_by (some out) none = none
followed_by (some out) (some rest) = some (out ++ rest)

-- `(char)x`
abbrev pub to_char : ℤ → ℕ
to_char x = low_bits 256 x
