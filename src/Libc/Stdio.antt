-- ===== src/Libc/Stdio.antt =====
-- lib/libc/stdio.c: formatted output into a buffer, and characters. Formats and texts are the bytes before their terminating
-- zero. `none` stands for what C leaves undefined: an argument that is missing or of another type, and what `itoa` leaves undefined.
-- `count` counts up from 0, so it is a natural number. `printf` and `sprintf` have one text but for the tests of the
-- room that is left in the buffer of `printf`.
use hydra_microkernal.Prelude.{
  ℕ, zero, suc, ◌+◌, ◌-◌, ◌^◌, true, false, ◌||◌, Option, none, some, ℤ, pos, negsuc, List, [], ◌∷◌,
  length, ltb, ◌==◌, if◌then◌else◌, update, Bytes, prefix,
}
use hydra_microkernal.Varargs.{
  Argument, number, text, null, number_arg, rest_args, followed_by, to_char,
}
use hydra_microkernal.Uart.{Uart}
use hydra_microkernal.Hydra.Console.{syscall_write, syscall_read}
use hydra_microkernal.Libc.Stdlib.{put_digits, put_negative, reverse, finished}

unfoldable pub itoa : ℤ → Bytes → ℕ → Option Bytes
unfolding put_digits put_negative reverse
itoa (pos n) str base = finished 0 (put_digits (suc n) base n 0 str)
itoa (negsuc n) str base =
    if base == 10
    then if ltb (suc n) (2 ^ 31)
      then finished 1 (put_digits (suc (suc n)) base (suc n) 1 (update str 0 45))
      else none
    else finished 0 (put_negative (suc (suc n)) base (suc n) 0 str)

-- The bytes of a string from offset `i` on up to its zero, which is one of the next `n` bytes.
unfoldable pub string_from : ℕ → ℕ → Bytes → Option (List ℕ)
string_from zero i str = none
string_from (suc n) i str =
    let rest = string_from n (suc i) str in
    if str i == 0 then some [] else followed_by (some (str i ∷ [])) rest

-- What a directive puts into the buffer: characters one by one, or '%' and a character that it does not know.
pub data Piece : Type 0 where
  characters : List ℕ → Piece
  unknown : ℕ → Piece
  undefined : Piece

-- The string of `num_str[32]`.
abbrev pub digits_piece : Option Bytes → Piece
digits_piece none = undefined
digits_piece (some str) = elim (string_from 32 0 str) [ none ↦ undefined | some s ↦ characters s ]

abbrev pub number_piece : ℕ → Option ℤ → Piece
number_piece base none = undefined
number_piece base (some x) = digits_piece (itoa x (λ i. 0) base)

-- A null pointer is an empty text.
abbrev pub string_piece : List Argument → Piece
string_piece [] = undefined
string_piece (number x ∷ args) = undefined
string_piece (text s ∷ args) = characters s
string_piece (null ∷ args) = characters []

abbrev pub char_piece : Option ℤ → Piece
char_piece none = undefined
char_piece (some x) = characters (to_char x ∷ [])

-- The `switch`.
unfoldable pub piece : ℕ → List Argument → Piece
unfolding itoa string_from
piece d args =
    if d == 100
    then number_piece 10 (number_arg args)
    else if d == 120
    then number_piece 16 (number_arg args)
    else if d == 115
    then string_piece args
    else if d == 99
    then char_piece (number_arg args)
    else if d == 37
    then characters (37 ∷ [])
    else unknown d

-- The arguments behind the directive.
unfoldable pub taken : ℕ → List Argument → List Argument
taken d args = if d == 100 || d == 120 || d == 115 || d == 99 then rest_args args else args

-- The buffer, `buf_ptr` as an offset in it, and `count`.
pub record Out : Type 0 where
  pub buffer : Bytes
  pub used : ℕ
  pub count : ℕ

-- `*buf_ptr++ = c; count++`
abbrev pub put : ℕ → Out → Out
put c o = record { buffer = update o.buffer o.used c; used = o.used + 1; count = o.count + 1 }

-- The same for two characters.
abbrev pub put_two : ℕ → ℕ → Out → Out
put_two c d o = put d (put c o)

-- `sizeof(buffer)`
abbrev pub buffer_size : ℕ
buffer_size = 1024

-- The writes of `printf`, with their tests of the room that is left.
abbrev pub put_room : ℕ → Out → Out
put_room c o = if ltb o.used (buffer_size - 1) then put c o else o

abbrev pub put_two_room : ℕ → ℕ → Out → Out
put_two_room c d o = if ltb o.used (buffer_size - 2) then put_two c d o else o

module _ (one : ℕ → Out → Out) (two : ℕ → ℕ → Out → Out) where
  unfoldable pub put_text : List ℕ → Out → Out
  put_text [] o = o
  put_text (c ∷ s) o = put_text s (one c o)

  unfoldable pub put_piece : Piece → Out → Option Out
  unfolding put_text
  put_piece (characters s) o = some (put_text s o)
  put_piece (unknown d) o = some (two 37 d o)
  put_piece undefined o = none

  -- The loop over the format.
  unfoldable pub format : List ℕ → List Argument → Out → Option Out
  unfolding put_piece piece taken
  format [] args o = some o
  format (c ∷ []) args o = some (one c o)
  format (c ∷ d ∷ fmt) args o = elim (c == 37) [
    | true ↦ elim (put_piece (piece d args) o) [
      | none ↦ none
      | some o' ↦ format fmt (taken d args) o'
    ]
    | false ↦ format (d ∷ fmt) args (one c o)
  ]

-- The start of both functions.
abbrev pub empty_out : Bytes → Out
empty_out str = record { buffer = str; used = 0; count = 0 }

-- The loop of `printf`, and that of `sprintf`.
unfoldable pub printf_loop : Bytes → List ℕ → List Argument → Option Out
unfolding format
printf_loop buffer fmt args = format put_room put_two_room fmt args (empty_out buffer)

unfoldable pub sprintf_loop : Bytes → List ℕ → List Argument → Option Out
unfolding format
sprintf_loop str fmt args = format put put_two fmt args (empty_out str)

-- `*buf_ptr = '\0'`
abbrev pub terminated : Out → Bytes
terminated o = update o.buffer o.used 0

-- The output that a function writes, and its result.
abbrev pub with_result : Option (List ℕ) → ℕ → Option (List ℕ × ℕ)
with_result none n = none
with_result (some out) n = some (out, n)

-- `buffer` is what the stack holds.
unfoldable pub printf : Bytes → List ℕ → List Argument → Option (List ℕ × ℕ)
unfolding printf_loop syscall_write
printf buffer fmt args = elim (printf_loop buffer fmt args) [
  | none ↦ none
  | some o ↦ with_result (syscall_write (prefix o.used (terminated o)) o.used) o.count
]

unfoldable pub sprintf : Bytes → List ℕ → List Argument → Option (Bytes × ℕ)
unfolding sprintf_loop
sprintf str fmt args = elim (sprintf_loop str fmt args) [
  | none ↦ none
  | some o ↦ some (terminated o, o.count)
]

unfoldable pub puts : List ℕ → Option (List ℕ × ℕ)
unfolding syscall_write
puts str =
    with_result (followed_by (syscall_write str (length str)) (syscall_write (10 ∷ []) 1))
      (length str + 1)

-- The character is one byte on the stack.
unfoldable pub putchar : ℤ → Option (List ℕ × ℤ)
unfolding syscall_write
putchar c = elim (syscall_write (to_char c ∷ []) 1) [ none ↦ none | some out ↦ some (out, c) ]

unfoldable pub getchar : Uart → ℤ × Uart
unfolding syscall_read
getchar u =
    let (buffer, result, u') = syscall_read (λ i. 0) 1 u in
    (elim result [ pos n ↦ if n == 1 then pos (buffer 0) else negsuc 0 | negsuc n ↦ negsuc 0 ], u')
