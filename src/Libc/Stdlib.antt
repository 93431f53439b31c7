-- ===== src/Libc/Stdlib.antt =====
-- lib/libc/stdlib.c: the conversions of numbers, and memory over the heap of kernal/mm.c. Strings start at the offset 0, and a character is a
-- number below 256. `none` stands for what C leaves undefined: an `int` that overflows, and a read outside of the table of
-- digits; where a function takes fuel, also for fuel that ran out.
use hydra_microkernal.Mm.{Heap, kmalloc, kfree}
use hydra_microkernal.Prelude.{
  ℕ, zero, suc, ◌+◌, ◌-◌, ◌*◌, ◌/◌, ◌%◌, ◌^◌, Bool, ◌&&◌, ◌||◌, Option, none, some, ℤ, pos, negsuc,
  ltb, leb, ◌==◌, if◌then◌else◌, update, Bytes,
}

-- `*str == ' ' || *str == '\t' || *str == '\n' || *str == '\r'`
abbrev pub is_space : ℕ → Bool
is_space c = c == 32 || c == 9 || c == 10 || c == 13

-- `*str >= '0' && *str <= '9'`
abbrev pub is_digit : ℕ → Bool
is_digit c = leb 48 c && leb c 57

unfoldable pub skip_space : ℕ → ℕ → Bytes → Option ℕ
skip_space zero i str = none
skip_space (suc fuel) i str =
    let rest = skip_space fuel (suc i) str in if is_space (str i) then rest else some i

-- "Convert digits", from offset `i` on.
unfoldable pub digits_from : ℕ → ℕ → ℕ → Bytes → Option ℕ
digits_from zero i result str = none
digits_from (suc fuel) i result str =
    let rest = digits_from fuel (suc i) (result * 10 + (str i - 48)) str in
    if is_digit (str i)
    then if ltb (result * 10 + (str i - 48)) (2 ^ 31) then rest else none
    else some result

-- `-n`
abbrev pub negated : ℕ → ℤ
negated zero = pos 0
negated (suc n) = negsuc n

-- `result * sign`
abbrev pub signed : Bool → Option ℕ → Option ℤ
signed minus none = none
signed minus (some n) = some (if minus then negated n else pos n)

-- `atoi` behind the white space.
unfoldable pub atoi_from : ℕ → ℕ → Bytes → Option ℤ
unfolding digits_from
atoi_from fuel i str =
    if str i == 45
    then signed (str i == 45) (digits_from fuel (suc i) 0 str)
    else if str i == 43
    then signed (str i == 45) (digits_from fuel (suc i) 0 str)
    else signed (str i == 45) (digits_from fuel i 0 str)

unfoldable pub atoi : ℕ → Bytes → Option ℤ
unfolding skip_space atoi_from
atoi fuel str = elim (skip_space fuel 0 str) [ none ↦ none | some i ↦ atoi_from fuel i str ]

-- The character of `"0123456789abcdefghijklmnopqrstuvwxyz"` at a place.
abbrev pub digit : ℕ → ℕ
digit d = if ltb d 10 then 48 + d else 87 + d

-- The loop that writes the digits of `value`, the last one first, from offset `p` on: the string, and the end. It is left after
-- at most `value + 1` rounds, the fuel that it is given.
unfoldable pub put_digits : ℕ → ℕ → ℕ → ℕ → Bytes → Option (Bytes × ℕ)
put_digits zero base value p str = none
put_digits (suc fuel) base value p str =
    let rest = put_digits fuel base (value / base) (suc p) (update str p (digit (value % base))) in
    if value / base == 0 then some (update str p (digit (value % base)), suc p) else rest

-- The same for `-value`: a remainder other than 0 is negative, and the read of its digit outside of the table.
unfoldable pub put_negative : ℕ → ℕ → ℕ → ℕ → Bytes → Option (Bytes × ℕ)
put_negative zero base value p str = none
put_negative (suc fuel) base value p str =
    let rest = put_negative fuel base (value / base) (suc p) (update str p 48) in
    if value % base == 0
    then if value / base == 0 then some (update str p 48, suc p) else rest
    else none

-- "Reverse the string" between the offsets `i` and `j`.
unfoldable pub reverse : ℕ → ℕ → ℕ → Bytes → Bytes
reverse zero i j str = str
reverse (suc n) i j str =
    let rest = reverse n (suc i) (j - 1) (update (update str j (str i)) i (str j)) in
    if ltb i j then rest else str

-- The end of `itoa`: the 0, and the digits behind offset `p` put in order.
abbrev pub finished : ℕ → Option (Bytes × ℕ) → Option Bytes
finished p none = none
finished p (some (str, end)) = some (reverse end p (end - 1) (update str end 0))

-- A base, which is no negative number here, that is not between 2 and 36 gives the empty string. The value -2^31 has no negation.
unfoldable pub itoa : ℤ → Bytes → ℕ → Option Bytes
unfolding put_digits put_negative
itoa (pos n) str base =
    if ltb base 2 || ltb 36 base
    then some (update str 0 0)
    else finished 0 (put_digits (suc n) base n 0 str)
itoa (negsuc n) str base =
    if ltb base 2 || ltb 36 base
    then some (update str 0 0)
    else if base == 10
    then if ltb (suc n) (2 ^ 31)
      then finished 1 (put_digits (suc (suc n)) base (suc n) 1 (update str 0 45))
      else none
    else finished 0 (put_negative (suc (suc n)) base (suc n) 0 str)

unfoldable pub abs : ℤ → Option ℤ
abs (pos n) = some (pos n)
abs (negsuc n) = if ltb (suc n) (2 ^ 31) then some (pos (suc n)) else none

-- Bytes of memory set to 0: the loop of `calloc` from byte `i` of `p` on, with `n` rounds left.
unfoldable pub clear_from : ℕ → ℕ → ℕ → Bytes → Bytes
clear_from zero i p memory = memory
clear_from (suc n) i p memory = clear_from n (suc i) p (update memory (p + i) 0)

-- `kmalloc` takes an `unsigned int`.
unfoldable pub malloc : ℕ → ℕ → Heap → Option (Heap × ℕ)
malloc fuel size h = kmalloc fuel (size % 2 ^ 32) h

unfoldable pub free : ℕ → ℕ → Heap → Option Heap
free fuel ptr h = kfree fuel ptr h

unfoldable pub calloc : ℕ → ℕ → ℕ → Heap → Bytes → Option (Heap × Bytes × ℕ)
unfolding clear_from malloc
calloc fuel num size h memory = elim (malloc fuel (num * size % 2 ^ 64) h) [
  | none ↦ none
  | some (h', ptr) ↦
      if ptr == 0
      then some (h', memory, ptr)
      else some (h', clear_from (num * size % 2 ^ 64) 0 ptr memory, ptr)
]

-- The loop of `realloc` from byte `i` on, with `n` rounds left.
unfoldable pub move_from : ℕ → ℕ → ℕ → ℕ → Bytes → Bytes
move_from zero i new_ptr ptr memory = memory
move_from (suc n) i new_ptr ptr memory =
    move_from n (suc i) new_ptr ptr (update memory (new_ptr + i) (memory (ptr + i)))

abbrev pub without_pointer : Bytes → Option Heap → Option (Heap × Bytes × ℕ)
without_pointer memory none = none
without_pointer memory (some h) = some (h, memory, 0)

abbrev pub with_pointer : Bytes → ℕ → Option Heap → Option (Heap × Bytes × ℕ)
with_pointer memory ptr none = none
with_pointer memory ptr (some h) = some (h, memory, ptr)

abbrev pub with_memory : Bytes → Option (Heap × ℕ) → Option (Heap × Bytes × ℕ)
with_memory memory none = none
with_memory memory (some (h, ptr)) = some (h, memory, ptr)

unfoldable pub realloc : ℕ → ℕ → ℕ → Heap → Bytes → Option (Heap × Bytes × ℕ)
unfolding move_from malloc free
realloc fuel ptr size h memory =
    if ptr == 0
    then with_memory memory (malloc fuel size h)
    else if size == 0
    then without_pointer memory (free fuel ptr h)
    else elim (malloc fuel size h) [
      | none ↦ none
      | some (h', new_ptr) ↦
          if new_ptr == 0
          then some (h', memory, 0)
          else with_pointer (move_from size 0 new_ptr ptr memory) new_ptr (free fuel ptr h')
    ]
