-- ===== src/Libc.antt =====
-- lib/libc/string.c: byte arrays and strings that end in 0. A string is read from the offset 0 on, and a
-- character is a number below 256. Loops that run to the end of a string take fuel, and `none` means that it ran out.
pub mod Memory
pub mod Strings
pub mod Stdlib
pub mod Digits
pub mod Decimal
pub mod Bases
pub mod Copies
pub mod Calloc
pub mod Stdio
pub mod Format
pub mod Room
mod Tests
use hydra_microkernal.Prelude.{
  ℕ, zero, suc, ◌+◌, ◌-◌, ◌%◌, Bool, not, ◌&&◌, Option, none, some, ℤ, pos, negsuc, ltb, ◌==◌,
  if◌then◌else◌, update, Bytes, copy_bytes,
}

-- `a - b` on two characters, as an `int`
abbrev pub difference : ℕ → ℕ → ℤ
difference a b = if ltb a b then negsuc (b - a - 1) else pos (a - b)

unfoldable pub strlen_from : ℕ → Bytes → ℕ → Option ℕ
strlen_from zero str len = none
strlen_from (suc fuel) str len =
    let rest = strlen_from fuel str (len + 1) in if not (str len == 0) then rest else some len

unfoldable pub strlen : ℕ → Bytes → Option ℕ
unfolding strlen_from
strlen fuel str = strlen_from fuel str 0

unfoldable pub strcmp_from : ℕ → ℕ → Bytes → Bytes → Option ℤ
strcmp_from zero i str1 str2 = none
strcmp_from (suc fuel) i str1 str2 =
    let rest = strcmp_from fuel (suc i) str1 str2 in
    if not (str1 i == 0) && (str1 i == str2 i) then rest else some (difference (str1 i) (str2 i))

unfoldable pub strcmp : ℕ → Bytes → Bytes → Option ℤ
unfolding strcmp_from
strcmp fuel str1 str2 = strcmp_from fuel 0 str1 str2

unfoldable pub strncmp_from : ℕ → ℕ → Bytes → Bytes → ℤ
strncmp_from zero i str1 str2 = pos 0
strncmp_from (suc n) i str1 str2 =
    let rest = strncmp_from n (suc i) str1 str2 in
    if not (str1 i == 0) && (str1 i == str2 i) then rest else difference (str1 i) (str2 i)

unfoldable pub strncmp : Bytes → Bytes → ℕ → ℤ
unfolding strncmp_from
strncmp str1 str2 n = strncmp_from n 0 str1 str2

-- The offset of the character that `strchr` points to, or no offset for null.
unfoldable pub strchr_from : ℕ → ℕ → Bytes → ℕ → Option (Option ℕ)
strchr_from zero i str c = none
strchr_from (suc fuel) i str c =
    let rest = strchr_from fuel (suc i) str c in
    if str i == 0
    then some (if c == 0 then some i else none)
    else if str i == c
    then some (some i)
    else rest

unfoldable pub strchr : ℕ → Bytes → ℕ → Option (Option ℕ)
unfolding strchr_from
strchr fuel str c = strchr_from fuel 0 str c

unfoldable pub memcpy : Bytes → Bytes → ℕ → Bytes
memcpy dest src n = copy_bytes n dest src

unfoldable pub memset_from : ℕ → ℕ → Bytes → ℕ → Bytes
memset_from zero i p val = p
memset_from (suc n) i p val = memset_from n (suc i) (update p i val) val

-- For a value of 0 or more: the cast to `unsigned char` is the remainder.
unfoldable pub memset : Bytes → ℕ → ℕ → Bytes
unfolding memset_from
memset ptr value n = memset_from n 0 ptr (value % 256)

unfoldable pub memcmp_from : ℕ → ℕ → Bytes → Bytes → ℤ
memcmp_from zero i p1 p2 = pos 0
memcmp_from (suc n) i p1 p2 =
    let rest = memcmp_from n (suc i) p1 p2 in
    if not (p1 i == p2 i) then difference (p1 i) (p2 i) else rest

unfoldable pub memcmp : Bytes → Bytes → ℕ → ℤ
unfolding memcmp_from
memcmp ptr1 ptr2 n = memcmp_from n 0 ptr1 ptr2

-- `while ((*dest++ = *src++) != 0)` from the offsets `i` and `j` on.
unfoldable pub strcpy_from : ℕ → ℕ → ℕ → Bytes → Bytes → Option Bytes
strcpy_from zero i j dest src = none
strcpy_from (suc fuel) i j dest src =
    let rest = strcpy_from fuel (suc i) (suc j) (update dest i (src j)) src in
    if src j == 0 then some (update dest i (src j)) else rest

unfoldable pub strcpy : ℕ → Bytes → Bytes → Option Bytes
unfolding strcpy_from
strcpy fuel dest src = strcpy_from fuel 0 0 dest src

-- The two loops of `strncpy`, from `i` on with `n` rounds left.
unfoldable pub pad_from : ℕ → ℕ → Bytes → Bytes
pad_from zero i dest = dest
pad_from (suc n) i dest = pad_from n (suc i) (update dest i 0)

unfoldable pub strncpy_from : ℕ → ℕ → Bytes → Bytes → Bytes
unfolding pad_from
strncpy_from zero i dest src = dest
strncpy_from (suc n) i dest src =
    let rest = strncpy_from n (suc i) (update dest i (src i)) src in
    if src i == 0 then pad_from (suc n) i dest else rest

unfoldable pub strncpy : Bytes → Bytes → ℕ → Bytes
unfolding strncpy_from
strncpy dest src n = strncpy_from n 0 dest src

-- The first loop of `strcat` is that of `strlen`.
unfoldable pub strcat : ℕ → Bytes → Bytes → Option Bytes
unfolding strcpy_from strlen
strcat fuel dest src = elim (strlen fuel dest) [
  | none ↦ none
  | some i ↦ strcpy_from fuel i 0 dest src
]
