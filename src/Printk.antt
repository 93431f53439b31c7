-- ===== src/Printk.antt =====
-- kernal/printk.c: formatted output on the serial line, as the bytes that kernal/uart.c writes. A format is the list of the
-- bytes before its terminating zero. `none` stands for what C leaves undefined: a read behind that zero, a write behind the
-- buffer of the digits, and an argument that is missing or of another type.
pub mod Numbers
pub mod Output
mod Tests
use hydra_microkernal.Prelude.{
  ℕ, zero, suc, ◌+◌, ◌/◌, ◌%◌, ◌^◌, true, false, Option, none, some, ℤ, low_bits, List, [], ◌∷◌,
  ◌++◌, ltb, ◌==◌, if◌then◌else◌, update, Bytes,
}
use hydra_microkernal.Uart.{uart_putc, uart_puts}
use hydra_microkernal.Varargs.{
  Argument, number, text, null, number_arg, rest_args, followed_by, to_char,
}
use hydra_microkernal.Libc.Stdlib.{digit}

-- `buf[32]`
abbrev pub buffer_size : ℕ
buffer_size = 32

-- The loop that stores the digits from offset `i` on, the last one first: the buffer, and the offset behind them. A write behind the buffer
-- ends it, so that fuel for 33 rounds is enough.
unfoldable pub store_digits : ℕ → ℕ → ℕ → ℕ → Bytes → Option (Bytes × ℕ)
store_digits zero num base i buf = none
store_digits (suc fuel) num base i buf =
    let rest = store_digits fuel (num / base) base (suc i) (update buf i (digit (num % base))) in
    if num == 0 then some (buf, i) else if ltb i buffer_size then rest else none

-- `while (i--)`
unfoldable pub put_stored : ℕ → Bytes → List ℕ
unfolding uart_putc
put_stored zero buf = []
put_stored (suc i) buf = uart_putc (buf i) ++ put_stored i buf

abbrev pub put_all_stored : Option (Bytes × ℕ) → Option (List ℕ)
put_all_stored none = none
put_all_stored (some (buf, i)) = some (put_stored i buf)

unfoldable pub print_num : ℕ → ℕ → Option (List ℕ)
unfolding store_digits put_stored uart_putc
print_num num base =
    if num == 0 then some (uart_putc 48) else put_all_stored (store_digits 33 num base 0 (λ i. 0))

-- A number that is converted to `unsigned long`, from `bits` bits.
abbrev pub print_number : ℕ → ℕ → Option ℤ → Option (List ℕ)
print_number bits base none = none
print_number bits base (some x) = print_num (low_bits (2 ^ bits) x) base

abbrev pub print_char : Option ℤ → Option (List ℕ)
print_char none = none
print_char (some x) = some (uart_putc (to_char x))

abbrev pub print_string : List Argument → Option (List ℕ)
print_string [] = none
print_string (number x ∷ args) = none
print_string (text s ∷ args) = some (uart_puts s)
print_string (null ∷ args) = none

-- Where `p` stands: before a character, behind a '%', or behind "%l".
pub data Place : Type 0 where
  plain : Place
  percent : Place
  long : Place

-- The loop of `printk`.
unfoldable pub printk_from : Place → List ℕ → List Argument → Option (List ℕ)
unfolding print_num uart_putc uart_puts
printk_from plain [] args = some []
printk_from percent [] args = none
printk_from long [] args = none
printk_from plain (c ∷ fmt) args = elim (c == 37) [
  | true ↦ printk_from percent fmt args
  | false ↦ followed_by (some (uart_putc c)) (printk_from plain fmt args)
]
printk_from percent (c ∷ fmt) args =
    let taken = printk_from plain fmt (rest_args args) in
    let kept = printk_from plain fmt args in
    if c == 99
    then followed_by (print_char (number_arg args)) taken
    else if c == 115
    then followed_by (print_string args) taken
    else if c == 100
    then followed_by (print_number 64 10 (number_arg args)) taken
    else if c == 105
    then followed_by (print_number 64 10 (number_arg args)) taken
    else if c == 120
    then followed_by (print_number 32 16 (number_arg args)) taken
    else if c == 108
    then printk_from long fmt args
    else if c == 37
    then followed_by (some (uart_putc 37)) kept
    else followed_by (some (uart_putc 37 ++ uart_putc c)) kept
printk_from long (c ∷ fmt) args =
    let taken = printk_from plain fmt (rest_args args) in
    let kept = printk_from plain fmt args in
    if c == 120
    then followed_by (print_number 64 16 (number_arg args)) taken
    else if c == 100
    then followed_by (print_number 64 10 (number_arg args)) taken
    else followed_by (some (uart_putc 37 ++ uart_putc 108 ++ uart_putc c)) kept

unfoldable pub printk : List ℕ → List Argument → Option (List ℕ)
unfolding printk_from
printk fmt args = printk_from plain fmt args
