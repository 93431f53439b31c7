-- ===== src/Printk/Output.antt =====
-- What `printk` of kernal/printk.c writes for texts and numbers.
use hydra_microkernal.Prelude.{
  not_eq, ℕ, suc, ◌-◌, ◌^◌, ◌<◌, ◌≡◌, ◌≢◌, refl, ap, some, ℤ, pos, negsuc, low_bits, List, [], ◌∷◌,
  ◌++◌, All, arith,
}
use hydra_microkernal.Uart.{uart_putc, uart_puts}
use hydra_microkernal.Varargs.{Argument, number, followed_by}
use hydra_microkernal.Printk.{printk_from, printk}
use hydra_microkernal.Printk.Numbers.{IsNumeral, print_num-Prints}

-- A format without '%' is written as `uart_puts` writes it, whatever the arguments.
pub printk-uart_puts :
    (fmt : List ℕ) (args : List Argument)
    → All (λ c. c ≢ 37) fmt
    → printk fmt args ≡ some (uart_puts fmt)
unfolding printk printk_from uart_puts
printk-uart_puts [] args h = refl
printk-uart_puts (c ∷ fmt) args h =
    rw (not_eq c 37 h.0, printk_from)
      (ap (followed_by (some (uart_putc c))) (printk-uart_puts fmt args h.1))

-- The value that `%d` prints for an `int`: the number itself, or 2^64 more for a negative one.
abbrev pub printed : ℤ → ℕ
printed (pos n) = n
printed (negsuc n) = 2 ^ 64 - suc n

abbrev pub IsInt : ℤ → Type 0
IsInt (pos n) = n < 2 ^ 31
IsInt (negsuc n) = n < 2 ^ 31

printed-low_bits : (x : ℤ) → IsInt x → low_bits (2 ^ 64) x ≡ printed x
printed-low_bits (pos n) h = omega arith
printed-low_bits (negsuc n) h = omega arith

low_bits-lt : (x : ℤ) → low_bits (2 ^ 64) x < 2 ^ 64
low_bits-lt (pos n) = omega arith
low_bits-lt (negsuc n) = omega arith

-- "%d" writes the decimal digits of its argument, which is an `int`, if that is not negative; of a negative one it writes
-- the digits of the number that is 2^64 larger, with no sign. What follows in the format is written behind them,
-- with the arguments that follow.
pub printk-int :
    (x : ℤ) (fmt rest : List ℕ) (args : List Argument)
    → IsInt x
    → printk fmt args ≡ some rest
    → (out : List ℕ) × (printk (37 ∷ 100 ∷ fmt) (number x ∷ args) ≡ some (out ++ rest))
      × IsNumeral 10 (printed x) out
unfolding printk printk_from
printk-int x fmt rest args h e =
    let r = print_num-Prints 10 (low_bits (2 ^ 64) x) (omega arith) (omega arith) (low_bits-lt x) in
    (r.out, rw (r.returns, e) refl, rw (← printed-low_bits x h) r.numeral)
