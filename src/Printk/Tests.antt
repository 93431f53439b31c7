-- ===== src/Printk/Tests.antt =====
-- The theorems about kernal/printk.c at short formats.
use hydra_microkernal.Prelude.{ℕ, ◌≡◌, refl, some, none, negsuc, List, [], ◌∷◌, ◌++◌, arith}
use hydra_microkernal.Uart.{uart_puts}
use hydra_microkernal.Varargs.{number}
use hydra_microkernal.Printk.{printk, print_num}
use hydra_microkernal.Printk.Numbers.{IsNumeral}
use hydra_microkernal.Printk.Output.{printk-uart_puts, printk-int, printed}

-- "beef"
hexadecimal : print_num 48879 16 ≡ some (98 ∷ 101 ∷ 101 ∷ 102 ∷ [])
unfolding print_num
hexadecimal = refl

exclamation : printk (33 ∷ []) [] ≡ some (33 ∷ [])
unfolding uart_puts
exclamation = printk-uart_puts (33 ∷ []) [] (omega arith, tt)

-- "%d!" with -1 is 18446744073709551615!
printk-int_example :
    (out : List ℕ) × (printk (37 ∷ 100 ∷ 33 ∷ []) (number (negsuc 0) ∷ []) ≡ some (out ++ 33 ∷ []))
    × IsNumeral 10 (printed (negsuc 0)) out
printk-int_example = printk-int (negsuc 0) (33 ∷ []) (33 ∷ []) [] (omega arith) exclamation

-- A '%' at the end of the format makes `printk` read behind it.
percent_at_end : printk (111 ∷ 37 ∷ []) [] ≡ none
unfolding printk
percent_at_end = refl
