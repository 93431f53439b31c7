-- ===== src/Hydra/Console.antt =====
-- The wrappers for input and output of lib/libhydra/syscall_user.c, which use `printk` and `uart_getc` of the kernal directory. Output is the
-- list of bytes on the serial line.
use hydra_microkernal.Prelude.{
  ℕ, ◌≡◌, refl, Option, some, ℤ, pos, to_int, List, [], ◌∷◌, ltb, if◌then◌else◌, update, Bytes,
}
use hydra_microkernal.Uart.{Uart, uart_putc, uart_getc}
use hydra_microkernal.Varargs.{number, text}
use hydra_microkernal.Printk.{printk_from, printk}

-- "%.*s"
abbrev pub precision_format : List ℕ
precision_format = 37 ∷ 46 ∷ 42 ∷ 115 ∷ []

unfoldable pub syscall_write : List ℕ → ℕ → Option (List ℕ)
unfolding printk
syscall_write str len = printk precision_format (number (to_int (pos len)) ∷ text str ∷ [])

-- The buffer behind the call, the result, and the serial input.
unfoldable pub syscall_read : Bytes → ℕ → Uart → Bytes × ℤ × Uart
syscall_read buffer max_len u =
    let (c, u') = uart_getc u in
    if ltb 0 max_len then (update buffer 0 c, pos 1, u') else (buffer, pos 0, u)

-- `printk` knows no precision: whatever is to be written, `syscall_write` writes the four characters of its format.
pub syscall_write-format : (str : List ℕ) (len : ℕ) → syscall_write str len ≡ some precision_format
unfolding syscall_write printk_from uart_putc
syscall_write-format str len = refl
