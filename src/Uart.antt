-- ===== src/Uart.antt =====
-- kernal/uart.h and kernal/uart.c: the ring buffer of the serial input. The registers of the device are the
-- environment: the handler is given the bytes that it reads while the status register says that data
-- is ready, and output is the list of bytes written to the transmit register. The three `int`
-- variables start at 0 and stay between 0 and the buffer's size, so they are natural numbers.
pub mod Ring
mod Tests
use hydra_microkernal.Prelude.{
  ℕ, ◌+◌, ◌-◌, ◌%◌, ◌≡◌, refl, Bool, List, [], ◌∷◌, ◌++◌, ltb, ◌==◌, if◌then◌else◌, update,
}

-- UART_BUFFER_SIZE
abbrev pub buffer_size : ℕ
buffer_size = 256

-- `input_buffer`, `buffer_head`, `buffer_tail` and `buffer_count`.
pub record Uart : Type 0 where
  pub input_buffer : ℕ → ℕ
  pub buffer_head : ℕ
  pub buffer_tail : ℕ
  pub buffer_count : ℕ

unfoldable pub uart_init : Uart → Uart
uart_init u = record u { buffer_head = 0; buffer_tail = 0; buffer_count = 0 }

-- The bytes that `uart_putc` writes; a newline is followed by a carriage return.
unfoldable pub uart_putc : ℕ → List ℕ
uart_putc c = if c == 10 then c ∷ 13 ∷ [] else c ∷ []

-- The string is the bytes before its terminating zero.
unfoldable pub uart_puts : List ℕ → List ℕ
unfolding uart_putc
uart_puts [] = []
uart_puts (c ∷ s) = uart_putc c ++ uart_puts s

unfoldable pub uart_has_data : Uart → Bool
uart_has_data u = ltb 0 u.buffer_count

-- 0 if there is no data.
unfoldable pub uart_getc : Uart → ℕ × Uart
uart_getc u = if u.buffer_count == 0 then (0, u) else (
  u.input_buffer u.buffer_tail,
  record u { buffer_tail = (u.buffer_tail + 1) % buffer_size; buffer_count = u.buffer_count - 1 },
)

-- One round of the loop of `uart_interrupt_handler`.
unfoldable pub receive_byte : Uart → ℕ → Uart
receive_byte u c =
    if ltb u.buffer_count buffer_size
    then record u {
      input_buffer = update u.input_buffer u.buffer_head c;
      buffer_head = (u.buffer_head + 1) % buffer_size;
      buffer_count = u.buffer_count + 1;
    }
    else u

unfoldable pub uart_interrupt_handler : Uart → List ℕ → Uart
uart_interrupt_handler u [] = u
uart_interrupt_handler u (c ∷ incoming) = uart_interrupt_handler (receive_byte u c) incoming
