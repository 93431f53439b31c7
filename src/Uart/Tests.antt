-- ===== src/Uart/Tests.antt =====
-- The theorems about kernal/uart.c at a small buffer.
use hydra_microkernal.Prelude.{◌≡◌, refl, [], ◌∷◌, ◌++◌, take, arith}
use hydra_microkernal.Uart.{Uart, buffer_size, uart_interrupt_handler, uart_puts}
use hydra_microkernal.Uart.Ring.{IsRing, waiting, uart_interrupt_handler-IsRing}

-- One byte, 65, waits in the last place of the buffer.
abbrev one_waiting : Uart
one_waiting = record {
  input_buffer = λ i. 65;
  buffer_head = 0;
  buffer_tail = 255;
  buffer_count = 1;
}

one_waiting-IsRing : IsRing one_waiting
one_waiting-IsRing = omega arith

uart_interrupt_handler-IsRing_example :
    IsRing (uart_interrupt_handler one_waiting (66 ∷ 67 ∷ []))
    × (waiting (uart_interrupt_handler one_waiting (66 ∷ 67 ∷ []))
        ≡ take buffer_size (waiting one_waiting ++ 66 ∷ 67 ∷ []))
uart_interrupt_handler-IsRing_example =
    uart_interrupt_handler-IsRing (66 ∷ 67 ∷ []) one_waiting-IsRing

-- A newline is followed by a carriage return.
newline : uart_puts (104 ∷ 10 ∷ []) ≡ 104 ∷ 10 ∷ 13 ∷ []
unfolding uart_puts
newline = refl
