-- ===== src/Uart/Ring.antt =====
-- The input buffer of kernal/uart.c is a queue of at most 256 bytes that drops what does not fit.
use mathlib.Core.List.{append-nil, append_assoc}
use hydra_microkernal.Prelude.{
  ℕ, suc, ◌+◌, ◌-◌, ◌%◌, ◌≤◌, ◌<◌, ◌≡◌, ◌≢◌, refl, sym, ap, subst, ◌∙◌, List, [], ◌∷◌, ◌++◌, length,
  take, update, arith, dec_lt, ℕ_discrete, take-all, window, length-window, window-update,
  take-full, ◌⊎◌, inl, inr, if_eq, if_ne,
}
use hydra_microkernal.Uart.{Uart, buffer_size, uart_getc, receive_byte, uart_interrupt_handler}

-- The bytes that wait, oldest first.
abbrev pub waiting : Uart → List ℕ
waiting u = window buffer_size u.input_buffer u.buffer_tail u.buffer_count

pub record IsRing (u : Uart) : Type 0 where
  pub count : u.buffer_count ≤ buffer_size
  pub tail : u.buffer_tail < buffer_size
  pub head : u.buffer_head ≡ (u.buffer_tail + u.buffer_count) % buffer_size

receive_byte-room :
    {u : Uart} (c : ℕ)
    → IsRing u
    → u.buffer_count < buffer_size
    → IsRing (receive_byte u c) × (waiting (receive_byte u c) ≡ waiting u ++ c ∷ [])
receive_byte-room {u} c v h = rw (stores u c h) (
  record { count = omega arith; tail = v.tail; head = omega (arith, v.head) },
  ap (window buffer_size (update u.input_buffer u.buffer_head c) u.buffer_tail)
        {y = suc u.buffer_count} (omega arith)
      ∙ window-update buffer_size u.input_buffer u.buffer_tail u.buffer_count u.buffer_head c v.tail
          h v.head,
)
  where
    stores :
        (u : Uart) (c : ℕ)
        → u.buffer_count < buffer_size
        → receive_byte u c ≡ record u {
          input_buffer = update u.input_buffer u.buffer_head c;
          buffer_head = (u.buffer_head + 1) % buffer_size;
          buffer_count = u.buffer_count + 1;
        }
    stores u c h = unfold receive_byte in ground arith

receive_byte-full : (u : Uart) (c : ℕ) → buffer_size ≤ u.buffer_count → receive_byte u c ≡ u
unfolding receive_byte
receive_byte-full u c h = ground arith

-- On a well-formed ring (at most 256 bytes wait, the tail is below 256, and the head stands as many places behind it,
-- going round), `uart_interrupt_handler` leaves a well-formed ring; it appends the bytes that it reads, up to 256
-- in all, and drops the rest.
pub uart_interrupt_handler-IsRing :
    {u : Uart} (incoming : List ℕ)
    → IsRing u
    → IsRing (uart_interrupt_handler u incoming)
      × (waiting (uart_interrupt_handler u incoming) ≡ take buffer_size (waiting u ++ incoming))
unfolding uart_interrupt_handler
uart_interrupt_handler-IsRing {u} [] v = (
  v,
  rw (append-nil (waiting u)) (
      sym (
        take-all buffer_size (waiting u) (
          omega (
            arith,
            length-window buffer_size u.input_buffer u.buffer_tail u.buffer_count,
            v.count,
          )))),
)
uart_interrupt_handler-IsRing {u} (c ∷ incoming) v = elim (dec_lt u.buffer_count buffer_size) [
  | yes p ↦
      let one = receive_byte-room c v p in
      let rest = uart_interrupt_handler-IsRing {u = receive_byte u c} incoming one.0 in
      (
        rest.0,
        rest.1
            ∙ ap (λ l. take buffer_size (l ++ incoming)) one.1
            ∙ ap (take buffer_size) (append_assoc (waiting u) (c ∷ []) incoming),
      )
  | no p ↦
      let rest = uart_interrupt_handler-IsRing {u = u} incoming v in
      let size = length-window buffer_size u.input_buffer u.buffer_tail u.buffer_count in
      let full : length (waiting u) ≡ buffer_size = omega (arith, size, v.count) in
      subst
        (λ w.
          IsRing (uart_interrupt_handler w incoming)
          × (waiting (uart_interrupt_handler w incoming)
              ≡ take buffer_size (waiting u ++ c ∷ incoming)))
        (sym (receive_byte-full u c (omega arith)))
        (
          rest.0,
          rest.1
              ∙ take-full buffer_size (waiting u) incoming full
              ∙ sym (take-full buffer_size (waiting u) (c ∷ incoming) full),
        )
]

getc-empty : (u : Uart) → u.buffer_count ≡ 0 → uart_getc u ≡ (0, u)
unfolding uart_getc
getc-empty u e = if_eq u.buffer_count 0 _ _ e

getc-next :
    (u : Uart)
    → u.buffer_count ≢ 0
    → uart_getc u ≡ (
      u.input_buffer u.buffer_tail,
      record u {
        buffer_tail = (u.buffer_tail + 1) % buffer_size;
        buffer_count = u.buffer_count - 1;
      },
    )
unfolding uart_getc
getc-next u e = if_ne u.buffer_count 0 _ _ e

-- `uart_getc` keeps the ring; with nothing waiting it returns 0 and changes nothing, and otherwise it
-- returns the oldest byte and leaves the others waiting in their order.
pub uart_getc-IsRing :
    {u : Uart}
    → IsRing u
    → IsRing (uart_getc u).1
      × (((waiting u ≡ []) × (uart_getc u ≡ (0, u)))
          ⊎ (waiting u ≡ (uart_getc u).0 ∷ waiting (uart_getc u).1))
uart_getc-IsRing {u} v = elim (ℕ_discrete u.buffer_count 0) [
  | yes e ↦
      rw (getc-empty u e) (v, inl (ap (window buffer_size u.input_buffer u.buffer_tail) e, refl))
  | no ne ↦ rw (getc-next u ne) (
    record { count = omega arith; tail = omega arith; head = omega (arith, v.head) },
    inr (
        ap (window buffer_size u.input_buffer u.buffer_tail) {y = suc (u.buffer_count - 1)}
          (omega arith)),
  )
]
