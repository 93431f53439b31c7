-- ===== src/Libc/Room.antt =====
-- `printf` and `sprintf` of lib/libc/stdio.c, and what `printf` writes.
use hydra_microkernal.Prelude.{
  ℕ, ◌+◌, ◌-◌, ◌≤◌, ◌<◌, ◌≡◌, refl, sym, ap, ◌∙◌, inl, inr, true, Bool-cases, Option, none, some,
  some-injective, List, [], ◌∷◌, length, ◌==◌, Bytes, prefix, arith, if_lt,
}
use hydra_microkernal.Varargs.{Argument}
use hydra_microkernal.Libc.Stdio.{
  Piece, characters, unknown, undefined, piece, taken, Out, put, put_two, buffer_size, put_room,
  put_two_room, put_text, put_piece, format, terminated, printf_loop, sprintf_loop, with_result,
  printf,
}
use hydra_microkernal.Libc.Format.{format-plain, format-percent, format-keeps}
use hydra_microkernal.Hydra.Console.{precision_format, syscall_write-format}

-- The steps of `sprintf` as those of `printf`, while there is room.
put_text-used : (s : List ℕ) (o : Out) → (put_text put put_two s o).used ≡ o.used + length s
unfolding put_text
put_text-used [] o = omega arith
put_text-used (c ∷ s) o = omega (arith, put_text-used s (put c o))

put_room-put : (c : ℕ) (o : Out) → o.used < buffer_size - 1 → put_room c o ≡ put c o
put_room-put c o h = if_lt o.used (buffer_size - 1) _ _ h

put_text-same :
    (s : List ℕ) (o : Out)
    → o.used + length s < buffer_size
    → put_text put_room put_two_room s o ≡ put_text put put_two s o
unfolding put_text
put_text-same [] o h = refl
put_text-same (c ∷ s) o h =
    ap (put_text put_room put_two_room s) (put_room-put c o (omega arith))
    ∙ put_text-same s (put c o) (omega arith)

-- `sprintf` moves its pointer forward only.
format-later :
    (n : ℕ) (fmt : List ℕ) (args : List Argument) (o o' : Out)
    → n ≤ o.used
    → format put put_two fmt args o ≡ some o'
    → n ≤ o'.used
format-later n fmt args o o' h e =
    format-keeps (λ o. n ≤ o.used) put put_two (λ c o p. omega arith) (λ c d o p. omega arith) fmt
      args h e

put_piece-same :
    (x : Piece) (o o' : Out)
    → put_piece put put_two x o ≡ some o'
    → o'.used < buffer_size
    → put_piece put_room put_two_room x o ≡ some o'
unfolding put_piece
put_piece-same (characters s) o o' e h =
    ap some (put_text-same s o (room (some-injective e) (put_text-used s o))) ∙ e
  where
    room :
        put_text put put_two s o ≡ o'
        → (put_text put put_two s o).used ≡ o.used + length s
        → o.used + length s < buffer_size
    room f g = omega (arith, ap (λ (q : Out). q.used) f, g, h)
put_piece-same (unknown d) o o' e h =
    ap some (if_lt o.used (buffer_size - 2) _ _ (room (some-injective e))) ∙ e
  where
    room : put_two 37 d o ≡ o' → o.used < buffer_size - 2
    room f = omega (arith, ap (λ (q : Out). q.used) f, h)
put_piece-same undefined o o' e h = absurd (cc e)

-- While the text of `sprintf` fits, the loop of `printf` does the same.
format-same :
    (fmt : List ℕ) (args : List Argument) (o o' : Out)
    → format put put_two fmt args o ≡ some o'
    → o'.used < buffer_size
    → format put_room put_two_room fmt args o ≡ some o'
format-same [] args o o' e h = unfold format in e
format-same (c ∷ []) args o o' e h =
    unfold format in
    ap some (put_room-put c o (omega (arith, ap (λ (q : Out). q.used) (some-injective e), h))) ∙ e
format-same (c ∷ d ∷ fmt) args o o' e h = elim (Bool-cases (c == 37)) [
  | inr plain ↦
      let next = sym (format-plain put put_two c d fmt args o plain) ∙ e in
      let later = format-later (o.used + 1) (d ∷ fmt) args (put c o) o' (omega arith) next in
      format-plain put_room put_two_room c d fmt args o plain
      ∙ ap (format put_room put_two_room (d ∷ fmt) args)
          (put_room-put c o (omega (arith, later, h)))
      ∙ format-same (d ∷ fmt) args (put c o) o' next h
  | inl percent ↦
      go (put_piece put put_two (piece d args) o) refl percent
        (λ o₁ f. format-same fmt (taken d args) o₁ o' f h)
]
  where
    go :
        (run : Option Out)
        → put_piece put put_two (piece d args) o ≡ run
        → (c == 37) ≡ true
        → ((o₁ : Out)
            → format put put_two fmt (taken d args) o₁ ≡ some o'
            → format put_room put_two_room fmt (taken d args) o₁ ≡ some o')
        → format put_room put_two_room (c ∷ d ∷ fmt) args o ≡ some o'
    go none e' percent rest =
        absurd (cc (sym (format-percent put put_two c d fmt args o none percent e') ∙ e))
    go (some o₁) e' percent rest =
        let next = sym (format-percent put put_two c d fmt args o (some o₁) percent e') ∙ e in
        let later = format-later o₁.used fmt (taken d args) o₁ o' (omega arith) next in
        format-percent put_room put_two_room c d fmt args o (some o₁) percent
          (put_piece-same (piece d args) o o₁ e' (omega (arith, later, h)))
        ∙ rest o₁ next

-- If what `sprintf` writes has fewer than 1024 bytes, `printf` builds the same text in its buffer, and counts the same
-- number of bytes.
pub printf_loop-sprintf_loop :
    (str : Bytes) (fmt : List ℕ) (args : List Argument) (o : Out)
    → sprintf_loop str fmt args ≡ some o
    → o.used < buffer_size
    → printf_loop str fmt args ≡ some o
unfolding sprintf_loop printf_loop
printf_loop-sprintf_loop str fmt args o e h = format-same fmt args _ o e h

-- Whatever `printf` builds, it writes the four characters "%.*s" on the serial line, since `printk` knows no precision, and returns
-- the number of bytes that it built.
pub printf-output :
    (buffer : Bytes) (fmt : List ℕ) (args : List Argument) {o : Out}
    → printf_loop buffer fmt args ≡ some o
    → printf buffer fmt args ≡ some (precision_format, o.count)
unfolding printf
printf-output buffer fmt args {o} e =
    rw (e, printf)
      (ap (λ out. with_result out o.count)
        (syscall_write-format (prefix o.used (terminated o)) o.used))
