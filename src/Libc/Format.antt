-- ===== src/Libc/Format.antt =====
-- `printf` of lib/libc/stdio.c against its buffer, and against `sprintf`.
use hydra_microkernal.Prelude.{
  ℕ, ◌-◌, ◌≤◌, ◌<◌, ◌≡◌, refl, sym, subst, ◌∙◌, inl, inr, true, false, Bool-cases, Option, none,
  some, some-injective, List, [], ◌∷◌, ◌==◌, update_ne, Bytes, arith, dec_lt, lt→ltb, le→ltb,
}
use hydra_microkernal.Varargs.{Argument}
use hydra_microkernal.Libc.Stdio.{
  Piece, characters, unknown, undefined, piece, taken, Out, put, buffer_size, put_room,
  put_two_room, put_text, put_piece, format, terminated, printf_loop,
}

-- What `format` does with a directive, and with another character.
module _ (one : ℕ → Out → Out) (two : ℕ → ℕ → Out → Out) (c d : ℕ) (fmt : List ℕ)
    (args : List Argument) (o : Out) where
  pub format-plain :
      (c == 37) ≡ false
      → format one two (c ∷ d ∷ fmt) args o ≡ format one two (d ∷ fmt) args (one c o)
  unfolding format
  format-plain e = rw (e, format) refl

  pub format-percent :
      (run : Option Out)
      → (c == 37) ≡ true
      → put_piece one two (piece d args) o ≡ run
      → format one two (c ∷ d ∷ fmt) args o
        ≡ elim run [ none ↦ none | some o' ↦ format one two fmt (taken d args) o' ]
  unfolding format
  format-percent run e e' = rw (e, format) (rw e' refl)

-- What holds before holds behind the loop, if every write keeps it.
module _ (P : Out → Type 0) (one : ℕ → Out → Out) (two : ℕ → ℕ → Out → Out)
    (keeps : (c : ℕ) (o : Out) → P o → P (one c o))
    (keeps_two : (c d : ℕ) (o : Out) → P o → P (two c d o)) where
  put_text-keeps : (s : List ℕ) (o : Out) → P o → P (put_text one two s o)
  unfolding put_text
  put_text-keeps [] o p = p
  put_text-keeps (c ∷ s) o p = put_text-keeps s (one c o) (keeps c o p)

  put_piece-keeps : (x : Piece) {o o' : Out} → P o → put_piece one two x o ≡ some o' → P o'
  unfolding put_piece
  put_piece-keeps (characters s) {o} p e = subst P (some-injective e) (put_text-keeps s o p)
  put_piece-keeps (unknown d) {o} p e = subst P (some-injective e) (keeps_two 37 d o p)
  put_piece-keeps undefined p e = absurd (cc e)

  pub format-keeps :
      (fmt : List ℕ) (args : List Argument) {o o' : Out}
      → P o
      → format one two fmt args o ≡ some o'
      → P o'
  format-keeps [] args p e = unfold format in subst P (some-injective e) p
  format-keeps (c ∷ []) args {o} p e = unfold format in subst P (some-injective e) (keeps c o p)
  format-keeps (c ∷ d ∷ fmt) args {o} {o'} p e = elim (Bool-cases (c == 37)) [
    | inr plain ↦
        format-keeps (d ∷ fmt) args (keeps c o p)
          (sym (format-plain one two c d fmt args o plain) ∙ e)
    | inl percent ↦
        go (put_piece one two (piece d args) o) refl percent
          (λ o₁ q f. format-keeps fmt (taken d args) {o = o₁} q f)
  ]
    where
      go :
          (run : Option Out)
          → put_piece one two (piece d args) o ≡ run
          → (c == 37) ≡ true
          → ((o₁ : Out) → P o₁ → format one two fmt (taken d args) o₁ ≡ some o' → P o')
          → P o'
      go none e' percent rest =
          absurd (cc (sym (format-percent one two c d fmt args o none percent e') ∙ e))
      go (some o₁) e' percent rest =
          rest o₁ (put_piece-keeps (piece d args) p e')
            (sym (format-percent one two c d fmt args o (some o₁) percent e') ∙ e)

-- The state of `printf`'s buffer: the bytes and the count agree, there is room for the terminating zero, and nothing is written
-- behind it.
record Fits (before : Bytes) (o : Out) : Type 0 where
  room : o.used < buffer_size
  count : o.count ≡ o.used
  outside : (j : ℕ) → buffer_size ≤ j → o.buffer j ≡ before j

put-Fits :
    {before : Bytes} (c : ℕ) (o : Out)
    → Fits before o
    → o.used < buffer_size - 1
    → Fits before (put c o)
put-Fits c o f h = record {
  room = omega arith;
  count = omega (arith, f.count);
  outside = λ j out. update_ne o.buffer o.used j c (omega arith) ∙ f.outside j out;
}

put_room-Fits : {before : Bytes} (c : ℕ) (o : Out) → Fits before o → Fits before (put_room c o)
put_room-Fits {before} c o f = elim (dec_lt o.used (buffer_size - 1)) [
  | yes h ↦ rw (lt→ltb o.used (buffer_size - 1) h) (put-Fits c o f h)
  | no h ↦ rw (le→ltb o.used (buffer_size - 1) (omega arith)) f
]

put_two_room-Fits :
    {before : Bytes} (c d : ℕ) (o : Out) → Fits before o → Fits before (put_two_room c d o)
put_two_room-Fits {before} c d o f = elim (dec_lt o.used (buffer_size - 2)) [
  | yes h ↦
      rw (lt→ltb o.used (buffer_size - 2) h)
        (put-Fits d (put c o) (put-Fits c o f (omega arith)) (omega arith))
  | no h ↦ rw (le→ltb o.used (buffer_size - 2) (omega arith)) f
]

-- Whatever the format and the arguments, `printf` uses at most 1023 of the 1024 bytes of its buffer and counts
-- them, and neither its loop nor the terminating zero changes a byte behind the buffer.
pub printf_loop-bounds :
    (buffer : Bytes) (fmt : List ℕ) (args : List Argument) {o : Out}
    → printf_loop buffer fmt args ≡ some o
    → (o.used < buffer_size)
      × (o.count ≡ o.used)
      × ((j : ℕ) → buffer_size ≤ j → terminated o j ≡ buffer j)
unfolding printf_loop
printf_loop-bounds buffer fmt args {o} e =
    let f =
      format-keeps (Fits buffer) put_room put_two_room put_room-Fits put_two_room-Fits fmt args
        (record { room = omega arith; count = refl; outside = λ j h. refl }) e in
    (f.room, f.count, λ j h. update_ne o.buffer o.used j 0 (omega (arith, f.room)) ∙ f.outside j h)
