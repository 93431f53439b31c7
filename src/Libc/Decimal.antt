-- ===== src/Libc/Decimal.antt =====
-- Decimal numbers through `itoa` and `atoi` of lib/libc/stdlib.c.

use hydra_microkernal.Prelude.{
  not_eq, ℕ, zero, suc, ◌+◌, ◌-◌, ◌*◌, ◌^◌, ◌≤◌, ◌<◌, ◌≡◌, ◌≢◌, refl, sym, ap, ◌∙◌, true, false,
  Option, some, ℤ, pos, negsuc, update, update_self, lt→ltb, Bytes, arith,
}
use hydra_microkernal.Libc.Stdlib.{
  itoa, is_digit, digits_from, is_space, skip_space, signed, atoi_from, atoi,
}
use hydra_microkernal.Libc.Strings.{IsString}
use hydra_microkernal.Libc.Digits.{shift, place, IsNumber, put_digits-IsWritten, finished-IsNumber}

shift-le : (k v : ℕ) → shift k v ≤ v
unfolding shift
shift-le zero v = omega arith
shift-le (suc k) v = omega (arith, shift-le k v)

shift-digit : (k v : ℕ) → shift (suc k) v * 10 + place k v ≡ shift k v
unfolding shift
shift-digit k v = omega arith

digit-value : (c d : ℕ) → c ≡ 48 + d → c - 48 ≡ d
digit-value c d e = omega arith

is_digit-char : (c d : ℕ) → c ≡ 48 + d → d < 10 → is_digit c ≡ true
is_digit-char c d e h = ground arith

digits_from-digit :
    (fuel i acc d : ℕ) (str : Bytes)
    → str i ≡ 48 + d
    → d < 10
    → acc * 10 + d < 2 ^ 31
    → digits_from (suc fuel) i acc str ≡ digits_from fuel (suc i) (acc * 10 + d) str
unfolding digits_from
digits_from-digit fuel i acc d str e small room =
    rw
      (
        digit-value (str i) d e,
        is_digit-char (str i) d e small,
        lt→ltb (acc * 10 + d) (2 ^ 31) room,
      )
      refl

digits_from-end :
    (fuel i acc : ℕ) (str : Bytes) → str i ≡ 0 → digits_from (suc fuel) i acc str ≡ some acc
unfolding digits_from
digits_from-end fuel i acc str e = rw e refl

-- The loop of `atoi` over `m` digits that are left of `v`.
digits_from-shift :
    (m fuel i v : ℕ) (str : Bytes)
    → ((k : ℕ) → k < m → str (i + k) ≡ 48 + place (m - 1 - k) v)
    → str (i + m) ≡ 0
    → v < 2 ^ 31
    → m < fuel
    → digits_from fuel i (shift m v) str ≡ some v
digits_from-shift m zero i v str digits end small h = absurd (omega arith)
digits_from-shift zero (suc fuel) i v str digits end small h =
    unfold shift in digits_from-end fuel i v str (ap str (omega arith) ∙ end)
digits_from-shift (suc m) (suc fuel) i v str digits end small h =
    digits_from-digit fuel i (shift (suc m) v) (place m v) str
      (ap str (omega arith) ∙ digits 0 (omega arith) ∙ ap (λ k. 48 + place k v) (omega arith))
      (omega arith) (omega (arith, shift-digit m v, shift-le m v))
    ∙ ap (λ acc. digits_from fuel (suc i) acc str) (shift-digit m v)
    ∙ digits_from-shift m fuel (suc i) v str
        (λ k less.
          ap str (omega arith)
          ∙ digits (suc k) (omega arith)
          ∙ ap (λ q. 48 + place q v) (omega arith))
        (ap str (omega arith) ∙ end) small (omega arith)

-- A string that starts with a digit: no white space and no sign.
skip_space-visible :
    (fuel : ℕ) (str : Bytes) (c : ℕ)
    → str 0 ≡ c
    → is_space c ≡ false
    → 0 < fuel
    → skip_space fuel 0 str ≡ some 0
unfolding skip_space
skip_space-visible zero str c e h p = absurd (omega arith)
skip_space-visible (suc fuel) str c e h p = rw (e, h) refl

is_space-digit : (d : ℕ) → is_space (48 + d) ≡ false
is_space-digit d = ground arith

atoi_from-digit :
    (fuel d : ℕ) (str : Bytes)
    → str 0 ≡ 48 + d
    → atoi_from fuel 0 str ≡ signed false (digits_from fuel 0 0 str)
unfolding atoi_from
atoi_from-digit fuel d str e =
    rw (e, not_eq (48 + d) 45 (omega arith), not_eq (48 + d) 43 (omega arith)) refl

atoi_from-minus :
    (fuel : ℕ) (str : Bytes)
    → str 0 ≡ 45
    → atoi_from fuel 0 str ≡ signed true (digits_from fuel 1 0 str)
unfolding atoi_from
atoi_from-minus fuel str e = rw e refl

atoi-visible :
    (fuel : ℕ) (str : Bytes) (c : ℕ)
    → str 0 ≡ c
    → is_space c ≡ false
    → 0 < fuel
    → atoi fuel str ≡ atoi_from fuel 0 str
unfolding atoi
atoi-visible fuel str c e h p = rw (skip_space-visible fuel str c e h p, atoi) refl

digit-ne : (c d : ℕ) → c ≡ 48 + d → c ≢ 0
digit-ne c d e = omega (arith, e)

-- The absolute value.
abbrev pub magnitude : ℤ → ℕ
magnitude (pos n) = n
magnitude (negsuc n) = suc n

-- A string of `n` characters that `atoi` reads as `x`, with fuel for more characters than it has.
pub record IsPrinted (x : ℤ) (run : Option Bytes) : Type 0 where
  pub n : ℕ
  pub out : Bytes
  pub returns : run ≡ some out
  pub string : IsString out 0 n
  pub reads : (fuel : ℕ) → n < fuel → atoi fuel out ≡ some x

IsNumber-IsPrinted :
    {run : Option Bytes} {v : ℕ} {str : Bytes}
    → v < 2 ^ 31
    → IsNumber run v 0 str
    → IsPrinted (pos v) run
IsNumber-IsPrinted {run} {v} {str} small w = record {
  n = w.n;
  out = w.out;
  returns = w.returns;
  string = record {
    end = w.end;
    before = λ j a b.
        digit-ne (w.out j) (place (w.n - 1 - j) v)
          (ap w.out (omega arith) ∙ w.digits j (omega arith));
  };
  reads = λ fuel h.
      let first = w.digits 0 w.nonempty in
      let d = place (w.n - 1 - 0) v in
      atoi-visible fuel w.out (48 + d) first (is_space-digit d) (omega arith)
      ∙ atoi_from-digit fuel d w.out first
      ∙ ap (λ acc. signed false (digits_from fuel 0 acc w.out)) (sym w.gone)
      ∙ ap (signed false) (digits_from-shift w.n fuel 0 v w.out w.digits w.end small h);
}

signed-ne :
    (n : ℕ) (out : Bytes) (d : ℕ → ℕ)
    → out 0 ≡ 45
    → ((k : ℕ) → k < n → out (1 + k) ≡ 48 + d k)
    → (j : ℕ) → 0 ≤ j
    → j < 0 + suc n
    → out j ≢ 0
signed-ne n out d minus digits zero a b = omega (arith, minus)
signed-ne n out d minus digits (suc j) a b =
    digit-ne (out (suc j)) (d j) (ap out (omega arith) ∙ digits j (omega arith))

IsNumber-IsPrinted_minus :
    {run : Option Bytes} {v : ℕ} {str : Bytes}
    → suc v < 2 ^ 31
    → str 0 ≡ 45
    → IsNumber run (suc v) 1 str
    → IsPrinted (negsuc v) run
IsNumber-IsPrinted_minus {run} {v} {str} small minus w = record {
  n = suc w.n;
  out = w.out;
  returns = w.returns;
  string = record {
    end = ap w.out (omega arith) ∙ w.end;
    before =
        signed-ne w.n w.out (λ k. place (w.n - 1 - k) (suc v)) (w.before 0 (omega arith) ∙ minus)
          w.digits;
  };
  reads = λ fuel h.
      let first = w.before 0 (omega arith) ∙ minus in
      atoi-visible fuel w.out 45 first refl (omega arith)
      ∙ atoi_from-minus fuel w.out first
      ∙ ap (λ acc. signed true (digits_from fuel 1 acc w.out)) (sym w.gone)
      ∙ ap (signed true)
          (digits_from-shift w.n fuel 1 (suc v) w.out w.digits w.end small (omega arith));
}

-- For every number between -(2^31 - 1) and 2^31 - 1, `itoa` with base 10 writes a string, with a 0 at its end and none
-- before, that `atoi` reads as the number.
pub atoi-itoa : (x : ℤ) (str : Bytes) → magnitude x < 2 ^ 31 → IsPrinted x (itoa x str 10)
unfolding itoa
atoi-itoa (pos n) str h =
    IsNumber-IsPrinted h (finished-IsNumber (put_digits-IsWritten (suc n) n 0 str (omega arith)))
atoi-itoa (negsuc n) str h = rw (lt→ltb (suc n) (2 ^ 31) h) (
    IsNumber-IsPrinted_minus h (update_self str 0 45) (
      finished-IsNumber
        (put_digits-IsWritten (suc (suc n)) (suc n) 1 (update str 0 45) (omega arith))))
