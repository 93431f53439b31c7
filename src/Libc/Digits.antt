-- ===== src/Libc/Digits.antt =====
-- The digits that `itoa` of lib/libc/stdlib.c writes.

use hydra_microkernal.Prelude.{
  ℕ, zero, suc, ◌+◌, ◌-◌, ◌/◌, ◌%◌, ◌≤◌, ◌<◌, ◌≡◌, ◌≢◌, refl, sym, ap, ◌∙◌, ◌⊎◌, inl, inr, Option,
  some, update, update_self, update_ne, Bytes, arith, ℕ_discrete, if_eq, if_ne, dec_lt,
}
use hydra_microkernal.Libc.Stdlib.{digit, put_digits, reverse, finished}

-- `v` without its last `k` digits.
unfoldable pub shift : ℕ → ℕ → ℕ
shift zero v = v
shift (suc k) v = shift k v / 10

-- The digit of `v` at place `k`.
abbrev pub place : ℕ → ℕ → ℕ
place k v = shift k v % 10

shift-next : (k v : ℕ) → shift k (v / 10) ≡ shift (suc k) v
unfolding shift
shift-next zero v = refl
shift-next (suc k) v = ap (λ n. n / 10) (shift-next k v)

-- The string after the first loop of `itoa`: the `n` digits of `v` from offset `p` on, the last one first.
pub record IsWritten (run : Option (Bytes × ℕ)) (v p : ℕ) (str : Bytes) : Type 0 where
  pub n : ℕ
  pub out : Bytes
  pub returns : run ≡ some (out, p + n)
  pub nonempty : 0 < n
  pub digits : (k : ℕ) → k < n → out (p + k) ≡ 48 + place k v
  pub gone : shift n v ≡ 0
  pub before : (j : ℕ) → j < p → out j ≡ str j

digit-small : (d : ℕ) → d < 10 → digit d ≡ 48 + d
digit-small d h = ground arith

digit-first :
    (v p : ℕ) (out : Bytes) (x : ℕ) → out p ≡ digit (v % 10) → x ≡ p → out x ≡ 48 + place 0 v
unfolding shift
digit-first v p out x e same = ap out same ∙ e ∙ digit-small (v % 10) (omega arith)

one-digit :
    (v p : ℕ) (str : Bytes) (k : ℕ) → k < 1 → update str p (digit (v % 10)) (p + k) ≡ 48 + place k v
one-digit v p str zero h =
    digit-first v p (update str p (digit (v % 10))) (p + 0) (update_self str p _) (omega arith)
one-digit v p str (suc k) h = absurd (omega arith)

more-digits :
    (v p n : ℕ) (out : Bytes)
    → out p ≡ digit (v % 10)
    → ((k : ℕ) → k < n → out (suc p + k) ≡ 48 + place k (v / 10))
    → (k : ℕ) → k < suc n
    → out (p + k) ≡ 48 + place k v
more-digits v p n out e rest zero h = digit-first v p out (p + 0) e (omega arith)
more-digits v p n out e rest (suc k) h =
    ap out (omega arith) ∙ rest k (omega arith) ∙ ap (λ m. 48 + m % 10) (shift-next k v)

pub put_digits-IsWritten :
    (fuel v p : ℕ) (str : Bytes) → v < fuel → IsWritten (put_digits fuel 10 v p str) v p str
unfolding put_digits shift
put_digits-IsWritten zero v p str h = absurd (omega arith)
put_digits-IsWritten (suc fuel) v p str h = elim (ℕ_discrete (v / 10) 0) [
  | yes e ↦ record {
    n = 1;
    out = update str p (digit (v % 10));
    returns =
        if_eq (v / 10) 0 _ _ e
        ∙ ap (λ q. some (update str p (digit (v % 10)), q)) {y = p + 1} (omega arith);
    nonempty = omega arith;
    digits = one-digit v p str;
    gone = e;
    before = λ j less. update_ne str p j _ (omega arith);
  }
  | no ne ↦
      let rest =
        put_digits-IsWritten fuel (v / 10) (suc p) (update str p (digit (v % 10))) (omega arith) in
      record {
        n = suc rest.n;
        out = rest.out;
        returns =
            if_ne (v / 10) 0 _ _ ne ∙ rest.returns ∙ ap (λ q. some (rest.out, q)) (omega arith);
        nonempty = omega arith;
        digits =
            more-digits v p rest.n rest.out
              (rest.before p (omega arith) ∙ update_self str p (digit (v % 10))) rest.digits;
        gone = sym (shift-next rest.n v) ∙ rest.gone;
        before = λ j less. rest.before j (omega arith) ∙ update_ne str p j _ (omega arith);
      }
]

-- The string with the bytes between `i` and `j` exchanged.
swap : ℕ → ℕ → Bytes → Bytes
swap i j str = update (update str j (str i)) i (str j)

reverse-step :
    (n i j : ℕ) (str : Bytes)
    → i < j
    → reverse (suc n) i j str ≡ reverse n (suc i) (j - 1) (swap i j str)
unfolding reverse swap
reverse-step n i j str h = ground arith

reverse-stop : (n i j : ℕ) (str : Bytes) → j ≤ i → reverse n i j str ≡ str
unfolding reverse
reverse-stop zero i j str h = refl
reverse-stop (suc n) i j str h = ground arith

swap_first : (i j : ℕ) (str : Bytes) → swap i j str i ≡ str j
unfolding swap
swap_first i j str = ground arith

swap_second : (i j : ℕ) (str : Bytes) → swap i j str j ≡ str i
unfolding swap
swap_second i j str = ground arith

swap_other : (i j x : ℕ) (str : Bytes) → x ≢ i → x ≢ j → swap i j str x ≡ str x
unfolding swap
swap_other i j x str a b = ground arith

reverse-outside :
    (n i j : ℕ) (str : Bytes) (x : ℕ) → (x < i) ⊎ (j < x) → reverse n i j str x ≡ str x
reverse-outside zero i j str x h = unfold reverse in refl
reverse-outside (suc n) i j str x h = elim (dec_lt i j) [
  | yes less ↦
      ap (λ f. f x) (reverse-step n i j str less)
      ∙ reverse-outside n (suc i) (j - 1) (swap i j str) x (ground arith)
      ∙ swap_other i j x str (ground arith) (ground arith)
  | no more ↦ ap (λ f. f x) (reverse-stop (suc n) i j str (omega arith))
]

reverse-within :
    (n i j : ℕ) (str : Bytes) (x : ℕ)
    → i ≤ x
    → x ≤ j
    → j ≤ i + n
    → reverse n i j str x ≡ str (i + j - x)
reverse-within zero i j str x p q enough =
    ap (λ f. f x) (reverse-stop zero i j str (omega arith)) ∙ ap str (omega arith)
reverse-within (suc n) i j str x p q enough = elim (dec_lt i j) [
  | no more ↦ ap (λ f. f x) (reverse-stop (suc n) i j str (omega arith)) ∙ ap str (omega arith)
  | yes less ↦ ap (λ f. f x) (reverse-step n i j str less) ∙ elim (ℕ_discrete x i) [
    | yes e ↦
        reverse-outside n (suc i) (j - 1) (swap i j str) x (inl (omega arith))
        ∙ ap (swap i j str) e
        ∙ swap_first i j str
        ∙ ap str (omega arith)
    | no not_first ↦ elim (ℕ_discrete x j) [
      | yes e ↦
          reverse-outside n (suc i) (j - 1) (swap i j str) x (inr (omega arith))
          ∙ ap (swap i j str) e
          ∙ swap_second i j str
          ∙ ap str (omega arith)
      | no not_last ↦
          reverse-within n (suc i) (j - 1) (swap i j str) x (omega arith) (omega arith)
            (omega arith)
          ∙ ap (swap i j str) (omega arith)
          ∙ swap_other i j (i + j - x) str (omega arith) (omega arith)
    ]
  ]
]

-- The string with the number `v` in decimal from offset `p` on, in `n` digits, the first one first, and a 0 behind it.
pub record IsNumber (run : Option Bytes) (v p : ℕ) (str : Bytes) : Type 0 where
  pub n : ℕ
  pub out : Bytes
  pub returns : run ≡ some out
  pub nonempty : 0 < n
  pub digits : (k : ℕ) → k < n → out (p + k) ≡ 48 + place (n - 1 - k) v
  pub end : out (p + n) ≡ 0
  pub gone : shift n v ≡ 0
  pub before : (j : ℕ) → j < p → out j ≡ str j

pub finished-IsNumber :
    {run : Option (Bytes × ℕ)} {v p : ℕ} {str : Bytes}
    → IsWritten run v p str
    → IsNumber (finished p run) v p str
finished-IsNumber {run} {v} {p} {str} w =
    let last = p + w.n in
    let ended = update w.out last 0 in
    record {
      n = w.n;
      out = reverse last p (last - 1) ended;
      returns = ap (finished p) w.returns;
      nonempty = w.nonempty;
      digits = λ k less.
          reverse-within last p (last - 1) ended (p + k) (omega arith) (omega (arith, w.nonempty))
            (omega arith)
          ∙ update_ne w.out last (p + (last - 1) - (p + k)) 0 (omega (arith, w.nonempty))
          ∙ ap w.out (omega (arith, w.nonempty))
          ∙ w.digits (w.n - 1 - k) (omega arith);
      end =
          reverse-outside last p (last - 1) ended last (inr (omega (arith, w.nonempty)))
          ∙ update_self w.out last 0;
      gone = w.gone;
      before = λ j less.
          reverse-outside last p (last - 1) ended j (inl less)
          ∙ update_ne w.out last j 0 (omega arith)
          ∙ w.before j less;
    }
