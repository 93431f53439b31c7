-- ===== src/Libc/Strings.antt =====
-- The string functions of lib/libc/string.c.
use hydra_microkernal.Prelude.{
  ℕ, zero, suc, ◌+◌, ◌≤◌, ◌<◌, ◌≡◌, ◌≢◌, ap, ◌⊎◌, inl, inr, ◌∙◌, ℤ, pos, Option, some, arith,
  ℕ_discrete, Bytes,
}
use hydra_microkernal.Libc.{difference, strlen_from, strlen, strcmp_from, strcmp}
use hydra_microkernal.Libc.Memory.{difference-zero, difference_self}

-- From offset `i` on the string has `n` characters before its end.
pub record IsString (p : Bytes) (i n : ℕ) : Type 0 where
  pub end : p (i + n) ≡ 0
  pub before : (j : ℕ) → i ≤ j → j < i + n → p j ≢ 0

IsString-next : {p : Bytes} {i n : ℕ} → IsString p i (suc n) → IsString p (suc i) n
IsString-next {p} {i} {n} s = record {
  end = rw (← at) s.end;
  before = λ j a b. s.before j (omega arith) (omega arith);
}
  where
    at : i + suc n ≡ suc i + n
    at = omega arith

IsString-end : {p : Bytes} {i : ℕ} → IsString p i 0 → p i ≡ 0
IsString-end {p} {i} s = ap p at ∙ s.end
  where
    at : i ≡ i + 0
    at = omega arith

IsString-char : {p : Bytes} {i n : ℕ} → IsString p i (suc n) → p i ≢ 0
IsString-char {p} {i} {n} s = s.before i (omega arith) (omega arith)

strlen_from-IsString :
    (n fuel i : ℕ) (p : Bytes) → IsString p i n → n < fuel → strlen_from fuel p i ≡ some (i + n)
unfolding strlen_from
strlen_from-IsString n zero i p s h = absurd (omega arith)
strlen_from-IsString zero (suc fuel) i p s h = rw (IsString-end s) (ap some (omega arith))
strlen_from-IsString (suc n) (suc fuel) i p s h =
    step fuel (IsString-char s)
    ∙ strlen_from-IsString n fuel (suc i) p (IsString-next s) (omega arith)
    ∙ ap some (omega arith)
  where
    step : (fuel : ℕ) → p i ≢ 0 → strlen_from (suc fuel) p i ≡ strlen_from fuel p (suc i)
    step fuel ne = unfold strlen_from in ground arith

-- With fuel for more characters than the string has, `strlen` returns their number.
pub strlen-IsString :
    (n fuel : ℕ) (str : Bytes) → IsString str 0 n → n < fuel → strlen fuel str ≡ some n
unfolding strlen
strlen-IsString n fuel str s h = strlen_from-IsString n fuel 0 str s h ∙ ap some (omega arith)

-- `p` and `q` agree up to the end of a string of `n` characters from offset `i` on, its 0 included.
abbrev pub Agree : Bytes → Bytes → ℕ → ℕ → Type 0
Agree p q i n = (j : ℕ) → i ≤ j → j ≤ i + n → p j ≡ q j

-- A comparison that ends, with 0 exactly for equal strings.
pub record Compares (o : Option ℤ) (p q : Bytes) (i n : ℕ) : Type 0 where
  pub result : ℤ
  pub returns : o ≡ some result
  pub equal : result ≡ pos 0 → Agree p q i n
  pub zero_if : Agree p q i n → result ≡ pos 0

module _ (fuel i : ℕ) (p q : Bytes) where
  strcmp_from-stop :
      (p i ≡ 0) ⊎ (p i ≢ q i) → strcmp_from (suc fuel) i p q ≡ some (difference (p i) (q i))
  unfolding strcmp_from
  strcmp_from-stop (inl e) = ground arith
  strcmp_from-stop (inr e) = ground arith

  strcmp_from-more :
      p i ≢ 0 → p i ≡ q i → strcmp_from (suc fuel) i p q ≡ strcmp_from fuel (suc i) p q
  unfolding strcmp_from
  strcmp_from-more ne e = ground arith

Agree-first : (p q : Bytes) (i n : ℕ) → Agree p q i n → p i ≡ q i
Agree-first p q i n h = h i (omega arith) (omega arith)

Agree-cons : (p q : Bytes) (i n : ℕ) → p i ≡ q i → Agree p q (suc i) n → Agree p q i (suc n)
Agree-cons p q i n e h j a b = elim (ℕ_discrete i j) [
  | yes same ↦ rw (← same) e
  | no other ↦ h j (omega arith) (omega arith)
]

Agree-last : (p q : Bytes) (i : ℕ) → p i ≡ q i → Agree p q i 0
Agree-last p q i e j a b = let same : i ≡ j = omega (arith, a, b) in rw (← same) e

strcmp_from-Compares :
    (n fuel i : ℕ) (p q : Bytes)
    → IsString p i n
    → n < fuel
    → Compares (strcmp_from fuel i p q) p q i n
strcmp_from-Compares n zero i p q s h = absurd (omega arith)
strcmp_from-Compares zero (suc fuel) i p q s h = record {
  result = difference (p i) (q i);
  returns = strcmp_from-stop fuel i p q (inl (IsString-end s));
  equal = λ e. Agree-last p q i (difference-zero {a = p i} {b = q i} e);
  zero_if = λ g. rw (Agree-first p q i 0 g) (difference_self (q i));
}
strcmp_from-Compares (suc n) (suc fuel) i p q s h = elim (ℕ_discrete (p i) (q i)) [
  | yes e ↦
      (let rest = strcmp_from-Compares n fuel (suc i) p q (IsString-next s) (omega arith) in
        record {
          result = rest.result;
          returns = strcmp_from-more fuel i p q (IsString-char s) e ∙ rest.returns;
          equal = λ z. Agree-cons p q i n e (rest.equal z);
          zero_if = λ g. rest.zero_if (λ j a b. g j (omega arith) (omega arith));
        })
  | no ne ↦ record {
    result = difference (p i) (q i);
    returns = strcmp_from-stop fuel i p q (inr ne);
    equal = λ z. absurd (ne (difference-zero {a = p i} {b = q i} z));
    zero_if = λ g. absurd (ne (Agree-first p q i (suc n) g));
  }
]

-- With fuel for more characters than the first string has, `strcmp` returns, and it returns 0 exactly when the second
-- string agrees with the first in each character up to the 0 at its end.
pub strcmp-Compares :
    (n fuel : ℕ) (p q : Bytes) → IsString p 0 n → n < fuel → Compares (strcmp fuel p q) p q 0 n
unfolding strcmp
strcmp-Compares n fuel p q s h = strcmp_from-Compares n fuel 0 p q s h
