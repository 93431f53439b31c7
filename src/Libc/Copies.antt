-- ===== src/Libc/Copies.antt =====
-- The string functions of lib/libc/string.c that copy.
use hydra_microkernal.Prelude.{
  ℕ, zero, suc, ◌+◌, ◌-◌, ◌≤◌, ◌<◌, ◌≡◌, refl, sym, ap, ◌∙◌, Option, some, pos, update, update_self,
  update_ne, if_eq, if_ne, Bytes, arith, ℕ_discrete, dec_lt,
}
use hydra_microkernal.Libc.{strcpy_from, strcpy, strcat, strcmp}
use hydra_microkernal.Libc.Strings.{IsString, strlen-IsString, strcmp-Compares}

-- `src` from offset `j` on has been copied to offset `i`: `n` characters and the 0 behind them.
record IsCopied (run : Option Bytes) (n i j : ℕ) (dest src : Bytes) : Type 0 where
  out : Bytes
  returns : run ≡ some out
  copied : (k : ℕ) → k ≤ n → out (i + k) ≡ src (j + k)
  before : (x : ℕ) → x < i → out x ≡ dest x
  beyond : (x : ℕ) → i + n < x → out x ≡ dest x

strcpy_from-IsCopied :
    (n fuel i j : ℕ) (dest src : Bytes)
    → IsString src j n
    → n < fuel
    → IsCopied (strcpy_from fuel i j dest src) n i j dest src
unfolding strcpy_from
strcpy_from-IsCopied n zero i j dest src s h = absurd (omega arith)
strcpy_from-IsCopied zero (suc fuel) i j dest src s h = record {
  out = update dest i (src j);
  returns = if_eq (src j) 0 _ _ (ap src (omega arith) ∙ s.end);
  copied = λ k le.
      ap (update dest i (src j)) (omega arith) ∙ update_self dest i (src j) ∙ ap src (omega arith);
  before = λ x less. update_ne dest i x (src j) (omega arith);
  beyond = λ x more. update_ne dest i x (src j) (omega arith);
}
strcpy_from-IsCopied (suc n) (suc fuel) i j dest src s h =
    let next : IsString src (suc j) n = record {
      end = ap src (omega arith) ∙ s.end;
      before = λ x a b. s.before x (omega arith) (omega arith);
    } in
    let rest =
      strcpy_from-IsCopied n fuel (suc i) (suc j) (update dest i (src j)) src next (omega arith) in
    record {
      out = rest.out;
      returns = if_ne (src j) 0 _ _ (s.before j (omega arith) (omega arith)) ∙ rest.returns;
      copied = λ k le. elim (ℕ_discrete k 0) [
        | yes z ↦
            ap rest.out (omega arith)
            ∙ rest.before i (omega arith)
            ∙ update_self dest i (src j)
            ∙ ap src (omega arith)
        | no nz ↦
            ap rest.out (omega arith) ∙ rest.copied (k - 1) (omega arith) ∙ ap src (omega arith)
      ];
      before = λ x less. rest.before x (omega arith) ∙ update_ne dest i x (src j) (omega arith);
      beyond = λ x more. rest.beyond x (omega arith) ∙ update_ne dest i x (src j) (omega arith);
    }

-- A copy that compares as equal, in place of the first `n + 1` bytes of `dest`.
pub record IsSame (run : Option Bytes) (n : ℕ) (dest src : Bytes) : Type 0 where
  pub out : Bytes
  pub returns : run ≡ some out
  pub equal : (fuel : ℕ) → n < fuel → strcmp fuel out src ≡ some (pos 0)
  pub beyond : (x : ℕ) → n < x → out x ≡ dest x

-- With fuel for more characters than `src` has, `strcpy` returns a string that `strcmp` finds equal to `src`, and leaves what
-- lies behind it.
pub strcmp-strcpy :
    (n fuel : ℕ) (dest src : Bytes)
    → IsString src 0 n
    → n < fuel
    → IsSame (strcpy fuel dest src) n dest src
unfolding strcpy
strcmp-strcpy n fuel dest src s h =
    let c = strcpy_from-IsCopied n fuel 0 0 dest src s h in
    let same : (x : ℕ) → x ≤ n → c.out x ≡ src x =
      λ x le. ap c.out (omega arith) ∙ c.copied x le ∙ ap src (omega arith) in
    let string : IsString c.out 0 n = record {
      end = ap c.out (omega arith) ∙ same n (omega arith) ∙ ap src (omega arith) ∙ s.end;
      before = λ j a b. λ e. s.before j a b (sym (same j (omega arith)) ∙ e);
    } in
    record {
      out = c.out;
      returns = c.returns;
      equal = λ f enough.
          let r = strcmp-Compares n f c.out src string enough in
          r.returns ∙ ap some (r.zero_if (λ j a b. same j (omega arith)));
      beyond = λ x more. c.beyond x (omega arith);
    }

-- The string `dest` of `m` characters with `src` of `n` behind it.
pub record IsAppended (run : Option Bytes) (m n : ℕ) (dest src : Bytes) : Type 0 where
  pub out : Bytes
  pub returns : run ≡ some out
  pub string : IsString out 0 (m + n)
  pub front : (k : ℕ) → k < m → out k ≡ dest k
  pub back : (k : ℕ) → k < n → out (m + k) ≡ src k
  pub beyond : (x : ℕ) → m + n < x → out x ≡ dest x

strcat-run :
    (m fuel : ℕ) (dest src : Bytes)
    → IsString dest 0 m
    → m < fuel
    → strcat fuel dest src ≡ strcpy_from fuel m 0 dest src
unfolding strcat
strcat-run m fuel dest src s h = rw (strlen-IsString m fuel dest s h, strcat) refl

-- With fuel for more characters than each of the two strings has, in arrays that do not overlap, `strcat` returns the destination with
-- the string of both, one behind the other, and leaves what lies behind it.
pub strcat-IsAppended :
    (m n fuel : ℕ) (dest src : Bytes)
    → IsString dest 0 m
    → IsString src 0 n
    → m < fuel
    → n < fuel
    → IsAppended (strcat fuel dest src) m n dest src
strcat-IsAppended m n fuel dest src d s p q =
    let c = strcpy_from-IsCopied n fuel m 0 dest src s q in
    record {
      out = c.out;
      returns = strcat-run m fuel dest src d p ∙ c.returns;
      string = record {
        end = ap c.out (omega arith) ∙ c.copied n (omega arith) ∙ s.end;
        before = λ j a b. elim (dec_lt j m) [
          | yes less ↦ λ e. d.before j a (omega arith) (sym (c.before j less) ∙ e)
          | no more ↦ λ e. s.before (j - m) (omega arith) (omega arith) (
              sym (ap c.out (omega arith) ∙ c.copied (j - m) (omega arith) ∙ ap src (omega arith))
              ∙ e)
        ];
      };
      front = c.before;
      back = λ k less. c.copied k (omega arith) ∙ ap src (omega arith);
      beyond = c.beyond;
    }
