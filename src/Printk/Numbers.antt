-- ===== src/Printk/Numbers.antt =====
-- The digits that `print_num` of kernal/printk.c writes.
use native.Mathlib.Nat.{mod-add-div', div-add-mod', mod-lt, div-lt_iff_lt-mul, mul-le-mul_left}
use mathlib.Core.List.{map, append-nil}
use hydra_microkernal.Prelude.{
  ℕ, zero, suc, ◌+◌, ◌*◌, ◌/◌, ◌%◌, ◌^◌, ◌≤◌, ◌<◌, ◌≡◌, ◌≢◌, refl, sym, ap, ap₂, ◌∙◌, Option, some,
  List, [], ◌∷◌, ◌++◌, length, All, All-append, update, update_self, update_ne, Bytes, arith,
  ℕ_discrete, if_eq, if_ne, ltb, if◌then◌else◌,
}
use hydra_microkernal.Uart.{uart_putc}
use hydra_microkernal.Libc.Stdlib.{digit}
use hydra_microkernal.Printk.{buffer_size, store_digits, put_stored, put_all_stored, print_num}

-- The number that digits stand for, the first one first.
abbrev pub value_from : ℕ → ℕ → List ℕ → ℕ
value_from base acc [] = acc
value_from base acc (d ∷ ds) = value_from base (acc * base + d) ds

-- The first digit is not 0.
abbrev pub Leads : List ℕ → Type 0
Leads [] = Unit
Leads (d ∷ ds) = d ≢ 0

-- The output is `num` in a base: its digits as characters, with no leading zero, or "0".
pub record IsNumeral (base num : ℕ) (out : List ℕ) : Type 0 where
  pub digits : List ℕ
  pub written : out ≡ map digit digits
  pub small : All (λ d. d < base) digits
  pub value : value_from base 0 digits ≡ num
  pub leads : 0 < num → Leads digits
  pub nonempty : 0 < length digits

value_from-append :
    (base acc : ℕ) (ds : List ℕ) (d : ℕ)
    → value_from base acc (ds ++ d ∷ []) ≡ value_from base acc ds * base + d
value_from-append base acc [] d = refl
value_from-append base acc (x ∷ ds) d = value_from-append base (acc * base + x) ds d

map-append_digit :
    (ds : List ℕ) (d : ℕ) (rest : List ℕ)
    → map digit (ds ++ d ∷ []) ++ rest ≡ map digit ds ++ digit d ∷ rest
map-append_digit [] d rest = refl
map-append_digit (x ∷ ds) d rest = ap (λ xs. digit x ∷ xs) (map-append_digit ds d rest)

Leads-append : (ds : List ℕ) (d : ℕ) → (ds ≡ [] → d ≢ 0) → Leads ds → Leads (ds ++ d ∷ [])
Leads-append [] d h l = h refl
Leads-append (x ∷ ds) d h l = l

pub uart_putc-digit : (d : ℕ) → d < 16 → uart_putc (digit d) ≡ digit d ∷ []
unfolding uart_putc
uart_putc-digit d h = ground arith

put_stored-update :
    (k i : ℕ) (buf : Bytes) (v : ℕ) → k ≤ i → put_stored k (update buf i v) ≡ put_stored k buf
unfolding put_stored
put_stored-update zero i buf v h = refl
put_stored-update (suc k) i buf v h =
    rw (update_ne buf i k v (omega arith))
      (ap (λ xs. uart_putc (buf k) ++ xs) (put_stored-update k i buf v (omega arith)))

put_stored-next :
    (i : ℕ) (buf : Bytes) (d : ℕ)
    → d < 16
    → put_stored (suc i) (update buf i (digit d)) ≡ digit d ∷ put_stored i buf
unfolding put_stored
put_stored-next i buf d h =
    rw (update_self buf i (digit d), uart_putc-digit d h)
      (ap (λ xs. digit d ∷ xs) (put_stored-update i i buf (digit d) (omega arith)))

-- The loop has put the digits of `num` behind the first `i` bytes.
record IsStored (base num i : ℕ) (buf : Bytes) (run : Option (Bytes × ℕ)) : Type 0 where
  out : Bytes
  end : ℕ
  digits : List ℕ
  returns : run ≡ some (out, end)
  written : put_stored end out ≡ map digit digits ++ put_stored i buf
  small : All (λ d. d < base) digits
  value : value_from base 0 digits ≡ num
  leads : Leads digits

quotient_lt : (base num n : ℕ) → 10 ≤ base → num < 10 ^ suc n → num / base < 10 ^ n
quotient_lt base num n h small =
    (div-lt_iff_lt-mul (omega arith)).1 (omega (arith, mul-le-mul_left (10 ^ n) h))

no_part : (base : ℕ) → 0 + 0 * base ≡ 0
no_part base = omega arith

no_digit : (base : ℕ) → 0 * base + 0 ≡ 0
no_digit base = omega arith

last_ne :
    (base num : ℕ) (ds : List ℕ)
    → num ≢ 0
    → value_from base 0 ds ≡ num / base
    → ds ≡ []
    → num % base ≢ 0
last_ne base num ds ne v empty zero_last = ne (
    sym (mod-add-div' num base)
    ∙ ap₂ (λ a b. a + b * base) zero_last (sym v ∙ ap (value_from base 0) empty)
    ∙ no_part base)

has_room :
    (i : ℕ)
    → i < buffer_size
    → (x y : Option (Bytes × ℕ)) → (if ltb i buffer_size then x else y) ≡ x
has_room i h x y = ground arith

store_digits-IsStored :
    (base n fuel num i : ℕ) (buf : Bytes)
    → 10 ≤ base
    → base ≤ 16
    → num < 10 ^ n
    → n < fuel
    → i + n ≤ buffer_size
    → IsStored base num i buf (store_digits fuel num base i buf)
unfolding store_digits
store_digits-IsStored base n zero num i buf low high h enough room = absurd (omega arith)
store_digits-IsStored base n (suc fuel) num i buf low high h enough room = elim (ℕ_discrete num 0) [
  | yes e ↦ record {
    out = buf;
    end = i;
    digits = [];
    returns = if_eq num 0 _ _ e;
    written = refl;
    small = tt;
    value = sym e;
    leads = tt;
  }
  | no ne ↦
      elim n
          as (λ n.
            num < 10 ^ n
            → n < suc fuel
            → i + n ≤ buffer_size
            → IsStored base num i buf (store_digits (suc fuel) num base i buf)) [
              | zero ↦ λ h enough room. absurd (omega arith)
              | suc n ↦ λ h enough room.
                  let rest =
                    store_digits-IsStored base n fuel (num / base) (suc i)
                      (update buf i (digit (num % base))) low high (quotient_lt base num n low h)
                      (omega arith) (omega arith) in
                  let fits : num % base < base = mod-lt num (omega arith) in
                  record {
                    out = rest.out;
                    end = rest.end;
                    digits = rest.digits ++ num % base ∷ [];
                    returns = if_ne num 0 _ _ ne ∙ has_room i (omega arith) _ _ ∙ rest.returns;
                    written =
                        rest.written
                        ∙ ap (λ xs. map digit rest.digits ++ xs)
                            (put_stored-next i buf (num % base) (omega arith))
                        ∙ sym (map-append_digit rest.digits (num % base) (put_stored i buf));
                    small =
                        All-append (λ d. d < base) rest.digits (num % base ∷ []) rest.small
                          (fits, tt);
                    value =
                        value_from-append base 0 rest.digits (num % base)
                        ∙ ap (λ q. q * base + num % base) rest.value
                        ∙ div-add-mod' num base;
                    leads =
                        Leads-append rest.digits (num % base)
                          (last_ne base num rest.digits ne rest.value) rest.leads;
                  }
            ]
        h enough room
]

nonempty-digits :
    (base num : ℕ) (ds : List ℕ) → num ≢ 0 → value_from base 0 ds ≡ num → 0 < length ds
nonempty-digits base num [] ne v = absurd (ne (sym v))
nonempty-digits base num (d ∷ ds) ne v = omega arith

append-nil_stored : (ds : List ℕ) (buf : Bytes) → map digit ds ++ put_stored 0 buf ≡ map digit ds
unfolding put_stored
append-nil_stored ds buf = append-nil (map digit ds)

-- What `print_num` has to do: write a numeral.
pub record Prints (base num : ℕ) (run : Option (List ℕ)) : Type 0 where
  pub out : List ℕ
  pub returns : run ≡ some out
  pub numeral : IsNumeral base num out

-- For every `unsigned long`, in base 10 or 16, `print_num` writes the number's digits, with no leading zero, and its buffer
-- of 32 digits is large enough.
pub print_num-Prints :
    (base num : ℕ) → 10 ≤ base → base ≤ 16 → num < 2 ^ 64 → Prints base num (print_num num base)
unfolding print_num
print_num-Prints base num low high h = elim (ℕ_discrete num 0) [
  | yes e ↦ record {
    out = 48 ∷ [];
    returns = if_eq num 0 _ _ e ∙ ap some (uart_putc-digit 0 (omega arith));
    numeral = record {
      digits = 0 ∷ [];
      written = refl;
      small = (omega arith, tt);
      value = no_digit base ∙ sym e;
      leads = λ p. absurd (omega arith);
      nonempty = omega arith;
    };
  }
  | no ne ↦
      let s =
        store_digits-IsStored base 20 33 num 0 (λ i. 0) low high (omega arith) (omega arith)
          (omega arith) in
      record {
        out = put_stored s.end s.out;
        returns = if_ne num 0 _ _ ne ∙ ap put_all_stored s.returns;
        numeral = record {
          digits = s.digits;
          written = s.written ∙ append-nil_stored s.digits (λ i. 0);
          small = s.small;
          value = s.value;
          leads = λ p. s.leads;
          nonempty = nonempty-digits base num s.digits ne s.value;
        };
      }
]
