-- ===== src/Socket/Inet.antt =====
-- lib/libnet/socket.c: addresses as strings. Strings start at the offset 0, and a character is a number below 256. A shift that leaves
-- the range of `int` wraps around, as the compiler's does; `none` means that an `int` overflows in the sum of the digits, or
-- that the fuel ran out.
use native.Mathlib.Nat.{pow-suc, mul_assoc}
use hydra_microkernal.Prelude.{
  ℕ, zero, suc, ◌+◌, ◌-◌, ◌*◌, ◌/◌, ◌%◌, ◌^◌, ◌≤◌, ◌<◌, ◌≡◌, ◌≢◌, refl, sym, ap, ap₂, ◌∙◌, true,
  false, ◌&&◌, ◌||◌, Option, none, some, ltb, leb, lt→ltb, ◌==◌, if◌then◌else◌, update, Bytes,
  arith,
}

-- `a | b` on numbers of `w` bits
unfoldable pub or_bits : ℕ → ℕ → ℕ → ℕ
or_bits zero a b = 0
or_bits (suc w) a b = (if a % 2 == 0 then b % 2 else 1) + 2 * or_bits w (a / 2) (b / 2)

-- "Build 32-bit address"
unfoldable pub build_address : (ℕ → ℕ) → ℕ
unfolding or_bits
build_address parts =
    or_bits 32
      (or_bits 32 (or_bits 32 (parts 0 * 2 ^ 24 % 2 ^ 32) (parts 1 * 2 ^ 16 % 2 ^ 32))
        (parts 2 * 2 ^ 8 % 2 ^ 32))
      (parts 3)

-- What `inet_addr` does behind its loop.
unfoldable pub inet_end : (ℕ → ℕ) → ℕ → ℕ → ℕ
unfolding build_address
inet_end parts part_count current_part =
    if part_count == 3 then build_address (update parts part_count current_part) else 0

-- The loop of `inet_addr` from character `i` on.
unfoldable pub inet_from : ℕ → ℕ → (ℕ → ℕ) → ℕ → ℕ → Bytes → Option ℕ
unfolding inet_end
inet_from zero i parts part_count current_part cp = none
inet_from (suc fuel) i parts part_count current_part cp =
    let next_digit = inet_from fuel (suc i) parts part_count (current_part * 10 + (cp i - 48)) cp in
    let next_part =
      inet_from fuel (suc i) (update parts part_count current_part) (suc part_count) 0 cp in
    if cp i == 0 || leb 4 part_count
    then some (inet_end parts part_count current_part)
    else if leb 48 (cp i) && leb (cp i) 57
    then if ltb (current_part * 10 + (cp i - 48)) (2 ^ 31) then next_digit else none
    else if cp i == 46
    then next_part
    else some 0

-- `garbage` is what the array `parts` holds at first.
unfoldable pub inet_addr : ℕ → (ℕ → ℕ) → Bytes → Option ℕ
unfolding inet_from
inet_addr fuel garbage cp = inet_from fuel 0 garbage 0 0 cp

-- Three digits at `i`, and the character behind them.
unfoldable pub put_part : ℕ → ℕ → ℕ → Bytes → Bytes
put_part i a last str =
    update
      (update (update (update str i (48 + a / 100)) (i + 1) (48 + a / 10 % 10)) (i + 2)
        (48 + a % 10))
      (i + 3) last

-- `str` is the array of 16 bytes.
unfoldable pub inet_ntoa : ℕ → Bytes → Bytes
unfolding put_part
inet_ntoa addr str = put_part 12 (addr % 256) 0 (
    put_part 8 (addr / 256 % 256) 46
      (put_part 4 (addr / 65536 % 256) 46 (put_part 0 (addr / 16777216 % 256) 46 str)))

or_bits-zero : (w a : ℕ) → a < 2 ^ w → or_bits w a 0 ≡ a
unfolding or_bits
or_bits-zero zero a h = omega arith
or_bits-zero (suc w) a h =
    let rest = or_bits-zero w (a / 2) (omega (arith, pow-suc 2 w)) in ground (arith, rest)

even-step : (x b r : ℕ) → r ≡ x + b / 2 → (if 2 * x % 2 == 0 then b % 2 else 1) + 2 * r ≡ 2 * x + b
even-step x b r e = ground arith

-- Bits that do not overlap.
pub or_bits-shift :
    (k w a b : ℕ) → b < 2 ^ k → a * 2 ^ k < 2 ^ w → k ≤ w → or_bits w (a * 2 ^ k) b ≡ a * 2 ^ k + b
unfolding or_bits
or_bits-shift zero w a b h room le =
    let one : a * 2 ^ 0 ≡ a = omega arith in
    let none_left : b ≡ 0 = omega arith in
    ap₂ (or_bits w) one none_left ∙ or_bits-zero w a (omega (arith, one)) ∙ omega arith
or_bits-shift (suc k) (suc w) a b h room le =
    let double : a * 2 ^ suc k ≡ 2 * (a * 2 ^ k) =
      ap (λ n. a * n) (pow-suc 2 k) ∙ sym (mul_assoc a (2 ^ k) 2) ∙ omega arith in
    let rest =
      or_bits-shift k w a (b / 2) (omega (arith, pow-suc 2 k)) (omega (arith, double, pow-suc 2 w))
        (omega arith) in
    rw double (
      even-step (a * 2 ^ k) b (or_bits w (2 * (a * 2 ^ k) / 2) (b / 2))
        (ap (λ n. or_bits w n (b / 2)) (omega arith) ∙ rest))
or_bits-shift (suc k) zero a b h room le = absurd (omega arith)

visible : (c count d : ℕ) → c ≡ d → d ≢ 0 → count < 4 → (c == 0 || leb 4 count) ≡ false
visible c count d e ne more = ground arith

is_part-digit : (c d : ℕ) → c ≡ 48 + d → d < 10 → (leb 48 c && leb c 57) ≡ true
is_part-digit c d e h = ground arith

digit-value : (c d : ℕ) → c ≡ 48 + d → c - 48 ≡ d
digit-value c d e = omega arith

-- One round of the loop over a digit, and over a dot.
pub inet_from-digit :
    (fuel i : ℕ) (parts : ℕ → ℕ) (count current d : ℕ) (cp : Bytes)
    → cp i ≡ 48 + d
    → d < 10
    → count < 4
    → current * 10 + d < 2 ^ 31
    → inet_from (suc fuel) i parts count current cp
      ≡ inet_from fuel (suc i) parts count (current * 10 + d) cp
unfolding inet_from
inet_from-digit fuel i parts count current d cp e small more room =
    rw
      (
        visible (cp i) count (48 + d) e (omega arith) more,
        is_part-digit (cp i) d e small,
        digit-value (cp i) d e,
        lt→ltb (current * 10 + d) (2 ^ 31) room,
      )
      refl

pub inet_from-dot :
    (fuel i : ℕ) (parts : ℕ → ℕ) (count current : ℕ) (cp : Bytes)
    → cp i ≡ 46
    → count < 4
    → inet_from (suc fuel) i parts count current cp
      ≡ inet_from fuel (suc i) (update parts count current) (suc count) 0 cp
unfolding inet_from
inet_from-dot fuel i parts count current cp e more =
    rw (visible (cp i) count 46 e (omega arith) more) (rw e refl)
