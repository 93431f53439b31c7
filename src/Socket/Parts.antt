-- ===== src/Socket/Parts.antt =====
-- An address through `inet_ntoa` and `inet_addr` of lib/libnet/socket.c.

use hydra_microkernal.Prelude.{
  ℕ, suc, ◌+◌, ◌-◌, ◌*◌, ◌/◌, ◌%◌, ◌^◌, ◌≤◌, ◌<◌, ◌≡◌, refl, sym, ap, ap₂, ◌∙◌, some, update, Bytes,
  arith,
}
use hydra_microkernal.Socket.Inet.{
  or_bits, build_address, inet_end, inet_from, inet_addr, inet_ntoa, or_bits-shift, inet_from-digit,
  inet_from-dot,
}

-- The bits of one byte after those of a number.
or_bits-next :
    (k high a b : ℕ) → a ≡ high * 2 ^ k → a < 2 ^ 32 → b < 2 ^ k → k ≤ 32 → or_bits 32 a b ≡ a + b
or_bits-next k high a b e room small le =
    ap (λ n. or_bits 32 n b) e
    ∙ or_bits-shift k 32 high b small (omega (arith, e)) le
    ∙ ap (λ n. n + b) (sym e)

build_address-lem :
    (parts : ℕ → ℕ)
    → parts 0 < 256
    → parts 1 < 256
    → parts 2 < 256
    → parts 3 < 256
    → build_address parts ≡ parts 0 * 16777216 + parts 1 * 65536 + parts 2 * 256 + parts 3
unfolding build_address
build_address-lem parts p0 p1 p2 p3 =
    let m0 : parts 0 * 2 ^ 24 % 2 ^ 32 ≡ parts 0 * 16777216 = omega arith in
    let m1 : parts 1 * 2 ^ 16 % 2 ^ 32 ≡ parts 1 * 65536 = omega arith in
    let m2 : parts 2 * 2 ^ 8 % 2 ^ 32 ≡ parts 2 * 256 = omega arith in
    let s1 =
      or_bits-next 24 (parts 0) (parts 0 * 16777216) (parts 1 * 65536) refl (omega arith)
        (omega arith) (omega arith) in
    let s2 =
      or_bits-next 16 (parts 0 * 256 + parts 1) (parts 0 * 16777216 + parts 1 * 65536)
        (parts 2 * 256) (omega arith) (omega arith) (omega arith) (omega arith) in
    let s3 =
      or_bits-next 8 (parts 0 * 65536 + parts 1 * 256 + parts 2)
        (parts 0 * 16777216 + parts 1 * 65536 + parts 2 * 256) (parts 3) (omega arith) (omega arith)
        (omega arith) (omega arith) in
    ap (λ n. or_bits 32 n (parts 3)) (ap₂ (or_bits 32) (ap₂ (or_bits 32) m0 m1 ∙ s1) m2 ∙ s2) ∙ s3

-- The three digits of `a` from `i` on, and the character behind them.
record IsPart (cp : Bytes) (i a last : ℕ) : Type 0 where
  hundreds : cp i ≡ 48 + a / 100
  tens : cp (suc i) ≡ 48 + a / 10 % 10
  ones : cp (suc (suc i)) ≡ 48 + a % 10
  behind : cp (suc (suc (suc i))) ≡ last

inet_from-part :
    (fuel i : ℕ) (parts : ℕ → ℕ) (count a last : ℕ) (cp : Bytes)
    → IsPart cp i a last
    → a < 256
    → count < 4
    → inet_from (suc (suc (suc fuel))) i parts count 0 cp
      ≡ inet_from fuel (suc (suc (suc i))) parts count a cp
inet_from-part fuel i parts count a last cp p small more =
    inet_from-digit (suc (suc fuel)) i parts count 0 (a / 100) cp p.hundreds (omega arith) more
      (omega arith)
    ∙ inet_from-digit (suc fuel) (suc i) parts count (0 * 10 + a / 100) (a / 10 % 10) cp p.tens
        (omega arith) more (omega arith)
    ∙ inet_from-digit fuel (suc (suc i)) parts count ((0 * 10 + a / 100) * 10 + a / 10 % 10)
        (a % 10) cp p.ones (omega arith) more (omega arith)
    ∙ ap (λ n. inet_from fuel (suc (suc (suc i))) parts count n cp) (omega arith)

inet_from-part_dot :
    (fuel i : ℕ) (parts : ℕ → ℕ) (count a : ℕ) (cp : Bytes)
    → IsPart cp i a 46
    → a < 256
    → count < 4
    → inet_from (suc (suc (suc (suc fuel)))) i parts count 0 cp
      ≡ inet_from fuel (suc (suc (suc (suc i)))) (update parts count a) (suc count) 0 cp
inet_from-part_dot fuel i parts count a cp p small more =
    inet_from-part (suc fuel) i parts count a 46 cp p small more
    ∙ inet_from-dot fuel (suc (suc (suc i))) parts count a cp p.behind more

inet_from-end :
    (fuel i : ℕ) (parts : ℕ → ℕ) (count current : ℕ) (cp : Bytes)
    → cp i ≡ 0
    → inet_from (suc fuel) i parts count current cp ≡ some (inet_end parts count current)
unfolding inet_from
inet_from-end fuel i parts count current cp e = rw e refl

module _ (addr : ℕ) (str : Bytes) where
  printed :
      (cp : Bytes)
      → cp ≡ inet_ntoa addr str
      → IsPart cp 0 (addr / 16777216 % 256) 46
        × IsPart cp 4 (addr / 65536 % 256) 46
        × IsPart cp 8 (addr / 256 % 256) 46
        × IsPart cp 12 (addr % 256) 0
  unfolding inet_ntoa
  printed cp e = (
    record {
      hundreds = ap (λ f. f 0) e;
      tens = ap (λ f. f 1) e;
      ones = ap (λ f. f 2) e;
      behind = ap (λ f. f 3) e;
    },
    record {
      hundreds = ap (λ f. f 4) e;
      tens = ap (λ f. f 5) e;
      ones = ap (λ f. f 6) e;
      behind = ap (λ f. f 7) e;
    },
    record {
      hundreds = ap (λ f. f 8) e;
      tens = ap (λ f. f 9) e;
      ones = ap (λ f. f 10) e;
      behind = ap (λ f. f 11) e;
    },
    record {
      hundreds = ap (λ f. f 12) e;
      tens = ap (λ f. f 13) e;
      ones = ap (λ f. f 14) e;
      behind = ap (λ f. f 15) e;
    },
  )

  -- The loop over the whole string.
  inet_from-printed :
      (fuel : ℕ) (garbage : ℕ → ℕ) (cp : Bytes)
      → cp ≡ inet_ntoa addr str
      → addr < 2 ^ 32
      → inet_from
          (suc (
            suc (
              suc (
                suc (suc (suc (suc (suc (suc (suc (suc (suc (suc (suc (suc (suc fuel))))))))))))))))
          0
          garbage
          0
          0
          cp
        ≡ some addr
  unfolding inet_end
  inet_from-printed fuel garbage cp e small =
      let (p0, p1, p2, p3) = printed cp e in
      let parts1 = update garbage 0 (addr / 16777216 % 256) in
      let parts2 = update parts1 1 (addr / 65536 % 256) in
      let parts3 = update parts2 2 (addr / 256 % 256) in
      inet_from-part_dot _ 0 garbage 0 (addr / 16777216 % 256) cp p0 (omega arith) (omega arith)
      ∙ inet_from-part_dot _ 4 parts1 1 (addr / 65536 % 256) cp p1 (omega arith) (omega arith)
      ∙ inet_from-part_dot _ 8 parts2 2 (addr / 256 % 256) cp p2 (omega arith) (omega arith)
      ∙ inet_from-part _ 12 parts3 3 (addr % 256) 0 cp p3 (omega arith) (omega arith)
      ∙ inet_from-end fuel 15 parts3 3 (addr % 256) cp p3.behind
      ∙ ap some (
          build_address-lem (update parts3 3 (addr % 256)) (omega arith) (omega arith) (omega arith)
            (omega arith)
          ∙ omega arith)

-- `inet_addr` reads the string that `inet_ntoa` writes for a 32-bit address as that address, with fuel for its 15
-- characters and the end.
pub inet_addr-inet_ntoa :
    (addr fuel : ℕ) (garbage : ℕ → ℕ) (str : Bytes)
    → addr < 2 ^ 32
    → 16 ≤ fuel
    → inet_addr fuel garbage (inet_ntoa addr str) ≡ some addr
unfolding inet_addr
inet_addr-inet_ntoa addr fuel garbage str small enough =
    ap (λ n. inet_from n 0 garbage 0 0 (inet_ntoa addr str))
      {y = suc (
        suc (
          suc (
            suc (
              suc (suc (suc (suc (suc (suc (suc (suc (suc (suc (suc (suc (fuel - 16))))))))))))))))}
      (omega arith)
    ∙ inet_from-printed addr str (fuel - 16) garbage (inet_ntoa addr str) refl small
