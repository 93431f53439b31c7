-- ===== src/Socket/Order.antt =====
-- The byte order conversions of lib/libnet/socket.c.
use hydra_microkernal.Prelude.{ℕ, ◌+◌, ◌*◌, ◌/◌, ◌%◌, ◌^◌, ◌<◌, ◌≡◌, refl, sym, ap, ◌∙◌, arith}
use hydra_microkernal.Socket.{htons, ntohs, htonl, ntohl}

-- The conversion to network order and back gives a number of 16 bits again.
pub ntohs-htons : (x : ℕ) → x < 2 ^ 16 → ntohs (htons x) ≡ x
unfolding ntohs htons
ntohs-htons x h = omega (arith, h)

-- A number of 32 bits from its four bytes, the highest first.
abbrev from_bytes : ℕ → ℕ → ℕ → ℕ → ℕ
from_bytes a b c d = a * 16777216 + b * 65536 + c * 256 + d

htonl-from_bytes :
    (a b c d : ℕ)
    → a < 256
    → b < 256
    → c < 256
    → d < 256
    → htonl (from_bytes a b c d) ≡ from_bytes d c b a
unfolding htonl
htonl-from_bytes a b c d ha hb hc hd =
    let d0 : from_bytes a b c d % 256 ≡ d = omega (arith, hd) in
    let c0 : from_bytes a b c d / 256 ≡ a * 65536 + b * 256 + c = omega (arith, hd) in
    let b0 : from_bytes a b c d / 65536 ≡ a * 256 + b = omega (arith, hd, hc) in
    let a0 : from_bytes a b c d / 16777216 ≡ a = omega (arith, hd, hc, hb) in
    let c1 : (a * 65536 + b * 256 + c) % 256 ≡ c = omega (arith, hc) in
    let b1 : (a * 256 + b) % 256 ≡ b = omega (arith, hb) in
    let a1 : a % 256 ≡ a = omega (arith, ha) in rw (d0, c0, b0, a0, c1, b1, a1) refl

from_bytes_split :
    (x : ℕ) → x < 2 ^ 32 → x ≡ from_bytes (x / 16777216) (x / 65536 % 256) (x / 256 % 256) (x % 256)
from_bytes_split x h = omega (arith, h)

-- The conversion to network order and back gives a number of 32 bits again.
pub ntohl-htonl : (x : ℕ) → x < 2 ^ 32 → ntohl (htonl x) ≡ x
unfolding ntohl
ntohl-htonl x h =
    let split = from_bytes_split x h in
    ap (λ y. htonl (htonl y)) split
    ∙ ap htonl
        (htonl-from_bytes _ _ _ _ (omega (arith, h)) (omega arith) (omega arith) (omega arith))
    ∙ htonl-from_bytes _ _ _ _ (omega arith) (omega arith) (omega arith) (omega (arith, h))
    ∙ sym split
