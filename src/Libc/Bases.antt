-- ===== src/Libc/Bases.antt =====
-- The bases that `itoa` of lib/libc/stdlib.c accepts.
use native.Mathlib.Nat.{mod-add-div'}
use hydra_microkernal.Prelude.{
  not_eq, ℕ, zero, suc, ◌+◌, ◌*◌, ◌/◌, ◌%◌, ◌≤◌, ◌<◌, ◌≡◌, ◌≢◌, refl, sym, ap₂, ◌∙◌, false, ◌||◌,
  none, negsuc, ltb, update, Bytes, arith, ℕ_discrete, if_eq, if_ne,
}
use hydra_microkernal.Libc.Stdlib.{put_negative, itoa}

nonzero_part : (v base : ℕ) → 0 < v → v % base ≡ 0 → v / base ≢ 0
nonzero_part v base h e z = omega (arith, sym (mod-add-div' v base) ∙ ap₂ (λ a b. a + b * base) e z)

put_negative-none :
    (fuel base v p : ℕ) (str : Bytes) → 0 < v → put_negative fuel base v p str ≡ none
unfolding put_negative
put_negative-none zero base v p str h = refl
put_negative-none (suc fuel) base v p str h = elim (ℕ_discrete (v % base) 0) [
  | yes e ↦
      let ne = nonzero_part v base h e in
      if_eq (v % base) 0 _ _ e
      ∙ if_ne (v / base) 0 _ _ ne
      ∙ put_negative-none fuel base (v / base) (suc p) (update str p 48) (omega arith)
  | no ne ↦ if_ne (v % base) 0 _ _ ne
]

accepted : (base : ℕ) → 2 ≤ base → base ≤ 36 → (ltb base 2 || ltb 36 base) ≡ false
accepted base low high = ground arith

-- A negative number in a base other than 10, of the bases 2 to 36 that `itoa` accepts, makes it read outside of its table of
-- digits, whatever the number.
pub itoa-negative :
    (n base : ℕ) (str : Bytes) → 2 ≤ base → base ≤ 36 → base ≢ 10 → itoa (negsuc n) str base ≡ none
unfolding itoa
itoa-negative n base str low high ne =
    rw
      (
        accepted base low high,
        not_eq base 10 ne,
        put_negative-none (suc (suc n)) base (suc n) 0 str (omega arith),
      )
      refl
