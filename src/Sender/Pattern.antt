-- ===== src/Sender/Pattern.antt =====
-- The test pattern of apps/image_sender.c in its buffer.
use hydra_microkernal.Prelude.{
  ℕ, zero, suc, ◌+◌, ◌*◌, ◌/◌, ◌≤◌, ◌<◌, ◌≡◌, ◌⊎◌, inl, inr, refl, ◌∙◌, Bytes, arith,
}
use hydra_microkernal.Sender.{test_size, put_pixel, put_row, put_rows, test_pattern}

-- The pixel of column `x` and row `y` stands at an offset.
pub record IsPixel (image : Bytes) (at x y : ℕ) : Type 0 where
  pub red : image at ≡ x * 255 / 16
  pub green : image (at + 1) ≡ y * 255 / 12
  pub blue : image (at + 2) ≡ (x + y) * 255 / 28

put_pixel-outside :
    (x y i : ℕ) (image : Bytes) (j : ℕ) → (j < i) ⊎ (i + 3 ≤ j) → put_pixel x y i image j ≡ image j
put_pixel-outside x y i image j (inl h) = ground arith
put_pixel-outside x y i image j (inr h) = ground arith

put_pixel-IsPixel :
    (x y i : ℕ) (image : Bytes) → x < 16 → y < 12 → IsPixel (put_pixel x y i image) i x y
put_pixel-IsPixel x y i image h k = record {
  red = ground arith;
  green = ground arith;
  blue = ground arith;
}

put_row-outside :
    (n x y i : ℕ) (image : Bytes) (j : ℕ)
    → (j < i) ⊎ (i + n * 3 ≤ j)
    → put_row n x y i image j ≡ image j
unfolding put_row
put_row-outside zero x y i image j h = refl
put_row-outside (suc n) x y i image j (inl h) =
    put_row-outside n (suc x) y (i + 3) (put_pixel x y i image) j (inl (omega arith))
    ∙ put_pixel-outside x y i image j (inl h)
put_row-outside (suc n) x y i image j (inr h) =
    put_row-outside n (suc x) y (i + 3) (put_pixel x y i image) j (inr (omega arith))
    ∙ put_pixel-outside x y i image j (inr (omega arith))

-- A pixel that is not written over.
IsPixel-same :
    {image image' : Bytes} {at x y : ℕ}
    → ((j : ℕ) → at ≤ j → j < at + 3 → image' j ≡ image j)
    → IsPixel image at x y
    → IsPixel image' at x y
IsPixel-same {at = at} same p = record {
  red = same at (omega arith) (omega arith) ∙ p.red;
  green = same (at + 1) (omega arith) (omega arith) ∙ p.green;
  blue = same (at + 2) (omega arith) (omega arith) ∙ p.blue;
}

IsPixel-at :
    {image : Bytes} {at at' x x' y y' : ℕ}
    → at ≡ at'
    → x ≡ x'
    → y ≡ y'
    → IsPixel image at x y
    → IsPixel image at' x' y'
IsPixel-at {image} e f g p = rw (← e, ← f, ← g) p

put_row-IsPixel :
    (n x y i : ℕ) (image : Bytes) (k : ℕ)
    → k < n
    → x + n ≤ 16
    → y < 12
    → IsPixel (put_row n x y i image) (i + k * 3) (x + k) y
unfolding put_row
put_row-IsPixel zero x y i image k h room low = absurd (omega arith)
put_row-IsPixel (suc n) x y i image zero h room low =
    IsPixel-at {at = i} {x = x} {y = y} (omega arith) (omega arith) refl (
      IsPixel-same
        (λ j p q. put_row-outside n (suc x) y (i + 3) (put_pixel x y i image) j (inl (omega arith)))
        (put_pixel-IsPixel x y i image (omega arith) low))
put_row-IsPixel (suc n) x y i image (suc k) h room low =
    IsPixel-at {at = i + 3 + k * 3} {x = suc x + k} {y = y} (omega arith) (omega arith) refl (
      put_row-IsPixel n (suc x) y (i + 3) (put_pixel x y i image) k (omega arith) (omega arith) low)

put_rows-outside :
    (n y i : ℕ) (image : Bytes) (j : ℕ)
    → (j < i) ⊎ (i + n * 48 ≤ j)
    → put_rows n y i image j ≡ image j
unfolding put_rows
put_rows-outside zero y i image j h = refl
put_rows-outside (suc n) y i image j (inl h) =
    put_rows-outside n (suc y) (i + 48) (put_row 16 0 y i image) j (inl (omega arith))
    ∙ put_row-outside 16 0 y i image j (inl h)
put_rows-outside (suc n) y i image j (inr h) =
    put_rows-outside n (suc y) (i + 48) (put_row 16 0 y i image) j (inr (omega arith))
    ∙ put_row-outside 16 0 y i image j (inr (omega arith))

put_rows-IsPixel :
    (n y i : ℕ) (image : Bytes) (x k : ℕ)
    → x < 16
    → k < n
    → y + n ≤ 12
    → IsPixel (put_rows n y i image) (i + k * 48 + x * 3) x (y + k)
unfolding put_rows
put_rows-IsPixel zero y i image x k h less room = absurd (omega arith)
put_rows-IsPixel (suc n) y i image x zero h less room =
    IsPixel-at {at = i + x * 3} {x = 0 + x} {y = y} (omega arith) (omega arith) (omega arith) (
      IsPixel-same
        (λ j p q.
          put_rows-outside n (suc y) (i + 48) (put_row 16 0 y i image) j (inl (omega arith)))
        (put_row-IsPixel 16 0 y i image x h (omega arith) (omega arith)))
put_rows-IsPixel (suc n) y i image x (suc k) h less room =
    IsPixel-at {at = i + 48 + k * 48 + x * 3} {x = x} {y = suc y + k} (omega arith) refl
      (omega arith)
      (put_rows-IsPixel n (suc y) (i + 48) (put_row 16 0 y i image) x k h (omega arith)
        (omega arith))

-- The loops of the test pattern write the pixel of each column and row at its place in the 576 bytes that are allocated, with
-- shades of at most 255 that no conversion to a byte cuts, and no byte behind them.
pub test_pattern-IsPixel :
    (image : Bytes) (x y j : ℕ)
    → x < 16
    → y < 12
    → test_size ≤ j
    → IsPixel (test_pattern image) (y * 48 + x * 3) x y × (test_pattern image j ≡ image j)
unfolding test_pattern
test_pattern-IsPixel image x y j h k out = (
  IsPixel-at {at = 0 + y * 48 + x * 3} {x = x} {y = 0 + y} (omega arith) refl (omega arith)
      (put_rows-IsPixel 12 0 0 image x y h k (omega arith)),
  put_rows-outside 12 0 0 image j (inr (omega arith)),
)
