-- ===== src/Raytracer/Render/Ppm.antt =====
-- The PPM file that `convert_to_ppm` of apps/raytracer/raytracer.c makes.
use hydra_microkernal.Prelude.{
  ℕ, ◌+◌, ◌-◌, ◌≤◌, ◌<◌, ◌≡◌, refl, ◌∙◌, some, List, [], ◌∷◌, Bytes, slice, slice-ext, copy_bytes,
  copy_bytes-beyond, copy_from-within, update_ne, length, Bool, true, false, Option, arith, leb,
  if◌then◌else◌,
}
use hydra_microkernal.Libc.{memcpy}
use hydra_microkernal.Libc.Stdlib.{reverse}
use hydra_microkernal.Libc.Stdio.{put, Out, empty_out, terminated}
use hydra_microkernal.Raytracer.Render.{pixel_data_size, copied_to, convert_to_ppm}

-- "P6\n64 48\n255\n"
abbrev pub ppm_header : List ℕ
ppm_header = 80 ∷ 54 ∷ 10 ∷ 54 ∷ 52 ∷ 32 ∷ 52 ∷ 56 ∷ 10 ∷ 50 ∷ 53 ∷ 53 ∷ 10 ∷ []

abbrev put_list : List ℕ → Out → Out
put_list [] o = o
put_list (c ∷ cs) o = put_list cs (put c o)

abbrev with_header : Bytes → Bytes
with_header buffer = terminated (put_list ppm_header (empty_out buffer))

convert_to_ppm-header :
    (image_buffer ppm_buffer : Bytes)
    → convert_to_ppm image_buffer ppm_buffer
      ≡ some
          (copied_to 13 (with_header ppm_buffer) image_buffer pixel_data_size, 13 + pixel_data_size)
unfolding convert_to_ppm reverse
convert_to_ppm-header image_buffer ppm_buffer = refl

put_list-beyond :
    (cs : List ℕ) (o : Out) (j : ℕ) → o.used + length cs ≤ j → (put_list cs o).buffer j ≡ o.buffer j
put_list-beyond [] o j h = refl
put_list-beyond (c ∷ cs) o j h =
    put_list-beyond cs (put c o) j (omega arith) ∙ update_ne o.buffer o.used j c (omega arith)

copied_to-before :
    (at : ℕ) (buffer src : Bytes) (n a : ℕ) → a < at → copied_to at buffer src n a ≡ buffer a
copied_to-before at buffer src n a h = if_less (leb at a) (less at a h)
  where
    less : (at a : ℕ) → a < at → leb at a ≡ false
    less at a h = ground arith

    if_less :
        (b : Bool)
        → b ≡ false
        → (if b then memcpy (λ j. buffer (at + j)) src n (a - at) else buffer a) ≡ buffer a
    if_less b e = rw e refl

copied_to-from :
    (at : ℕ) (buffer src : Bytes) (n k : ℕ)
    → copied_to at buffer src n (at + k) ≡ memcpy (λ j. buffer (at + j)) src n k
copied_to-from at buffer src n k = rw (within at k, back at k) refl
  where
    within : (at k : ℕ) → leb at (at + k) ≡ true
    within at k = ground arith

    back : (at k : ℕ) → at + k - at ≡ k
    back at k = omega arith

memcpy-within : (dst src : Bytes) (n k : ℕ) → k < n → memcpy dst src n k ≡ src k
unfolding memcpy copy_bytes
memcpy-within dst src n k h = copy_from-within n 0 dst src k (omega arith) (omega arith)

memcpy-beyond : (dst src : Bytes) (n k : ℕ) → n ≤ k → memcpy dst src n k ≡ dst k
unfolding memcpy
memcpy-beyond dst src n k h = copy_bytes-beyond n dst src k h

-- A buffer with the header, the bytes of the image behind it, and nothing else changed.
pub record IsPpm (image buffer : Bytes) (run : Option (Bytes × ℕ)) : Type 0 where
  pub out : Bytes
  pub returns : run ≡ some (out, 13 + pixel_data_size)
  pub header : slice 13 0 out ≡ ppm_header
  pub pixels : (k : ℕ) → k < pixel_data_size → out (13 + k) ≡ image k
  pub outside : (k : ℕ) → pixel_data_size ≤ k → out (13 + k) ≡ buffer (13 + k)

-- `convert_to_ppm` writes the header "P6 64 48 255" with its line ends, and the 9216 bytes of the image behind it, over the terminating zero of
-- `sprintf`; it reports 9229 bytes, and changes none behind them.
pub convert_to_ppm-IsPpm :
    (image_buffer ppm_buffer : Bytes)
    → IsPpm image_buffer ppm_buffer (convert_to_ppm image_buffer ppm_buffer)
convert_to_ppm-IsPpm image_buffer ppm_buffer =
    let whole = with_header ppm_buffer in
    record {
      out = copied_to 13 whole image_buffer pixel_data_size;
      returns = convert_to_ppm-header image_buffer ppm_buffer;
      header =
          slice-ext 13 0 (copied_to 13 whole image_buffer pixel_data_size) whole
            (λ j p h. copied_to-before 13 whole image_buffer pixel_data_size j (omega arith))
          ∙ refl;
      pixels = λ k h.
          copied_to-from 13 whole image_buffer pixel_data_size k
          ∙ memcpy-within _ image_buffer pixel_data_size k h;
      outside = λ k h.
          copied_to-from 13 whole image_buffer pixel_data_size k
          ∙ memcpy-beyond _ image_buffer pixel_data_size k h
          ∙ update_ne (put_list ppm_header (empty_out ppm_buffer)).buffer 13 (13 + k) 0
              (omega arith)
          ∙ put_list-beyond ppm_header (empty_out ppm_buffer) (13 + k) (omega arith);
    }
