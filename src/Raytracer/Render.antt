-- ===== src/Raytracer/Render.antt =====
-- apps/raytracer/raytracer.c: the default scene, the image, and its PPM file. The quotients of floats by 24 and 32 are exact enough for their
-- product with 65536, rounded towards 0, to be that of the integers.
pub mod Ppm
use hydra_microkernal.Prelude.{
  ℕ, zero, suc, ◌+◌, ◌-◌, ◌*◌, ◌/◌, ◌%◌, ◌^◌, Option, none, some, ℤ, pos, negsuc, List, [], ◌∷◌,
  leb, ltb, ◌==◌, if◌then◌else◌, update, Bytes,
}
use hydra_microkernal.Varargs.{number}
use hydra_microkernal.Libc.{memcpy}
use hydra_microkernal.Libc.Stdio.{sprintf}
use hydra_microkernal.Fixed.{sub_ℕ, quotient, times, ◌>>=◌}
use hydra_microkernal.Raytracer.{
  Vec3, Ray, Sphere, Hit, origin_vec, vec3_normalize, create_ray, trace_ray, shade_pixel,
}

-- IMAGE_WIDTH, IMAGE_HEIGHT, and the bytes of an image
abbrev pub image_width : ℕ
image_width = 64

abbrev pub image_height : ℕ
image_height = 48

abbrev pub pixel_data_size : ℕ
pixel_data_size = 9216

-- The spheres of `setup_default_scene`: red, green, blue, and the ground.
abbrev pub default_sphere : ℕ → Sphere
default_sphere i =
    if i == 0
    then record {
      center = record { x = pos 0; y = pos 0; z = negsuc 327679 };
      radius = pos 65536;
      color = 16728128;
    }
    else if i == 1
    then record {
      center = record { x = negsuc 131071; y = pos 0; z = negsuc 196607 };
      radius = pos 32768;
      color = 4259648;
    }
    else if i == 2
    then record {
      center = record { x = pos 131072; y = pos 0; z = negsuc 262143 };
      radius = pos 45875;
      color = 4210943;
    }
    else record {
      center = record { x = pos 0; y = negsuc 65568767; z = negsuc 327679 };
      radius = pos 65536000;
      color = 8421504;
    }

-- The direction of a pixel.
abbrev pub pixel_direction : ℕ → ℕ → Vec3
pixel_direction x y = record {
  x = quotient (times (sub_ℕ x 32) (pos 65536)) (pos 32);
  y = quotient (times (sub_ℕ 24 y) (pos 65536)) (pos 24);
  z = negsuc 65535;
}

unfoldable pub pixel_color : Vec3 → ℕ → ℕ → Option ℕ
unfolding create_ray trace_ray shade_pixel
pixel_color light_dir x y = do
  ray ← create_ray origin_vec (pixel_direction x y)
  hit ← trace_ray 4 default_sphere ray
  some (shade_pixel hit light_dir)

-- "Store RGB values in buffer"
abbrev pub store_pixel : ℕ → ℕ → Bytes → Bytes
store_pixel color i image =
    update (update (update image i (color / 65536 % 256)) (i + 1) (color / 256 % 256)) (i + 2)
      (color % 256)

-- The inner loop from `x` on, with `n` rounds left, and the outer loop from `y` on.
unfoldable pub render_row : ℕ → Vec3 → ℕ → ℕ → ℕ → Bytes → Option Bytes
unfolding pixel_color
render_row zero light_dir x y i image = some image
render_row (suc n) light_dir x y i image = elim (pixel_color light_dir x y) [
  | none ↦ none
  | some color ↦ render_row n light_dir (suc x) y (i + 3) (store_pixel color i image)
]

unfoldable pub render_rows : ℕ → Vec3 → ℕ → ℕ → Bytes → Option Bytes
unfolding render_row
render_rows zero light_dir y i image = some image
render_rows (suc n) light_dir y i image = elim (render_row image_width light_dir 0 y i image) [
  | none ↦ none
  | some image' ↦ render_rows n light_dir (suc y) (i + 192) image'
]

unfoldable pub render_scene : Bytes → Option Bytes
unfolding vec3_normalize render_rows
render_scene image_buffer = do
  light_dir ← vec3_normalize (record { x = negsuc 32767; y = pos 65536; z = negsuc 32767 })
  render_rows image_height light_dir 0 0 image_buffer

-- "P6\n%d %d\n255\n"
abbrev pub ppm_format : List ℕ
ppm_format = 80 ∷ 54 ∷ 10 ∷ 37 ∷ 100 ∷ 32 ∷ 37 ∷ 100 ∷ 10 ∷ 50 ∷ 53 ∷ 53 ∷ 10 ∷ []

-- `memcpy` to an offset in a buffer.
abbrev pub copied_to : ℕ → Bytes → Bytes → ℕ → Bytes
copied_to at buffer src n a =
    if leb at a then memcpy (λ j. buffer (at + j)) src n (a - at) else buffer a

-- The buffer and `ppm_size`.
unfoldable pub convert_to_ppm : Bytes → Bytes → Option (Bytes × ℕ)
unfolding sprintf memcpy
convert_to_ppm image_buffer ppm_buffer = do
  run ← sprintf ppm_buffer ppm_format (number (pos image_width) ∷ number (pos image_height) ∷ [])
  some (copied_to run.1 run.0 image_buffer pixel_data_size, run.1 + pixel_data_size)
