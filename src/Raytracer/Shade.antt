-- ===== src/Raytracer/Shade.antt =====
-- The colours of apps/raytracer/raytracer.c.
use native.Mathlib.Nat.{mul-le-mul_left}
use hydra_microkernal.Prelude.{
  ℕ, ◌+◌, ◌*◌, ◌/◌, ◌%◌, ◌≤◌, ◌≡◌, refl, true, ℤ, arith, ltb, if◌then◌else◌,
}
use hydra_microkernal.Raytracer.{Hit, Vec3, vec3_dot, lit, light_intensity, shade_pixel}

-- Components of a colour that is lit: 30 at least and 255 at most, and 30 brighter than the sphere's colour at most.
pub record IsShade (color shade : ℕ) : Type 0 where
  pub red : ℕ
  pub green : ℕ
  pub blue : ℕ
  pub components : shade ≡ red * 65536 + green * 256 + blue
  pub bright : (30 ≤ red) × (30 ≤ green) × (30 ≤ blue)
  pub small : (red ≤ 255) × (green ≤ 255) × (blue ≤ 255)
  pub ambient :
      (red ≤ color / 65536 % 256 + 30)
      × (green ≤ color / 256 % 256 + 30)
      × (blue ≤ color % 256 + 30)

light_intensity-le : (dot : ℤ) → light_intensity dot ≤ 255
light_intensity-le dot = ground arith

-- A sum with the ambient light, cut to 255.
capped :
    (q channel : ℕ)
    → q ≤ channel
    → (30 ≤ (if ltb 255 (q + 30) then 255 else q + 30))
      × ((if ltb 255 (q + 30) then 255 else q + 30) ≤ 255)
      × ((if ltb 255 (q + 30) then 255 else q + 30) ≤ channel + 30)
capped q channel h = ground arith

lit-bounds :
    (channel intensity : ℕ)
    → intensity ≤ 255
    → (30 ≤ lit channel intensity)
      × (lit channel intensity ≤ 255)
      × (lit channel intensity ≤ channel + 30)
lit-bounds channel intensity h =
    capped (channel * intensity / 255) channel (omega (arith, mul-le-mul_left channel h))

-- The colour of a hit, whatever its normal and the light: three components between 30 and 255, each at most 30 more than
-- that of the sphere's colour.
pub shade_pixel-IsShade :
    (h : Hit) (light_dir : Vec3) → h.hit ≡ true → IsShade h.color (shade_pixel h light_dir)
unfolding shade_pixel
shade_pixel-IsShade h light_dir e =
    let i = light_intensity (vec3_dot h.normal light_dir) in
    let le = light_intensity-le (vec3_dot h.normal light_dir) in
    let r = lit-bounds (h.color / 65536 % 256) i le in
    let g = lit-bounds (h.color / 256 % 256) i le in
    let b = lit-bounds (h.color % 256) i le in
    record {
      red = lit (h.color / 65536 % 256) i;
      green = lit (h.color / 256 % 256) i;
      blue = lit (h.color % 256) i;
      components = rw e refl;
      bright = (r.0, g.0, b.0);
      small = (r.1, g.1, b.1);
      ambient = (r.2, g.2, b.2);
    }
