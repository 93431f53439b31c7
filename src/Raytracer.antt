-- ===== src/Raytracer.antt =====
-- apps/raytracer/raytracer.h and raytracer.c: rays and spheres in fixed point. The coordinates are `int`; Fixed has their
-- arithmetic and says what `none` stands for. A colour is a number 0x00RRGGBB. Log output is left out.
pub mod Trace
pub mod Shade
pub mod Render
mod Tests
use hydra_microkernal.Prelude.{
  ℕ, zero, suc, ◌+◌, ◌-◌, ◌*◌, ◌/◌, ◌%◌, ◌^◌, Bool, true, false, not, ◌&&◌, Option, none, some, ℤ,
  pos, negsuc, is_neg, is_nonpos, pos_part, to_int, ltb, ◌==◌, if◌then◌else◌,
}
use hydra_microkernal.Fixed.{
  ltb_ℤ, plus, minus, times, checked, shifted, fixed_mul, fixed_div, neg_part, ◌>>=◌,
}

-- `vec3_t`, `ray_t`, `sphere_t` and `hit_t`
pub record Vec3 : Type 0 where
  pub x : ℤ
  pub y : ℤ
  pub z : ℤ

pub record Ray : Type 0 where
  pub origin : Vec3
  pub direction : Vec3

pub record Sphere : Type 0 where
  pub center : Vec3
  pub radius : ℤ
  pub color : ℕ

pub record Hit : Type 0 where
  pub hit : Bool
  pub distance : ℤ
  pub point : Vec3
  pub normal : Vec3
  pub color : ℕ

-- `a + b` and `a - b` on `int`
abbrev pub add_int : ℤ → ℤ → Option ℤ
add_int a b = checked (2 ^ 31) (plus a b)

abbrev pub sub_int : ℤ → ℤ → Option ℤ
sub_int a b = checked (2 ^ 31) (minus a b)

unfoldable pub vec3_add : Vec3 → Vec3 → Option Vec3
vec3_add a b = do
  x ← add_int a.x b.x
  y ← add_int a.y b.y
  z ← add_int a.z b.z
  some (record { x = x; y = y; z = z })

unfoldable pub vec3_sub : Vec3 → Vec3 → Option Vec3
vec3_sub a b = do
  x ← sub_int a.x b.x
  y ← sub_int a.y b.y
  z ← sub_int a.z b.z
  some (record { x = x; y = y; z = z })

unfoldable pub vec3_mul_scalar : Vec3 → ℤ → Vec3
vec3_mul_scalar v s = record {
  x = to_int (fixed_mul v.x s);
  y = to_int (fixed_mul v.y s);
  z = to_int (fixed_mul v.z s);
}

-- The sum has 64 bits, and the result is converted to `int`.
unfoldable pub vec3_dot : Vec3 → Vec3 → ℤ
vec3_dot a b = to_int (plus (plus (fixed_mul a.x b.x) (fixed_mul a.y b.y)) (fixed_mul a.z b.z))

-- `x == 0`, and `x == y`
abbrev pub is_zero : ℤ → Bool
is_zero x = pos_part x + neg_part x == 0

-- Newton's iteration from `result` on, with `n` rounds left.
unfoldable pub newton : ℕ → ℤ → ℤ → Option ℤ
newton zero x result = some result
newton (suc n) x result = elim (fixed_div x result) [
  | none ↦ none
  | some q ↦
      let next = to_int (shifted 2 (plus result q)) in
      let rest = newton n x next in if is_zero (minus next result) then some next else rest
]

unfoldable pub fixed_sqrt : ℤ → Option ℤ
unfolding newton
fixed_sqrt x = if is_nonpos x then some (pos 0) else newton 8 x x

-- FIXED_DIV, converted to `int`
abbrev pub div_int : ℤ → ℤ → Option ℤ
div_int a b = do q ← fixed_div a b; some (to_int q)

unfoldable pub vec3_normalize : Vec3 → Option Vec3
unfolding vec3_dot fixed_sqrt
vec3_normalize v = if is_zero (vec3_dot v v) then some v else (do
  len ← fixed_sqrt (vec3_dot v v)
  x ← div_int v.x len
  y ← div_int v.y len
  z ← div_int v.z len
  some (record { x = x; y = y; z = z }))

unfoldable pub create_ray : Vec3 → Vec3 → Option Ray
unfolding vec3_normalize
create_ray origin direction = do
  d ← vec3_normalize direction
  some (record { origin = origin; direction = d })

abbrev pub origin_vec : Vec3
origin_vec = record { x = pos 0; y = pos 0; z = pos 0 }

-- `{0}`
abbrev pub no_hit : Hit
no_hit = record {
  hit = false;
  distance = pos 0;
  point = origin_vec;
  normal = origin_vec;
  color = 0;
}

-- The hit at a distance along the ray.
unfoldable pub hit_at : Ray → Sphere → ℤ → Option Hit
unfolding vec3_add vec3_mul_scalar vec3_sub vec3_normalize
hit_at ray sphere t = do
  point ← vec3_add ray.origin (vec3_mul_scalar ray.direction t)
  from_center ← vec3_sub point sphere.center
  normal ← vec3_normalize from_center
  some (record { hit = true; distance = t; point = point; normal = normal; color = sphere.color })

-- The part of `intersect_sphere` behind the test of the discriminant.
unfoldable pub nearest_root : Ray → Sphere → ℤ → ℤ → ℤ → Option Hit
unfolding fixed_sqrt hit_at
nearest_root ray sphere a b discriminant = do
  sqrt_disc ← fixed_sqrt discriminant
  minus_b ← sub_int (pos 0) b
  below ← sub_int minus_b sqrt_disc
  t1 ← div_int below (fixed_mul (pos 131072) a)
  above ← add_int minus_b sqrt_disc
  t2 ← div_int above (fixed_mul (pos 131072) a)
  let t = if is_nonpos t1 then t2 else t1 in
      if is_nonpos t then some no_hit else hit_at ray sphere t

unfoldable pub intersect_sphere : Ray → Sphere → Option Hit
unfolding vec3_sub vec3_dot nearest_root
intersect_sphere ray sphere = do
  oc ← vec3_sub ray.origin sphere.center
  let a = vec3_dot ray.direction ray.direction in
      let b = to_int (fixed_mul (pos 131072) (vec3_dot oc ray.direction)) in
      let c = to_int (minus (vec3_dot oc oc) (fixed_mul sphere.radius sphere.radius)) in
      (do
        product ← checked (2 ^ 63) (times (fixed_mul (pos 262144) a) c)
        let discriminant = to_int (minus (fixed_mul b b) (shifted 65536 product)) in
            if is_neg discriminant then some no_hit else nearest_root ray sphere a b discriminant)

-- FLOAT_TO_FIXED(1000.0f)
abbrev pub far_distance : ℤ
far_distance = pos 65536000

-- The loop over the spheres from the `i`th on, with `n` left.
unfoldable pub trace_from : ℕ → ℕ → (ℕ → Sphere) → Ray → Hit → ℤ → Option Hit
unfolding intersect_sphere
trace_from zero i spheres ray closest distance = some closest
trace_from (suc n) i spheres ray closest distance = elim (intersect_sphere ray (spheres i)) [
  | none ↦ none
  | some found ↦
      let nearer = found.hit && ltb_ℤ found.distance distance in
      trace_from n (suc i) spheres ray (if nearer then found else closest)
        (if nearer then found.distance else distance)
]

unfoldable pub trace_ray : ℕ → (ℕ → Sphere) → Ray → Option Hit
unfolding trace_from
trace_ray num_spheres spheres ray = trace_from num_spheres 0 spheres ray no_hit far_distance

-- The sky, 0x00202040.
abbrev pub sky_color : ℕ
sky_color = 2105408

-- "Apply lighting" and "Add ambient lighting" to one component.
abbrev pub lit : ℕ → ℕ → ℕ
lit channel intensity = let sum = channel * intensity / 255 + 30 in if ltb 255 sum then 255 else sum

-- `intensity`: the number of 1/65536 in the product of the floats is exact up to 255, and more is cut to 255.
abbrev pub light_intensity : ℤ → ℕ
light_intensity dot =
    let product = pos_part dot * 255 / 65536 in if ltb 255 product then 255 else product

-- The three components have no bit in common where they are joined.
unfoldable pub shade_pixel : Hit → Vec3 → ℕ
unfolding vec3_dot
shade_pixel h light_dir =
    if not h.hit
    then sky_color
    else let intensity = light_intensity (vec3_dot h.normal light_dir) in
      lit (h.color / 65536 % 256) intensity * 65536
      + lit (h.color / 256 % 256) intensity * 256
      + lit (h.color % 256) intensity
