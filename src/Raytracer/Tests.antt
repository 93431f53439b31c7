-- ===== src/Raytracer/Tests.antt =====
-- The theorems about apps/raytracer/raytracer.c at a ray and a buffer.
use hydra_microkernal.Prelude.{
  ℕ, zero, suc, true, arith, ◌<◌, ◌≡◌, refl, none, some, pos, negsuc, ◌==◌, if◌then◌else◌,
}
use hydra_microkernal.Fixed.{plus, minus, times}
use hydra_microkernal.Raytracer.{Ray, Hit, no_hit, origin_vec, intersect_sphere, trace_ray}
use hydra_microkernal.Raytracer.Trace.{IsNearest, trace_ray-IsNearest}
use hydra_microkernal.Raytracer.Render.{default_sphere}

-- The ray of the image's centre.
abbrev ahead : Ray
ahead = record {
  origin = origin_vec;
  direction = record { x = pos 0; y = pos 0; z = negsuc 65535 };
}

-- It meets the red sphere at the distance 4, and misses the green one.
abbrev red_hit : Hit
red_hit = record {
  hit = true;
  distance = pos 262144;
  point = record { x = pos 0; y = pos 0; z = negsuc 262143 };
  normal = record { x = pos 0; y = pos 0; z = pos 65536 };
  color = 16728128;
}

abbrev two_hits : ℕ → Hit
two_hits i = if i == 0 then red_hit else no_hit

two_hits-lem : (j : ℕ) → j < 2 → intersect_sphere ahead (default_sphere j) ≡ some (two_hits j)
unfolding intersect_sphere minus times plus
two_hits-lem zero h = refl
two_hits-lem (suc zero) h = refl
two_hits-lem (suc (suc j)) h = absurd (omega arith)

trace_ray-IsNearest_example :
    (h : Hit) × (trace_ray 2 default_sphere ahead ≡ some h) × IsNearest two_hits 2 h
trace_ray-IsNearest_example = trace_ray-IsNearest 2 default_sphere ahead two_hits two_hits-lem

-- The ray of column 15 and row 29 meets the ground, where the normal's length overflows.
abbrev downward : Ray
downward = record {
  origin = origin_vec;
  direction = record { x = negsuc 30238; y = negsuc 11857; z = negsuc 56919 };
}

ground-overflows : intersect_sphere downward (default_sphere 3) ≡ none
unfolding intersect_sphere minus times plus
ground-overflows = refl
