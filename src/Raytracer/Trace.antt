-- ===== src/Raytracer/Trace.antt =====
-- `trace_ray` of apps/raytracer/raytracer.c finds the nearest hit.
use hydra_microkernal.Prelude.{
  ℕ, zero, suc, ◌+◌, ◌≤◌, ◌<◌, ◌≡◌, refl, sym, subst, ◌∙◌, ◌⊎◌, inl, inr, Bool, true, false, ◌&&◌,
  some, ℤ, pos_part, arith, ℕ_discrete, if◌then◌else◌,
}
use hydra_microkernal.Fixed.{ltb_ℤ, neg_part}
use hydra_microkernal.Raytracer.{
  Ray, Sphere, Hit, no_hit, intersect_sphere, far_distance, trace_from, trace_ray,
}

-- a ≤ b
abbrev pub IsLe : ℤ → ℤ → Type 0
IsLe a b = pos_part a + neg_part b ≤ pos_part b + neg_part a

-- No sphere between `i` and `k` is hit before a distance.
abbrev pub NoneNearer : (ℕ → Hit) → ℕ → ℕ → ℤ → Type 0
NoneNearer hits i k distance =
    (j : ℕ) → i ≤ j → j < k → (hits j).hit ≡ true → IsLe distance (hits j).distance

-- The result of the search up to sphere `k`: no hit before the far distance, or the hit of a sphere, at a distance below
-- it; and no sphere is hit nearer than that.
pub data IsNearest (hits : ℕ → Hit) (k : ℕ) (h : Hit) : Type 0 where
  misses : h ≡ no_hit → NoneNearer hits 0 k far_distance → IsNearest hits k h
  meets :
      (j : ℕ)
      → j < k
      → h ≡ hits j
      → (hits j).hit ≡ true
      → ltb_ℤ (hits j).distance far_distance ≡ true
      → NoneNearer hits 0 k (hits j).distance
      → IsNearest hits k h

-- The state of the search in front of sphere `i`.
record IsSearch (hits : ℕ → Hit) (i : ℕ) (closest : Hit) (distance : ℤ) : Type 0 where
  none : NoneNearer hits 0 i distance
  near : IsLe distance far_distance
  found :
      ((closest ≡ no_hit) × (distance ≡ far_distance))
      ⊎ ((j : ℕ) × (j < i)
          × (closest ≡ hits j)
          × (distance ≡ (hits j).distance)
          × ((hits j).hit ≡ true)
          × (ltb_ℤ (hits j).distance far_distance ≡ true))

IsSearch-end :
    {hits : ℕ → Hit} {k : ℕ} {closest : Hit} {distance : ℤ}
    → IsSearch hits k closest distance
    → IsNearest hits k closest
IsSearch-end {hits} {k} s = elim s.found [
  | inl (e, f) ↦ misses e (subst (NoneNearer hits 0 k) f s.none)
  | inr (j, h, e, f, hit, near) ↦ meets j h e hit near (subst (NoneNearer hits 0 k) f s.none)
]

NoneNearer-next :
    (hits : ℕ → Hit) (i : ℕ) (d d' : ℤ)
    → NoneNearer hits 0 i d
    → IsLe d' d
    → ((hits i).hit ≡ true → IsLe d' (hits i).distance)
    → NoneNearer hits 0 (suc i) d'
NoneNearer-next hits i d d' f le last j p h hit = elim (ℕ_discrete j i) [
  | yes e ↦
      subst (λ j. IsLe d' (hits j).distance) (sym e) (last (subst (λ j. (hits j).hit ≡ true) e hit))
  | no ne ↦ omega (arith, le, f j (omega arith) (omega arith) hit)
]

is_nearer :
    (a : Bool) (d x : ℤ) → a && ltb_ℤ d x ≡ true → (a ≡ true) × IsLe d x × (ltb_ℤ d x ≡ true)
is_nearer true d x e = (refl, ground arith, e)
is_nearer false d x e = absurd (cc e)

not_nearer : (a : Bool) (d x : ℤ) → a && ltb_ℤ d x ≡ false → a ≡ true → IsLe x d
not_nearer true d x e h = ground arith
not_nearer false d x e h = absurd (cc h)

ltb_near : (a b : ℤ) → IsLe b far_distance → ltb_ℤ a b ≡ true → ltb_ℤ a far_distance ≡ true
ltb_near a b le h = ground arith

-- One sphere.
IsSearch-next :
    {hits : ℕ → Hit} {i : ℕ} {closest : Hit} {distance : ℤ} (nearer : Bool)
    → (hits i).hit && ltb_ℤ (hits i).distance distance ≡ nearer
    → IsSearch hits i closest distance
    → IsSearch hits
        (suc i)
        (if nearer then hits i else closest)
        (if nearer then (hits i).distance else distance)
IsSearch-next {hits} {i} {closest} {distance} true e s = record {
  none = NoneNearer-next hits i distance (hits i).distance s.none both.1 (λ hit. omega arith);
  near = omega (arith, both.1, s.near);
  found =
      inr (i, omega arith, refl, refl, both.0, ltb_near (hits i).distance distance s.near both.2);
}
  where
    both :
        ((hits i).hit ≡ true)
        × IsLe (hits i).distance distance
        × (ltb_ℤ (hits i).distance distance ≡ true)
    both = is_nearer (hits i).hit (hits i).distance distance e
IsSearch-next {hits} {i} {closest} {distance} false e s = record {
  none =
      NoneNearer-next hits i distance distance s.none (omega arith)
        (not_nearer (hits i).hit (hits i).distance distance e);
  near = s.near;
  found = elim s.found [
    | inl f ↦ inl f
    | inr (j, h, a, b, c, d) ↦ inr (j, omega (arith, h), a, b, c, d)
  ];
}

trace_from-next :
    (n i : ℕ) (spheres : ℕ → Sphere) (ray : Ray) (closest found : Hit) (distance : ℤ)
    → intersect_sphere ray (spheres i) ≡ some found
    → trace_from (suc n) i spheres ray closest distance
      ≡ trace_from n
          (suc i)
          spheres
          ray
          (if found.hit && ltb_ℤ found.distance distance then found else closest)
          (if found.hit && ltb_ℤ found.distance distance then found.distance else distance)
unfolding trace_from
trace_from-next n i spheres ray closest found distance e = rw (e, trace_from) refl

trace_from-IsNearest :
    (n i : ℕ) (spheres : ℕ → Sphere) (ray : Ray) (hits : ℕ → Hit) (closest : Hit) (distance : ℤ)
    → ((j : ℕ) → i ≤ j → j < i + n → intersect_sphere ray (spheres j) ≡ some (hits j))
    → IsSearch hits i closest distance
    → (h : Hit) × (trace_from n i spheres ray closest distance ≡ some h) × IsNearest hits (i + n) h
trace_from-IsNearest zero i spheres ray hits closest distance e s = (
  closest,
  unfold trace_from in refl,
  subst (λ k. IsNearest hits k closest) (omega arith) (IsSearch-end s),
)
trace_from-IsNearest (suc n) i spheres ray hits closest distance e s =
    let found = hits i in
    let nearer = found.hit && ltb_ℤ found.distance distance in
    let rest =
      trace_from-IsNearest n (suc i) spheres ray hits (if nearer then found else closest)
        (if nearer then found.distance else distance) (λ j p h. e j (omega arith) (omega arith))
        (IsSearch-next nearer refl s) in
    (
      rest.0,
      trace_from-next n i spheres ray closest found distance (e i (omega arith) (omega arith))
          ∙ rest.1,
      subst (λ k. IsNearest hits k rest.0) (omega arith) rest.2,
    )

-- If the intersections with the spheres are defined, `trace_ray` returns the nearest of their hits that is nearer than 1000, or no
-- hit if there is none.
pub trace_ray-IsNearest :
    (num_spheres : ℕ) (spheres : ℕ → Sphere) (ray : Ray) (hits : ℕ → Hit)
    → ((j : ℕ) → j < num_spheres → intersect_sphere ray (spheres j) ≡ some (hits j))
    → (h : Hit) × (trace_ray num_spheres spheres ray ≡ some h) × IsNearest hits num_spheres h
unfolding trace_ray
trace_ray-IsNearest num_spheres spheres ray hits e =
    let r =
      trace_from-IsNearest num_spheres 0 spheres ray hits no_hit far_distance
        (λ j p h. e j (omega arith))
        (record {
          none = λ j p h. absurd (omega arith);
          near = omega arith;
          found = inl (refl, refl);
        }) in
    (r.0, r.1, subst (λ k. IsNearest hits k r.0) (omega arith) r.2)
