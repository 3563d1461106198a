-- ===== src/Server/Sim/RayEnds.antt =====
-- The march of a shot in server/sim.cpp ends before its steps run out.
use networked_capture_the_fl.Prelude.{
  ℤ, pos, negsuc, pos_part, neg_part, ◌+ℤ◌, ◌*ℤ◌, ◌≤ℤ◌, shr_ℤ, quot_ℤ, to_bits, +ℤ_parts, ℕ, zero,
  suc, ◌+◌, ◌*◌, ◌/◌, ◌≤◌, ◌<◌, ◌≡◌, refl, ◌⊎◌, inl, inr, Bool, true, false, Option, none, some,
  List, arith,
}
use networked_capture_the_fl.GameTypes.{Vec2Fixed, Team}
use networked_capture_the_fl.GameTypes.Config.{map_width_tiles, map_height_tiles}
use networked_capture_the_fl.Map.{is_wall, tile_at, tile_fp}
use networked_capture_the_fl.Map.Laws.{left_of_map, above_map}
use networked_capture_the_fl.Server.Sim.{Player}
use networked_capture_the_fl.Server.Sim.Ray.{
  ray_shift, ray_step_fp, max_ray_steps, Marcher, march, ray_loop, cast_ray,
}
use networked_capture_the_fl.Server.Sim.RayLaws.{
  IsStruck, MissesAll, find_struck-none, find_struck-IsStruck, outcome-elim,
}

-- A number is its quotient and its remainder.
shr-bits :
    (r : ℤ)
    → (1024 * pos_part (shr_ℤ r ray_shift) + to_bits ray_shift r + neg_part r
        ≡ 1024 * neg_part (shr_ℤ r ray_shift) + pos_part r)
      × (to_bits ray_shift r < 1024)
shr-bits (pos n) = (omega arith, omega arith)
shr-bits (negsuc n) = (omega arith, omega arith)

-- A step moves the coordinate, with its fraction, by the direction.
march_lem :
    (step : ℤ) (m : Marcher)
    → let q = march step m in
      (1024 * pos_part q.at + pos_part q.rem + 1024 * neg_part m.at + neg_part m.rem + neg_part step
        ≡ 1024 * neg_part q.at + 1024 * pos_part m.at + pos_part m.rem + pos_part step)
      × (neg_part q.rem ≡ 0)
      × (pos_part q.rem < 1024)
unfolding march
march_lem step m =
    let r = m.rem +ℤ step in
    let (e, low) = shr-bits r in
    (omega (arith, e, +ℤ_parts m.rem step, +ℤ_parts m.at (shr_ℤ r ray_shift)), refl, low)

beyond_x-wall : (x : ℕ) (y : ℤ) → map_width_tiles ≤ x → is_wall (pos x) y ≡ true
unfolding is_wall tile_at
beyond_x-wall x y h = ground arith

beyond_y-wall : (x : ℤ) (y : ℕ) → map_height_tiles ≤ y → is_wall x (pos y) ≡ true
unfolding is_wall tile_at
beyond_y-wall x y h = ground arith

outside_x :
    (x : ℤ) (y : ℤ)
    → (map_width_tiles * tile_fp ≤ pos_part x) ⊎ (1 ≤ neg_part x)
    → is_wall (quot_ℤ x tile_fp) y ≡ true
outside_x (pos x) y (inl h) = beyond_x-wall (x / tile_fp) y (omega arith)
outside_x (pos x) y (inr h) = absurd (omega arith)
outside_x (negsuc n) y h = left_of_map n y

outside_y :
    (x : ℤ) (y : ℤ)
    → (map_height_tiles * tile_fp ≤ pos_part y) ⊎ (1 ≤ neg_part y)
    → is_wall x (quot_ℤ y tile_fp) ≡ true
outside_y x (pos y) (inl h) = beyond_y-wall x (y / tile_fp) (omega arith)
outside_y x (pos y) (inr h) = absurd (omega arith)
outside_y x (negsuc n) h = above_map x n

-- One coordinate of a ray that leaves the map, of a length of `limit`, within `n` steps: forwards or
-- backwards. A direction has 724 of 1024 parts in one coordinate or more, so 5792 in a step.
record IsForward (limit n : ℕ) (step : ℤ) (m : Marcher) : Type 0 where
  fast : 5792 ≤ pos_part step
  part : (neg_part m.rem ≡ 0) × (pos_part m.rem < 1024)
  far : limit * 1024 + 1024 * neg_part m.at ≤ 1024 * pos_part m.at + pos_part m.rem + n * 5792

record IsBackward (n : ℕ) (step : ℤ) (m : Marcher) : Type 0 where
  fast : 5792 ≤ neg_part step
  part : (neg_part m.rem ≡ 0) × (pos_part m.rem < 1024)
  far : 1024 * pos_part m.at + pos_part m.rem + 1 ≤ 1024 * neg_part m.at + n * 5792

abbrev Escapes : ℕ → ℕ → ℤ → Marcher → Type 0
Escapes limit n step m = IsForward limit n step m ⊎ IsBackward n step m

one_sign : (a : ℤ) → (pos_part a ≡ 0) ⊎ (neg_part a ≡ 0)
one_sign (pos n) = inr refl
one_sign (negsuc n) = inl refl

march-Escapes :
    (limit n : ℕ) (step : ℤ) (m : Marcher)
    → Escapes limit (suc n) step m
    → Escapes limit n step (march step m)
march-Escapes limit n step m (inl f) =
    let (e, zero_part, low) = march_lem step m in
    let sign = one_sign step in
    let back : neg_part step ≡ 0 = ground (arith, f.fast) in
    inl (record {
      fast = f.fast;
      part = (zero_part, low);
      far = omega (arith, f.far, f.part, f.fast);
    })
march-Escapes limit n step m (inr b) =
    let (e, zero_part, low) = march_lem step m in
    let sign = one_sign step in
    let back : pos_part step ≡ 0 = ground (arith, b.fast) in
    inr (record {
      fast = b.fast;
      part = (zero_part, low);
      far = omega (arith, b.far, b.part, b.fast);
    })

escaped :
    (limit : ℕ) (step : ℤ) (m : Marcher)
    → Escapes limit 0 step m
    → (limit ≤ pos_part m.at) ⊎ (1 ≤ neg_part m.at)
escaped limit step m (inl f) = inl (omega (arith, f.far, f.part))
escaped limit step m (inr b) = inr (omega (arith, b.far, b.part))

-- The point of a ray after some steps.
abbrev pub marched : ℕ → ℤ → Marcher → Marcher
marched zero step m = m
marched (suc n) step m = marched n step (march step m)

abbrev pub ray_point : ℕ → ℤ × ℤ → Marcher → Marcher → Vec2Fixed
ray_point n step mx my = record { x = (marched n step.0 mx).at; y = (marched n step.1 my).at }

abbrev pub in_wall : Vec2Fixed → Bool
in_wall p = is_wall (quot_ℤ p.x tile_fp) (quot_ℤ p.y tile_fp)

-- The outcome of a ray is that of its first point that lies in a wall or in the box of a player who
-- may be hit: after `steps` steps, of `n` at most.
pub record EndsFirst (t : Team) (ps : List Player) (step : ℤ × ℤ) (n : ℕ) (mx my : Marcher)
    (o : Option ℕ × Vec2Fixed) : Type 0 where
  pub steps : ℕ
  pub begun : (n ≡ 0) ⊎ (1 ≤ steps)
  pub in_time : steps ≤ n
  pub at : o.1 ≡ ray_point steps step mx my
  pub clear :
      (k : ℕ)
      → 1 ≤ k
      → k < steps
      → let p = ray_point k step mx my in (in_wall p ≡ false) × MissesAll t p ps
  pub ends :
      ((o.0 ≡ none) × (in_wall o.1 ≡ true))
      ⊎ ((k : ℕ) × (o.0 ≡ some k) × (in_wall o.1 ≡ false) × IsStruck t o.1 ps k)

first_step-EndsFirst :
    (t : Team) (ps : List Player) (step : ℤ × ℤ) (n : ℕ) (mx my : Marcher) (o : Option ℕ)
    → let p = ray_point 1 step mx my in
      ((o ≡ none) × (in_wall p ≡ true))
        ⊎ ((k : ℕ) × (o ≡ some k) × (in_wall p ≡ false) × IsStruck t p ps k)
      → EndsFirst t ps step (suc n) mx my (o, p)
first_step-EndsFirst t ps step n mx my o h = record {
  steps = 1;
  begun = inr (omega arith);
  in_time = omega arith;
  at = refl;
  clear = λ k low high. absurd (omega (arith, low, high));
  ends = h;
}

later-clear :
    (t : Team) (ps : List Player) (step : ℤ × ℤ) (n : ℕ) (mx my : Marcher)
    (o : Option ℕ × Vec2Fixed)
    → in_wall (ray_point 1 step mx my) ≡ false
    → MissesAll t (ray_point 1 step mx my) ps
    → (h : EndsFirst t ps step n (march step.0 mx) (march step.1 my) o) → (k : ℕ) → 1 ≤ k
    → k < suc h.steps
    → let p = ray_point k step mx my in (in_wall p ≡ false) × MissesAll t p ps
later-clear t ps step n mx my o free misses h zero low high = absurd (omega (arith, low))
later-clear t ps step n mx my o free misses h (suc zero) low high = (free, misses)
later-clear t ps step n mx my o free misses h (suc (suc i)) low high =
    h.clear (suc i) (omega arith) (omega (arith, high))

later-EndsFirst :
    (t : Team) (ps : List Player) (step : ℤ × ℤ) (n : ℕ) (mx my : Marcher)
    (o : Option ℕ × Vec2Fixed)
    → in_wall (ray_point 1 step mx my) ≡ false
    → MissesAll t (ray_point 1 step mx my) ps
    → EndsFirst t ps step n (march step.0 mx) (march step.1 my) o
    → EndsFirst t ps step (suc n) mx my o
later-EndsFirst t ps step n mx my o free misses h = record {
  steps = suc h.steps;
  begun = inr (omega arith);
  in_time = omega (arith, h.in_time);
  at = h.at;
  clear = later-clear t ps step n mx my o free misses h;
  ends = h.ends;
}

-- Where the steps have run out the ray is out of the map.
escaped-EndsFirst :
    (t : Team) (ps : List Player) (step : ℤ × ℤ) (mx my : Marcher)
    → in_wall (record { x = mx.at; y = my.at }) ≡ true
    → EndsFirst t ps step 0 mx my (none, record { x = mx.at; y = my.at })
escaped-EndsFirst t ps step mx my w = record {
  steps = 0;
  begun = inl refl;
  in_time = omega arith;
  at = refl;
  clear = λ k low high. absurd (omega (arith, high));
  ends = inl (refl, w);
}

ray_loop-EndsFirst :
    (t : Team) (ps : List Player) (step : ℤ × ℤ) (n : ℕ) (mx my : Marcher)
    → Escapes (map_width_tiles * tile_fp) n step.0 mx
      ⊎ Escapes (map_height_tiles * tile_fp) n step.1 my
    → EndsFirst t ps step n mx my (ray_loop t ps step n mx my)
ray_loop-EndsFirst t ps step zero mx my (inl h) =
    escaped-EndsFirst t ps step mx my
      (outside_x mx.at (quot_ℤ my.at tile_fp) (escaped _ step.0 mx h))
ray_loop-EndsFirst t ps step zero mx my (inr h) =
    escaped-EndsFirst t ps step mx my
      (outside_y (quot_ℤ mx.at tile_fp) my.at (escaped _ step.1 my h))
ray_loop-EndsFirst t ps step (suc n) mx my h =
    let nx = march step.0 mx in
    let ny = march step.1 my in
    outcome-elim (EndsFirst t ps step (suc n) mx my) (in_wall (ray_point 1 step mx my)) _ _ _
      (λ w. first_step-EndsFirst t ps step n mx my none (inl (refl, w)))
      (λ k free e.
        first_step-EndsFirst t ps step n mx my (some k)
          (inr (k, refl, free, find_struck-IsStruck t nx.at ny.at k ps e)))
      (λ free e. later-EndsFirst t ps step n mx my _ free (find_struck-none t nx.at ny.at 0 ps e) (
        ray_loop-EndsFirst t ps step n nx ny (elim h [
          | inl x ↦ inl (march-Escapes _ n step.0 mx x)
          | inr y ↦ inr (march-Escapes _ n step.1 my y)
        ])))

-- A direction with 724 parts or more of 1024 in a coordinate, as the cosine or the sine has.
abbrev pub IsSteep : ℤ → Type 0
IsSteep d = (724 ≤ pos_part d) ⊎ (724 ≤ neg_part d)

steep_step :
    (d : ℤ)
    → IsSteep d
    → (5792 ≤ pos_part (d *ℤ pos ray_step_fp)) ⊎ (5792 ≤ neg_part (d *ℤ pos ray_step_fp))
unfolding ◌*ℤ◌
steep_step (pos n) (inl h) = inl ground arith
steep_step (pos n) (inr h) = absurd (omega arith)
steep_step (negsuc n) (inl h) = absurd (omega arith)
steep_step (negsuc n) (inr h) = inr ground arith

starts-Escapes :
    (limit : ℕ) (a d : ℤ)
    → IsSteep d
    → limit ≤ 500000
    → pos 0 ≤ℤ a
    → a ≤ℤ pos limit
    → Escapes limit max_ray_steps (d *ℤ pos ray_step_fp) (record { at = a; rem = pos 0 })
starts-Escapes limit a d s small h k = elim (steep_step d s) [
  | inl f ↦ inl (record { fast = f; part = (refl, omega arith); far = omega arith })
  | inr b ↦ inr (record { fast = b; part = (refl, omega arith); far = omega arith })
]

-- Where a ray starts.
abbrev pub at_origin : ℤ → Marcher
at_origin a = record { at = a; rem = pos 0 }

-- A shot from a point of the map ends within the steps of the loop, and with its first point in a wall
-- or in the box of a player whom it may hit: with nobody in the one case, and with such a player in the
-- other. Given is of the rounded cosine and sine that one of them has 724 parts of 1024 or more.
pub cast_ray-EndsFirst :
    (direction : ℕ → ℤ × ℤ) (origin : Vec2Fixed) (aim : ℕ) (t : Team) (ps : List Player)
    → IsSteep (direction aim).0 ⊎ IsSteep (direction aim).1
    → (pos 0 ≤ℤ origin.x) × (origin.x ≤ℤ pos (map_width_tiles * tile_fp))
    → (pos 0 ≤ℤ origin.y) × (origin.y ≤ℤ pos (map_height_tiles * tile_fp))
    → let d = direction aim in
      EndsFirst t ps
        (d.0 *ℤ pos ray_step_fp, d.1 *ℤ pos ray_step_fp)
        max_ray_steps
        (at_origin origin.x)
        (at_origin origin.y)
        (cast_ray direction origin aim t ps)
unfolding cast_ray
cast_ray-EndsFirst direction origin aim t ps steep (x0, x1) (y0, y1) =
    let d = direction aim in
    ray_loop-EndsFirst t ps (d.0 *ℤ pos ray_step_fp, d.1 *ℤ pos ray_step_fp) max_ray_steps
      (at_origin origin.x) (at_origin origin.y)
      (elim steep [
        | inl s ↦ inl (starts-Escapes _ origin.x d.0 s (omega arith) x0 x1)
        | inr s ↦ inr (starts-Escapes _ origin.y d.1 s (omega arith) y0 y1)
      ])
