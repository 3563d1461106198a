-- ===== src/Server/Sim/Ray.antt =====
-- server/sim.cpp, `cast_ray`: the march of a shot to the first wall or enemy. The direction of an
-- angle, `llround(cos(ang) * kRayScale)` and that of the sine, is the C++ library's, and a parameter.
use networked_capture_the_fl.Prelude.{
  if◌then◌else◌, ℤ, pos, ◌+ℤ◌, ◌*ℤ◌, ltb_ℤ, shr_ℤ, quot_ℤ, to_bits, ℕ, zero, suc, ◌+◌, ◌*◌, ◌/◌,
  ◌^◌, Bool, true, false, not, ◌&&◌, Option, none, some, List, [], ◌∷◌,
}
use networked_capture_the_fl.GameTypes.{Vec2Fixed, Team}
use networked_capture_the_fl.GameTypes.Config.{
  tile_size_px, fixed_scale, map_width_tiles, map_height_tiles,
}
use networked_capture_the_fl.Map.{is_wall, size_fp, tile_fp}
use networked_capture_the_fl.Server.Sim.{Player, same_team}

abbrev pub ray_shift : ℕ
ray_shift = 10

abbrev pub ray_scale : ℕ
ray_scale = 2 ^ ray_shift

abbrev pub ray_step_fp : ℕ
ray_step_fp = 8

abbrev pub max_ray_steps : ℕ
max_ray_steps =
    (map_width_tiles * tile_size_px + map_height_tiles * tile_size_px)
    * 2
    * fixed_scale
    / ray_step_fp

-- A coordinate of the ray, and the fraction of a unit that the march carries over.
pub record Marcher : Type 0 where
  pub at : ℤ
  pub rem : ℤ

-- `rem += step; at += rem >> kRayShift; rem &= kRayScale - 1;`
unfoldable pub march : ℤ → Marcher → Marcher
march step m =
    let r = m.rem +ℤ step in
    record { at = m.at +ℤ shr_ℤ r ray_shift; rem = pos (to_bits ray_shift r) }

-- Whether a point lies in a player's box, and the player is an enemy who can be hit.
unfoldable pub in_box : ℤ → ℤ → Vec2Fixed → Bool
in_box px py p =
    not (ltb_ℤ px p.x)
    && ltb_ℤ px (p.x +ℤ pos size_fp)
    && not (ltb_ℤ py p.y)
    && ltb_ℤ py (p.y +ℤ pos size_fp)

abbrev pub is_target : Team → Player → Bool
is_target shooter_team e = e.active && e.alive && not (same_team e.team shooter_team)

-- The first enemy whose box has the point, from an identifier on.
abbrev pub find_struck : Team → ℤ → ℤ → ℕ → List Player → Option ℕ
find_struck t px py id [] = none
find_struck t px py id (e ∷ es) =
    let rest = find_struck t px py (id + 1) es in
    if is_target t e && in_box px py e.position then some id else rest

-- `n` further steps.
abbrev pub ray_loop : Team → List Player → ℤ × ℤ → ℕ → Marcher → Marcher → Option ℕ × Vec2Fixed
ray_loop t players step zero mx my = (none, record { x = mx.at; y = my.at })
ray_loop t players step (suc n) mx my =
    let nx = march step.0 mx in
    let ny = march step.1 my in
    let hit_point : Vec2Fixed = record { x = nx.at; y = ny.at } in
    elim (is_wall (quot_ℤ nx.at tile_fp) (quot_ℤ ny.at tile_fp)) [
      | true ↦ (none, hit_point)
      | false ↦ elim (find_struck t nx.at ny.at 0 players) [
        | some id ↦ (some id, hit_point)
        | none ↦ ray_loop t players step n nx ny
      ]
    ]

-- The enemy that is hit, and `last_ray_hit_`.
unfoldable pub cast_ray : (ℕ → ℤ × ℤ) → Vec2Fixed → ℕ → Team → List Player → Option ℕ × Vec2Fixed
cast_ray direction origin aim_angle shooter_team players =
    let d = direction aim_angle in
    ray_loop shooter_team players (d.0 *ℤ pos ray_step_fp, d.1 *ℤ pos ray_step_fp) max_ray_steps
      (record { at = origin.x; rem = pos 0 }) (record { at = origin.y; rem = pos 0 })
