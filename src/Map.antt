-- ===== src/Map.antt =====
-- shared/map.cpp: the tile grid, the collision test, the bases and the spawn points.
pub mod Laws
use Prim.Native.String.{String}
use Prim.Native.Char.{code}
use networked_capture_the_fl.Prelude.{
  ℕ, zero, suc, ◌+◌, ◌*◌, ◌-◌, Bool, true, false, ◌||◌, List, [], ◌∷◌, get_or, if◌then◌else◌, ◌==◌,
  ℤ, pos, ◌+ℤ◌, ◌-ℤ◌, ltb_ℤ, quot_ℤ, pos_part, not,
}
use networked_capture_the_fl.GameTypes.{Vec2Fixed, Team, red, blue}
use networked_capture_the_fl.GameTypes.Config.{
  map_width_tiles, map_height_tiles, tile_size_px, player_size_px, fixed_scale,
}

-- The code points of a text.
abbrev codes : String → List ℕ
codes String.[] = []
codes (String.◌∷◌ c s) = code c ∷ codes s

-- `kMapRows`
abbrev pub map_rows : List (List ℕ)
map_rows =
    codes "########################################"
    ∷ codes "#......................................#"
    ∷ codes "#......................................#"
    ∷ codes "#...####...........##...........####...#"
    ∷ codes "#...####...........##...........####...#"
    ∷ codes "#...####...........##...........####...#"
    ∷ codes "#...####...........##...........####...#"
    ∷ codes "#......................................#"
    ∷ codes "###########....##########....###########"
    ∷ codes "#......................................#"
    ∷ codes "#......................................#"
    ∷ codes "#.......####................####.......#"
    ∷ codes "#.......####................####.......#"
    ∷ codes "#.......####................####.......#"
    ∷ codes "#......................................#"
    ∷ codes "#......................................#"
    ∷ codes "###########....##########....###########"
    ∷ codes "#......................................#"
    ∷ codes "#...####...........##...........####...#"
    ∷ codes "#...####...........##...........####...#"
    ∷ codes "#...####...........##...........####...#"
    ∷ codes "#...####...........##...........####...#"
    ∷ codes "#......................................#"
    ∷ codes "#......................................#"
    ∷ codes "########################################"
    ∷ []

pub data TileType : Type 0 where
  empty wall : TileType

unfoldable pub tile_at : ℤ → ℤ → TileType
tile_at tile_x tile_y =
    if ltb_ℤ tile_x (pos 0)
      || not (ltb_ℤ tile_x (pos map_width_tiles))
      || ltb_ℤ tile_y (pos 0)
      || not (ltb_ℤ tile_y (pos map_height_tiles))
    then wall
    else (if get_or (get_or map_rows (pos_part tile_y) []) (pos_part tile_x) 0 == b'#'
        then wall
        else empty)

abbrev pub is_solid : TileType → Bool
is_solid empty = false
is_solid wall = true

unfoldable pub is_wall : ℤ → ℤ → Bool
is_wall tile_x tile_y = is_solid (tile_at tile_x tile_y)

-- `for (t = first; t < first + n; ++t) if (p(t)) return true;`
abbrev pub any_from : ℕ → ℤ → (ℤ → Bool) → Bool
any_from zero first p = false
any_from (suc n) first p = p first || any_from n (first +ℤ pos 1) p

-- The number of turns of `for (t = first; t <= last; ++t)`.
abbrev pub span : ℤ → ℤ → ℕ
span first last = pos_part ((last -ℤ first) +ℤ pos 1)

abbrev pub size_fp : ℕ
size_fp = player_size_px * fixed_scale

abbrev pub tile_fp : ℕ
tile_fp = tile_size_px * fixed_scale

unfoldable pub aabb_collides : Vec2Fixed → Bool
aabb_collides position =
    let min_tx = quot_ℤ position.x tile_fp in
    let max_tx = quot_ℤ ((position.x +ℤ pos size_fp) -ℤ pos 1) tile_fp in
    let min_ty = quot_ℤ position.y tile_fp in
    let max_ty = quot_ℤ ((position.y +ℤ pos size_fp) -ℤ pos 1) tile_fp in
    any_from (span min_ty max_ty) min_ty
      λ ty. any_from (span min_tx max_tx) min_tx λ tx. is_wall tx ty

-- The source calls it on tiles of the map only.
abbrev pub tile_to_fp : ℕ → ℕ → Vec2Fixed
tile_to_fp tile_x tile_y = record {
  x = pos (tile_x * tile_size_px * fixed_scale);
  y = pos (tile_y * tile_size_px * fixed_scale);
}

abbrev pub red_base_position : Vec2Fixed
red_base_position = tile_to_fp 2 12

abbrev pub blue_base_position : Vec2Fixed
blue_base_position = tile_to_fp 37 12

abbrev pub red_spawn_points : List Vec2Fixed
red_spawn_points =
    tile_to_fp 2 5
    ∷ tile_to_fp 2 7
    ∷ tile_to_fp 2 9
    ∷ tile_to_fp 2 11
    ∷ tile_to_fp 2 13
    ∷ tile_to_fp 1 12
    ∷ tile_to_fp 3 10
    ∷ tile_to_fp 3 14
    ∷ tile_to_fp 1 9
    ∷ tile_to_fp 1 15
    ∷ []

abbrev pub blue_spawn_points : List Vec2Fixed
blue_spawn_points =
    tile_to_fp 37 5
    ∷ tile_to_fp 37 7
    ∷ tile_to_fp 37 9
    ∷ tile_to_fp 37 11
    ∷ tile_to_fp 37 13
    ∷ tile_to_fp 38 12
    ∷ tile_to_fp 36 10
    ∷ tile_to_fp 36 14
    ∷ tile_to_fp 38 9
    ∷ tile_to_fp 38 15
    ∷ []

-- The spawn points of a team.
abbrev pub spawn_points : Team → List Vec2Fixed
spawn_points red = red_spawn_points
spawn_points blue = blue_spawn_points
