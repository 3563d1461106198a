-- ===== src/Bot/FlowField.antt =====
-- bot/flow_field.cpp: the field of distances by which a bot finds its way, and its steering.
pub mod Cells
pub mod Rounds
pub mod Walks
pub mod Levels
pub mod Shortest
pub mod Steering
pub mod Progress
pub mod Guides
use networked_capture_the_fl.Prelude.{
  ltb, ◌==◌, if◌then◌else◌, get_or, set, replicate, ℤ, pos, negsuc, pos_part, ◌+ℤ◌, ◌-ℤ◌, ◌*ℤ◌,
  ltb_ℤ, quot_ℤ, ℕ, zero, suc, ◌+◌, ◌-◌, ◌*◌, ◌/◌, ◌%◌, ◌^◌, bit_or, Bool, true, false, not, ◌&&◌,
  ◌||◌, List, [], ◌∷◌, ◌++◌,
}
use networked_capture_the_fl.GameTypes.{Vec2Fixed}
use networked_capture_the_fl.GameTypes.Config.{
  map_width_tiles, map_height_tiles, move_speed_fp_per_tick,
}
use networked_capture_the_fl.Map.{tile_fp, size_fp, is_wall, aabb_collides}
use networked_capture_the_fl.Movement.{input_up, input_down, input_left, input_right}

pub record Tile : Type 0 where
  pub x : ℤ
  pub y : ℤ

-- `kUnreachable`
abbrev pub unreachable : ℕ
unreachable = 65535

abbrev pub center_margin_fp : ℕ
center_margin_fp = (tile_fp - size_fp) / 2

-- A coordinate, kept within the grid.
abbrev pub clamped : ℕ → ℤ → ℤ
clamped n v =
    let low = if ltb_ℤ v (pos 0) then pos 0 else v in if ltb_ℤ low (pos n) then low else pos (n - 1)

unfoldable pub tile_of : Vec2Fixed → Tile
tile_of p = record {
  x = clamped map_width_tiles (quot_ℤ p.x tile_fp);
  y = clamped map_height_tiles (quot_ℤ p.y tile_fp);
}

unfoldable pub on_grid : Tile → Bool
on_grid t = not (
    ltb_ℤ t.x (pos 0)
    || ltb_ℤ t.y (pos 0)
    || not (ltb_ℤ t.x (pos map_width_tiles))
    || not (ltb_ℤ t.y (pos map_height_tiles)))

-- Where a player's box stands that is centered in the tile.
abbrev pub center_of : Tile → Vec2Fixed
center_of t = record {
  x = (t.x *ℤ pos tile_fp) +ℤ pos center_margin_fp;
  y = (t.y *ℤ pos tile_fp) +ℤ pos center_margin_fp;
}

unfoldable pub tile_passable : Tile → Bool
tile_passable t =
    if on_grid t
    then (if is_wall t.x t.y then false else not (aabb_collides (center_of t)))
    else false

-- `dist_`: the rows of the grid.
abbrev pub Field : Type 0
Field = List (List ℕ)

-- `dist_[t.y][t.x]`
unfoldable pub cell : Field → Tile → ℕ
cell d t = get_or (get_or d (pos_part t.y) []) (pos_part t.x) 0

unfoldable pub put_cell : Field → Tile → ℕ → Field
put_cell d t v = set d (pos_part t.y) (set (get_or d (pos_part t.y) []) (pos_part t.x) v)

abbrev pub no_field : Field
no_field = replicate map_height_tiles (replicate map_width_tiles unreachable)

pub record Search : Type 0 where
  pub dist : Field
  pub queue : List Tile

-- The turn of a neighbor.
unfoldable pub offer : ℕ → Search → Tile → Search
offer next s n =
    if not (on_grid n)
    then s
    else (if not (cell s.dist n == unreachable)
        then s
        else (if not (tile_passable n)
            then s
            else record { dist = put_cell s.dist n next; queue = s.queue ++ n ∷ [] }))

abbrev pub right_of : Tile → Tile
right_of t = record { x = t.x +ℤ pos 1; y = t.y }

abbrev pub left_of : Tile → Tile
left_of t = record { x = t.x -ℤ pos 1; y = t.y }

abbrev pub below : Tile → Tile
below t = record { x = t.x; y = t.y +ℤ pos 1 }

abbrev pub above : Tile → Tile
above t = record { x = t.x; y = t.y -ℤ pos 1 }

-- The four neighbors, in the source's order.
unfoldable pub expand : Tile → Search → Search
expand cur s =
    let next = (cell s.dist cur + 1) % 2 ^ 16 in
    offer next (offer next (offer next (offer next s (right_of cur)) (left_of cur)) (below cur))
      (above cur)

unfoldable pub search_loop : ℕ → Search → Search
search_loop zero s = s
search_loop (suc fuel) s = elim s.queue [
  | [] ↦ s
  | cur ∷ rest ↦ search_loop fuel (expand cur (record s { queue = rest }))
]

-- The search from a tile. A round takes a tile off the queue, which every tile enters once.
unfoldable pub search_from : Tile → Search
search_from source =
    search_loop (map_width_tiles * map_height_tiles)
      (record { dist = put_cell no_field source 0; queue = source ∷ [] })

unfoldable pub build : Vec2Fixed → Field
build source_fp =
    let source = tile_of source_fp in
    if not (tile_passable source) then no_field else (search_from source).dist

unfoldable pub dist_at : Field → Tile → ℕ
dist_at d t = if on_grid t then cell d t else unreachable

-- Whether the box can take a step, in tiles `dx` and `dy`, of a tick's length.
unfoldable pub axis_feasible : Vec2Fixed → ℤ → ℤ → Bool
axis_feasible p dx dy = not (
    aabb_collides (record {
      x = p.x +ℤ (dx *ℤ pos move_speed_fp_per_tick);
      y = p.y +ℤ (dy *ℤ pos move_speed_fp_per_tick);
    }))

-- `best` and `btn` of an axis, while no way is found the button is 0.
pub record Best : Type 0 where
  pub have : Bool
  pub best : ℕ
  pub btn : ℕ

abbrev pub no_best : Best
no_best = record { have = false; best = unreachable; btn = 0 }

-- The turn of a direction, for the axis that it lies on.
unfoldable pub consider : Field → Vec2Fixed → ℕ → Tile → ℤ → ℤ → ℕ → Best → Best
consider d p here n dx dy bit b =
    let nd = dist_at d n in
    if tile_passable n && ltb nd here && axis_feasible p dx dy
    then (if ltb nd b.best
        then record { have = true; best = nd; btn = bit }
        else record b { have = true })
    else b

abbrev pub align_tol : ℕ
align_tol = tile_fp / 8

unfoldable pub press_toward_center_y : Vec2Fixed → Vec2Fixed → ℕ
press_toward_center_y p center =
    if ltb_ℤ p.y (center.y -ℤ pos align_tol) && axis_feasible p (pos 0) (pos 1)
    then input_down
    else (if ltb_ℤ (center.y +ℤ pos align_tol) p.y && axis_feasible p (pos 0) (negsuc 0)
        then input_up
        else 0)

unfoldable pub press_toward_center_x : Vec2Fixed → Vec2Fixed → ℕ
press_toward_center_x p center =
    if ltb_ℤ p.x (center.x -ℤ pos align_tol) && axis_feasible p (pos 1) (pos 0)
    then input_right
    else (if ltb_ℤ (center.x +ℤ pos align_tol) p.x && axis_feasible p (negsuc 0) (pos 0)
        then input_left
        else 0)

abbrev pub best_on_x : Field → Vec2Fixed → Tile → Best
best_on_x d p t =
    consider d p (dist_at d t) (left_of t) (negsuc 0) (pos 0) input_left
      (consider d p (dist_at d t) (right_of t) (pos 1) (pos 0) input_right no_best)

abbrev pub best_on_y : Field → Vec2Fixed → Tile → Best
best_on_y d p t =
    consider d p (dist_at d t) (above t) (pos 0) (negsuc 0) input_up
      (consider d p (dist_at d t) (below t) (pos 0) (pos 1) input_down no_best)

-- The buttons, of what is found on each axis and what presses towards the center.
abbrev pub buttons_of : Best → Best → ℕ → ℕ → ℕ
buttons_of bx by cx cy =
    if bx.have && by.have
    then bit_or bx.btn by.btn
    else (if bx.have
        then (if not (cy == 0) then bit_or bx.btn cy else bx.btn)
        else (if by.have
            then (if not (cx == 0) then bit_or by.btn cx else by.btn)
            else (if not (cy == 0) then cy else (if not (cx == 0) then cx else 0))))

unfoldable pub steer : Field → Vec2Fixed → ℕ
steer d p =
    let t = tile_of p in
    let here = dist_at d t in
    if here == 0 || here == unreachable
    then 0
    else buttons_of (best_on_x d p t) (best_on_y d p t) (press_toward_center_x p (center_of t))
        (press_toward_center_y p (center_of t))
