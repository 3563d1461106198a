-- ===== src/Tests/Bots.antt =====
-- The navigation of the bots at concrete inputs (bot/flow_field.cpp).
use networked_capture_the_fl.Prelude.{pos, ◌+ℤ◌, ◌-ℤ◌, ◌*ℤ◌, ◌≡◌, ◌≢◌, refl, arith, true}
use networked_capture_the_fl.GameTypes.{Vec2Fixed}
use networked_capture_the_fl.Map.{red_base_position, tile_at, is_wall, aabb_collides}
use networked_capture_the_fl.Bot.FlowField.{
  Tile, on_grid, tile_of, tile_passable, center_of, cell, put_cell, offer, expand, search_loop,
  search_from, build, dist_at, steer,
}
use networked_capture_the_fl.Bot.FlowField.Walks.{Adjacent}
use networked_capture_the_fl.Bot.FlowField.Shortest.{IsShortest, build-IsShortest}
use networked_capture_the_fl.Bot.FlowField.Steering.{IsFeasible}
use networked_capture_the_fl.Bot.FlowField.Progress.{downhill}
use networked_capture_the_fl.Bot.FlowField.Guides.{steer-IsFeasible, steer-moves}

-- The tile to the right of the red base.
abbrev beside_base : Tile
beside_base = record { x = pos 3; y = pos 12 }

base_passable : tile_passable (tile_of red_base_position) ≡ true
unfolding on_grid tile_passable tile_of is_wall tile_at aabb_collides ◌+ℤ◌ ◌-ℤ◌ ◌*ℤ◌
base_passable = refl

beside_base_dist : dist_at (build red_base_position) beside_base ≡ 1
unfolding build dist_at on_grid cell tile_passable tile_of is_wall tile_at aabb_collides ◌+ℤ◌ ◌-ℤ◌
    ◌*ℤ◌ search_from search_loop expand offer put_cell
beside_base_dist = refl

build-IsShortest_example :
    IsShortest
      (tile_of red_base_position)
      beside_base
      (dist_at (build red_base_position) beside_base)
build-IsShortest_example = build-IsShortest red_base_position beside_base base_passable

downhill_example :
    (u : Tile) × Adjacent beside_base u
    × (tile_passable u ≡ true)
    × (tile_passable beside_base ≡ true)
    × (dist_at (build red_base_position) u ≡ 0)
downhill_example =
    downhill red_base_position beside_base 0 base_passable beside_base_dist
      (λ e. absurd (omega (arith, e)))

abbrev place : Vec2Fixed
place = record { x = pos 26000; y = pos 99000 }

place_dist : dist_at (build red_base_position) (tile_of place) ≡ 1
unfolding tile_of
place_dist = beside_base_dist

steer-IsFeasible_example : IsFeasible place (steer (build red_base_position) place)
steer-IsFeasible_example =
    steer-IsFeasible (build red_base_position) place (omega (arith, place_dist))

steer-moves_example : steer (build red_base_position) (center_of beside_base) ≢ 0
steer-moves_example =
    steer-moves red_base_position beside_base base_passable
      (λ e. absurd (omega (arith, e, beside_base_dist))) (omega (arith, beside_base_dist))
