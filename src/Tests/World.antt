-- ===== src/Tests/World.antt =====
-- The map and the step of a player at concrete inputs (shared/map.cpp, shared/movement.cpp).
use networked_capture_the_fl.Prelude.{
  ◌+ℤ◌, ℕ, ◌+◌, ◌/◌, ◌<◌, ◌≤◌, ◌≡◌, refl, Bool, true, false, List, [], ◌∷◌, pos, negsuc, ◌+ℤ◌, ◌-ℤ◌,
  ◌*ℤ◌, ◌↔◌, ◌&&◌, not,
}
use networked_capture_the_fl.GameTypes.{Vec2Fixed, InputCmd, PlayerMotion, no_vec}
use networked_capture_the_fl.Map.{
  aabb_collides, is_wall, tile_at, size_fp, tile_fp, red_spawn_points, blue_spawn_points,
}
use networked_capture_the_fl.Map.Laws.{aabb_collides_iff, IsOnMap}
use networked_capture_the_fl.Movement.{fp_div, movement_step, velocity, fp_mul, step_x, step_y}
use networked_capture_the_fl.Movement.Laws.{
  movement_step-free, Advances, blocked_at, square, movement_step-Advances,
}

abbrev none_collides : List Vec2Fixed → Bool
none_collides [] = true
none_collides (p ∷ ps) = not (aabb_collides p) && none_collides ps

-- Nobody starts in a wall.
spawn_points_free : (none_collides red_spawn_points && none_collides blue_spawn_points) ≡ true
unfolding aabb_collides is_wall tile_at ◌+ℤ◌ ◌-ℤ◌
spawn_points_free = refl

-- One unit further left, a player at the left edge of the first column is in the wall.
abbrev at_edge : Vec2Fixed
at_edge = record { x = pos 8192; y = pos 98304 }

at_edge-free : aabb_collides at_edge ≡ false
unfolding aabb_collides is_wall tile_at ◌+ℤ◌ ◌-ℤ◌
at_edge-free = refl

past_edge : aabb_collides (record { x = pos 8191; y = pos 98304 }) ≡ true
unfolding aabb_collides is_wall tile_at ◌+ℤ◌ ◌-ℤ◌
past_edge = refl

aabb_collides_iff_example : (aabb_collides (record { x = pos 8191; y = pos 98304 }) ≡ true) ↔ (
    (i j : ℕ) × (i < size_fp)
    × (j < size_fp)
    × (is_wall (pos ((8191 + i) / tile_fp)) (pos ((98304 + j) / tile_fp)) ≡ true))
aabb_collides_iff_example = aabb_collides_iff 8191 98304

abbrev standing : PlayerMotion
standing = record { position = at_edge; velocity = no_vec }

-- Left and down, against the wall.
abbrev left_down : InputCmd
left_down = record { buttons = 6; aim_angle = 0 }

-- It slides down along the wall.
slides : (movement_step standing left_down).position ≡ record { x = pos 8192; y = pos 99269 }
unfolding movement_step velocity fp_mul step_x step_y aabb_collides is_wall tile_at ◌+ℤ◌ ◌-ℤ◌ ◌*ℤ◌
slides = refl

-- A diagonal is rounded down, so it is one unit faster to the left and up than to the right and down.
lopsided : velocity true false false true ≡ record { x = negsuc 965; y = pos 965 }
unfolding velocity fp_mul ◌+ℤ◌ ◌-ℤ◌ ◌*ℤ◌
lopsided = refl

movement_step-free_example :
    let out = movement_step standing left_down in
    (aabb_collides out.position ≡ false) × IsOnMap out.position
movement_step-free_example = movement_step-free standing left_down at_edge-free

movement_step-Advances_example :
    let out = movement_step standing left_down in
    (out.velocity ≡ record { x = negsuc 965; y = pos 965 })
    × Advances
        (blocked_at (pos 8192 +ℤ negsuc 965) (pos 98304))
        (pos 8192)
        (negsuc 965)
        out.position.x
    × Advances
        (blocked_at out.position.x (pos 98304 +ℤ pos 965))
        (pos 98304)
        (pos 965)
        out.position.y
    × (square out.velocity.x + square out.velocity.y ≤ 1866312)
movement_step-Advances_example = movement_step-Advances standing left_down

-- Of -384 by 384 and of 256 by -1, in units of 1/256.
quotients :
    (fp_div (negsuc 383) (pos 384) ≡ negsuc 255) × (fp_div (pos 256) (negsuc 0) ≡ negsuc 65535)
unfolding fp_div ◌-ℤ◌
quotients = (refl, refl)
