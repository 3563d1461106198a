-- ===== src/Movement.antt =====
-- shared/movement.cpp: the step of a player that the server and the predicting client share.
pub mod Laws
use networked_capture_the_fl.Prelude.{
  ℕ, ◌*◌, Bool, ◌&&◌, not, if◌then◌else◌, ◌==◌, bit_and, ℤ, pos, ◌+ℤ◌, ◌-ℤ◌, ◌*ℤ◌, ◌==ℤ◌, shr_ℤ,
  quot_ℤ, shl_ℤ, pos_part, neg_part, of_bits, to_bits, ltb_ℤ, ◌+◌,
}
use networked_capture_the_fl.GameTypes.{Vec2Fixed, InputCmd, PlayerMotion}
use networked_capture_the_fl.GameTypes.Config.{
  move_speed_fp_per_tick, diagonal_factor_num, fixed_shift,
}
use networked_capture_the_fl.Map.{aabb_collides}

abbrev pub input_up : ℕ
input_up = 1

abbrev pub input_down : ℕ
input_down = 2

abbrev pub input_left : ℕ
input_left = 4

abbrev pub input_right : ℕ
input_right = 8

abbrev pub input_fire : ℕ
input_fire = 16

-- `cmd.buttons & button`
abbrev pub pressed : InputCmd → ℕ → Bool
pressed cmd button = not (bit_and cmd.buttons button == 0)

-- The product of the calls fits 64 bits, and its quotient 32.
unfoldable pub fp_mul : ℤ → ℤ → ℤ
fp_mul a b = shr_ℤ (a *ℤ b) fixed_shift

-- The dividend fits 64 bits; the quotient is cast to 32. A divisor of 0 is undefined in the source.
unfoldable pub fp_div : ℤ → ℤ → ℤ
fp_div a b =
    let q = quot_ℤ (shl_ℤ a fixed_shift) (pos_part b + neg_part b) in
    of_bits 32 (to_bits 32 (if ltb_ℤ b (pos 0) then pos 0 -ℤ q else q))

-- `if (less) v -= speed; if (more) v += speed;`
abbrev pub axis : Bool → Bool → ℤ
axis less more =
    let v = if less then pos 0 -ℤ pos move_speed_fp_per_tick else pos 0 in
    if more then v +ℤ pos move_speed_fp_per_tick else v

-- The velocity that the buttons ask for: left, right, up and down.
unfoldable pub velocity : Bool → Bool → Bool → Bool → Vec2Fixed
velocity left right up down =
    let vx = axis left right in
    let vy = axis up down in
    if not (vx ==ℤ pos 0) && not (vy ==ℤ pos 0)
    then record { x = fp_mul vx (pos diagonal_factor_num); y = fp_mul vy (pos diagonal_factor_num) }
    else record { x = vx; y = vy }

abbrev pub velocity_of : InputCmd → Vec2Fixed
velocity_of cmd =
    velocity (pressed cmd input_left) (pressed cmd input_right) (pressed cmd input_up)
      (pressed cmd input_down)

unfoldable pub step_x : Vec2Fixed → ℤ → Vec2Fixed
step_x p vx =
    let nx = p.x +ℤ vx in
    if not (aabb_collides (record { x = nx; y = p.y })) then record p { x = nx } else p

unfoldable pub step_y : Vec2Fixed → ℤ → Vec2Fixed
step_y p vy =
    let ny = p.y +ℤ vy in
    if not (aabb_collides (record { x = p.x; y = ny })) then record p { y = ny } else p

unfoldable pub movement_step : PlayerMotion → InputCmd → PlayerMotion
movement_step m cmd =
    let v = velocity_of cmd in
    record { position = step_y (step_x m.position v.x) v.y; velocity = v }
