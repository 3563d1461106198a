-- ===== src/Server/Sim/Combat.antt =====
-- server/sim.cpp: shots, damage and deaths.
use networked_capture_the_fl.Prelude.{
  ltb, ◌==◌, if◌then◌else◌, ℤ, pos, ◌+ℤ◌, ℕ, ◌-◌, ◌/◌, false, ◌&&◌, Option, none, some,
}
use networked_capture_the_fl.GameTypes.{Vec2Fixed}
use networked_capture_the_fl.GameTypes.Config.{
  max_players, damage_per_shot, fire_cooldown_ticks, respawn_delay_ticks,
}
use networked_capture_the_fl.Map.{size_fp}
use networked_capture_the_fl.Movement.{pressed, input_fire}
use networked_capture_the_fl.Protocol.Events.{shot_fired, player_killed, flag_dropped}
use networked_capture_the_fl.Server.Queues.{tcp_broadcast, udp_event}
use networked_capture_the_fl.Server.Sim.{
  Player, other_team, Sim, player, put_player, for_ids, push_event, drop_flag,
}
use networked_capture_the_fl.Server.Sim.Inputs.{command}
use networked_capture_the_fl.Server.Sim.Ray.{cast_ray}

abbrev pub dead : Player → Player
dead p = record p { alive = false; health = 0; respawn_timer = pos respawn_delay_ticks }

-- The victim is a reference into `players_`, here its index.
unfoldable pub handle_death : ℕ → Sim → Sim
handle_death victim s =
    let p = player victim s in
    let fallen = put_player victim (dead p) s in
    if p.carrying_flag
    then put_player victim (record (dead p) { carrying_flag = false })
        (push_event tcp_broadcast
          (flag_dropped
            (record { flag_team = p.team; position = p.position; tick = s.current_tick }))
          (drop_flag (other_team p.team) p.position fallen))
    else fallen

abbrev pub damaged : ℕ → ℕ
damaged health = if ltb damage_per_shot health then health - damage_per_shot else 0

-- The hit of an enemy by a shooter.
unfoldable pub strike : ℕ → ℕ → Sim → Sim
strike shooter enemy s =
    let v = player enemy s in
    let hurt = put_player enemy (record v { health = damaged v.health }) s in
    if damaged v.health == 0
    then push_event tcp_broadcast
        (player_killed (record { victim_id = enemy; killer_id = shooter; tick = s.current_tick }))
        (handle_death enemy hurt)
    else hurt

-- The center of a player's box.
abbrev pub center : Vec2Fixed → Vec2Fixed
center p = let half = size_fp / 2 in record { x = p.x +ℤ pos half; y = p.y +ℤ pos half }

abbrev pub strike_any : ℕ → Option ℕ → Sim → Sim
strike_any shooter none s = s
strike_any shooter (some enemy) s = strike shooter enemy s

unfoldable pub shoot : (ℕ → ℤ × ℤ) → ℕ → Sim → Sim
shoot direction id s =
    let p = player id s in
    let aim = (command id s).aim_angle in
    let (enemy, hit_point) = cast_ray direction (center p.position) aim p.team s.players in
    strike_any id enemy (
      put_player id (record p { fire_cooldown = fire_cooldown_ticks })
        (push_event udp_event
          (shot_fired (record {
            shooter_id = id;
            origin = center p.position;
            aim_angle = aim;
            hit_point = hit_point;
          }))
          (record s { last_ray_hit = hit_point })))

unfoldable pub combat_step : (ℕ → ℤ × ℤ) → ℕ → Sim → Sim
combat_step direction id s =
    let p = player id s in
    if p.active && p.alive
    then (if ltb 0 p.fire_cooldown
        then put_player id (record p { fire_cooldown = p.fire_cooldown - 1 }) s
        else (if pressed (command id s) input_fire then shoot direction id s else s))
    else s

unfoldable pub combat : (ℕ → ℤ × ℤ) → Sim → Sim
combat direction s = for_ids max_players 0 (combat_step direction) s
