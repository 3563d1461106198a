-- ===== src/Server/Sim/Flags.antt =====
-- server/sim.cpp, `flags_phase` and `win_check`: the flags, the respawns and the end of a match.
use networked_capture_the_fl.Prelude.{
  leb, if◌then◌else◌, pos, ◌-ℤ◌, ltb_ℤ, ℕ, ◌+◌, ◌-◌, ◌*◌, ◌%◌, ◌^◌, Bool, true, false, not, ◌&&◌,
  ◌||◌,
}
use networked_capture_the_fl.GameTypes.{
  Team, red, blue, FlagState, at_base, carried, dropped, FlagInfo, no_carrier,
}
use networked_capture_the_fl.GameTypes.Config.{
  tick_rate_hz, max_health, max_players, flag_auto_return_ticks, score_to_win, match_time_limit_sec,
}
use networked_capture_the_fl.Protocol.Events.{
  player_respawned, flag_picked_up, flag_returned, flag_captured, match_end,
}
use networked_capture_the_fl.Server.Queues.{tcp_broadcast}
use networked_capture_the_fl.Server.Sim.{
  of_team, put_team, other_team, base_of, Sim, player, put_player, flag, put_flag, is_joined,
  for_ids, push_event, aabb_overlap, spawn_of,
}

abbrev pub is_at_base : FlagState → Bool
is_at_base at_base = true
is_at_base carried = false
is_at_base dropped = false

abbrev pub is_carried : FlagState → Bool
is_carried at_base = false
is_carried carried = true
is_carried dropped = false

abbrev pub is_dropped : FlagState → Bool
is_dropped at_base = false
is_dropped carried = false
is_dropped dropped = true

abbrev pub home_flag : Team → FlagInfo
home_flag t = record { state = at_base; position = base_of t; carrier_id = no_carrier }

-- A flag back at its base by a player's touch, or by none's.
abbrev pub return_flag : Team → ℕ → Sim → Sim
return_flag t id s =
    push_event tcp_broadcast
      (flag_returned (record { flag_team = t; player_id = id; tick = s.current_tick }))
      (put_flag t (home_flag t) s)

-- `current_tick_ - drop_tick_[fi] >= kFlagAutoReturnTicks`, in 32 bits.
abbrev pub is_overdue : Team → Sim → Bool
is_overdue t s =
    leb flag_auto_return_ticks ((s.current_tick + 2 ^ 32 - of_team t s.drop_tick) % 2 ^ 32)

-- The body of the first loop.
unfoldable pub follow_flag : Team → Sim → Sim
follow_flag t s =
    let f = flag t s in
    if is_carried f.state
    then (if is_joined f.carrier_id s
        then put_flag t (record f { position = (player f.carrier_id s).position }) s
        else s)
    else (if is_dropped f.state && is_overdue t s then return_flag t no_carrier s else s)

-- The three tests of the second loop's body, in their order.
unfoldable pub touch_own : ℕ → Sim → Sim
touch_own id s =
    let p = player id s in
    let own = flag p.team s in
    if is_dropped own.state && aabb_overlap p.position own.position
    then return_flag p.team id s
    else s

unfoldable pub pick_up : ℕ → Sim → Sim
pick_up id s =
    let p = player id s in
    let enemy = flag (other_team p.team) s in
    if not p.carrying_flag && not (is_carried enemy.state) && aabb_overlap p.position enemy.position
    then push_event tcp_broadcast
        (flag_picked_up
          (record { flag_team = other_team p.team; player_id = id; tick = s.current_tick }))
        (put_player id (record p { carrying_flag = true })
          (put_flag (other_team p.team) (record enemy { state = carried; carrier_id = id }) s))
    else s

unfoldable pub capture : ℕ → Sim → Sim
capture id s =
    let p = player id s in
    let points = (of_team p.team s.score + 1) % 2 ^ 8 in
    if p.carrying_flag
      && is_at_base (flag p.team s).state
      && aabb_overlap p.position (base_of p.team)
    then push_event tcp_broadcast
        (flag_captured
          (record { flag_team = other_team p.team; player_id = id; tick = s.current_tick }))
        (record (put_player id (record p { carrying_flag = false })
          (put_flag (other_team p.team) (home_flag (other_team p.team)) s)) {
            score = put_team p.team points s.score;
          })
    else s

unfoldable pub touch_flags : ℕ → Sim → Sim
touch_flags id s =
    let p = player id s in
    if p.active && p.alive then capture id (pick_up id (touch_own id s)) else s

-- The body of the third loop.
unfoldable pub respawn_step : ℕ → Sim → Sim
respawn_step id s =
    let p = player id s in
    let timer = p.respawn_timer -ℤ pos 1 in
    if p.active && not p.alive
    then (if ltb_ℤ (pos 0) timer
        then put_player id (record p { respawn_timer = timer }) s
        else push_event tcp_broadcast
            (player_respawned
              (record { player_id = id; position = spawn_of p; tick = s.current_tick }))
            (put_player id
              (record p {
                respawn_timer = timer;
                alive = true;
                health = max_health;
                position = spawn_of p;
              })
              s))
    else s

unfoldable pub flags_phase : Sim → Sim
flags_phase s =
    for_ids max_players 0 respawn_step
      (for_ids max_players 0 touch_flags (follow_flag blue (follow_flag red s)))

abbrev pub limit_ticks : ℕ
limit_ticks = match_time_limit_sec * tick_rate_hz

abbrev pub winner : Sim → Team
winner s = if leb s.score.of_blue s.score.of_red then red else blue

unfoldable pub win_check : Sim → Sim
win_check s =
    if not s.match_over
      && (leb score_to_win s.score.of_red
          || leb score_to_win s.score.of_blue
          || leb limit_ticks s.current_tick)
    then push_event tcp_broadcast
        (match_end (record {
          winning_team = winner s;
          score_red = s.score.of_red;
          score_blue = s.score.of_blue;
        }))
        (record s { match_over = true })
    else s
