-- ===== src/Server/Sim/Roster.antt =====
-- server/sim.cpp: the commands of the network thread, which a tick applies first.
use networked_capture_the_fl.Prelude.{
  ltb, leb, ◌==◌, if◌then◌else◌, get_or, set, ℤ, pos, ltb_ℤ, ℕ, ◌+◌, ◌-◌, ◌*◌, ◌%◌, true, false,
  not, ◌&&◌, ◌||◌, List, [], ◌∷◌,
}
use networked_capture_the_fl.GameTypes.{Vec2Fixed, Team, InputCmd, no_vec}
use networked_capture_the_fl.GameTypes.Config.{
  tile_size_px, max_health, fixed_scale, map_width_tiles, map_height_tiles, max_players,
  input_ring_size,
}
use networked_capture_the_fl.Map.{size_fp, spawn_points}
use networked_capture_the_fl.Server.Queues.{
  InboundCommand, player_joined, player_left, player_input,
}
use networked_capture_the_fl.Server.Sim.{
  Player, no_one, other_team, Sim, player, put_player, is_joined, drop_flag,
}

-- `std::max(0, std::min(v, top))`
abbrev pub clamp : ℤ → ℕ → ℤ
clamp v top = if ltb_ℤ v (pos 0) then pos 0 else (if ltb_ℤ (pos top) v then pos top else v)

unfoldable pub debug_place : ℕ → Vec2Fixed → Sim → Sim
debug_place id p s =
    let max_x = map_width_tiles * tile_size_px * fixed_scale - size_fp in
    let max_y = map_height_tiles * tile_size_px * fixed_scale - size_fp in
    if is_joined id s
    then put_player id
        (record (player id s) { position = record { x = clamp p.x max_x; y = clamp p.y max_y } }) s
    else s

-- The slot of a player who joins.
abbrev pub joining : Team → ℕ → Player → Player
joining t spawn_index p =
    let index = if ltb spawn_index max_players then spawn_index else 0 in
    record p {
      active = true;
      team = t;
      spawn_index = index;
      position = get_or (spawn_points t) index no_vec;
      health = max_health;
      alive = true;
      carrying_flag = false;
      respawn_timer = pos 0;
      fire_cooldown = 0;
      ring_head = 0;
      ring_count = 0;
      last_input_seq = 0;
    }

unfoldable pub apply_join : ℕ → Team → ℕ → Sim → Sim
apply_join id t spawn_index s =
    if s.match_over || is_joined id s || leb max_players id
    then s
    else record (put_player id (joining t spawn_index (player id s)) s) {
      player_count = s.player_count + 1;
    }

unfoldable pub apply_leave : ℕ → Sim → Sim
apply_leave id s =
    let p = player id s in
    let after = if p.carrying_flag then drop_flag (other_team p.team) p.position s else s in
    if is_joined id s
    then record (put_player id no_one after) { player_count = s.player_count - 1 }
    else s

-- An input behind the newest of the ring, which drops its oldest when full.
unfoldable pub push_input : ℕ → InputCmd → Player → Player
push_input seq input p =
    let is_full = p.ring_count == input_ring_size in
    let head = if is_full then (p.ring_head + 1) % input_ring_size else p.ring_head in
    let count = if is_full then p.ring_count - 1 else p.ring_count in
    let idx = (head + count) % input_ring_size in
    record p {
      newest_seq = seq;
      ring_head = head;
      ring = set p.ring idx input;
      seqs = set p.seqs idx seq;
      ring_count = count + 1;
    }

unfoldable pub apply_input : ℕ → ℕ → InputCmd → Sim → Sim
apply_input id seq input s =
    let p = player id s in
    if is_joined id s && p.alive && not (leb seq p.newest_seq)
    then put_player id (push_input seq input p) s
    else s

unfoldable pub apply_command : InboundCommand → Sim → Sim
apply_command (player_joined id t spawn_index) s =
    if s.match_over then s else apply_join id t spawn_index s
apply_command (player_left id) s = if s.match_over then s else apply_leave id s
apply_command (player_input id seq input) s = if s.match_over then s else apply_input id seq input s

abbrev pub drain_commands : List InboundCommand → Sim → Sim
drain_commands [] s = s
drain_commands (cmd ∷ cmds) s = drain_commands cmds (apply_command cmd s)

-- Everything in the queue when the phase starts; what is pushed later is in a later queue.
unfoldable pub drain_inbound : Sim → Sim
drain_inbound s = drain_commands s.inbound (record s { inbound = [] })
