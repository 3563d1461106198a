-- ===== src/Protocol/Events.antt =====
-- shared/protocol.{h,cpp}: the messages that report what happened in a match, and the dispatch by
-- message type (`MessageType`, the `write_msg` overloads of server/sim.cpp).
pub mod Laws
use networked_capture_the_fl.Prelude.{ℕ}
use networked_capture_the_fl.GameTypes.{Vec2Fixed, Team, team_byte}
use networked_capture_the_fl.ByteBuffer.{
  Writer, put_u8, put_u16, put_u32, ◌⨾◌, Parser, get_u8, get_u16, get_u32, ◌>>=◌, ◌>>◌, pure,
  require_ok, accept,
}
use networked_capture_the_fl.Protocol.Fields.{write_vec2, read_vec2, decode_team}

pub record MsgShotFired : Type 0 where
  pub shooter_id : ℕ
  pub origin : Vec2Fixed
  pub aim_angle : ℕ
  pub hit_point : Vec2Fixed

unfoldable pub encode_shot_fired : MsgShotFired → Writer → Writer
encode_shot_fired m =
    put_u8 m.shooter_id ⨾ (write_vec2 m.origin ⨾ (put_u16 m.aim_angle ⨾ write_vec2 m.hit_point))

unfoldable pub decode_shot_fired : Parser MsgShotFired
decode_shot_fired = do
  id ← get_u8
  origin ← read_vec2
  aim ← get_u16
  hit ← read_vec2
  require_ok
  pure (record { shooter_id = id; origin = origin; aim_angle = aim; hit_point = hit })

pub record MsgPlayerKilled : Type 0 where
  pub victim_id : ℕ
  pub killer_id : ℕ
  pub tick : ℕ

unfoldable pub encode_player_killed : MsgPlayerKilled → Writer → Writer
encode_player_killed m = put_u8 m.victim_id ⨾ (put_u8 m.killer_id ⨾ put_u32 m.tick)

unfoldable pub decode_player_killed : Parser MsgPlayerKilled
decode_player_killed = do
  victim ← get_u8
  killer ← get_u8
  tick ← get_u32
  require_ok
  pure (record { victim_id = victim; killer_id = killer; tick = tick })

pub record MsgPlayerRespawned : Type 0 where
  pub player_id : ℕ
  pub position : Vec2Fixed
  pub tick : ℕ

unfoldable pub encode_player_respawned : MsgPlayerRespawned → Writer → Writer
encode_player_respawned m = put_u8 m.player_id ⨾ (write_vec2 m.position ⨾ put_u32 m.tick)

unfoldable pub decode_player_respawned : Parser MsgPlayerRespawned
decode_player_respawned = do
  id ← get_u8
  position ← read_vec2
  tick ← get_u32
  require_ok
  pure (record { player_id = id; position = position; tick = tick })

-- MsgFlagPickedUp, MsgFlagReturned and MsgFlagCaptured have the same fields and the same code.
pub record MsgFlagBy : Type 0 where
  pub flag_team : Team
  pub player_id : ℕ
  pub tick : ℕ

unfoldable pub encode_flag_by : MsgFlagBy → Writer → Writer
encode_flag_by m = put_u8 (team_byte m.flag_team) ⨾ (put_u8 m.player_id ⨾ put_u32 m.tick)

unfoldable pub decode_flag_by : Parser MsgFlagBy
decode_flag_by = do
  raw ← get_u8
  id ← get_u8
  tick ← get_u32
  require_ok
  team ← accept (decode_team raw)
  pure (record { flag_team = team; player_id = id; tick = tick })

-- The messages that a flag was returned or captured have functions of their own, which do the same.
abbrev pub encode_flag_returned : MsgFlagBy → Writer → Writer
encode_flag_returned m = encode_flag_by m

abbrev pub decode_flag_returned : Parser MsgFlagBy
decode_flag_returned = decode_flag_by

abbrev pub encode_flag_captured : MsgFlagBy → Writer → Writer
encode_flag_captured m = encode_flag_by m

abbrev pub decode_flag_captured : Parser MsgFlagBy
decode_flag_captured = decode_flag_by

pub record MsgFlagDropped : Type 0 where
  pub flag_team : Team
  pub position : Vec2Fixed
  pub tick : ℕ

unfoldable pub encode_flag_dropped : MsgFlagDropped → Writer → Writer
encode_flag_dropped m = put_u8 (team_byte m.flag_team) ⨾ (write_vec2 m.position ⨾ put_u32 m.tick)

unfoldable pub decode_flag_dropped : Parser MsgFlagDropped
decode_flag_dropped = do
  raw ← get_u8
  position ← read_vec2
  tick ← get_u32
  require_ok
  team ← accept (decode_team raw)
  pure (record { flag_team = team; position = position; tick = tick })

pub record MsgMatchEnd : Type 0 where
  pub winning_team : Team
  pub score_red : ℕ
  pub score_blue : ℕ

unfoldable pub encode_match_end : MsgMatchEnd → Writer → Writer
encode_match_end m = put_u8 (team_byte m.winning_team) ⨾ (put_u8 m.score_red ⨾ put_u8 m.score_blue)

unfoldable pub decode_match_end : Parser MsgMatchEnd
decode_match_end = do
  raw ← get_u8
  red ← get_u8
  blue ← get_u8
  require_ok
  team ← accept (decode_team raw)
  pure (record { winning_team = team; score_red = red; score_blue = blue })

-- The payloads that the simulation serialises.
pub data EventMsg : Type 0 where
  shot_fired : MsgShotFired → EventMsg
  player_killed : MsgPlayerKilled → EventMsg
  player_respawned : MsgPlayerRespawned → EventMsg
  flag_picked_up : MsgFlagBy → EventMsg
  flag_dropped : MsgFlagDropped → EventMsg
  flag_returned : MsgFlagBy → EventMsg
  flag_captured : MsgFlagBy → EventMsg
  match_end : MsgMatchEnd → EventMsg

-- `MessageType`
abbrev pub message_type : EventMsg → ℕ
message_type (shot_fired m) = 10
message_type (player_killed m) = 11
message_type (player_respawned m) = 12
message_type (flag_picked_up m) = 13
message_type (flag_dropped m) = 14
message_type (flag_returned m) = 15
message_type (flag_captured m) = 16
message_type (match_end m) = 17

-- `write_msg`
unfoldable pub write_msg : EventMsg → Writer → Writer
write_msg (shot_fired m) = encode_shot_fired m
write_msg (player_killed m) = encode_player_killed m
write_msg (player_respawned m) = encode_player_respawned m
write_msg (flag_picked_up m) = encode_flag_by m
write_msg (flag_dropped m) = encode_flag_dropped m
write_msg (flag_returned m) = encode_flag_returned m
write_msg (flag_captured m) = encode_flag_captured m
write_msg (match_end m) = encode_match_end m
