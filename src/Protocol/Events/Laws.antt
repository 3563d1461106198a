-- ===== src/Protocol/Events/Laws.antt =====
-- The encoder and the decoder of each event message of shared/protocol.cpp fit together.
use networked_capture_the_fl.Prelude.{◌<◌, ◌^◌}
use networked_capture_the_fl.ByteBuffer.Codec.{
  Codec, u8-Codec, u16-Codec, u32-Codec, pure-Silent, require_ok-Silent, accept-Silent, field, last,
  checks,
}
use networked_capture_the_fl.Protocol.Fields.{vec2-Codec, wire_vec, decode_team-byte}
use networked_capture_the_fl.Protocol.Events.{
  MsgShotFired, encode_shot_fired, decode_shot_fired, MsgPlayerKilled, encode_player_killed,
  decode_player_killed, MsgPlayerRespawned, encode_player_respawned, decode_player_respawned,
  MsgFlagBy, encode_flag_by, decode_flag_by, MsgFlagDropped, encode_flag_dropped,
  decode_flag_dropped, MsgMatchEnd, encode_match_end, decode_match_end,
}

pub shot_fired-Codec :
    (m : MsgShotFired)
    → m.aim_angle < 2 ^ 16
    → Codec
        (encode_shot_fired m)
        decode_shot_fired
        11
        (record m { origin = wire_vec m.origin; hit_point = wire_vec m.hit_point })
unfolding encode_shot_fired decode_shot_fired
shot_fired-Codec m h = field _ (u8-Codec m.shooter_id) (
    field _ (vec2-Codec m.origin) (
      field _ (u16-Codec m.aim_angle h)
        (last _ (vec2-Codec m.hit_point) (checks _ require_ok-Silent (pure-Silent _)))))

pub player_killed-Codec :
    (m : MsgPlayerKilled)
    → m.tick < 2 ^ 32
    → Codec (encode_player_killed m) decode_player_killed 6 m
unfolding encode_player_killed decode_player_killed
player_killed-Codec m h = field _ (u8-Codec m.victim_id) (
    field _ (u8-Codec m.killer_id)
      (last _ (u32-Codec m.tick h) (checks _ require_ok-Silent (pure-Silent _))))

pub player_respawned-Codec :
    (m : MsgPlayerRespawned)
    → m.tick < 2 ^ 32
    → Codec
        (encode_player_respawned m)
        decode_player_respawned
        9
        (record m { position = wire_vec m.position })
unfolding encode_player_respawned decode_player_respawned
player_respawned-Codec m h = field _ (u8-Codec m.player_id) (
    field _ (vec2-Codec m.position)
      (last _ (u32-Codec m.tick h) (checks _ require_ok-Silent (pure-Silent _))))

pub flag_by-Codec : (m : MsgFlagBy) → m.tick < 2 ^ 32 → Codec (encode_flag_by m) decode_flag_by 6 m
unfolding encode_flag_by decode_flag_by
flag_by-Codec m h = field _ (u8-Codec _) (
    field _ (u8-Codec m.player_id) (
      last _ (u32-Codec m.tick h) (
        checks _ require_ok-Silent
          (checks _ (accept-Silent m.flag_team (decode_team-byte m.flag_team)) (pure-Silent _)))))

pub flag_dropped-Codec :
    (m : MsgFlagDropped)
    → m.tick < 2 ^ 32
    → Codec
        (encode_flag_dropped m)
        decode_flag_dropped
        9
        (record m { position = wire_vec m.position })
unfolding encode_flag_dropped decode_flag_dropped
flag_dropped-Codec m h = field _ (u8-Codec _) (
    field _ (vec2-Codec m.position) (
      last _ (u32-Codec m.tick h) (
        checks _ require_ok-Silent
          (checks _ (accept-Silent m.flag_team (decode_team-byte m.flag_team)) (pure-Silent _)))))

pub match_end-Codec : (m : MsgMatchEnd) → Codec (encode_match_end m) decode_match_end 3 m
unfolding encode_match_end decode_match_end
match_end-Codec m = field _ (u8-Codec _) (
    field _ (u8-Codec m.score_red) (
      last _ (u8-Codec m.score_blue) (
        checks _ require_ok-Silent (
          checks _ (accept-Silent m.winning_team (decode_team-byte m.winning_team))
            (pure-Silent _)))))
