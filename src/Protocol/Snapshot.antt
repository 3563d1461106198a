-- ===== src/Protocol/Snapshot.antt =====
-- shared/protocol.cpp, `encode_world_snapshot` and `decode_world_snapshot`: the full snapshot.
pub mod Laws
use networked_capture_the_fl.Prelude.{min, leb}
use networked_capture_the_fl.GameTypes.{no_vec, PlayerState, WorldSnapshot, flag_state_byte}
use networked_capture_the_fl.GameTypes.Config.{max_players}
use networked_capture_the_fl.ByteBuffer.{
  Writer, put_u8, put_u16, put_u32, ◌⨾◌, Parser, get_u8, get_u16, get_u32, ◌>>=◌, ◌>>◌, pure,
  require, require_ok, accept,
}
use networked_capture_the_fl.Protocol.Fields.{
  write_vec2, read_vec2, pack_player_flags, unpack_player_flags, decode_flag_state,
}
use networked_capture_the_fl.Protocol.Slots.{write_slots, read_slots}

-- The body of the encoder's loop.
unfoldable pub write_player : PlayerState → Writer → Writer
write_player p =
    put_u8 p.id
    ⨾ (write_vec2 p.motion.position
        ⨾ (put_u16 p.aim_angle ⨾ (put_u8 p.health ⨾ put_u8 (pack_player_flags p))))

-- The body of the decoder's loop, on the slot that it fills.
unfoldable pub read_player : PlayerState → Parser PlayerState
read_player p = do
  id ← get_u8
  position ← read_vec2
  aim ← get_u16
  health ← get_u8
  flags ← get_u8
  pure (
      unpack_player_flags flags (record p {
        id = id;
        motion = record { position = position; velocity = no_vec };
        aim_angle = aim;
        health = health;
      }))

unfoldable pub encode_world_snapshot : WorldSnapshot → Writer → Writer
encode_world_snapshot s =
    put_u32 s.last_input_seq
    ⨾ (put_u32 s.tick
        ⨾ (put_u8 s.player_count
            ⨾ (put_u8 s.flag_carrier_red
                ⨾ (put_u8 s.flag_carrier_blue
                    ⨾ (put_u8 (flag_state_byte s.flag_state_red)
                        ⨾ (put_u8 (flag_state_byte s.flag_state_blue)
                            ⨾ (put_u8 s.score_red
                                ⨾ (put_u8 s.score_blue
                                    ⨾ (put_u16 s.seconds_remaining
                                        ⨾ write_slots write_player (min s.player_count max_players)
                                            s.players)))))))))

-- The decoder fills the snapshot `out` of its caller.
unfoldable pub decode_world_snapshot : WorldSnapshot → Parser WorldSnapshot
decode_world_snapshot out = do
  seq ← get_u32
  tick ← get_u32
  n ← get_u8
  carrier_red ← get_u8
  carrier_blue ← get_u8
  raw_red ← get_u8
  raw_blue ← get_u8
  score_red ← get_u8
  score_blue ← get_u8
  seconds ← get_u16
  require_ok
  require (leb n max_players)
  state_red ← accept (decode_flag_state raw_red)
  state_blue ← accept (decode_flag_state raw_blue)
  players ← read_slots read_player n out.players
  require_ok
  pure (record {
    tick = tick;
    last_input_seq = seq;
    player_count = n;
    flag_carrier_red = carrier_red;
    flag_carrier_blue = carrier_blue;
    flag_state_red = state_red;
    flag_state_blue = state_blue;
    score_red = score_red;
    score_blue = score_blue;
    seconds_remaining = seconds;
    players = players;
  })
