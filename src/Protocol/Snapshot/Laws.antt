-- ===== src/Protocol/Snapshot/Laws.antt =====
-- The full snapshot of shared/protocol.cpp: its size, and what a receiver decodes.
use networked_capture_the_fl.Prelude.{
  le→leb, ℕ, ◌+◌, ◌*◌, ◌<◌, ◌≤◌, ◌^◌, ◌≡◌, length, min, All, arith,
}
use networked_capture_the_fl.GameTypes.{no_vec, PlayerState, WorldSnapshot}
use networked_capture_the_fl.GameTypes.Config.{max_players}
use networked_capture_the_fl.ByteBuffer.Codec.{
  Codec, u8-Codec, u16-Codec, u32-Codec, pure-Silent, returns, require-Silent, require_ok-Silent,
  accept-Silent, Codec-size, field, last, check, checks,
}
use networked_capture_the_fl.Protocol.Fields.{
  vec2-Codec, wire_vec, unpack-pack, decode_flag_state-byte,
}
use networked_capture_the_fl.Protocol.Slots.{slots-Codec, overlay}
use networked_capture_the_fl.Protocol.Snapshot.{
  write_player, read_player, encode_world_snapshot, decode_world_snapshot,
}

-- A player as it arrives: the position at the resolution of the wire, and no velocity.
abbrev pub wire_player : PlayerState → PlayerState
wire_player p = record p {
  motion = record { position = wire_vec p.motion.position; velocity = no_vec };
}

abbrev pub IsWirePlayer : PlayerState → Type 0
IsWirePlayer p = p.aim_angle < 2 ^ 16

-- The ranges that the types of the fields give.
pub record IsWireSnapshot (s : WorldSnapshot) : Type 0 where
  pub seq_in : s.last_input_seq < 2 ^ 32
  pub tick_in : s.tick < 2 ^ 32
  pub seconds_in : s.seconds_remaining < 2 ^ 16
  pub count_in : s.player_count ≤ max_players
  pub slots : length s.players ≡ max_players
  pub players_in : All IsWirePlayer s.players

pub player-Codec :
    (p d : PlayerState) → IsWirePlayer p → Codec (write_player p) (read_player d) 9 (wire_player p)
unfolding write_player read_player
player-Codec p d h = field _ (u8-Codec p.id) (
    field _ (vec2-Codec p.motion.position) (
      field _ (u16-Codec p.aim_angle h)
        (field _ (u8-Codec p.health) (last _ (u8-Codec _) (returns _ (unpack-pack p _))))))

-- What the receiver holds that decodes `s` into `out`.
abbrev pub received_snapshot : WorldSnapshot → WorldSnapshot → WorldSnapshot
received_snapshot s out = record s {
  players = overlay wire_player s.player_count s.players out.players;
}

min_left : (n m : ℕ) → n ≤ m → min n m ≡ n
min_left n m h = omega arith

pub snapshot-Codec :
    (s out : WorldSnapshot)
    → IsWireSnapshot s
    → length out.players ≡ max_players
    → Codec
        (encode_world_snapshot s)
        (decode_world_snapshot out)
        (17 + s.player_count * 9)
        (received_snapshot s out)
unfolding encode_world_snapshot decode_world_snapshot
snapshot-Codec s out v h = rw (min_left s.player_count max_players v.count_in) (
    Codec-size (omega arith) (
      field _ (u32-Codec s.last_input_seq v.seq_in) (
        field _ (u32-Codec s.tick v.tick_in) (
          field _ (u8-Codec s.player_count) (
            field _ (u8-Codec s.flag_carrier_red) (
              field _ (u8-Codec s.flag_carrier_blue) (
                field _ (u8-Codec _) (
                  field _ (u8-Codec _) (
                    field _ (u8-Codec s.score_red) (
                      field _ (u8-Codec s.score_blue) (
                        field _ (u16-Codec s.seconds_remaining v.seconds_in) (
                          check _ require_ok-Silent (
                            check _
                              (require-Silent _ (le→leb s.player_count max_players v.count_in))
                              (check _ (accept-Silent _ (decode_flag_state-byte s.flag_state_red)) (
                                check _ (accept-Silent _ (decode_flag_state-byte s.flag_state_blue))
                                  (last _
                                    (slots-Codec write_player read_player wire_player IsWirePlayer 9
                                      player-Codec s.player_count s.players out.players
                                      (omega (arith, v.count_in, v.slots))
                                      (omega (arith, v.count_in)) v.players_in)
                                    (checks _ require_ok-Silent (pure-Silent _))))))))))))))))))
