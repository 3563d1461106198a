-- ===== src/Server/Broadcast/Laws.antt =====
-- The patch of server/broadcast.cpp: a body that was serialised once is each recipient's own.
use networked_capture_the_fl.Prelude.{
  length, drop, ℕ, ◌+◌, ◌*◌, ◌≤◌, min, ◌≡◌, refl, sym, ap, ◌∙◌, List, ◌∷◌, ◌++◌, arith,
}
use networked_capture_the_fl.GameTypes.{WorldSnapshot, flag_state_byte}
use networked_capture_the_fl.GameTypes.Config.{max_players}
use networked_capture_the_fl.ByteBuffer.{Writer, writer, written, put_u8, put_u16, put_u32, ◌⨾◌}
use networked_capture_the_fl.ByteBuffer.Encodes.{
  Encodes, bytes_u16, bytes_u32, u8-Encodes, u16-Encodes, u32-Encodes, ◌▹◌,
}
use networked_capture_the_fl.Protocol.Handshake.{
  UdpHeader, encode_udp_header, magic, protocol_version,
}
use networked_capture_the_fl.Protocol.Slots.{write_slots, slots-Codec}
use networked_capture_the_fl.Protocol.Snapshot.{write_player, read_player, encode_world_snapshot}
use networked_capture_the_fl.Protocol.Snapshot.Laws.{
  IsWirePlayer, IsWireSnapshot, wire_player, player-Codec,
}
use networked_capture_the_fl.Server.Broadcast.{be32, udp_head, patched}

-- The fields behind the acknowledgement.
abbrev behind_ack : WorldSnapshot → Writer → Writer
behind_ack s =
    put_u32 s.tick
    ⨾ (put_u8 s.player_count
        ⨾ (put_u8 s.flag_carrier_red
            ⨾ (put_u8 s.flag_carrier_blue
                ⨾ (put_u8 (flag_state_byte s.flag_state_red)
                    ⨾ (put_u8 (flag_state_byte s.flag_state_blue)
                        ⨾ (put_u8 s.score_red
                            ⨾ (put_u8 s.score_blue
                                ⨾ (put_u16 s.seconds_remaining
                                    ⨾ write_slots write_player (min s.player_count max_players)
                                        s.players))))))))

record Rest (s : WorldSnapshot) : Type 0 where
  bytes : List ℕ
  size : length bytes ≡ 13 + s.player_count * 9
  encodes : Encodes (behind_ack s) bytes

least : (n m : ℕ) → n ≤ m → min n m ≡ n
least n m h = omega arith

rest_lem : (s : WorldSnapshot) → IsWireSnapshot s → Rest s
rest_lem s v =
    let few = least s.player_count max_players v.count_in in
    let slots =
      slots-Codec write_player read_player wire_player IsWirePlayer 9 player-Codec
        (min s.player_count max_players) s.players s.players (omega (arith, v.count_in, v.slots))
        (omega (arith, v.count_in, v.slots)) v.players_in in
    record {
      bytes =
          bytes_u32 s.tick
          ++ s.player_count
            ∷ s.flag_carrier_red
            ∷ s.flag_carrier_blue
            ∷ flag_state_byte s.flag_state_red
            ∷ flag_state_byte s.flag_state_blue
            ∷ s.score_red
            ∷ s.score_blue
            ∷ bytes_u16 s.seconds_remaining
          ++ slots.bytes;
      size = omega (arith, slots.size, few);
      encodes =
          u32-Encodes s.tick
          ▹ u8-Encodes s.player_count
          ▹ u8-Encodes s.flag_carrier_red
          ▹ u8-Encodes s.flag_carrier_blue
          ▹ u8-Encodes (flag_state_byte s.flag_state_red)
          ▹ u8-Encodes (flag_state_byte s.flag_state_blue)
          ▹ u8-Encodes s.score_red
          ▹ u8-Encodes s.score_blue
          ▹ u16-Encodes s.seconds_remaining
          ▹ slots.encodes;
    }

abbrev pub server_header : ℕ → ℕ → UdpHeader
server_header type tick = record {
  magic_word = magic;
  version = protocol_version;
  type = type;
  tick = tick;
}

-- The datagram of a keyframe for a recipient, which is patched into the bytes that were encoded once
-- for all, is the one that encodes the header and the snapshot with the recipient's own
-- acknowledgement, given a snapshot that fits the wire and buffers with room for it.
pub patched-encode_world_snapshot :
    (s : WorldSnapshot) (tick ack : ℕ) (buf out : List ℕ)
    → IsWireSnapshot s
    → 17 + s.player_count * 9 ≤ length buf
    → 25 + s.player_count * 9 ≤ length out
    → patched 9 tick ack (written (encode_world_snapshot s (writer buf)))
      ≡ written (
          (encode_udp_header (server_header 9 tick)
              ⨾ encode_world_snapshot (record s { last_input_seq = ack }))
            (writer out))
unfolding patched encode_world_snapshot encode_udp_header
patched-encode_world_snapshot s tick ack buf out v room space =
    let rest = rest_lem s v in
    let one =
      (u32-Encodes s.last_input_seq ▹ rest.encodes).fits (writer buf) refl
        (omega (arith, rest.size)) in
    let two =
      ((u16-Encodes magic ▹ u8-Encodes protocol_version ▹ u8-Encodes 9 ▹ u32-Encodes tick)
          ▹ u32-Encodes ack
          ▹ rest.encodes).fits
        (writer out) refl (omega (arith, rest.size)) in
    ap (λ bs. udp_head 9 tick ++ be32 ack ++ drop 4 bs) one.bytes ∙ sym two.bytes
