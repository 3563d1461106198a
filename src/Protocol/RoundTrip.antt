-- ===== src/Protocol/RoundTrip.antt =====
-- What shared/protocol.cpp promises of its messages: a decoder reads back what its encoder wrote.
use networked_capture_the_fl.Prelude.{
  ℕ, ◌+◌, ◌*◌, ◌<◌, ◌≤◌, ◌^◌, ◌≡◌, false, List, length, some, All,
}
use networked_capture_the_fl.GameTypes.{WorldSnapshot}
use networked_capture_the_fl.GameTypes.Config.{max_players, input_redundancy}
use networked_capture_the_fl.ByteBuffer.{writer, reader, written}
use networked_capture_the_fl.ByteBuffer.Codec.{round_trip}
use networked_capture_the_fl.Protocol.Handshake.{
  magic, protocol_version, UdpHeader, encode_udp_header, decode_udp_header, MsgLobbyState,
  encode_lobby_state, decode_lobby_state, MsgGameStart, encode_game_start, decode_game_start,
  MsgPlayerInput, encode_player_input, decode_player_input,
}
use networked_capture_the_fl.Protocol.Handshake.Laws.{
  udp_header-Codec, IsWireLobbySlot, received_lobby, lobby_state-Codec, received_start,
  game_start-Codec, IsWireInput, received_input, player_input-Codec,
}
use networked_capture_the_fl.Protocol.Snapshot.{encode_world_snapshot, decode_world_snapshot}
use networked_capture_the_fl.Protocol.Snapshot.Laws.{
  IsWireSnapshot, received_snapshot, snapshot-Codec,
}
use networked_capture_the_fl.Protocol.Delta.{encode_delta_snapshot, decode_delta_snapshot}
use networked_capture_the_fl.Protocol.Delta.Laws.{Mirrors, received_delta, delta_size, delta-Codec}

-- A datagram header of this protocol version is eight bytes, and is read back as it was.
decode-encode_udp_header :
    (h : UdpHeader) (buf : List ℕ)
    → h.magic_word ≡ magic
    → h.version ≡ protocol_version
    → h.tick < 2 ^ 32
    → 8 ≤ length buf
    → let w = encode_udp_header h (writer buf) in
      (w.overflow ≡ false) × (w.pos ≡ 8) × ((decode_udp_header (reader (written w))).0 ≡ some h)
decode-encode_udp_header h buf m v t room = round_trip (udp_header-Codec h m v t) buf room

-- A lobby state with at most ten players, whose names are 16 bytes each, takes two bytes and 17 for
-- each player; the receiver reads the count, the host and the slots in use as they were, and finds
-- the other slots empty.
pub decode-encode_lobby_state :
    (m : MsgLobbyState) (buf : List ℕ)
    → m.player_count ≤ max_players
    → length m.slots ≡ max_players
    → All IsWireLobbySlot m.slots
    → 2 + m.player_count * 17 ≤ length buf
    → let w = encode_lobby_state m (writer buf) in
      (w.overflow ≡ false)
      × (w.pos ≡ 2 + m.player_count * 17)
      × ((decode_lobby_state (reader (written w))).0 ≡ some (received_lobby m))
decode-encode_lobby_state m buf n l ok room = round_trip (lobby_state-Codec m n l ok) buf room

-- A game start with at most ten players takes five bytes and six for each player; the receiver
-- reads it back, with the spawn points at the resolution of the wire.
decode-encode_game_start :
    (m : MsgGameStart) (buf : List ℕ)
    → m.player_count ≤ max_players
    → length m.slots ≡ max_players
    → m.start_tick < 2 ^ 32
    → 5 + m.player_count * 6 ≤ length buf
    → let w = encode_game_start m (writer buf) in
      (w.overflow ≡ false)
      × (w.pos ≡ 5 + m.player_count * 6)
      × ((decode_game_start (reader (written w))).0 ≡ some (received_start m))
decode-encode_game_start m buf n l t room = round_trip (game_start-Codec m n l t) buf room

-- A player input with at most three entries takes ten bytes and three for each entry, and is read
-- back with the entries in use as they were.
pub decode-encode_player_input :
    (m : MsgPlayerInput) (buf : List ℕ)
    → m.session_token < 2 ^ 32
    → m.base_seq < 2 ^ 32
    → m.count ≤ input_redundancy
    → length m.inputs ≡ input_redundancy
    → All IsWireInput m.inputs
    → 10 + m.count * 3 ≤ length buf
    → let w = encode_player_input m (writer buf) in
      (w.overflow ≡ false)
      × (w.pos ≡ 10 + m.count * 3)
      × ((decode_player_input (reader (written w))).0 ≡ some (received_input m))
decode-encode_player_input m buf t b n l ok room =
    round_trip (player_input-Codec m t b n l ok) buf room

-- A snapshot takes 17 bytes and nine for each player; the receiver reads every field as it was, the
-- players in use at the resolution of the wire, and leaves the other slots alone.
pub decode-encode_world_snapshot :
    (s out : WorldSnapshot) (buf : List ℕ)
    → IsWireSnapshot s
    → length out.players ≡ max_players
    → 17 + s.player_count * 9 ≤ length buf
    → let w = encode_world_snapshot s (writer buf) in
      (w.overflow ≡ false)
      × (w.pos ≡ 17 + s.player_count * 9)
      × ((decode_world_snapshot out (reader (written w))).0 ≡ some (received_snapshot s out))
decode-encode_world_snapshot s out buf v h room = round_trip (snapshot-Codec s out v h) buf room

-- A delta between two snapshots whose ticks are at most 255 apart, decoded into a cache that
-- mirrors the older one, gives the newer one: every field as it is there, the players at the
-- resolution of the wire.
pub decode-encode_delta_snapshot :
    (cur base cache : WorldSnapshot) (buf : List ℕ)
    → IsWireSnapshot cur
    → IsWireSnapshot base
    → Mirrors cache base
    → base.tick ≤ cur.tick
    → cur.tick ≤ base.tick + 255
    → delta_size cur base ≤ length buf
    → let w = encode_delta_snapshot cur base (writer buf) in
      (w.overflow ≡ false)
      × (w.pos ≡ delta_size cur base)
      × ((decode_delta_snapshot cur.tick cache (reader (written w))).0
          ≡ some (received_delta cur base cache))
decode-encode_delta_snapshot cur base cache buf v w m later near room =
    round_trip (delta-Codec cur base cache v w m later near) buf room
