-- ===== src/Protocol/Handshake/Laws.antt =====
-- The encoder and the decoder of each handshake message of shared/protocol.cpp fit together.
use networked_capture_the_fl.Prelude.{
  le→leb, ℕ, ◌+◌, ◌*◌, ◌<◌, ◌≤◌, ◌^◌, ◌≡◌, refl, List, [], ◌∷◌, length, min, some, All, arith,
}
use networked_capture_the_fl.GameTypes.{InputCmd, no_input}
use networked_capture_the_fl.GameTypes.Config.{max_players, input_redundancy}
use networked_capture_the_fl.Prelude.{replicate}
use networked_capture_the_fl.ByteBuffer.Codec.{
  Codec, u8-Codec, u16-Codec, u32-Codec, nothing-Codec, pure-Silent, require-Silent,
  require_ok-Silent, accept-Silent, Codec-size, field, last, check, checks,
}
use networked_capture_the_fl.Protocol.Fields.{name-Codec, vec2-Codec, wire_vec, decode_team-byte}
use networked_capture_the_fl.Protocol.Slots.{slots-Codec, overlay}
use networked_capture_the_fl.Protocol.Handshake.{
  magic, protocol_version, UdpHeader, encode_udp_header, decode_udp_header, MsgJoinLobby,
  encode_join_lobby, decode_join_lobby, MsgJoinAccept, encode_join_accept, decode_join_accept,
  JoinRejectReason, full, in_progress, bad_version, reason_byte, reason_of, MsgJoinReject,
  encode_join_reject, decode_join_reject, LobbySlot, MsgLobbyState, no_lobby_slot, write_lobby_slot,
  read_lobby_slot, encode_lobby_state, decode_lobby_state, encode_empty, decode_empty, StartSlot,
  MsgGameStart, no_start_slot, write_start_slot, read_start_slot, encode_game_start,
  decode_game_start, MsgUdpHello, encode_udp_hello, decode_udp_hello, MsgPlayerInput, write_input,
  read_input, encode_player_input, decode_player_input,
}

pub udp_header-Codec :
    (h : UdpHeader)
    → h.magic_word ≡ magic
    → h.version ≡ protocol_version
    → h.tick < 2 ^ 32
    → Codec (encode_udp_header h) decode_udp_header 8 h
unfolding encode_udp_header decode_udp_header
udp_header-Codec h m v t = field _ (u16-Codec h.magic_word (omega arith)) (
    field _ (u8-Codec h.version) (
      field _ (u8-Codec h.type) (
        last _ (u32-Codec h.tick t) (
          checks _ require_ok-Silent
            (checks _ (require-Silent _ (ground arith)) (pure-Silent _))))))

pub join_lobby-Codec :
    (m : MsgJoinLobby) → length m.name ≡ 16 → Codec (encode_join_lobby m) decode_join_lobby 16 m
unfolding encode_join_lobby decode_join_lobby
join_lobby-Codec m h = last _ (name-Codec m.name h) (checks _ require_ok-Silent (pure-Silent _))

pub join_accept-Codec :
    (m : MsgJoinAccept)
    → m.session_token < 2 ^ 32
    → m.udp_port < 2 ^ 16
    → Codec (encode_join_accept m) decode_join_accept 7 m
unfolding encode_join_accept decode_join_accept
join_accept-Codec m h k = field _ (u8-Codec m.player_id) (
    field _ (u32-Codec m.session_token h)
      (last _ (u16-Codec m.udp_port k) (checks _ require_ok-Silent (pure-Silent _))))

reason_of-byte : (r : JoinRejectReason) → reason_of (reason_byte r) ≡ some r
unfolding reason_of
reason_of-byte full = refl
reason_of-byte in_progress = refl
reason_of-byte bad_version = refl

pub join_reject-Codec : (m : MsgJoinReject) → Codec (encode_join_reject m) decode_join_reject 1 m
unfolding encode_join_reject decode_join_reject
join_reject-Codec m = last _ (u8-Codec (reason_byte m.reason)) (
    checks _ require_ok-Silent
      (checks _ (accept-Silent m.reason (reason_of-byte m.reason)) (pure-Silent _)))

pub empty-Codec : Codec (encode_empty tt) decode_empty 0 tt
unfolding encode_empty decode_empty
empty-Codec = nothing-Codec (checks _ require_ok-Silent (pure-Silent tt))

abbrev pub IsWireLobbySlot : LobbySlot → Type 0
IsWireLobbySlot s = length s.name ≡ 16

lobby_slot-Codec :
    (s d : LobbySlot) → IsWireLobbySlot s → Codec (write_lobby_slot s) (read_lobby_slot d) 17 s
unfolding write_lobby_slot read_lobby_slot
lobby_slot-Codec s d h = field _ (u8-Codec s.id) (last _ (name-Codec s.name h) (pure-Silent _))

-- What the receiver of a lobby state holds: the slots in use as sent, the others empty.
abbrev pub received_lobby : MsgLobbyState → MsgLobbyState
received_lobby m = record m {
  slots = overlay (λ s. s) m.player_count m.slots (replicate max_players no_lobby_slot);
}

min_left : (n m : ℕ) → n ≤ m → min n m ≡ n
min_left n m h = omega arith

pub lobby_state-Codec :
    (m : MsgLobbyState)
    → m.player_count ≤ max_players
    → length m.slots ≡ max_players
    → All IsWireLobbySlot m.slots
    → Codec (encode_lobby_state m) decode_lobby_state (2 + m.player_count * 17) (received_lobby m)
unfolding encode_lobby_state decode_lobby_state
lobby_state-Codec m n l ok = rw (min_left m.player_count max_players n) (
    Codec-size (omega arith) (
      field _ (u8-Codec m.player_count) (
        check _ (require-Silent _ (le→leb m.player_count max_players n)) (
          field _
            (slots-Codec write_lobby_slot read_lobby_slot (λ s. s) IsWireLobbySlot 17
              lobby_slot-Codec m.player_count m.slots (replicate max_players no_lobby_slot)
              (omega arith) n ok)
            (last _ (u8-Codec m.host_id) (checks _ require_ok-Silent (pure-Silent _)))))))

-- A spawn point arrives at the resolution of the wire.
abbrev pub wire_start_slot : StartSlot → StartSlot
wire_start_slot s = record s { spawn_point = wire_vec s.spawn_point }

start_slot-Codec :
    (s d : StartSlot)
    → Unit {0}
    → Codec (write_start_slot s) (read_start_slot d) 6 (wire_start_slot s)
unfolding write_start_slot read_start_slot
start_slot-Codec s d h = field _ (u8-Codec s.id) (
    field _ (u8-Codec _) (
      check _ (accept-Silent s.team (decode_team-byte s.team))
        (last _ (vec2-Codec s.spawn_point) (pure-Silent _))))

abbrev pub received_start : MsgGameStart → MsgGameStart
received_start m = record m {
  slots = overlay wire_start_slot m.player_count m.slots (replicate max_players no_start_slot);
}

All-units : {A : Type 0} (xs : List A) → All (λ x. Unit {0}) xs
All-units [] = tt
All-units (x ∷ xs) = (tt, All-units xs)

pub game_start-Codec :
    (m : MsgGameStart)
    → m.player_count ≤ max_players
    → length m.slots ≡ max_players
    → m.start_tick < 2 ^ 32
    → Codec (encode_game_start m) decode_game_start (5 + m.player_count * 6) (received_start m)
unfolding encode_game_start decode_game_start
game_start-Codec m n l t = rw (min_left m.player_count max_players n) (
    Codec-size (omega arith) (
      field _ (u8-Codec m.player_count) (
        field _ (u32-Codec m.start_tick t) (
          check _ require_ok-Silent (
            check _ (require-Silent _ (le→leb m.player_count max_players n)) (
              last _
                (slots-Codec write_start_slot read_start_slot wire_start_slot (λ s. Unit {0}) 6
                  start_slot-Codec m.player_count m.slots (replicate max_players no_start_slot)
                  (omega arith) n (All-units m.slots))
                (checks _ require_ok-Silent (pure-Silent _))))))))

pub udp_hello-Codec :
    (m : MsgUdpHello) → m.session_token < 2 ^ 32 → Codec (encode_udp_hello m) decode_udp_hello 5 m
unfolding encode_udp_hello decode_udp_hello
udp_hello-Codec m h =
    field _ (u8-Codec m.player_id)
      (last _ (u32-Codec m.session_token h) (checks _ require_ok-Silent (pure-Silent _)))

abbrev pub IsWireInput : InputCmd → Type 0
IsWireInput c = c.aim_angle < 2 ^ 16

input-Codec : (c d : InputCmd) → IsWireInput c → Codec (write_input c) (read_input d) 3 c
unfolding write_input read_input
input-Codec c d h = field _ (u8-Codec c.buttons) (last _ (u16-Codec c.aim_angle h) (pure-Silent _))

abbrev pub received_input : MsgPlayerInput → MsgPlayerInput
received_input m = record m {
  inputs = overlay (λ c. c) m.count m.inputs (replicate input_redundancy no_input);
}

pub player_input-Codec :
    (m : MsgPlayerInput)
    → m.session_token < 2 ^ 32
    → m.base_seq < 2 ^ 32
    → m.count ≤ input_redundancy
    → length m.inputs ≡ input_redundancy
    → All IsWireInput m.inputs
    → Codec (encode_player_input m) decode_player_input (10 + m.count * 3) (received_input m)
unfolding encode_player_input decode_player_input
player_input-Codec m t b n l ok = rw (min_left m.count input_redundancy n) (
    Codec-size (omega arith) (
      field _ (u8-Codec m.player_id) (
        field _ (u32-Codec m.session_token t) (
          field _ (u32-Codec m.base_seq b) (
            field _ (u8-Codec m.count) (
              check _ (require-Silent _ (le→leb m.count input_redundancy n)) (
                last _
                  (slots-Codec write_input read_input (λ c. c) IsWireInput 3 input-Codec m.count
                    m.inputs (replicate input_redundancy no_input) (omega arith) n ok)
                  (checks _ require_ok-Silent (pure-Silent _)))))))))
