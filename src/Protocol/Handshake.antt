-- ===== src/Protocol/Handshake.antt =====
-- shared/protocol.{h,cpp}: the datagram header and the messages that set a match up, each with its
-- encoder and its decoder.
use networked_capture_the_fl.Prelude.{
  ℕ, ◌&&◌, List, Option, none, some, ltb, leb, ◌==◌, min, if◌then◌else◌,
}
use networked_capture_the_fl.GameTypes.{Vec2Fixed, no_vec, Team, red, team_byte, InputCmd, no_input}
use networked_capture_the_fl.GameTypes.Config.{max_players, input_redundancy}
use networked_capture_the_fl.ByteBuffer.{
  Writer, put_u8, put_u16, put_u32, ◌⨾◌, nothing, Parser, get_u8, get_u16, get_u32, ◌>>=◌, ◌>>◌,
  pure, require, require_ok, accept,
}
use networked_capture_the_fl.Prelude.{replicate}
use networked_capture_the_fl.Protocol.Fields.{
  write_vec2, read_vec2, write_name, read_name, decode_team,
}
use networked_capture_the_fl.Protocol.Slots.{write_slots, read_slots}
pub mod Laws

abbrev pub magic : ℕ
magic = 0x4346

abbrev pub protocol_version : ℕ
protocol_version = 2

pub record UdpHeader : Type 0 where
  pub magic_word : ℕ
  pub version : ℕ
  pub type : ℕ
  pub tick : ℕ

unfoldable pub encode_udp_header : UdpHeader → Writer → Writer
encode_udp_header h = put_u16 h.magic_word ⨾ (put_u8 h.version ⨾ (put_u8 h.type ⨾ put_u32 h.tick))

unfoldable pub decode_udp_header : Parser UdpHeader
decode_udp_header = do
  m ← get_u16
  v ← get_u8
  t ← get_u8
  tick ← get_u32
  require_ok
  require (m == magic && v == protocol_version)
  pure (record { magic_word = m; version = v; type = t; tick = tick })

pub record MsgJoinLobby : Type 0 where
  pub name : List ℕ

unfoldable pub encode_join_lobby : MsgJoinLobby → Writer → Writer
encode_join_lobby m = write_name m.name

unfoldable pub decode_join_lobby : Parser MsgJoinLobby
decode_join_lobby = do name ← read_name; require_ok; pure (record { name = name })

pub record MsgJoinAccept : Type 0 where
  pub player_id : ℕ
  pub session_token : ℕ
  pub udp_port : ℕ

unfoldable pub encode_join_accept : MsgJoinAccept → Writer → Writer
encode_join_accept m = put_u8 m.player_id ⨾ (put_u32 m.session_token ⨾ put_u16 m.udp_port)

unfoldable pub decode_join_accept : Parser MsgJoinAccept
decode_join_accept = do
  id ← get_u8
  token ← get_u32
  port ← get_u16
  require_ok
  pure (record { player_id = id; session_token = token; udp_port = port })

pub data JoinRejectReason : Type 0 where
  full in_progress bad_version : JoinRejectReason

abbrev pub reason_byte : JoinRejectReason → ℕ
reason_byte full = 0
reason_byte in_progress = 1
reason_byte bad_version = 2

unfoldable pub reason_of : ℕ → Option JoinRejectReason
reason_of raw =
    if ltb 2 raw
    then none
    else some (if raw == 2 then bad_version else if raw == 1 then in_progress else full)

pub record MsgJoinReject : Type 0 where
  pub reason : JoinRejectReason

unfoldable pub encode_join_reject : MsgJoinReject → Writer → Writer
encode_join_reject m = put_u8 (reason_byte m.reason)

unfoldable pub decode_join_reject : Parser MsgJoinReject
decode_join_reject = do
  raw ← get_u8
  require_ok
  reason ← accept (reason_of raw)
  pure (record { reason = reason })

pub record LobbySlot : Type 0 where
  pub id : ℕ
  pub name : List ℕ

pub record MsgLobbyState : Type 0 where
  pub player_count : ℕ
  pub slots : List LobbySlot
  pub host_id : ℕ

abbrev pub no_lobby_slot : LobbySlot
no_lobby_slot = record { id = 0; name = replicate 16 0 }

unfoldable pub write_lobby_slot : LobbySlot → Writer → Writer
write_lobby_slot s = put_u8 s.id ⨾ write_name s.name

unfoldable pub read_lobby_slot : LobbySlot → Parser LobbySlot
read_lobby_slot s = do id ← get_u8; name ← read_name; pure (record { id = id; name = name })

unfoldable pub encode_lobby_state : MsgLobbyState → Writer → Writer
encode_lobby_state m =
    put_u8 m.player_count
    ⨾ (write_slots write_lobby_slot (min m.player_count max_players) m.slots ⨾ put_u8 m.host_id)

unfoldable pub decode_lobby_state : Parser MsgLobbyState
decode_lobby_state = do
  n ← get_u8
  require (leb n max_players)
  slots ← read_slots read_lobby_slot n (replicate max_players no_lobby_slot)
  host ← get_u8
  require_ok
  pure (record { player_count = n; slots = slots; host_id = host })

-- MsgStartRequest and MsgHeartbeat have no fields.
unfoldable pub encode_empty : Unit {0} → Writer → Writer
encode_empty m = nothing

unfoldable pub decode_empty : Parser (Unit {0})
decode_empty = do require_ok; pure tt

pub record StartSlot : Type 0 where
  pub id : ℕ
  pub team : Team
  pub spawn_point : Vec2Fixed

pub record MsgGameStart : Type 0 where
  pub player_count : ℕ
  pub slots : List StartSlot
  pub start_tick : ℕ

abbrev pub no_start_slot : StartSlot
no_start_slot = record { id = 0; team = red; spawn_point = no_vec }

unfoldable pub write_start_slot : StartSlot → Writer → Writer
write_start_slot s = put_u8 s.id ⨾ (put_u8 (team_byte s.team) ⨾ write_vec2 s.spawn_point)

unfoldable pub read_start_slot : StartSlot → Parser StartSlot
read_start_slot s = do
  id ← get_u8
  raw ← get_u8
  team ← accept (decode_team raw)
  spawn ← read_vec2
  pure (record { id = id; team = team; spawn_point = spawn })

unfoldable pub encode_game_start : MsgGameStart → Writer → Writer
encode_game_start m =
    put_u8 m.player_count
    ⨾ (put_u32 m.start_tick ⨾ write_slots write_start_slot (min m.player_count max_players) m.slots)

unfoldable pub decode_game_start : Parser MsgGameStart
decode_game_start = do
  n ← get_u8
  tick ← get_u32
  require_ok
  require (leb n max_players)
  slots ← read_slots read_start_slot n (replicate max_players no_start_slot)
  require_ok
  pure (record { player_count = n; slots = slots; start_tick = tick })

pub record MsgUdpHello : Type 0 where
  pub player_id : ℕ
  pub session_token : ℕ

unfoldable pub encode_udp_hello : MsgUdpHello → Writer → Writer
encode_udp_hello m = put_u8 m.player_id ⨾ put_u32 m.session_token

unfoldable pub decode_udp_hello : Parser MsgUdpHello
decode_udp_hello = do
  id ← get_u8
  token ← get_u32
  require_ok
  pure (record { player_id = id; session_token = token })

pub record MsgPlayerInput : Type 0 where
  pub player_id : ℕ
  pub session_token : ℕ
  pub base_seq : ℕ
  pub count : ℕ
  pub inputs : List InputCmd

unfoldable pub write_input : InputCmd → Writer → Writer
write_input c = put_u8 c.buttons ⨾ put_u16 c.aim_angle

unfoldable pub read_input : InputCmd → Parser InputCmd
read_input c = do
  buttons ← get_u8
  aim ← get_u16
  pure (record { buttons = buttons; aim_angle = aim })

unfoldable pub encode_player_input : MsgPlayerInput → Writer → Writer
encode_player_input m =
    put_u8 m.player_id
    ⨾ (put_u32 m.session_token
        ⨾ (put_u32 m.base_seq
            ⨾ (put_u8 m.count ⨾ write_slots write_input (min m.count input_redundancy) m.inputs)))

unfoldable pub decode_player_input : Parser MsgPlayerInput
decode_player_input = do
  id ← get_u8
  token ← get_u32
  base ← get_u32
  n ← get_u8
  require (leb n input_redundancy)
  inputs ← read_slots read_input n (replicate input_redundancy no_input)
  require_ok
  pure (record {
    player_id = id;
    session_token = token;
    base_seq = base;
    count = n;
    inputs = inputs;
  })
