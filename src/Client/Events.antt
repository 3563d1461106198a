-- ===== src/Client/Events.antt =====
-- client/net_client.cpp: the messages that a client turns into events, `dispatch_tcp_frame` and the
-- event of `dispatch_udp_payload`.
pub mod Laws
use networked_capture_the_fl.Prelude.{
  ℕ, List, [], ◌∷◌, ◌++◌, Option, none, some, if◌then◌else◌, ◌==◌,
}
use networked_capture_the_fl.ByteBuffer.{reader, ok, Parser}
use networked_capture_the_fl.Protocol.Handshake.{
  MsgLobbyState, decode_lobby_state, MsgGameStart, decode_game_start,
}
use networked_capture_the_fl.Protocol.Events.{
  EventMsg, shot_fired, player_killed, player_respawned, flag_picked_up, flag_dropped,
  flag_returned, flag_captured, match_end, decode_shot_fired, decode_player_killed,
  decode_player_respawned, decode_flag_by, decode_flag_returned, decode_flag_captured,
  decode_flag_dropped, decode_match_end,
}

pub data NetClientState : Type 0 where
  disconnected waiting_join_accept rejected in_lobby in_game : NetClientState

-- `GameEvent`
pub data GameEvent : Type 0 where
  lobby_changed : MsgLobbyState → GameEvent
  game_started : MsgGameStart → GameEvent
  happened : EventMsg → GameEvent

pub record EventLog : Type 0 where
  pub state : NetClientState
  pub lobby_state : Option MsgLobbyState
  pub game_start : Option MsgGameStart
  pub pending : List GameEvent

-- `decode_…(r, msg) && r.ok()`
abbrev pub decoded {ℓ} : {A : Type ℓ} → Parser A → List ℕ → Option A
decoded p payload = let (m, r) = p (reader payload) in if ok r then m else none

-- `pending_events_.push_back(msg)`, if there is a message.
abbrev pub keep_event {ℓ} : {A : Type ℓ} → (A → EventMsg) → Option A → EventLog → EventLog
keep_event make none s = s
keep_event make (some m) s = record s { pending = s.pending ++ happened (make m) ∷ [] }

abbrev pub keep_lobby : Option MsgLobbyState → EventLog → EventLog
keep_lobby none s = s
keep_lobby (some m) s = record s {
  lobby_state = some m;
  pending = s.pending ++ lobby_changed m ∷ [];
}

abbrev pub keep_start : Option MsgGameStart → EventLog → EventLog
keep_start none s = s
keep_start (some m) s = record s {
  game_start = some m;
  state = in_game;
  pending = s.pending ++ game_started m ∷ [];
}

unfoldable pub dispatch_tcp_frame : ℕ → List ℕ → EventLog → EventLog
dispatch_tcp_frame type payload s =
    if type == 4
    then keep_lobby (decoded decode_lobby_state payload) s
    else if type == 6
    then keep_start (decoded decode_game_start payload) s
    else if type == 11
    then keep_event player_killed (decoded decode_player_killed payload) s
    else if type == 12
    then keep_event player_respawned (decoded decode_player_respawned payload) s
    else if type == 13
    then keep_event flag_picked_up (decoded decode_flag_by payload) s
    else if type == 14
    then keep_event flag_dropped (decoded decode_flag_dropped payload) s
    else if type == 15
    then keep_event flag_returned (decoded decode_flag_returned payload) s
    else if type == 16
    then keep_event flag_captured (decoded decode_flag_captured payload) s
    else if type == 17
    then keep_event match_end (decoded decode_match_end payload) s
    else s

-- The case of `dispatch_udp_payload` for an event.
unfoldable pub on_shot_fired : List ℕ → EventLog → EventLog
on_shot_fired payload s = keep_event shot_fired (decoded decode_shot_fired payload) s
