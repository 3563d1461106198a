-- ===== src/Server/NetServer/Matches.antt =====
-- server/net_server.cpp: how a match starts.
use networked_capture_the_fl.Prelude.{
  if◌then◌else◌, length, get_or, replicate, ℤ, ℕ, zero, suc, ◌+◌, ◌-◌, Option, none, some, List, [],
  ◌∷◌, ◌++◌,
}
use networked_capture_the_fl.GameTypes.{Team, red, blue, no_vec}
use networked_capture_the_fl.GameTypes.Config.{max_players}
use networked_capture_the_fl.Map.{spawn_points}
use networked_capture_the_fl.ByteBuffer.{writer, written}
use networked_capture_the_fl.Protocol.Handshake.{
  JoinRejectReason, StartSlot, MsgGameStart, no_start_slot, encode_game_start,
}
use networked_capture_the_fl.Server.Queues.{InboundCommand, player_joined}
use networked_capture_the_fl.Server.Lobby.{can_issue_start, begin_match, assign_teams}
use networked_capture_the_fl.Server.Registry.{ClientEntry, find_by_fd}
use networked_capture_the_fl.Server.NetServer.{NetServer, broadcast_payload, padded}
use networked_capture_the_fl.Server.NetServer.Joining.{send_reject}

-- One side of the teams, from the `idx`th spawn point of the team on, in at most `room` slots.
abbrev pub side_slots : Team → ℕ → ℕ → List ℕ → List StartSlot
side_slots t idx zero ids = []
side_slots t idx (suc room) [] = []
side_slots t idx (suc room) (id ∷ ids) =
    record { id = id; team = t; spawn_point = get_or (spawn_points t) idx no_vec }
    ∷ side_slots t (idx + 1) room ids

abbrev pub side_commands : Team → ℕ → ℕ → List ℕ → List InboundCommand
side_commands t idx zero ids = []
side_commands t idx (suc room) [] = []
side_commands t idx (suc room) (id ∷ ids) =
    player_joined id t idx ∷ side_commands t (idx + 1) room ids

-- Both sides, the red one first.
abbrev pub start_commands : List ℕ → List ℕ → List InboundCommand
start_commands red_ids blue_ids =
    let reds = side_commands red 0 max_players red_ids in
    reds ++ side_commands blue 0 (max_players - length reds) blue_ids

abbrev pub game_start_of : List ℕ → List ℕ → MsgGameStart
game_start_of red_ids blue_ids =
    let reds = side_slots red 0 max_players red_ids in
    let slots = reds ++ side_slots blue 0 (max_players - length reds) blue_ids in
    record {
      player_count = length slots;
      slots = padded no_start_slot max_players slots;
      start_tick = 0;
    }

unfoldable pub begin_match_and_notify : (List ℕ → List ℕ) → NetServer → NetServer
begin_match_and_notify shuffle s =
    let (begins, lobby) = begin_match s.lobby in
    let (red_ids, blue_ids) = assign_teams shuffle lobby in
    if begins
    then broadcast_payload
        (6
          ∷ written
              (encode_game_start (game_start_of red_ids blue_ids) (writer (replicate 1200 0))))
        (record s { lobby = lobby; inbound = s.inbound ++ start_commands red_ids blue_ids })
    else record s { lobby = lobby }

abbrev pub start_by : (List ℕ → List ℕ) → ℤ → Option ClientEntry → NetServer → NetServer
start_by shuffle fd none s = s
start_by shuffle fd (some e) s =
    if can_issue_start e.player_id s.lobby
    then begin_match_and_notify shuffle s
    else send_reject fd JoinRejectReason.in_progress s

unfoldable pub on_start_request : (List ℕ → List ℕ) → ℤ → NetServer → NetServer
on_start_request shuffle fd s = start_by shuffle fd (find_by_fd fd s.registry) s
