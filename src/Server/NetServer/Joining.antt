-- ===== src/Server/NetServer/Joining.antt =====
-- server/net_server.cpp: how a connection joins the lobby.
use networked_capture_the_fl.Prelude.{get_or, replicate, ℤ, ℕ, Option, none, some, List}
use networked_capture_the_fl.ByteBuffer.{writer, written}
use networked_capture_the_fl.Protocol.Handshake.{
  MsgJoinLobby, encode_join_accept, JoinRejectReason, encode_join_reject,
}
use networked_capture_the_fl.Server.Lobby.{JoinResult, add_player}
use networked_capture_the_fl.Server.Registry.{ClientEntry, no_client, add, remove, find_by_fd}
use networked_capture_the_fl.Server.NetServer.{
  NetServer, put_client, send_frame, c_string, broadcast_lobby_state,
}

-- The refusal, with the reason.
abbrev pub send_reject : ℤ → JoinRejectReason → NetServer → NetServer
send_reject fd reason s =
    send_frame fd 3
      (written (encode_join_reject (record { reason = reason }) (writer (replicate 512 0)))) s

-- A client who was given the identifier `id`, and what the lobby says of it.
abbrev pub finish_join : ℕ → ℕ → ℤ → ℕ → JoinResult → NetServer → NetServer
finish_join now token fd id JoinResult.joined s =
    let e = get_or s.registry id no_client in
    broadcast_lobby_state (
      send_frame fd 2
        (written (
          encode_join_accept
            (record { player_id = id; session_token = token; udp_port = s.udp_port })
            (writer (replicate 512 0))))
        (put_client id (record e { session_token = token; last_input_tick = now }) s))
finish_join now token fd id JoinResult.full s =
    send_reject fd JoinRejectReason.full (record s { registry = remove id s.registry })
finish_join now token fd id JoinResult.in_match s =
    send_reject fd JoinRejectReason.in_progress (record s { registry = remove id s.registry })

abbrev pub added_client : ℕ → ℕ → ℤ → Option ℕ → NetServer → NetServer
added_client now token fd none s = send_reject fd JoinRejectReason.full s
added_client now token fd (some id) s =
    let (result, lobby) = add_player id s.lobby in
    finish_join now token fd id result (record s { lobby = lobby })

abbrev pub join_unless : ℕ → ℕ → ℤ → List ℕ → Option ClientEntry → NetServer → NetServer
join_unless now token fd name (some e) s = s
join_unless now token fd name none s =
    let (id, registry) = add fd name s.registry in
    added_client now token fd id (record s { registry = registry })

unfoldable pub on_join_lobby : ℕ → ℕ → ℤ → MsgJoinLobby → NetServer → NetServer
on_join_lobby now token fd m s =
    join_unless now token fd (c_string m.name) (find_by_fd fd s.registry) s
