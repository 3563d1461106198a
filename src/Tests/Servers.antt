-- ===== src/Tests/Servers.antt =====
-- The network side of the server at concrete inputs (server/net_server.cpp, server/broadcast.cpp).
use networked_capture_the_fl.Prelude.{
  replicate, pos, ℕ, ◌≡◌, refl, true, some, List, [], ◌∷◌, arith,
}
use networked_capture_the_fl.GameTypes.{InputCmd, WorldSnapshot, no_snapshot}
use networked_capture_the_fl.GameTypes.Config.{max_players}
use networked_capture_the_fl.Client.Sends.{send_udp_hello, send_input}
use networked_capture_the_fl.Server.Registry.{SockAddr, ClientEntry, new_client, find_by_id}
use networked_capture_the_fl.Server.NetServer.{NetServer, on_udp_packet}
use networked_capture_the_fl.Framing.{tcp_frame}
use networked_capture_the_fl.Framing.Stream.{stream, handled}
use networked_capture_the_fl.Server.NetServer.Streams.{
  accum_for, got, on_frame, put_accum, handle_tcp_readable,
}
use networked_capture_the_fl.Server.NetServer.Bytes.{handle_tcp_readable-stream}
use networked_capture_the_fl.Server.NetServer.Arrives.{with_inputs, commands_of, send_input-arrives}

abbrev home : SockAddr
home = record { sin_port = 40000; s_addr = 16777343 }

-- A client who has greeted the server.
abbrev alice : ClientEntry
alice = record (new_client 0 (pos 7) (97 ∷ [])) {
  has_udp_addr = true;
  udp_addr = home;
  session_token = 99;
}

abbrev one_client : NetServer
one_client = record {
  registry = alice ∷ [];
  lobby = record { player_ids = 0 ∷ []; host_id = 0; in_progress = true };
  inbound = [];
  outbound = [];
  datagrams = [];
  frames = [];
  closed = [];
  tcp_in = replicate max_players [];
  pre_join = [];
  udp_port = 5000;
  udp_silence_ms = 3000;
  last_silence_check_ms = 0;
  udp_snapshots_sent = 0;
  udp_delta_snapshots_sent = 0;
  tcp_events_fanned_out = 0;
}

abbrev a_hello : List ℕ
a_hello = send_udp_hello 0 99

abbrev two_inputs : List InputCmd
two_inputs = record { buttons = 1; aim_angle = 300 } ∷ record { buttons = 16; aim_angle = 400 } ∷ []

send_input-arrives_example :
    (packet : List ℕ) × (send_input 0 99 12 two_inputs 2 ≡ some packet)
    × (on_udp_packet 5 home packet one_client
        ≡ with_inputs 5 0 alice (commands_of 0 11 two_inputs) one_client)
unfolding find_by_id
send_input-arrives_example =
    send_input-arrives 5 home 0 99 12 two_inputs alice one_client (omega arith) (omega arith)
      (omega arith) (omega arith) (omega arith, (omega arith, tt)) refl refl refl

abbrev a_snapshot : WorldSnapshot
a_snapshot = record no_snapshot { tick = 40; player_count = 2; score_red = 1 }

abbrev keep_order : List ℕ → List ℕ
keep_order ids = ids

-- The first byte of a start request came in an earlier read.
abbrev mid_frame : NetServer
mid_frame = record one_client { tcp_in = (0 ∷ []) ∷ replicate 9 [] }

abbrev requests : List (ℕ × List ℕ)
requests = (5, []) ∷ (15, 1 ∷ []) ∷ []

handle_tcp_readable-stream_example :
    handle_tcp_readable 5 99 keep_order (pos 7) (got (0 ∷ 5 ∷ 0 ∷ 1 ∷ 15 ∷ 1 ∷ []) ∷ []) mid_frame
    ≡ put_accum (accum_for (pos 7) mid_frame) [] (
        handled
          (on_frame 5 99 keep_order (pos 7))
          (put_accum (accum_for (pos 7) mid_frame) (stream requests) mid_frame)
          requests)
unfolding accum_for tcp_frame
handle_tcp_readable-stream_example =
    handle_tcp_readable-stream 5 99 keep_order (pos 7) mid_frame requests
      (0 ∷ 5 ∷ 0 ∷ 1 ∷ 15 ∷ 1 ∷ []) [] (omega arith) refl (omega arith) (omega arith)
      (omega arith, (omega arith, tt))
