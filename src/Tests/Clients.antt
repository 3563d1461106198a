-- ===== src/Tests/Clients.antt =====
-- A client's connection at concrete inputs (client/net_client.cpp).
use networked_capture_the_fl.Prelude.{
  replicate, All-replicate, pos, ℕ, ◌≡◌, refl, true, none, List, [], ◌∷◌, arith,
}
use networked_capture_the_fl.GameTypes.{WorldSnapshot, no_player, no_snapshot}
use networked_capture_the_fl.GameTypes.Config.{max_players}
use networked_capture_the_fl.ByteBuffer.{put_u8, put_u16, put_u32, ◌⨾◌, writer, written}
use networked_capture_the_fl.Protocol.Handshake.{
  MsgJoinAccept, JoinRejectReason, encode_join_accept,
}
use networked_capture_the_fl.Protocol.Snapshot.{encode_world_snapshot}
use networked_capture_the_fl.Protocol.Snapshot.Laws.{IsWirePlayer, received_snapshot}
use networked_capture_the_fl.Framing.{tcp_frame}
use networked_capture_the_fl.Framing.Stream.{handled}
use networked_capture_the_fl.Server.Broadcast.{patched}
use networked_capture_the_fl.Client.SnapshotCache.{no_cache}
use networked_capture_the_fl.Client.SnapshotCache.Laws.{with_ack}
use networked_capture_the_fl.Client.Events.{disconnected, dispatch_tcp_frame}
use networked_capture_the_fl.Client.NetClient.{
  NetClient, no_fd, arrived, poll_expired, Network, connect_and_join,
}
use networked_capture_the_fl.Client.NetClient.Polls.{drain_tcp, on_datagram}
use networked_capture_the_fl.Client.NetClient.Handshakes.{
  opened_tcp, opened_udp, Ends, connect_and_join-Ends,
}
use networked_capture_the_fl.Client.NetClient.Accepts.{working, HasJoined, connect_and_join-accepts}
use networked_capture_the_fl.Client.NetClient.Receives.{reads_of, drain_tcp-stream}
use networked_capture_the_fl.Client.NetClient.Keyframes.{keyframe-arrives}

abbrev new_net_client : NetClient
new_net_client = record {
  tcp_fd = no_fd;
  udp_fd = no_fd;
  server_udp_port = 0;
  player_id = 0;
  session_token = 0;
  join_reject_reason = JoinRejectReason.full;
  events = record { state = disconnected; lobby_state = none; game_start = none; pending = [] };
  snapshots = no_cache;
  last_udp_hello_sent_ms = 0;
  last_heartbeat_sent_ms = 0;
  tcp_rx = [];
  frames = [];
  datagrams = [];
  closed = [];
}

-- The server answers with a refusal, byte by byte, after a wait for nothing.
abbrev refusing : Network
refusing = record {
  resolved = true;
  tcp_socket = pos 4;
  connects = true;
  udp_socket = pos 5;
  binds = true;
  started = 100;
  turns =
      record { now = 110; poll = poll_expired }
      ∷ record { now = 120; poll = arrived (0 ∷ 1 ∷ []) }
      ∷ record { now = 130; poll = arrived (3 ∷ 1 ∷ []) }
      ∷ [];
}

connect_and_join-Ends_example :
    Ends
      (opened_tcp refusing)
      (opened_udp refusing)
      (connect_and_join (98 ∷ []) 5000 refusing new_net_client)
connect_and_join-Ends_example = connect_and_join-Ends (98 ∷ []) 5000 refusing new_net_client

abbrev an_accept : MsgJoinAccept
an_accept = record { player_id = 3; session_token = 77; udp_port = 5001 }

-- The answer in two reads.
abbrev answer : List (ℕ × List ℕ)
answer = (120, 0 ∷ 7 ∷ 2 ∷ 3 ∷ []) ∷ (140, 0 ∷ 0 ∷ 0 ∷ 77 ∷ 19 ∷ 137 ∷ []) ∷ []

connect_and_join-accepts_example :
    HasJoined an_accept (connect_and_join (98 ∷ []) 5000 (working 4 5 100 answer) new_net_client)
unfolding tcp_frame encode_join_accept ◌⨾◌ put_u8 put_u16 put_u32
connect_and_join-accepts_example =
    connect_and_join-accepts (98 ∷ []) [] 5000 4 5 100 answer an_accept new_net_client (omega arith)
      (omega arith) refl (omega arith, (omega arith, tt)) refl

abbrev two_messages : List (ℕ × List ℕ)
two_messages = (12, 1 ∷ 0 ∷ 0 ∷ 0 ∷ 9 ∷ []) ∷ (18, []) ∷ []

drain_tcp-stream_example :
    drain_tcp
      (reads_of ((0 ∷ 5 ∷ 12 ∷ 1 ∷ []) ∷ (0 ∷ 0 ∷ 0 ∷ 9 ∷ 0 ∷ 0 ∷ 18 ∷ []) ∷ []))
      new_net_client
    ≡ record new_net_client {
      tcp_rx = [];
      events = handled dispatch_tcp_frame new_net_client.events two_messages;
    }
unfolding tcp_frame
drain_tcp-stream_example =
    drain_tcp-stream two_messages ((0 ∷ 5 ∷ 12 ∷ 1 ∷ []) ∷ (0 ∷ 0 ∷ 0 ∷ 9 ∷ 0 ∷ 0 ∷ 18 ∷ []) ∷ [])
      new_net_client (omega arith, (omega arith, tt)) refl

abbrev a_keyframe : WorldSnapshot
a_keyframe = record no_snapshot { tick = 40; player_count = 2; score_red = 1 }

keyframe-arrives_example :
    on_datagram
      (patched 9 40 7 (written (encode_world_snapshot a_keyframe (writer (replicate 512 0)))))
      new_net_client
    ≡ record new_net_client {
      snapshots = record {
        last = received_snapshot (with_ack 7 a_keyframe) no_snapshot;
        have_last = true;
        first_received = true;
        pending = received_snapshot (with_ack 7 a_keyframe) no_snapshot ∷ [];
      };
    }
keyframe-arrives_example =
    keyframe-arrives a_keyframe 40 7 (replicate 512 0) new_net_client
      (record {
        seq_in = omega arith;
        tick_in = omega arith;
        seconds_in = omega arith;
        count_in = omega arith;
        slots = refl;
        players_in = All-replicate IsWirePlayer max_players no_player (omega arith);
      })
      (omega arith) (omega arith) (omega arith)
