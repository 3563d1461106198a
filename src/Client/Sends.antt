-- ===== src/Client/Sends.antt =====
-- client/net_client.cpp: the datagrams that a client sends. The socket is open; `sendto` is the
-- bytes that it is given.
use networked_capture_the_fl.Prelude.{
  if◌then◌else◌, take, replicate, ℕ, ◌-◌, min, not, Option, none, some, List, ◌++◌,
}
use networked_capture_the_fl.GameTypes.{InputCmd, no_input}
use networked_capture_the_fl.GameTypes.Config.{input_redundancy}
use networked_capture_the_fl.ByteBuffer.{Writer, writer, written, ◌⨾◌}
use networked_capture_the_fl.Protocol.Handshake.{
  magic, protocol_version, UdpHeader, encode_udp_header, encode_udp_hello, MsgPlayerInput,
  encode_player_input,
}

unfoldable pub send_udp_hello : ℕ → ℕ → List ℕ
send_udp_hello player_id session_token = written (
    (encode_udp_header
          (record { magic_word = magic; version = protocol_version; type = 7; tick = 0 })
        ⨾ encode_udp_hello (record { player_id = player_id; session_token = session_token }))
      (writer (replicate 16 0)))

abbrev pub input_msg : ℕ → ℕ → ℕ → List InputCmd → ℕ → MsgPlayerInput
input_msg player_id session_token base_seq inputs count = record {
  player_id = player_id;
  session_token = session_token;
  base_seq = base_seq;
  count = count;
  inputs = take count inputs ++ replicate (input_redundancy - count) no_input;
}

abbrev pub input_header : ℕ → UdpHeader
input_header base_seq = record {
  magic_word = magic;
  version = protocol_version;
  type = 8;
  tick = base_seq;
}

abbrev pub if_ok : Writer → Option (List ℕ)
if_ok w = if not w.overflow then some (written w) else none

-- `inputs` has `count` entries or more.
unfoldable pub send_input : ℕ → ℕ → ℕ → List InputCmd → ℕ → Option (List ℕ)
send_input player_id session_token base_seq inputs count = if_ok (
    (encode_udp_header (input_header base_seq)
        ⨾ encode_player_input
            (input_msg player_id session_token base_seq inputs (min count input_redundancy)))
      (writer (replicate 30 0)))
