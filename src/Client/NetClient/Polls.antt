-- ===== src/Client/NetClient/Polls.antt =====
-- client/net_client.cpp: `poll`, which reads both sockets and drives the timers.
use networked_capture_the_fl.Prelude.{
  ltb, leb, ◌==◌, if◌then◌else◌, length, drop, replicate, ℕ, zero, suc, ◌+◌, ◌-◌, ◌*◌, ◌%◌, ◌^◌,
  Bool, true, false, not, Option, none, some, List, [], ◌∷◌, ◌++◌,
}
use networked_capture_the_fl.GameTypes.{WorldSnapshot}
use networked_capture_the_fl.GameTypes.Config.{
  tcp_frame_header_bytes, udp_header_bytes, udp_hello_resend_ms, heartbeat_interval_sec,
}
use networked_capture_the_fl.ByteBuffer.{writer, written}
use networked_capture_the_fl.Protocol.Handshake.{UdpHeader, decode_udp_header, encode_empty}
use networked_capture_the_fl.Framing.{Framed, incomplete, oversize, frame, recv_framed}
use networked_capture_the_fl.Client.SnapshotCache.{on_world_snapshot, on_delta_snapshot}
use networked_capture_the_fl.Client.Events.{
  NetClientState, in_lobby, in_game, GameEvent, decoded, dispatch_tcp_frame, on_shot_fired,
}
use networked_capture_the_fl.Client.Sends.{send_udp_hello}
use networked_capture_the_fl.Client.NetClient.{
  NetClient, is_open, disconnect_client, send_tcp_frame,
}

-- What a read of the TCP socket gives: bytes, the end, no bytes yet, `EINTR`, or an error.
pub data TcpRead : Type 0 where
  bytes : List ℕ → TcpRead
  ended would_block interrupted failed : TcpRead

abbrev pub frames_turn : (NetClient → NetClient) → NetClient → Framed → NetClient
frames_turn next c incomplete = c
frames_turn next c oversize = disconnect_client c
frames_turn next c (frame type payload) = next (record c {
  events = dispatch_tcp_frame type payload c.events;
  tcp_rx = drop (tcp_frame_header_bytes + length payload) c.tcp_rx;
})

-- A frame takes bytes of the buffer, so its length is fuel enough.
unfoldable pub frames_loop : ℕ → NetClient → NetClient
frames_loop zero c = c
frames_loop (suc fuel) c = frames_turn (frames_loop fuel) c (recv_framed c.tcp_rx)

unfoldable pub drain_tcp : List TcpRead → NetClient → NetClient
drain_tcp [] c = frames_loop (length c.tcp_rx) c
drain_tcp (bytes chunk ∷ reads) c = drain_tcp reads (record c { tcp_rx = c.tcp_rx ++ chunk })
drain_tcp (ended ∷ reads) c = disconnect_client c
drain_tcp (would_block ∷ reads) c = frames_loop (length c.tcp_rx) c
drain_tcp (interrupted ∷ reads) c = drain_tcp reads c
drain_tcp (failed ∷ reads) c = disconnect_client c

unfoldable pub dispatch_udp_payload : ℕ → ℕ → List ℕ → NetClient → NetClient
dispatch_udp_payload type tick payload c =
    if type == 9
    then record c { snapshots = on_world_snapshot payload c.snapshots }
    else if type == 19
    then record c { snapshots = on_delta_snapshot tick payload c.snapshots }
    else if type == 10
    then record c { events = on_shot_fired payload c.events }
    else c

abbrev pub if_headed : Option UdpHeader → List ℕ → NetClient → NetClient
if_headed none datagram c = c
if_headed (some h) datagram c =
    dispatch_udp_payload h.type h.tick (drop udp_header_bytes datagram) c

-- A datagram that is not cut.
unfoldable pub on_datagram : List ℕ → NetClient → NetClient
on_datagram datagram c =
    if ltb (length datagram) udp_header_bytes
    then c
    else if_headed (decoded decode_udp_header datagram) datagram c

-- What a read of the UDP socket gives.
pub data UdpRead : Type 0 where
  datagram : List ℕ → UdpRead
  no_datagram udp_interrupted udp_failed : UdpRead

unfoldable pub drain_udp : List UdpRead → NetClient → NetClient
drain_udp [] c = c
drain_udp (datagram d ∷ reads) c = drain_udp reads (on_datagram d c)
drain_udp (no_datagram ∷ reads) c = c
drain_udp (udp_interrupted ∷ reads) c = drain_udp reads c
drain_udp (udp_failed ∷ reads) c = c

-- `now - last`, of the times of a clock of 32 bits.
abbrev pub elapsed : ℕ → ℕ → ℕ
elapsed now last = (now + 2 ^ 32 - last) % 2 ^ 32

abbrev pub greet : ℕ → NetClient → NetClient
greet now c =
    if is_open c.udp_fd
    then record c {
      datagrams = c.datagrams ++ send_udp_hello c.player_id c.session_token ∷ [];
      last_udp_hello_sent_ms = now;
    }
    else c

abbrev pub has_joined : NetClientState → Bool
has_joined in_lobby = true
has_joined in_game = true
has_joined _ = false

-- The time of the check, and that at which the greeting is out.
unfoldable pub maybe_resend_udp_hello : ℕ → ℕ → NetClient → NetClient
maybe_resend_udp_hello now sent c =
    if c.snapshots.first_received
    then c
    else if not (has_joined c.events.state)
    then c
    else if leb udp_hello_resend_ms (elapsed now c.last_udp_hello_sent_ms)
    then greet sent c
    else c

unfoldable pub maybe_send_heartbeat : ℕ → NetClient → NetClient
maybe_send_heartbeat now c =
    if not (is_open c.tcp_fd)
    then c
    else if ltb (elapsed now c.last_heartbeat_sent_ms) (heartbeat_interval_sec * 1000)
    then c
    else record (send_tcp_frame 18 (written (encode_empty tt (writer (replicate 1 0)))) c) {
      last_heartbeat_sent_ms = now;
    }

unfoldable pub send_start_request : NetClient → NetClient
send_start_request c = send_tcp_frame 5 (written (encode_empty tt (writer (replicate 1 0)))) c

-- The times are those at which the timers read the clock.
unfoldable pub poll_client : ℕ → ℕ → ℕ → List TcpRead → List UdpRead → NetClient → NetClient
poll_client hello_now sent_now beat_now tcp udp c₀ =
    let c₁ = if is_open c₀.tcp_fd then drain_tcp tcp c₀ else c₀ in
    let c₂ = if is_open c₁.udp_fd then drain_udp udp c₁ else c₁ in
    maybe_send_heartbeat beat_now (maybe_resend_udp_hello hello_now sent_now c₂)

abbrev pub take_snapshots : NetClient → List WorldSnapshot × NetClient
take_snapshots c =
    (c.snapshots.pending, record c { snapshots = record c.snapshots { pending = [] } })

abbrev pub take_events : NetClient → List GameEvent × NetClient
take_events c = (c.events.pending, record c { events = record c.events { pending = [] } })
