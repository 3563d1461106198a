-- ===== src/Client/NetClient.antt =====
-- client/net_client.cpp: the handshake of a client, what it does in a poll, and its timers. What the
-- system returns for a call is a parameter, in order; at its end a call would block, or time is up.
pub mod Polls
pub mod Handshakes
pub mod Accepts
pub mod Receives
pub mod Keyframes
use networked_capture_the_fl.Prelude.{
  leb, ◌==◌, if◌then◌else◌, length, take, drop, replicate, ℤ, pos, negsuc, ltb_ℤ, ℕ, ◌+◌, ◌-◌, ◌%◌,
  ◌^◌, Bool, true, false, not, Option, none, some, List, [], ◌∷◌, ◌++◌,
}
use networked_capture_the_fl.GameTypes.Config.{tcp_frame_header_bytes}
use networked_capture_the_fl.ByteBuffer.{reader, writer, written}
use networked_capture_the_fl.Protocol.Handshake.{
  encode_join_lobby, MsgJoinAccept, decode_join_accept, JoinRejectReason, MsgJoinReject,
  decode_join_reject,
}
use networked_capture_the_fl.Framing.{Framed, incomplete, oversize, frame, recv_framed, tcp_frame}
use networked_capture_the_fl.Client.SnapshotCache.{SnapshotCache}
use networked_capture_the_fl.Client.Events.{
  NetClientState, disconnected, waiting_join_accept, rejected, in_lobby, EventLog, decoded,
}

-- `frames`, `datagrams` and `closed` are what was handed to the system.
pub record NetClient : Type 0 where
  pub tcp_fd : ℤ
  pub udp_fd : ℤ
  pub server_udp_port : ℕ
  pub player_id : ℕ
  pub session_token : ℕ
  pub join_reject_reason : JoinRejectReason
  pub events : EventLog
  pub snapshots : SnapshotCache
  pub last_udp_hello_sent_ms : ℕ
  pub last_heartbeat_sent_ms : ℕ
  pub tcp_rx : List ℕ
  pub frames : List (List ℕ)
  pub datagrams : List (List ℕ)
  pub closed : List ℤ

abbrev pub no_fd : ℤ
no_fd = negsuc 0

abbrev pub is_open : ℤ → Bool
is_open fd = not (ltb_ℤ fd (pos 0))

abbrev pub in_state : NetClientState → NetClient → NetClient
in_state st c = record c { events = record c.events { state = st } }

-- `NetClient::disconnect`
unfoldable pub disconnect_client : NetClient → NetClient
disconnect_client c = in_state disconnected (record c {
  tcp_fd = if is_open c.tcp_fd then no_fd else c.tcp_fd;
  udp_fd = if is_open c.udp_fd then no_fd else c.udp_fd;
  closed =
      c.closed
      ++ (if is_open c.tcp_fd then c.tcp_fd ∷ [] else [])
      ++ (if is_open c.udp_fd then c.udp_fd ∷ [] else []);
})

unfoldable pub send_tcp_frame : ℕ → List ℕ → NetClient → NetClient
send_tcp_frame type payload c =
    if is_open c.tcp_fd then record c { frames = c.frames ++ tcp_frame type payload ∷ [] } else c

-- What `poll` says of the socket, and then `recv`: an error, `EINTR`, no time left, an end, or bytes.
pub data Poll : Type 0 where
  poll_failed poll_interrupted poll_expired recv_ended : Poll
  arrived : List ℕ → Poll

-- A turn of the wait, with the time at which the deadline is read.
pub record Turn : Type 0 where
  pub now : ℕ
  pub poll : Poll

-- A frame, if one came, and the bytes that are left.
abbrev pub Waited : Type 0
Waited = Option (ℕ × List ℕ) × List ℕ

-- The part of a turn before the clock is read.
abbrev pub if_framed : List ℕ → Framed → Waited → Waited
if_framed buf incomplete waited = waited
if_framed buf oversize waited = (none, buf)
if_framed buf (frame type payload) waited =
    (some (type, payload), drop (tcp_frame_header_bytes + length payload) buf)

unfoldable pub wait_for_tcp_frame : ℕ → List Turn → List ℕ → Waited
wait_for_tcp_frame deadline [] buf = if_framed buf (recv_framed buf) (none, buf)
wait_for_tcp_frame deadline (turn ∷ turns) buf =
    let again = wait_for_tcp_frame deadline turns buf in
    if_framed buf (recv_framed buf) (
      if leb deadline turn.now then (none, buf) else elim turn.poll [
        | poll_failed ↦ (none, buf)
        | poll_interrupted ↦ again
        | poll_expired ↦ again
        | recv_ended ↦ (none, buf)
        | arrived bytes ↦ wait_for_tcp_frame deadline turns (buf ++ bytes)
      ])

-- What the system says while a client connects: the address, the sockets, and the wait.
pub record Network : Type 0 where
  pub resolved : Bool
  pub tcp_socket : ℤ
  pub connects : Bool
  pub udp_socket : ℤ
  pub binds : Bool
  pub started : ℕ
  pub turns : List Turn

-- `snprintf("%s")` into the 16 bytes of a name, which are zero; `name` is the C string, without its
-- terminator.
abbrev pub joining_name : List ℕ → List ℕ
joining_name name = take 15 name ++ replicate (16 - length (take 15 name)) 0

abbrev pub fails : NetClient → Bool × NetClient
fails c = (false, disconnect_client c)

abbrev pub accepted : Option MsgJoinAccept → NetClient → Bool × NetClient
accepted none c = fails c
accepted (some m) c = (
  true,
  in_state in_lobby (record c {
    player_id = m.player_id;
    session_token = m.session_token;
    server_udp_port = m.udp_port;
  }),
)

-- A reason that does not decode leaves the message's initial one.
abbrev pub reason_or_full : Option MsgJoinReject → JoinRejectReason
reason_or_full none = JoinRejectReason.full
reason_or_full (some m) = m.reason

abbrev pub answered : Option (ℕ × List ℕ) → NetClient → Bool × NetClient
answered none c = fails c
answered (some (type, payload)) c =
    if type == 2
    then accepted (decoded decode_join_accept payload) c
    else (if type == 3
        then (
          false,
          in_state rejected (
              disconnect_client (record c {
                join_reject_reason = reason_or_full (decode_join_reject (reader payload)).0;
              })),
        )
        else fails c)

-- The client once it has asked to join.
abbrev pub asked : List ℕ → NetClient → NetClient
asked name c = in_state waiting_join_accept (
    send_tcp_frame 1
      (written (encode_join_lobby (record { name = joining_name name }) (writer (replicate 16 0))))
      c)

abbrev pub settled : Waited → NetClient → Bool × NetClient
settled (answer, left) c = answered answer (record c { tcp_rx = left })

-- The handshake once both sockets are there.
unfoldable pub join_on : List ℕ → ℕ → Network → NetClient → Bool × NetClient
join_on name timeout_ms net c =
    settled
      (wait_for_tcp_frame ((net.started + timeout_ms) % 2 ^ 32) net.turns (asked name c).tcp_rx)
      (asked name c)

unfoldable pub connect_and_join : List ℕ → ℕ → Network → NetClient → Bool × NetClient
connect_and_join name timeout_ms net c₀ =
    let c = disconnect_client c₀ in
    let with_tcp = record c { tcp_fd = net.tcp_socket } in
    let with_udp = record with_tcp { udp_fd = net.udp_socket } in
    if not net.resolved
    then (false, c)
    else if not (is_open net.tcp_socket)
    then (false, with_tcp)
    else if not net.connects
    then fails with_tcp
    else if not (is_open net.udp_socket)
    then fails with_udp
    else if not net.binds
    then fails with_udp
    else join_on name timeout_ms net with_udp
