-- ===== src/Server/NetServer.antt =====
-- server/net_server.cpp: the handlers of the network thread, on the state that they change. A call
-- of the system is an entry of a list (`sendto`, `send_all`, `close`); the clock, the random token
-- and the shuffle of the teams are parameters of the handlers that read them.
pub mod Joining
pub mod Matches
pub mod Outbound
pub mod Headers
pub mod Datagrams
pub mod Arrives
pub mod Streams
pub mod InStep
pub mod Joins
pub mod Starts
pub mod Reads
pub mod Bytes
pub mod Serving
pub mod Rounds
pub mod Running
pub mod Stopping
use networked_capture_the_fl.Prelude.{
  ◌==◌, if◌then◌else◌, length, get_or, set, take, drop, replicate, without, ℤ, ◌==ℤ◌, ℕ, zero, suc,
  ◌+◌, ◌-◌, ◌%◌, ◌^◌, min, Bool, true, not, ◌&&◌, ◌||◌, Option, none, some, List, [], ◌∷◌, ◌++◌,
}
use networked_capture_the_fl.GameTypes.{no_input}
use networked_capture_the_fl.GameTypes.Config.{input_redundancy, max_players}
use networked_capture_the_fl.ByteBuffer.{reader, writer, written}
use networked_capture_the_fl.Protocol.Handshake.{
  UdpHeader, decode_udp_header, LobbySlot, MsgLobbyState, no_lobby_slot, encode_lobby_state,
  MsgUdpHello, decode_udp_hello, MsgPlayerInput, decode_player_input,
}
use networked_capture_the_fl.Framing.{tcp_frame, frame_payload}
use networked_capture_the_fl.Server.Queues.{
  InboundCommand, player_left, player_input, OutboundEvent, push,
}
use networked_capture_the_fl.Server.Lobby.{Lobby, remove_player}
use networked_capture_the_fl.Server.Registry.{
  SockAddr, ClientEntry, free_fd, no_client, remove, find_by_id,
}
use networked_capture_the_fl.Server.Broadcast.{Datagram, has_fd, broadcast_tcp_event}

pub record NetServer : Type 0 where
  pub registry : List ClientEntry
  pub lobby : Lobby
  pub inbound : List InboundCommand
  pub outbound : List OutboundEvent
  pub datagrams : List Datagram
  pub frames : List (ℤ × List ℕ)
  pub closed : List ℤ
  pub tcp_in : List (List ℕ)
  pub pre_join : List (ℤ × List ℕ)
  pub udp_port : ℕ
  pub udp_silence_ms : ℕ
  pub last_silence_check_ms : ℕ
  pub udp_snapshots_sent : ℕ
  pub udp_delta_snapshots_sent : ℕ
  pub tcp_events_fanned_out : ℕ

abbrev pub put_client : ℕ → ClientEntry → NetServer → NetServer
put_client id e s = record s { registry = set s.registry id e }

abbrev pub same_addr : SockAddr → SockAddr → Bool
same_addr a b = a.sin_port == b.sin_port && a.s_addr == b.s_addr

abbrev pub checked : SockAddr → ℕ → Option ClientEntry → Option ClientEntry
checked src token none = none
checked src token (some e) =
    if (e.session_token == token) && (not e.has_udp_addr || same_addr e.udp_addr src)
    then some e
    else none

unfoldable pub auth_udp_sender : SockAddr → ℕ → ℕ → NetServer → Option ClientEntry
auth_udp_sender src player_id token s = checked src token (find_by_id player_id s.registry)

-- The entry of a sender who passed.
abbrev pub greeted : ℕ → SockAddr → ℕ → Option ClientEntry → NetServer → NetServer
greeted now src id none s = s
greeted now src id (some e) s =
    put_client id (record e { udp_addr = src; has_udp_addr = true; last_input_tick = now }) s

unfoldable pub on_udp_hello : ℕ → SockAddr → MsgUdpHello → NetServer → NetServer
on_udp_hello now src m s =
    greeted now src m.player_id (auth_udp_sender src m.player_id m.session_token s) s

-- The commands of `n` further entries from the `i`th on.
abbrev pub input_commands : MsgPlayerInput → ℕ → ℕ → ℕ → List InboundCommand
input_commands m count zero i = []
input_commands m count (suc n) i =
    player_input m.player_id ((m.base_seq + 2 ^ 32 - count + 1 + i) % 2 ^ 32)
      (get_or m.inputs i no_input)
    ∷ input_commands m count n (i + 1)

abbrev pub took_input : ℕ → MsgPlayerInput → Option ClientEntry → NetServer → NetServer
took_input now m none s = s
took_input now m (some e) s =
    let count = min m.count input_redundancy in
    record (put_client m.player_id (record e { last_input_tick = now }) s) {
      inbound = s.inbound ++ input_commands m count count 0;
    }

unfoldable pub on_player_input : ℕ → SockAddr → MsgPlayerInput → NetServer → NetServer
on_player_input now src m s = took_input now m (auth_udp_sender src m.player_id m.session_token s) s

abbrev pub if_decoded {ℓ} :
    {M : Type ℓ} → Option M → (M → NetServer → NetServer) → NetServer → NetServer
if_decoded none handle s = s
if_decoded (some m) handle s = handle m s

abbrev pub dispatch_udp : ℕ → SockAddr → List ℕ → UdpHeader → NetServer → NetServer
dispatch_udp now src payload header s =
    if header.type == 7
    then if_decoded (decode_udp_hello (reader payload)).0 (on_udp_hello now src) s
    else (if header.type == 8
        then if_decoded (decode_player_input (reader payload)).0 (on_player_input now src) s
        else s)

unfoldable pub on_udp_packet : ℕ → SockAddr → List ℕ → NetServer → NetServer
on_udp_packet now src packet s =
    if_decoded (decode_udp_header (reader packet)).0 (dispatch_udp now src (drop 8 packet)) s

-- `send_frame_generic`
abbrev pub send_frame : ℤ → ℕ → List ℕ → NetServer → NetServer
send_frame fd type payload s = record s { frames = s.frames ++ (fd, tcp_frame type payload) ∷ [] }

-- `broadcast_tcp_event(registry_, frame_payload(payload))`
abbrev pub broadcast_payload : List ℕ → NetServer → NetServer
broadcast_payload payload s = record s {
  registry = (broadcast_tcp_event (frame_payload payload) s.registry).1;
}

-- An array of `n` entries that starts with the given ones, and has its initialiser's behind them.
abbrev pub padded {ℓ} : {A : Type ℓ} → A → ℕ → List A → List A
padded d n xs = xs ++ replicate (n - length xs) d

-- `std::string(name)`: the bytes before the first that is 0. For a name that has none the source reads
-- past the end of its array, which C++ does not define; here such a name ends with its last byte.
abbrev pub c_string : List ℕ → List ℕ
c_string [] = []
c_string (c ∷ cs) = let rest = c_string cs in if c == 0 then [] else c ∷ rest

-- The slots of the live clients, at most ten; a name has 15 bytes at most.
abbrev pub lobby_slots : ℕ → List ClientEntry → List LobbySlot
lobby_slots zero es = []
lobby_slots (suc room) [] = []
lobby_slots (suc room) (e ∷ es) =
    let kept = lobby_slots room es in
    let skipped = lobby_slots (suc room) es in
    if has_fd e
    then record { id = e.player_id; name = padded 0 16 (take 15 e.name) } ∷ kept
    else skipped

abbrev pub lobby_state_of : NetServer → MsgLobbyState
lobby_state_of s =
    let slots = lobby_slots max_players s.registry in
    record {
      player_count = length slots;
      slots = padded no_lobby_slot max_players slots;
      host_id = s.lobby.host_id;
    }

unfoldable pub broadcast_lobby_state : NetServer → NetServer
broadcast_lobby_state s =
    broadcast_payload
      (4 ∷ written (encode_lobby_state (lobby_state_of s) (writer (replicate 600 0)))) s

unfoldable pub disconnect : ℕ → Bool → NetServer → NetServer
disconnect id notify_sim s =
    let e = get_or s.registry id no_client in
    let was_in_progress = s.lobby.in_progress in
    broadcast_lobby_state (record s {
      closed = s.closed ++ e.tcp_fd ∷ [];
      pre_join = without (λ (entry : ℤ × List ℕ). entry.0 ==ℤ e.tcp_fd) s.pre_join;
      registry = remove id (set s.registry id (record e { tcp_fd = free_fd }));
      lobby = remove_player id s.lobby;
      tcp_in = set s.tcp_in id [];
      inbound =
          if notify_sim && was_in_progress then push (player_left id) s.inbound else s.inbound;
    })

unfoldable pub close_unregistered : ℤ → NetServer → NetServer
close_unregistered fd s = record s {
  closed = s.closed ++ fd ∷ [];
  pre_join = without (λ (entry : ℤ × List ℕ). entry.0 ==ℤ fd) s.pre_join;
}
