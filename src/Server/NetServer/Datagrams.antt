-- ===== src/Server/NetServer/Datagrams.antt =====
-- Which datagrams change the state of server/net_server.cpp, and how.
use networked_capture_the_fl.Prelude.{drop, ℕ, ◌≡◌, true, some, List}
use networked_capture_the_fl.ByteBuffer.{reader}
use networked_capture_the_fl.Protocol.Handshake.{
  MsgUdpHello, decode_udp_hello, MsgPlayerInput, decode_player_input,
}
use networked_capture_the_fl.Server.NetServer.Headers.{IsHeaded}
use networked_capture_the_fl.Server.Registry.{SockAddr, ClientEntry, find_by_id}
use networked_capture_the_fl.Server.NetServer.{NetServer, same_addr}

-- A live client with the token, from its address if that is known.
pub record IsSender (src : SockAddr) (id token : ℕ) (s : NetServer) : Type 0 where
  pub entry : ClientEntry
  pub live : find_by_id id s.registry ≡ some entry
  pub token_fits : entry.session_token ≡ token
  pub from_addr : entry.has_udp_addr ≡ true → same_addr entry.udp_addr src ≡ true

-- What a datagram has to say for the server to act on it: in a header of the protocol and its version
-- that it is a greeting, or an input, and then who sends it.
pub data IsGenuineFrom (src : SockAddr) (packet : List ℕ) (s : NetServer) : Type 0 where
  hello :
      IsHeaded 7 packet
      → (m : MsgUdpHello) → (decode_udp_hello (reader (drop 8 packet))).0 ≡ some m
      → IsSender src m.player_id m.session_token s
      → IsGenuineFrom src packet s
  input :
      IsHeaded 8 packet
      → (m : MsgPlayerInput) → (decode_player_input (reader (drop 8 packet))).0 ≡ some m
      → IsSender src m.player_id m.session_token s
      → IsGenuineFrom src packet s
