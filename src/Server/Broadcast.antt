-- ===== src/Server/Broadcast.antt =====
-- server/broadcast.cpp: what the server sends to every client. `sendto` is a datagram in a list.
pub mod Laws
use networked_capture_the_fl.Prelude.{
  ltb, if◌then◌else◌, length, get_or, set, drop, pos, ltb_ℤ, ℕ, zero, suc, ◌+◌, ◌/◌, ◌%◌, ◌^◌, Bool,
  not, ◌&&◌, ◌||◌, List, [], ◌∷◌, ◌++◌,
}
use networked_capture_the_fl.Protocol.Handshake.{magic, protocol_version}
use networked_capture_the_fl.Server.Registry.{SockAddr, ClientEntry, no_client, is_live}

pub record Datagram : Type 0 where
  pub dest : SockAddr
  pub bytes : List ℕ

-- `entry.tcp_fd >= 0`, of `for_each_live`
abbrev pub has_fd : ClientEntry → Bool
has_fd e = not (ltb_ℤ e.tcp_fd (pos 0))

abbrev pub appended : List ℕ → ClientEntry → ClientEntry
appended payload e = record e { pending_out = e.pending_out ++ payload }

-- The turns for the entries from `id` on, of which there are `n` more: the clients reached and the
-- storage.
abbrev pub reach : List ℕ → ℕ → ℕ → ℕ × List ClientEntry → ℕ × List ClientEntry
reach payload zero id (reached, storage) = (reached, storage)
reach payload (suc n) id (reached, storage) =
    let entry = get_or storage id no_client in
    let e = get_or storage entry.player_id no_client in
    let hit = has_fd entry && ltb entry.player_id (length storage) && is_live e in
    reach payload n (id + 1) (
      if hit
      then (reached + 1, set storage entry.player_id (appended payload e))
      else (reached, storage))

unfoldable pub broadcast_tcp_event : List ℕ → List ClientEntry → ℕ × List ClientEntry
broadcast_tcp_event payload storage = reach payload (length storage) 0 (0, storage)

-- A 32-bit number in the order of the network.
abbrev pub be32 : ℕ → List ℕ
be32 v = v / 2 ^ 24 % 256 ∷ v / 2 ^ 16 % 256 ∷ v / 2 ^ 8 % 256 ∷ v % 256 ∷ []

abbrev pub udp_head : ℕ → ℕ → List ℕ
udp_head type tick = magic / 256 ∷ magic % 256 ∷ protocol_version ∷ type ∷ be32 tick

-- The datagram of a recipient: the header, its acknowledgement, and the body after that.
unfoldable pub patched : ℕ → ℕ → ℕ → List ℕ → List ℕ
patched type tick ack body = udp_head type tick ++ be32 ack ++ drop 4 body

abbrev pub snapshots_to :
    ℕ → ℕ → List ℕ → List ℕ → List ClientEntry → List ClientEntry → List Datagram
snapshots_to type tick acks body storage [] = []
snapshots_to type tick acks body storage (entry ∷ entries) =
    let rest = snapshots_to type tick acks body storage entries in
    let e = get_or storage entry.player_id no_client in
    if has_fd entry && entry.has_udp_addr && ltb entry.player_id (length storage) && is_live e
    then record { dest = e.udp_addr; bytes = patched type tick (get_or acks e.player_id 0) body }
      ∷ rest
    else rest

-- The socket is open.
unfoldable pub send_udp_snapshots : List ClientEntry → List ℕ → List ℕ → ℕ → ℕ → List Datagram
send_udp_snapshots storage body acks tick udp_msg_type =
    if ltb (length body) 4 || ltb 600 (8 + length body)
    then []
    else snapshots_to udp_msg_type tick acks body storage storage

-- The tracers go out with their type in the header (`NetServer::handle_wake`).
abbrev pub tracer_datagram : List ℕ → List ℕ
tracer_datagram [] = magic / 256 ∷ magic % 256 ∷ protocol_version ∷ 0 ∷ 0 ∷ 0 ∷ 0 ∷ 0 ∷ []
tracer_datagram (type ∷ fields) =
    magic / 256 ∷ magic % 256 ∷ protocol_version ∷ type ∷ 0 ∷ 0 ∷ 0 ∷ 0 ∷ fields

abbrev pub tracers_to : List ℕ → List ClientEntry → List ClientEntry → List Datagram
tracers_to payload storage [] = []
tracers_to payload storage (entry ∷ entries) =
    let rest = tracers_to payload storage entries in
    let e = get_or storage entry.player_id no_client in
    if has_fd entry && entry.has_udp_addr && ltb entry.player_id (length storage) && is_live e
    then record { dest = e.udp_addr; bytes = tracer_datagram payload } ∷ rest
    else rest
