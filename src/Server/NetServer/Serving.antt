-- ===== src/Server/NetServer/Serving.antt =====
-- The handlers of server/net_server.cpp keep the lobby and the registry in step.
use networked_capture_the_fl.Prelude.{
  ltb, ◌==◌, if◌then◌else◌, if-elim, length, drop, ℤ, ◌==ℤ◌, ℕ, zero, suc, ◌+◌, ◌≡◌, refl, sym, ap,
  subst, inl, Bool, true, false, not, ◌&&◌, ◌||◌, Option, none, some, List, [], ◌∷◌, arith,
}
use networked_capture_the_fl.Protocol.Handshake.{
  MsgJoinLobby, MsgUdpHello, MsgPlayerInput, UdpHeader, decode_udp_header, decode_udp_hello,
  decode_player_input,
}
use networked_capture_the_fl.ByteBuffer.{reader}
use networked_capture_the_fl.Server.Queues.{
  OutboundEventType, tcp_broadcast, udp_snapshot, udp_delta_snapshot, udp_event, OutboundEvent,
  push,
}
use networked_capture_the_fl.Server.Lobby.{no_lobby}
use networked_capture_the_fl.Server.Registry.{
  SockAddr, ClientEntry, free_fd, is_live, find_by_id, find_by_fd,
}
use networked_capture_the_fl.Server.Broadcast.{has_fd}
use networked_capture_the_fl.Server.NetServer.{
  NetServer, same_addr, checked, auth_udp_sender, greeted, on_udp_hello, took_input,
  on_player_input, dispatch_udp, on_udp_packet, disconnect,
}
use networked_capture_the_fl.Server.NetServer.Joining.{on_join_lobby}
use networked_capture_the_fl.Server.NetServer.Matches.{on_start_request}
use networked_capture_the_fl.Server.NetServer.Outbound.{
  send_event, send_events, handle_wake, sweep, pending_cap, enforce_pending_cap, silent_for,
  check_silence_timeouts,
}
use networked_capture_the_fl.Server.NetServer.InStep.{
  client, InStep, IsInStep, set-SameLive, SameLive-InStep, broadcast_payload-IsInStep,
  disconnect-IsInStep,
}
use networked_capture_the_fl.Server.NetServer.Starts.{if_decoded-IsInStep, start_by-IsInStep}
use networked_capture_the_fl.Server.NetServer.Streams.{
  Recv, Send, handle_tcp_readable, flush_pending,
}
use networked_capture_the_fl.Server.NetServer.Reads.{
  handle_tcp_readable-IsInStep, flush_pending-IsInStep,
}
use networked_capture_the_fl.Server.NetServer.Joins.{on_join_lobby-IsInStep}

-- What follows from an entry that `find_by_id` gave.
found-entry :
    (id : ℕ) (es : List ClientEntry) (e : ClientEntry)
    → find_by_id id es ≡ some e
    → e ≡ client id es
unfolding find_by_id
found-entry id es e h =
    if-elim (λ o. o ≡ some e → e ≡ client id es) (ltb id (length es) && is_live (client id es)) _
      none (λ k same. cc) (λ k same. cc) h

greeted-IsInStep :
    (now : ℕ) (src : SockAddr) (id : ℕ) (o : Option ClientEntry) (s : NetServer)
    → ((e : ClientEntry) → o ≡ some e → e.tcp_fd ≡ (client id s.registry).tcp_fd)
    → IsInStep s
    → IsInStep (greeted now src id o s)
greeted-IsInStep now src id none s h v = v
greeted-IsInStep now src id (some e) s h v =
    SameLive-InStep s.lobby s.registry _ (set-SameLive s.registry id _ (h e refl)) v

took_input-IsInStep :
    (now : ℕ) (m : MsgPlayerInput) (o : Option ClientEntry) (s : NetServer)
    → ((e : ClientEntry) → o ≡ some e → e.tcp_fd ≡ (client m.player_id s.registry).tcp_fd)
    → IsInStep s
    → IsInStep (took_input now m o s)
took_input-IsInStep now m none s h v = v
took_input-IsInStep now m (some e) s h v =
    SameLive-InStep s.lobby s.registry _ (set-SameLive s.registry m.player_id _ (h e refl)) v

checked-same :
    (src : SockAddr) (token : ℕ) (o : Option ClientEntry) (e : ClientEntry)
    → checked src token o ≡ some e
    → o ≡ some e
checked-same src token none e h = h
checked-same src token (some f) e h =
    if-elim (λ o. o ≡ some e → some f ≡ some e)
      ((f.session_token == token) && (not f.has_udp_addr || same_addr f.udp_addr src)) _ none
      (λ k same. same) (λ k same. cc) h

sender-fd :
    (src : SockAddr) (id token : ℕ) (s : NetServer) (e : ClientEntry)
    → auth_udp_sender src id token s ≡ some e
    → e.tcp_fd ≡ (client id s.registry).tcp_fd
unfolding auth_udp_sender
sender-fd src id token s e h =
    ap (λ (c : ClientEntry). c.tcp_fd)
      (found-entry id s.registry e (checked-same src token (find_by_id id s.registry) e h))

on_udp_hello-IsInStep :
    (now : ℕ) (src : SockAddr) (m : MsgUdpHello) (s : NetServer)
    → IsInStep s
    → IsInStep (on_udp_hello now src m s)
unfolding on_udp_hello
on_udp_hello-IsInStep now src m s v =
    greeted-IsInStep now src m.player_id _ s (sender-fd src m.player_id m.session_token s) v

on_player_input-IsInStep :
    (now : ℕ) (src : SockAddr) (m : MsgPlayerInput) (s : NetServer)
    → IsInStep s
    → IsInStep (on_player_input now src m s)
unfolding on_player_input
on_player_input-IsInStep now src m s v =
    took_input-IsInStep now m _ s (sender-fd src m.player_id m.session_token s) v

on_udp_packet-IsInStep :
    (now : ℕ) (src : SockAddr) (packet : List ℕ) (s : NetServer)
    → IsInStep s
    → IsInStep (on_udp_packet now src packet s)
unfolding on_udp_packet
on_udp_packet-IsInStep now src packet s v =
    if_decoded-IsInStep (decode_udp_header (reader packet)).0 (dispatch_udp now src (drop 8 packet))
      s
      (λ (header : UdpHeader).
        if-elim IsInStep (header.type == 7) _ _
          (λ e.
            if_decoded-IsInStep (decode_udp_hello (reader (drop 8 packet))).0 (on_udp_hello now src)
              s (λ m. on_udp_hello-IsInStep now src m s v) v)
          (λ e.
            if-elim IsInStep (header.type == 8) _ s
              (λ e.
                if_decoded-IsInStep (decode_player_input (reader (drop 8 packet))).0
                  (on_player_input now src) s (λ m. on_player_input-IsInStep now src m s v) v)
              (λ e. v)))
      v

send_event-IsInStep :
    (kind : OutboundEventType) (ev : OutboundEvent) (s : NetServer)
    → IsInStep s
    → IsInStep (send_event kind ev s)
send_event-IsInStep udp_snapshot ev s v = v
send_event-IsInStep udp_delta_snapshot ev s v = v
send_event-IsInStep tcp_broadcast ev s v =
    if-elim IsInStep (length ev.payload == 0) s _ (λ e. v)
      (λ e. broadcast_payload-IsInStep ev.payload s v)
send_event-IsInStep udp_event ev s v = v

send_events-IsInStep :
    (evs : List OutboundEvent) (s : NetServer) → IsInStep s → IsInStep (send_events evs s)
send_events-IsInStep [] s v = v
send_events-IsInStep (ev ∷ evs) s v =
    send_events-IsInStep evs (send_event ev.kind ev s) (send_event-IsInStep ev.kind ev s v)

sweep-IsInStep :
    (fails : ClientEntry → Bool) (n id : ℕ) (s : NetServer)
    → IsInStep s
    → IsInStep (sweep fails n id s)
sweep-IsInStep fails zero id s v = v
sweep-IsInStep fails (suc n) id s v =
    let entry = client id s.registry in
    let hit =
      has_fd entry
      && fails entry
      && ltb entry.player_id (length s.registry)
      && is_live (client entry.player_id s.registry) in
    sweep-IsInStep fails n (id + 1) (if hit then disconnect entry.player_id true s else s)
      (if-elim IsInStep hit _ s (λ e. disconnect-IsInStep entry.player_id true s v) (λ e. v))

-- The calls of the handlers, in any order; a descriptor of the system is not the mark of a free slot.
pub data Serves (shuffle : List ℕ → List ℕ) : NetServer → Type 0 where
  opened : (s : NetServer) → s.registry ≡ [] → s.lobby ≡ no_lobby → Serves shuffle s
  on_join :
      {s : NetServer} (now token : ℕ) (fd : ℤ) (m : MsgJoinLobby)
      → (fd ==ℤ free_fd) ≡ false
      → Serves shuffle s
      → Serves shuffle (on_join_lobby now token fd m s)
  on_start :
      {s : NetServer} (fd : ℤ) → Serves shuffle s → Serves shuffle (on_start_request shuffle fd s)
  on_packet :
      {s : NetServer} (now : ℕ) (src : SockAddr) (packet : List ℕ)
      → Serves shuffle s
      → Serves shuffle (on_udp_packet now src packet s)
  on_wake : {s : NetServer} → Serves shuffle s → Serves shuffle (handle_wake s)
  on_event :
      {s : NetServer} (ev : OutboundEvent)
      → Serves shuffle s
      → Serves shuffle (record s { outbound = push ev s.outbound })
  on_cap : {s : NetServer} → Serves shuffle s → Serves shuffle (enforce_pending_cap s)
  on_silence :
      {s : NetServer} (now : ℕ) → Serves shuffle s → Serves shuffle (check_silence_timeouts now s)
  on_readable :
      {s : NetServer} (now token : ℕ) (fd : ℤ) (reads : List Recv)
      → (fd ==ℤ free_fd) ≡ false
      → Serves shuffle s
      → Serves shuffle (handle_tcp_readable now token shuffle fd reads s)
  on_writable :
      {s : NetServer} (fd : ℤ) (sends : List Send)
      → Serves shuffle s
      → Serves shuffle (flush_pending fd sends s)
  on_hangup :
      {s : NetServer} (id : ℕ) (notify : Bool)
      → Serves shuffle s
      → Serves shuffle (disconnect id notify s)

opened-IsInStep : InStep no_lobby []
opened-IsInStep = record {
  few = omega arith;
  roster = record { few = omega arith; distinct = tt; hosted = inl refl };
  same = λ id. refl;
}

-- After any calls of the handlers the players of the lobby are exactly the connected clients of the
-- registry, each once and at most ten, given that no descriptor is the mark of a free slot.
pub Serves-IsInStep : {shuffle : List ℕ → List ℕ} {s : NetServer} → Serves shuffle s → IsInStep s
unfolding on_start_request handle_wake enforce_pending_cap check_silence_timeouts
Serves-IsInStep (opened s e f) =
    subst (λ l. InStep l s.registry) (sym f) (subst (InStep no_lobby) (sym e) opened-IsInStep)
Serves-IsInStep (on_join {s} now token fd m real r) =
    on_join_lobby-IsInStep now token fd m s real (Serves-IsInStep r)
Serves-IsInStep {shuffle} (on_start {s} fd r) =
    start_by-IsInStep shuffle fd (find_by_fd fd s.registry) s (Serves-IsInStep r)
Serves-IsInStep (on_packet {s} now src packet r) =
    on_udp_packet-IsInStep now src packet s (Serves-IsInStep r)
Serves-IsInStep (on_wake {s} r) =
    send_events-IsInStep s.outbound (record s { outbound = [] }) (Serves-IsInStep r)
Serves-IsInStep (on_event ev r) = Serves-IsInStep r
Serves-IsInStep (on_cap {s} r) =
    sweep-IsInStep (λ e. ltb pending_cap (length e.pending_out)) (length s.registry) 0 s
      (Serves-IsInStep r)
Serves-IsInStep (on_silence {s} now r) =
    sweep-IsInStep (λ e. ltb s.udp_silence_ms (silent_for now e)) (length s.registry) 0
      (record s { last_silence_check_ms = now }) (Serves-IsInStep r)
Serves-IsInStep (on_hangup {s} id notify r) = disconnect-IsInStep id notify s (Serves-IsInStep r)
Serves-IsInStep {shuffle} (on_readable {s} now token fd reads real r) =
    handle_tcp_readable-IsInStep now token shuffle fd reads s real (Serves-IsInStep r)
Serves-IsInStep (on_writable {s} fd sends r) = flush_pending-IsInStep fd sends s (Serves-IsInStep r)
