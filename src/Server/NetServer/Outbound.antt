-- ===== src/Server/NetServer/Outbound.antt =====
-- server/net_server.cpp: the events on their way out, and the detectors of dead connections.
use networked_capture_the_fl.Prelude.{
  ltb, ◌==◌, if◌then◌else◌, length, get_or, ℕ, zero, suc, ◌+◌, ◌-◌, ◌*◌, ◌%◌, ◌^◌, Bool, true, ◌&&◌,
  List, [], ◌∷◌, ◌++◌,
}
use networked_capture_the_fl.Server.Queues.{
  OutboundEventType, tcp_broadcast, udp_snapshot, udp_delta_snapshot, udp_event, OutboundEvent,
}
use networked_capture_the_fl.Server.Registry.{ClientEntry, no_client, is_live}
use networked_capture_the_fl.Server.Broadcast.{has_fd, send_udp_snapshots, tracers_to}
use networked_capture_the_fl.Server.NetServer.{NetServer, broadcast_payload, disconnect}

-- An event of the simulation, on its way out.
abbrev pub send_event : OutboundEventType → OutboundEvent → NetServer → NetServer
send_event udp_snapshot ev s = record s {
  datagrams = s.datagrams ++ send_udp_snapshots s.registry ev.payload ev.acks ev.tick 9;
  udp_snapshots_sent = s.udp_snapshots_sent + 1;
}
send_event udp_delta_snapshot ev s = record s {
  datagrams = s.datagrams ++ send_udp_snapshots s.registry ev.payload ev.acks ev.tick 19;
  udp_delta_snapshots_sent = s.udp_delta_snapshots_sent + 1;
}
send_event tcp_broadcast ev s =
    if length ev.payload == 0 then s else record (broadcast_payload ev.payload s) {
      tcp_events_fanned_out = s.tcp_events_fanned_out + 1;
    }
send_event udp_event ev s = record s {
  datagrams = s.datagrams ++ tracers_to ev.payload s.registry s.registry;
}

abbrev pub send_events : List OutboundEvent → NetServer → NetServer
send_events [] s = s
send_events (ev ∷ evs) s = send_events evs (send_event ev.kind ev s)

-- Everything that is in the queue.
unfoldable pub handle_wake : NetServer → NetServer
handle_wake s = send_events s.outbound (record s { outbound = [] })

-- The disconnects of a sweep over the clients: those of `n` more slots that a test names.
abbrev pub sweep : (ClientEntry → Bool) → ℕ → ℕ → NetServer → NetServer
sweep fails zero id s = s
sweep fails (suc n) id s =
    let entry = get_or s.registry id no_client in
    let e = get_or s.registry entry.player_id no_client in
    let hit = has_fd entry && fails entry && ltb entry.player_id (length s.registry) && is_live e in
    sweep fails n (id + 1) (if hit then disconnect entry.player_id true s else s)

abbrev pub pending_cap : ℕ
pending_cap = 64 * 1024

unfoldable pub enforce_pending_cap : NetServer → NetServer
enforce_pending_cap s = sweep (λ e. ltb pending_cap (length e.pending_out)) (length s.registry) 0 s

-- The milliseconds since an input of a client, in 32 bits.
abbrev pub silent_for : ℕ → ClientEntry → ℕ
silent_for now e = (now + 2 ^ 32 - e.last_input_tick) % 2 ^ 32

unfoldable pub check_silence_timeouts : ℕ → NetServer → NetServer
check_silence_timeouts now s =
    sweep (λ e. ltb s.udp_silence_ms (silent_for now e)) (length s.registry) 0
      (record s { last_silence_check_ms = now })
