-- ===== src/Client/Events/Laws.antt =====
-- What a client makes of the events that a server serialises.
use networked_capture_the_fl.Prelude.{
  ℕ, ◌<◌, ◌≤◌, ◌^◌, ◌≡◌, ap, ap₂, not, List, [], ◌∷◌, ◌++◌, length, some, none, if◌then◌else◌,
  arith,
}
use networked_capture_the_fl.ByteBuffer.{Writer, writer, written, Parser}
use networked_capture_the_fl.ByteBuffer.Codec.{Codec, round_trip, reader_fine}
use networked_capture_the_fl.Protocol.Fields.{wire_vec}
use networked_capture_the_fl.Protocol.Events.{
  EventMsg, shot_fired, player_killed, player_respawned, flag_picked_up, flag_dropped,
  flag_returned, flag_captured, match_end, message_type, write_msg,
}
use networked_capture_the_fl.Protocol.Events.Laws.{
  shot_fired-Codec, player_killed-Codec, player_respawned-Codec, flag_by-Codec, flag_dropped-Codec,
  match_end-Codec,
}
use networked_capture_the_fl.Client.Events.{
  EventLog, happened, decoded, keep_event, dispatch_tcp_frame, on_shot_fired,
}

-- The fields of an event that are wider than a byte fit the wire.
abbrev pub IsWireEvent : EventMsg → Type 0
IsWireEvent (shot_fired m) = m.aim_angle < 2 ^ 16
IsWireEvent (player_killed m) = m.tick < 2 ^ 32
IsWireEvent (player_respawned m) = m.tick < 2 ^ 32
IsWireEvent (flag_picked_up m) = m.tick < 2 ^ 32
IsWireEvent (flag_dropped m) = m.tick < 2 ^ 32
IsWireEvent (flag_returned m) = m.tick < 2 ^ 32
IsWireEvent (flag_captured m) = m.tick < 2 ^ 32
IsWireEvent (match_end m) = Unit

-- An event as its receiver sees it: places at the resolution of the wire.
abbrev pub received_event : EventMsg → EventMsg
received_event (shot_fired m) =
    shot_fired (record m { origin = wire_vec m.origin; hit_point = wire_vec m.hit_point })
received_event (player_killed m) = player_killed m
received_event (player_respawned m) = player_respawned (record m { position = wire_vec m.position })
received_event (flag_picked_up m) = flag_picked_up m
received_event (flag_dropped m) = flag_dropped (record m { position = wire_vec m.position })
received_event (flag_returned m) = flag_returned m
received_event (flag_captured m) = flag_captured m
received_event (match_end m) = match_end m

-- The way that an event takes: a shot is a datagram, all else are frames.
abbrev pub arrives : EventMsg → List ℕ → EventLog → EventLog
arrives (shot_fired m) payload = on_shot_fired payload
arrives (player_killed m) payload = dispatch_tcp_frame (message_type (player_killed m)) payload
arrives (player_respawned m) payload =
    dispatch_tcp_frame (message_type (player_respawned m)) payload
arrives (flag_picked_up m) payload = dispatch_tcp_frame (message_type (flag_picked_up m)) payload
arrives (flag_dropped m) payload = dispatch_tcp_frame (message_type (flag_dropped m)) payload
arrives (flag_returned m) payload = dispatch_tcp_frame (message_type (flag_returned m)) payload
arrives (flag_captured m) payload = dispatch_tcp_frame (message_type (flag_captured m)) payload
arrives (match_end m) payload = dispatch_tcp_frame (message_type (match_end m)) payload

pub decoded_lem :
    {A : Type 0} {e : Writer → Writer} {p : Parser A} {n : ℕ} {a : A} (buf : List ℕ)
    → Codec e p n a
    → n ≤ length buf
    → decoded p (written (e (writer buf))) ≡ some a
decoded_lem buf c room =
    ap₂ (λ b o. if b then o else none) (ap not (reader_fine c buf room)) (round_trip c buf room).2

kept_lem :
    {A : Type 0} {e : Writer → Writer} {p : Parser A} {n : ℕ} {a : A} (make : A → EventMsg)
    (buf : List ℕ) (s : EventLog)
    → Codec e p n a
    → n ≤ length buf
    → keep_event make (decoded p (written (e (writer buf)))) s
      ≡ record s { pending = s.pending ++ happened (make a) ∷ [] }
kept_lem make buf s c room = ap (λ o. keep_event make o s) (decoded_lem buf c room)

-- Any event whose fields fit the wire, written into a buffer of eleven bytes or more, reaches a
-- client as one event more: the same one, with places at the resolution of the wire.
pub arrives-write_msg :
    (m : EventMsg) (buf : List ℕ) (s : EventLog)
    → IsWireEvent m
    → 11 ≤ length buf
    → arrives m (written (write_msg m (writer buf))) s
      ≡ record s { pending = s.pending ++ happened (received_event m) ∷ [] }
unfolding write_msg dispatch_tcp_frame on_shot_fired
arrives-write_msg (shot_fired m) buf s h room =
    kept_lem shot_fired buf s (shot_fired-Codec m h) (omega arith)
arrives-write_msg (player_killed m) buf s h room =
    kept_lem player_killed buf s (player_killed-Codec m h) (omega arith)
arrives-write_msg (player_respawned m) buf s h room =
    kept_lem player_respawned buf s (player_respawned-Codec m h) (omega arith)
arrives-write_msg (flag_picked_up m) buf s h room =
    kept_lem flag_picked_up buf s (flag_by-Codec m h) (omega arith)
arrives-write_msg (flag_dropped m) buf s h room =
    kept_lem flag_dropped buf s (flag_dropped-Codec m h) (omega arith)
arrives-write_msg (flag_returned m) buf s h room =
    kept_lem flag_returned buf s (flag_by-Codec m h) (omega arith)
arrives-write_msg (flag_captured m) buf s h room =
    kept_lem flag_captured buf s (flag_by-Codec m h) (omega arith)
arrives-write_msg (match_end m) buf s h room =
    kept_lem match_end buf s (match_end-Codec m) (omega arith)
