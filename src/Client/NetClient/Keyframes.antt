-- ===== src/Client/NetClient/Keyframes.antt =====
-- The keyframes that server/broadcast.cpp sends, as client/net_client.cpp receives them.
use networked_capture_the_fl.Prelude.{
  ltb, if◌then◌else◌, not_ltb, if_false, length, drop, replicate, length-append, ℕ, ◌+◌, ◌*◌, ◌^◌,
  ◌≤◌, ◌<◌, ◌≡◌, refl, sym, ap, ap₂, subst, ◌∙◌, true, not, none, some, List, [], ◌∷◌, ◌++◌, arith,
}
use networked_capture_the_fl.GameTypes.{WorldSnapshot, no_snapshot}
use networked_capture_the_fl.GameTypes.Config.{udp_header_bytes}
use networked_capture_the_fl.ByteBuffer.{Writer, Parser, reader, writer, written, ◌⨾◌}
use networked_capture_the_fl.ByteBuffer.Encodes.{◌▹◌}
use networked_capture_the_fl.ByteBuffer.Codec.{Codec, drop-append}
use networked_capture_the_fl.Protocol.Handshake.{encode_udp_header}
use networked_capture_the_fl.Protocol.Handshake.Laws.{udp_header-Codec}
use networked_capture_the_fl.Protocol.Snapshot.{encode_world_snapshot}
use networked_capture_the_fl.Protocol.Snapshot.Laws.{
  IsWireSnapshot, received_snapshot, snapshot-Codec,
}
use networked_capture_the_fl.Server.Broadcast.{patched}
use networked_capture_the_fl.Server.Broadcast.Laws.{server_header, patched-encode_world_snapshot}
use networked_capture_the_fl.Client.SnapshotCache.Laws.{with_ack, with_ack-IsWire, keyframe_lem}
use networked_capture_the_fl.Client.Events.{decoded}
use networked_capture_the_fl.Client.NetClient.{NetClient}
use networked_capture_the_fl.Client.NetClient.Polls.{dispatch_udp_payload, if_headed, on_datagram}

-- Two encoders in one buffer: what is read of the first, and what lies behind it.
record Parts {A : Type 0} (p : Parser A) (a : A) (n : ℕ) (f : Writer → Writer) (out all : List ℕ)
    : Type 0 where
  first : decoded p all ≡ some a
  behind : drop n all ≡ written (f (writer out))
  enough : n ≤ length all

parts_lem :
    {A B : Type 0} {e f : Writer → Writer} {p : Parser A} {q : Parser B} {n k : ℕ} {a : A} {b : B}
    → Codec e p n a
    → Codec f q k b
    → (buf out : List ℕ) → n + k ≤ length buf
    → k ≤ length out
    → Parts p a n f out (written ((e ⨾ f) (writer buf)))
parts_lem {e = e} {f = f} {p = p} {n = n} {a = a} c d buf out h r =
    let both = c.bytes ++ d.bytes in
    let whole =
      (c.encodes ▹ d.encodes).fits (writer buf) refl
        (omega (arith, c.size, d.size, length-append c.bytes d.bytes)) in
    let alone = d.encodes.fits (writer out) refl (omega (arith, d.size)) in
    let run = c.parses.run (reader both) d.bytes (record { fine = refl; rest = refl }) in
    subst (Parts p a n f out) (sym whole.bytes) (record {
      first =
          ap₂ (λ b o. if b then o else none) (ap not (ap (λ r. r.1.underflow) run.1 ∙ run.2.fine))
            (ap (λ r. r.0) run.1);
      behind = drop-append c.bytes d.bytes n c.size ∙ sym alone.bytes;
      enough = omega (arith, c.size, length-append c.bytes d.bytes);
    })

-- A keyframe that was encoded once for all, with a recipient's acknowledgement patched in, is what the
-- recipient then holds and queues, and nothing else of it changes: the snapshot with that acknowledgement
-- and places at the resolution of the wire, given that it fits the wire and its buffer.
pub keyframe-arrives :
    (s : WorldSnapshot) (tick ack : ℕ) (buf : List ℕ) (c : NetClient)
    → IsWireSnapshot s
    → tick < 2 ^ 32
    → ack < 2 ^ 32
    → 17 + s.player_count * 9 ≤ length buf
    → let r = received_snapshot (with_ack ack s) no_snapshot in
      on_datagram (patched 9 tick ack (written (encode_world_snapshot s (writer buf)))) c
      ≡ record c {
        snapshots = record {
          last = r;
          have_last = true;
          first_received = true;
          pending = c.snapshots.pending ++ r ∷ [];
        };
      }
unfolding on_datagram dispatch_udp_payload
keyframe-arrives s tick ack buf c v t small room =
    let wire = with_ack-IsWire ack s small v in
    let out : List ℕ = replicate 600 0 in
    let parts =
      parts_lem (udp_header-Codec (server_header 9 tick) refl refl t)
        (snapshot-Codec (with_ack ack s) no_snapshot wire refl) out out (omega (arith, v.count_in))
        (omega (arith, v.count_in)) in
    let datagram = written (
      (encode_udp_header (server_header 9 tick) ⨾ encode_world_snapshot (with_ack ack s))
        (writer out)) in
    ap (λ bs. on_datagram bs c)
      (patched-encode_world_snapshot s tick ack buf out v room (omega (arith, v.count_in)))
    ∙ if_false (ltb (length datagram) udp_header_bytes) _ _ (not_ltb _ _ (Parts.enough parts))
    ∙ ap (λ o. if_headed o datagram c) (Parts.first parts)
    ∙ ap (λ bs. dispatch_udp_payload 9 tick bs c) (Parts.behind parts)
    ∙ ap (λ k. record c { snapshots = k })
        (keyframe_lem (with_ack ack s) out c.snapshots wire (omega (arith, v.count_in)))
