-- ===== src/Tests/Snapshots.antt =====
-- Full and delta snapshots at concrete inputs (shared/protocol.cpp, client/net_client.cpp).
use networked_capture_the_fl.Prelude.{
  ℕ, ◌≡◌, refl, sym, ap, subst, ◌∙◌, ◌⊎◌, inl, inr, true, false, List, ◌∷◌, some, replicate, pos,
  arith,
}
use networked_capture_the_fl.GameTypes.{
  PlayerState, WorldSnapshot, no_player, no_snapshot, carried, no_vec, blue,
}
use networked_capture_the_fl.ByteBuffer.{writer, reader, written}
use networked_capture_the_fl.Protocol.Snapshot.{encode_world_snapshot, decode_world_snapshot}
use networked_capture_the_fl.Protocol.Snapshot.Laws.{IsWireSnapshot, received_snapshot}
use networked_capture_the_fl.Protocol.Delta.{encode_delta_snapshot, decode_delta_snapshot}
use networked_capture_the_fl.Protocol.Delta.Laws.{Mirrors, received_delta, delta_size}
use networked_capture_the_fl.Protocol.Delta.Mirror.{delta_size-le}
use networked_capture_the_fl.Protocol.RoundTrip.{
  decode-encode_world_snapshot, decode-encode_delta_snapshot,
}
use networked_capture_the_fl.Client.SnapshotCache.{
  SnapshotCache, no_cache, on_world_snapshot, on_delta_snapshot,
}
use networked_capture_the_fl.Client.SnapshotCache.Laws.{
  with_ack, fresh-Mirrors, Receives, start, next, keyframe, delta, IsGenuine, Session-IsGenuine,
}

abbrev runner : PlayerState
runner = record no_player {
  id = 0;
  motion = record { position = record { x = pos 16384; y = pos 40961 }; velocity = no_vec };
}

abbrev carrier : PlayerState
carrier = record runner {
  motion = record { position = record { x = pos 17749; y = pos 40961 }; velocity = no_vec };
  carrying_flag = true;
}

abbrev guard : PlayerState
guard = record no_player { id = 3; team = blue }

abbrev first : WorldSnapshot
first = record no_snapshot {
  tick = 30;
  player_count = 2;
  seconds_remaining = 599;
  players = runner ∷ guard ∷ replicate 8 no_player;
}

abbrev second : WorldSnapshot
second = record first {
  tick = 31;
  flag_state_blue = carried;
  flag_carrier_blue = 0;
  players = carrier ∷ guard ∷ replicate 8 no_player;
}

first-IsWire : IsWireSnapshot first
first-IsWire = omega arith

second-IsWire : IsWireSnapshot second
second-IsWire = omega arith

decode-encode_world_snapshot_example :
    let w = encode_world_snapshot first (writer (replicate 512 0)) in
    (w.overflow ≡ false)
    × (w.pos ≡ 35)
    × ((decode_world_snapshot no_snapshot (reader (written w))).0
        ≡ some (received_snapshot first no_snapshot))
decode-encode_world_snapshot_example =
    decode-encode_world_snapshot first no_snapshot (replicate 512 0) first-IsWire refl (omega arith)

abbrev cached : WorldSnapshot
cached = received_snapshot first no_snapshot

cached-Mirrors : Mirrors cached first
cached-Mirrors = fresh-Mirrors first first-IsWire

decode-encode_delta_snapshot_example :
    let w = encode_delta_snapshot second first (writer (replicate 512 0)) in
    (w.overflow ≡ false)
    × (w.pos ≡ delta_size second first)
    × ((decode_delta_snapshot 31 cached (reader (written w))).0
        ≡ some (received_delta second first cached))
decode-encode_delta_snapshot_example =
    decode-encode_delta_snapshot second first cached (replicate 512 0) second-IsWire first-IsWire
      cached-Mirrors (omega arith) (omega arith)
      (omega (
        arith,
        delta_size-le second first cached second-IsWire first-IsWire cached-Mirrors (omega arith)
            (omega arith),
      ))

abbrev Published : WorldSnapshot → Type 0
Published s = (s ≡ first) ⊎ (s ≡ second)

Published-IsWire : (s : WorldSnapshot) → Published s → IsWireSnapshot s
Published-IsWire s (inl e) = subst IsWireSnapshot (sym e) first-IsWire
Published-IsWire s (inr e) = subst IsWireSnapshot (sym e) second-IsWire

by_tick : (s t : WorldSnapshot) → Published s → Published t → s.tick ≡ t.tick → s ≡ t
by_tick s t (inl e) (inl f) h = e ∙ sym f
by_tick s t (inr e) (inr f) h = e ∙ sym f
by_tick s t (inl e) (inr f) h = absurd (omega (arith, ap (λ x. x.tick) e, ap (λ x. x.tick) f))
by_tick s t (inr e) (inl f) h = absurd (omega (arith, ap (λ x. x.tick) e, ap (λ x. x.tick) f))

abbrev full : List ℕ
full = written (encode_world_snapshot (with_ack 5 first) (writer (replicate 512 0)))

abbrev changes : List ℕ
changes = written (encode_delta_snapshot (with_ack 6 second) first (writer (replicate 512 0)))

abbrev a_delta :
    (c : SnapshotCache)
    → Receives Published Published-IsWire by_tick c (on_delta_snapshot 31 changes c)
a_delta c =
    delta second first 6 (replicate 512 0) (inr refl) (inl refl) (omega arith) refl (omega arith)
      (omega arith)

-- A delta before any keyframe, the keyframe, and the delta again.
Session-IsGenuine_example :
    IsGenuine Published Published-IsWire by_tick (
      on_delta_snapshot 31 changes (on_world_snapshot full (on_delta_snapshot 31 changes no_cache)))
Session-IsGenuine_example = Session-IsGenuine Published Published-IsWire by_tick (
    next
      (next (next start (a_delta _))
        (keyframe first 5 (replicate 512 0) (inl refl) (omega arith) refl))
      (a_delta _))
