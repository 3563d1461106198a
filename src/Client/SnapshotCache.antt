-- ===== src/Client/SnapshotCache.antt =====
-- client/net_client.cpp, `dispatch_udp_payload`: the snapshots that a client receives, and its copy
-- of the last one, to which deltas are applied.
pub mod Laws
use networked_capture_the_fl.Prelude.{
  ℕ, Bool, true, false, List, [], ◌∷◌, ◌++◌, Option, none, some, if◌then◌else◌,
}
use networked_capture_the_fl.GameTypes.{WorldSnapshot, no_snapshot}
use networked_capture_the_fl.ByteBuffer.{reader, ok}
use networked_capture_the_fl.Protocol.Snapshot.{decode_world_snapshot}
use networked_capture_the_fl.Protocol.Delta.{decode_delta_snapshot}

pub record SnapshotCache : Type 0 where
  pub last : WorldSnapshot
  pub have_last : Bool
  pub first_received : Bool
  pub pending : List WorldSnapshot

-- What `have_last_snapshot_`, `first_snapshot_received_` and `pending_snapshots_` start as.
abbrev pub no_cache : SnapshotCache
no_cache = record { last = no_snapshot; have_last = false; first_received = false; pending = [] }

-- A decoded snapshot, and whether the reader is still `ok()`.
abbrev pub keep_snapshot : SnapshotCache → Option WorldSnapshot → Bool → SnapshotCache
keep_snapshot c none fine = c
keep_snapshot c (some s) fine =
    if fine
    then record { last = s; have_last = true; first_received = true; pending = c.pending ++ s ∷ [] }
    else c

unfoldable pub on_world_snapshot : List ℕ → SnapshotCache → SnapshotCache
on_world_snapshot payload c =
    let (m, r) = decode_world_snapshot no_snapshot (reader payload) in keep_snapshot c m (ok r)

-- The delta applied to the cache; on failure deltas are dropped until the next keyframe.
abbrev pub keep_delta : SnapshotCache → Option WorldSnapshot → SnapshotCache
keep_delta c none = record c { have_last = false }
keep_delta c (some s) = record c { last = s; first_received = true; pending = c.pending ++ s ∷ [] }

unfoldable pub on_delta_snapshot : ℕ → List ℕ → SnapshotCache → SnapshotCache
on_delta_snapshot tick payload c =
    if c.have_last then keep_delta c (decode_delta_snapshot tick c.last (reader payload)).0 else c
