-- ===== src/Protocol/Delta/Mirror.antt =====
-- What a receiver's cache mirrors after a keyframe and after a delta (shared/protocol.cpp), and how
-- large a delta can be.
use networked_capture_the_fl.Prelude.{
  ℕ, ◌+◌, ◌≤◌, ◌≡◌, refl, ◌∙◌, Bool, true, false, length, if◌then◌else◌, All, arith,
}
use networked_capture_the_fl.GameTypes.{WorldSnapshot}
use networked_capture_the_fl.GameTypes.Config.{max_players}
use networked_capture_the_fl.Protocol.Slots.{length-overlay}
use networked_capture_the_fl.Protocol.Snapshot.Laws.{wire_player, IsWireSnapshot, received_snapshot}
use networked_capture_the_fl.Protocol.Delta.{slots_compared, header_mask, has}
use networked_capture_the_fl.Protocol.Delta.Loop.{IsStill, changes_size-le}
use networked_capture_the_fl.Protocol.Delta.Laws.{
  Holds-overlay, IsStill-overlay, Mirrors, received_delta, delta_size, compared,
}

-- A cache whose slots hold no velocity mirrors the keyframe that was decoded into it.
pub received_snapshot-Mirrors :
    (s out : WorldSnapshot)
    → IsWireSnapshot s
    → length out.players ≡ max_players
    → All IsStill out.players
    → Mirrors (received_snapshot s out) s
received_snapshot-Mirrors s out v h st = record {
  tick = refl;
  count = refl;
  carrier_red = refl;
  carrier_blue = refl;
  state_red = refl;
  state_blue = refl;
  score_red = refl;
  score_blue = refl;
  seconds = refl;
  players =
      Holds-overlay s.player_count s.player_count s.players out.players (omega arith)
        (omega (arith, v.count_in, v.slots)) (omega (arith, v.count_in));
  still = IsStill-overlay s.player_count s.players out.players st;
  slots = length-overlay wire_player s.player_count s.players out.players ∙ h;
}

pub received_delta-Mirrors :
    (cur base cache : WorldSnapshot)
    → IsWireSnapshot cur
    → IsWireSnapshot base
    → Mirrors cache base
    → base.tick ≤ cur.tick
    → cur.tick ≤ base.tick + 255
    → Mirrors (received_delta cur base cache) cur
received_delta-Mirrors cur base cache v w m later near =
    let (small, all) = compared cur base cache v w m later near in
    record {
      tick = refl;
      count = refl;
      carrier_red = refl;
      carrier_blue = refl;
      state_red = refl;
      state_blue = refl;
      score_red = refl;
      score_blue = refl;
      seconds = refl;
      players =
          Holds-overlay cur.player_count (slots_compared cur base) cur.players cache.players all
            (omega (arith, small, v.slots)) (omega (arith, small, m.slots));
      still = IsStill-overlay (slots_compared cur base) cur.players cache.players m.still;
      slots =
          length-overlay wire_player (slots_compared cur base) cur.players cache.players ∙ m.slots;
    }

at_most : (b : Bool) (k : ℕ) → (if b then k else 0) ≤ k
at_most true k = omega arith
at_most false k = omega arith

-- A delta is at most 117 bytes.
pub delta_size-le :
    (cur base cache : WorldSnapshot)
    → IsWireSnapshot cur
    → IsWireSnapshot base
    → Mirrors cache base
    → base.tick ≤ cur.tick
    → cur.tick ≤ base.tick + 255
    → delta_size cur base ≤ 117
delta_size-le cur base cache v w m later near =
    let (small, all) = compared cur base cache v w m later near in
    let hm = header_mask cur base in
    omega (
      arith,
      at_most (has hm 1) 1,
      at_most (has hm 2) 1,
      at_most (has hm 4) 2,
      at_most (has hm 8) 2,
      at_most (has hm 16) 2,
      at_most (has hm 32) 1,
      changes_size-le _ _ (slots_compared cur base) 0 cur.players base.players,
    )
