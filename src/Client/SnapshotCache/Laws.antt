-- ===== src/Client/SnapshotCache/Laws.antt =====
-- Whatever datagrams are lost, repeated or reordered, a client shows only published snapshots
-- (client/net_client.cpp with shared/protocol.cpp).
use networked_capture_the_fl.Prelude.{
  ℕ, ◌+◌, ◌*◌, ◌<◌, ◌≤◌, ◌^◌, ◌≡◌, refl, sym, ap, ap₂, subst, ◌∙◌, inl, inr, true, false, not, List,
  [], ◌∷◌, ◌++◌, length, Bool-cases, if_true, if_false, All, ℕ_discrete, arith,
}
use networked_capture_the_fl.GameTypes.{WorldSnapshot, no_snapshot}
use networked_capture_the_fl.ByteBuffer.{writer, written}
use networked_capture_the_fl.ByteBuffer.Codec.{round_trip, reader_fine}
use networked_capture_the_fl.ByteBuffer.Bounds.{Excludes, >>=-Excludes, require-Excludes}
use networked_capture_the_fl.Protocol.Snapshot.{encode_world_snapshot}
use networked_capture_the_fl.Protocol.Snapshot.Laws.{
  IsWireSnapshot, received_snapshot, snapshot-Codec,
}
use networked_capture_the_fl.Protocol.Delta.{encode_delta_snapshot, decode_delta_snapshot}
use networked_capture_the_fl.Protocol.Delta.Laws.{Mirrors, received_delta, delta-Codec}
use networked_capture_the_fl.Protocol.Delta.Mirror.{
  received_snapshot-Mirrors, received_delta-Mirrors, delta_size-le,
}
use networked_capture_the_fl.Client.SnapshotCache.{
  SnapshotCache, no_cache, keep_snapshot, keep_delta, on_world_snapshot, on_delta_snapshot,
}

-- A delta that applies to one cache applies to no cache of another tick.
pub stale-Excludes :
    (tick : ℕ) (a b : WorldSnapshot)
    → (a.tick ≡ b.tick → ⊥)
    → Excludes (decode_delta_snapshot tick a) (decode_delta_snapshot tick b)
unfolding decode_delta_snapshot
stale-Excludes tick a b ne = >>=-Excludes _ _ _ λ seq. >>=-Excludes _ _ _ λ ago.
    >>=-Excludes _ _ _ λ hm. >>=-Excludes _ _ _ λ fine.
      >>=-Excludes _ _ _
        λ known. >>=-Excludes _ _ _ λ early. require-Excludes _ _ _ _ (λ h. ground arith)

-- The acknowledgement is patched for each recipient: `s` as the recipient with `ack` gets it.
abbrev pub with_ack : ℕ → WorldSnapshot → WorldSnapshot
with_ack ack s = record s { last_input_seq = ack }

pub with_ack-IsWire :
    (ack : ℕ) (s : WorldSnapshot)
    → ack < 2 ^ 32
    → IsWireSnapshot s
    → IsWireSnapshot (with_ack ack s)
with_ack-IsWire ack s h v = record {
  seq_in = h;
  tick_in = v.tick_in;
  seconds_in = v.seconds_in;
  count_in = v.count_in;
  slots = v.slots;
  players_in = v.players_in;
}

with_ack-Mirrors : (ack : ℕ) (c s : WorldSnapshot) → Mirrors c (with_ack ack s) → Mirrors c s
with_ack-Mirrors ack c s m = record {
  tick = m.tick;
  count = m.count;
  carrier_red = m.carrier_red;
  carrier_blue = m.carrier_blue;
  state_red = m.state_red;
  state_blue = m.state_blue;
  score_red = m.score_red;
  score_blue = m.score_blue;
  seconds = m.seconds;
  players = m.players;
  still = m.still;
  slots = m.slots;
}

pub fresh-Mirrors :
    (s : WorldSnapshot) → IsWireSnapshot s → Mirrors (received_snapshot s no_snapshot) s
fresh-Mirrors s v =
    received_snapshot-Mirrors s no_snapshot v refl
      (refl, (refl, (refl, (refl, (refl, (refl, (refl, (refl, (refl, (refl, tt))))))))))

-- What a full snapshot does to the cache.
pub keyframe_lem :
    (s : WorldSnapshot) (buf : List ℕ) (c : SnapshotCache)
    → IsWireSnapshot s
    → 17 + s.player_count * 9 ≤ length buf
    → on_world_snapshot (written (encode_world_snapshot s (writer buf))) c ≡ record {
      last = received_snapshot s no_snapshot;
      have_last = true;
      first_received = true;
      pending = c.pending ++ received_snapshot s no_snapshot ∷ [];
    }
unfolding on_world_snapshot
keyframe_lem s buf c v room =
    let codec = snapshot-Codec s no_snapshot v refl in
    let good = round_trip codec buf room in
    ap₂ (keep_snapshot c) good.2 (ap not (reader_fine codec buf room))

-- What a delta does to a cache that mirrors its baseline, and to one of another tick.
applies_lem :
    (cur base : WorldSnapshot) (buf : List ℕ) (c : SnapshotCache)
    → IsWireSnapshot cur
    → IsWireSnapshot base
    → base.tick ≤ cur.tick
    → cur.tick ≤ base.tick + 255
    → 117 ≤ length buf
    → c.have_last ≡ true
    → Mirrors c.last base
    → on_delta_snapshot cur.tick (written (encode_delta_snapshot cur base (writer buf))) c
      ≡ record c {
        last = received_delta cur base c.last;
        first_received = true;
        pending = c.pending ++ received_delta cur base c.last ∷ [];
      }
unfolding on_delta_snapshot
applies_lem cur base buf c v w later near room have m =
    let size = delta_size-le cur base c.last v w m later near in
    let good =
      round_trip (delta-Codec cur base c.last v w m later near) buf (omega (arith, size)) in
    if_true c.have_last _ _ have ∙ ap (keep_delta c) good.2

stale_lem :
    (cur base : WorldSnapshot) (buf : List ℕ) (c : SnapshotCache)
    → IsWireSnapshot cur
    → IsWireSnapshot base
    → base.tick ≤ cur.tick
    → cur.tick ≤ base.tick + 255
    → 117 ≤ length buf
    → c.have_last ≡ true
    → (base.tick ≡ c.last.tick → ⊥)
    → on_delta_snapshot cur.tick (written (encode_delta_snapshot cur base (writer buf))) c
      ≡ record c { have_last = false }
unfolding on_delta_snapshot
stale_lem cur base buf c v w later near room have ne =
    let m = fresh-Mirrors base w in
    let size = delta_size-le cur base _ v w m later near in
    let good = round_trip (delta-Codec cur base _ v w m later near) buf (omega (arith, size)) in
    let fails = (stale-Excludes cur.tick _ c.last ne).run _ _ good.2 in
    if_true c.have_last _ _ have ∙ ap (keep_delta c) fails

-- Without a keyframe a delta changes nothing.
ignores_lem :
    (tick : ℕ) (payload : List ℕ) (c : SnapshotCache)
    → c.have_last ≡ false
    → on_delta_snapshot tick payload c ≡ c
unfolding on_delta_snapshot
ignores_lem tick payload c h = if_false c.have_last _ _ h

-- The snapshots that a server has published: any set of them in which the tick tells them apart.
module _ (Published : WorldSnapshot → Type 0)
    (wire : (s : WorldSnapshot) → Published s → IsWireSnapshot s)
    (by_tick : (s t : WorldSnapshot) → Published s → Published t → s.tick ≡ t.tick → s ≡ t) where
  -- A client receives a datagram that was sent to it: the keyframe of a published snapshot, or the
  -- delta of one against another, in buffers of the size that the server uses.
  pub data Receives (c : SnapshotCache) : SnapshotCache → Type 0 where
    keyframe :
        (s : WorldSnapshot) (ack : ℕ) (buf : List ℕ)
        → Published s
        → ack < 2 ^ 32
        → length buf ≡ 512
        → Receives c
            (on_world_snapshot (written (encode_world_snapshot (with_ack ack s) (writer buf))) c)
    delta :
        (cur base : WorldSnapshot) (ack : ℕ) (buf : List ℕ)
        → Published cur
        → Published base
        → ack < 2 ^ 32
        → length buf ≡ 512
        → base.tick ≤ cur.tick
        → cur.tick ≤ base.tick + 255
        → Receives c (
            on_delta_snapshot cur.tick
              (written (encode_delta_snapshot (with_ack ack cur) base (writer buf)))
              c)

  -- Any number of datagrams, in any order, any of them lost or repeated.
  pub data Session : SnapshotCache → Type 0 where
    start : Session no_cache
    next : {c d : SnapshotCache} → Session c → Receives c d → Session d

  abbrev pub Genuine : WorldSnapshot → Type 0
  Genuine x = (s : WorldSnapshot) × Published s × Mirrors x s

  pub record IsGenuine (c : SnapshotCache) : Type 0 where
    pub cached : c.have_last ≡ true → Genuine c.last
    pub shown : All Genuine c.pending

  All-snoc :
      (xs : List WorldSnapshot) (x : WorldSnapshot)
      → All Genuine xs
      → Genuine x
      → All Genuine (xs ++ x ∷ [])
  All-snoc [] x h g = (g, tt)
  All-snoc (y ∷ ys) x h g = (h.0, All-snoc ys x h.1 g)

  keyframe-IsGenuine :
      (s : WorldSnapshot) (ack : ℕ) (buf : List ℕ) (c : SnapshotCache)
      → Published s
      → ack < 2 ^ 32
      → length buf ≡ 512
      → IsGenuine c
      → IsGenuine
          (on_world_snapshot (written (encode_world_snapshot (with_ack ack s) (writer buf))) c)
  keyframe-IsGenuine s ack buf c p small l g =
      let v = with_ack-IsWire ack s small (wire s p) in
      let genuine : Genuine (received_snapshot (with_ack ack s) no_snapshot) =
        (s, p, with_ack-Mirrors ack _ s (fresh-Mirrors (with_ack ack s) v)) in
      subst IsGenuine (sym (keyframe_lem (with_ack ack s) buf c v (omega (arith, v.count_in))))
        (record { cached = λ _. genuine; shown = All-snoc c.pending _ g.shown genuine })

  delta-IsGenuine :
      (cur base : WorldSnapshot) (ack : ℕ) (buf : List ℕ) (c : SnapshotCache)
      → Published cur
      → Published base
      → ack < 2 ^ 32
      → length buf ≡ 512
      → base.tick ≤ cur.tick
      → cur.tick ≤ base.tick + 255
      → IsGenuine c
      → IsGenuine (
          on_delta_snapshot cur.tick
            (written (encode_delta_snapshot (with_ack ack cur) base (writer buf)))
            c)
  delta-IsGenuine cur base ack buf c p q small l later near g = elim (Bool-cases c.have_last) [
    | inr off ↦ subst IsGenuine (sym (ignores_lem cur.tick _ c off)) g
    | inl have ↦
        let (s, ps, m) = g.cached have in
        let v = with_ack-IsWire ack cur small (wire cur p) in
        let w = wire base q in
        elim (ℕ_discrete base.tick c.last.tick) [
          | yes e ↦
              let m' = subst (Mirrors c.last) (sym (by_tick base s q ps (e ∙ m.tick))) m in
              let genuine : Genuine (received_delta (with_ack ack cur) base c.last) = (
                cur,
                p,
                with_ack-Mirrors ack _ cur
                    (received_delta-Mirrors (with_ack ack cur) base c.last v w m' later near),
              ) in
              subst IsGenuine
                (sym
                  (applies_lem (with_ack ack cur) base buf c v w later near (omega arith) have m'))
                (record { cached = λ _. genuine; shown = All-snoc c.pending _ g.shown genuine })
          | no ne ↦
              subst IsGenuine
                (sym (stale_lem (with_ack ack cur) base buf c v w later near (omega arith) have ne))
                (record { cached = λ h. cc; shown = g.shown })
        ]
  ]

  Receives-IsGenuine : {c d : SnapshotCache} → Receives c d → IsGenuine c → IsGenuine d
  Receives-IsGenuine {c} (keyframe s ack buf p small l) g =
      keyframe-IsGenuine s ack buf c p small l g
  Receives-IsGenuine {c} (delta cur base ack buf p q small l later near) g =
      delta-IsGenuine cur base ack buf c p q small l later near g

  -- Take snapshots that fit the wire and that the tick tells apart. However the datagrams that carry
  -- them to a client as keyframes and as deltas are lost, repeated or reordered, and whichever input
  -- sequence number is patched into each, every snapshot that the client queues mirrors one that
  -- was published, and so does its copy of the last one whenever it holds one.
  pub Session-IsGenuine : {c : SnapshotCache} → Session c → IsGenuine c
  Session-IsGenuine start = record { cached = λ h. cc; shown = tt }
  Session-IsGenuine (next s r) = Receives-IsGenuine r (Session-IsGenuine s)
