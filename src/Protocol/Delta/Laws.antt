-- ===== src/Protocol/Delta/Laws.antt =====
-- The delta snapshot of shared/protocol.cpp: a receiver that mirrors the baseline mirrors the
-- current snapshot afterwards.
use networked_capture_the_fl.Prelude.{
  le→leb, ℕ, zero, suc, ◌+◌, ◌-◌, ◌<◌, ◌≤◌, ◌^◌, ◌≡◌, refl, sym, subst, ◌∙◌, Bool, true, false, not,
  ◌||◌, inl, inr, List, [], ◌∷◌, length, lt→ltb, ◌==◌, ==_iff, if◌then◌else◌, bit_and, or_left,
  or_right, not-false, Bool-cases, All, arith,
}
use networked_capture_the_fl.GameTypes.{FlagState, flag_state_byte, PlayerState, WorldSnapshot}
use networked_capture_the_fl.GameTypes.Config.{max_players}
use networked_capture_the_fl.ByteBuffer.{put_u8, ◌⨾◌}
use networked_capture_the_fl.ByteBuffer.Codec.{
  Codec, u8-Codec, u16-Codec, u32-Codec, pure-Silent, require-Silent, require_ok-Silent,
  accept-Silent, field, last, check, checks, optional-Codec,
}
use networked_capture_the_fl.Protocol.Fields.{decode_flag_state-byte}
use networked_capture_the_fl.Protocol.Slots.{overlay}
use networked_capture_the_fl.Protocol.Snapshot.Laws.{wire_player, IsWireSnapshot}
use networked_capture_the_fl.Protocol.Delta.{
  has, roster_changed, red_changed, blue_changed, header_mask, change_bits, ticks_ago,
  slots_compared, encode_delta_snapshot, write_changes, read_changes, read_flag, read_count,
  decode_delta_snapshot,
}
use networked_capture_the_fl.Protocol.Delta.Masks.{mask6_bits}
use networked_capture_the_fl.Protocol.Delta.Loop.{
  tests_mask-lt, pchange-tests_mask, Synced, IsStill, changes_size, changes-Codec,
}

-- The first `n` slots hold what the wire carries of the players.
abbrev pub Holds : ℕ → List PlayerState → List PlayerState → Type 0
Holds zero ps ds = Unit
Holds (suc n) [] ds = ⊥
Holds (suc n) (p ∷ ps) [] = ⊥
Holds (suc n) (p ∷ ps) (d ∷ ds) = (d ≡ wire_player p) × Holds n ps ds

-- A client's cache mirrors a published snapshot: every field but the acknowledgement, which is its
-- own, and every slot in use.
pub record Mirrors (cache s : WorldSnapshot) : Type 0 where
  pub tick : cache.tick ≡ s.tick
  pub count : cache.player_count ≡ s.player_count
  pub carrier_red : cache.flag_carrier_red ≡ s.flag_carrier_red
  pub carrier_blue : cache.flag_carrier_blue ≡ s.flag_carrier_blue
  pub state_red : cache.flag_state_red ≡ s.flag_state_red
  pub state_blue : cache.flag_state_blue ≡ s.flag_state_blue
  pub score_red : cache.score_red ≡ s.score_red
  pub score_blue : cache.score_blue ≡ s.score_blue
  pub seconds : cache.seconds_remaining ≡ s.seconds_remaining
  pub players : Holds s.player_count s.players cache.players
  pub still : All IsStill cache.players
  pub slots : length cache.players ≡ max_players

Synced-true : (n : ℕ) (bs ds : List PlayerState) → Synced true n bs ds
Synced-true zero bs ds = tt
Synced-true (suc n) [] ds = tt
Synced-true (suc n) (b ∷ bs) [] = tt
Synced-true (suc n) (b ∷ bs) (d ∷ ds) = (λ h. cc, Synced-true n bs ds)

Holds-Synced :
    (full : Bool) (n : ℕ) (bs ds : List PlayerState) → Holds n bs ds → Synced full n bs ds
Holds-Synced full zero bs ds h = tt
Holds-Synced full (suc n) [] ds h = tt
Holds-Synced full (suc n) (b ∷ bs) [] h = tt
Holds-Synced full (suc n) (b ∷ bs) (d ∷ ds) h = ((λ _. h.0), Holds-Synced full n bs ds h.1)

pub Holds-overlay :
    (k n : ℕ) (ps ds : List PlayerState)
    → k ≤ n
    → n ≤ length ps
    → n ≤ length ds
    → Holds k ps (overlay wire_player n ps ds)
Holds-overlay zero n ps ds h hp hd = tt
Holds-overlay (suc k) zero ps ds h hp hd = absurd (omega arith)
Holds-overlay (suc k) (suc n) [] ds h hp hd = absurd (omega arith)
Holds-overlay (suc k) (suc n) (p ∷ ps) [] h hp hd = absurd (omega arith)
Holds-overlay (suc k) (suc n) (p ∷ ps) (d ∷ ds) h hp hd =
    (refl, Holds-overlay k n ps ds (omega arith) (omega arith) (omega arith))

pub IsStill-overlay :
    (n : ℕ) (ps ds : List PlayerState) → All IsStill ds → All IsStill (overlay wire_player n ps ds)
IsStill-overlay zero ps ds h = h
IsStill-overlay (suc n) [] ds h = h
IsStill-overlay (suc n) (p ∷ ps) [] h = tt
IsStill-overlay (suc n) (p ∷ ps) (d ∷ ds) h = (refl, IsStill-overlay n ps ds h.1)

flag_state_byte_injective : (a b : FlagState) → flag_state_byte a ≡ flag_state_byte b → a ≡ b
flag_state_byte_injective a b h = ground arith

-- What the receiver's cache becomes.
abbrev pub received_delta : WorldSnapshot → WorldSnapshot → WorldSnapshot → WorldSnapshot
received_delta cur base cache = record cur {
  players = overlay wire_player (slots_compared cur base) cur.players cache.players;
}

-- The size of a delta.
abbrev pub delta_size : WorldSnapshot → WorldSnapshot → ℕ
delta_size cur base =
    let hm = header_mask cur base in
    let full = roster_changed cur base in
    let n = slots_compared cur base in
    4
    + (1
        + (1
            + ((if has hm 1 then 1 else 0)
                + ((if has hm 2 then 1 else 0)
                    + ((if has hm 4 then 2 else 0)
                        + ((if has hm 8 then 2 else 0)
                            + ((if has hm 16 then 2 else 0)
                                + ((if has hm 32 then 1 else 0)
                                    + (2
                                        + changes_size full
                                            (change_bits full n 0 cur.players base.players 0) n 0
                                            cur.players base.players)))))))))

module _ (cur base cache : WorldSnapshot) (v : IsWireSnapshot cur) (w : IsWireSnapshot base)
    (m : Mirrors cache base) (later : base.tick ≤ cur.tick)
    (near : cur.tick ≤ base.tick + 255) where
  ago_lem : ticks_ago cur base ≡ cur.tick - base.tick
  unfolding ticks_ago
  ago_lem = ground arith

  pub compared :
      (slots_compared cur base ≤ max_players) × (cur.player_count ≤ slots_compared cur base)
  unfolding slots_compared
  compared = ground (arith, v.count_in, w.count_in)

  same_roster : roster_changed cur base ≡ false → slots_compared cur base ≡ base.player_count
  unfolding slots_compared
  same_roster h = ground (arith, v.count_in, w.count_in)

  synced : Synced (roster_changed cur base) (slots_compared cur base) base.players cache.players
  synced = elim (Bool-cases (roster_changed cur base)) [
    | inl e ↦ rw e (Synced-true (slots_compared cur base) base.players cache.players)
    | inr e ↦
        subst (λ n. Synced (roster_changed cur base) n base.players cache.players)
          (sym (same_roster e))
          (Holds-Synced _ base.player_count base.players cache.players m.players)
  ]

  header_bits :
      (has (header_mask cur base) 1 ≡ not (cur.score_red == base.score_red))
      × (has (header_mask cur base) 2 ≡ not (cur.score_blue == base.score_blue))
      × (has (header_mask cur base) 4 ≡ not (cur.seconds_remaining == base.seconds_remaining))
      × (has (header_mask cur base) 8 ≡ red_changed cur base)
      × (has (header_mask cur base) 16 ≡ blue_changed cur base)
      × (has (header_mask cur base) 32 ≡ roster_changed cur base)
      × (bit_and (header_mask cur base) 0xc0 ≡ 0)
  unfolding header_mask
  header_bits = mask6_bits _ _ _ _ _ _

  pchange : ℕ
  pchange =
      change_bits (roster_changed cur base) (slots_compared cur base) 0 cur.players base.players 0

  -- A number of the header that was not sent is the baseline's.
  number_kept : {a b c : ℕ} {k : Bool} → k ≡ not (a == b) → c ≡ b → k ≡ false → c ≡ a
  number_kept {a} {b} e same h = same ∙ sym ((==_iff a b).0 (not-false _ (sym e ∙ h)))

  -- And so are the two bytes of a flag.
  flag_kept :
      {s t u : FlagState} {a b c : ℕ} {k : Bool}
      → k ≡ (not (flag_state_byte s == flag_state_byte t) || not (a == b))
      → u ≡ t
      → c ≡ b
      → k ≡ false
      → ◌≡◌ {A = FlagState × ℕ} (u, c) (s, a)
  flag_kept {s} {t} {u} {a} {b} {c} e same also h =
      let state =
        flag_state_byte_injective s t ((==_iff _ _).0 (not-false _ (or_left _ _ (sym e ∙ h)))) in
      let carrier = (==_iff a b).0 (not-false _ (or_right _ _ (sym e ∙ h))) in
      λ i. ((same ∙ sym state) i, (also ∙ sym carrier) i)

  pchange_in : pchange < 2 ^ max_players
  unfolding pchange
  pchange_in =
      rw
        (pchange-tests_mask (roster_changed cur base) (slots_compared cur base) cur.players
          base.players)
        (tests_mask-lt (roster_changed cur base) (slots_compared cur base) max_players cur.players
          base.players compared.0)

  players-Codec :
      Codec
        (write_changes
          (roster_changed cur base)
          pchange
          (slots_compared cur base)
          0
          cur.players
          base.players)
        (read_changes pchange 0 cache.players)
        (changes_size
          (roster_changed cur base)
          pchange
          (slots_compared cur base)
          0
          cur.players
          base.players)
        (overlay wire_player (slots_compared cur base) cur.players cache.players)
  unfolding pchange
  players-Codec =
      changes-Codec (roster_changed cur base) _ (slots_compared cur base) 0 cur.players base.players
        cache.players (omega (arith, compared.0, v.slots)) (omega (arith, compared.0, w.slots))
        (omega (arith, compared.0, m.slots)) v.players_in synced m.still
        (omega (
          arith,
          pchange-tests_mask (roster_changed cur base) (slots_compared cur base) cur.players
              base.players,
        ))

  flag-Codec :
      (st : FlagState) (carrier : ℕ)
      → Codec (put_u8 (flag_state_byte st) ⨾ put_u8 carrier) read_flag 2 (st, carrier)
  unfolding read_flag
  flag-Codec st carrier = field _ (u8-Codec _) (
      last _ (u8-Codec carrier) (
        checks _ require_ok-Silent
          (checks _ (accept-Silent st (decode_flag_state-byte st)) (pure-Silent _))))

  count-Codec : Codec (put_u8 cur.player_count) read_count 1 cur.player_count
  unfolding read_count
  count-Codec = last _ (u8-Codec cur.player_count) (
      checks _ require_ok-Silent (
        checks _ (require-Silent _ (le→leb cur.player_count max_players v.count_in))
          (pure-Silent _)))

  pub delta-Codec :
      Codec
        (encode_delta_snapshot cur base)
        (decode_delta_snapshot cur.tick cache)
        (delta_size cur base)
        (received_delta cur base cache)
  unfolding encode_delta_snapshot decode_delta_snapshot pchange
  delta-Codec =
      let small = pchange_in in
      field _ (u32-Codec cur.last_input_seq v.seq_in) (
        field _ (u8-Codec (ticks_ago cur base)) (
          field _ (u8-Codec (header_mask cur base)) (
            check _ require_ok-Silent (
              check _ (require-Silent _ ((==_iff _ 0).1 header_bits.6)) (
                check _ (require-Silent _ (le→leb _ _ (omega (arith, ago_lem)))) (
                  check _ (require-Silent _ ((==_iff _ _).1 (omega (arith, ago_lem, m.tick)))) (
                    field _
                      (optional-Codec {a = cur.score_red} _ _ (λ _. u8-Codec _)
                        (number_kept header_bits.0 m.score_red))
                      (field _
                        (optional-Codec {a = cur.score_blue} _ _ (λ _. u8-Codec _)
                          (number_kept header_bits.1 m.score_blue))
                        (field _
                          (optional-Codec {a = cur.seconds_remaining} _ _
                            (λ _. u16-Codec _ v.seconds_in) (number_kept header_bits.2 m.seconds))
                          (field _
                            (optional-Codec {a = (cur.flag_state_red, cur.flag_carrier_red)} _ _
                              (λ _. flag-Codec cur.flag_state_red cur.flag_carrier_red)
                              (flag_kept header_bits.3 m.state_red m.carrier_red))
                            (field _
                              (optional-Codec {a = (cur.flag_state_blue, cur.flag_carrier_blue)} _ _
                                (λ _. flag-Codec cur.flag_state_blue cur.flag_carrier_blue)
                                (flag_kept header_bits.4 m.state_blue m.carrier_blue))
                              (field _
                                (optional-Codec {a = cur.player_count} _ _ (λ _. count-Codec)
                                  (number_kept header_bits.5 m.count))
                                (field _ (u16-Codec _ (omega (arith, small))) (
                                  check _ require_ok-Silent (
                                    check _ (require-Silent _ (lt→ltb _ _ small))
                                      (last _ players-Codec (pure-Silent _)))))))))))))))))
