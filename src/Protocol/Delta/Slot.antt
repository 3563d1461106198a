-- ===== src/Protocol/Delta/Slot.antt =====
-- One changed slot of a delta (shared/protocol.cpp): what the decoder makes of it.
use networked_capture_the_fl.Prelude.{
  ℕ, ◌+◌, ◌≤◌, ◌≡◌, sym, ap, ◌∙◌, Bool, true, false, not, ◌||◌, if◌then◌else◌, ◌==◌, bit_and,
  ==_iff, and_left, and_right, or_left, or_right, not-false, arith, ℤ, ◌==ℤ◌, shr_ℤ, shl_ℤ, of_bits,
  to_bits, eq_of_parts,
}
use networked_capture_the_fl.GameTypes.{Vec2Fixed, no_vec, PlayerState}
use networked_capture_the_fl.GameTypes.Config.{wire_fixed_shift}
use networked_capture_the_fl.ByteBuffer.Codec.{
  Codec, u8-Codec, u16-Codec, pure-Silent, returns, require-Silent, require_ok-Silent, field, last,
  check, checks, optional-Codec,
}
use networked_capture_the_fl.Protocol.Fields.{
  vec2-Codec, wire_vec, pack_player_flags, unpack_player_flags, unpack-pack,
}
use networked_capture_the_fl.Protocol.Snapshot.Laws.{wire_player, IsWirePlayer}
use networked_capture_the_fl.Protocol.Delta.{
  wire_pos_eq, flags_differ, has, field_mask, write_change, read_change,
}
use networked_capture_the_fl.Protocol.Delta.Masks.{mask4_bits}

==ℤ-eq : (a b : ℤ) → (a ==ℤ b) ≡ true → a ≡ b
==ℤ-eq a b h = eq_of_parts a b (ground arith)

-- What the wire cannot tell apart arrives as the same position.
pub wire_pos_eq-wire_vec : (a b : Vec2Fixed) → wire_pos_eq a b ≡ true → wire_vec a ≡ wire_vec b
unfolding wire_pos_eq
wire_pos_eq-wire_vec a b h =
    let ex = ==ℤ-eq (shr_ℤ a.x wire_fixed_shift) (shr_ℤ b.x wire_fixed_shift) (and_left _ _ h) in
    let ey = ==ℤ-eq (shr_ℤ a.y wire_fixed_shift) (shr_ℤ b.y wire_fixed_shift) (and_right _ _ h) in
    λ i. record {
      x = shl_ℤ (of_bits 16 (to_bits 16 (ex i))) wire_fixed_shift;
      y = shl_ℤ (of_bits 16 (to_bits 16 (ey i))) wire_fixed_shift;
    }

-- The size of a slot's record, between 2 and 10 bytes.
abbrev pub change_size : Bool → PlayerState → PlayerState → ℕ
change_size full c b =
    let fm = field_mask full c b in
    1
    + (1
        + ((if has fm 1 then 4 else 0)
            + ((if has fm 2 then 2 else 0)
                + ((if has fm 4 then 1 else 0) + (if has fm 8 then 1 else 0)))))

pub change_size-le : (full : Bool) (c b : PlayerState) → change_size full c b ≤ 10
change_size-le full c b = ground arith

module _ (full : Bool) (c b d : PlayerState) (ok : IsWirePlayer c)
    (synced : full ≡ false → d ≡ wire_player b) (still : d.motion.velocity ≡ no_vec) where
  field_bits :
      (has (field_mask full c b) 1
        ≡ (full || not (wire_pos_eq c.motion.position b.motion.position)))
      × (has (field_mask full c b) 2 ≡ (full || not (c.aim_angle == b.aim_angle)))
      × (has (field_mask full c b) 4 ≡ (full || not (c.health == b.health)))
      × (has (field_mask full c b) 8 ≡ (full || flags_differ c b))
      × (bit_and (field_mask full c b) 0xf0 ≡ 0)
  unfolding field_mask
  field_bits = mask4_bits _ _ _ _

  -- A field that was not sent is the baseline's, and the current one's is not different.
  kept : {t m : Bool} → m ≡ (full || not t) → m ≡ false → (d ≡ wire_player b) × (t ≡ true)
  kept e h =
      let unsent = sym e ∙ h in (synced (or_left _ _ unsent), not-false _ (or_right full _ unsent))

  position_kept :
      has (field_mask full c b) 1 ≡ false → d.motion.position ≡ wire_vec c.motion.position
  position_kept h =
      let k = kept field_bits.0 h in
      ap (λ (p : PlayerState). p.motion.position) k.0
      ∙ sym (wire_pos_eq-wire_vec c.motion.position b.motion.position k.1)

  aim_kept : has (field_mask full c b) 2 ≡ false → d.aim_angle ≡ c.aim_angle
  aim_kept h =
      let k = kept field_bits.1 h in
      ap (λ (p : PlayerState). p.aim_angle) k.0 ∙ sym ((==_iff _ _).0 k.1)

  health_kept : has (field_mask full c b) 4 ≡ false → d.health ≡ c.health
  health_kept h =
      let k = kept field_bits.2 h in
      ap (λ (p : PlayerState). p.health) k.0 ∙ sym ((==_iff _ _).0 k.1)

  -- The slot when all but the flags byte has been read.
  abbrev half_read : PlayerState
  half_read = record d {
    id = c.id;
    motion = record d.motion { position = wire_vec c.motion.position };
    aim_angle = c.aim_angle;
    health = c.health;
  }

  flags_sent : unpack_player_flags (pack_player_flags c) half_read ≡ wire_player c
  flags_sent = unpack-pack c half_read ∙ (λ i. record c {
    motion = record { position = wire_vec c.motion.position; velocity = still i };
  })

  flags_kept : has (field_mask full c b) 8 ≡ false → half_read ≡ wire_player c
  flags_kept h =
      let k = kept field_bits.3 h in
      let same =
        sym (unpack-pack b (wire_player c))
        ∙ ap (λ f. unpack_player_flags f (wire_player c)) (sym ((==_iff _ _).0 k.1))
        ∙ unpack-pack c (wire_player c) in
      (λ i. record {
        id = c.id;
        team = (k.0 i).team;
        motion = record { position = wire_vec c.motion.position; velocity = still i };
        aim_angle = c.aim_angle;
        health = c.health;
        alive = (k.0 i).alive;
        carrying_flag = (k.0 i).carrying_flag;
        firing = (k.0 i).firing;
      })
      ∙ same

  pub change-Codec :
      Codec (write_change full c b) (read_change d) (change_size full c b) (wire_player c)
  unfolding write_change read_change
  change-Codec = field _ (u8-Codec c.id) (
      field _ (u8-Codec (field_mask full c b)) (
        check _ require_ok-Silent (
          check _ (require-Silent _ ((==_iff _ 0).1 field_bits.4)) (
            field _
              (optional-Codec {a = wire_vec c.motion.position} _ _
                (λ _. vec2-Codec c.motion.position) position_kept)
              (field _
                (optional-Codec {a = c.aim_angle} _ _ (λ _. u16-Codec c.aim_angle ok) aim_kept)
                (field _ (optional-Codec {a = c.health} _ _ (λ _. u8-Codec c.health) health_kept) (
                  last _
                    (optional-Codec {a = wire_player c} _ _
                      (λ _. last _ (u8-Codec _) (returns _ flags_sent)) flags_kept)
                    (checks _ require_ok-Silent (pure-Silent _)))))))))
