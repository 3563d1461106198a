-- ===== src/Protocol/Fields.antt =====
-- shared/protocol.cpp, the helpers that the messages share: positions, names, the packed player
-- flags, and the wire bytes of the enumerations.
use networked_capture_the_fl.Prelude.{
  ℕ, zero, suc, ◌≡◌, refl, subst, not, List, [], ◌∷◌, Option, none, some, ltb, ◌==◌, if◌then◌else◌,
  bit_and, bit_or, length, arith, ℤ, shr_ℤ, shl_ℤ, to_bits, of_bits,
}
use networked_capture_the_fl.GameTypes.{
  Vec2Fixed, Team, red, blue, FlagState, at_base, carried, dropped, is_blue, team_byte,
  flag_state_byte, PlayerState,
}
use networked_capture_the_fl.GameTypes.Config.{wire_fixed_shift}
use networked_capture_the_fl.ByteBuffer.{
  Writer, put_u8, put_i16, ◌⨾◌, nothing, Parser, get_u8, get_i16, ◌>>=◌, pure,
}
use networked_capture_the_fl.ByteBuffer.Codec.{
  Codec, u8-Codec, i16-Codec, nothing-Codec, pure-Silent, Codec-size, field, last,
}

unfoldable pub write_vec2 : Vec2Fixed → Writer → Writer
write_vec2 v = put_i16 (shr_ℤ v.x wire_fixed_shift) ⨾ put_i16 (shr_ℤ v.y wire_fixed_shift)

unfoldable pub read_vec2 : Parser Vec2Fixed
read_vec2 = do
  wx ← get_i16
  wy ← get_i16
  pure (record { x = shl_ℤ wx wire_fixed_shift; y = shl_ℤ wy wire_fixed_shift })

-- A coordinate as it arrives: rounded down to 1/16 px, and wrapped to 16 bits.
abbrev pub wire_coord : ℤ → ℤ
wire_coord z = shl_ℤ (of_bits 16 (to_bits 16 (shr_ℤ z wire_fixed_shift))) wire_fixed_shift

abbrev pub wire_vec : Vec2Fixed → Vec2Fixed
wire_vec v = record { x = wire_coord v.x; y = wire_coord v.y }

pub vec2-Codec : (v : Vec2Fixed) → Codec (write_vec2 v) read_vec2 4 (wire_vec v)
unfolding write_vec2 read_vec2
vec2-Codec v = field _ (i16-Codec _) (last _ (i16-Codec _) (pure-Silent _))

abbrev pub name_bytes : ℕ
name_bytes = 16

-- A `char[16]` is the list of its bytes.
unfoldable pub write_name : List ℕ → Writer → Writer
write_name [] = nothing
write_name (c ∷ name) = put_u8 c ⨾ write_name name

unfoldable pub read_chars : ℕ → Parser (List ℕ)
read_chars zero = pure []
read_chars (suc n) = do c ← get_u8; name ← read_chars n; pure (c ∷ name)

unfoldable pub read_name : Parser (List ℕ)
read_name = read_chars name_bytes

chars-Codec :
    (name : List ℕ) → Codec (write_name name) (read_chars (length name)) (length name) name
unfolding write_name read_chars
chars-Codec [] = nothing-Codec (pure-Silent [])
chars-Codec (c ∷ name) =
    Codec-size (omega arith) (field _ (u8-Codec c) (last _ (chars-Codec name) (pure-Silent _)))

pub name-Codec :
    (name : List ℕ) → length name ≡ name_bytes → Codec (write_name name) read_name 16 name
unfolding read_name
name-Codec name h = subst (λ n. Codec (write_name name) (read_chars n) n name) h (chars-Codec name)

unfoldable pub pack_player_flags : PlayerState → ℕ
pack_player_flags p =
    let f0 : ℕ = 0 in
    let f1 = if p.alive then bit_or f0 1 else f0 in
    let f2 = if p.carrying_flag then bit_or f1 2 else f1 in
    let f3 = if is_blue p.team then bit_or f2 4 else f2 in if p.firing then bit_or f3 8 else f3

unfoldable pub unpack_player_flags : ℕ → PlayerState → PlayerState
unpack_player_flags f p = record p {
  alive = not (bit_and f 1 == 0);
  carrying_flag = not (bit_and f 2 == 0);
  team = if not (bit_and f 4 == 0) then blue else red;
  firing = not (bit_and f 8 == 0);
}

-- The flags byte carries exactly the four fields: unpacking it over any player sets them.
pub unpack-pack :
    (p q : PlayerState)
    → unpack_player_flags (pack_player_flags p) q ≡ record q {
      alive = p.alive;
      carrying_flag = p.carrying_flag;
      team = p.team;
      firing = p.firing;
    }
unfolding pack_player_flags unpack_player_flags
unpack-pack p q = ground arith

unfoldable pub decode_team : ℕ → Option Team
decode_team raw = if ltb 1 raw then none else some (if raw == 1 then blue else red)

unfoldable pub decode_flag_state : ℕ → Option FlagState
decode_flag_state raw =
    if ltb 2 raw
    then none
    else some (if raw == 2 then dropped else if raw == 1 then carried else at_base)

pub decode_team-byte : (t : Team) → decode_team (team_byte t) ≡ some t
unfolding decode_team
decode_team-byte red = refl
decode_team-byte blue = refl

pub decode_flag_state-byte : (s : FlagState) → decode_flag_state (flag_state_byte s) ≡ some s
unfolding decode_flag_state
decode_flag_state-byte at_base = refl
decode_flag_state-byte carried = refl
decode_flag_state-byte dropped = refl
