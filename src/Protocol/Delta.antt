-- ===== src/Protocol/Delta.antt =====
-- shared/protocol.cpp, `encode_delta_snapshot` and `decode_delta_snapshot`: the difference between
-- a snapshot and the one published before it, at the resolution of the wire.
pub mod Masks
pub mod Slot
pub mod Loop
pub mod Laws
pub mod Mirror
use networked_capture_the_fl.Prelude.{
  ℕ, zero, suc, ◌+◌, ◌-◌, ◌/◌, ◌%◌, ◌^◌, Bool, not, ◌&&◌, ◌||◌, List, [], ◌∷◌, min, ltb, leb, ◌==◌,
  if◌then◌else◌, bit_and, bit_or, shr_ℤ, ◌==ℤ◌,
}
use networked_capture_the_fl.GameTypes.{
  Vec2Fixed, PlayerState, FlagState, WorldSnapshot, flag_state_byte,
}
use networked_capture_the_fl.GameTypes.Config.{max_players, wire_fixed_shift}
use networked_capture_the_fl.ByteBuffer.{
  Writer, put_u8, put_u16, put_u32, ◌⨾◌, nothing, Parser, get_u8, get_u16, get_u32, ◌>>=◌, ◌>>◌,
  pure, require, require_ok, accept,
}
use networked_capture_the_fl.Protocol.Fields.{
  write_vec2, read_vec2, pack_player_flags, unpack_player_flags, decode_flag_state,
}

-- `if (b) m |= bit;`
abbrev pub or_if : Bool → ℕ → ℕ → ℕ
or_if b bit m = if b then bit_or m bit else m

-- `(m & bit) != 0`
abbrev pub has : ℕ → ℕ → Bool
has m bit = not (bit_and m bit == 0)

-- `if (b) w.…;`
abbrev pub when : Bool → (Writer → Writer) → Writer → Writer
when b e = if b then e else nothing

-- `if (b) field = r.…;`, where `old` is what the field holds.
abbrev pub optional {ℓ} : {A : Type ℓ} → Bool → Parser A → A → Parser A
optional b p old = if b then p else pure old

unfoldable pub wire_pos_eq : Vec2Fixed → Vec2Fixed → Bool
wire_pos_eq a b =
    (shr_ℤ a.x wire_fixed_shift ==ℤ shr_ℤ b.x wire_fixed_shift)
    && (shr_ℤ a.y wire_fixed_shift ==ℤ shr_ℤ b.y wire_fixed_shift)

abbrev pub flags_differ : PlayerState → PlayerState → Bool
flags_differ a b = not (pack_player_flags a == pack_player_flags b)

unfoldable pub player_differs : PlayerState → PlayerState → Bool
player_differs a b =
    not (a.id == b.id)
    || not (wire_pos_eq a.motion.position b.motion.position)
    || not (a.aim_angle == b.aim_angle)
    || not (a.health == b.health)
    || flags_differ a b

abbrev pub roster_changed : WorldSnapshot → WorldSnapshot → Bool
roster_changed cur base = not (cur.player_count == base.player_count)

abbrev pub red_changed : WorldSnapshot → WorldSnapshot → Bool
red_changed cur base =
    not (flag_state_byte cur.flag_state_red == flag_state_byte base.flag_state_red)
    || not (cur.flag_carrier_red == base.flag_carrier_red)

abbrev pub blue_changed : WorldSnapshot → WorldSnapshot → Bool
blue_changed cur base =
    not (flag_state_byte cur.flag_state_blue == flag_state_byte base.flag_state_blue)
    || not (cur.flag_carrier_blue == base.flag_carrier_blue)

-- Six tests, each with its bit, in the order of the source.
unfoldable pub mask6 : Bool → Bool → Bool → Bool → Bool → Bool → ℕ
mask6 a b c d e f = or_if f 32 (or_if e 16 (or_if d 8 (or_if c 4 (or_if b 2 (or_if a 1 0)))))

unfoldable pub header_mask : WorldSnapshot → WorldSnapshot → ℕ
header_mask cur base =
    mask6 (not (cur.score_red == base.score_red)) (not (cur.score_blue == base.score_blue))
      (not (cur.seconds_remaining == base.seconds_remaining)) (red_changed cur base)
      (blue_changed cur base) (roster_changed cur base)

unfoldable pub mask4 : Bool → Bool → Bool → Bool → ℕ
mask4 a b c d = or_if d 8 (or_if c 4 (or_if b 2 (or_if a 1 0)))

-- `fm`, of a slot that is sent in full if the roster changed.
unfoldable pub field_mask : Bool → PlayerState → PlayerState → ℕ
field_mask full p b =
    mask4 (full || not (wire_pos_eq p.motion.position b.motion.position))
      (full || not (p.aim_angle == b.aim_angle)) (full || not (p.health == b.health))
      (full || flags_differ p b)

-- The body of the encoder's loop for a slot that changed.
unfoldable pub write_change : Bool → PlayerState → PlayerState → Writer → Writer
write_change full p b =
    let fm = field_mask full p b in
    put_u8 p.id
    ⨾ (put_u8 fm
        ⨾ (when (has fm 1) (write_vec2 p.motion.position)
            ⨾ (when (has fm 2) (put_u16 p.aim_angle)
                ⨾ (when (has fm 4) (put_u8 p.health)
                    ⨾ when (has fm 8) (put_u8 (pack_player_flags p))))))

-- The loop that collects `pchange`, from slot `i` on. The bit of slot `i` is not yet set when it is
-- or-ed in, so that it is added.
unfoldable pub change_bits : Bool → ℕ → ℕ → List PlayerState → List PlayerState → ℕ → ℕ
change_bits full zero i cs bs acc = acc
change_bits full (suc n) i [] bs acc = acc
change_bits full (suc n) i (c ∷ cs) [] acc = acc
change_bits full (suc n) i (c ∷ cs) (b ∷ bs) acc =
    change_bits full n (i + 1) cs bs (if full || player_differs c b then acc + 2 ^ i else acc)

-- `(pchange & (1u << i)) != 0`
abbrev pub bit : ℕ → ℕ → Bool
bit m i = m / 2 ^ i % 2 == 1

-- The loop that writes the changed slots.
unfoldable pub write_changes :
    Bool → ℕ → ℕ → ℕ → List PlayerState → List PlayerState → Writer → Writer
write_changes full pchange zero i cs bs = nothing
write_changes full pchange (suc n) i [] bs = nothing
write_changes full pchange (suc n) i (c ∷ cs) [] = nothing
write_changes full pchange (suc n) i (c ∷ cs) (b ∷ bs) =
    when (bit pchange i) (write_change full c b) ⨾ write_changes full pchange n (i + 1) cs bs

-- `current.tick - baseline.tick`, saturated to a byte.
unfoldable pub ticks_ago : WorldSnapshot → WorldSnapshot → ℕ
ticks_ago cur base = min (if leb base.tick cur.tick then cur.tick - base.tick else 0) 255

-- `n_cmp`: the slots that are compared.
unfoldable pub slots_compared : WorldSnapshot → WorldSnapshot → ℕ
slots_compared cur base =
    let n_cur = min cur.player_count max_players in
    let n_base = min base.player_count max_players in
    if roster_changed cur base then (if ltb n_base n_cur then n_cur else n_base) else n_cur

unfoldable pub encode_delta_snapshot : WorldSnapshot → WorldSnapshot → Writer → Writer
encode_delta_snapshot cur base =
    let hm = header_mask cur base in
    let full = roster_changed cur base in
    let n = slots_compared cur base in
    let pchange = change_bits full n 0 cur.players base.players 0 in
    put_u32 cur.last_input_seq
    ⨾ (put_u8 (ticks_ago cur base)
        ⨾ (put_u8 hm
            ⨾ (when (has hm 1) (put_u8 cur.score_red)
                ⨾ (when (has hm 2) (put_u8 cur.score_blue)
                    ⨾ (when (has hm 4) (put_u16 cur.seconds_remaining)
                        ⨾ (when (has hm 8) (
                              put_u8 (flag_state_byte cur.flag_state_red)
                              ⨾ put_u8 cur.flag_carrier_red)
                            ⨾ (when (has hm 16) (
                                  put_u8 (flag_state_byte cur.flag_state_blue)
                                  ⨾ put_u8 cur.flag_carrier_blue)
                                ⨾ (when (has hm 32) (put_u8 cur.player_count)
                                    ⨾ (put_u16 pchange
                                        ⨾ write_changes full pchange n 0 cur.players
                                            base.players)))))))))

-- The body of the decoder's loop for a slot whose bit is set.
unfoldable pub read_change : PlayerState → Parser PlayerState
read_change p = do
  id ← get_u8
  fm ← get_u8
  require_ok
  require (bit_and fm 0xf0 == 0)
  position ← optional (has fm 1) read_vec2 p.motion.position
  aim ← optional (has fm 2) get_u16 p.aim_angle
  health ← optional (has fm 4) get_u8 p.health
  let q = record p {
    id = id;
    motion = record p.motion { position = position };
    aim_angle = aim;
    health = health;
  }
  out ← optional (has fm 8) (get_u8 >>= λ f. pure (unpack_player_flags f q)) q
  require_ok
  pure out

-- The loop over all slots.
unfoldable pub read_changes : ℕ → ℕ → List PlayerState → Parser (List PlayerState)
read_changes pchange i [] = pure []
read_changes pchange i (p ∷ ps) = do
  q ← optional (bit pchange i) (read_change p) p
  qs ← read_changes pchange (i + 1) ps
  pure (q ∷ qs)

-- The two bytes of a flag, if they were sent.
unfoldable pub read_flag : Parser (FlagState × ℕ)
read_flag = do
  raw ← get_u8
  carrier ← get_u8
  require_ok
  state ← accept (decode_flag_state raw)
  pure (state, carrier)

unfoldable pub read_count : Parser ℕ
read_count = do n ← get_u8; require_ok; require (leb n max_players); pure n

-- `none` leaves the caller's cache as it was.
unfoldable pub decode_delta_snapshot : ℕ → WorldSnapshot → Parser WorldSnapshot
decode_delta_snapshot tick cache = do
  seq ← get_u32
  ago ← get_u8
  hm ← get_u8
  require_ok
  require (bit_and hm 0xc0 == 0)
  require (leb ago tick)
  require (cache.tick == tick - ago)
  score_red ← optional (has hm 1) get_u8 cache.score_red
  score_blue ← optional (has hm 2) get_u8 cache.score_blue
  seconds ← optional (has hm 4) get_u16 cache.seconds_remaining
  red ← optional (has hm 8) read_flag (cache.flag_state_red, cache.flag_carrier_red)
  blue ← optional (has hm 16) read_flag (cache.flag_state_blue, cache.flag_carrier_blue)
  n ← optional (has hm 32) read_count cache.player_count
  pchange ← get_u16
  require_ok
  require (ltb pchange (2 ^ max_players))
  players ← read_changes pchange 0 cache.players
  pure (record {
    tick = tick;
    last_input_seq = seq;
    player_count = n;
    flag_carrier_red = red.1;
    flag_carrier_blue = blue.1;
    flag_state_red = red.0;
    flag_state_blue = blue.0;
    score_red = score_red;
    score_blue = score_blue;
    seconds_remaining = seconds;
    players = players;
  })
