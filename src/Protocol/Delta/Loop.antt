-- ===== src/Protocol/Delta/Loop.antt =====
-- The two loops over the slots of a delta (shared/protocol.cpp): the decoder finds the records of
-- the slots that the encoder marked.
use networked_capture_the_fl.Prelude.{
  ℕ, zero, suc, ◌+◌, ◌*◌, ◌/◌, ◌%◌, ◌^◌, ◌<◌, ◌≤◌, ◌≡◌, sym, ap, ◌∙◌, Bool, true, false, ◌||◌, List,
  [], ◌∷◌, if◌then◌else◌, ◌==◌, length, All, or_left, or_right, not-false, ==_iff, arith,
}
use native.Mathlib.Nat.{pow-suc, div-div-eq-div-mul}
use native.Mathlib.Numerals.{add-one}
use networked_capture_the_fl.GameTypes.{no_vec, PlayerState}
use networked_capture_the_fl.ByteBuffer.Codec.{
  Codec, Silent, nothing-Codec, pure-Silent, field, last, checks, optional-Codec,
}
use networked_capture_the_fl.Protocol.Fields.{unpack-pack, unpack_player_flags}
use networked_capture_the_fl.Protocol.Snapshot.Laws.{wire_player, IsWirePlayer}
use networked_capture_the_fl.Protocol.Slots.{overlay}
use networked_capture_the_fl.Protocol.Delta.{
  bit, change_bits, player_differs, write_changes, read_changes,
}
use networked_capture_the_fl.Protocol.Delta.Slot.{
  change_size, change_size-le, change-Codec, wire_pos_eq-wire_vec,
}

-- `pchange` as a number: the tests of the slots, the first in the lowest bit.
abbrev pub tests_mask : Bool → ℕ → List PlayerState → List PlayerState → ℕ
tests_mask full zero cs bs = 0
tests_mask full (suc n) [] bs = 0
tests_mask full (suc n) (c ∷ cs) [] = 0
tests_mask full (suc n) (c ∷ cs) (b ∷ bs) =
    (if full || player_differs c b then 1 else 0) + 2 * tests_mask full n cs bs

pow_next : (i : ℕ) → 2 ^ (i + 1) ≡ 2 * 2 ^ i
pow_next i = rw add-one (omega (arith, pow-suc 2 i))

pow_pos : (i : ℕ) → 0 < 2 ^ i
pow_pos zero = omega arith
pow_pos (suc i) = omega (arith, pow-suc 2 i, pow_pos i)

add_bit :
    (t : Bool) (acc p m : ℕ)
    → (if t then acc + p else acc) + 2 * p * m ≡ acc + p * ((if t then 1 else 0) + 2 * m)
add_bit true acc p m = omega arith
add_bit false acc p m = omega arith

-- The bits that the encoder collects are the tests, from its start bit on.
change_bits-tests_mask :
    (full : Bool) (n i : ℕ) (cs bs : List PlayerState) (acc : ℕ)
    → change_bits full n i cs bs acc ≡ acc + 2 ^ i * tests_mask full n cs bs
unfolding change_bits
change_bits-tests_mask full zero i cs bs acc = omega arith
change_bits-tests_mask full (suc n) i [] bs acc = omega arith
change_bits-tests_mask full (suc n) i (c ∷ cs) [] acc = omega arith
change_bits-tests_mask full (suc n) i (c ∷ cs) (b ∷ bs) acc =
    change_bits-tests_mask full n (i + 1) cs bs now
    ∙ ap (λ k. now + k * tests_mask full n cs bs) (pow_next i)
    ∙ add_bit (full || player_differs c b) acc (2 ^ i) (tests_mask full n cs bs)
  where
    now : ℕ
    now = if full || player_differs c b then acc + 2 ^ i else acc

pub pchange-tests_mask :
    (full : Bool) (n : ℕ) (cs bs : List PlayerState)
    → change_bits full n 0 cs bs 0 ≡ tests_mask full n cs bs
pchange-tests_mask full n cs bs = change_bits-tests_mask full n 0 cs bs 0 ∙ omega arith

bit-lt : (t : Bool) (m p : ℕ) → m < p → (if t then 1 else 0) + 2 * m < 2 * p
bit-lt true m p h = omega arith
bit-lt false m p h = omega arith

pub tests_mask-lt :
    (full : Bool) (n k : ℕ) (cs bs : List PlayerState) → n ≤ k → tests_mask full n cs bs < 2 ^ k
tests_mask-lt full zero k cs bs h = pow_pos k
tests_mask-lt full (suc n) k [] bs h = pow_pos k
tests_mask-lt full (suc n) k (c ∷ cs) [] h = pow_pos k
tests_mask-lt full (suc n) zero (c ∷ cs) (b ∷ bs) h = absurd (omega arith)
tests_mask-lt full (suc n) (suc k) (c ∷ cs) (b ∷ bs) h = omega (
  arith,
  pow-suc 2 k,
  bit-lt (full || player_differs c b) (tests_mask full n cs bs) (2 ^ k)
      (tests_mask-lt full n k cs bs (omega arith)),
)

-- The lowest bit of a mask, and the bits above it.
low_bit : (t : Bool) (x m : ℕ) → x ≡ (if t then 1 else 0) + 2 * m → ((x % 2 == 1) ≡ t) × (x / 2 ≡ m)
low_bit true x m h = ground arith
low_bit false x m h = ground arith

shift_next : (m i : ℕ) → m / 2 ^ (i + 1) ≡ m / 2 ^ i / 2
shift_next m i = ap (λ k. m / k) (pow_next i ∙ omega arith) ∙ sym (div-div-eq-div-mul m (2 ^ i) 2)

-- Two players that do not differ arrive as the same player.
same_on_wire : (c b : PlayerState) → player_differs c b ≡ false → wire_player b ≡ wire_player c
unfolding player_differs
same_on_wire c b h =
    let h4 = or_left _ _ h in
    let h3 = or_left _ _ h4 in
    let h2 = or_left _ _ h3 in
    let ids = sym ((==_iff c.id b.id).0 (not-false _ (or_left _ _ h2))) in
    let places =
      sym (
        wire_pos_eq-wire_vec c.motion.position b.motion.position (not-false _ (or_right _ _ h2))) in
    let aims = sym ((==_iff c.aim_angle b.aim_angle).0 (not-false _ (or_right _ _ h3))) in
    let healths = sym ((==_iff c.health b.health).0 (not-false _ (or_right _ _ h4))) in
    let packs = sym ((==_iff _ _).0 (not-false _ (or_right _ _ h))) in
    (λ i. record b {
      id = ids i;
      motion = record { position = places i; velocity = no_vec };
      aim_angle = aims i;
      health = healths i;
    })
    ∙ sym (unpack-pack b (wire_player c))
    ∙ ap (λ f. unpack_player_flags f (wire_player c)) packs
    ∙ unpack-pack c (wire_player c)

-- What the cache must hold of a baseline's slots, unless every slot is sent in full.
abbrev pub Synced : Bool → ℕ → List PlayerState → List PlayerState → Type 0
Synced full zero bs ds = Unit
Synced full (suc n) [] ds = Unit
Synced full (suc n) (b ∷ bs) [] = Unit
Synced full (suc n) (b ∷ bs) (d ∷ ds) = (full ≡ false → d ≡ wire_player b) × Synced full n bs ds

-- The receiver never holds a velocity.
abbrev pub IsStill : PlayerState → Type 0
IsStill d = d.motion.velocity ≡ no_vec

unmarked-Silent :
    (pchange i : ℕ) (ds : List PlayerState)
    → pchange / 2 ^ i ≡ 0
    → Silent (read_changes pchange i ds) ds
unfolding read_changes
unmarked-Silent pchange i [] h = pure-Silent []
unmarked-Silent pchange i (d ∷ ds) h = rw h (
    checks _ (pure-Silent d) (
      checks _ (unmarked-Silent pchange (i + 1) ds (shift_next pchange i ∙ ap (λ k. k / 2) h))
        (pure-Silent _)))

-- The size of the records of a delta.
abbrev pub changes_size : Bool → ℕ → ℕ → ℕ → List PlayerState → List PlayerState → ℕ
changes_size full pchange zero i cs bs = 0
changes_size full pchange (suc n) i [] bs = 0
changes_size full pchange (suc n) i (c ∷ cs) [] = 0
changes_size full pchange (suc n) i (c ∷ cs) (b ∷ bs) =
    (if bit pchange i then change_size full c b else 0) + changes_size full pchange n (i + 1) cs bs

slot-le : (t : Bool) (k m n : ℕ) → k ≤ 10 → m ≤ n * 10 → (if t then k else 0) + m ≤ suc n * 10
slot-le t k m n hk hm = ground arith

pub changes_size-le :
    (full : Bool) (pchange n i : ℕ) (cs bs : List PlayerState)
    → changes_size full pchange n i cs bs ≤ n * 10
changes_size-le full pchange zero i cs bs = omega arith
changes_size-le full pchange (suc n) i [] bs = omega arith
changes_size-le full pchange (suc n) i (c ∷ cs) [] = omega arith
changes_size-le full pchange (suc n) i (c ∷ cs) (b ∷ bs) =
    slot-le (bit pchange i) (change_size full c b) _ n (change_size-le full c b)
      (changes_size-le full pchange n (i + 1) cs bs)

-- With the bits of the tests, the decoder ends with the current player in each compared slot.
pub changes-Codec :
    (full : Bool) (pchange n i : ℕ) (cs bs ds : List PlayerState)
    → n ≤ length cs
    → n ≤ length bs
    → n ≤ length ds
    → All IsWirePlayer cs
    → Synced full n bs ds
    → All IsStill ds
    → pchange / 2 ^ i ≡ tests_mask full n cs bs
    → Codec
        (write_changes full pchange n i cs bs)
        (read_changes pchange i ds)
        (changes_size full pchange n i cs bs)
        (overlay wire_player n cs ds)
unfolding write_changes read_changes
changes-Codec full pchange zero i cs bs ds hc hb hd ok sy st e =
    nothing-Codec (unmarked-Silent pchange i ds e)
changes-Codec full pchange (suc n) i [] bs ds hc hb hd ok sy st e = absurd (omega arith)
changes-Codec full pchange (suc n) i (c ∷ cs) [] ds hc hb hd ok sy st e = absurd (omega arith)
changes-Codec full pchange (suc n) i (c ∷ cs) (b ∷ bs) [] hc hb hd ok sy st e = absurd (omega arith)
changes-Codec full pchange (suc n) i (c ∷ cs) (b ∷ bs) (d ∷ ds) hc hb hd ok sy st e =
    field _
      (optional-Codec (bit pchange i) d (λ _. change-Codec full c b d ok.0 sy.0 st.0) unmarked)
      (last _
        (changes-Codec full pchange n (i + 1) cs bs ds (omega arith) (omega arith) (omega arith)
          ok.1 sy.1 st.1 (shift_next pchange i ∙ low.1))
        (pure-Silent _))
  where
    low :
        (bit pchange i ≡ (full || player_differs c b))
        × (pchange / 2 ^ i / 2 ≡ tests_mask full n cs bs)
    low = low_bit (full || player_differs c b) (pchange / 2 ^ i) (tests_mask full n cs bs) e

    unmarked : bit pchange i ≡ false → d ≡ wire_player c
    unmarked h =
        let clear = sym low.0 ∙ h in
        sy.0 (or_left _ _ clear) ∙ same_on_wire c b (or_right full _ clear)
