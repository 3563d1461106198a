-- ===== src/ByteBuffer.antt =====
-- shared/bytebuffer.{h,cpp}: the cursor over a byte buffer that every message is written through
-- and read through. The pair of a pointer and a length is the list of bytes that it spans, so
-- `cap_` and `len_` are the length of `buf`; a position never exceeds it.
pub mod Encodes
pub mod Parses
pub mod Codec
pub mod Bounds
use networked_capture_the_fl.Prelude.{
  ℕ, ◌+◌, ◌*◌, ◌/◌, ◌%◌, Bool, true, false, not, ◌||◌, List, ltb, if◌then◌else◌, length, get_or,
  set, take, Option, none, some, ℤ, to_bits, of_bits,
}

pub record Writer : Type 0 where
  pub buf : List ℕ
  pub pos : ℕ
  pub overflow : Bool

abbrev pub cap : Writer → ℕ
cap w = length w.buf

-- `ByteWriter(buf, cap)` over a buffer that holds the given bytes.
abbrev pub writer : List ℕ → Writer
writer buf = record { buf = buf; pos = 0; overflow = false }

-- The `size()` bytes that have been written.
abbrev pub written : Writer → List ℕ
written w = take w.pos w.buf

-- `buf_[pos_++] = v`
abbrev pub store : ℕ → Writer → Writer
store v w = record w { buf = set w.buf w.pos v; pos = w.pos + 1 }

unfoldable pub put_u8 : ℕ → Writer → Writer
put_u8 v w =
    if w.overflow || ltb (cap w) (w.pos + 1) then record w { overflow = true } else store v w

unfoldable pub put_u16 : ℕ → Writer → Writer
put_u16 v w =
    if w.overflow || ltb (cap w) (w.pos + 2)
    then record w { overflow = true }
    else store (v % 256) (store (v / 256 % 256) w)

unfoldable pub put_u32 : ℕ → Writer → Writer
put_u32 v w =
    if w.overflow || ltb (cap w) (w.pos + 4)
    then record w { overflow = true }
    else store (v % 256)
        (store (v / 256 % 256) (store (v / 65536 % 256) (store (v / 16777216 % 256) w)))

unfoldable pub put_i16 : ℤ → Writer → Writer
put_i16 v w = put_u16 (to_bits 16 v) w

-- One write after another.
infixr 6 ◌⨾◌
unfoldable pub ◌⨾◌ : (Writer → Writer) → (Writer → Writer) → Writer → Writer
(e ⨾ f) w = f (e w)

-- The body of an encoder that writes nothing.
abbrev pub nothing : Writer → Writer
nothing w = w

pub record Reader : Type 0 where
  pub buf : List ℕ
  pub pos : ℕ
  pub underflow : Bool

-- `ByteReader(buf, len)`
abbrev pub reader : List ℕ → Reader
reader buf = record { buf = buf; pos = 0; underflow = false }

abbrev pub ok : Reader → Bool
ok r = not r.underflow

-- A decoder advances the reader; `none` is its `return false`.
abbrev pub Parser {ℓ} : Type ℓ → Type ℓ
Parser A = Reader → Option A × Reader

infixl 5 ◌>>=◌ ◌>>◌
unfoldable pub ◌>>=◌ {ℓ κ} : {A : Type ℓ} {B : Type κ} → Parser A → (A → Parser B) → Parser B
(p >>= f) r = let (a, r') = p r in elim a [ none ↦ (none, r') | some x ↦ f x r' ]

abbrev pub ◌>>◌ {ℓ} : {B : Type ℓ} → Parser (Unit {0}) → Parser B → Parser B
p >> q = p >>= λ _. q

abbrev pub pure {ℓ} : {A : Type ℓ} → A → Parser A
pure a r = (some a, r)

abbrev pub reject {ℓ} : {A : Type ℓ} → Parser A
reject r = (none, r)

-- `if (!cond) return false;`
abbrev pub require : Bool → Parser (Unit {0})
require b r = (if b then some tt else none, r)

-- `if (!r.ok()) return false;`
abbrev pub require_ok : Parser (Unit {0})
require_ok r = (if r.underflow then none else some tt, r)

-- `if (!decode_…(raw, out)) return false;`
abbrev pub accept {ℓ} : {A : Type ℓ} → Option A → Parser A
accept o r = (o, r)

-- `buf_[i]`
abbrev pub at : Reader → ℕ → ℕ
at r i = get_or r.buf i 0

unfoldable pub get_u8 : Parser ℕ
get_u8 r =
    if r.underflow || ltb (length r.buf) (r.pos + 1)
    then (some 0, record r { underflow = true })
    else (some (at r r.pos), record r { pos = r.pos + 1 })

unfoldable pub get_u16 : Parser ℕ
get_u16 r =
    if r.underflow || ltb (length r.buf) (r.pos + 2)
    then (some 0, record r { underflow = true })
    else (some (at r r.pos * 256 + at r (r.pos + 1)), record r { pos = r.pos + 2 })

unfoldable pub get_u32 : Parser ℕ
get_u32 r =
    if r.underflow || ltb (length r.buf) (r.pos + 4)
    then (some 0, record r { underflow = true })
    else (
      some (
          at r r.pos * 16777216
          + at r (r.pos + 1) * 65536
          + at r (r.pos + 2) * 256
          + at r (r.pos + 3)),
      record r { pos = r.pos + 4 },
    )

unfoldable pub get_i16 : Parser ℤ
get_i16 = get_u16 >>= λ w. pure (of_bits 16 w)
