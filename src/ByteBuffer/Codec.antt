-- ===== src/ByteBuffer/Codec.antt =====
-- An encoder and a decoder that fit together: what the one writes for a value, the other reads back.
use networked_capture_the_fl.Prelude.{
  ℕ, ◌+◌, ◌≤◌, ◌<◌, ◌^◌, ◌≡◌, refl, sym, ap, subst, ◌∙◌, Bool, true, false, List, [], ◌∷◌, ◌++◌,
  Option, some, if◌then◌else◌, append-nil, zero, suc, drop, length, length-append, arith, ℤ,
  to_bits, of_bits,
}
use networked_capture_the_fl.ByteBuffer.{
  Writer, writer, written, put_u8, put_u16, put_u32, put_i16, ◌⨾◌, nothing, reader, Parser, get_u8,
  get_u16, get_u32, get_i16, ◌>>=◌, pure, require, require_ok, accept,
}
use networked_capture_the_fl.ByteBuffer.Encodes
use networked_capture_the_fl.ByteBuffer.Encodes.{Encodes, bytes_u16, bytes_u32, ◌▹◌}
use networked_capture_the_fl.ByteBuffer.Parses
use networked_capture_the_fl.ByteBuffer.Parses.{Parses, Ahead}

-- `e` writes exactly `n` bytes, and `p` reads `a` from them.
pub record Codec {ℓ} {A : Type ℓ} (e : Writer → Writer) (p : Parser A) (n : ℕ) (a : A)
    : Type ℓ where
  pub bytes : List ℕ
  pub size : length bytes ≡ n
  pub encodes : Encodes e bytes
  pub parses : Parses p bytes a

-- `p` returns `a` without reading.
pub record Silent {ℓ} {A : Type ℓ} (p : Parser A) (a : A) : Type ℓ where
  pub parses : Parses p [] a

pub u8-Codec : (v : ℕ) → Codec (put_u8 v) get_u8 1 v
u8-Codec v = record {
  bytes = v ∷ [];
  size = refl;
  encodes = Encodes.u8-Encodes v;
  parses = Parses.u8-Parses v;
}

pub u16-Codec : (v : ℕ) → v < 2 ^ 16 → Codec (put_u16 v) get_u16 2 v
u16-Codec v h = record {
  bytes = bytes_u16 v;
  size = refl;
  encodes = Encodes.u16-Encodes v;
  parses = Parses.u16-Parses v h;
}

pub u32-Codec : (v : ℕ) → v < 2 ^ 32 → Codec (put_u32 v) get_u32 4 v
u32-Codec v h = record {
  bytes = bytes_u32 v;
  size = refl;
  encodes = Encodes.u32-Encodes v;
  parses = Parses.u32-Parses v h;
}

pub i16-Codec : (z : ℤ) → Codec (put_i16 z) get_i16 2 (of_bits 16 (to_bits 16 z))
i16-Codec z = record {
  bytes = bytes_u16 (to_bits 16 z);
  size = refl;
  encodes = Encodes.i16-Encodes z;
  parses = Parses.i16-Parses z;
}

module _ {ℓ} {A : Type ℓ} where
  pub pure-Silent : (a : A) → Silent (pure a) a
  pure-Silent a = record { parses = Parses.pure-Parses a }

  -- The decoder's result, by an equation.
  pub returns : {a : A} (b : A) → b ≡ a → Silent (pure b) a
  returns b h = subst (Silent (pure b)) h (pure-Silent b)

  pub accept-Silent : {o : Option A} (a : A) → o ≡ some a → Silent (accept o) a
  accept-Silent a h = record { parses = Parses.accept-Parses a h }

  pub nothing-Codec : {p : Parser A} {a : A} → Silent p a → Codec nothing p 0 a
  nothing-Codec s = record {
    bytes = [];
    size = refl;
    encodes = Encodes.nothing-Encodes;
    parses = s.parses;
  }

  pub Codec-size :
      {e : Writer → Writer} {p : Parser A} {n m : ℕ} {a : A} → n ≡ m → Codec e p n a → Codec e p m a
  Codec-size h c = record {
    bytes = c.bytes;
    size = c.size ∙ h;
    encodes = c.encodes;
    parses = c.parses;
  }

pub require-Silent : (b : Bool) → b ≡ true → Silent (require b) tt
require-Silent b h = record { parses = Parses.require-Parses b h }

pub require_ok-Silent : Silent require_ok tt
require_ok-Silent = record { parses = Parses.require_ok-Parses }

module _ {ℓ κ} {A : Type ℓ} {B : Type κ} {p : Parser A} (k : A → Parser B) {a : A} {b : B} where
  -- A field behind a field.
  pub field :
      {e f : Writer → Writer} {n m : ℕ}
      → Codec e p n a
      → Codec f (k a) m b
      → Codec (e ⨾ f) (p >>= k) (n + m) b
  field c d = record {
    bytes = c.bytes ++ d.bytes;
    size = omega (arith, length-append c.bytes d.bytes, c.size, d.size);
    encodes = c.encodes ▹ d.encodes;
    parses = Parses.>>=-Parses k c.parses d.parses;
  }

  -- The last field, and what the decoder does behind it.
  pub last : {e : Writer → Writer} {n : ℕ} → Codec e p n a → Silent (k a) b → Codec e (p >>= k) n b
  last {e} c s = record {
    bytes = c.bytes;
    size = c.size;
    encodes = c.encodes;
    parses =
        subst (λ bs. Parses (p >>= k) bs b) (append-nil c.bytes)
          (Parses.>>=-Parses k c.parses s.parses);
  }

  -- A check between two fields.
  pub check : {e : Writer → Writer} {n : ℕ} → Silent p a → Codec e (k a) n b → Codec e (p >>= k) n b
  check s c = record {
    bytes = c.bytes;
    size = c.size;
    encodes = c.encodes;
    parses = Parses.>>=-Parses k s.parses c.parses;
  }

  pub checks : Silent p a → Silent (k a) b → Silent (p >>= k) b
  checks s t = record { parses = Parses.>>=-Parses k s.parses t.parses }

-- A field that is written and read under the same test; unsent, it keeps what it held.
pub optional-Codec {ℓ} :
    {A : Type ℓ} {e : Writer → Writer} {p : Parser A} {n : ℕ} {a : A} (b : Bool) (old : A)
    → (b ≡ true → Codec e p n a)
    → (b ≡ false → old ≡ a)
    → Codec (if b then e else nothing) (if b then p else pure old) (if b then n else 0) a
optional-Codec true old sent kept = sent refl
optional-Codec false old sent kept = nothing-Codec (returns old (kept refl))

-- Into a buffer of `n` bytes or more the encoder writes `n` bytes and does not fail, and what the
-- decoder reads in exactly those bytes is `a`.
pub round_trip {ℓ} :
    {A : Type ℓ} {e : Writer → Writer} {p : Parser A} {n : ℕ} {a : A}
    → Codec e p n a
    → (buf : List ℕ) → n ≤ length buf
    → ((e (writer buf)).overflow ≡ false)
      × ((e (writer buf)).pos ≡ n)
      × ((p (reader (written (e (writer buf))))).0 ≡ some a)
round_trip {e = e} {p = p} c buf h =
    let out = c.encodes.fits (writer buf) refl (omega (arith, c.size)) in
    let back =
      c.parses.run (reader c.bytes) [] (record { fine = refl; rest = sym (append-nil c.bytes) }) in
    (
      out.fine,
      omega (arith, out.moved, c.size),
      ap (λ bs. (p (reader bs)).0) out.bytes ∙ ap (λ r. r.0) back.1,
    )

-- The decoder ends with a reader that has not failed.
pub reader_fine {ℓ} :
    {A : Type ℓ} {e : Writer → Writer} {p : Parser A} {n : ℕ} {a : A}
    → Codec e p n a
    → (buf : List ℕ) → n ≤ length buf
    → (p (reader (written (e (writer buf))))).1.underflow ≡ false
reader_fine {e = e} {p = p} c buf h =
    let out = c.encodes.fits (writer buf) refl (omega (arith, c.size)) in
    let back =
      c.parses.run (reader c.bytes) [] (record { fine = refl; rest = sym (append-nil c.bytes) }) in
    ap (λ bs. (p (reader bs)).1.underflow) out.bytes ∙ ap (λ r. r.1.underflow) back.1 ∙ back.2.fine

pub written_size {ℓ} :
    {A : Type ℓ} {e : Writer → Writer} {p : Parser A} {n : ℕ} {a : A}
    → Codec e p n a
    → (buf : List ℕ) → n ≤ length buf
    → length (written (e (writer buf))) ≡ n
written_size c buf h =
    ap length (c.encodes.fits (writer buf) refl (omega (arith, c.size))).bytes ∙ c.size

-- Into a smaller buffer it reports the overflow.
pub too_small {ℓ} :
    {A : Type ℓ} {e : Writer → Writer} {p : Parser A} {n : ℕ} {a : A}
    → Codec e p n a
    → (buf : List ℕ) → length buf < n
    → (e (writer buf)).overflow ≡ true
too_small c buf h = c.encodes.overflows (writer buf) refl (omega arith) (omega (arith, c.size))

-- What follows a prefix of `n` bytes.
pub drop-append {ℓ} : {A : Type ℓ} (xs ys : List A) (n : ℕ) → length xs ≡ n → drop n (xs ++ ys) ≡ ys
drop-append [] ys zero h = refl
drop-append [] ys (suc n) h = absurd (omega arith)
drop-append (x ∷ xs) ys zero h = absurd (omega arith)
drop-append (x ∷ xs) ys (suc n) h = drop-append xs ys n (omega arith)
