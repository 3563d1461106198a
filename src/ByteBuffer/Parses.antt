-- ===== src/ByteBuffer/Parses.antt =====
-- What a reader's operations do in terms of the bytes that lie ahead of the cursor.
use networked_capture_the_fl.Prelude.{
  ℕ, ◌+◌, ◌/◌, ◌%◌, ◌^◌, ◌≤◌, ◌<◌, ◌≡◌, refl, ap, subst, ◌∙◌, Bool, true, false, ◌||◌, List, [],
  ◌∷◌, ◌++◌, Option, none, some, append_assoc, if◌then◌else◌, not_ltb, length, drop, drop-cons,
  arith, ℤ, pos, negsuc, to_bits, of_bits,
}
use native.Mathlib.Numerals.{add-one}
use networked_capture_the_fl.ByteBuffer.{
  Reader, Parser, at, get_u8, get_u16, get_u32, get_i16, ◌>>=◌, pure, require, require_ok, accept,
}
use networked_capture_the_fl.ByteBuffer.Encodes.{bytes_u16, bytes_u32}

pub record Ahead (r : Reader) (bs : List ℕ) : Type 0 where
  pub fine : r.underflow ≡ false
  pub rest : drop r.pos r.buf ≡ bs

-- With `bs` ahead of the cursor, `p` returns `a` and consumes exactly `bs`.
pub record Parses {ℓ} {A : Type ℓ} (p : Parser A) (bs : List ℕ) (a : A) : Type ℓ where
  pub run :
      (r : Reader) (t : List ℕ)
      → Ahead r (bs ++ t)
      → (r' : Reader) × (p r ≡ (some a, r')) × Ahead r' t

-- One byte ahead of the cursor: its value, and the cursor behind it.
next :
    (r : Reader) (b : ℕ) (t : List ℕ)
    → Ahead r (b ∷ t)
    → (at r r.pos ≡ b) × (r.pos < length r.buf) × Ahead (record r { pos = r.pos + 1 }) t
next r b t h =
    let step = drop-cons r.buf r.pos 0 b t h.rest in
    (step.0, step.2, record { fine = h.fine; rest = rw add-one step.1 })

choose_else {ℓ} :
    {A : Type ℓ} (b c : Bool) (x y : A) → b ≡ false → c ≡ false → (if b || c then x else y) ≡ y
choose_else b c x y h k = rw (h, k) refl

pub u8-Parses : (b : ℕ) → Parses get_u8 (b ∷ []) b
unfolding get_u8
u8-Parses b = record {
  run = λ r t h.
      let n = next r b t h in
      (
        record r { pos = r.pos + 1 },
        choose_else r.underflow _ _ _ h.fine
              (not_ltb (length r.buf) (r.pos + 1) (omega (arith, n.1)))
            ∙ ap (λ v. (some v, record r { pos = r.pos + 1 })) n.0,
        n.2,
      );
}

next2 :
    (r : Reader) (a b : ℕ) (t : List ℕ)
    → Ahead r (a ∷ b ∷ t)
    → (at r r.pos ≡ a)
      × (at r (r.pos + 1) ≡ b)
      × (r.pos + 2 ≤ length r.buf)
      × Ahead (record r { pos = r.pos + 2 }) t
next2 r a b t h =
    let n = next r a (b ∷ t) h in
    let m = next (record r { pos = r.pos + 1 }) b t n.2 in
    (n.0, m.0, omega (arith, m.1), subst (λ k. Ahead (record r { pos = k }) t) (omega arith) m.2)

pub u16-Parses : (v : ℕ) → v < 2 ^ 16 → Parses get_u16 (bytes_u16 v) v
unfolding get_u16
u16-Parses v small = record {
  run = λ r t h.
      let n = next2 r (v / 256 % 256) (v % 256) t h in
      (
        record r { pos = r.pos + 2 },
        choose_else r.underflow _ _ _ h.fine (not_ltb (length r.buf) (r.pos + 2) (omega arith))
            ∙ ap (λ k. (some k, record r { pos = r.pos + 2 })) (omega (arith, n.0, n.1)),
        n.3,
      );
}

pub u32-Parses : (v : ℕ) → v < 2 ^ 32 → Parses get_u32 (bytes_u32 v) v
unfolding get_u32
u32-Parses v small = record {
  run = λ r t h.
      let n = next2 r (v / 16777216 % 256) (v / 65536 % 256) (v / 256 % 256 ∷ v % 256 ∷ t) h in
      let m = next2 (record r { pos = r.pos + 2 }) (v / 256 % 256) (v % 256) t n.3 in
      let third : at r (r.pos + 2) ≡ v / 256 % 256 = m.0 in
      let fourth : at r (r.pos + 3) ≡ v % 256 = ap (at r) (omega arith) ∙ m.1 in
      (
        record r { pos = r.pos + 4 },
        choose_else r.underflow _ _ _ h.fine
              (not_ltb (length r.buf) (r.pos + 4) (omega (arith, m.2)))
            ∙ ap (λ k. (some k, record r { pos = r.pos + 4 }))
                (omega (arith, n.0, n.1, third, fourth)),
        subst (λ k. Ahead (record r { pos = k }) t) (omega arith) m.3,
      );
}

pub pure-Parses {ℓ} : {A : Type ℓ} (a : A) → Parses (pure a) [] a
pure-Parses a = record { run = λ r t h. (r, refl, h) }

pub require-Parses : (b : Bool) → b ≡ true → Parses (require b) [] tt
require-Parses b e = record { run = λ r t h. (r, rw e refl, h) }

pub accept-Parses {ℓ} : {A : Type ℓ} {o : Option A} (a : A) → o ≡ some a → Parses (accept o) [] a
accept-Parses a e = record { run = λ r t h. (r, ap (λ v. (v, r)) e, h) }

require_ok_lem : (r : Reader) → r.underflow ≡ false → require_ok r ≡ (some tt, r)
require_ok_lem r h = ap (λ (b : Bool). (if b then none else some tt, r)) h

pub require_ok-Parses : Parses require_ok [] tt
require_ok-Parses = record { run = λ r t h. (r, require_ok_lem r h.fine, h) }

pub >>=-Parses {ℓ κ} :
    {A : Type ℓ} {B : Type κ} {p : Parser A} (k : A → Parser B) {bs cs : List ℕ} {a : A} {b : B}
    → Parses p bs a
    → Parses (k a) cs b
    → Parses (p >>= k) (bs ++ cs) b
unfolding ◌>>=◌
>>=-Parses k {bs} {cs} P K = record {
  run = λ r t h.
      let first =
        P.run r (cs ++ t) (record { fine = h.fine; rest = h.rest ∙ append_assoc bs cs t }) in
      let second = K.run first.0 t first.2 in
      (
        second.0,
        ap (λ s. elim s.0 [ none ↦ (none, s.1) | some x ↦ k x s.1 ]) first.1 ∙ second.1,
        second.2,
      );
}

to_bits_16-lt : (z : ℤ) → to_bits 16 z < 2 ^ 16
to_bits_16-lt (pos n) = omega arith
to_bits_16-lt (negsuc n) = omega arith

pub i16-Parses : (z : ℤ) → Parses get_i16 (bytes_u16 (to_bits 16 z)) (of_bits 16 (to_bits 16 z))
unfolding get_i16
i16-Parses z = >>=-Parses _ (u16-Parses (to_bits 16 z) (to_bits_16-lt z)) (pure-Parses _)
