-- ===== src/ByteBuffer/Encodes.antt =====
-- What a writer's operations do in terms of the bytes written: they append, or fail for good.
use native.Mathlib.Numerals.{add-one}
use networked_capture_the_fl.Prelude.{
  ℕ, ◌+◌, ◌/◌, ◌%◌, ◌≤◌, ◌<◌, ◌≡◌, refl, sym, ap, subst, ◌∙◌, Bool, true, false, ◌||◌, List, [],
  ◌∷◌, ◌++◌, append_assoc, append-nil, ltb, if◌then◌else◌, length, length-append, length-set,
  take-set, arith, ℤ, to_bits, lt→ltb, not_ltb, dec_le,
}
use networked_capture_the_fl.ByteBuffer.{
  Writer, cap, written, store, put_u8, put_u16, put_u32, put_i16, ◌⨾◌, nothing,
}

-- The outcome of a successful write of `bs`.
pub record Appends (w : Writer) (bs : List ℕ) (w' : Writer) : Type 0 where
  pub fine : w'.overflow ≡ false
  pub same_cap : cap w' ≡ cap w
  pub moved : w'.pos ≡ w.pos + length bs
  pub bytes : written w' ≡ written w ++ bs

-- `e` appends `bs` if they fit, sets the overflow flag if they do not, and does nothing once the
-- flag is set.
pub record Encodes (e : Writer → Writer) (bs : List ℕ) : Type 0 where
  pub fits : (w : Writer) → w.overflow ≡ false → w.pos + length bs ≤ cap w → Appends w bs (e w)
  pub overflows :
      (w : Writer)
      → w.overflow ≡ false
      → w.pos ≤ cap w
      → cap w < w.pos + length bs
      → (e w).overflow ≡ true
  pub sticky : (w : Writer) → w.overflow ≡ true → e w ≡ w

store-Appends :
    (w : Writer) (v : ℕ) → w.overflow ≡ false → w.pos < cap w → Appends w (v ∷ []) (store v w)
store-Appends w v o h = record {
  fine = o;
  same_cap = length-set w.buf w.pos v;
  moved = refl;
  bytes = rw add-one (take-set w.buf w.pos v h);
}

Appends-trans :
    {u v w : Writer} {bs cs : List ℕ} → Appends u bs v → Appends v cs w → Appends u (bs ++ cs) w
Appends-trans {u} {v} {w} {bs} {cs} a b = record {
  fine = b.fine;
  same_cap = b.same_cap ∙ a.same_cap;
  moved = omega (arith, a.moved, b.moved, length-append bs cs);
  bytes = b.bytes ∙ ap (λ xs. xs ++ cs) a.bytes ∙ append_assoc (written u) bs cs;
}

-- The guard of every write: `if (overflow_ || pos_ + n > cap_) { overflow_ = true; return; }`.
abbrev guarded : ℕ → (Writer → Writer) → Writer → Writer
guarded n f w = if w.overflow || ltb (cap w) (w.pos + n) then record w { overflow = true } else f w

pick_first {ℓ} : {A : Type ℓ} (b c : Bool) (x y : A) → b ≡ true → (if b || c then x else y) ≡ x
pick_first b c x y h = rw h refl

pick_second {ℓ} :
    {A : Type ℓ} (b c : Bool) (x y : A) → b ≡ false → c ≡ true → (if b || c then x else y) ≡ x
pick_second b c x y h k = rw (h, k) refl

pick_else {ℓ} :
    {A : Type ℓ} (b c : Bool) (x y : A) → b ≡ false → c ≡ false → (if b || c then x else y) ≡ y
pick_else b c x y h k = rw (h, k) refl

with_flag : (w : Writer) → w.overflow ≡ true → record w { overflow = true } ≡ w
with_flag w h = λ i. record w { overflow = sym h i }

-- A guarded write of as many bytes as its guard asks for.
guarded-Encodes :
    (n : ℕ) (f : Writer → Writer) (bs : List ℕ)
    → length bs ≡ n
    → ((w : Writer) → w.overflow ≡ false → w.pos + n ≤ cap w → Appends w bs (f w))
    → Encodes (guarded n f) bs
guarded-Encodes n f bs e go = record {
  fits = λ w o h.
      subst (Appends w bs)
        (sym (pick_else w.overflow _ _ _ o (not_ltb (cap w) (w.pos + n) (omega arith))))
        (go w o (omega arith));
  overflows = λ w o p h.
      ap (λ (v : Writer). v.overflow)
        (pick_second w.overflow _ _ _ o (lt→ltb (cap w) (w.pos + n) (omega arith)));
  sticky = λ w o. pick_first w.overflow _ _ _ o ∙ with_flag w o;
}

pub u8-Encodes : (v : ℕ) → Encodes (put_u8 v) (v ∷ [])
unfolding put_u8
u8-Encodes v = guarded-Encodes 1 _ (v ∷ []) refl (λ w o h. store-Appends w v o (omega arith))

-- The two bytes of a `u16`, high byte first, and the four of a `u32`.
abbrev pub bytes_u16 : ℕ → List ℕ
bytes_u16 v = v / 256 % 256 ∷ v % 256 ∷ []

abbrev pub bytes_u32 : ℕ → List ℕ
bytes_u32 v = v / 16777216 % 256 ∷ v / 65536 % 256 ∷ v / 256 % 256 ∷ v % 256 ∷ []

store2-Appends :
    (w : Writer) (a b : ℕ)
    → w.overflow ≡ false
    → w.pos + 2 ≤ cap w
    → Appends w (a ∷ b ∷ []) (store b (store a w))
store2-Appends w a b o h =
    let first = store-Appends w a o (omega arith) in
    Appends-trans first (store-Appends (store a w) b o (omega (arith, first.same_cap, first.moved)))

pub u16-Encodes : (v : ℕ) → Encodes (put_u16 v) (bytes_u16 v)
unfolding put_u16
u16-Encodes v =
    guarded-Encodes 2 _ (bytes_u16 v) refl (λ w o h. store2-Appends w (v / 256 % 256) (v % 256) o h)

store4-Appends :
    (w : Writer) (a b c d : ℕ)
    → w.overflow ≡ false
    → w.pos + 4 ≤ cap w
    → Appends w (a ∷ b ∷ c ∷ d ∷ []) (store d (store c (store b (store a w))))
store4-Appends w a b c d o h =
    let first = store2-Appends w a b o (omega arith) in
    Appends-trans first
      (store2-Appends (store b (store a w)) c d o (omega (arith, first.same_cap, first.moved)))

pub u32-Encodes : (v : ℕ) → Encodes (put_u32 v) (bytes_u32 v)
unfolding put_u32
u32-Encodes v =
    guarded-Encodes 4 _ (bytes_u32 v) refl (λ w o h.
      store4-Appends w (v / 16777216 % 256) (v / 65536 % 256) (v / 256 % 256) (v % 256) o h)

pub i16-Encodes : (v : ℤ) → Encodes (put_i16 v) (bytes_u16 (to_bits 16 v))
unfolding put_i16
i16-Encodes v = u16-Encodes (to_bits 16 v)

pub nothing-Encodes : Encodes nothing []
nothing-Encodes = record {
  fits = λ w o h. record {
    fine = o;
    same_cap = refl;
    moved = omega arith;
    bytes = sym (append-nil (written w));
  };
  overflows = λ w o p h. absurd (omega arith);
  sticky = λ w o. refl;
}

infixr 6 ◌▹◌
pub ◌▹◌ :
    {e f : Writer → Writer} {bs cs : List ℕ}
    → Encodes e bs
    → Encodes f cs
    → Encodes (e ⨾ f) (bs ++ cs)
unfolding ◌⨾◌
◌▹◌ {e} {f} {bs} {cs} E F = record {
  fits = λ w o h.
      let first = E.fits w o (omega (arith, length-append bs cs)) in
      Appends-trans first
        (F.fits (e w) first.fine (omega (arith, first.moved, first.same_cap, length-append bs cs)));
  overflows = λ w o p h. elim (dec_le (w.pos + length bs) (cap w)) [
    | yes le ↦
        let first = E.fits w o le in
        F.overflows (e w) first.fine (omega (arith, first.moved, first.same_cap))
          (omega (arith, first.moved, first.same_cap, length-append bs cs))
    | no gt ↦ let full = E.overflows w o p (omega arith) in rw (F.sticky (e w) full) full
  ];
  sticky = λ w o. rw (E.sticky w o) (F.sticky w o);
}
