-- ===== src/ByteBuffer/Bounds.antt =====
-- What decoders do with input that their encoder did not write (shared/bytebuffer.cpp).
use networked_capture_the_fl.Prelude.{◌≡◌, refl, Bool, true, false, Option, none, some}
use networked_capture_the_fl.ByteBuffer.{Reader, Parser, ◌>>=◌, require}

-- On the same input at most one of two decoders succeeds.
pub record Excludes {ℓ} {A : Type ℓ} (p q : Parser A) : Type ℓ where
  pub run : (r : Reader) (a : A) → (p r).0 ≡ some a → (q r).0 ≡ none

module _ {ℓ κ} {A : Type ℓ} {B : Type κ} where
  abbrev resume : (A → Parser B) → Option A × Reader → Option B × Reader
  resume k s = elim s.0 [ none ↦ (none, s.1) | some x ↦ k x s.1 ]

  -- Decoders that begin alike exclude one another if their continuations do.
  pub >>=-Excludes :
      (p : Parser A) (k l : A → Parser B)
      → ((x : A) → Excludes (k x) (l x))
      → Excludes (p >>= k) (p >>= l)
  unfolding ◌>>=◌
  >>=-Excludes p k l h = record { run = λ r a e. go (p r) a e }
    where
      go : (s : Option A × Reader) (a : B) → (resume k s).0 ≡ some a → (resume l s).0 ≡ none
      go (none, r') a e = refl
      go (some x, r') a e = (h x).run r' a e

pub require-Excludes {ℓ} :
    {A : Type ℓ} (b c : Bool) (k l : Unit {0} → Parser A)
    → (b ≡ true → c ≡ false)
    → Excludes (require b >>= k) (require c >>= l)
unfolding ◌>>=◌
require-Excludes true c k l h = record { run = λ r a e. rw (h refl) refl }
require-Excludes false c k l h = record { run = λ r a e. cc }
