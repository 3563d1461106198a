-- ===== src/Protocol/Slots.antt =====
-- shared/protocol.cpp, the loops over the fixed arrays of a message: `for (i = 0; i < n; ++i)` over
-- the slots of an array in their order. Parallel arrays of one message (`ids[i]`, `names[i]`) are
-- one list of entries here.
use networked_capture_the_fl.Prelude.{
  ℕ, zero, suc, ◌*◌, ◌≤◌, ◌<◌, ◌≡◌, refl, ap, List, [], ◌∷◌, length, get_or, All, arith,
}
use networked_capture_the_fl.ByteBuffer.{Writer, ◌⨾◌, nothing, Parser, ◌>>=◌, pure}
use networked_capture_the_fl.ByteBuffer.Codec.{
  Codec, nothing-Codec, pure-Silent, Codec-size, field, last,
}

module _ {A : Type 0} where
  -- A loop that leaves the array ends there: the callers' counts never do.
  unfoldable pub write_slots : (A → Writer → Writer) → ℕ → List A → Writer → Writer
  write_slots put zero xs = nothing
  write_slots put (suc n) [] = nothing
  write_slots put (suc n) (x ∷ xs) = put x ⨾ write_slots put n xs

  unfoldable pub read_slots : (A → Parser A) → ℕ → List A → Parser (List A)
  read_slots get zero xs = pure xs
  read_slots get (suc n) [] = pure []
  read_slots get (suc n) (x ∷ xs) = do y ← get x; ys ← read_slots get n xs; pure (y ∷ ys)

  -- The first `n` slots of `dst` replaced by what `f` makes of those of `src`.
  abbrev pub overlay : (A → A) → ℕ → List A → List A → List A
  overlay f zero src dst = dst
  overlay f (suc n) [] dst = dst
  overlay f (suc n) (s ∷ src) [] = []
  overlay f (suc n) (s ∷ src) (d ∷ dst) = f s ∷ overlay f n src dst

  pub slots-Codec :
      (put : A → Writer → Writer) (get : A → Parser A) (f : A → A) (P : A → Type 0) (k : ℕ)
      → ((s d : A) → P s → Codec (put s) (get d) k (f s))
      → (n : ℕ) (src dst : List A) → n ≤ length src
      → n ≤ length dst
      → All P src
      → Codec (write_slots put n src) (read_slots get n dst) (n * k) (overlay f n src dst)
  unfolding write_slots read_slots
  slots-Codec put get f P k one zero src dst hs hd ok =
      Codec-size (omega arith) (nothing-Codec (pure-Silent dst))
  slots-Codec put get f P k one (suc n) [] dst hs hd ok = absurd (omega arith)
  slots-Codec put get f P k one (suc n) (s ∷ src) [] hs hd ok = absurd (omega arith)
  slots-Codec put get f P k one (suc n) (s ∷ src) (d ∷ dst) hs hd ok = Codec-size (omega arith) (
      field _ (one s d ok.0) (
        last _ (slots-Codec put get f P k one n src dst (omega arith) (omega arith) ok.1)
          (pure-Silent _)))

  -- What the receiver finds in a slot that was sent.
  pub get_or-overlay :
      (f : A → A) (n : ℕ) (src dst : List A) (i : ℕ) (d e : A)
      → i < n
      → n ≤ length src
      → n ≤ length dst
      → get_or (overlay f n src dst) i d ≡ f (get_or src i e)
  get_or-overlay f zero src dst i d e h hs hd = absurd (omega arith)
  get_or-overlay f (suc n) [] dst i d e h hs hd = absurd (omega arith)
  get_or-overlay f (suc n) (s ∷ src) [] i d e h hs hd = absurd (omega arith)
  get_or-overlay f (suc n) (s ∷ src) (t ∷ dst) zero d e h hs hd = refl
  get_or-overlay f (suc n) (s ∷ src) (t ∷ dst) (suc i) d e h hs hd =
      get_or-overlay f n src dst i d e (omega arith) (omega arith) (omega arith)

  pub length-overlay :
      (f : A → A) (n : ℕ) (src dst : List A) → length (overlay f n src dst) ≡ length dst
  length-overlay f zero src dst = refl
  length-overlay f (suc n) [] dst = refl
  length-overlay f (suc n) (s ∷ src) [] = refl
  length-overlay f (suc n) (s ∷ src) (d ∷ dst) = ap suc (length-overlay f n src dst)
