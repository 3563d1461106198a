-- ===== src/RingBuffer/Slots.antt =====
-- The slots of a ring that a write reaches, and those that it leaves alone.
use networked_capture_the_fl.Prelude.{
  map, map-get_or, length, get_or, set, get_or-set_ne, ℕ, zero, suc, ◌+◌, ◌-◌, ◌%◌, ◌≤◌, ◌<◌, ◌≡◌,
  refl, sym, ap, ap₂, ◌∙◌, ◌≢◌, ◌⊎◌, inl, inr, List, [], ◌∷◌, ◌++◌, map, arith, dec_lt,
}
use networked_capture_the_fl.RingBuffer.{slots}
use native.Mathlib.Nat.{mod-eq_of_lt, mod-eq-sub-mod, mod-add-mod}

-- An index below twice the capacity.
pub wrap : (c i : ℕ) → i < c + c → ((i < c) × (i % c ≡ i)) ⊎ ((c ≤ i) × (i % c ≡ i - c))
wrap c i h = elim (dec_lt i c) [
  | yes k ↦ inl (k, mod-eq_of_lt k)
  | no k ↦ inr (omega arith, mod-eq-sub-mod (omega arith) ∙ mod-eq_of_lt (omega arith))
]

-- Positions less than the capacity apart are different slots.
pub apart : (c h i j : ℕ) → h < c → i < j → j < h + c → h ≤ i → i % c ≢ j % c
apart c h i j k lt near lo = λ e. elim (wrap c i (omega arith)) [
  | inl (a, p) ↦ elim (wrap c j (omega arith)) [
    | inl (b, q) ↦ omega arith
    | inr (b, q) ↦ omega arith
  ]
  | inr (a, p) ↦ elim (wrap c j (omega arith)) [
    | inl (b, q) ↦ omega arith
    | inr (b, q) ↦ omega arith
  ]
]

module _ {ℓ} {T : Type ℓ} (c : ℕ) (d : T) where
  -- A write to none of the slots.
  pub slots-set_other :
      (data_ : List T) (n start j : ℕ) (v : T)
      → ((k : ℕ) → k < n → j ≢ (start + k) % c)
      → slots c d (set data_ j v) n start ≡ slots c d data_ n start
  slots-set_other data_ zero start j v h = refl
  slots-set_other data_ (suc n) start j v h =
      ap₂ (λ x xs. x ∷ xs)
        (get_or-set_ne data_ j (start % c) v d
          (λ e. h 0 (omega arith) (e ∙ ap (λ s. s % c) (omega arith))))
        (slots-set_other data_ n (start + 1) j v
          (λ k l e. h (k + 1) (omega arith) (e ∙ ap (λ s. s % c) (omega arith))))

  pub slots-snoc :
      (data_ : List T) (n start : ℕ)
      → slots c d data_ (suc n) start
        ≡ slots c d data_ n start ++ get_or data_ ((start + n) % c) d ∷ []
  slots-snoc data_ zero start = ap (λ s. get_or data_ (s % c) d ∷ []) (omega arith)
  slots-snoc data_ (suc n) start =
      ap (λ xs. get_or data_ (start % c) d ∷ xs)
        (slots-snoc data_ n (start + 1)
          ∙ ap (λ s. slots c d data_ n (start + 1) ++ get_or data_ (s % c) d ∷ []) (omega arith))

  pub slots-cong :
      (data_ : List T) (n s t : ℕ) → s % c ≡ t % c → slots c d data_ n s ≡ slots c d data_ n t
  slots-cong data_ zero s t h = refl
  slots-cong data_ (suc n) s t h =
      ap₂ (λ k xs. get_or data_ k d ∷ xs) h
        (slots-cong data_ n (s + 1) (t + 1)
          (sym (mod-add-mod s c 1) ∙ ap (λ k. (k + 1) % c) h ∙ mod-add-mod t c 1))

  pub length-slots : (data_ : List T) (n start : ℕ) → length (slots c d data_ n start) ≡ n
  length-slots data_ zero start = refl
  length-slots data_ (suc n) start = ap suc (length-slots data_ n (start + 1))

pub map-slots {ℓ κ} :
    {A : Type ℓ} {B : Type κ} (f : A → B) (c : ℕ) (d : A) (data_ : List A) (n start : ℕ)
    → map f (slots c d data_ n start) ≡ slots c (f d) (map f data_) n start
map-slots f c d data_ zero start = refl
map-slots f c d data_ (suc n) start =
    ap₂ (λ x xs. x ∷ xs) (map-get_or f data_ (start % c) d) (map-slots f c d data_ n (start + 1))
