-- ===== src/Bot/FlowField/Walks.antt =====
-- Walks over the passable tiles, of which the field of bot/flow_field.cpp gives the shortest lengths.
use networked_capture_the_fl.Prelude.{
  ℕ, suc, ◌≤◌, ◌≡◌, refl, ◌≢◌, ◌⊎◌, inl, inr, true, List, [], ◌∷◌, ◌++◌, arith,
}
use mathlib.Core.List.{Memᴰ}
use mathlib.Core.List.Memᴰ
use networked_capture_the_fl.Bot.FlowField.{
  Tile, unreachable, tile_passable, Field, cell, right_of, left_of, below, above,
}
use networked_capture_the_fl.Bot.FlowField.Cells.{Inside}

-- Tiles that share an edge.
pub data Adjacent (t u : Tile) : Type 0 where
  to_right : u ≡ right_of t → Adjacent t u
  to_left : u ≡ left_of t → Adjacent t u
  downwards : u ≡ below t → Adjacent t u
  upwards : u ≡ above t → Adjacent t u

-- A way from tile to tile through passable tiles, and the number of its steps.
pub data Walk (source : Tile) : Tile → ℕ → Type 0 where
  stand : {n : ℕ} → tile_passable source ≡ true → n ≡ 0 → Walk source source n
  stride :
      {t u : Tile} {n m : ℕ}
      → Walk source t n
      → Adjacent t u
      → tile_passable u ≡ true
      → m ≡ suc n
      → Walk source u m

-- A tile of the grid that has a distance.
pub record Reached (d : Field) (t : Tile) : Type 0 where
  pub inside : Inside t
  pub finite : cell d t ≢ unreachable

pub Memᴰ-cons : (a x : Tile) (xs : List Tile) → Memᴰ a (x ∷ xs) → (a ≡ x) ⊎ Memᴰ a xs
Memᴰ-cons a x xs = Memᴰ.cases_cons

pub Memᴰ-snoc : (a x : Tile) (xs : List Tile) → Memᴰ a (xs ++ x ∷ []) → Memᴰ a xs ⊎ (a ≡ x)
Memᴰ-snoc a x xs m = elim (Memᴰ.append_cases xs m) [
  | inl old ↦ inl old
  | inr last ↦ inr (Memᴰ.eq_of_singleton last)
]

-- The distances do not fall along the queue.
abbrev pub Sorted : Field → List Tile → Type 0
Sorted d [] = Unit
Sorted d (t ∷ q) = ((u : Tile) → Memᴰ u q → cell d t ≤ cell d u) × Sorted d q

-- A queue stays sorted in a field that agrees on it, with a tile behind that is as far as any of it.
pub Sorted-snoc :
    (d e : Field) (n : Tile) (q : List Tile)
    → ((u : Tile) → Memᴰ u q → cell e u ≡ cell d u)
    → ((u : Tile) → Memᴰ u q → cell d u ≤ cell e n)
    → Sorted d q
    → Sorted e (q ++ n ∷ [])
Sorted-snoc d e n [] same top h = (λ u m. absurd (Memᴰ.not-nil m), tt)
Sorted-snoc d e n (t ∷ q) same top h = (
  λ u m. elim (Memᴰ-snoc u n q m) [
    | inl old ↦ omega (arith, same t (Memᴰ.head refl), same u (Memᴰ.tail old), h.0 u old)
    | inr last ↦ rw last (omega (arith, same t (Memᴰ.head refl), top t (Memᴰ.head refl)))
  ],
  Sorted-snoc d e n q (λ u m. same u (Memᴰ.tail m)) (λ u m. top u (Memᴰ.tail m)) h.1,
)
