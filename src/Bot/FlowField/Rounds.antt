-- ===== src/Bot/FlowField/Rounds.antt =====
-- The rounds of the search of bot/flow_field.cpp end with an empty queue.
use networked_capture_the_fl.Prelude.{
  ◌==◌, if◌then◌else◌, ==_iff, Bool-cases, if_false, length, length-append, ℕ, ◌+◌, ◌≡◌, refl, ◌≢◌,
  ◌⊎◌, inl, inr, true, false, not, [], ◌∷◌, ◌++◌, arith,
}
use networked_capture_the_fl.Map.{is_wall, aabb_collides}
use networked_capture_the_fl.Bot.FlowField.{
  Tile, unreachable, on_grid, center_of, tile_passable, cell, put_cell, Search, offer,
}
use networked_capture_the_fl.Bot.FlowField.Cells.{
  Inside, on_grid-Inside, IsGrid, put_cell-IsGrid, blanks, blanks-put_cell,
}

pub tile_passable-on_grid : (t : Tile) → tile_passable t ≡ true → on_grid t ≡ true
unfolding tile_passable
tile_passable-on_grid t h = elim (Bool-cases (on_grid t)) [
  | inl e ↦ e
  | inr e ↦ cc (
      if_false (on_grid t) (if is_wall t.x t.y then false else not (aabb_collides (center_of t)))
        false e)
]

pub tile_passable-Inside : (t : Tile) → tile_passable t ≡ true → Inside t
tile_passable-Inside t h = on_grid-Inside t (tile_passable-on_grid t h)

-- The search when a tile is reached.
abbrev pub reached : ℕ → Search → Tile → Search
reached next s n = record { dist = put_cell s.dist n next; queue = s.queue ++ n ∷ [] }

pub offer-cases :
    (next : ℕ) (s : Search) (n : Tile)
    → (offer next s n ≡ s) × (tile_passable n ≡ true → cell s.dist n ≢ unreachable)
      ⊎ (offer next s n ≡ reached next s n)
        × (tile_passable n ≡ true)
        × (cell s.dist n ≡ unreachable)
unfolding offer
offer-cases next s n = elim (Bool-cases (on_grid n)) [
  | inr e ↦ inl (rw e refl, λ h. cc (tile_passable-on_grid n h))
  | inl e ↦ elim (Bool-cases (cell s.dist n == unreachable)) [
    | inr f ↦ inl (rw (e, f) refl, λ h same. cc ((==_iff (cell s.dist n) unreachable).1 same))
    | inl f ↦ elim (Bool-cases (tile_passable n)) [
      | inr k ↦ inl (rw (e, f, k) refl, λ h. cc)
      | inl k ↦ inr (rw (e, f, k) refl, k, (==_iff (cell s.dist n) unreachable).0 f)
    ]
  ]
]

abbrev pub work : Search → ℕ
work s = blanks s.dist + length s.queue

pub record Conserves (s t : Search) : Type 0 where
  pub size : IsGrid t.dist
  pub same : work t ≡ work s

pub offer-Conserves :
    (next : ℕ) (s : Search) (n : Tile)
    → next ≢ unreachable
    → IsGrid s.dist
    → Conserves s (offer next s n)
offer-Conserves next s n h g = elim (offer-cases next s n) [
  | inl (e, k) ↦ rw e (record { size = g; same = refl })
  | inr (e, open_, blank) ↦ rw e (record {
    size = put_cell-IsGrid s.dist n next g;
    same = omega (
      arith,
      blanks-put_cell s.dist n next g (tile_passable-Inside n open_) blank h,
      length-append s.queue (n ∷ []),
    );
  })
]
