-- ===== src/Bot/FlowField/Cells.antt =====
-- Reads and writes of the field of bot/flow_field.cpp.
use networked_capture_the_fl.Prelude.{
  ◌==◌, if◌then◌else◌, ==_iff, Bool-cases, length, get_or, set, replicate, length-set,
  get_or-set_self, get_or-set_ne, pos_part, neg_part, eq_of_parts, ℕ, zero, suc, ◌+◌, ◌*◌, ◌<◌, ◌≡◌,
  refl, sym, ap, ◌∙◌, ◌≢◌, ◌⊎◌, inl, inr, true, false, List, [], ◌∷◌, arith,
}
use networked_capture_the_fl.GameTypes.Config.{map_width_tiles, map_height_tiles}
use networked_capture_the_fl.Bot.FlowField.{
  Tile, unreachable, on_grid, Field, cell, put_cell, no_field,
}

ne_of_test : (a b : ℕ) → (a == b) ≡ false → b ≢ a
ne_of_test a b h e = cc ((==_iff a b).1 (sym e))

-- The coordinates of a tile of the grid.
pub record Inside (t : Tile) : Type 0 where
  pub x_lt : pos_part t.x < map_width_tiles
  pub y_lt : pos_part t.y < map_height_tiles
  pub x_pos : neg_part t.x ≡ 0
  pub y_pos : neg_part t.y ≡ 0

pub on_grid-Inside : (t : Tile) → on_grid t ≡ true → Inside t
unfolding on_grid
on_grid-Inside t h = ground arith

pub same_tile :
    (t u : Tile)
    → Inside t
    → Inside u
    → pos_part t.x ≡ pos_part u.x
    → pos_part t.y ≡ pos_part u.y
    → t ≡ u
same_tile t u h k e f =
    let ex = eq_of_parts t.x u.x (omega (arith, h.x_pos, k.x_pos)) in
    let ey = eq_of_parts t.y u.y (omega (arith, h.y_pos, k.y_pos)) in cc

-- The rows of the grid.
pub record IsGrid (d : Field) : Type 0 where
  pub rows : length d ≡ map_height_tiles
  pub wide : (y : ℕ) → y < map_height_tiles → length (get_or d y []) ≡ map_width_tiles

pub put_cell-IsGrid : (d : Field) (t : Tile) (v : ℕ) → IsGrid d → IsGrid (put_cell d t v)
unfolding put_cell
put_cell-IsGrid d t v g = record {
  rows = length-set d (pos_part t.y) _ ∙ g.rows;
  wide = λ y h. elim (Bool-cases (y == pos_part t.y)) [
    | inl e ↦
        let same = (==_iff y (pos_part t.y)).0 e in
        ap length (
          rw same (
            get_or-set_self d (pos_part t.y) (set (get_or d (pos_part t.y) []) (pos_part t.x) v) []
              (omega (arith, g.rows))))
        ∙ length-set (get_or d (pos_part t.y) []) (pos_part t.x) v
        ∙ g.wide (pos_part t.y) (omega arith)
    | inr e ↦
        ap length (get_or-set_ne d (pos_part t.y) y _ [] (ne_of_test y (pos_part t.y) e))
        ∙ g.wide y h
  ];
}

-- A read after a write in the grid: the value written, or the one before.
pub cell-put_cell :
    (d : Field) (t u : Tile) (v : ℕ)
    → IsGrid d
    → Inside t
    → Inside u
    → (t ≡ u) × (cell (put_cell d t v) u ≡ v) ⊎ (t ≢ u) × (cell (put_cell d t v) u ≡ cell d u)
unfolding cell put_cell
cell-put_cell d t u v g h k =
    let row = get_or d (pos_part t.y) [] in
    let changed = set row (pos_part t.x) v in
    let there = get_or-set_self d (pos_part t.y) changed [] (omega (arith, g.rows, h.y_lt)) in
    elim (Bool-cases (pos_part u.y == pos_part t.y)) [
      | inr e ↦ inr (
        (λ s. ne_of_test (pos_part u.y) (pos_part t.y) e (ap (λ (w : Tile). pos_part w.y) s)),
        ap (λ r. get_or r (pos_part u.x) 0)
            (get_or-set_ne d (pos_part t.y) (pos_part u.y) changed []
              (ne_of_test (pos_part u.y) (pos_part t.y) e)),
      )
      | inl e ↦
          let same = (==_iff (pos_part u.y) (pos_part t.y)).0 e in
          let read : get_or (set d (pos_part t.y) changed) (pos_part u.y) [] ≡ changed =
            ap (λ i. get_or (set d (pos_part t.y) changed) i []) same ∙ there in
          elim (Bool-cases (pos_part u.x == pos_part t.x)) [
            | inl f ↦
                let equal = (==_iff (pos_part u.x) (pos_part t.x)).0 f in
                inl (
                  same_tile t u h k (sym equal) (sym same),
                  ap (λ r. get_or r (pos_part u.x) 0) read
                      ∙ ap (λ i. get_or changed i 0) equal
                      ∙ get_or-set_self row (pos_part t.x) v 0
                          (omega (arith, g.wide (pos_part t.y) h.y_lt, h.x_lt)),
                )
            | inr f ↦ inr (
              (λ s. ne_of_test (pos_part u.x) (pos_part t.x) f (ap (λ (w : Tile). pos_part w.x) s)),
              ap (λ r. get_or r (pos_part u.x) 0) read
                  ∙ get_or-set_ne row (pos_part t.x) (pos_part u.x) v 0
                      (ne_of_test (pos_part u.x) (pos_part t.x) f)
                  ∙ ap (λ i. get_or (get_or d i []) (pos_part u.x) 0) (sym same),
            )
          ]
    ]

get_or-replicate {ℓ} : {A : Type ℓ} (n i : ℕ) (a b : A) → i < n → get_or (replicate n a) i b ≡ a
get_or-replicate zero i a b h = absurd (omega arith)
get_or-replicate (suc n) zero a b h = refl
get_or-replicate (suc n) (suc i) a b h = get_or-replicate n i a b (omega arith)

pub no_field-IsGrid : IsGrid no_field
no_field-IsGrid = record {
  rows = refl;
  wide = λ y h.
      ap length (get_or-replicate map_height_tiles y (replicate map_width_tiles unreachable) [] h);
}

pub cell-no_field : (t : Tile) → Inside t → cell no_field t ≡ unreachable
unfolding cell
cell-no_field t h =
    ap (λ r. get_or r (pos_part t.x) 0)
      (get_or-replicate map_height_tiles (pos_part t.y) (replicate map_width_tiles unreachable) []
        h.y_lt)
    ∙ get_or-replicate map_width_tiles (pos_part t.x) unreachable 0 h.x_lt

-- The cells that no search has reached.
abbrev pub row_blanks : List ℕ → ℕ
row_blanks [] = 0
row_blanks (c ∷ r) = (if c == unreachable then 1 else 0) + row_blanks r

abbrev pub blanks : Field → ℕ
blanks [] = 0
blanks (r ∷ d) = row_blanks r + blanks d

row_blanks-set :
    (r : List ℕ) (i v : ℕ)
    → i < length r
    → get_or r i 0 ≡ unreachable
    → v ≢ unreachable
    → row_blanks (set r i v) + 1 ≡ row_blanks r
row_blanks-set [] i v h e n = absurd (omega arith)
row_blanks-set (c ∷ r) zero v h e n = ground arith
row_blanks-set (c ∷ r) (suc i) v h e n = omega (arith, row_blanks-set r i v (omega arith) e n)

blanks-set :
    (d : Field) (y : ℕ) (r : List ℕ)
    → y < length d
    → blanks (set d y r) + row_blanks (get_or d y []) ≡ blanks d + row_blanks r
blanks-set [] y r h = absurd (omega arith)
blanks-set (q ∷ d) zero r h = omega arith
blanks-set (q ∷ d) (suc y) r h = omega (arith, blanks-set d y r (omega arith))

pub blanks-put_cell :
    (d : Field) (t : Tile) (v : ℕ)
    → IsGrid d
    → Inside t
    → cell d t ≡ unreachable
    → v ≢ unreachable
    → blanks (put_cell d t v) + 1 ≡ blanks d
unfolding cell put_cell
blanks-put_cell d t v g h e n =
    let row = get_or d (pos_part t.y) [] in
    omega (
      arith,
      row_blanks-set row (pos_part t.x) v (omega (arith, g.wide (pos_part t.y) h.y_lt, h.x_lt)) e n,
      blanks-set d (pos_part t.y) (set row (pos_part t.x) v) (omega (arith, g.rows, h.y_lt)),
    )

pub blanks-no_field : blanks no_field ≡ map_width_tiles * map_height_tiles
blanks-no_field = refl
