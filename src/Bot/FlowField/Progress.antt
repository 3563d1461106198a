-- ===== src/Bot/FlowField/Progress.antt =====
-- The steering of bot/flow_field.cpp leads down the field and does not stop on the way.
use networked_capture_the_fl.Prelude.{
  ltb, ltb→lt, Bool-cases, ltb→ge, ℤ, pos, negsuc, ◌+ℤ◌, ◌-ℤ◌, ◌*ℤ◌, int_laws, +ℤ_pos, -ℤ_pos,
  +ℤ_zero, ℕ, suc, ◌+◌, ◌-◌, ◌*◌, ◌/◌, ◌≤◌, ◌<◌, ◌≡◌, refl, sym, ap, subst, ◌≢◌, ◌⊎◌, inl, inr,
  true, false, arith,
}
use networked_capture_the_fl.GameTypes.{Vec2Fixed}
use networked_capture_the_fl.GameTypes.Config.{move_speed_fp_per_tick}
use networked_capture_the_fl.Map.{tile_fp, size_fp, is_wall, aabb_collides}
use networked_capture_the_fl.Map.Laws.{aabb_collides_iff}
use networked_capture_the_fl.Bot.FlowField.{
  Tile, unreachable, center_margin_fp, tile_of, center_of, tile_passable, Field, right_of, left_of,
  below, above, build, dist_at, axis_feasible, best_on_x, best_on_y,
}
use networked_capture_the_fl.Bot.FlowField.Rounds.{tile_passable-on_grid, tile_passable-Inside}
use networked_capture_the_fl.Bot.FlowField.Walks.{
  Adjacent, to_right, to_left, downwards, upwards, Walk, stand, stride,
}
use networked_capture_the_fl.Bot.FlowField.Shortest.{Walk-passable, IsShortest, build-IsShortest}
use networked_capture_the_fl.Bot.FlowField.Steering.{consider-have}

-- A step there and back.
forth_back : (a : ℤ) → (a +ℤ pos 1) -ℤ pos 1 ≡ a
forth_back a = omega int_laws

back_forth : (a : ℤ) → (a -ℤ pos 1) +ℤ pos 1 ≡ a
back_forth a = omega int_laws

Adjacent-sym : (t u : Tile) → Adjacent t u → Adjacent u t
Adjacent-sym t u (to_right e) =
    to_left (rw e (ap (λ (a : ℤ). record { x = a; y = t.y }) (sym (forth_back t.x))))
Adjacent-sym t u (to_left e) =
    to_right (rw e (ap (λ (a : ℤ). record { x = a; y = t.y }) (sym (back_forth t.x))))
Adjacent-sym t u (downwards e) =
    upwards (rw e (ap (λ (a : ℤ). record { x = t.x; y = a }) (sym (forth_back t.y))))
Adjacent-sym t u (upwards e) =
    downwards (rw e (ap (λ (a : ℤ). record { x = t.x; y = a }) (sym (back_forth t.y))))

last_stride :
    (source t : Tile) (n : ℕ)
    → n ≢ 0
    → Walk source t n
    → (u : Tile) × (k : ℕ) × Walk source u k × Adjacent u t × (tile_passable t ≡ true) × (n ≡ suc k)
last_stride source t n h (stand p e) = absurd (h e)
last_stride source t n h (stride {t = u} {n = k} w a p e) = (u, k, w, a, p, e)

-- In the field that is built from a place of a passable tile, a passable neighbor of every tile with a
-- distance other than 0 is exactly one step nearer.
pub downhill :
    (source_fp : Vec2Fixed) (t : Tile) (n : ℕ)
    → tile_passable (tile_of source_fp) ≡ true
    → dist_at (build source_fp) t ≡ suc n
    → suc n ≢ unreachable
    → (u : Tile) × Adjacent t u
      × (tile_passable u ≡ true)
      × (tile_passable t ≡ true)
      × (dist_at (build source_fp) u ≡ n)
downhill source_fp t n p e finite =
    let h = subst (IsShortest (tile_of source_fp) t) e (build-IsShortest source_fp t p) in
    let (u, k, w, a, q, f) =
      last_stride (tile_of source_fp) t (suc n) (λ z. absurd (omega (arith, z))) (h.walk finite) in
    let near = build-IsShortest source_fp u p in
    let (le, far) = near.least k w in
    let (back, _) = h.least _ (stride (near.walk far) a q refl) in
    (u, Adjacent-sym u t a, Walk-passable (tile_of source_fp) u k w, q, omega (arith, le, back, f))

tile_passable-is_wall : (t : Tile) → tile_passable t ≡ true → is_wall t.x t.y ≡ false
unfolding tile_passable
tile_passable-is_wall t h = elim (Bool-cases (is_wall t.x t.y)) [
  | inr e ↦ e
  | inl e ↦ cc (rw (tile_passable-on_grid t h, e) at h)
]

box_free :
    (x y : ℕ)
    → ((i j : ℕ)
        → i < size_fp
        → j < size_fp
        → is_wall (pos ((x + i) / tile_fp)) (pos ((y + j) / tile_fp)) ≡ false)
    → aabb_collides (record { x = pos x; y = pos y }) ≡ false
box_free x y h = elim (Bool-cases (aabb_collides (record { x = pos x; y = pos y }))) [
  | inr e ↦ e
  | inl e ↦ let (i, j, hi, hj, w) = (aabb_collides_iff x y).0 e in cc (h i j hi hj)
]

-- A box on two free tiles of a row, or of a column.
row_free :
    (a c b x : ℕ)
    → is_wall (pos a) (pos b) ≡ false
    → is_wall (pos c) (pos b) ≡ false
    → ((i : ℕ) → i < size_fp → ((x + i) / tile_fp ≡ a) ⊎ ((x + i) / tile_fp ≡ c))
    → aabb_collides (record { x = pos x; y = pos (b * tile_fp + center_margin_fp) }) ≡ false
row_free a c b x h k tiles = box_free x _ (λ i j hi hj.
    let row : (b * tile_fp + center_margin_fp + j) / tile_fp ≡ b = omega arith in
    elim (tiles i hi) [ inl e ↦ rw (e, row) h | inr e ↦ rw (e, row) k ])

column_free :
    (a b c y : ℕ)
    → is_wall (pos a) (pos b) ≡ false
    → is_wall (pos a) (pos c) ≡ false
    → ((j : ℕ) → j < size_fp → ((y + j) / tile_fp ≡ b) ⊎ ((y + j) / tile_fp ≡ c))
    → aabb_collides (record { x = pos (a * tile_fp + center_margin_fp); y = pos y }) ≡ false
column_free a b c y h k tiles = box_free _ y (λ i j hi hj.
    let column : (a * tile_fp + center_margin_fp + i) / tile_fp ≡ a = omega arith in
    elim (tiles j hj) [ inl e ↦ rw (e, column) h | inr e ↦ rw (e, column) k ])

abbrev pub tile_xy : ℕ → ℕ → Tile
tile_xy a b = record { x = pos a; y = pos b }

abbrev pub centered : ℕ → ℕ
centered a = a * tile_fp + center_margin_fp

pub scaled : (a : ℕ) → (pos a *ℤ pos tile_fp) +ℤ pos center_margin_fp ≡ pos (centered a)
unfolding ◌*ℤ◌ ◌+ℤ◌
scaled a = ground arith

forwards :
    (n : ℕ) → pos n +ℤ (pos 1 *ℤ pos move_speed_fp_per_tick) ≡ pos (n + move_speed_fp_per_tick)
unfolding ◌*ℤ◌
forwards n = +ℤ_pos n move_speed_fp_per_tick

stays : (n : ℕ) → pos n +ℤ (pos 0 *ℤ pos move_speed_fp_per_tick) ≡ pos n
unfolding ◌*ℤ◌
stays n = +ℤ_zero (pos n)

backwards :
    (n : ℕ)
    → move_speed_fp_per_tick ≤ n
    → pos n +ℤ (negsuc 0 *ℤ pos move_speed_fp_per_tick) ≡ pos (n - move_speed_fp_per_tick)
unfolding ◌*ℤ◌ ◌+ℤ◌
backwards n h = ground arith

axis_feasible-of :
    (a b : ℕ) (dx dy : ℤ) (x y : ℕ)
    → pos (centered a) +ℤ (dx *ℤ pos move_speed_fp_per_tick) ≡ pos x
    → pos (centered b) +ℤ (dy *ℤ pos move_speed_fp_per_tick) ≡ pos y
    → aabb_collides (record { x = pos x; y = pos y }) ≡ false
    → axis_feasible (center_of (tile_xy a b)) dx dy ≡ true
unfolding axis_feasible
axis_feasible-of a b dx dy x y e f free = rw (scaled a, scaled b, e, f, free) refl

the_same : (a : ℕ) → 1 ≤ a → a - 1 + 1 ≡ a
the_same a h = omega arith

one_of_two :
    (a x : ℕ) → a * tile_fp ≤ x → x < (a + 2) * tile_fp → (x / tile_fp ≡ a) ⊎ (x / tile_fp ≡ a + 1)
one_of_two a x h k = elim (Bool-cases (ltb x ((a + 1) * tile_fp))) [
  | inl e ↦ inl (omega (arith, ltb→lt _ _ e))
  | inr e ↦ inr (omega (arith, ltb→ge _ _ e))
]

-- A box that is centered in a free tile can step towards a free neighbor.
step_right :
    (a b : ℕ)
    → is_wall (pos a) (pos b) ≡ false
    → is_wall (pos a +ℤ pos 1) (pos b) ≡ false
    → axis_feasible (center_of (tile_xy a b)) (pos 1) (pos 0) ≡ true
step_right a b h k =
    axis_feasible-of a b (pos 1) (pos 0) _ _ (forwards (centered a)) (stays (centered b)) (
      row_free a (a + 1) b (centered a + move_speed_fp_per_tick) h (rw (+ℤ_pos a 1) at k) (λ i hi.
        one_of_two a (centered a + move_speed_fp_per_tick + i) (omega arith) (omega arith)))

step_left :
    (a b : ℕ)
    → 1 ≤ a
    → is_wall (pos a) (pos b) ≡ false
    → is_wall (pos a -ℤ pos 1) (pos b) ≡ false
    → axis_feasible (center_of (tile_xy a b)) (negsuc 0) (pos 0) ≡ true
step_left a b past h k =
    axis_feasible-of a b (negsuc 0) (pos 0) _ _ (backwards (centered a) (omega arith))
      (stays (centered b))
      (row_free (a - 1) (a - 1 + 1) b (centered a - move_speed_fp_per_tick)
        (rw (-ℤ_pos a 1 past) at k) (rw (the_same a past) h)
        (λ i hi.
          one_of_two (a - 1) (centered a - move_speed_fp_per_tick + i) (omega arith) (omega arith)))

step_down :
    (a b : ℕ)
    → is_wall (pos a) (pos b) ≡ false
    → is_wall (pos a) (pos b +ℤ pos 1) ≡ false
    → axis_feasible (center_of (tile_xy a b)) (pos 0) (pos 1) ≡ true
step_down a b h k =
    axis_feasible-of a b (pos 0) (pos 1) _ _ (stays (centered a)) (forwards (centered b)) (
      column_free a b (b + 1) (centered b + move_speed_fp_per_tick) h (rw (+ℤ_pos b 1) at k)
        (λ j hj.
          one_of_two b (centered b + move_speed_fp_per_tick + j) (omega arith) (omega arith)))

step_up :
    (a b : ℕ)
    → 1 ≤ b
    → is_wall (pos a) (pos b) ≡ false
    → is_wall (pos a) (pos b -ℤ pos 1) ≡ false
    → axis_feasible (center_of (tile_xy a b)) (pos 0) (negsuc 0) ≡ true
step_up a b past h k =
    axis_feasible-of a b (pos 0) (negsuc 0) _ _ (stays (centered a))
      (backwards (centered b) (omega arith))
      (column_free a (b - 1) (b - 1 + 1) (centered b - move_speed_fp_per_tick)
        (rw (-ℤ_pos b 1 past) at k) (rw (the_same b past) h)
        (λ j hj.
          one_of_two (b - 1) (centered b - move_speed_fp_per_tick + j) (omega arith) (omega arith)))

-- A free neighbor that is nearer is found on its axis.
pub finds :
    (d : Field) (a b : ℕ) (u : Tile)
    → Adjacent (tile_xy a b) u
    → tile_passable (tile_xy a b) ≡ true
    → tile_passable u ≡ true
    → dist_at d u < dist_at d (tile_xy a b)
    → ((best_on_x d (center_of (tile_xy a b)) (tile_xy a b)).have ≡ true)
      ⊎ ((best_on_y d (center_of (tile_xy a b)) (tile_xy a b)).have ≡ true)
finds d a b u (to_right e) here p less =
    let wall = tile_passable-is_wall (tile_xy a b) here in
    let q = subst (λ t. tile_passable t ≡ true) e p in
    inl (
      consider-have d _ _ _ _ _ _ _ (
        inl (
          consider-have d _ _ _ _ _ _ _ (
            inr (
              q,
              subst (λ t. dist_at d t < dist_at d (tile_xy a b)) e less,
              step_right a b wall (tile_passable-is_wall (right_of (tile_xy a b)) q),
            )))))
finds d a b u (to_left e) here p less =
    let wall = tile_passable-is_wall (tile_xy a b) here in
    let q = subst (λ t. tile_passable t ≡ true) e p in
    let inside = tile_passable-Inside (left_of (tile_xy a b)) q in
    inl (
      consider-have d _ _ _ _ _ _ _ (
        inr (
          q,
          subst (λ t. dist_at d t < dist_at d (tile_xy a b)) e less,
          step_left a b (omega (int_laws, inside.x_pos)) wall
              (tile_passable-is_wall (left_of (tile_xy a b)) q),
        )))
finds d a b u (downwards e) here p less =
    let wall = tile_passable-is_wall (tile_xy a b) here in
    let q = subst (λ t. tile_passable t ≡ true) e p in
    inr (
      consider-have d _ _ _ _ _ _ _ (
        inl (
          consider-have d _ _ _ _ _ _ _ (
            inr (
              q,
              subst (λ t. dist_at d t < dist_at d (tile_xy a b)) e less,
              step_down a b wall (tile_passable-is_wall (below (tile_xy a b)) q),
            )))))
finds d a b u (upwards e) here p less =
    let wall = tile_passable-is_wall (tile_xy a b) here in
    let q = subst (λ t. tile_passable t ≡ true) e p in
    let inside = tile_passable-Inside (above (tile_xy a b)) q in
    inr (
      consider-have d _ _ _ _ _ _ _ (
        inr (
          q,
          subst (λ t. dist_at d t < dist_at d (tile_xy a b)) e less,
          step_up a b (omega (int_laws, inside.y_pos)) wall
              (tile_passable-is_wall (above (tile_xy a b)) q),
        )))
