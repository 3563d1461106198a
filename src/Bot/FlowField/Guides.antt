-- ===== src/Bot/FlowField/Guides.antt =====
-- What a bot can rely on of the steering of bot/flow_field.cpp.
use networked_capture_the_fl.Prelude.{
  ◌==◌, if◌then◌else◌, ==_iff, Bool-cases, if_false, or-cases, if-elim, ℤ, pos, pos_part, ◌+ℤ◌,
  ◌*ℤ◌, quot_ℤ, ℕ, suc, ◌-◌, ◌/◌, ◌≤◌, ◌<◌, ◌≡◌, refl, sym, ap, ap₂, subst, ◌∙◌, ◌≢◌, ◌⊎◌, inl, inr,
  true, ◌||◌, arith,
}
use networked_capture_the_fl.GameTypes.{Vec2Fixed}
use networked_capture_the_fl.GameTypes.Config.{map_width_tiles, map_height_tiles}
use networked_capture_the_fl.Map.{tile_fp}
use networked_capture_the_fl.Bot.FlowField.{
  Tile, unreachable, center_margin_fp, clamped, tile_of, on_grid, center_of, tile_passable, Field,
  cell, build, dist_at, press_toward_center_y, press_toward_center_x, best_on_x, best_on_y,
  buttons_of, steer,
}
use networked_capture_the_fl.Bot.FlowField.Cells.{same_tile, on_grid-Inside}
use networked_capture_the_fl.Bot.FlowField.Rounds.{tile_passable-Inside}
use networked_capture_the_fl.Bot.FlowField.Steering.{
  IsFeasible, none-IsFeasible, best_on_x-Chosen, best_on_y-Chosen, toward_center_x, toward_center_y,
  buttons_of_lem,
}
use networked_capture_the_fl.Bot.FlowField.Progress.{downhill, finds, tile_xy, centered, scaled}

-- Whatever the field and the place, a direction that is pressed is one in which the box can take a step
-- of a tick without a collision, given that the distance of the tile fits 16 bits.
pub steer-IsFeasible :
    (d : Field) (p : Vec2Fixed) → dist_at d (tile_of p) ≤ unreachable → IsFeasible p (steer d p)
unfolding steer
steer-IsFeasible d p le =
    let t = tile_of p in
    if-elim (IsFeasible p) (dist_at d t == 0 || dist_at d t == unreachable) _ _
      (λ e. none-IsFeasible p)
      (λ e.
        (buttons_of_lem p _ _ _ _ (best_on_x-Chosen d p t le) (best_on_y-Chosen d p t le)
          (toward_center_x p (center_of t)) (toward_center_y p (center_of t))).0)

clamped_inside : (n a : ℕ) → a < n → clamped n (pos a) ≡ pos a
clamped_inside n a h = ground arith

center_coordinate :
    (n a : ℕ)
    → a < n
    → clamped n (quot_ℤ ((pos a *ℤ pos tile_fp) +ℤ pos center_margin_fp) tile_fp) ≡ pos a
center_coordinate n a h =
    let same : centered a / tile_fp ≡ a = omega arith in
    ap (λ v. clamped n (quot_ℤ v tile_fp)) (scaled a)
    ∙ ap (λ (q : ℕ). clamped n (pos q)) same
    ∙ clamped_inside n a h

tile_of_center :
    (a b : ℕ)
    → a < map_width_tiles
    → b < map_height_tiles
    → tile_of (center_of (tile_xy a b)) ≡ tile_xy a b
unfolding tile_of
tile_of_center a b h k =
    ap₂ (λ (x y : ℤ). record { x = x; y = y }) (center_coordinate map_width_tiles a h)
      (center_coordinate map_height_tiles b k)

-- On the way an axis that has found something is pressed.
pressed :
    (d : Field) (p : Vec2Fixed) (t : Tile)
    → dist_at d t ≢ 0
    → dist_at d t < unreachable
    → ((best_on_x d p t).have ≡ true) ⊎ ((best_on_y d p t).have ≡ true)
    → (if dist_at d t == 0 || dist_at d t == unreachable
        then 0
        else buttons_of
            (best_on_x d p t)
            (best_on_y d p t)
            (press_toward_center_x p (center_of t))
            (press_toward_center_y p (center_of t)))
      ≢ 0
pressed d p t away less found =
    let le : dist_at d t ≤ unreachable = omega arith in
    if-elim (λ k. k ≢ 0) (dist_at d t == 0 || dist_at d t == unreachable) _ _
      (λ e. elim (or-cases (dist_at d t == 0) (dist_at d t == unreachable) e) [
        | inl f ↦ absurd (away ((==_iff (dist_at d t) 0).0 f))
        | inr f ↦ absurd (omega (arith, less, (==_iff (dist_at d t) unreachable).0 f))
      ])
      (λ e.
        (buttons_of_lem p _ _ _ _ (best_on_x-Chosen d p t le) (best_on_y-Chosen d p t le)
            (toward_center_x p (center_of t)) (toward_center_y p (center_of t))).1
          found)

steers :
    (source_fp : Vec2Fixed) (a b n : ℕ)
    → tile_passable (tile_of source_fp) ≡ true
    → dist_at (build source_fp) (tile_xy a b) ≡ suc n
    → suc n < unreachable
    → steer (build source_fp) (center_of (tile_xy a b)) ≢ 0
unfolding steer
steers source_fp a b n p e less =
    let d = build source_fp in
    let t = tile_xy a b in
    let (u, near, free, here, f) = downhill source_fp t n p e (λ k. absurd (omega (arith, k))) in
    let inside = tile_passable-Inside t here in
    let found = finds d a b u near here free (omega (arith, e, f)) in
    let q = center_of t in
    subst
      (λ (w : Tile).
        (if dist_at d w == 0 || dist_at d w == unreachable
          then 0
          else buttons_of (best_on_x d q w) (best_on_y d q w)
              (press_toward_center_x q (center_of w)) (press_toward_center_y q (center_of w)))
        ≢ 0)
      (sym (tile_of_center a b inside.x_lt inside.y_lt))
      (pressed d q t (λ k. absurd (omega (arith, k, e))) (omega (arith, e)) found)

-- A bot whose box is centered in a tile never stops on the way: where the field that is built from a place
-- of a passable tile has a distance other than 0, the steering presses a direction.
pub steer-moves :
    (source_fp : Vec2Fixed) (t : Tile)
    → tile_passable (tile_of source_fp) ≡ true
    → dist_at (build source_fp) t ≢ 0
    → dist_at (build source_fp) t < unreachable
    → steer (build source_fp) (center_of t) ≢ 0
unfolding dist_at
steer-moves source_fp t p away less = elim (Bool-cases (on_grid t)) [
  | inr e ↦
      absurd (omega (arith, less, if_false (on_grid t) (cell (build source_fp) t) unreachable e))
  | inl e ↦
      let h = on_grid-Inside t e in
      let same =
        same_tile t (tile_xy (pos_part t.x) (pos_part t.y)) h
          (record { x_lt = h.x_lt; y_lt = h.y_lt; x_pos = refl; y_pos = refl }) refl refl in
      subst (λ (u : Tile). steer (build source_fp) (center_of u) ≢ 0) (sym same)
        (steers source_fp (pos_part t.x) (pos_part t.y) (dist_at (build source_fp) t - 1) p
          (ap (dist_at (build source_fp)) (sym same) ∙ omega arith) (omega arith))
]
