-- ===== src/Map/Laws.antt =====
-- What the tile grid and the collision test of shared/map.cpp are.
use networked_capture_the_fl.Prelude.{
  +ℤ_pos, -ℤ_pos, or-cases, or-inl, or-inr, if◌then◌else◌, all_below, all_below_sound, ℤ, pos_part,
  ◌+ℤ◌, ◌-ℤ◌, ◌≤ℤ◌, quot_ℤ, ℕ, zero, suc, ◌+◌, ◌-◌, ◌*◌, ◌/◌, ◌≤◌, ◌<◌, ◌≡◌, refl, sym, ap, subst,
  ◌∙◌, ◌↔◌, ◌⊎◌, inl, inr, Bool, true, false, not, arith, dec_lt, pos, negsuc,
}
use networked_capture_the_fl.GameTypes.{Vec2Fixed}
use networked_capture_the_fl.GameTypes.Config.{map_width_tiles, map_height_tiles}
use networked_capture_the_fl.Map.{tile_at, is_wall, any_from, span, size_fp, tile_fp, aabb_collides}

any_from_hit :
    (n t i : ℕ) (p : ℤ → Bool) → i < n → p (pos (t + i)) ≡ true → any_from n (pos t) p ≡ true
any_from_hit zero t i p h e = absurd (omega arith)
any_from_hit (suc n) t zero p h e =
    or-inl (p (pos t)) _ (subst (λ k. p (pos k) ≡ true) (omega arith) e)
any_from_hit (suc n) t (suc i) p h e = or-inr (p (pos t)) _ (
    rw (+ℤ_pos t 1)
      (any_from_hit n (t + 1) i p (omega arith) (subst (λ k. p (pos k) ≡ true) (omega arith) e)))

any_from_find :
    (n t : ℕ) (p : ℤ → Bool)
    → any_from n (pos t) p ≡ true
    → (i : ℕ) × (i < n) × (p (pos (t + i)) ≡ true)
any_from_find zero t p e = cc
any_from_find (suc n) t p e = elim (or-cases (p (pos t)) _ e) [
  | inl here ↦ (0, omega arith, subst (λ k. p (pos k) ≡ true) (omega arith) here)
  | inr later ↦
      let (i, h, f) =
        any_from_find n (t + 1) p (subst (λ k. any_from n k p ≡ true) (+ℤ_pos t 1) later) in
      (i + 1, omega arith, subst (λ k. p (pos k) ≡ true) (omega arith) f)
]

last_tile : (a : ℕ) → quot_ℤ ((pos a +ℤ pos size_fp) -ℤ pos 1) tile_fp ≡ pos ((a + 6143) / 8192)
last_tile a =
    ap (λ k. quot_ℤ (k -ℤ pos 1) tile_fp) (+ℤ_pos a size_fp)
    ∙ ap (λ k. quot_ℤ k tile_fp) (-ℤ_pos (a + 6144) 1 (omega arith))
    ∙ ap (λ k. pos (k / 8192)) (omega arith)

span_lem : (a b : ℕ) → a ≤ b → span (pos a) (pos b) ≡ b - a + 1
span_lem a b h = ap (λ k. pos_part (k +ℤ pos 1)) (-ℤ_pos b a h) ∙ ap pos_part (+ℤ_pos (b - a) 1)

-- The tiles under an interval of `size_fp` points, from a point on the map.
abbrev any_tile : ℤ → (ℤ → Bool) → Bool
any_tile x p =
    any_from (span (quot_ℤ x tile_fp) (quot_ℤ ((x +ℤ pos size_fp) -ℤ pos 1) tile_fp))
      (quot_ℤ x tile_fp) p

any_tile_pos :
    (a : ℕ) (p : ℤ → Bool)
    → any_tile (pos a) p ≡ any_from ((a + 6143) / 8192 - a / 8192 + 1) (pos (a / 8192)) p
any_tile_pos a p =
    ap (λ k. any_from (span (pos (a / 8192)) k) (pos (a / 8192)) p) (last_tile a)
    ∙ ap (λ n. any_from n (pos (a / 8192)) p)
        (span_lem (a / 8192) ((a + 6143) / 8192) (omega arith))

any_tile_iff :
    (a : ℕ) (p : ℤ → Bool)
    → (any_tile (pos a) p ≡ true) ↔ ((i : ℕ) × (i < size_fp) × (p (pos ((a + i) / tile_fp)) ≡ true))
any_tile_iff a p = (
  (λ e.
      let (k, h, f) = any_from_find _ (a / 8192) p (sym (any_tile_pos a p) ∙ e) in
      elim (dec_lt k 1) [
        | yes z ↦ (0, omega arith, subst (λ k. p (pos k) ≡ true) (omega arith) f)
        | no s ↦ (6143, omega arith, subst (λ k. p (pos k) ≡ true) (omega arith) f)
      ]),
  (λ (i, h, f).
      any_tile_pos a p
      ∙ any_from_hit _ (a / 8192) ((a + i) / 8192 - a / 8192) p (omega arith)
          (subst (λ k. p (pos k) ≡ true) (omega arith) f)),
)

span_some : (x : ℤ) → 1 ≤ span (quot_ℤ x tile_fp) (quot_ℤ ((x +ℤ pos size_fp) -ℤ pos 1) tile_fp)
unfolding ◌+ℤ◌ ◌-ℤ◌
span_some x = ground arith

-- A point on or off the map, by the tile that it lies in.
tile_off-wall :
    (x y : ℕ) → (map_width_tiles ≤ x) ⊎ (map_height_tiles ≤ y) → is_wall (pos x) (pos y) ≡ true
unfolding is_wall tile_at
tile_off-wall x y h = ground arith

tile_before-wall : (n : ℕ) (y : ℤ) → is_wall (negsuc n) y ≡ true
unfolding is_wall tile_at
tile_before-wall n y = ground arith

tile_above-wall : (x : ℤ) (n : ℕ) → is_wall x (negsuc n) ≡ true
unfolding is_wall tile_at
tile_above-wall x n = ground arith

rim : (n : ℕ) → n < map_width_tiles → is_wall (pos n) (pos 0) ≡ true
unfolding is_wall tile_at
rim n h = all_below_sound map_width_tiles (λ n. is_wall (pos n) (pos 0)) n refl h

left : (n : ℕ) → n < map_height_tiles → is_wall (pos 0) (pos n) ≡ true
unfolding is_wall tile_at
left n h = all_below_sound map_height_tiles (λ n. is_wall (pos 0) (pos n)) n refl h

top-wall : (x : ℤ) → is_wall x (pos 0) ≡ true
top-wall (negsuc n) = tile_before-wall n (pos 0)
top-wall (pos n) = elim (dec_lt n map_width_tiles) [
  | yes h ↦ rim n h
  | no h ↦ tile_off-wall n 0 (inl (omega arith))
]

left-wall : (y : ℤ) → is_wall (pos 0) y ≡ true
left-wall (negsuc n) = tile_above-wall (pos 0) n
left-wall (pos n) = elim (dec_lt n map_height_tiles) [
  | yes h ↦ left n h
  | no h ↦ tile_off-wall 0 n (inr (omega arith))
]

-- The source rounds towards zero, so a negative coordinate has tile 0 or a negative tile.
negative_tile :
    (n : ℕ)
    → (quot_ℤ (negsuc n) tile_fp ≡ pos 0) ⊎ ((k : ℕ) × (quot_ℤ (negsuc n) tile_fp ≡ negsuc k))
negative_tile n = elim (dec_lt (suc n) 8192) [
  | yes h ↦ inl (ground arith)
  | no h ↦ inr (suc n / 8192 - 1, ground arith)
]

any_from_first : (n : ℕ) (t : ℤ) (p : ℤ → Bool) → 1 ≤ n → p t ≡ true → any_from n t p ≡ true
any_from_first zero t p h e = absurd (omega arith)
any_from_first (suc n) t p h e = or-inl (p t) _ e

any_tile-first : (x : ℤ) (p : ℤ → Bool) → p (quot_ℤ x tile_fp) ≡ true → any_tile x p ≡ true
any_tile-first x p e = any_from_first _ _ p (span_some x) e

pub left_of_map : (n : ℕ) (y : ℤ) → is_wall (quot_ℤ (negsuc n) tile_fp) y ≡ true
left_of_map n y = elim (negative_tile n) [
  | inl e ↦ rw e (left-wall y)
  | inr (k, e) ↦ rw e (tile_before-wall k y)
]

pub above_map : (x : ℤ) (n : ℕ) → is_wall x (quot_ℤ (negsuc n) tile_fp) ≡ true
above_map x n = elim (negative_tile n) [
  | inl e ↦ rw e (top-wall x)
  | inr (k, e) ↦ rw e (tile_above-wall x k)
]

-- A player's box, at a place with no negative coordinate, collides exactly if one of its points lies in a wall.
pub aabb_collides_iff :
    (a b : ℕ)
    → (aabb_collides (record { x = pos a; y = pos b }) ≡ true) ↔ (
        (i j : ℕ) × (i < size_fp)
        × (j < size_fp)
        × (is_wall (pos ((a + i) / tile_fp)) (pos ((b + j) / tile_fp)) ≡ true))
unfolding aabb_collides
aabb_collides_iff a b = (
  (λ e.
      let (j, hj, f) = (any_tile_iff b (λ ty. any_tile (pos a) λ tx. is_wall tx ty)).0 e in
      let (i, hi, g) = (any_tile_iff a (λ tx. is_wall tx (pos ((b + j) / tile_fp)))).0 f in
      (i, j, hi, hj, g)),
  (λ (i, j, hi, hj, g).
      (any_tile_iff b (λ ty. any_tile (pos a) λ tx. is_wall tx ty)).1
        (j, hj, (any_tile_iff a (λ tx. is_wall tx (pos ((b + j) / tile_fp)))).1 (i, hi, g))),
)

negative_x-collides : (n : ℕ) (y : ℤ) → aabb_collides (record { x = negsuc n; y = y }) ≡ true
unfolding aabb_collides
negative_x-collides n y =
    any_tile-first y (λ ty. any_tile (negsuc n) λ tx. is_wall tx ty)
      (any_tile-first (negsuc n) (λ tx. is_wall tx (quot_ℤ y tile_fp))
        (left_of_map n (quot_ℤ y tile_fp)))

negative_y-collides : (x : ℤ) (n : ℕ) → aabb_collides (record { x = x; y = negsuc n }) ≡ true
unfolding aabb_collides
negative_y-collides x n =
    any_tile-first (negsuc n) (λ ty. any_tile x λ tx. is_wall tx ty)
      (any_tile-first x (λ tx. is_wall tx (quot_ℤ (negsuc n) tile_fp))
        (above_map (quot_ℤ x tile_fp) n))

-- Where a box of a player collides with nothing.
pub record IsOnMap (p : Vec2Fixed) : Type 0 where
  pub x_min : pos 0 ≤ℤ p.x
  pub y_min : pos 0 ≤ℤ p.y
  pub x_max : p.x ≤ℤ pos (map_width_tiles * tile_fp - size_fp)
  pub y_max : p.y ≤ℤ pos (map_height_tiles * tile_fp - size_fp)

corner :
    (a b : ℕ)
    → aabb_collides (record { x = pos a; y = pos b }) ≡ false
    → ((map_width_tiles ≤ (a + 6143) / tile_fp) ⊎ (map_height_tiles ≤ (b + 6143) / tile_fp))
    → ⊥
corner a b h off =
    let hit =
      (aabb_collides_iff a b).1 (6143, 6143, omega arith, omega arith, tile_off-wall _ _ off) in
    cc

inside :
    (x y : ℤ) → aabb_collides (record { x = x; y = y }) ≡ false → IsOnMap (record { x = x; y = y })
inside (pos a) (pos b) h = record {
  x_min = omega arith;
  y_min = omega arith;
  x_max = elim (dec_lt (a + 6143) (map_width_tiles * tile_fp)) [
    | yes k ↦ omega arith
    | no k ↦ absurd (corner a b h (inl (omega arith)))
  ];
  y_max = elim (dec_lt (b + 6143) (map_height_tiles * tile_fp)) [
    | yes k ↦ omega arith
    | no k ↦ absurd (corner a b h (inr (omega arith)))
  ];
}
inside (negsuc n) y h = let e = negative_x-collides n y in cc
inside (pos a) (negsuc n) h = let e = negative_y-collides (pos a) n in cc

-- A player whose box collides with no wall stands inside of the map, whatever its coordinates.
pub free-IsOnMap : (p : Vec2Fixed) → aabb_collides p ≡ false → IsOnMap p
free-IsOnMap p h = inside p.x p.y h

-- The tiles, row by row.
on_row : ℕ → (ℕ → ℕ → Bool) → Bool
on_row y p = all_below map_width_tiles (λ x. p x y)

same : Bool → Bool → Bool
same a b = if a then b else not b

same-≡ : (a b : Bool) → same a b ≡ true → a ≡ b
unfolding same
same-≡ a b h = ground arith

mirrored : ℕ → ℕ → Bool
mirrored x y = same (is_wall (pos x) (pos y)) (is_wall (pos (39 - x)) (pos y))

mirror_table : all_below map_height_tiles (λ y. on_row y mirrored) ≡ true
unfolding on_row mirrored same is_wall tile_at
mirror_table = refl

-- The map is symmetric: a tile is a wall exactly if its mirror image is.
is_wall-mirror :
    (x y : ℕ)
    → x < map_width_tiles
    → y < map_height_tiles
    → is_wall (pos x) (pos y) ≡ is_wall (pos (39 - x)) (pos y)
unfolding on_row mirrored
is_wall-mirror x y hx hy = same-≡ _ _ (
    all_below_sound map_width_tiles (λ x. mirrored x y) x
      (all_below_sound map_height_tiles (λ y. on_row y mirrored) y mirror_table hy) hx)
