-- ===== src/Movement/Laws.antt =====
-- A step of shared/movement.cpp never enters a wall, and how far it goes.
use networked_capture_the_fl.Prelude.{
  not-false, negsuc, not, if◌then◌else◌, ◌&&◌, ◌||◌, +ℤ_zero, if-elim, not-true, leb, leb→le,
  if-elim, not-true, ℤ, pos_part, neg_part, ◌+ℤ◌, ◌-ℤ◌, ◌*ℤ◌, +ℤ_zero, ℕ, ◌+◌, ◌*◌, ◌≤◌, ◌≡◌, refl,
  sym, ap, subst, ◌∙◌, ◌⊎◌, inl, inr, Bool, true, false, arith, pos,
}
use networked_capture_the_fl.GameTypes.{Vec2Fixed, InputCmd, PlayerMotion, no_vec}
use networked_capture_the_fl.Map.{aabb_collides}
use networked_capture_the_fl.Map.Laws.{IsOnMap, free-IsOnMap}
use networked_capture_the_fl.Movement.{
  pressed, input_left, input_right, input_up, input_down, fp_mul, velocity, velocity_of, step_x,
  step_y, movement_step,
}

-- The test of the new place keeps a player out of the walls.
step_x-free : (p : Vec2Fixed) (v : ℤ) → aabb_collides p ≡ false → aabb_collides (step_x p v) ≡ false
unfolding step_x
step_x-free p v h = if-elim (λ q. aabb_collides q ≡ false) _ _ p (not-true _) (λ e. h)

step_y-free : (p : Vec2Fixed) (v : ℤ) → aabb_collides p ≡ false → aabb_collides (step_y p v) ≡ false
unfolding step_y
step_y-free p v h = if-elim (λ q. aabb_collides q ≡ false) _ _ p (not-true _) (λ e. h)

-- A player whose box is free of walls is free of them after any input, inside of the map.
pub movement_step-free :
    (m : PlayerMotion) (cmd : InputCmd)
    → aabb_collides m.position ≡ false
    → let out = movement_step m cmd in (aabb_collides out.position ≡ false) × IsOnMap out.position
unfolding movement_step
movement_step-free m cmd h =
    let v = velocity_of cmd in
    let free = step_y-free (step_x m.position v.x) v.y (step_x-free m.position v.x h) in
    (free, free-IsOnMap _ free)

-- A coordinate moves on by a velocity, unless the box would then stand in a wall.
abbrev pub Advances : Bool → ℤ → ℤ → ℤ → Type 0
Advances blocked a v b = ((blocked ≡ true) × (b ≡ a)) ⊎ ((blocked ≡ false) × (b ≡ a +ℤ v))

abbrev pub blocked_at : ℤ → ℤ → Bool
blocked_at x y = aabb_collides (record { x = x; y = y })

step_x-Advances :
    (p : Vec2Fixed) (v : ℤ)
    → let q = step_x p v in Advances (blocked_at (p.x +ℤ v) p.y) p.x v q.x × (q.y ≡ p.y)
unfolding step_x
step_x-Advances p v =
    if-elim (λ q. Advances (blocked_at (p.x +ℤ v) p.y) p.x v q.x × (q.y ≡ p.y)) _ _ p
      (λ e. (inr (not-true _ e, refl), refl)) (λ e. (inl (not-false _ e, refl), refl))

step_y-Advances :
    (p : Vec2Fixed) (v : ℤ)
    → let q = step_y p v in Advances (blocked_at p.x (p.y +ℤ v)) p.y v q.y × (q.x ≡ p.x)
unfolding step_y
step_y-Advances p v =
    if-elim (λ q. Advances (blocked_at p.x (p.y +ℤ v)) p.y v q.y × (q.x ≡ p.x)) _ _ p
      (λ e. (inr (not-true _ e, refl), refl)) (λ e. (inl (not-false _ e, refl), refl))

-- What a pair of opposite buttons asks for: nothing if both are held or neither is, else the full
-- speed, or on a diagonal that speed by 181/256, rounded down.
abbrev pub along : Bool → Bool → Bool → ℤ
along less more diagonal =
    if less && not more
    then (if diagonal then negsuc 965 else negsuc 1364)
    else (if more && not less then (if diagonal then pos 965 else pos 1365) else pos 0)

-- Whether exactly one of two opposite buttons is held.
abbrev pub one_held : Bool → Bool → Bool
one_held less more = (less && not more) || (more && not less)

-- The velocity that the buttons of an input ask for.
abbrev pub asked_of : InputCmd → Vec2Fixed
asked_of cmd =
    let l = pressed cmd input_left in
    let r = pressed cmd input_right in
    let u = pressed cmd input_up in
    let d = pressed cmd input_down in
    record { x = along l r (one_held u d); y = along u d (one_held l r) }

velocity-along :
    (l r u d : Bool)
    → velocity l r u d ≡ record { x = along l r (one_held u d); y = along u d (one_held l r) }
unfolding velocity fp_mul ◌+ℤ◌ ◌-ℤ◌ ◌*ℤ◌
velocity-along l r u d = ground arith

abbrev pub square : ℤ → ℕ
square a = pos_part a * pos_part a + neg_part a * neg_part a

-- The speed that a velocity may have: that of one axis, but for the rounding of a diagonal.
slow : Vec2Fixed → Bool
slow v = leb (square v.x + square v.y) 1866312

velocity-slow : (l r u d : Bool) → slow (velocity l r u d) ≡ true
unfolding slow velocity fp_mul ◌+ℤ◌ ◌-ℤ◌ ◌*ℤ◌
velocity-slow l r u d = ground arith

-- After a step the velocity is the one that the held buttons ask for, at most 1366.2 units a tick in
-- length, a diagonal included. First x and then y moves on by it, unless the box would then stand in a
-- wall: such a coordinate stays.
pub movement_step-Advances :
    (m : PlayerMotion) (cmd : InputCmd)
    → let out = movement_step m cmd in
      let v = asked_of cmd in
      (out.velocity ≡ v)
      × Advances (blocked_at (m.position.x +ℤ v.x) m.position.y) m.position.x v.x out.position.x
      × Advances (blocked_at out.position.x (m.position.y +ℤ v.y)) m.position.y v.y out.position.y
      × (square out.velocity.x + square out.velocity.y ≤ 1866312)
unfolding movement_step slow
movement_step-Advances m cmd =
    let v = velocity_of cmd in
    let q = step_x m.position v.x in
    let out = movement_step m cmd in
    let (along_x, kept) = step_x-Advances m.position v.x in
    let (along_y, still) = step_y-Advances q v.y in
    subst
      (λ (w : Vec2Fixed).
        (v ≡ w)
        × Advances (blocked_at (m.position.x +ℤ w.x) m.position.y) m.position.x w.x out.position.x
        × Advances (blocked_at out.position.x (m.position.y +ℤ w.y)) m.position.y w.y out.position.y
        × (square v.x + square v.y ≤ 1866312))
      (velocity-along _ _ _ _)
      (
        refl,
        subst (Advances (blocked_at (m.position.x +ℤ v.x) m.position.y) m.position.x v.x)
            (sym still) along_x,
        subst (λ x. Advances (blocked_at x (m.position.y +ℤ v.y)) m.position.y v.y out.position.y)
            (sym still)
            (subst (λ y. Advances (blocked_at q.x (y +ℤ v.y)) y v.y out.position.y) kept along_y),
        leb→le _ _ (velocity-slow _ _ _ _),
      )

stay_x : (p : Vec2Fixed) → step_x p (pos 0) ≡ p
unfolding step_x
stay_x p = if-elim (λ q. q ≡ p) _ _ p (λ e. ap (λ x. record p { x = x }) (+ℤ_zero p.x)) (λ e. refl)

stay_y : (p : Vec2Fixed) → step_y p (pos 0) ≡ p
unfolding step_y
stay_y p = if-elim (λ q. q ≡ p) _ _ p (λ e. ap (λ y. record p { y = y }) (+ℤ_zero p.y)) (λ e. refl)

-- Without a button a player stays where it is, with no velocity.
movement_step-idle :
    (m : PlayerMotion) (aim : ℕ)
    → movement_step m (record { buttons = 0; aim_angle = aim })
      ≡ record { position = m.position; velocity = no_vec }
unfolding movement_step velocity
movement_step-idle m aim =
    ap (λ p. record { position = p; velocity = no_vec })
      (ap (λ p. step_y p (pos 0)) (stay_x m.position) ∙ stay_y m.position)
