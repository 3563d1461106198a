-- ===== src/Bot/FlowField/Steering.antt =====
-- The buttons that the steering of bot/flow_field.cpp presses.
use networked_capture_the_fl.Prelude.{
  ltb, ◌==◌, if◌then◌else◌, ltb→lt, lt→ltb, and_left, and_right, ==_iff, not-false, if-elim, ltb→ge,
  ℤ, pos, negsuc, ◌+ℤ◌, ◌-ℤ◌, ltb_ℤ, ℕ, ◌≤◌, ◌<◌, bit_and, bit_or, ◌≡◌, refl, ◌≢◌, ◌⊎◌, inl, inr,
  true, false, not, ◌&&◌, arith,
}
use networked_capture_the_fl.GameTypes.{Vec2Fixed}
use networked_capture_the_fl.Movement.{input_up, input_down, input_left, input_right}
use networked_capture_the_fl.Bot.FlowField.{
  Tile, unreachable, tile_passable, Field, right_of, left_of, below, above, dist_at, axis_feasible,
  Best, no_best, consider, align_tol, press_toward_center_y, press_toward_center_x, best_on_x,
  best_on_y, buttons_of,
}

-- A button of one axis whose step is free.
pub data Horizontal (p : Vec2Fixed) (b : ℕ) : Type 0 where
  rightwards : b ≡ input_right → axis_feasible p (pos 1) (pos 0) ≡ true → Horizontal p b
  leftwards : b ≡ input_left → axis_feasible p (negsuc 0) (pos 0) ≡ true → Horizontal p b

pub data Vertical (p : Vec2Fixed) (b : ℕ) : Type 0 where
  downwards : b ≡ input_down → axis_feasible p (pos 0) (pos 1) ≡ true → Vertical p b
  upwards : b ≡ input_up → axis_feasible p (pos 0) (negsuc 0) ≡ true → Vertical p b

-- Every direction that is pressed can be stepped in.
pub record IsFeasible (p : Vec2Fixed) (b : ℕ) : Type 0 where
  pub right : bit_and b input_right ≢ 0 → axis_feasible p (pos 1) (pos 0) ≡ true
  pub left : bit_and b input_left ≢ 0 → axis_feasible p (negsuc 0) (pos 0) ≡ true
  pub down : bit_and b input_down ≢ 0 → axis_feasible p (pos 0) (pos 1) ≡ true
  pub up : bit_and b input_up ≢ 0 → axis_feasible p (pos 0) (negsuc 0) ≡ true

-- Feasible buttons, of which one at least is pressed.
pub record Moves (p : Vec2Fixed) (b : ℕ) : Type 0 where
  feasible : IsFeasible p b
  some_button : b ≢ 0

pub none-IsFeasible : (p : Vec2Fixed) → IsFeasible p 0
none-IsFeasible p = record {
  right = λ h. absurd (h refl);
  left = λ h. absurd (h refl);
  down = λ h. absurd (h refl);
  up = λ h. absurd (h refl);
}

Horizontal-Moves : (p : Vec2Fixed) (b : ℕ) → Horizontal p b → Moves p b
Horizontal-Moves p b (rightwards e f) = rw e (record {
  feasible = record {
    right = λ h. f;
    left = λ h. absurd (h refl);
    down = λ h. absurd (h refl);
    up = λ h. absurd (h refl);
  };
  some_button = λ h. absurd (omega (arith, h));
})
Horizontal-Moves p b (leftwards e f) = rw e (record {
  feasible = record {
    right = λ h. absurd (h refl);
    left = λ h. f;
    down = λ h. absurd (h refl);
    up = λ h. absurd (h refl);
  };
  some_button = λ h. absurd (omega (arith, h));
})

Vertical-Moves : (p : Vec2Fixed) (b : ℕ) → Vertical p b → Moves p b
Vertical-Moves p b (downwards e f) = rw e (record {
  feasible = record {
    right = λ h. absurd (h refl);
    left = λ h. absurd (h refl);
    down = λ h. f;
    up = λ h. absurd (h refl);
  };
  some_button = λ h. absurd (omega (arith, h));
})
Vertical-Moves p b (upwards e f) = rw e (record {
  feasible = record {
    right = λ h. absurd (h refl);
    left = λ h. absurd (h refl);
    down = λ h. absurd (h refl);
    up = λ h. f;
  };
  some_button = λ h. absurd (omega (arith, h));
})

diagonal-Moves :
    (p : Vec2Fixed) (a b : ℕ)
    → Horizontal p a
    → Vertical p b
    → Moves p (bit_or a b) × Moves p (bit_or b a)
diagonal-Moves p a b (rightwards e f) (downwards g k) =
    rw (e, g)
      (let m : Moves p 10 = record {
        feasible = record {
          right = λ h. f;
          left = λ h. absurd (h refl);
          down = λ h. k;
          up = λ h. absurd (h refl);
        };
        some_button = λ h. absurd (omega (arith, h));
      } in
        (m, m))
diagonal-Moves p a b (rightwards e f) (upwards g k) =
    rw (e, g)
      (let m : Moves p 9 = record {
        feasible = record {
          right = λ h. f;
          left = λ h. absurd (h refl);
          down = λ h. absurd (h refl);
          up = λ h. k;
        };
        some_button = λ h. absurd (omega (arith, h));
      } in
        (m, m))
diagonal-Moves p a b (leftwards e f) (downwards g k) =
    rw (e, g)
      (let m : Moves p 6 = record {
        feasible = record {
          right = λ h. absurd (h refl);
          left = λ h. f;
          down = λ h. k;
          up = λ h. absurd (h refl);
        };
        some_button = λ h. absurd (omega (arith, h));
      } in
        (m, m))
diagonal-Moves p a b (leftwards e f) (upwards g k) =
    rw (e, g)
      (let m : Moves p 5 = record {
        feasible = record {
          right = λ h. absurd (h refl);
          left = λ h. f;
          down = λ h. absurd (h refl);
          up = λ h. k;
        };
        some_button = λ h. absurd (omega (arith, h));
      } in
        (m, m))

-- What the turns of an axis have found.
pub data Chosen (P : ℕ → Type 0) (b : Best) : Type 0 where
  nothing : b.have ≡ false → b.best ≡ unreachable → Chosen P b
  chosen : b.have ≡ true → P b.btn → Chosen P b

consider-Chosen :
    (P : ℕ → Type 0) (d : Field) (p : Vec2Fixed) (here : ℕ) (n : Tile) (dx dy : ℤ) (bit : ℕ)
    (b : Best)
    → here ≤ unreachable
    → (axis_feasible p dx dy ≡ true → P bit)
    → Chosen P b
    → Chosen P (consider d p here n dx dy bit b)
unfolding consider
consider-Chosen P d p here n dx dy bit b le ok c =
    let nd = dist_at d n in
    if-elim (Chosen P) (tile_passable n && ltb nd here && axis_feasible p dx dy) _ b
      (λ e.
        if-elim (Chosen P) (ltb nd b.best) _ _
          (λ f. chosen refl (ok (and_right (tile_passable n && ltb nd here) _ e)))
          (λ f. elim c [
            | nothing h far ↦ absurd (
                omega (
                  arith,
                  ltb→lt nd here (
                      and_right (tile_passable n) _
                        (and_left (tile_passable n && ltb nd here) _ e)),
                  ltb→ge nd b.best f,
                  far,
                ))
            | chosen h q ↦ chosen refl q
          ]))
      (λ e. c)

-- A direction that leads down is found.
pub consider-have :
    (d : Field) (p : Vec2Fixed) (here : ℕ) (n : Tile) (dx dy : ℤ) (bit : ℕ) (b : Best)
    → (b.have ≡ true)
      ⊎ (tile_passable n ≡ true) × (dist_at d n < here) × (axis_feasible p dx dy ≡ true)
    → (consider d p here n dx dy bit b).have ≡ true
unfolding consider
consider-have d p here n dx dy bit b h =
    let nd = dist_at d n in
    if-elim (λ (c : Best). c.have ≡ true) (tile_passable n && ltb nd here && axis_feasible p dx dy)
      _ b (λ e. if-elim (λ (c : Best). c.have ≡ true) (ltb nd b.best) _ _ (λ f. refl) (λ f. refl))
      (λ e. elim h [
        | inl old ↦ old
        | inr (open_, less, free) ↦ cc (rw (open_, lt→ltb nd here less, free) at e)
      ])

pub best_on_x-Chosen :
    (d : Field) (p : Vec2Fixed) (t : Tile)
    → dist_at d t ≤ unreachable
    → Chosen (Horizontal p) (best_on_x d p t)
best_on_x-Chosen d p t le =
    consider-Chosen (Horizontal p) d p (dist_at d t) (left_of t) (negsuc 0) (pos 0) input_left _ le
      (leftwards refl)
      (consider-Chosen (Horizontal p) d p (dist_at d t) (right_of t) (pos 1) (pos 0) input_right
        no_best le (rightwards refl) (nothing refl refl))

pub best_on_y-Chosen :
    (d : Field) (p : Vec2Fixed) (t : Tile)
    → dist_at d t ≤ unreachable
    → Chosen (Vertical p) (best_on_y d p t)
best_on_y-Chosen d p t le =
    consider-Chosen (Vertical p) d p (dist_at d t) (above t) (pos 0) (negsuc 0) input_up _ le
      (upwards refl)
      (consider-Chosen (Vertical p) d p (dist_at d t) (below t) (pos 0) (pos 1) input_down no_best
        le (downwards refl) (nothing refl refl))

pub toward_center_x :
    (p center : Vec2Fixed)
    → (press_toward_center_x p center ≡ 0) ⊎ Horizontal p (press_toward_center_x p center)
unfolding press_toward_center_x
toward_center_x p center =
    let P : ℕ → Type 0 = λ b. (b ≡ 0) ⊎ Horizontal p b in
    if-elim P (ltb_ℤ p.x (center.x -ℤ pos align_tol) && axis_feasible p (pos 1) (pos 0)) _ _
      (λ e. inr (rightwards refl (and_right (ltb_ℤ p.x (center.x -ℤ pos align_tol)) _ e)))
      (λ e.
        if-elim P (ltb_ℤ (center.x +ℤ pos align_tol) p.x && axis_feasible p (negsuc 0) (pos 0)) _ _
          (λ f. inr (leftwards refl (and_right (ltb_ℤ (center.x +ℤ pos align_tol) p.x) _ f)))
          (λ f. inl refl))

pub toward_center_y :
    (p center : Vec2Fixed)
    → (press_toward_center_y p center ≡ 0) ⊎ Vertical p (press_toward_center_y p center)
unfolding press_toward_center_y
toward_center_y p center =
    let P : ℕ → Type 0 = λ b. (b ≡ 0) ⊎ Vertical p b in
    if-elim P (ltb_ℤ p.y (center.y -ℤ pos align_tol) && axis_feasible p (pos 0) (pos 1)) _ _
      (λ e. inr (downwards refl (and_right (ltb_ℤ p.y (center.y -ℤ pos align_tol)) _ e)))
      (λ e.
        if-elim P (ltb_ℤ (center.y +ℤ pos align_tol) p.y && axis_feasible p (pos 0) (negsuc 0)) _ _
          (λ f. inr (upwards refl (and_right (ltb_ℤ (center.y +ℤ pos align_tol) p.y) _ f)))
          (λ f. inl refl))

-- A button that an axis found, with what presses towards the center of the other one.
x_Moves :
    (p : Vec2Fixed) (a c : ℕ)
    → Horizontal p a
    → (c ≡ 0) ⊎ Vertical p c
    → Moves p (if not (c == 0) then bit_or a c else a)
x_Moves p a c h (inl e) = rw e (Horizontal-Moves p a h)
x_Moves p a c h (inr v) =
    if-elim (Moves p) (not (c == 0)) _ _ (λ e. (diagonal-Moves p a c h v).0)
      (λ e. Horizontal-Moves p a h)

y_Moves :
    (p : Vec2Fixed) (a c : ℕ)
    → Vertical p a
    → (c ≡ 0) ⊎ Horizontal p c
    → Moves p (if not (c == 0) then bit_or a c else a)
y_Moves p a c h (inl e) = rw e (Vertical-Moves p a h)
y_Moves p a c h (inr v) =
    if-elim (Moves p) (not (c == 0)) _ _ (λ e. (diagonal-Moves p c a v h).1)
      (λ e. Vertical-Moves p a h)

center-IsFeasible :
    (p : Vec2Fixed) (cx cy : ℕ)
    → (cx ≡ 0) ⊎ Horizontal p cx
    → (cy ≡ 0) ⊎ Vertical p cy
    → IsFeasible p (if not (cy == 0) then cy else (if not (cx == 0) then cx else 0))
center-IsFeasible p cx cy h (inr v) =
    if-elim (IsFeasible p) (not (cy == 0)) _ _ (λ e. Moves.feasible (Vertical-Moves p cy v))
      (λ e.
        absurd
          (Moves.some_button (Vertical-Moves p cy v) ((==_iff cy 0).0 (not-false (cy == 0) e))))
center-IsFeasible p cx cy (inl e) (inl f) = rw (e, f) (none-IsFeasible p)
center-IsFeasible p cx cy (inr h) (inl f) = rw f (
    if-elim (IsFeasible p) (not (cx == 0)) cx 0 (λ e. Moves.feasible (Horizontal-Moves p cx h))
      (λ e. none-IsFeasible p))

-- What is pressed is feasible, and something is pressed where an axis has found a way.
pub buttons_of_lem :
    (p : Vec2Fixed) (bx by : Best) (cx cy : ℕ)
    → Chosen (Horizontal p) bx
    → Chosen (Vertical p) by
    → (cx ≡ 0) ⊎ Horizontal p cx
    → (cy ≡ 0) ⊎ Vertical p cy
    → IsFeasible p (buttons_of bx by cx cy)
      × ((bx.have ≡ true) ⊎ (by.have ≡ true) → buttons_of bx by cx cy ≢ 0)
buttons_of_lem p bx by cx cy (chosen e h) (chosen f v) kx ky =
    rw (e, f) (let m = (diagonal-Moves p bx.btn by.btn h v).0 in (m.feasible, λ o. m.some_button))
buttons_of_lem p bx by cx cy (chosen e h) (nothing f far) kx ky =
    rw (e, f) (let m = x_Moves p bx.btn cy h ky in (m.feasible, λ o. m.some_button))
buttons_of_lem p bx by cx cy (nothing e far) (chosen f v) kx ky =
    rw (e, f) (let m = y_Moves p by.btn cx v kx in (m.feasible, λ o. m.some_button))
buttons_of_lem p bx by cx cy (nothing e far) (nothing f away) kx ky =
    rw (e, f) (center-IsFeasible p cx cy kx ky, λ o. elim o [ inl h ↦ cc | inr h ↦ cc ])
