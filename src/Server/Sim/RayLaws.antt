-- ===== src/Server/Sim/RayLaws.antt =====
-- What a shot of server/sim.cpp hits.
use networked_capture_the_fl.Prelude.{
  and_left, and_right, Bool-cases, length, get_or, ℤ, ℕ, zero, suc, ◌+◌, ◌<◌, ◌≡◌, refl, sym, subst,
  if_true, if_false, ◌∙◌, inl, inr, Bool, true, false, ◌&&◌, Option, none, some, List, [], ◌∷◌,
  arith,
}
use networked_capture_the_fl.GameTypes.{Vec2Fixed, Team}
use networked_capture_the_fl.Server.Sim.{Player, no_one}
use networked_capture_the_fl.Server.Sim.Ray.{
  max_ray_steps, Marcher, march, in_box, is_target, find_struck, ray_loop, cast_ray,
}

-- A player whom a ray of a team may hit at a point.
pub record IsStruck (t : Team) (p : Vec2Fixed) (players : List Player) (i : ℕ) : Type 0 where
  pub slot : i < length players
  pub target : is_target t (get_or players i no_one) ≡ true
  pub inside : in_box p.x p.y (get_or players i no_one).position ≡ true

find_struck_lem :
    (t : Team) (px py : ℤ) (first k : ℕ) (es : List Player)
    → find_struck t px py first es ≡ some k
    → (i : ℕ) × (k ≡ first + i) × IsStruck t (record { x = px; y = py }) es i
find_struck_lem t px py first k [] h = cc
find_struck_lem t px py first k (e ∷ es) h =
    elim (Bool-cases (is_target t e && in_box px py e.position)) [
      | inl hit ↦ (
        0,
        ground (arith),
        record {
          slot = omega arith;
          target = and_left _ _ hit;
          inside = and_right (is_target t e) _ hit;
        },
      )
      | inr miss ↦
          let (i, e', v) = find_struck_lem t px py (first + 1) k es ground arith in
          (
            suc i,
            omega arith,
            record { slot = omega (arith, v.slot); target = v.target; inside = v.inside },
          )
    ]

pub find_struck-IsStruck :
    (t : Team) (px py : ℤ) (k : ℕ) (es : List Player)
    → find_struck t px py 0 es ≡ some k
    → IsStruck t (record { x = px; y = py }) es k
find_struck-IsStruck t px py k es e =
    let (j, at, v) = find_struck_lem t px py 0 k es e in
    let same : j ≡ k = omega (arith, at) in
    subst (λ i. IsStruck t (record { x = px; y = py }) es i) same v

-- A point at which no player may be hit.
abbrev pub MissesAll : Team → Vec2Fixed → List Player → Type 0
MissesAll t p ps =
    (i : ℕ)
    → is_target t (get_or ps i no_one) && in_box p.x p.y (get_or ps i no_one).position ≡ false

find_struck-past :
    (t : Team) (px py : ℤ) (first : ℕ) (e : Player) (es : List Player)
    → find_struck t px py first (e ∷ es) ≡ none
    → (is_target t e && in_box px py e.position ≡ false)
      × (find_struck t px py (first + 1) es ≡ none)
find_struck-past t px py first e es h =
    elim (Bool-cases (is_target t e && in_box px py e.position)) [
      | inl hit ↦
          let some_one : find_struck t px py first (e ∷ es) ≡ some first =
            if_true (is_target t e && in_box px py e.position) _ _ hit in
          cc
      | inr miss ↦ (miss, sym (if_false (is_target t e && in_box px py e.position) _ _ miss) ∙ h)
    ]

pub find_struck-none :
    (t : Team) (px py : ℤ) (first : ℕ) (es : List Player)
    → find_struck t px py first es ≡ none
    → MissesAll t (record { x = px; y = py }) es
find_struck-none t px py first [] h i = refl
find_struck-none t px py first (e ∷ es) h zero = (find_struck-past t px py first e es h).0
find_struck-none t px py first (e ∷ es) h (suc i) =
    find_struck-none t px py (first + 1) es (find_struck-past t px py first e es h).1 i

-- How a step of the ray ends.
abbrev pub outcome : Bool → Option ℕ → Vec2Fixed → Option ℕ × Vec2Fixed → Option ℕ × Vec2Fixed
outcome wall struck p later = elim wall [
  | true ↦ (none, p)
  | false ↦ elim struck [ some id ↦ (some id, p) | none ↦ later ]
]

pub outcome-elim {κ} :
    (P : Option ℕ × Vec2Fixed → Type κ) (wall : Bool) (struck : Option ℕ) (p : Vec2Fixed)
    (later : Option ℕ × Vec2Fixed)
    → (wall ≡ true → P (none, p))
    → ((i : ℕ) → wall ≡ false → struck ≡ some i → P (some i, p))
    → (wall ≡ false → struck ≡ none → P later)
    → P (outcome wall struck p later)
outcome-elim P true struck p later f g h = f refl
outcome-elim P false none p later f g h = h refl refl
outcome-elim P false (some i) p later f g h = g i refl refl

abbrev Hits : Team → List Player → Option ℕ × Vec2Fixed → Type 0
Hits t ps (o, p) = (k : ℕ) → o ≡ some k → IsStruck t p ps k

none_some : {A : Type 0} (k : ℕ) → none ≡ some k → A
none_some k h = cc

ray_loop-Hits :
    (t : Team) (ps : List Player) (step : ℤ × ℤ) (n : ℕ) (mx my : Marcher)
    → Hits t ps (ray_loop t ps step n mx my)
ray_loop-Hits t ps step zero mx my = λ k h. cc
ray_loop-Hits t ps step (suc n) mx my =
    outcome-elim (Hits t ps) _ _ _ _ (λ e k h. none_some k h)
      (λ i w e k h. find_struck-IsStruck t (march step.0 mx).at (march step.1 my).at k ps (e ∙ h))
      (λ w e. ray_loop-Hits t ps step n (march step.0 mx) (march step.1 my))

pub cast_ray-IsStruck :
    (direction : ℕ → ℤ × ℤ) (origin : Vec2Fixed) (aim : ℕ) (t : Team) (ps : List Player) (k : ℕ)
    → let (o, p) = cast_ray direction origin aim t ps in o ≡ some k → IsStruck t p ps k
unfolding cast_ray
cast_ray-IsStruck direction origin aim t ps k h = ray_loop-Hits t ps _ max_ray_steps _ _ k h
