-- ===== src/Bot/FlowField/Shortest.antt =====
-- The search of bot/flow_field.cpp ends, and its field holds the lengths of the shortest walks.
use networked_capture_the_fl.Prelude.{
  Bool-cases, length, ℕ, zero, suc, ◌+◌, ◌*◌, ◌%◌, ◌^◌, ◌≤◌, ◌<◌, ◌≡◌, refl, sym, ap, subst, ◌∙◌,
  ◌≢◌, ◌⊎◌, inl, inr, true, List, [], ◌∷◌, arith,
}
use mathlib.Core.List.{Memᴰ}
use mathlib.Core.List.Memᴰ
use networked_capture_the_fl.GameTypes.{Vec2Fixed}
use networked_capture_the_fl.GameTypes.Config.{map_width_tiles, map_height_tiles}
use networked_capture_the_fl.Bot.FlowField.{
  Tile, unreachable, tile_of, on_grid, tile_passable, Field, cell, put_cell, no_field, Search,
  offer, right_of, left_of, below, above, expand, search_loop, search_from, build, dist_at,
}
use networked_capture_the_fl.Bot.FlowField.Cells.{
  Inside, on_grid-Inside, IsGrid, put_cell-IsGrid, no_field-IsGrid, cell-no_field, blanks,
  blanks-put_cell, blanks-no_field,
}
use networked_capture_the_fl.Bot.FlowField.Rounds.{
  tile_passable-on_grid, tile_passable-Inside, work, offer-Conserves,
}
use networked_capture_the_fl.Bot.FlowField.Walks.{
  Adjacent, to_right, to_left, downwards, upwards, Walk, stand, stride, Reached, Memᴰ-cons, Sorted,
}
use networked_capture_the_fl.Bot.FlowField.Levels.{
  new_cell, Reached-new, Reached-cases, Round, offer-Round, offer-Reached, offer-keeps,
}

-- Between two rounds; every distance is at most `r`.
pub record Levels (source : Tile) (r : ℕ) (s : Search) : Type 0 where
  pub grid : IsGrid s.dist
  pub home : Inside source
  pub origin : cell s.dist source ≡ 0
  pub queued : (u : Tile) → Memᴰ u s.queue → Reached s.dist u
  pub sound : (u : Tile) → Reached s.dist u → Walk source u (cell s.dist u)
  pub small : (u : Tile) → Reached s.dist u → cell s.dist u ≤ r
  pub ordered : Sorted s.dist s.queue
  pub level : (u v : Tile) → Memᴰ u s.queue → Reached s.dist v → cell s.dist v ≤ suc (cell s.dist u)
  pub closed :
      (t u : Tile)
      → Reached s.dist t
      → Adjacent t u
      → tile_passable u ≡ true
      → Memᴰ t s.queue ⊎ (cell s.dist u ≤ suc (cell s.dist t))

start-Round :
    (source cur : Tile) (r : ℕ) (d : Field) (rest : List Tile)
    → Levels source r (record { dist = d; queue = cur ∷ rest })
    → Round source cur (cell d cur) (suc r) (record { dist = d; queue = rest })
start-Round source cur r d rest h = record {
  grid = h.grid;
  home = h.home;
  origin = h.origin;
  from = h.queued cur (Memᴰ.head refl);
  away = refl;
  queued = λ u m. h.queued u (Memᴰ.tail m);
  sound = h.sound;
  small = λ u v. omega (arith, h.small u v);
  ordered = h.ordered.1;
  bottom = h.ordered.0;
  top = λ u v. h.level cur u (Memᴰ.head refl) v;
  closed = λ t u v a p. elim (h.closed t u v a p) [
    | inl m ↦ elim (Memᴰ-cons t cur rest m) [ inl e ↦ inr (inl e) | inr later ↦ inl later ]
    | inr le ↦ inr (inr le)
  ];
}

-- After the turns of the four neighbors the tile itself is done.
end-Round :
    (source cur : Tile) (k r : ℕ) (s : Search)
    → ((u : Tile) → Adjacent cur u → tile_passable u ≡ true → Reached s.dist u)
    → Round source cur k r s
    → Levels source r s
end-Round source cur k r s around h = record {
  grid = h.grid;
  home = h.home;
  origin = h.origin;
  queued = h.queued;
  sound = h.sound;
  small = h.small;
  ordered = h.ordered;
  level = λ u v m w. omega (arith, h.bottom u m, h.top v w);
  closed = λ t u v a p. elim (h.closed t u v a p) [
    | inl m ↦ inl m
    | inr (inl e) ↦ inr (
        omega
          (arith, h.away, ap (cell s.dist) e, h.top u (around u (subst (λ w. Adjacent w u) e a) p)))
    | inr (inr le) ↦ inr le
  ];
}

expand-Levels :
    (source cur : Tile) (r : ℕ) (d : Field) (rest : List Tile)
    → suc r < 65534
    → Levels source r (record { dist = d; queue = cur ∷ rest })
    → Levels source (suc r) (expand cur (record { dist = d; queue = rest }))
      × (work (expand cur (record { dist = d; queue = rest })) ≡ blanks d + length rest)
unfolding expand
expand-Levels source cur r d rest bound h =
    let k = cell d cur in
    let small : k ≤ r = h.small cur (h.queued cur (Memᴰ.head refl)) in
    let s0 : Search = record { dist = d; queue = rest } in
    let s1 = offer (suc k) s0 (right_of cur) in
    let s2 = offer (suc k) s1 (left_of cur) in
    let s3 = offer (suc k) s2 (below cur) in
    let s4 = offer (suc k) s3 (above cur) in
    let finite : suc k ≢ unreachable = λ e. absurd (omega (arith, e)) in
    let r0 = start-Round source cur r d rest h in
    let r1 =
      offer-Round source cur k (suc r) s0 (right_of cur) (omega arith) bound (to_right refl) r0 in
    let r2 =
      offer-Round source cur k (suc r) s1 (left_of cur) (omega arith) bound (to_left refl) r1 in
    let r3 =
      offer-Round source cur k (suc r) s2 (below cur) (omega arith) bound (downwards refl) r2 in
    let r4 =
      offer-Round source cur k (suc r) s3 (above cur) (omega arith) bound (upwards refl) r3 in
    let around : (u : Tile) → Adjacent cur u → tile_passable u ≡ true → Reached s4.dist u = λ u a p.
      elim a [
        | to_right e ↦ offer-keeps (suc k) s3 (above cur) u finite r3.grid (
            offer-keeps (suc k) s2 (below cur) u finite r2.grid (
              offer-keeps (suc k) s1 (left_of cur) u finite r1.grid (
                subst (Reached s1.dist) (sym e) (
                  offer-Reached (suc k) s0 (right_of cur) finite r0.grid
                    (subst (λ t. tile_passable t ≡ true) e p)))))
        | to_left e ↦ offer-keeps (suc k) s3 (above cur) u finite r3.grid (
            offer-keeps (suc k) s2 (below cur) u finite r2.grid (
              subst (Reached s2.dist) (sym e) (
                offer-Reached (suc k) s1 (left_of cur) finite r1.grid
                  (subst (λ t. tile_passable t ≡ true) e p))))
        | downwards e ↦ offer-keeps (suc k) s3 (above cur) u finite r3.grid (
            subst (Reached s3.dist) (sym e) (
              offer-Reached (suc k) s2 (below cur) finite r2.grid
                (subst (λ t. tile_passable t ≡ true) e p)))
        | upwards e ↦ subst (Reached s4.dist) (sym e) (
            offer-Reached (suc k) s3 (above cur) finite r3.grid
              (subst (λ t. tile_passable t ≡ true) e p))
      ] in
    let next : (cell d cur + 1) % 2 ^ 16 ≡ suc k = omega arith in
    rw next (
      end-Round source cur k (suc r) s4 around r4,
      omega (
        arith,
        (offer-Conserves (suc k) s3 (above cur) finite r3.grid).same,
        (offer-Conserves (suc k) s2 (below cur) finite r2.grid).same,
        (offer-Conserves (suc k) s1 (left_of cur) finite r1.grid).same,
        (offer-Conserves (suc k) s0 (right_of cur) finite r0.grid).same,
      ),
    )

Levels-weaken :
    (source : Tile) (r n : ℕ) (s : Search) → r ≤ n → Levels source r s → Levels source n s
Levels-weaken source r n s le h = record {
  grid = h.grid;
  home = h.home;
  origin = h.origin;
  queued = h.queued;
  sound = h.sound;
  small = λ u v. omega (arith, h.small u v);
  ordered = h.ordered;
  level = h.level;
  closed = h.closed;
}

-- A search that is over: nothing waits.
pub record Done (source : Tile) (s : Search) : Type 0 where
  pub levels : Levels source 1000 s
  pub over : s.queue ≡ []

-- With fuel for every tile that is blank or waits, the queue is empty at the end.
loop-Done :
    (fuel : ℕ) (source : Tile) (r : ℕ) (d : Field) (q : List Tile)
    → r + fuel ≤ 1000
    → blanks d + length q ≤ fuel
    → Levels source r (record { dist = d; queue = q })
    → Done source (search_loop fuel (record { dist = d; queue = q }))
unfolding search_loop
loop-Done zero source r d [] bound enough h = record {
  levels = Levels-weaken source r 1000 _ (omega arith) h;
  over = refl;
}
loop-Done zero source r d (cur ∷ rest) bound enough h = absurd (omega arith)
loop-Done (suc fuel) source r d [] bound enough h = record {
  levels = Levels-weaken source r 1000 _ (omega arith) h;
  over = refl;
}
loop-Done (suc fuel) source r d (cur ∷ rest) bound enough h =
    let (kept, less) = expand-Levels source cur r d rest (omega arith) h in
    let s = expand cur (record { dist = d; queue = rest }) in
    loop-Done fuel source (suc r) s.dist s.queue (omega arith) (omega (arith, less)) kept

start-Levels :
    (source : Tile)
    → tile_passable source ≡ true
    → Levels source 0 (record { dist = put_cell no_field source 0; queue = source ∷ [] })
start-Levels source p =
    let inside = tile_passable-Inside source p in
    let s : Search = record { dist = no_field; queue = [] } in
    let blank = cell-no_field source inside in
    let finite : 0 ≢ unreachable = λ e. absurd (omega (arith, e)) in
    let new = new_cell 0 s source finite no_field-IsGrid inside blank in
    let only : (u : Tile) → Reached (put_cell no_field source 0) u → u ≡ source = λ u v.
      elim (Reached-cases 0 s source finite no_field-IsGrid inside blank u v) [
        | inl e ↦ e
        | inr old ↦ absurd (old.finite (cell-no_field u old.inside))
      ] in
    let zero_at : (u : Tile)
        → Reached (put_cell no_field source 0) u
        → cell (put_cell no_field source 0) u ≡ 0 =
      λ u v. ap (cell (put_cell no_field source 0)) (only u v) ∙ new in
    record {
      grid = put_cell-IsGrid no_field source 0 no_field-IsGrid;
      home = inside;
      origin = new;
      queued = λ u m.
          rw (Memᴰ.eq_of_singleton m) (Reached-new 0 s source finite no_field-IsGrid inside blank);
      sound = λ u v.
          subst (λ t. Walk source t (cell (put_cell no_field source 0) t)) (sym (only u v))
            (stand p new);
      small = λ u v. omega (arith, zero_at u v);
      ordered = (λ u m. absurd (Memᴰ.not-nil m), tt);
      level = λ u v m w. omega (arith, zero_at v w);
      closed = λ t u v a q. inl (Memᴰ.head (only t v));
    }

-- The search of a passable tile ends: every tile that was put in the queue has been taken out.
pub search_from-Done :
    (source : Tile) → tile_passable source ≡ true → Done source (search_from source)
unfolding search_from
search_from-Done source p =
    let inside = tile_passable-Inside source p in
    loop-Done (map_width_tiles * map_height_tiles) source 0 (put_cell no_field source 0)
      (source ∷ []) (omega arith)
      (omega (
        arith,
        blanks-put_cell no_field source 0 no_field-IsGrid inside (cell-no_field source inside)
            (λ e. absurd (omega (arith, e))),
        blanks-no_field,
      ))
      (start-Levels source p)

pub Walk-passable : (source t : Tile) (n : ℕ) → Walk source t n → tile_passable t ≡ true
Walk-passable source t n (stand p e) = p
Walk-passable source t n (stride w a p e) = p

-- A finished search knows no way that is shorter than a walk.
Walk-le :
    (source : Tile) (s : Search)
    → Done source s
    → (t : Tile) (n : ℕ) → Walk source t n
    → (cell s.dist t ≤ n) × (cell s.dist t ≢ unreachable)
Walk-le source s h t n (stand p e) =
    (omega (arith, h.levels.origin), λ f. absurd (omega (arith, f, h.levels.origin)))
Walk-le source s h t n (stride {t = u} {n = k} w a p e) =
    let (le, finite) = Walk-le source s h u k w in
    let v : Reached s.dist u = record {
      inside = tile_passable-Inside u (Walk-passable source u k w);
      finite = finite;
    } in
    let small = h.levels.small u v in
    elim (h.levels.closed u t v a p) [
      | inl m ↦ absurd (Memᴰ.not-nil (subst (Memᴰ u) h.over m))
      | inr near ↦ (omega (arith, near, le, e), λ f. absurd (omega (arith, f, near, small)))
    ]

-- The length of a shortest walk, or the mark of a tile to which there is none.
pub record IsShortest (source t : Tile) (n : ℕ) : Type 0 where
  pub walk : n ≢ unreachable → Walk source t n
  pub least : (m : ℕ) → Walk source t m → (n ≤ m) × (n ≢ unreachable)

-- The field that is built from a place whose tile is passable holds, for every tile, the least number of
-- steps of a walk from there through passable tiles, and marks exactly the tiles to which there is none.
pub build-IsShortest :
    (source_fp : Vec2Fixed) (t : Tile)
    → tile_passable (tile_of source_fp) ≡ true
    → IsShortest (tile_of source_fp) t (dist_at (build source_fp) t)
unfolding build dist_at
build-IsShortest source_fp t p =
    let source = tile_of source_fp in
    let h = search_from-Done source p in
    elim (Bool-cases (on_grid t)) [
      | inl e ↦
          rw (p, e)
            (record {
              walk = λ f. h.levels.sound t (record { inside = on_grid-Inside t e; finite = f });
              least = λ m w. Walk-le source (search_from source) h t m w;
            })
      | inr e ↦
          rw (p, e)
            (record {
              walk = λ f. absurd (f refl);
              least = λ m w. cc (tile_passable-on_grid t (Walk-passable source t m w));
            })
    ]
