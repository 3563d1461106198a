-- ===== src/Bot/FlowField/Levels.antt =====
-- One round of the search of bot/flow_field.cpp: what is reached lies at most a step further.
use networked_capture_the_fl.Prelude.{
  ℕ, suc, ◌≤◌, ◌<◌, ◌≡◌, refl, sym, ap, subst, ◌∙◌, ◌≢◌, ◌⊎◌, inl, inr, true, arith,
}
use mathlib.Core.List.{Memᴰ}
use mathlib.Core.List.Memᴰ
use networked_capture_the_fl.Bot.FlowField.{
  Tile, unreachable, tile_passable, cell, put_cell, Search, offer,
}
use networked_capture_the_fl.Bot.FlowField.Cells.{Inside, IsGrid, put_cell-IsGrid, cell-put_cell}
use networked_capture_the_fl.Bot.FlowField.Rounds.{tile_passable-Inside, reached, offer-cases}
use networked_capture_the_fl.Bot.FlowField.Walks.{
  Adjacent, Walk, stride, Reached, Memᴰ-snoc, Sorted, Sorted-snoc,
}

-- A write to a blank tile: what is reached then, and what stays.
module _ (next : ℕ) (s : Search) (n : Tile) (finite : next ≢ unreachable) (g : IsGrid s.dist)
    (inside : Inside n) (blank : cell s.dist n ≡ unreachable) where
  pub new_cell : cell (put_cell s.dist n next) n ≡ next
  new_cell = elim (cell-put_cell s.dist n n next g inside inside) [
    | inl (same, e) ↦ e
    | inr (other, e) ↦ absurd (other refl)
  ]

  old_cell : (u : Tile) → Reached s.dist u → cell (put_cell s.dist n next) u ≡ cell s.dist u
  old_cell u h = elim (cell-put_cell s.dist n u next g inside h.inside) [
    | inl (same, e) ↦ absurd (h.finite (subst (λ t. cell s.dist t ≡ unreachable) same blank))
    | inr (other, e) ↦ e
  ]

  pub Reached-new : Reached (put_cell s.dist n next) n
  Reached-new = record { inside = inside; finite = λ e. finite (sym new_cell ∙ e) }

  Reached-old : (u : Tile) → Reached s.dist u → Reached (put_cell s.dist n next) u
  Reached-old u h = record { inside = h.inside; finite = λ e. h.finite (sym (old_cell u h) ∙ e) }

  pub Reached-cases : (u : Tile) → Reached (put_cell s.dist n next) u → (u ≡ n) ⊎ Reached s.dist u
  Reached-cases u h = elim (cell-put_cell s.dist n u next g inside h.inside) [
    | inl (same, e) ↦ inl (sym same)
    | inr (other, e) ↦ inr (record { inside = h.inside; finite = λ f. h.finite (e ∙ f) })
  ]

-- Between two neighbors of the tile `cur`, which is `k` steps away.
pub record Round (source cur : Tile) (k r : ℕ) (s : Search) : Type 0 where
  pub grid : IsGrid s.dist
  pub home : Inside source
  pub origin : cell s.dist source ≡ 0
  pub from : Reached s.dist cur
  pub away : cell s.dist cur ≡ k
  pub queued : (u : Tile) → Memᴰ u s.queue → Reached s.dist u
  pub sound : (u : Tile) → Reached s.dist u → Walk source u (cell s.dist u)
  pub small : (u : Tile) → Reached s.dist u → cell s.dist u ≤ r
  pub ordered : Sorted s.dist s.queue
  pub bottom : (u : Tile) → Memᴰ u s.queue → k ≤ cell s.dist u
  pub top : (u : Tile) → Reached s.dist u → cell s.dist u ≤ suc k
  pub closed :
      (t u : Tile)
      → Reached s.dist t
      → Adjacent t u
      → tile_passable u ≡ true
      → Memᴰ t s.queue ⊎ (t ≡ cur) ⊎ (cell s.dist u ≤ suc (cell s.dist t))

reached-Round :
    (source cur : Tile) (k r : ℕ) (s : Search) (n : Tile)
    → k < r
    → r < 65534
    → Adjacent cur n
    → tile_passable n ≡ true
    → cell s.dist n ≡ unreachable
    → Round source cur k r s
    → Round source cur k r (reached (suc k) s n)
reached-Round source cur k r s n less bound near open_ blank h =
    let inside = tile_passable-Inside n open_ in
    let finite : suc k ≢ unreachable = λ e. absurd (omega (arith, e)) in
    let new = new_cell (suc k) s n finite h.grid inside blank in
    let old = old_cell (suc k) s n finite h.grid inside blank in
    let cases = Reached-cases (suc k) s n finite h.grid inside blank in
    let keep = Reached-old (suc k) s n finite h.grid inside blank in
    let at_home : Reached s.dist source = record {
      inside = h.home;
      finite = λ e. absurd (omega (arith, e, h.origin));
    } in
    record {
      grid = put_cell-IsGrid s.dist n (suc k) h.grid;
      home = h.home;
      origin = old source at_home ∙ h.origin;
      from = keep cur h.from;
      away = old cur h.from ∙ h.away;
      queued = λ u m. elim (Memᴰ-snoc u n s.queue m) [
        | inl before ↦ keep u (h.queued u before)
        | inr last ↦ rw last (Reached-new (suc k) s n finite h.grid inside blank)
      ];
      sound = λ u v. elim (cases u v) [
        | inl e ↦ rw e (stride (h.sound cur h.from) near open_ (new ∙ ap suc (sym h.away)))
        | inr w ↦ subst (Walk source u) (sym (old u w)) (h.sound u w)
      ];
      small = λ u v. elim (cases u v) [
        | inl e ↦ rw e (omega (arith, new))
        | inr w ↦ omega (arith, old u w, h.small u w)
      ];
      ordered =
          Sorted-snoc s.dist (put_cell s.dist n (suc k)) n s.queue (λ u m. old u (h.queued u m))
            (λ u m. omega (arith, new, h.top u (h.queued u m))) h.ordered;
      bottom = λ u m. elim (Memᴰ-snoc u n s.queue m) [
        | inl before ↦ omega (arith, old u (h.queued u before), h.bottom u before)
        | inr last ↦ rw last (omega (arith, new))
      ];
      top = λ u v. elim (cases u v) [
        | inl e ↦ rw e (omega (arith, new))
        | inr w ↦ omega (arith, old u w, h.top u w)
      ];
      closed = λ t u v a p. elim (cases t v) [
        | inl e ↦ inl (Memᴰ.append_right s.queue (Memᴰ.head e))
        | inr w ↦ elim (h.closed t u w a p) [
          | inl m ↦ inl (Memᴰ.append_left _ m)
          | inr (inl e) ↦ inr (inl e)
          | inr (inr le) ↦
              let was : Reached s.dist u = record {
                inside = tile_passable-Inside u p;
                finite = λ e. absurd (omega (arith, e, le, h.small t w));
              } in
              inr (inr (omega (arith, old u was, old t w, le)))
        ]
      ];
    }

pub offer-Round :
    (source cur : Tile) (k r : ℕ) (s : Search) (n : Tile)
    → k < r
    → r < 65534
    → Adjacent cur n
    → Round source cur k r s
    → Round source cur k r (offer (suc k) s n)
offer-Round source cur k r s n less bound near h = elim (offer-cases (suc k) s n) [
  | inl (e, f) ↦ subst (Round source cur k r) (sym e) h
  | inr (e, open_, blank) ↦
      subst (Round source cur k r) (sym e)
        (reached-Round source cur k r s n less bound near open_ blank h)
]

-- A passable neighbor is reached after its turn, and what is reached stays so.
pub offer-Reached :
    (next : ℕ) (s : Search) (n : Tile)
    → next ≢ unreachable
    → IsGrid s.dist
    → tile_passable n ≡ true
    → Reached (offer next s n).dist n
offer-Reached next s n finite g p = elim (offer-cases next s n) [
  | inl (e, f) ↦
      subst (λ (t : Search). Reached t.dist n) (sym e)
        (record { inside = tile_passable-Inside n p; finite = f p })
  | inr (e, open_, blank) ↦
      subst (λ (t : Search). Reached t.dist n) (sym e)
        (Reached-new next s n finite g (tile_passable-Inside n p) blank)
]

pub offer-keeps :
    (next : ℕ) (s : Search) (n u : Tile)
    → next ≢ unreachable
    → IsGrid s.dist
    → Reached s.dist u
    → Reached (offer next s n).dist u
offer-keeps next s n u finite g v = elim (offer-cases next s n) [
  | inl (e, f) ↦ subst (λ (t : Search). Reached t.dist u) (sym e) v
  | inr (e, open_, blank) ↦
      subst (λ (t : Search). Reached t.dist u) (sym e)
        (Reached-old next s n finite g (tile_passable-Inside n open_) blank u v)
]
