-- ===== src/Server/Lobby/Host.antt =====
-- Who becomes the host in server/lobby.cpp when the host leaves.
use networked_capture_the_fl.Prelude.{
  ltb→ge, length, if-elim, ltb, and_right, or_right, ==_iff, Bool-cases, if_true, if-elim, ℕ, ◌≤◌,
  ◌≡◌, sym, ap, subst, inl, inr, Bool, true, false, ◌||◌, List, [], ◌∷◌, arith,
}
use networked_capture_the_fl.Server.Lobby.{Lobby, member, is_empty, can_issue_start, begin_match}
use networked_capture_the_fl.Server.Lobby.Laws.{Reached, Reached-IsRoster}

-- The least of the players, given that one of them is `y`.
IsLowest : ℕ → ℕ → List ℕ → Type 0
IsLowest x y ids = (member x ids ≡ true) × (x ≤ y)

crowd : (ids : List ℕ) → 2 ≤ length ids → is_empty ids ≡ true → ⊥
crowd [] h e = omega arith
crowd (x ∷ xs) h e = cc

-- In a lobby that any calls have led to, a match that may start has at least two players, and who
-- may start it is one of them.
pub begin_match-member :
    (l : Lobby) (p : ℕ)
    → Reached l
    → can_issue_start p l ≡ true
    → (begin_match l).0 ≡ true
    → (2 ≤ length l.player_ids) × (member p l.player_ids ≡ true)
unfolding can_issue_start begin_match
begin_match-member l p r may begins =
    let two : 2 ≤ length l.player_ids =
      elim (Bool-cases (l.in_progress || ltb (length l.player_ids) 2)) [
        | inl e ↦
            let no_start : (begin_match l).0 ≡ false =
              ap (λ (o : Bool × Lobby). o.0)
                (if_true (l.in_progress || ltb (length l.player_ids) 2) (false, l) _ e) in
            cc
        | inr e ↦ ltb→ge _ _ (or_right _ _ e)
      ] in
    let host : p ≡ l.host_id = (==_iff p l.host_id).0 (and_right _ _ may) in
    (
      two,
      elim (Reached-IsRoster r).hosted [
        | inl none_left ↦ absurd (crowd l.player_ids two none_left)
        | inr m ↦ subst (λ k. member k l.player_ids ≡ true) (sym host) m
      ],
    )
