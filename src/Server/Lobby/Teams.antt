-- ===== src/Server/Lobby/Teams.antt =====
-- The deal of the teams in server/lobby.cpp.
use networked_capture_the_fl.Prelude.{
  ℕ, suc, ◌+◌, ◌≡◌, refl, sym, ◌∙◌, ap, ◌⊎◌, inl, inr, Bool, true, false, List, [], ◌∷◌, length,
  if◌then◌else◌, ◌==◌, arith,
}
use networked_capture_the_fl.Server.Lobby.{Lobby, deal, assign_teams}

-- How often a player is in a list.
abbrev pub count : ℕ → List ℕ → ℕ
count x [] = 0
count x (y ∷ ys) = (if y == x then 1 else 0) + count x ys

deal_count :
    (x : ℕ) (even : Bool) (ids : List ℕ)
    → let (red, blue) = deal even ids in count x red + count x blue ≡ count x ids
deal_count x even [] = refl
deal_count x true (y ∷ ys) = omega (arith, deal_count x false ys)
deal_count x false (y ∷ ys) = omega (arith, deal_count x true ys)

-- The team that is dealt to first has as many players as the other, or one more.
abbrev Leads : Bool → List ℕ × List ℕ → Type 0
Leads true (red, blue) = (length red ≡ length blue) ⊎ (length red ≡ suc (length blue))
Leads false (red, blue) = (length blue ≡ length red) ⊎ (length blue ≡ suc (length red))

deal-Leads : (even : Bool) (ids : List ℕ) → Leads even (deal even ids)
deal-Leads true [] = inl refl
deal-Leads false [] = inl refl
deal-Leads true (x ∷ xs) = elim (deal-Leads false xs) [
  | inl e ↦ inr (ap suc (sym e))
  | inr e ↦ inl (sym e)
]
deal-Leads false (x ∷ xs) = elim (deal-Leads true xs) [
  | inl e ↦ inr (ap suc (sym e))
  | inr e ↦ inl (sym e)
]

-- Given a shuffle that keeps every player as often as it occurs: each player of the roster is in
-- one team as often as in the roster, and the red team is as large as the blue one or larger by
-- one.
pub assign_teams-balanced :
    (shuffle : List ℕ → List ℕ) (l : Lobby)
    → ((ids : List ℕ) (x : ℕ) → count x (shuffle ids) ≡ count x ids)
    → let (red, blue) = assign_teams shuffle l in
      ((x : ℕ) → count x red + count x blue ≡ count x l.player_ids)
      × ((length red ≡ length blue) ⊎ (length red ≡ suc (length blue)))
unfolding assign_teams
assign_teams-balanced shuffle l keeps = (
  (λ x. deal_count x true (shuffle l.player_ids) ∙ keeps l.player_ids x),
  deal-Leads true (shuffle l.player_ids),
)
