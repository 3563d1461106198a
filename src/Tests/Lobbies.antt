-- ===== src/Tests/Lobbies.antt =====
-- A lobby at concrete inputs (server/lobby.cpp).
use networked_capture_the_fl.Prelude.{
  ℕ, ◌+◌, ◌≤◌, ◌≡◌, refl, ◌⊎◌, true, false, List, [], ◌∷◌, length, suc,
}
use networked_capture_the_fl.Server.Lobby.{
  full, Lobby, no_lobby, member, add_player, remove_player, promote_host, can_issue_start,
  begin_match, assign_teams,
}
use networked_capture_the_fl.Server.Lobby.Laws.{
  Reached, opened, added, removed, IsRoster, Reached-IsRoster,
}
use networked_capture_the_fl.Server.Lobby.Host.{begin_match-member}
use networked_capture_the_fl.Server.Lobby.Teams.{count, assign_teams-balanced}

abbrev three : Lobby
three = record { player_ids = 4 ∷ 7 ∷ 2 ∷ []; host_id = 4; in_progress = false }

three-added : (add_player 2 (add_player 7 (add_player 4 no_lobby).1).1).1 ≡ three
unfolding add_player
three-added = refl

-- Nobody joins twice.
joins_once : (add_player 7 three).0 ≡ full
unfolding add_player
joins_once = refl

-- The lowest identifier follows the host.
succession : (remove_player 4 three).host_id ≡ 2
unfolding remove_player promote_host
succession = refl

three-Reached : Reached three
unfolding add_player
three-Reached = added 2 (added 7 (added 4 opened))

Reached-IsRoster_example : IsRoster (remove_player 4 three)
Reached-IsRoster_example = Reached-IsRoster (removed 4 three-Reached)

begin_match-member_example : (2 ≤ length three.player_ids) × (member 4 three.player_ids ≡ true)
unfolding can_issue_start begin_match
begin_match-member_example = begin_match-member three 4 three-Reached refl refl

-- A shuffle that moves nobody.
abbrev same_order : List ℕ → List ℕ
same_order ids = ids

assign_teams-balanced_example :
    let (red, blue) = assign_teams same_order three in
    ((x : ℕ) → count x red + count x blue ≡ count x three.player_ids)
    × ((length red ≡ length blue) ⊎ (length red ≡ suc (length blue)))
assign_teams-balanced_example = assign_teams-balanced same_order three (λ ids x. refl)
