-- ===== src/Server/Lobby.antt =====
-- server/lobby.cpp: the roster before a match, its host, and the deal of the teams. The shuffle of
-- the C++ library is a parameter.
pub mod Laws
pub mod Teams
pub mod Host
use networked_capture_the_fl.Prelude.{
  ℕ, ◌+◌, Bool, true, false, not, ◌&&◌, ◌||◌, List, [], ◌∷◌, ◌++◌, length, if◌then◌else◌, ltb, leb,
  ◌==◌,
}
use networked_capture_the_fl.GameTypes.Config.{max_players}

pub data JoinResult : Type 0 where
  joined full in_match : JoinResult

pub record Lobby : Type 0 where
  pub player_ids : List ℕ
  pub host_id : ℕ
  pub in_progress : Bool

abbrev pub no_lobby : Lobby
no_lobby = record { player_ids = []; host_id = 0; in_progress = false }

-- `std::find(…) != end()`
abbrev pub member : ℕ → List ℕ → Bool
member x [] = false
member x (y ∷ ys) = y == x || member x ys

-- `erase` of what `std::find` finds.
abbrev pub erase : ℕ → List ℕ → List ℕ
erase x [] = []
erase x (y ∷ ys) = let rest = erase x ys in if y == x then ys else y ∷ rest

-- `std::min_element` of a first element and the others.
abbrev pub lowest : ℕ → List ℕ → ℕ
lowest x [] = x
lowest x (y ∷ ys) = lowest (if ltb y x then y else x) ys

-- `player_ids_.empty() ? 0 : *std::min_element(…)`
abbrev pub lowest_or_zero : List ℕ → ℕ
lowest_or_zero [] = 0
lowest_or_zero (x ∷ xs) = lowest x xs

abbrev pub is_empty : List ℕ → Bool
is_empty [] = true
is_empty (x ∷ xs) = false

unfoldable pub add_player : ℕ → Lobby → JoinResult × Lobby
add_player player_id l =
    let ids = l.player_ids ++ player_id ∷ [] in
    let host = if length ids == 1 then player_id else l.host_id in
    if l.in_progress
    then (in_match, l)
    else (if leb max_players (length l.player_ids) || member player_id l.player_ids
        then (full, l)
        else (joined, record l { player_ids = ids; host_id = host }))

unfoldable pub promote_host : Lobby → Lobby
promote_host l = record l { host_id = lowest_or_zero l.player_ids }

unfoldable pub remove_player : ℕ → Lobby → Lobby
remove_player player_id l =
    let was_host = player_id == l.host_id in
    let left = record l { player_ids = erase player_id l.player_ids } in
    if member player_id l.player_ids
    then (if was_host && not (is_empty left.player_ids) && not l.in_progress
        then promote_host left
        else (if was_host && l.in_progress
            then record left { host_id = lowest_or_zero left.player_ids }
            else left))
    else l

unfoldable pub can_issue_start : ℕ → Lobby → Bool
can_issue_start player_id l = not l.in_progress && player_id == l.host_id

unfoldable pub begin_match : Lobby → Bool × Lobby
begin_match l =
    if l.in_progress || ltb (length l.player_ids) 2
    then (false, l)
    else (true, record l { in_progress = true })

unfoldable pub end_match : Lobby → Lobby
end_match l = record l { in_progress = false }

-- The deal of the players from an index on, which is even or not.
abbrev pub deal : Bool → List ℕ → List ℕ × List ℕ
deal even [] = ([], [])
deal even (x ∷ xs) =
    let (red, blue) = deal (not even) xs in if even then (x ∷ red, blue) else (red, x ∷ blue)

unfoldable pub assign_teams : (List ℕ → List ℕ) → Lobby → List ℕ × List ℕ
assign_teams shuffle l = deal true (shuffle l.player_ids)
