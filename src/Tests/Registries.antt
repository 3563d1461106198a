-- ===== src/Tests/Registries.antt =====
-- A registry at concrete inputs (server/client_registry.cpp).
use networked_capture_the_fl.Prelude.{
  false, ℕ, ◌<◌, ◌≤◌, ◌≡◌, refl, true, List, [], ◌∷◌, none, some, length, get_or, if◌then◌else◌,
  ◌==◌, pos, arith,
}
use networked_capture_the_fl.GameTypes.Config.{max_players}
use networked_capture_the_fl.Server.Registry.{
  ClientEntry, no_client, is_live, new_client, add, remove, find_by_id,
}
use networked_capture_the_fl.Server.Registry.Laws.{add_lem, remove_lem}

-- Three clients, of whom the second has left.
abbrev clients : List ClientEntry
clients = new_client 0 (pos 5) [] ∷ no_client ∷ new_client 2 (pos 7) [] ∷ []

left_one :
    remove 1 (new_client 0 (pos 5) [] ∷ new_client 1 (pos 6) [] ∷ new_client 2 (pos 7) [] ∷ [])
    ≡ clients
unfolding remove
left_one = refl

add_lem_example :
    let (o, fs) = add (pos 9) (b'x' ∷ []) clients in
    (o ≡ some 1)
    × (length fs ≤ max_players)
    × (is_live (get_or clients 1 no_client) ≡ false)
    × ((j : ℕ) → j < 1 → is_live (get_or clients j no_client) ≡ true)
    × ((j : ℕ)
        → find_by_id j fs
          ≡ (if j == 1 then some (new_client 1 (pos 9) (b'x' ∷ [])) else find_by_id j clients))
add_lem_example = add_lem (pos 9) (b'x' ∷ []) clients (omega arith) (omega arith) refl

remove_lem_example :
    let fs = remove 2 clients in
    (length fs ≡ length clients)
    × ((j : ℕ) → find_by_id j fs ≡ (if j == 2 then none else find_by_id j clients))
remove_lem_example = remove_lem 2 clients
