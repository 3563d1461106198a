-- ===== src/Server/Registry.antt =====
-- server/client_registry.cpp: the connected clients, by the identifiers that the registry gives out.
-- A pointer to an entry is the entry's index.
pub mod Laws
use networked_capture_the_fl.Prelude.{
  ℕ, suc, ◌+◌, Bool, false, not, ◌&&◌, List, [], ◌∷◌, ◌++◌, Option, none, some, length, get_or, set,
  if◌then◌else◌, ltb, leb, ℤ, negsuc, ◌==ℤ◌,
}
use networked_capture_the_fl.GameTypes.Config.{max_players}

-- `sockaddr_in`, as far as the server compares it.
pub record SockAddr : Type 0 where
  pub sin_port : ℕ
  pub s_addr : ℕ

pub record ClientEntry : Type 0 where
  pub player_id : ℕ
  pub tcp_fd : ℤ
  pub name : List ℕ
  pub has_udp_addr : Bool
  pub udp_addr : SockAddr
  pub session_token : ℕ
  pub last_input_tick : ℕ
  pub pending_out : List ℕ

abbrev pub free_fd : ℤ
free_fd = negsuc 0

-- `ClientEntry{}`
abbrev pub no_client : ClientEntry
no_client = record {
  player_id = 0;
  tcp_fd = free_fd;
  name = [];
  has_udp_addr = false;
  udp_addr = record { sin_port = 0; s_addr = 0 };
  session_token = 0;
  last_input_tick = 0;
  pending_out = [];
}

abbrev pub is_live : ClientEntry → Bool
is_live e = not (e.tcp_fd ==ℤ free_fd)

-- The first identifier that is not in use: a freed slot, or the size of the storage.
abbrev pub first_free : List ClientEntry → ℕ
first_free [] = 0
first_free (e ∷ es) = let rest = first_free es in if is_live e then suc rest else 0

abbrev pub live_count : List ClientEntry → ℕ
live_count [] = 0
live_count (e ∷ es) = let rest = live_count es in if is_live e then suc rest else rest

abbrev pub new_client : ℕ → ℤ → List ℕ → ClientEntry
new_client id tcp_fd name = record no_client { player_id = id; tcp_fd = tcp_fd; name = name }

unfoldable pub add : ℤ → List ℕ → List ClientEntry → Option ℕ × List ClientEntry
add tcp_fd name storage =
    let id = first_free storage in
    let fresh = not (ltb id (length storage)) in
    let grown = if fresh then storage ++ no_client ∷ [] else storage in
    if fresh && leb max_players (length storage)
    then (none, storage)
    else (if leb max_players (live_count grown)
        then (none, grown)
        else (some id, set grown id (new_client id tcp_fd name)))

unfoldable pub remove : ℕ → List ClientEntry → List ClientEntry
remove player_id storage =
    if ltb player_id (length storage) && is_live (get_or storage player_id no_client)
    then set storage player_id no_client
    else storage

unfoldable pub find_by_id : ℕ → List ClientEntry → Option ClientEntry
find_by_id player_id storage =
    let e = get_or storage player_id no_client in
    if ltb player_id (length storage) && is_live e then some e else none

-- The first entry with a descriptor.
abbrev pub find_by_fd : ℤ → List ClientEntry → Option ClientEntry
find_by_fd tcp_fd [] = none
find_by_fd tcp_fd (e ∷ es) =
    let rest = find_by_fd tcp_fd es in if e.tcp_fd ==ℤ tcp_fd then some e else rest
