-- ===== src/Server/Lobby/Laws.antt =====
-- The roster and the host of server/lobby.cpp over any sequence of calls.
use networked_capture_the_fl.Prelude.{
  length-append, length, if-elim, ltb, leb, ◌==◌, if◌then◌else◌, or_right, if-elim, ℕ, ◌≤◌, ◌≡◌,
  refl, ◌∙◌, ◌⊎◌, inl, inr, Bool, true, false, not, ◌&&◌, ◌||◌, List, [], ◌∷◌, ◌++◌, arith, dec_lt,
}
use networked_capture_the_fl.GameTypes.Config.{max_players}
use networked_capture_the_fl.Server.Lobby.{
  JoinResult, Lobby, no_lobby, member, erase, lowest, lowest_or_zero, is_empty, add_player,
  promote_host, remove_player, begin_match, end_match,
}

abbrev pub Distinct : List ℕ → Type 0
Distinct [] = Unit
Distinct (x ∷ xs) = (member x xs ≡ false) × Distinct xs

-- At most ten players, each once, and the host among them.
pub record IsRoster (l : Lobby) : Type 0 where
  pub few : length l.player_ids ≤ max_players
  pub distinct : Distinct l.player_ids
  pub hosted : is_empty l.player_ids ≡ true ⊎ member l.host_id l.player_ids ≡ true

lowest-member : (x : ℕ) (xs : List ℕ) → (x ≡ lowest x xs) ⊎ (member (lowest x xs) xs ≡ true)
lowest-member x [] = inl refl
lowest-member x (y ∷ ys) = elim (dec_lt y x) [
  | yes h ↦ ground (arith, lowest-member y ys)
  | no h ↦ ground (arith, lowest-member x ys)
]

lowest_or_zero-member : (xs : List ℕ) → is_empty xs ≡ true ⊎ member (lowest_or_zero xs) xs ≡ true
lowest_or_zero-member [] = inl refl
lowest_or_zero-member (x ∷ xs) = inr (ground (arith, lowest-member x xs))

pub member-snoc : (x y : ℕ) (xs : List ℕ) → member x (xs ++ y ∷ []) ≡ (member x xs || y == x)
member-snoc x y [] = ground arith
member-snoc x y (z ∷ zs) = ground (arith, member-snoc x y zs)

Distinct-snoc : (y : ℕ) (xs : List ℕ) → Distinct xs → member y xs ≡ false → Distinct (xs ++ y ∷ [])
Distinct-snoc y [] h n = (refl, tt)
Distinct-snoc y (x ∷ xs) (m, h) n =
    (ground (arith, member-snoc x y xs), Distinct-snoc y xs h ground arith)

-- Erasing a player leaves the others.
pub member-erase : (x y : ℕ) (xs : List ℕ) → (y ≡ x → ⊥) → member x (erase y xs) ≡ member x xs
member-erase x y [] ne = refl
member-erase x y (z ∷ zs) ne = ground (arith, member-erase x y zs ne)

length-erase : (y : ℕ) (xs : List ℕ) → length (erase y xs) ≤ length xs
length-erase y [] = omega arith
length-erase y (z ∷ zs) = ground (arith, length-erase y zs)

absent-erase : (x y : ℕ) (xs : List ℕ) → member x xs ≡ false → member x (erase y xs) ≡ false
absent-erase x y [] h = refl
absent-erase x y (z ∷ zs) h = ground (arith, absent-erase x y zs)

Distinct-erase : (y : ℕ) (xs : List ℕ) → Distinct xs → Distinct (erase y xs)
Distinct-erase y [] h = tt
Distinct-erase y (z ∷ zs) (m, h) =
    if-elim Distinct (z == y) zs (z ∷ erase y zs) (λ e. h)
      (λ e. (absent-erase z y zs m, Distinct-erase y zs h))

host-snoc :
    (host p : ℕ) (ids : List ℕ)
    → (is_empty ids ≡ true) ⊎ (member host ids ≡ true)
    → member (if length (ids ++ p ∷ []) == 1 then p else host) (ids ++ p ∷ []) ≡ true
host-snoc host p [] h = ground arith
host-snoc host p (x ∷ xs) (inl h) = cc
host-snoc host p (x ∷ xs) (inr h) =
    if-elim (λ k. member k (x ∷ xs ++ p ∷ []) ≡ true) (length (x ∷ xs ++ p ∷ []) == 1) p host
      (λ e. ground (arith, member-snoc p p (x ∷ xs)))
      (λ e. ground (arith, member-snoc host p (x ∷ xs)))

abbrev pub joins : ℕ → Lobby → Lobby
joins p l = record l {
  player_ids = l.player_ids ++ p ∷ [];
  host_id = if length (l.player_ids ++ p ∷ []) == 1 then p else l.host_id;
}

pub joins-IsRoster :
    (p : ℕ) (l : Lobby)
    → IsRoster l
    → leb max_players (length l.player_ids) || member p l.player_ids ≡ false
    → IsRoster (joins p l)
joins-IsRoster p l v h = record {
  few = ground (arith, v.few, length-append l.player_ids (p ∷ []));
  distinct = Distinct-snoc p l.player_ids v.distinct (or_right _ _ h);
  hosted = inr (host-snoc l.host_id p l.player_ids v.hosted);
}

pub add_player-IsRoster : (p : ℕ) (l : Lobby) → IsRoster l → IsRoster (add_player p l).1
unfolding add_player
add_player-IsRoster p l v =
    if-elim {A = JoinResult × Lobby} (λ o. IsRoster o.1) l.in_progress _ _ (λ e. v)
      (λ e.
        if-elim {A = JoinResult × Lobby} (λ o. IsRoster o.1)
          (leb max_players (length l.player_ids) || member p l.player_ids) _ _ (λ f. v)
          (joins-IsRoster p l v))

abbrev leaves : ℕ → Lobby → Lobby
leaves p l = record l { player_ids = erase p l.player_ids }

replaced-IsRoster :
    (p : ℕ) (l : Lobby)
    → IsRoster l
    → IsRoster (record (leaves p l) { host_id = lowest_or_zero (erase p l.player_ids) })
replaced-IsRoster p l v = record {
  few = omega (arith, v.few, length-erase p l.player_ids);
  distinct = Distinct-erase p l.player_ids v.distinct;
  hosted = lowest_or_zero-member (erase p l.player_ids);
}

pub some_member : (p : ℕ) (ids : List ℕ) → member p ids ≡ true → is_empty ids ≡ true → ⊥
some_member p [] h e = cc
some_member p (x ∷ xs) h e = cc

pub no_promotion :
    (a b c : Bool) → (a && not b && not c) ≡ false → (a && c) ≡ false → (b ≡ true) ⊎ (a ≡ false)
no_promotion a b c h k = ground arith

-- A host who leaves an empty lobby, or a player who is not the host.
kept-IsRoster :
    (p : ℕ) (l : Lobby)
    → IsRoster l
    → (is_empty (erase p l.player_ids) ≡ true) ⊎ ((p == l.host_id) ≡ false)
    → member p l.player_ids ≡ true
    → IsRoster (leaves p l)
kept-IsRoster p l v why h = record {
  few = omega (arith, v.few, length-erase p l.player_ids);
  distinct = Distinct-erase p l.player_ids v.distinct;
  hosted = elim why [
    | inl e ↦ inl e
    | inr e ↦ elim v.hosted [
      | inl e' ↦ absurd (some_member p l.player_ids h e')
      | inr m ↦ inr (member-erase l.host_id p l.player_ids (ground arith) ∙ m)
    ]
  ];
}

pub remove_player-IsRoster : (p : ℕ) (l : Lobby) → IsRoster l → IsRoster (remove_player p l)
unfolding remove_player promote_host
remove_player-IsRoster p l v =
    if-elim IsRoster (member p l.player_ids) _ l
      (λ here.
        if-elim IsRoster
          ((p == l.host_id) && not (is_empty (erase p l.player_ids)) && not l.in_progress) _ _
          (λ e. replaced-IsRoster p l v)
          (λ e.
            if-elim IsRoster ((p == l.host_id) && l.in_progress) _ _ (λ f. replaced-IsRoster p l v)
              (λ f. kept-IsRoster p l v (no_promotion _ _ _ e f) here)))
      (λ e. v)

-- Calls of a lobby, in any order.
pub data Reached : Lobby → Type 0 where
  opened : Reached no_lobby
  added : {l : Lobby} (p : ℕ) → Reached l → Reached (add_player p l).1
  removed : {l : Lobby} (p : ℕ) → Reached l → Reached (remove_player p l)
  begun : {l : Lobby} → Reached l → Reached (begin_match l).1
  ended : {l : Lobby} → Reached l → Reached (end_match l)

pub begin_match-IsRoster : (l : Lobby) → IsRoster l → IsRoster (begin_match l).1
unfolding begin_match
begin_match-IsRoster l v =
    if-elim {A = Bool × Lobby} (λ o. IsRoster o.1) (l.in_progress || ltb (length l.player_ids) 2) _
      _ (λ e. v) (λ e. record { few = v.few; distinct = v.distinct; hosted = v.hosted })

end_match-IsRoster : (l : Lobby) → IsRoster l → IsRoster (end_match l)
unfolding end_match
end_match-IsRoster l v = record { few = v.few; distinct = v.distinct; hosted = v.hosted }

-- After any calls the roster has at most ten players, each once, and the host is one of them unless
-- there is none.
pub Reached-IsRoster : {l : Lobby} → Reached l → IsRoster l
Reached-IsRoster opened = record { few = omega arith; distinct = tt; hosted = inl refl }
Reached-IsRoster (added {l} p r) = add_player-IsRoster p l (Reached-IsRoster r)
Reached-IsRoster (removed {l} p r) = remove_player-IsRoster p l (Reached-IsRoster r)
Reached-IsRoster (begun {l} r) = begin_match-IsRoster l (Reached-IsRoster r)
Reached-IsRoster (ended {l} r) = end_match-IsRoster l (Reached-IsRoster r)
