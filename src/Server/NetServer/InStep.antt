-- ===== src/Server/NetServer/InStep.antt =====
-- The lobby and the registry of server/net_server.cpp stay in step.
use networked_capture_the_fl.Prelude.{
  ltb, ◌==◌, if◌then◌else◌, or_right, ==_iff, if_true, if_false, if-elim, length, get_or, set,
  length-set, get_or-set_self, get_or-set_ne, map-get_or, map-set, ◌==ℤ◌, ℕ, zero, suc, ◌+◌, ◌≤◌,
  ◌<◌, ◌≡◌, refl, sym, ap, subst, ◌∙◌, Bool, false, not, ◌&&◌, List, [], ◌∷◌, arith, dec_lt,
}
use networked_capture_the_fl.GameTypes.Config.{max_players}
use networked_capture_the_fl.Server.Lobby.{
  Lobby, member, erase, is_empty, promote_host, remove_player,
}
use networked_capture_the_fl.Server.Lobby.Laws.{
  Distinct, IsRoster, remove_player-IsRoster, member-erase,
}
use networked_capture_the_fl.Server.Registry.{ClientEntry, free_fd, no_client, is_live, remove}
use networked_capture_the_fl.Server.Registry.Laws.{get_or_past}
use networked_capture_the_fl.Server.Broadcast.{has_fd, appended, reach, broadcast_tcp_event}
use networked_capture_the_fl.Server.NetServer.{
  NetServer, broadcast_payload, broadcast_lobby_state, disconnect,
}

abbrev pub client : ℕ → List ClientEntry → ClientEntry
client id es = get_or es id no_client

-- The players of the lobby are the clients of the registry.
pub record InStep (l : Lobby) (es : List ClientEntry) : Type 0 where
  pub few : length es ≤ max_players
  pub roster : IsRoster l
  pub same : (id : ℕ) → member id l.player_ids ≡ is_live (client id es)

abbrev pub IsInStep : NetServer → Type 0
IsInStep s = InStep s.lobby s.registry

-- A storage with the same live clients.
pub record SameLive (es fs : List ClientEntry) : Type 0 where
  pub size : length fs ≡ length es
  pub live : (id : ℕ) → is_live (client id fs) ≡ is_live (client id es)

SameLive-refl : (es : List ClientEntry) → SameLive es es
SameLive-refl es = record { size = refl; live = λ id. refl }

pub SameLive-trans :
    (es fs gs : List ClientEntry) → SameLive es fs → SameLive fs gs → SameLive es gs
SameLive-trans es fs gs a b = record { size = b.size ∙ a.size; live = λ id. b.live id ∙ a.live id }

pub set-SameLive :
    (es : List ClientEntry) (i : ℕ) (e : ClientEntry)
    → e.tcp_fd ≡ (client i es).tcp_fd
    → SameLive es (set es i e)
set-SameLive es i e h = record {
  size = length-set es i e;
  live = λ id.
      map-get_or is_live (set es i e) id no_client
      ∙ ap (λ bs. get_or bs id false)
          (map-set is_live es i e no_client (ap (λ fd. not (fd ==ℤ free_fd)) h))
      ∙ sym (map-get_or is_live es id no_client);
}

pub SameLive-InStep :
    (l : Lobby) (es fs : List ClientEntry) → SameLive es fs → InStep l es → InStep l fs
SameLive-InStep l es fs h v = record {
  few = omega (arith, h.size, v.few);
  roster = v.roster;
  same = λ id. v.same id ∙ sym (h.live id);
}

reach-SameLive :
    (payload : List ℕ) (n id reached : ℕ) (es : List ClientEntry)
    → SameLive es (reach payload n id (reached, es)).1
reach-SameLive payload zero id reached es = SameLive-refl es
reach-SameLive payload (suc n) id reached es =
    let entry = client id es in
    let e = client entry.player_id es in
    let next = set es entry.player_id (appended payload e) in
    if-elim (λ (o : ℕ × List ClientEntry). SameLive es (reach payload n (id + 1) o).1)
      (has_fd entry && ltb entry.player_id (length es) && is_live e) (reached + 1, next)
      (reached, es)
      (λ h.
        SameLive-trans es next _ (set-SameLive es entry.player_id (appended payload e) refl)
          (reach-SameLive payload n (id + 1) (reached + 1) next))
      (λ h. reach-SameLive payload n (id + 1) reached es)

pub broadcast_payload-IsInStep :
    (payload : List ℕ) (s : NetServer) → IsInStep s → IsInStep (broadcast_payload payload s)
unfolding broadcast_tcp_event
broadcast_payload-IsInStep payload s v =
    SameLive-InStep s.lobby s.registry _ (reach-SameLive _ (length s.registry) 0 0 s.registry) v

pub broadcast_lobby_state-IsInStep :
    (s : NetServer) → IsInStep s → IsInStep (broadcast_lobby_state s)
unfolding broadcast_lobby_state
broadcast_lobby_state-IsInStep s v = broadcast_payload-IsInStep _ s v

erase_gone : (id : ℕ) (ids : List ℕ) → Distinct ids → member id (erase id ids) ≡ false
erase_gone id [] d = refl
erase_gone id (y ∷ ys) (out, d) =
    if-elim (λ zs. member id zs ≡ false) (y == id) ys (y ∷ erase id ys)
      (λ e. subst (λ k. member k ys ≡ false) ((==_iff y id).0 e) out)
      (λ e. let rest = erase_gone id ys d in ground arith)

erase_absent : (id : ℕ) (ids : List ℕ) → member id ids ≡ false → erase id ids ≡ ids
erase_absent id [] h = refl
erase_absent id (y ∷ ys) h =
    if-elim (λ zs. zs ≡ y ∷ ys) (y == id) ys (y ∷ erase id ys) (λ e. absurd (ground arith))
      (λ e. ap (λ zs. y ∷ zs) (erase_absent id ys (or_right (y == id) _ h)))

remove_player_ids : (id : ℕ) (l : Lobby) → (remove_player id l).player_ids ≡ erase id l.player_ids
unfolding remove_player promote_host
remove_player_ids id l =
    let gone = erase id l.player_ids in
    let was_host = id == l.host_id in
    if-elim (λ (k : Lobby). k.player_ids ≡ gone) (member id l.player_ids) _ l
      (λ e.
        if-elim (λ (k : Lobby). k.player_ids ≡ gone)
          (was_host && not (is_empty gone) && not l.in_progress) _ _ (λ e. refl)
          (λ e.
            if-elim (λ (k : Lobby). k.player_ids ≡ gone) (was_host && l.in_progress) _ _ (λ e. refl)
              (λ e. refl)))
      (λ e. sym (erase_absent id l.player_ids e))

-- A client whose descriptor is gone is out of the storage for every lookup, and a removal then does nothing.
free_client : ℕ → List ClientEntry → List ClientEntry
free_client id es = set es id (record (client id es) { tcp_fd = free_fd })

pub write_lem :
    (i : ℕ) (e : ClientEntry) (es : List ClientEntry) (j : ℕ)
    → i < length es
    → is_live (client j (set es i e)) ≡ (if j == i then is_live e else is_live (client j es))
write_lem i e es j h =
    if-elim (λ b. is_live (client j (set es i e)) ≡ b) (j == i) _ _
      (λ k.
        ap (λ n. is_live (client n (set es i e))) ((==_iff j i).0 k)
        ∙ ap is_live (get_or-set_self es i e no_client h))
      (λ k. ap is_live (get_or-set_ne es i j e no_client (ground arith)))

set_past : (es : List ClientEntry) (i : ℕ) (e : ClientEntry) → length es ≤ i → set es i e ≡ es
set_past [] i e h = refl
set_past (x ∷ es) zero e h = absurd (omega arith)
set_past (x ∷ es) (suc i) e h = ap (λ fs. x ∷ fs) (set_past es i e (omega arith))

free_client-live :
    (id : ℕ) (es : List ClientEntry) (j : ℕ)
    → is_live (client j (free_client id es)) ≡ (if j == id then false else is_live (client j es))
unfolding free_client
free_client-live id es j = elim (dec_lt id (length es)) [
  | yes h ↦ write_lem id (record (client id es) { tcp_fd = free_fd }) es j h
  | no h ↦
      ap (λ fs. is_live (client j fs)) (set_past es id _ (omega arith))
      ∙ if-elim (λ b. is_live (client j es) ≡ b) (j == id) _ _
          (λ k.
            ap (λ n. is_live (client n es)) ((==_iff j id).0 k)
            ∙ ap is_live (get_or_past es id (omega arith)))
          (λ k. refl)
]

remove-free_client :
    (id : ℕ) (es : List ClientEntry) → remove id (free_client id es) ≡ free_client id es
unfolding remove
remove-free_client id es =
    let fs = free_client id es in
    let gone : is_live (client id fs) ≡ false =
      free_client-live id es id ∙ if_true (id == id) _ _ ((==_iff id id).1 refl) in
    if_false (ltb id (length fs) && is_live (client id fs)) _ _ (ground arith)

pub disconnect-IsInStep :
    (id : ℕ) (notify : Bool) (s : NetServer) → IsInStep s → IsInStep (disconnect id notify s)
unfolding disconnect free_client
disconnect-IsInStep id notify s v = broadcast_lobby_state-IsInStep _ (
    subst (InStep (remove_player id s.lobby)) (sym (remove-free_client id s.registry)) (record {
      few = omega (
        arith,
        length-set s.registry id (record (client id s.registry) { tcp_fd = free_fd }),
        v.few,
      );
      roster = remove_player-IsRoster id s.lobby v.roster;
      same = λ j.
          ap (member j) (remove_player_ids id s.lobby)
          ∙ if-elim (λ b. member j (erase id s.lobby.player_ids) ≡ b) (j == id) false
              (is_live (client j s.registry))
              (λ k.
                ap (λ n. member n (erase id s.lobby.player_ids)) ((==_iff j id).0 k)
                ∙ erase_gone id s.lobby.player_ids v.roster.distinct)
              (λ k. member-erase j id s.lobby.player_ids (ground arith) ∙ v.same j)
          ∙ sym (free_client-live id s.registry j);
    }))
