-- ===== src/Server/NetServer/Joins.antt =====
-- A join in server/net_server.cpp keeps the lobby and the registry in step.
use networked_capture_the_fl.Prelude.{
  ltb, leb, ◌==◌, if◌then◌else◌, ltb→lt, lt→ltb, ==_iff, not-false, if_true, if_false, if-elim,
  length, length-append, length-set, ℤ, ◌==ℤ◌, ℕ, ◌≤◌, ◌<◌, ◌≡◌, refl, sym, ap, ap₂, subst, ◌∙◌,
  true, false, not, ◌&&◌, ◌||◌, Option, none, some, List, [], ◌∷◌, ◌++◌, arith,
}
use networked_capture_the_fl.GameTypes.Config.{max_players}
use networked_capture_the_fl.Protocol.Handshake.{MsgJoinLobby}
use networked_capture_the_fl.Server.Lobby.{
  JoinResult, joined, full, in_match, Lobby, member, add_player,
}
use networked_capture_the_fl.Server.Lobby.Laws.{joins, joins-IsRoster, member-snoc}
use networked_capture_the_fl.Server.Registry.{
  ClientEntry, free_fd, no_client, is_live, first_free, live_count, new_client, add, remove,
  find_by_fd,
}
use networked_capture_the_fl.Server.Registry.Laws.{first_free-fresh, get_or-snoc, first_free-le}
use networked_capture_the_fl.Server.NetServer.{NetServer, c_string}
use networked_capture_the_fl.Server.NetServer.Joining.{
  finish_join, added_client, join_unless, on_join_lobby,
}
use networked_capture_the_fl.Server.NetServer.InStep.{
  client, InStep, IsInStep, set-SameLive, SameLive-InStep, broadcast_lobby_state-IsInStep,
  write_lem,
}

-- What a new client does to the storage.
record IsAdded (id : ℕ) (es fs : List ClientEntry) : Type 0 where
  few : length fs ≤ max_players
  slot : id < length fs
  fresh : is_live (client id es) ≡ false
  live : (j : ℕ) → is_live (client j fs) ≡ (if j == id then true else is_live (client j es))

record IsRefused (es fs : List ClientEntry) : Type 0 where
  few : length fs ≤ max_players
  live : (j : ℕ) → is_live (client j fs) ≡ is_live (client j es)

Outcome : List ClientEntry → Option ℕ × List ClientEntry → Type 0
Outcome es (none, fs) = IsRefused es fs
Outcome es (some id, fs) = IsAdded id es fs

add-Outcome :
    (fd : ℤ) (name : List ℕ) (es : List ClientEntry)
    → length es ≤ max_players
    → (fd ==ℤ free_fd) ≡ false
    → Outcome es (add fd name es)
unfolding add Outcome
add-Outcome fd name es few real =
    let id = first_free es in
    let fresh = not (ltb id (length es)) in
    let grown = if fresh then es ++ no_client ∷ [] else es in
    let grows = length-append es (no_client ∷ []) in
    if-elim {A = Option ℕ × List ClientEntry} (Outcome es) (fresh && leb max_players (length es)) _
      _ (λ e. record { few = few; live = λ j. refl })
      (λ e.
        let live : (j : ℕ) → is_live (client j grown) ≡ is_live (client j es) = λ j.
          if-elim (λ gs. is_live (client j gs) ≡ is_live (client j es)) fresh _ es
            (λ k. ap is_live (get_or-snoc es j)) (λ k. refl) in
        let small : length grown ≤ max_players =
          if-elim (λ gs. length gs ≤ max_players) fresh _ es (λ k. ground (arith, grows))
            (λ k. few) in
        let inside : id < length grown =
          if-elim (λ gs. id < length gs) fresh _ es (λ k. omega (arith, grows, first_free-le es))
            (λ k. ltb→lt id (length es) (not-false _ k)) in
        if-elim {A = Option ℕ × List ClientEntry} (Outcome es) (leb max_players (live_count grown))
          _ _ (λ f. record { few = small; live = live })
          (λ f.
            let c = new_client id fd name in
            record {
              few = omega (arith, small, length-set grown id c);
              slot = omega (arith, inside, length-set grown id c);
              fresh = first_free-fresh es;
              live = λ j.
                  write_lem id c grown j inside
                  ∙ ap₂ (λ a b. if j == id then a else b) (ap not real) (live j);
            }))

refused-InStep :
    (l : Lobby) (es fs : List ClientEntry) → IsRefused es fs → InStep l es → InStep l fs
refused-InStep l es fs r v = record {
  few = r.few;
  roster = v.roster;
  same = λ j. v.same j ∙ sym (r.live j);
}

-- Taking an added client out again leaves who was there.
remove-IsRefused :
    (id : ℕ) (es fs : List ClientEntry) → IsAdded id es fs → IsRefused es (remove id fs)
unfolding remove
remove-IsRefused id es fs a =
    let here : is_live (client id fs) ≡ true =
      a.live id ∙ if_true (id == id) _ _ ((==_iff id id).1 refl) in
    subst (IsRefused es)
      (sym (
        if_true (ltb id (length fs) && is_live (client id fs)) _ fs
          (let inside = lt→ltb id (length fs) a.slot in ground arith)))
      (record {
        few = omega (arith, a.few, length-set fs id no_client);
        live = λ j.
            write_lem id no_client fs j a.slot
            ∙ if-elim (λ b. b ≡ is_live (client j es)) (j == id) false (is_live (client j fs))
                (λ k. sym (ap (λ n. is_live (client n es)) ((==_iff j id).0 k) ∙ a.fresh))
                (λ k. a.live j ∙ if_false (j == id) true _ k);
      })

-- A client who is let in.
joined-IsInStep :
    (id : ℕ) (l : Lobby) (es fs : List ClientEntry)
    → IsAdded id es fs
    → InStep l es
    → leb max_players (length l.player_ids) || member id l.player_ids ≡ false
    → InStep (joins id l) fs
joined-IsInStep id l es fs a v room = record {
  few = a.few;
  roster = joins-IsRoster id l v.roster room;
  same = λ j. let e = v.same j in member-snoc j id l.player_ids ∙ ground arith ∙ sym (a.live j);
}

finish-IsInStep :
    (now token : ℕ) (fd : ℤ) (id : ℕ) (result : JoinResult) (s : NetServer)
    → (result ≡ joined → InStep s.lobby s.registry)
    → ((result ≡ joined → ⊥) → InStep s.lobby (remove id s.registry))
    → IsInStep (finish_join now token fd id result s)
finish-IsInStep now token fd id joined s f g =
    let e = record (client id s.registry) { session_token = token; last_input_tick = now } in
    broadcast_lobby_state-IsInStep _
      (SameLive-InStep s.lobby s.registry _ (set-SameLive s.registry id e refl) (f refl))
finish-IsInStep now token fd id full s f g = g (λ e. cc)
finish-IsInStep now token fd id in_match s f g = g (λ e. cc)

added-IsInStep :
    (now token : ℕ) (fd : ℤ) (o : Option ℕ) (s : NetServer) (es : List ClientEntry)
    → Outcome es (o, s.registry)
    → InStep s.lobby es
    → IsInStep (added_client now token fd o s)
unfolding Outcome add_player
added-IsInStep now token fd none s es out v = refused-InStep s.lobby es s.registry out v
added-IsInStep now token fd (some id) s es out v =
    let back = refused-InStep s.lobby es _ (remove-IsRefused id es s.registry out) v in
    let P : JoinResult × Lobby → Type 0 =
      λ o. IsInStep (finish_join now token fd id o.0 (record s { lobby = o.1 })) in
    if-elim {A = JoinResult × Lobby} P s.lobby.in_progress _ _
      (λ e. finish-IsInStep now token fd id JoinResult.in_match s (λ e. cc) (λ e. back))
      (λ e.
        if-elim {A = JoinResult × Lobby} P
          (leb max_players (length s.lobby.player_ids) || member id s.lobby.player_ids) _ _
          (λ f. finish-IsInStep now token fd id JoinResult.full s (λ e. cc) (λ e. back))
          (λ f.
            finish-IsInStep now token fd id JoinResult.joined
              (record s { lobby = joins id s.lobby })
              (λ e. joined-IsInStep id s.lobby es s.registry out v f) (λ e. absurd (e refl))))

join_unless-IsInStep :
    (now token : ℕ) (fd : ℤ) (name : List ℕ) (o : Option ClientEntry) (s : NetServer)
    → (fd ==ℤ free_fd) ≡ false
    → IsInStep s
    → IsInStep (join_unless now token fd name o s)
join_unless-IsInStep now token fd name (some e) s real v = v
join_unless-IsInStep now token fd name none s real v =
    let added = add fd name s.registry in
    added-IsInStep now token fd added.0 (record s { registry = added.1 }) s.registry
      (add-Outcome fd name s.registry v.few real) v

pub on_join_lobby-IsInStep :
    (now token : ℕ) (fd : ℤ) (m : MsgJoinLobby) (s : NetServer)
    → (fd ==ℤ free_fd) ≡ false
    → IsInStep s
    → IsInStep (on_join_lobby now token fd m s)
unfolding on_join_lobby
on_join_lobby-IsInStep now token fd m s real v =
    join_unless-IsInStep now token fd (c_string m.name) (find_by_fd fd s.registry) s real v
