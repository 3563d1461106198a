-- ===== src/Server/NetServer/Starts.antt =====
-- The start of a match in server/net_server.cpp keeps the lobby and the registry in step.
use networked_capture_the_fl.Prelude.{
  ltb, if◌then◌else◌, if-elim, length, replicate, ℤ, ℕ, Bool, true, ◌||◌, Option, none, some, List,
  ◌∷◌, ◌++◌,
}
use networked_capture_the_fl.Protocol.Handshake.{encode_game_start}
use networked_capture_the_fl.ByteBuffer.{writer, written}
use networked_capture_the_fl.Server.Lobby.{Lobby, can_issue_start, begin_match, assign_teams}
use networked_capture_the_fl.Server.Registry.{ClientEntry}
use networked_capture_the_fl.Server.NetServer.{NetServer, if_decoded, broadcast_payload}
use networked_capture_the_fl.Server.NetServer.Matches.{
  start_commands, game_start_of, begin_match_and_notify, start_by,
}
use networked_capture_the_fl.Server.NetServer.InStep.{IsInStep, broadcast_payload-IsInStep}

begin_match_and_notify-IsInStep :
    (shuffle : List ℕ → List ℕ) (s : NetServer)
    → IsInStep s
    → IsInStep (begin_match_and_notify shuffle s)
unfolding begin_match_and_notify begin_match
begin_match_and_notify-IsInStep shuffle s v =
    let P : Bool × Lobby → Type 0 = λ o. IsInStep (
      let (red_ids, blue_ids) = assign_teams shuffle o.1 in
      if o.0
      then broadcast_payload
          (6
            ∷ written
                (encode_game_start (game_start_of red_ids blue_ids) (writer (replicate 1200 0))))
          (record s { lobby = o.1; inbound = s.inbound ++ start_commands red_ids blue_ids })
      else record s { lobby = o.1 }) in
    if-elim {A = Bool × Lobby} P (s.lobby.in_progress || ltb (length s.lobby.player_ids) 2) _ _
      (λ e. v)
      (λ e.
        broadcast_payload-IsInStep _ (record s { lobby = record s.lobby { in_progress = true } })
          (record {
            few = v.few;
            roster = record {
              few = v.roster.few;
              distinct = v.roster.distinct;
              hosted = v.roster.hosted;
            };
            same = v.same;
          }))

pub start_by-IsInStep :
    (shuffle : List ℕ → List ℕ) (fd : ℤ) (o : Option ClientEntry) (s : NetServer)
    → IsInStep s
    → IsInStep (start_by shuffle fd o s)
start_by-IsInStep shuffle fd none s v = v
start_by-IsInStep shuffle fd (some e) s v =
    if-elim IsInStep (can_issue_start e.player_id s.lobby) _ _
      (λ h. begin_match_and_notify-IsInStep shuffle s v) (λ h. v)

pub if_decoded-IsInStep :
    {M : Type 0} (o : Option M) (handle : M → NetServer → NetServer) (s : NetServer)
    → ((m : M) → IsInStep (handle m s))
    → IsInStep s
    → IsInStep (if_decoded o handle s)
if_decoded-IsInStep none handle s h v = v
if_decoded-IsInStep (some m) handle s h v = h m
