-- ===== src/Server/Sim/Respawn.antt =====
-- The way back of a dead player through the phases of server/sim.cpp.
use networked_capture_the_fl.Prelude.{
  ltb, leb, ◌==◌, if◌then◌else◌, lt→ltb, and_left, and_right, or_left, or_right, ==_iff, if-elim,
  not-true, get_or-set_ne, ℕ, ◌-◌, ◌<◌, ◌≡◌, refl, ap, ◌∙◌, ◌≢◌, Bool, true, false, not, ◌&&◌, ◌||◌,
  List, [], ◌∷◌, arith,
}
use networked_capture_the_fl.GameTypes.{Team, InputCmd}
use networked_capture_the_fl.GameTypes.Config.{max_players}
use networked_capture_the_fl.Server.Queues.{
  InboundCommand, player_joined, player_left, player_input,
}
use networked_capture_the_fl.Server.Sim.{
  Player, no_one, Sim, player, put_player, is_joined, for_ids, for_ids-rule, drop_flag,
}
use networked_capture_the_fl.Server.Sim.Roster.{
  joining, apply_join, apply_leave, apply_input, apply_command, drain_commands, drain_inbound,
}
use networked_capture_the_fl.Server.Sim.Inputs.{popped, pop_input, command, moved, move_player}

-- A command other than the leave of a player.
abbrev pub spares : ℕ → InboundCommand → Bool
spares i (player_joined id t index) = true
spares i (player_left id) = not (id == i)
spares i (player_input id seq input) = true

abbrev pub all_spare : ℕ → List InboundCommand → Bool
all_spare i [] = true
all_spare i (cmd ∷ cmds) = spares i cmd && all_spare i cmds

-- What a conditional step keeps of a player.
pub entry-if :
    (i : ℕ) (s : Sim) (b : Bool) (t u : Sim)
    → (b ≡ true → player i t ≡ player i s)
    → (b ≡ false → player i u ≡ player i s)
    → player i (if b then t else u) ≡ player i s
entry-if i s b t u f g = if-elim (λ v. player i v ≡ player i s) b t u f g

-- The player `i` is in the match and dead in `s`.
module _ (i : ℕ) (slot : i < max_players) where
  abbrev pub IsDown : Sim → Type 0
  IsDown s = ((player i s).active ≡ true) × ((player i s).alive ≡ false)

  apply_join-rests :
      (id : ℕ) (t : Team) (index : ℕ) (s : Sim)
      → IsDown s
      → player i (apply_join id t index s) ≡ player i s
  unfolding apply_join
  apply_join-rests id t index s (on, down) =
      entry-if i s (s.match_over || is_joined id s || leb max_players id) s _ (λ e. refl)
        (λ e. get_or-set_ne s.players id i (joining t index (player id s)) no_one (λ same.
          let out = or_right s.match_over (is_joined id s) (or_left _ _ e) in
          let there = ap (λ k. ltb k max_players && (player k s).active) same in
          let inside = lt→ltb i max_players slot in absurd (ground arith)))

  apply_leave-rests :
      (id : ℕ) (s : Sim) → (id == i) ≡ false → player i (apply_leave id s) ≡ player i s
  unfolding apply_leave drop_flag
  apply_leave-rests id s other =
      let apart : id ≢ i = λ e. let k = (==_iff id i).1 e in cc in
      entry-if i s (is_joined id s) _ s
        (λ e.
          if-elim
            (λ after.
              player i (record (put_player id no_one after) { player_count = s.player_count - 1 })
              ≡ player i s)
            (player id s).carrying_flag _ s (λ c. get_or-set_ne s.players id i no_one no_one apart)
            (λ c. get_or-set_ne s.players id i no_one no_one apart))
        (λ e. refl)

  apply_input-rests :
      (id seq : ℕ) (input : InputCmd) (s : Sim)
      → IsDown s
      → player i (apply_input id seq input s) ≡ player i s
  unfolding apply_input
  apply_input-rests id seq input s (on, down) =
      entry-if i s (is_joined id s && (player id s).alive && not (leb seq (player id s).newest_seq))
        _ s
        (λ e. get_or-set_ne s.players id i _ no_one (λ same.
          let a = and_right (is_joined id s) _ (and_left _ _ e) in
          let b = ap (λ k. (player k s).alive) same in cc))
        (λ e. refl)

  apply_command-rests :
      (cmd : InboundCommand) (s : Sim)
      → IsDown s
      → spares i cmd ≡ true
      → player i (apply_command cmd s) ≡ player i s
  unfolding apply_command
  apply_command-rests (player_joined id t index) s d h =
      entry-if i s s.match_over s _ (λ e. refl) (λ e. apply_join-rests id t index s d)
  apply_command-rests (player_left id) s d h =
      entry-if i s s.match_over s _ (λ e. refl) (λ e. apply_leave-rests id s (not-true _ h))
  apply_command-rests (player_input id seq input) s d h =
      entry-if i s s.match_over s _ (λ e. refl) (λ e. apply_input-rests id seq input s d)

  pub IsDown-same : (s u : Sim) → player i u ≡ player i s → IsDown s → IsDown u
  IsDown-same s u e (on, down) =
      (ap (λ (p : Player). p.active) e ∙ on, ap (λ (p : Player). p.alive) e ∙ down)

  drain_commands-rests :
      (cmds : List InboundCommand) (s : Sim)
      → IsDown s
      → all_spare i cmds ≡ true
      → player i (drain_commands cmds s) ≡ player i s
  drain_commands-rests [] s d h = refl
  drain_commands-rests (cmd ∷ cmds) s d h =
      let e = apply_command-rests cmd s d (and_left _ _ h) in
      drain_commands-rests cmds (apply_command cmd s) (IsDown-same s (apply_command cmd s) e d)
        (and_right (spares i cmd) _ h)
      ∙ e

  pub drain_inbound-rests :
      (s : Sim) → IsDown s → all_spare i s.inbound ≡ true → player i (drain_inbound s) ≡ player i s
  unfolding drain_inbound
  drain_inbound-rests s d h = drain_commands-rests s.inbound (record s { inbound = [] }) d h

  -- A loop over the players whose body leaves this one alone.
  pub loop-rests :
      (body : ℕ → Sim → Sim) (s : Sim)
      → ((j : ℕ) (u : Sim) → IsDown u → player i (body j u) ≡ player i u)
      → IsDown s
      → player i (for_ids max_players 0 body s) ≡ player i s
  loop-rests body s rests d =
      for_ids-rule (λ u. player i u ≡ player i s) max_players 0 body s
        (λ j u h k. rests j u (IsDown-same s u k d) ∙ k) refl

  pub pop_input-rests : (j : ℕ) (s : Sim) → IsDown s → player i (pop_input j s) ≡ player i s
  unfolding pop_input
  pop_input-rests j s (on, down) =
      entry-if i s (player j s).active _ s
        (λ e.
          entry-if i s ((player j s).alive && ltb 0 (player j s).ring_count) _ _
            (λ a. get_or-set_ne s.players j i (popped (player j s)) no_one (λ same.
              let b = ap (λ k. (player k s).alive) same in
              let c = and_left (player j s).alive _ a in cc))
            (λ a. refl))
        (λ e. refl)

  pub move_player-rests : (j : ℕ) (s : Sim) → IsDown s → player i (move_player j s) ≡ player i s
  unfolding move_player
  move_player-rests j s (on, down) =
      entry-if i s ((player j s).active && (player j s).alive) _ s
        (λ a. get_or-set_ne s.players j i (moved (command j s) (player j s)) no_one (λ same.
          let b = ap (λ k. (player k s).alive) same in
          let c = and_right (player j s).active _ a in cc))
        (λ e. refl)
