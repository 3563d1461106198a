-- ===== src/Server/Sim/SoundTick.antt =====
-- The flags phase and a whole tick of server/sim.cpp keep the entries of `players_` sound.
use networked_capture_the_fl.Prelude.{
  leb, and_right, if-elim, not-true, All, ℤ, pos, ◌-ℤ◌, ltb_ℤ, ℕ, ◌≡◌, refl, sym, subst, ◌∙◌, Bool,
  true, false, not, ◌&&◌, ◌||◌,
}
use networked_capture_the_fl.GameTypes.{Team, red, blue}
use networked_capture_the_fl.GameTypes.Config.{max_players, score_to_win}
use networked_capture_the_fl.Server.Sim.{
  Player, other_team, base_of, Sim, player, flag, is_joined, for_ids-rule, push_event, aabb_overlap,
}
use networked_capture_the_fl.Server.Sim.Roster.{drain_inbound}
use networked_capture_the_fl.Server.Sim.Inputs.{pop_input, pop_inputs, move_player, move_players}
use networked_capture_the_fl.Server.Sim.Combat.{combat_step, combat}
use networked_capture_the_fl.Server.Sim.Flags.{
  is_at_base, is_carried, is_dropped, is_overdue, follow_flag, touch_own, pick_up, capture,
  touch_flags, respawn_step, flags_phase, limit_ticks, win_check,
}
use networked_capture_the_fl.Server.Sim.Publish.{is_due, publish}
use networked_capture_the_fl.Server.Sim.Tick.{tick}
use networked_capture_the_fl.Server.Sim.Players.{
  IsVital, IsPlayer, IsWorld, player-IsPlayer, put-IsWorld, living-IsPlayer, respawned-IsPlayer,
  waiting-IsVital,
}
use networked_capture_the_fl.Server.Sim.Sound.{
  drain_inbound-IsWorld, pop_input-IsWorld, move_player-IsWorld, combat_step-IsWorld,
}

follow_flag-IsWorld : (t : Team) (s : Sim) → IsWorld s → IsWorld (follow_flag t s)
unfolding follow_flag push_event
follow_flag-IsWorld t s v =
    let f = flag t s in
    if-elim IsWorld (is_carried f.state) _ _
      (λ e. if-elim IsWorld (is_joined f.carrier_id s) _ s (λ e. v) (λ e. v))
      (λ e. if-elim IsWorld (is_dropped f.state && is_overdue t s) _ s (λ e. v) (λ e. v))

touch_own-IsWorld : (i : ℕ) (s : Sim) → IsWorld s → IsWorld (touch_own i s)
unfolding touch_own push_event
touch_own-IsWorld i s v =
    let p = player i s in
    if-elim IsWorld
      (is_dropped (flag p.team s).state && aabb_overlap p.position (flag p.team s).position) _ s
      (λ e. v) (λ e. v)

-- A player who takes or loses a flag.
carrying-IsPlayer : (b : Bool) (p : Player) → IsPlayer p → IsPlayer (record p { carrying_flag = b })
carrying-IsPlayer b p v = living-IsPlayer p.health p.alive b p.respawn_timer p v.vital v

pick_up-IsWorld : (i : ℕ) (s : Sim) → IsWorld s → IsWorld (pick_up i s)
unfolding pick_up push_event
pick_up-IsWorld i s v =
    let p = player i s in
    let f = flag (other_team p.team) s in
    if-elim IsWorld
      (not p.carrying_flag && not (is_carried f.state) && aabb_overlap p.position f.position) _ s
      (λ e. put-IsWorld i _ s (carrying-IsPlayer true p (player-IsPlayer i s v)) v) (λ e. v)

capture-IsWorld : (i : ℕ) (s : Sim) → IsWorld s → IsWorld (capture i s)
unfolding capture push_event
capture-IsWorld i s v =
    let p = player i s in
    if-elim IsWorld
      (p.carrying_flag
        && is_at_base (flag p.team s).state
        && aabb_overlap p.position (base_of p.team))
      _ s (λ e. put-IsWorld i _ s (carrying-IsPlayer false p (player-IsPlayer i s v)) v) (λ e. v)

touch_flags-IsWorld : (i : ℕ) (s : Sim) → IsWorld s → IsWorld (touch_flags i s)
unfolding touch_flags
touch_flags-IsWorld i s v =
    if-elim IsWorld ((player i s).active && (player i s).alive) _ s
      (λ on. capture-IsWorld i _ (pick_up-IsWorld i _ (touch_own-IsWorld i s v))) (λ off. v)

respawn_step-IsWorld : (i : ℕ) (s : Sim) → IsWorld s → IsWorld (respawn_step i s)
unfolding respawn_step push_event
respawn_step-IsWorld i s v =
    let p = player i s in
    let timer = p.respawn_timer -ℤ pos 1 in
    let sound = player-IsPlayer i s v in
    if-elim IsWorld (p.active && not p.alive) _ s
      (λ e.
        let down : p.alive ≡ false = not-true _ (and_right p.active _ e) in
        if-elim IsWorld (ltb_ℤ (pos 0) timer) _ _
          (λ e.
            put-IsWorld i (record p { respawn_timer = timer }) s
              (living-IsPlayer p.health p.alive p.carrying_flag timer p
                (subst (λ b. IsVital p.health b timer) (sym down)
                  (waiting-IsVital p.health p.respawn_timer e
                    (subst (λ b. IsVital p.health b p.respawn_timer) down sound.vital)))
                sound)
              v)
          (λ e. put-IsWorld i _ s (respawned-IsPlayer timer p sound) v))
      (λ e. v)

flags_phase-IsWorld : (s : Sim) → IsWorld s → IsWorld (flags_phase s)
unfolding flags_phase
flags_phase-IsWorld s v =
    for_ids-rule IsWorld max_players 0 respawn_step _ (λ i s h. respawn_step-IsWorld i s)
      (for_ids-rule IsWorld max_players 0 touch_flags _ (λ i s h. touch_flags-IsWorld i s)
        (follow_flag-IsWorld blue _ (follow_flag-IsWorld red s v)))

pub win_check-players : (s : Sim) → (win_check s).players ≡ s.players
unfolding win_check push_event
win_check-players s =
    if-elim (λ (u : Sim). u.players ≡ s.players)
      (not s.match_over
        && (leb score_to_win s.score.of_red
            || leb score_to_win s.score.of_blue
            || leb limit_ticks s.current_tick))
      _ s (λ e. refl) (λ e. refl)

pub publish-players : (s : Sim) → (publish s).players ≡ s.players
unfolding publish
publish-players s =
    if-elim (λ (u : Sim). u.players ≡ s.players) (is_due s) _ _ (λ e. refl) (λ e. refl)

-- A tick keeps every entry sound: health at most the maximum, positive with the living and 0 with
-- the dead, whose wait is from 1 to 90 ticks; the cooldown and the ring within their bounds, its
-- numbers rising; and nobody in the match in a wall.
pub tick-IsWorld : (direction : ℕ → ℤ × ℤ) (s : Sim) → IsWorld s → IsWorld (tick direction s)
unfolding tick pop_inputs move_players combat
tick-IsWorld direction s v =
    let emptied = pop_inputs (drain_inbound s) in
    let moved_on = move_players emptied in
    let fought = combat direction moved_on in
    let flown = flags_phase fought in
    let emptied-v : IsWorld emptied =
      for_ids-rule IsWorld max_players 0 pop_input _ (λ i s h. pop_input-IsWorld i s)
        (drain_inbound-IsWorld s v) in
    let moved_on-v : IsWorld moved_on =
      for_ids-rule IsWorld max_players 0 move_player emptied (λ i s h. move_player-IsWorld i s)
        emptied-v in
    let fought-v : IsWorld fought =
      for_ids-rule IsWorld max_players 0 (combat_step direction) moved_on
        (λ i s h. combat_step-IsWorld direction i s) moved_on-v in
    subst (All IsPlayer) (sym (publish-players (win_check flown) ∙ win_check-players flown))
      (flags_phase-IsWorld fought fought-v)
