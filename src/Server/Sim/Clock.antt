-- ===== src/Server/Sim/Clock.antt =====
-- What only `win_check`, `publish` and the end of `tick` in server/sim.cpp change.
use networked_capture_the_fl.Prelude.{
  ltb, ◌==◌, if◌then◌else◌, if-elim, ℤ, pos, ◌-ℤ◌, ltb_ℤ, ℕ, ◌-◌, ◌≡◌, refl, ◌∙◌, Bool, not, ◌&&◌,
  Option, none, some, List, [], ◌∷◌,
}
use networked_capture_the_fl.GameTypes.{Team, red, blue, InputCmd, WorldSnapshot}
use networked_capture_the_fl.GameTypes.Config.{max_players}
use networked_capture_the_fl.Movement.{pressed, input_fire}
use networked_capture_the_fl.Server.Queues.{
  InboundCommand, player_joined, player_left, player_input,
}
use networked_capture_the_fl.Server.Sim.{
  no_one, Sim, player, put_player, flag, is_joined, for_ids, for_ids-rule, push_event, drop_flag,
}
use networked_capture_the_fl.Server.Sim.Roster.{
  apply_join, apply_leave, apply_input, apply_command, drain_commands, drain_inbound,
}
use networked_capture_the_fl.Server.Sim.Inputs.{
  pop_input, pop_inputs, command, move_player, move_players,
}
use networked_capture_the_fl.Server.Sim.Combat.{
  handle_death, damaged, strike, strike_any, shoot, combat_step, combat,
}
use networked_capture_the_fl.Server.Sim.Flags.{
  is_carried, is_dropped, is_overdue, follow_flag, touch_own, pick_up, capture, touch_flags,
  respawn_step, flags_phase,
}

pub record Outer : Type 0 where
  pub current_tick : ℕ
  pub match_over : Bool
  pub tick_hz : ℕ
  pub snapshot_hz : ℕ
  pub delta_snapshots : Bool
  pub prev_published : WorldSnapshot
  pub have_published : Bool
  pub snapshots_published : ℕ
  pub inbound : List InboundCommand

abbrev pub outer : Sim → Outer
outer s = record {
  current_tick = s.current_tick;
  match_over = s.match_over;
  tick_hz = s.tick_hz;
  snapshot_hz = s.snapshot_hz;
  delta_snapshots = s.delta_snapshots;
  prev_published = s.prev_published;
  have_published = s.have_published;
  snapshots_published = s.snapshots_published;
  inbound = s.inbound;
}

-- A conditional step whose branches keep it keeps it.
outer-if :
    (b : Bool) (s t u : Sim)
    → outer t ≡ outer s
    → outer u ≡ outer s
    → outer (if b then t else u) ≡ outer s
outer-if b s t u h k = if-elim (λ v. outer v ≡ outer s) b t u (λ e. h) (λ e. k)

loop-outer :
    (body : ℕ → Sim → Sim) (s : Sim)
    → ((i : ℕ) (u : Sim) → outer (body i u) ≡ outer u)
    → outer (for_ids max_players 0 body s) ≡ outer s
loop-outer body s keeps =
    for_ids-rule (λ u. outer u ≡ outer s) max_players 0 body s (λ i u h k. keeps i u ∙ k) refl

apply_join-outer :
    (id : ℕ) (t : Team) (index : ℕ) (s : Sim) → outer (apply_join id t index s) ≡ outer s
unfolding apply_join
apply_join-outer id t index s = outer-if _ s _ _ refl refl

apply_leave-outer : (id : ℕ) (s : Sim) → outer (apply_leave id s) ≡ outer s
unfolding apply_leave drop_flag
apply_leave-outer id s =
    let p = player id s in
    outer-if (is_joined id s) s _ s
      (if-elim
        (λ after.
          outer (record (put_player id no_one after) { player_count = s.player_count - 1 })
          ≡ outer s)
        p.carrying_flag _ s (λ e. refl) (λ e. refl))
      refl

apply_input-outer :
    (id seq : ℕ) (input : InputCmd) (s : Sim) → outer (apply_input id seq input s) ≡ outer s
unfolding apply_input
apply_input-outer id seq input s = outer-if _ s _ _ refl refl

apply_command-outer : (cmd : InboundCommand) (s : Sim) → outer (apply_command cmd s) ≡ outer s
unfolding apply_command
apply_command-outer (player_joined id t index) s =
    outer-if s.match_over s s _ refl (apply_join-outer id t index s)
apply_command-outer (player_left id) s = outer-if s.match_over s s _ refl (apply_leave-outer id s)
apply_command-outer (player_input id seq input) s =
    outer-if s.match_over s s _ refl (apply_input-outer id seq input s)

drain_commands-outer :
    (cmds : List InboundCommand) (s : Sim) → outer (drain_commands cmds s) ≡ outer s
drain_commands-outer [] s = refl
drain_commands-outer (cmd ∷ cmds) s =
    drain_commands-outer cmds (apply_command cmd s) ∙ apply_command-outer cmd s

pub drain_inbound-outer : (s : Sim) → outer (drain_inbound s) ≡ outer (record s { inbound = [] })
unfolding drain_inbound
drain_inbound-outer s = drain_commands-outer s.inbound (record s { inbound = [] })

pop_input-outer : (i : ℕ) (s : Sim) → outer (pop_input i s) ≡ outer s
unfolding pop_input
pop_input-outer i s =
    outer-if (player i s).active s _ s
      (outer-if ((player i s).alive && ltb 0 (player i s).ring_count) s _ _ refl refl) refl

pub pop_inputs-outer : (s : Sim) → outer (pop_inputs s) ≡ outer s
unfolding pop_inputs
pop_inputs-outer s = loop-outer pop_input s pop_input-outer

move_player-outer : (i : ℕ) (s : Sim) → outer (move_player i s) ≡ outer s
unfolding move_player
move_player-outer i s = outer-if _ s _ s refl refl

pub move_players-outer : (s : Sim) → outer (move_players s) ≡ outer s
unfolding move_players
move_players-outer s = loop-outer move_player s move_player-outer

handle_death-outer : (i : ℕ) (s : Sim) → outer (handle_death i s) ≡ outer s
unfolding handle_death push_event drop_flag
handle_death-outer i s = outer-if (player i s).carrying_flag s _ _ refl refl

strike_any-outer : (shooter : ℕ) (o : Option ℕ) (s : Sim) → outer (strike_any shooter o s) ≡ outer s
unfolding strike push_event
strike_any-outer shooter none s = refl
strike_any-outer shooter (some k) s =
    outer-if (damaged (player k s).health == 0) s _ _ (handle_death-outer k _) refl

shoot-outer : (direction : ℕ → ℤ × ℤ) (i : ℕ) (s : Sim) → outer (shoot direction i s) ≡ outer s
unfolding shoot push_event
shoot-outer direction i s = strike_any-outer i _ _

combat_step-outer :
    (direction : ℕ → ℤ × ℤ) (i : ℕ) (s : Sim) → outer (combat_step direction i s) ≡ outer s
unfolding combat_step
combat_step-outer direction i s =
    let p = player i s in
    outer-if (p.active && p.alive) s _ s
      (outer-if (ltb 0 p.fire_cooldown) s _ _ refl
        (outer-if (pressed (command i s) input_fire) s _ s (shoot-outer direction i s) refl))
      refl

pub combat-outer : (direction : ℕ → ℤ × ℤ) (s : Sim) → outer (combat direction s) ≡ outer s
unfolding combat
combat-outer direction s = loop-outer (combat_step direction) s (combat_step-outer direction)

follow_flag-outer : (t : Team) (s : Sim) → outer (follow_flag t s) ≡ outer s
unfolding follow_flag push_event
follow_flag-outer t s =
    let f = flag t s in
    outer-if (is_carried f.state) s _ _ (outer-if (is_joined f.carrier_id s) s _ s refl refl)
      (outer-if (is_dropped f.state && is_overdue t s) s _ s refl refl)

touch_own-outer : (i : ℕ) (s : Sim) → outer (touch_own i s) ≡ outer s
unfolding touch_own push_event
touch_own-outer i s = outer-if _ s _ s refl refl

pick_up-outer : (i : ℕ) (s : Sim) → outer (pick_up i s) ≡ outer s
unfolding pick_up push_event
pick_up-outer i s = outer-if _ s _ s refl refl

capture-outer : (i : ℕ) (s : Sim) → outer (capture i s) ≡ outer s
unfolding capture push_event
capture-outer i s = outer-if _ s _ s refl refl

touch_flags-outer : (i : ℕ) (s : Sim) → outer (touch_flags i s) ≡ outer s
unfolding touch_flags
touch_flags-outer i s =
    outer-if _ s _ s (capture-outer i _ ∙ pick_up-outer i (touch_own i s) ∙ touch_own-outer i s)
      refl

respawn_step-outer : (i : ℕ) (s : Sim) → outer (respawn_step i s) ≡ outer s
unfolding respawn_step push_event
respawn_step-outer i s =
    outer-if ((player i s).active && not (player i s).alive) s _ s
      (outer-if (ltb_ℤ (pos 0) ((player i s).respawn_timer -ℤ pos 1)) s _ _ refl refl) refl

pub flags_phase-outer : (s : Sim) → outer (flags_phase s) ≡ outer s
unfolding flags_phase
flags_phase-outer s =
    loop-outer respawn_step _ respawn_step-outer
    ∙ loop-outer touch_flags _ touch_flags-outer
    ∙ follow_flag-outer blue (follow_flag red s)
    ∙ follow_flag-outer red s

-- The state that a tick checks for the end of the match and publishes.
abbrev pub played : (ℕ → ℤ × ℤ) → Sim → Sim
played direction s = flags_phase (combat direction (move_players (pop_inputs (drain_inbound s))))

pub played-outer :
    (direction : ℕ → ℤ × ℤ) (s : Sim)
    → outer (played direction s) ≡ outer (record s { inbound = [] })
played-outer direction s =
    flags_phase-outer (combat direction (move_players (pop_inputs (drain_inbound s))))
    ∙ combat-outer direction (move_players (pop_inputs (drain_inbound s)))
    ∙ move_players-outer (pop_inputs (drain_inbound s))
    ∙ pop_inputs-outer (drain_inbound s)
    ∙ drain_inbound-outer s
