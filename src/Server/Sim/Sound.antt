-- ===== src/Server/Sim/Sound.antt =====
-- Each step of server/sim.cpp keeps the entries of `players_` sound.
use networked_capture_the_fl.Prelude.{
  ltb, leb, ◌==◌, ltb→lt, and_left, and_right, if-elim, length, set, length-set, get_or-set_self,
  All, set-set, All-set, ℤ, ℕ, ◌-◌, ◌<◌, ◌≡◌, refl, sym, ap, subst, ◌∙◌, Bool, true, false, not,
  ◌&&◌, ◌||◌, Option, none, some, List, [], ◌∷◌, arith,
}
use networked_capture_the_fl.GameTypes.{Team, InputCmd}
use networked_capture_the_fl.GameTypes.Config.{max_players, fire_cooldown_ticks}
use networked_capture_the_fl.Movement.{pressed, input_fire}
use networked_capture_the_fl.Server.Queues.{
  InboundCommand, player_joined, player_left, player_input,
}
use networked_capture_the_fl.Server.Sim.{
  Player, no_one, Sim, player, put_player, is_joined, push_event, drop_flag,
}
use networked_capture_the_fl.Server.Sim.Roster.{
  joining, apply_join, apply_leave, push_input, apply_input, apply_command, drain_commands,
  drain_inbound,
}
use networked_capture_the_fl.Server.Sim.Inputs.{popped, pop_input, command, move_player}
use networked_capture_the_fl.Server.Sim.RayLaws.{cast_ray-IsStruck}
use networked_capture_the_fl.Server.Sim.Combat.{
  dead, handle_death, damaged, strike, center, strike_any, shoot, combat_step,
}
use networked_capture_the_fl.Server.Sim.Players.{
  IsPlayer, IsWorld, no_one-IsPlayer, player-IsPlayer, put-IsWorld, joining-IsPlayer,
  popped-IsPlayer, push_input-IsPlayer, moved-IsPlayer, cooling-IsPlayer, living-IsPlayer, death,
  hurt-IsVital,
}

apply_join-IsWorld :
    (id : ℕ) (t : Team) (index : ℕ) (s : Sim) → IsWorld s → IsWorld (apply_join id t index s)
unfolding apply_join
apply_join-IsWorld id t index s v =
    if-elim IsWorld (s.match_over || is_joined id s || leb max_players id) s _ (λ e. v)
      (λ e.
        put-IsWorld id (joining t index (player id s)) s
          (joining-IsPlayer t index _ (player-IsPlayer id s v)) v)

apply_leave-IsWorld : (id : ℕ) (s : Sim) → IsWorld s → IsWorld (apply_leave id s)
unfolding apply_leave drop_flag
apply_leave-IsWorld id s v =
    let p = player id s in
    if-elim IsWorld (is_joined id s) _ s
      (λ e.
        if-elim
          (λ after.
            IsWorld (record (put_player id no_one after) { player_count = s.player_count - 1 }))
          p.carrying_flag _ s (λ c. put-IsWorld id no_one s no_one-IsPlayer v)
          (λ c. put-IsWorld id no_one s no_one-IsPlayer v))
      (λ e. v)

newer : (n seq : ℕ) → not (leb seq n) ≡ true → n < seq
newer n seq h = ground arith

apply_input-IsWorld :
    (id seq : ℕ) (input : InputCmd) (s : Sim) → IsWorld s → IsWorld (apply_input id seq input s)
unfolding apply_input
apply_input-IsWorld id seq input s v =
    if-elim IsWorld
      (is_joined id s && (player id s).alive && not (leb seq (player id s).newest_seq)) _ s
      (λ e.
        put-IsWorld id (push_input seq input (player id s)) s
          (push_input-IsPlayer seq input _
            (newer (player id s).newest_seq seq
              (and_right (is_joined id s && (player id s).alive) _ e))
            (player-IsPlayer id s v))
          v)
      (λ e. v)

apply_command-IsWorld : (cmd : InboundCommand) (s : Sim) → IsWorld s → IsWorld (apply_command cmd s)
unfolding apply_command
apply_command-IsWorld (player_joined id t index) s v =
    if-elim IsWorld s.match_over s _ (λ e. v) (λ e. apply_join-IsWorld id t index s v)
apply_command-IsWorld (player_left id) s v =
    if-elim IsWorld s.match_over s _ (λ e. v) (λ e. apply_leave-IsWorld id s v)
apply_command-IsWorld (player_input id seq input) s v =
    if-elim IsWorld s.match_over s _ (λ e. v) (λ e. apply_input-IsWorld id seq input s v)

drain_commands-IsWorld :
    (cmds : List InboundCommand) (s : Sim) → IsWorld s → IsWorld (drain_commands cmds s)
drain_commands-IsWorld [] s v = v
drain_commands-IsWorld (cmd ∷ cmds) s v =
    drain_commands-IsWorld cmds (apply_command cmd s) (apply_command-IsWorld cmd s v)

pub drain_inbound-IsWorld : (s : Sim) → IsWorld s → IsWorld (drain_inbound s)
unfolding drain_inbound
drain_inbound-IsWorld s v = drain_commands-IsWorld s.inbound _ v

pub pop_input-IsWorld : (i : ℕ) (s : Sim) → IsWorld s → IsWorld (pop_input i s)
unfolding pop_input
pop_input-IsWorld i s v =
    if-elim IsWorld (player i s).active _ s
      (λ e.
        if-elim IsWorld ((player i s).alive && ltb 0 (player i s).ring_count) _ _
          (λ e.
            put-IsWorld i (popped (player i s)) s
              (popped-IsPlayer _ (ltb→lt _ _ (and_right (player i s).alive _ e))
                (player-IsPlayer i s v))
              v)
          (λ e. v))
      (λ e. v)

pub move_player-IsWorld : (i : ℕ) (s : Sim) → IsWorld s → IsWorld (move_player i s)
unfolding move_player
move_player-IsWorld i s v =
    if-elim IsWorld ((player i s).active && (player i s).alive) _ s
      (λ e.
        put-IsWorld i _ s (moved-IsPlayer (command i s) _ (and_left _ _ e) (player-IsPlayer i s v))
          v)
      (λ e. v)

-- A death writes the victim's entry, dead.
pub handle_death_lem :
    (i : ℕ) (s : Sim)
    → (b : Bool) × ((handle_death i s).players
        ≡ set s.players i (record (dead (player i s)) { carrying_flag = b }))
unfolding handle_death push_event drop_flag
handle_death_lem i s =
    if-elim
      (λ (u : Sim).
        (b : Bool) × (u.players
          ≡ set s.players i (record (dead (player i s)) { carrying_flag = b })))
      (player i s).carrying_flag _ _
      (λ c. (
        false,
        set-set s.players i (dead (player i s))
            (record (dead (player i s)) { carrying_flag = false }),
      ))
      (λ c. ((player i s).carrying_flag, refl))

-- A strike writes the victim's entry: hurt, or dead.
strike-IsWorld :
    (shooter i : ℕ) (s : Sim) → i < length s.players → IsWorld s → IsWorld (strike shooter i s)
unfolding strike push_event
strike-IsWorld shooter i s h v =
    let p = player i s in
    let q : Player = record p { health = damaged p.health } in
    let sound = player-IsPlayer i s v in
    if-elim IsWorld (damaged p.health == 0) _ _
      (λ e.
        let (b, writes) = handle_death_lem i (put_player i q s) in
        let is_q : player i (put_player i q s) ≡ q = get_or-set_self s.players i q no_one h in
        subst (All IsPlayer)
          (sym (
            writes
            ∙ ap (λ (r : Player). set (set s.players i q) i (record (dead r) { carrying_flag = b }))
                is_q
            ∙ set-set s.players i q _))
          (All-set IsPlayer s.players i _ v (living-IsPlayer 0 false b _ p death sound)))
      (λ e.
        put-IsWorld i q s
          (living-IsPlayer (damaged p.health) p.alive p.carrying_flag p.respawn_timer p
            (hurt-IsVital p.health p.alive p.respawn_timer e sound.vital) sound)
          v)

strike_any-IsWorld :
    (shooter : ℕ) (o : Option ℕ) (s : Sim)
    → ((k : ℕ) → o ≡ some k → k < length s.players)
    → IsWorld s
    → IsWorld (strike_any shooter o s)
strike_any-IsWorld shooter none s h v = v
strike_any-IsWorld shooter (some k) s h v = strike-IsWorld shooter k s (h k refl) v

shoot-IsWorld :
    (direction : ℕ → ℤ × ℤ) (i : ℕ) (s : Sim) → IsWorld s → IsWorld (shoot direction i s)
unfolding shoot push_event
shoot-IsWorld direction i s v =
    let p = player i s in
    let aim = (command i s).aim_angle in
    let fresh : Player = record p { fire_cooldown = fire_cooldown_ticks } in
    strike_any-IsWorld i _ _
      (λ k e.
        let hit = cast_ray-IsStruck direction (center p.position) aim p.team s.players k e in
        omega (arith, hit.slot, length-set s.players i fresh))
      (put-IsWorld i fresh s
        (cooling-IsPlayer fire_cooldown_ticks p (omega arith) (player-IsPlayer i s v)) v)

pub combat_step-IsWorld :
    (direction : ℕ → ℤ × ℤ) (i : ℕ) (s : Sim) → IsWorld s → IsWorld (combat_step direction i s)
unfolding combat_step
combat_step-IsWorld direction i s v =
    let p = player i s in
    let sound = player-IsPlayer i s v in
    if-elim IsWorld (p.active && p.alive) _ s
      (λ e.
        if-elim IsWorld (ltb 0 p.fire_cooldown) _ _
          (λ e.
            put-IsWorld i _ s
              (cooling-IsPlayer (p.fire_cooldown - 1) p (omega (arith, sound.cooldown_in)) sound) v)
          (λ e.
            if-elim IsWorld (pressed (command i s) input_fire) _ s
              (λ e. shoot-IsWorld direction i s v) (λ e. v)))
      (λ e. v)
