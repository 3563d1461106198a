-- ===== src/Server/Sim/Battle.antt =====
-- Combat and the flags phase of server/sim.cpp keep the flags and their carriers consistent.
use networked_capture_the_fl.Prelude.{
  ltb, ◌==◌, if-elim, set-set, ℤ, ℕ, ◌-◌, ◌<◌, ◌≡◌, refl, inr, false, ◌&&◌, Option, none, some,
  arith,
}
use networked_capture_the_fl.GameTypes.Config.{max_players, fire_cooldown_ticks}
use networked_capture_the_fl.Movement.{pressed, input_fire}
use networked_capture_the_fl.Server.Sim.{
  other_team, Sim, player, put_player, for_ids-rule, push_event, drop_flag,
}
use networked_capture_the_fl.Server.Sim.Inputs.{command}
use networked_capture_the_fl.Server.Sim.RayLaws.{cast_ray-IsStruck}
use networked_capture_the_fl.Server.Sim.Combat.{
  dead, handle_death, damaged, strike, center, strike_any, shoot, combat_step, combat,
}
use networked_capture_the_fl.Server.Sim.Carriers.{IsConsistent, release}
use networked_capture_the_fl.Server.Sim.Consistent.{
  Calm-write, SameRole-write, same_world, drop_flag-Kept, drop_flag-gone,
}

handle_death-IsConsistent :
    (i : ℕ) (s : Sim) → i < max_players → IsConsistent s → IsConsistent (handle_death i s)
unfolding handle_death push_event drop_flag
handle_death-IsConsistent i s h v =
    let p = player i s in
    if-elim IsConsistent p.carrying_flag _ _
      (λ c.
        release i (other_team p.team) (record (dead p) { carrying_flag = false }) s _ h
          (set-set s.players i (dead p) (record (dead p) { carrying_flag = false })) refl c refl
          (drop_flag-gone _ p.position s) (drop_flag-Kept _ p.position s) v)
      (λ c. Calm-write i (dead p) s _ h refl refl (inr (c, c)) v)

strike-IsConsistent :
    (shooter i : ℕ) (s : Sim) → i < max_players → IsConsistent s → IsConsistent (strike shooter i s)
unfolding strike push_event
strike-IsConsistent shooter i s h v =
    let p = player i s in
    let hurt = put_player i (record p { health = damaged p.health }) s in
    let hurt-v : IsConsistent hurt =
      SameRole-write i (record p { health = damaged p.health }) s hurt h refl refl
        (record { active = refl; alive = refl; carries = refl; team = refl }) v in
    if-elim IsConsistent (damaged p.health == 0) _ hurt
      (λ e.
        same_world (handle_death i hurt) _ refl refl (handle_death-IsConsistent i hurt h hurt-v))
      (λ e. hurt-v)

strike_any-IsConsistent :
    (shooter : ℕ) (o : Option ℕ) (s : Sim)
    → ((k : ℕ) → o ≡ some k → k < max_players)
    → IsConsistent s
    → IsConsistent (strike_any shooter o s)
strike_any-IsConsistent shooter none s h v = v
strike_any-IsConsistent shooter (some k) s h v = strike-IsConsistent shooter k s (h k refl) v

shoot-IsConsistent :
    (direction : ℕ → ℤ × ℤ) (i : ℕ) (s : Sim)
    → i < max_players
    → IsConsistent s
    → IsConsistent (shoot direction i s)
unfolding shoot push_event
shoot-IsConsistent direction i s h v =
    let p = player i s in
    let aim = (command i s).aim_angle in
    strike_any-IsConsistent i _ _
      (λ k e.
        let hit = cast_ray-IsStruck direction (center p.position) aim p.team s.players k e in
        omega (arith, hit.slot, v.ten))
      (SameRole-write i (record p { fire_cooldown = fire_cooldown_ticks }) s _ h refl refl
        (record { active = refl; alive = refl; carries = refl; team = refl }) v)

combat_step-IsConsistent :
    (direction : ℕ → ℤ × ℤ) (i : ℕ) (s : Sim)
    → i < max_players
    → IsConsistent s
    → IsConsistent (combat_step direction i s)
unfolding combat_step
combat_step-IsConsistent direction i s h v =
    let p = player i s in
    if-elim IsConsistent (p.active && p.alive) _ s
      (λ e.
        if-elim IsConsistent (ltb 0 p.fire_cooldown) _ _
          (λ e.
            SameRole-write i (record p { fire_cooldown = p.fire_cooldown - 1 }) s _ h refl refl
              (record { active = refl; alive = refl; carries = refl; team = refl }) v)
          (λ e.
            if-elim IsConsistent (pressed (command i s) input_fire) _ s
              (λ e. shoot-IsConsistent direction i s h v) (λ e. v)))
      (λ e. v)

pub combat-IsConsistent :
    (direction : ℕ → ℤ × ℤ) (s : Sim) → IsConsistent s → IsConsistent (combat direction s)
unfolding combat
combat-IsConsistent direction s v =
    for_ids-rule IsConsistent max_players 0 (combat_step direction) s
      (λ i s h. combat_step-IsConsistent direction i s h) v
