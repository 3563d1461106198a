-- ===== src/Server/Sim/Liveness.antt =====
-- A dead player of server/sim.cpp comes back: the rest of the tick, and the count of its timer.
use networked_capture_the_fl.Prelude.{
  ltb, ◌==◌, if◌then◌else◌, and_left, and_right, if-elim, length, get_or, set, get_or-set_self,
  get_or-set_ne, ℤ, pos, ◌-ℤ◌, ltb_ℤ, ℕ, zero, suc, ◌<◌, ◌≡◌, refl, ap, ◌∙◌, ◌≢◌, Bool, true, false,
  not, ◌&&◌, Option, none, some, List, [], ◌∷◌, arith,
}
use networked_capture_the_fl.GameTypes.{Team, red, blue}
use networked_capture_the_fl.GameTypes.Config.{max_health, max_players, fire_cooldown_ticks}
use networked_capture_the_fl.Movement.{pressed, input_fire}
use networked_capture_the_fl.Server.Sim.{
  Player, no_one, other_team, base_of, Sim, player, put_player, flag, is_joined, for_ids,
  for_ids-at, push_event, aabb_overlap, spawn_of,
}
use networked_capture_the_fl.Server.Sim.Roster.{drain_inbound}
use networked_capture_the_fl.Server.Sim.Inputs.{
  pop_input, pop_inputs, command, move_player, move_players,
}
use networked_capture_the_fl.Server.Sim.RayLaws.{cast_ray-IsStruck}
use networked_capture_the_fl.Server.Sim.Combat.{
  damaged, strike, center, strike_any, shoot, combat_step, combat,
}
use networked_capture_the_fl.Server.Sim.Flags.{
  is_at_base, is_carried, is_dropped, is_overdue, follow_flag, touch_own, pick_up, capture,
  touch_flags, respawn_step, flags_phase, win_check,
}
use networked_capture_the_fl.Server.Sim.Tick.{tick}
use networked_capture_the_fl.Server.Sim.Sound.{handle_death_lem}
use networked_capture_the_fl.Server.Sim.SoundTick.{win_check-players, publish-players}
use networked_capture_the_fl.Server.Sim.Respawn.{
  all_spare, entry-if, IsDown, IsDown-same, drain_inbound-rests, loop-rests, pop_input-rests,
  move_player-rests,
}

module _ (i : ℕ) (slot : i < max_players) where
  strike-rests : (shooter k : ℕ) (s : Sim) → k ≢ i → player i (strike shooter k s) ≡ player i s
  unfolding strike push_event
  strike-rests shooter k s apart =
      let p = player k s in
      let q : Player = record p { health = damaged p.health } in
      let (b, writes) = handle_death_lem k (put_player k q s) in
      entry-if i s (damaged p.health == 0) _ (put_player k q s)
        (λ e.
          ap (λ ps. get_or ps i no_one) writes
          ∙ get_or-set_ne (set s.players k q) k i _ no_one apart
          ∙ get_or-set_ne s.players k i q no_one apart)
        (λ e. get_or-set_ne s.players k i q no_one apart)

  strike_any-rests :
      (shooter : ℕ) (o : Option ℕ) (s : Sim)
      → ((k : ℕ) → o ≡ some k → k ≢ i)
      → player i (strike_any shooter o s) ≡ player i s
  strike_any-rests shooter none s h = refl
  strike_any-rests shooter (some k) s h = strike-rests shooter k s (h k refl)

  -- A ray hits nobody who is dead.
  shoot-rests :
      (direction : ℕ → ℤ × ℤ) (j : ℕ) (s : Sim)
      → j ≢ i
      → IsDown i slot s
      → player i (shoot direction j s) ≡ player i s
  unfolding shoot push_event
  shoot-rests direction j s apart (on, down) =
      let p = player j s in
      let aim = (command j s).aim_angle in
      let fresh : Player = record p { fire_cooldown = fire_cooldown_ticks } in
      strike_any-rests j _ _ (λ k e same.
        let hit = cast_ray-IsStruck direction (center p.position) aim p.team s.players k e in
        let a = and_right (player k s).active _ (and_left _ _ hit.target) in
        let b = ap (λ k. (player k s).alive) same in cc)
      ∙ get_or-set_ne s.players j i fresh no_one apart

  combat_step-rests :
      (direction : ℕ → ℤ × ℤ) (j : ℕ) (s : Sim)
      → IsDown i slot s
      → player i (combat_step direction j s) ≡ player i s
  unfolding combat_step
  combat_step-rests direction j s (on, down) =
      let p = player j s in
      entry-if i s (p.active && p.alive) _ s
        (λ a.
          let apart : j ≢ i = λ same.
            let b = ap (λ k. (player k s).alive) same in let c = and_right p.active _ a in cc in
          entry-if i s (ltb 0 p.fire_cooldown) _ _ (λ e. get_or-set_ne s.players j i _ no_one apart)
            (λ e.
              entry-if i s (pressed (command j s) input_fire) _ s
                (λ e. shoot-rests direction j s apart (on, down)) (λ e. refl)))
        (λ e. refl)

  follow_flag-rests : (t : Team) (s : Sim) → player i (follow_flag t s) ≡ player i s
  unfolding follow_flag push_event
  follow_flag-rests t s =
      let f = flag t s in
      entry-if i s (is_carried f.state) _ _
        (λ e. entry-if i s (is_joined f.carrier_id s) _ s (λ e. refl) (λ e. refl))
        (λ e. entry-if i s (is_dropped f.state && is_overdue t s) _ s (λ e. refl) (λ e. refl))

  touch_own-rests : (j : ℕ) (s : Sim) → player i (touch_own j s) ≡ player i s
  unfolding touch_own push_event
  touch_own-rests j s =
      entry-if i s
        (is_dropped (flag (player j s).team s).state
          && aabb_overlap (player j s).position (flag (player j s).team s).position)
        _ s (λ e. refl) (λ e. refl)

  pick_up-rests : (j : ℕ) (s : Sim) → j ≢ i → player i (pick_up j s) ≡ player i s
  unfolding pick_up push_event
  pick_up-rests j s apart =
      let p = player j s in
      let f = flag (other_team p.team) s in
      entry-if i s
        (not p.carrying_flag && not (is_carried f.state) && aabb_overlap p.position f.position) _ s
        (λ e. get_or-set_ne s.players j i _ no_one apart) (λ e. refl)

  capture-rests : (j : ℕ) (s : Sim) → j ≢ i → player i (capture j s) ≡ player i s
  unfolding capture push_event
  capture-rests j s apart =
      let p = player j s in
      entry-if i s
        (p.carrying_flag
          && is_at_base (flag p.team s).state
          && aabb_overlap p.position (base_of p.team))
        _ s (λ e. get_or-set_ne s.players j i _ no_one apart) (λ e. refl)

  touch_flags-rests : (j : ℕ) (s : Sim) → IsDown i slot s → player i (touch_flags j s) ≡ player i s
  unfolding touch_flags
  touch_flags-rests j s (on, down) =
      let p = player j s in
      entry-if i s (p.active && p.alive) _ s
        (λ a.
          let apart : j ≢ i = λ same.
            let b = ap (λ k. (player k s).alive) same in let c = and_right p.active _ a in cc in
          capture-rests j _ apart ∙ pick_up-rests j (touch_own j s) apart ∙ touch_own-rests j s)
        (λ e. refl)

  respawn_step-rests : (j : ℕ) (s : Sim) → j ≢ i → player i (respawn_step j s) ≡ player i s
  unfolding respawn_step push_event
  respawn_step-rests j s apart =
      let p = player j s in
      entry-if i s (p.active && not p.alive) _ s
        (λ e.
          entry-if i s (ltb_ℤ (pos 0) (p.respawn_timer -ℤ pos 1)) _ _
            (λ e. get_or-set_ne s.players j i _ no_one apart)
            (λ e. get_or-set_ne s.players j i _ no_one apart))
        (λ e. refl)

-- A dead player after one more tick.
abbrev pub waited : Player → Player
waited p =
    let timer = p.respawn_timer -ℤ pos 1 in
    if ltb_ℤ (pos 0) timer then record p { respawn_timer = timer } else record p {
      respawn_timer = timer;
      alive = true;
      health = max_health;
      position = spawn_of p;
    }

active-slot : (ps : List Player) (i : ℕ) → (get_or ps i no_one).active ≡ true → i < length ps
active-slot [] i h = cc
active-slot (p ∷ ps) zero h = omega arith
active-slot (p ∷ ps) (suc i) h = omega (arith, active-slot ps i h)

entry-branch :
    (i : ℕ) (b : Bool) (t u : Sim) (p q : Player)
    → player i t ≡ p
    → player i u ≡ q
    → player i (if b then t else u) ≡ (if b then p else q)
entry-branch i true t u p q e f = e
entry-branch i false t u p q e f = f

module _ (i : ℕ) (slot : i < max_players) where
  respawn_step_lem : (s : Sim) → IsDown i slot s → player i (respawn_step i s) ≡ waited (player i s)
  unfolding respawn_step push_event
  respawn_step_lem s (on, down) =
      let p = player i s in
      let h = active-slot s.players i on in
      if-elim (λ (u : Sim). player i u ≡ waited p) (p.active && not p.alive) _ s
        (λ e.
          entry-branch i (ltb_ℤ (pos 0) (p.respawn_timer -ℤ pos 1)) _ _ _ _
            (get_or-set_self s.players i _ no_one h) (get_or-set_self s.players i _ no_one h))
        (λ e. absurd (ground arith))

  flags_phase-waited : (s : Sim) → IsDown i slot s → player i (flags_phase s) ≡ waited (player i s)
  unfolding flags_phase
  flags_phase-waited s d =
      let p = player i s in
      let followed = follow_flag blue (follow_flag red s) in
      let e : player i followed ≡ p =
        follow_flag-rests i slot blue (follow_flag red s) ∙ follow_flag-rests i slot red s in
      let touched = for_ids max_players 0 touch_flags followed in
      let f : player i touched ≡ p =
        loop-rests i slot touch_flags followed (touch_flags-rests i slot)
          (IsDown-same i slot s followed e d)
        ∙ e in
      for_ids-at respawn_step (λ u. player i u ≡ p) (λ u. player i u ≡ waited p) i max_players 0
        touched (omega arith) (omega arith) (λ j u apart k. respawn_step-rests i slot j u apart ∙ k)
        (λ j u apart k. respawn_step-rests i slot j u apart ∙ k)
        (λ u k. respawn_step_lem u (IsDown-same i slot s u k d) ∙ ap waited k) f

  pub tick-waited :
      (direction : ℕ → ℤ × ℤ) (s : Sim)
      → IsDown i slot s
      → all_spare i s.inbound ≡ true
      → player i (tick direction s) ≡ waited (player i s)
  unfolding tick pop_inputs move_players combat
  tick-waited direction s d h =
      let a = drain_inbound s in
      let b = for_ids max_players 0 pop_input a in
      let c = for_ids max_players 0 move_player b in
      let f = for_ids max_players 0 (combat_step direction) c in
      let a-e : player i a ≡ player i s = drain_inbound-rests i slot s d h in
      let b-e : player i b ≡ player i s =
        loop-rests i slot pop_input a (pop_input-rests i slot) (IsDown-same i slot s a a-e d)
        ∙ a-e in
      let c-e : player i c ≡ player i s =
        loop-rests i slot move_player b (move_player-rests i slot) (IsDown-same i slot s b b-e d)
        ∙ b-e in
      let f-e : player i f ≡ player i s =
        loop-rests i slot (combat_step direction) c (combat_step-rests i slot direction)
          (IsDown-same i slot s c c-e d)
        ∙ c-e in
      ap (λ ps. get_or ps i no_one)
        (publish-players (win_check (flags_phase f)) ∙ win_check-players (flags_phase f))
      ∙ flags_phase-waited f (IsDown-same i slot s f f-e d)
      ∙ ap waited f-e
