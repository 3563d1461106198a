-- ===== src/Server/Sim/Scoring.antt =====
-- The flags phase and the tick of server/sim.cpp keep the flags and their carriers consistent.
use networked_capture_the_fl.Prelude.{
  leb, and_left, and_right, Bool-cases, if-elim, not-true, get_or, ℤ, pos, ◌-ℤ◌, ltb_ℤ, ℕ, ◌<◌, ◌≡◌,
  refl, sym, ap, ◌∙◌, inl, inr, true, false, not, ◌&&◌, ◌||◌,
}
use networked_capture_the_fl.GameTypes.{
  Team, red, blue, FlagState, at_base, carried, dropped, FlagInfo, no_carrier,
}
use networked_capture_the_fl.GameTypes.Config.{max_health, max_players, score_to_win}
use networked_capture_the_fl.Server.Sim.{
  Player, no_one, PerTeam, of_team, put_team, other_team, base_of, Sim, player, flag, is_joined,
  for_ids-rule, push_event, aabb_overlap, spawn_of,
}
use networked_capture_the_fl.Server.Sim.Tick.{tick}
use networked_capture_the_fl.Server.Sim.Battle.{combat-IsConsistent}
use networked_capture_the_fl.Server.Sim.Flags.{
  is_at_base, is_carried, is_dropped, home_flag, return_flag, is_overdue, follow_flag, touch_own,
  pick_up, capture, touch_flags, respawn_step, flags_phase, limit_ticks, win_check,
}
use networked_capture_the_fl.Server.Sim.Carriers.{IsConsistent, Kept, other_twice, release, take_up}
use networked_capture_the_fl.Server.Sim.Consistent.{
  Calm-write, same_world, calm_flag, carrier_lem, drain_inbound-IsConsistent,
  pop_inputs-IsConsistent, move_players-IsConsistent, publish-IsConsistent,
}

free_flag : (f : FlagState) → is_carried f ≡ false → (f ≡ carried) → ⊥
free_flag at_base h e = cc
free_flag carried h e = cc
free_flag dropped h e = cc

dropped_flag : (f : FlagState) → is_dropped f ≡ true → (f ≡ carried) → ⊥
dropped_flag at_base h e = cc
dropped_flag carried h e = cc
dropped_flag dropped h e = cc

at_base_not : (at_base ≡ carried) → ⊥
at_base_not e = cc

return_flag-IsConsistent :
    (t : Team) (id : ℕ) (s : Sim)
    → is_dropped (flag t s).state ≡ true
    → IsConsistent s
    → IsConsistent (return_flag t id s)
unfolding push_event
return_flag-IsConsistent t id s e v =
    calm_flag t (home_flag t) s _ refl refl (inr (dropped_flag (flag t s).state e, at_base_not)) v

follow_flag-IsConsistent : (t : Team) (s : Sim) → IsConsistent s → IsConsistent (follow_flag t s)
unfolding follow_flag
follow_flag-IsConsistent t s v =
    let f = flag t s in
    if-elim IsConsistent (is_carried f.state) _ _
      (λ e.
        if-elim IsConsistent (is_joined f.carrier_id s) _ s
          (λ e.
            calm_flag t (record f { position = (player f.carrier_id s).position }) s _ refl refl
              (inl (refl, refl)) v)
          (λ e. v))
      (λ e.
        if-elim IsConsistent (is_dropped f.state && is_overdue t s) _ s
          (λ e. return_flag-IsConsistent t no_carrier s (and_left _ _ e) v) (λ e. v))

touch_own-IsConsistent : (i : ℕ) (s : Sim) → IsConsistent s → IsConsistent (touch_own i s)
unfolding touch_own
touch_own-IsConsistent i s v =
    let p = player i s in
    if-elim IsConsistent
      (is_dropped (flag p.team s).state && aabb_overlap p.position (flag p.team s).position) _ s
      (λ e. return_flag-IsConsistent p.team i s (and_left _ _ e) v) (λ e. v)

module _ {ℓ} {A : Type ℓ} where
  put_team_self : (t : Team) (a : A) (p : PerTeam A) → of_team t (put_team t a p) ≡ a
  put_team_self red a p = refl
  put_team_self blue a p = refl

  put_team_other :
      (t : Team) (a : A) (p : PerTeam A)
      → of_team (other_team t) (put_team t a p) ≡ of_team (other_team t) p
  put_team_other red a p = refl
  put_team_other blue a p = refl

Kept-other :
    (t : Team) (f : FlagInfo) (fs : PerTeam FlagInfo)
    → Kept (of_team (other_team t) fs) (of_team (other_team t) (put_team t f fs))
Kept-other t f fs =
    let e = put_team_other t f fs in
    (ap (λ (f : FlagInfo). f.state) e, ap (λ (f : FlagInfo). f.carrier_id) e)

pick_up-IsConsistent :
    (i : ℕ) (s : Sim)
    → i < max_players
    → (player i s).active ≡ true
    → (player i s).alive ≡ true
    → IsConsistent s
    → IsConsistent (pick_up i s)
unfolding pick_up push_event
pick_up-IsConsistent i s h active alive v =
    let p = player i s in
    let t = other_team p.team in
    let taken : FlagInfo = record (flag t s) { state = carried; carrier_id = i } in
    if-elim IsConsistent
      (not p.carrying_flag
        && not (is_carried (flag t s).state)
        && aabb_overlap p.position (flag t s).position)
      _ s
      (λ e.
        let clear = and_left _ _ e in
        let self = put_team_self t taken s.flags in
        take_up i t (record p { carrying_flag = true }) s _ h refl
          (active, alive, refl, sym (other_twice p.team)) (not-true _ (and_left _ _ clear))
          (free_flag (flag t s).state (not-true _ (and_right (not p.carrying_flag) _ clear)))
          (ap (λ (f : FlagInfo). f.state) self, ap (λ (f : FlagInfo). f.carrier_id) self)
          (Kept-other t taken s.flags) v)
      (λ e. v)

capture-IsConsistent :
    (i : ℕ) (s : Sim) → i < max_players → IsConsistent s → IsConsistent (capture i s)
unfolding capture push_event
capture-IsConsistent i s h v =
    let p = player i s in
    let t = other_team p.team in
    if-elim IsConsistent
      (p.carrying_flag
        && is_at_base (flag p.team s).state
        && aabb_overlap p.position (base_of p.team))
      _ s
      (λ e.
        let self = put_team_self t (home_flag t) s.flags in
        release i t (record p { carrying_flag = false }) s _ h refl refl
          (and_left _ _ (and_left _ _ e)) refl
          (λ e. at_base_not (sym (ap (λ (f : FlagInfo). f.state) self) ∙ e))
          (Kept-other t (home_flag t) s.flags) v)
      (λ e. v)

touch_own-players : (i : ℕ) (s : Sim) → (touch_own i s).players ≡ s.players
unfolding touch_own push_event
touch_own-players i s =
    if-elim (λ (u : Sim). u.players ≡ s.players)
      (is_dropped (flag (player i s).team s).state
        && aabb_overlap (player i s).position (flag (player i s).team s).position)
      _ s (λ e. refl) (λ e. refl)

touch_flags-IsConsistent :
    (i : ℕ) (s : Sim) → i < max_players → IsConsistent s → IsConsistent (touch_flags i s)
unfolding touch_flags
touch_flags-IsConsistent i s h v =
    let p = player i s in
    let e = ap (λ ps. get_or ps i no_one) (touch_own-players i s) in
    if-elim IsConsistent (p.active && p.alive) _ s
      (λ on. capture-IsConsistent i _ h (
        pick_up-IsConsistent i (touch_own i s) h (ap (λ (q : Player). q.active) e ∙ and_left _ _ on)
          (ap (λ (q : Player). q.alive) e ∙ and_right p.active _ on)
          (touch_own-IsConsistent i s v)))
      (λ off. v)

-- A dead player carries nothing.
dead_carries :
    (s : Sim) (i : ℕ)
    → IsConsistent s
    → (player i s).alive ≡ false
    → (player i s).carrying_flag ≡ false
dead_carries s i v out = elim (Bool-cases (player i s).carrying_flag) [
  | inl c ↦ absurd (let a = (carrier_lem s i v c).alive in cc)
  | inr n ↦ n
]

respawn_step-IsConsistent :
    (i : ℕ) (s : Sim) → i < max_players → IsConsistent s → IsConsistent (respawn_step i s)
unfolding respawn_step push_event
respawn_step-IsConsistent i s h v =
    let p = player i s in
    let timer = p.respawn_timer -ℤ pos 1 in
    if-elim IsConsistent (p.active && not p.alive) _ s
      (λ e.
        let empty = dead_carries s i v (not-true _ (and_right p.active _ e)) in
        if-elim IsConsistent (ltb_ℤ (pos 0) timer) _ _
          (λ e.
            Calm-write i (record p { respawn_timer = timer }) s _ h refl refl (inr (empty, empty))
              v)
          (λ e.
            Calm-write i
              (record p {
                respawn_timer = timer;
                alive = true;
                health = max_health;
                position = spawn_of p;
              })
              s _ h refl refl (inr (empty, empty)) v))
      (λ e. v)

flags_phase-IsConsistent : (s : Sim) → IsConsistent s → IsConsistent (flags_phase s)
unfolding flags_phase
flags_phase-IsConsistent s v =
    for_ids-rule IsConsistent max_players 0 respawn_step _
      (λ i s h. respawn_step-IsConsistent i s h)
      (for_ids-rule IsConsistent max_players 0 touch_flags _
        (λ i s h. touch_flags-IsConsistent i s h)
        (follow_flag-IsConsistent blue _ (follow_flag-IsConsistent red s v)))

win_check-IsConsistent : (s : Sim) → IsConsistent s → IsConsistent (win_check s)
unfolding win_check push_event
win_check-IsConsistent s v =
    if-elim IsConsistent
      (not s.match_over
        && (leb score_to_win s.score.of_red
            || leb score_to_win s.score.of_blue
            || leb limit_ticks s.current_tick))
      _ s (λ e. same_world s _ refl refl v) (λ e. v)

-- A tick, with the commands that are in the queue, keeps every flag carried by exactly the player
-- whom it names: one of the other team who is in the match, alive, and marked as a carrier.
pub tick-IsConsistent :
    (direction : ℕ → ℤ × ℤ) (s : Sim) → IsConsistent s → IsConsistent (tick direction s)
unfolding tick
tick-IsConsistent direction s v = same_world _ _ refl refl (
    publish-IsConsistent _ (
      win_check-IsConsistent _ (
        flags_phase-IsConsistent _ (
          combat-IsConsistent direction _ (
            move_players-IsConsistent _
              (pop_inputs-IsConsistent _ (drain_inbound-IsConsistent s v)))))))
