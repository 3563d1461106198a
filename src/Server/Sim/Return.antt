-- ===== src/Server/Sim/Return.antt =====
-- How long a dead player of server/sim.cpp stays away.
use networked_capture_the_fl.Prelude.{
  ltb, leb, if◌then◌else◌, lt→ltb, not_ltb, and_left, and_right, if_true, if_false, if-elim, ℤ, pos,
  ◌-ℤ◌, ltb_ℤ, -ℤ_pos, ℕ, suc, ◌-◌, ◌≤◌, ◌<◌, ◌≡◌, refl, sym, ap, ◌∙◌, true, not, ◌&&◌, ◌||◌, List,
  [], ◌∷◌, arith, dec_lt,
}
use networked_capture_the_fl.GameTypes.Config.{max_health, max_players, score_to_win}
use networked_capture_the_fl.Server.Queues.{InboundCommand, push}
use networked_capture_the_fl.Server.Sim.{Player, Sim, player, push_event, spawn_of}
use networked_capture_the_fl.Server.Sim.Flags.{limit_ticks, win_check}
use networked_capture_the_fl.Server.Sim.Publish.{is_due, publish}
use networked_capture_the_fl.Server.Sim.Tick.{tick}
use networked_capture_the_fl.Server.Sim.Clock.{played, played-outer}
use networked_capture_the_fl.Server.Sim.Respawn.{spares, all_spare, IsDown}
use networked_capture_the_fl.Server.Sim.Liveness.{waited, tick-waited}

-- From a state on, `n` ticks, with any commands but a leave of the player `i` sent in between.
pub data Awaits (direction : ℕ → ℤ × ℤ) (i : ℕ) (s : Sim) : ℕ → Sim → Type 0 where
  begun : Awaits direction i s 0 s
  sent :
      {n : ℕ} {u : Sim} (cmd : InboundCommand)
      → spares i cmd ≡ true
      → Awaits direction i s n u
      → Awaits direction i s n (record u { inbound = push cmd u.inbound })
  passed :
      {n : ℕ} {u : Sim} → Awaits direction i s n u → Awaits direction i s (suc n) (tick direction u)

win_check-inbound : (s : Sim) → (win_check s).inbound ≡ s.inbound
unfolding win_check push_event
win_check-inbound s =
    if-elim (λ (u : Sim). u.inbound ≡ s.inbound)
      (not s.match_over
        && (leb score_to_win s.score.of_red
            || leb score_to_win s.score.of_blue
            || leb limit_ticks s.current_tick))
      _ s (λ e. refl) (λ e. refl)

publish-inbound : (s : Sim) → (publish s).inbound ≡ s.inbound
unfolding publish
publish-inbound s =
    if-elim (λ (u : Sim). u.inbound ≡ s.inbound) (is_due s) _ _ (λ e. refl) (λ e. refl)

-- A tick empties the queue.
pub tick-inbound : (direction : ℕ → ℤ × ℤ) (s : Sim) → (tick direction s).inbound ≡ []
unfolding tick
tick-inbound direction s =
    let p = played direction s in
    publish-inbound (win_check p)
    ∙ win_check-inbound p
    ∙ ap (λ o. o.inbound) (played-outer direction s)

all_spare-push :
    (i : ℕ) (cmds : List InboundCommand) (cmd : InboundCommand)
    → all_spare i cmds ≡ true
    → spares i cmd ≡ true
    → all_spare i (push cmd cmds) ≡ true
all_spare-push i [] cmd h k = ground arith
all_spare-push i (c ∷ cmds) cmd h k =
    let rest = all_spare-push i cmds cmd (and_right (spares i c) _ h) k in
    let first = and_left (spares i c) _ h in ground arith

-- A player who waits, and one who is back.
abbrev pub waiting : Player → ℕ → Player
waiting p m = record p { respawn_timer = pos m }

abbrev pub returned : Player → Player
returned p = record p {
  respawn_timer = pos 0;
  alive = true;
  health = max_health;
  position = spawn_of p;
}

abbrev waited_till : Player → ℤ → Player
waited_till p timer =
    if ltb_ℤ (pos 0) timer
    then record p { respawn_timer = timer }
    else record (returned p) { respawn_timer = timer }

waited-more : (p : Player) (m : ℕ) → waited (waiting p (suc (suc m))) ≡ waiting p (suc m)
unfolding ◌-ℤ◌
waited-more p m =
    ap (λ t. waited_till p t) (-ℤ_pos (suc (suc m)) 1 (omega arith) ∙ ap pos (omega arith))
    ∙ if_true (ltb_ℤ (pos 0) (pos (suc m))) _ _ (lt→ltb _ _ (omega arith))

waited-last : (p : Player) → waited (waiting p 1) ≡ returned p
unfolding ◌-ℤ◌
waited-last p = refl

module _ (direction : ℕ → ℤ × ℤ) (i : ℕ) (slot : i < max_players) (s : Sim) (m : ℕ)
    (down : IsDown i slot s) (timer : (player i s).respawn_timer ≡ pos m)
    (stays : all_spare i s.inbound ≡ true) where
  still : (u : Sim) (n : ℕ) → player i u ≡ waiting (player i s) n → IsDown i slot u
  still u n e = (ap (λ (p : Player). p.active) e ∙ down.0, ap (λ (p : Player). p.alive) e ∙ down.1)

  waits :
      {n : ℕ} {u : Sim}
      → Awaits direction i s n u
      → n < m
      → (player i u ≡ waiting (player i s) (m - n)) × (all_spare i u.inbound ≡ true)
  waits begun h =
      (ap (λ t. record (player i s) { respawn_timer = t }) (timer ∙ ap pos (omega arith)), stays)
  waits (sent {n} {u} cmd spare w) h =
      let (e, k) = waits w h in (e, all_spare-push i u.inbound cmd k spare)
  waits (passed {n} {u} w) h =
      let (e, k) = waits w (omega arith) in
      (
        tick-waited i slot direction u (still u (m - n) e) k
            ∙ ap waited (e ∙ ap (waiting (player i s)) {y = suc (suc (m - n - 2))} (omega arith))
            ∙ waited-more (player i s) (m - n - 2)
            ∙ ap (waiting (player i s)) (omega arith),
        ap (all_spare i) (tick-inbound direction u),
      )

  -- A dead player whose timer is at `m` is dead for the next `m - 1` ticks, with the timer counting
  -- down, and with the `m`th is alive again with full health at its spawn point, whatever the others
  -- do, given that no command takes it out of the match.
  pub returns :
      {n : ℕ} {u : Sim}
      → Awaits direction i s n u
      → 1 ≤ m
      → n ≤ m
      → player i u ≡ (if ltb n m then waiting (player i s) (m - n) else returned (player i s))
  returns begun h k =
      let (e, _) = waits begun (omega arith) in
      e ∙ sym (if_true (ltb 0 m) _ _ (lt→ltb 0 m (omega arith)))
  returns (sent cmd spare w) h k = returns w h k
  returns (passed {n} {u} w) h k = elim (dec_lt (suc n) m) [
    | yes less ↦
        let (e, _) = waits (passed w) less in
        e ∙ sym (if_true (ltb (suc n) m) _ _ (lt→ltb (suc n) m less))
    | no last ↦
        let (e, spare) = waits w (omega arith) in
        tick-waited i slot direction u (still u (m - n) e) spare
        ∙ ap waited (e ∙ ap (waiting (player i s)) {y = 1} (omega arith))
        ∙ waited-last (player i s)
        ∙ sym (if_false (ltb (suc n) m) _ _ (not_ltb (suc n) m (omega arith)))
  ]
