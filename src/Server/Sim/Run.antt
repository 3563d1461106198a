-- ===== src/Server/Sim/Run.antt =====
-- A match of server/sim.cpp from its start on: ticks, and between them the calls of the network
-- thread.
use networked_capture_the_fl.Prelude.{
  leb, le→leb, if-elim, replicate, All-get_or, All-replicate, ℤ, ℕ, suc, ◌+◌, ◌%◌, ◌^◌, ◌≤◌, ◌<◌,
  ◌≡◌, refl, sym, ap, subst, ◌∙◌, Bool, true, false, not, ◌&&◌, ◌||◌, arith,
}
use networked_capture_the_fl.GameTypes.{Team, red, blue, carried}
use networked_capture_the_fl.GameTypes.Config.{max_players, score_to_win}
use networked_capture_the_fl.Server.Queues.{InboundCommand, push, pop}
use networked_capture_the_fl.Server.Sim.{Player, no_one, Sim, new_sim, player, flag, push_event}
use networked_capture_the_fl.Server.Sim.Flags.{limit_ticks, win_check}
use networked_capture_the_fl.Server.Sim.Publish.{is_due, publish}
use networked_capture_the_fl.Server.Sim.Tick.{tick}
use networked_capture_the_fl.Server.Sim.Carriers.{IsConsistent}
use networked_capture_the_fl.Server.Sim.Consistent.{same_world}
use networked_capture_the_fl.Server.Sim.Scoring.{tick-IsConsistent}
use networked_capture_the_fl.Server.Sim.Players.{
  IsPlayer, IsWorld, no_one-IsPlayer, player-IsPlayer,
}
use networked_capture_the_fl.Server.Sim.SoundTick.{tick-IsWorld}
use networked_capture_the_fl.Server.Sim.Clock.{played, played-outer}

-- The states after `n` ticks: of any rates, any commands pushed at any time, any events popped.
pub data Run (direction : ℕ → ℤ × ℤ) : ℕ → Sim → Type 0 where
  started : Run direction 0 new_sim
  configured :
      {n : ℕ} {s : Sim} (tick_hz snapshot_hz : ℕ) (delta : Bool)
      → Run direction n s
      → Run direction n
          (record s { tick_hz = tick_hz; snapshot_hz = snapshot_hz; delta_snapshots = delta })
  pushed :
      {n : ℕ} {s : Sim} (cmd : InboundCommand)
      → Run direction n s
      → Run direction n (record s { inbound = push cmd s.inbound })
  taken :
      {n : ℕ} {s : Sim}
      → Run direction n s
      → Run direction n (record s { outbound = (pop s.outbound).1 })
  ticked : {n : ℕ} {s : Sim} → Run direction n s → Run direction (suc n) (tick direction s)

nobody : (i : ℕ) → (player i new_sim).carrying_flag ≡ false
nobody i =
    All-get_or (λ (p : Player). p.carrying_flag ≡ false) (replicate max_players no_one) i no_one
      (All-replicate (λ (p : Player). p.carrying_flag ≡ false) max_players no_one refl) refl

unheld : (t : Team) → (flag t new_sim).state ≡ carried → ⊥
unheld red h = cc
unheld blue h = cc

new_sim-IsConsistent : IsConsistent new_sim
new_sim-IsConsistent = record {
  ten = refl;
  held = λ t h. absurd (unheld t h);
  named = λ i h. absurd (let e = nobody i in cc);
}

-- In every state of a match a flag is carried by exactly the player whom it names, and only by an
-- enemy who is in the match, alive and marked as its carrier.
pub Run-IsConsistent :
    {direction : ℕ → ℤ × ℤ} {n : ℕ} {s : Sim} → Run direction n s → IsConsistent s
Run-IsConsistent started = new_sim-IsConsistent
Run-IsConsistent (configured {n} {s} hz shz delta r) = same_world s _ refl refl (Run-IsConsistent r)
Run-IsConsistent (pushed {n} {s} cmd r) = same_world s _ refl refl (Run-IsConsistent r)
Run-IsConsistent (taken {n} {s} r) = same_world s _ refl refl (Run-IsConsistent r)
Run-IsConsistent (ticked {n} {s} r) = tick-IsConsistent _ s (Run-IsConsistent r)

Run-IsWorld : {direction : ℕ → ℤ × ℤ} {n : ℕ} {s : Sim} → Run direction n s → IsWorld s
Run-IsWorld started = All-replicate IsPlayer max_players no_one no_one-IsPlayer
Run-IsWorld (configured hz shz delta r) = Run-IsWorld r
Run-IsWorld (pushed cmd r) = Run-IsWorld r
Run-IsWorld (taken r) = Run-IsWorld r
Run-IsWorld (ticked {n} {s} r) = tick-IsWorld _ s (Run-IsWorld r)

-- In every state of a match every player is sound: health at most the maximum, positive exactly with
-- the living, a wait of 1 to 90 ticks with the dead, the cooldown and the ring of inputs within
-- their bounds, the numbers of the inputs that wait rising from the acknowledged one to the newest
-- one, and nobody in the match stands in a wall.
pub Run-IsPlayer :
    {direction : ℕ → ℤ × ℤ} {n : ℕ} {s : Sim} → Run direction n s → (i : ℕ) → IsPlayer (player i s)
Run-IsPlayer {direction} {n} {s} r i = player-IsPlayer i s (Run-IsWorld r)

win_check-clock :
    (s : Sim)
    → ((win_check s).current_tick ≡ s.current_tick)
      × (s.match_over ≡ true → (win_check s).match_over ≡ true)
      × (limit_ticks ≤ s.current_tick → (win_check s).match_over ≡ true)
unfolding win_check push_event
win_check-clock s =
    if-elim
      (λ (u : Sim).
        (u.current_tick ≡ s.current_tick)
        × (s.match_over ≡ true → u.match_over ≡ true)
        × (limit_ticks ≤ s.current_tick → u.match_over ≡ true))
      (not s.match_over
        && (leb score_to_win s.score.of_red
            || leb score_to_win s.score.of_blue
            || leb limit_ticks s.current_tick))
      _ s (λ e. (refl, (λ h. refl), (λ h. refl)))
      (λ e. (refl, (λ h. h), (λ h. let late = le→leb _ _ h in ground arith)))

publish-clock :
    (s : Sim)
    → ((publish s).current_tick ≡ s.current_tick) × ((publish s).match_over ≡ s.match_over)
unfolding publish
publish-clock s =
    if-elim (λ (u : Sim). (u.current_tick ≡ s.current_tick) × (u.match_over ≡ s.match_over))
      (is_due s) _ _ (λ e. (refl, refl)) (λ e. (refl, refl))

-- What a tick does to the clock and to the end of the match.
tick-clock :
    (direction : ℕ → ℤ × ℤ) (s : Sim)
    → ((tick direction s).current_tick ≡ (s.current_tick + 1) % 2 ^ 32)
      × (s.match_over ≡ true → (tick direction s).match_over ≡ true)
      × (limit_ticks ≤ s.current_tick → (tick direction s).match_over ≡ true)
unfolding tick
tick-clock direction s =
    let p = played direction s in
    let same = played-outer direction s in
    let (at, over, late) = win_check-clock p in
    let (at', over') = publish-clock (win_check p) in
    let at_p : p.current_tick ≡ s.current_tick = ap (λ o. o.current_tick) same in
    let over_p : p.match_over ≡ s.match_over = ap (λ o. o.match_over) same in
    (
      ap (λ k. (k + 1) % 2 ^ 32) (at' ∙ at ∙ at_p),
      (λ h. over' ∙ over (over_p ∙ h)),
      (λ h. over' ∙ late (subst (λ k. limit_ticks ≤ k) (sym at_p) h)),
    )

-- The tick counter counts the ticks, in 32 bits.
pub Run-current_tick :
    {direction : ℕ → ℤ × ℤ} {n : ℕ} {s : Sim} → Run direction n s → s.current_tick ≡ n % 2 ^ 32
Run-current_tick started = refl
Run-current_tick (configured hz shz delta r) = Run-current_tick r
Run-current_tick (pushed cmd r) = Run-current_tick r
Run-current_tick (taken r) = Run-current_tick r
Run-current_tick {direction} (ticked {n} {s} r) =
    (tick-clock direction s).0 ∙ ap (λ k. (k + 1) % 2 ^ 32) (Run-current_tick r) ∙ omega arith

-- A match is over after the ticks of its time limit and one more, whatever the players do, as far as
-- the counter does not wrap, and it stays over.
pub Run-match_over :
    {direction : ℕ → ℤ × ℤ} {n : ℕ} {s : Sim}
    → Run direction n s
    → limit_ticks < n
    → n ≤ 2 ^ 32
    → s.match_over ≡ true
Run-match_over started h k = absurd (omega arith)
Run-match_over (configured hz shz delta r) h k = Run-match_over r h k
Run-match_over (pushed cmd r) h k = Run-match_over r h k
Run-match_over (taken r) h k = Run-match_over r h k
Run-match_over {direction} (ticked {n} {s} r) h k =
    let count = Run-current_tick r in
    let (_, _, late) = tick-clock direction s in late (omega (arith, count))
