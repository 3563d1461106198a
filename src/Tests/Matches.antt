-- ===== src/Tests/Matches.antt =====
-- The simulation of server/sim.cpp at concrete inputs.
use networked_capture_the_fl.Prelude.{
  ◌*ℤ◌, ℤ, pos, ℕ, zero, suc, ◌≡◌, refl, inl, true, false, [], ◌∷◌, arith,
}
use networked_capture_the_fl.GameTypes.{Vec2Fixed, red, blue, no_input}
use networked_capture_the_fl.Server.Queues.{player_joined}
use networked_capture_the_fl.Server.Sim.{Player, no_one, Sim, new_sim, player, put_player}
use networked_capture_the_fl.Server.Sim.Roster.{push_input}
use networked_capture_the_fl.Server.Sim.Inputs.{popped}
use networked_capture_the_fl.Server.Sim.Ray.{ray_step_fp, max_ray_steps, cast_ray}
use networked_capture_the_fl.Server.Sim.Tick.{tick}
use networked_capture_the_fl.Server.Sim.Carriers.{IsConsistent}
use networked_capture_the_fl.Server.Sim.Players.{IsPlayer, no_one-IsPlayer}
use networked_capture_the_fl.Server.Sim.InputRing.{
  queued_seqs, queued_inputs, push_input_lem, push_input-IsQueue, popped_lem,
}
use networked_capture_the_fl.Server.Sim.RayEnds.{EndsFirst, at_origin, cast_ray-EndsFirst}
use networked_capture_the_fl.Server.Sim.Run.{
  Run, started, pushed, ticked, Run-IsConsistent, Run-IsPlayer, Run-current_tick, Run-match_over,
}
use networked_capture_the_fl.Server.Sim.Return.{begun, passed, returned, returns}

-- Every shot goes to the right.
abbrev rightwards : ℕ → ℤ × ℤ
rightwards aim = (pos 1024, pos 0)

-- Two players join, one of each team, and a tick passes.
abbrev with_two : Sim
with_two = record new_sim { inbound = player_joined 0 red 0 ∷ player_joined 1 blue 1 ∷ [] }

two_joined : Run rightwards 1 (tick rightwards with_two)
two_joined = ticked (pushed (player_joined 1 blue 1) (pushed (player_joined 0 red 0) started))

Run-IsConsistent_example : IsConsistent (tick rightwards with_two)
Run-IsConsistent_example = Run-IsConsistent two_joined

Run-IsPlayer_example : IsPlayer (player 1 (tick rightwards with_two))
Run-IsPlayer_example = Run-IsPlayer two_joined 1

-- A match in which nobody does anything.
idle : ℕ → Sim
idle zero = new_sim
idle (suc n) = tick rightwards (idle n)

idle-Run : (n : ℕ) → Run rightwards n (idle n)
unfolding idle
idle-Run zero = started
idle-Run (suc n) = ticked (idle-Run n)

Run-match_over_example : (idle 18001).match_over ≡ true
Run-match_over_example = Run-match_over (idle-Run 18001) (omega arith) (omega arith)

Run-current_tick_example : (tick rightwards with_two).current_tick ≡ 1
Run-current_tick_example = Run-current_tick two_joined

abbrev fallen : Player
fallen = record no_one { active = true; alive = false; health = 0; respawn_timer = pos 2 }

abbrev with_fallen : Sim
with_fallen = put_player 0 fallen new_sim

returns_example : player 0 (tick rightwards (tick rightwards with_fallen)) ≡ returned fallen
returns_example =
    returns rightwards 0 (omega arith) with_fallen 2 (refl, refl) refl refl (passed (passed begun))
      (omega arith) (omega arith)

abbrev one_waiting : Player
one_waiting = push_input 7 no_input no_one

push_input_lem_example :
    (queued_seqs one_waiting ≡ 7 ∷ []) × (queued_inputs one_waiting ≡ no_input ∷ [])
push_input_lem_example = push_input_lem 7 no_input no_one no_one-IsPlayer.queue

popped_lem_example :
    (queued_seqs one_waiting ≡ 7 ∷ queued_seqs (popped one_waiting))
    × (queued_inputs one_waiting ≡ no_input ∷ queued_inputs (popped one_waiting))
unfolding push_input
popped_lem_example =
    popped_lem one_waiting
      (push_input-IsQueue 7 no_input no_one (omega arith) no_one-IsPlayer.queue) (omega arith)

abbrev shooter_at : Vec2Fixed
shooter_at = record { x = pos 19456; y = pos 44032 }

cast_ray-EndsFirst_example :
    EndsFirst red new_sim.players
      (pos 1024 *ℤ pos ray_step_fp, pos 0 *ℤ pos ray_step_fp)
      max_ray_steps
      (at_origin shooter_at.x)
      (at_origin shooter_at.y)
      (cast_ray rightwards shooter_at 0 red new_sim.players)
cast_ray-EndsFirst_example =
    cast_ray-EndsFirst rightwards shooter_at 0 red new_sim.players (inl (inl (omega arith)))
      (omega arith, omega arith) (omega arith, omega arith)
