-- ===== src/Server/Sim/Tick.antt =====
-- server/sim.cpp, `tick`: the phases in their order, and the simulation over any number of ticks.
use networked_capture_the_fl.Prelude.{ℤ, ℕ, ◌+◌, ◌%◌, ◌^◌}
use networked_capture_the_fl.Server.Sim.{Sim}
use networked_capture_the_fl.Server.Sim.Roster.{drain_inbound}
use networked_capture_the_fl.Server.Sim.Inputs.{pop_inputs, move_players}
use networked_capture_the_fl.Server.Sim.Combat.{combat}
use networked_capture_the_fl.Server.Sim.Flags.{flags_phase, win_check}
use networked_capture_the_fl.Server.Sim.Publish.{publish}

unfoldable pub tick : (ℕ → ℤ × ℤ) → Sim → Sim
tick direction s =
    let t =
      publish (
        win_check (flags_phase (combat direction (move_players (pop_inputs (drain_inbound s)))))) in
    record t { current_tick = (t.current_tick + 1) % 2 ^ 32 }
