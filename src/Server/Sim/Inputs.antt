-- ===== src/Server/Sim/Inputs.antt =====
-- server/sim.cpp: one input of each player, and its movement.
use networked_capture_the_fl.Prelude.{ltb, if◌then◌else◌, get_or, set, ℕ, ◌+◌, ◌-◌, ◌%◌, ◌&&◌}
use networked_capture_the_fl.GameTypes.{InputCmd, no_vec, no_input}
use networked_capture_the_fl.GameTypes.Config.{max_players, input_ring_size}
use networked_capture_the_fl.Movement.{movement_step}
use networked_capture_the_fl.Server.Sim.{Player, Sim, player, put_player, for_ids}

-- The player without the oldest input of its ring.
abbrev pub popped : Player → Player
popped p = record p {
  last_input_seq = get_or p.seqs p.ring_head 0;
  ring_head = (p.ring_head + 1) % input_ring_size;
  ring_count = p.ring_count - 1;
}

abbrev pub applied_to : ℕ → InputCmd → Sim → Sim
applied_to id cmd s = record s { applied_cmds = set s.applied_cmds id cmd }

unfoldable pub pop_input : ℕ → Sim → Sim
pop_input id s =
    let p = player id s in
    if p.active
    then (if p.alive && ltb 0 p.ring_count
        then applied_to id (get_or p.ring p.ring_head no_input) (put_player id (popped p) s)
        else applied_to id no_input s)
    else s

unfoldable pub pop_inputs : Sim → Sim
pop_inputs s = for_ids max_players 0 pop_input s

-- `applied_cmds_[id]`
abbrev pub command : ℕ → Sim → InputCmd
command id s = get_or s.applied_cmds id no_input

-- The player after its input.
abbrev pub moved : InputCmd → Player → Player
moved cmd p =
    let out = movement_step (record { position = p.position; velocity = no_vec }) cmd in
    record p { position = out.position; aim_angle = cmd.aim_angle }

unfoldable pub move_player : ℕ → Sim → Sim
move_player id s =
    let p = player id s in
    if p.active && p.alive then put_player id (moved (command id s) p) s else s

unfoldable pub move_players : Sim → Sim
move_players s = for_ids max_players 0 move_player s
