-- ===== src/Server/Sim/Publish.antt =====
-- server/sim.cpp, `publish`: the snapshot of a tick, serialised once for every recipient.
use networked_capture_the_fl.Prelude.{
  leb, ◌==◌, if◌then◌else◌, set, replicate, ℕ, ◌+◌, ◌-◌, ◌/◌, ◌%◌, ◌^◌, Bool, true, not, ◌||◌, List,
}
use networked_capture_the_fl.GameTypes.{PlayerState, WorldSnapshot, no_vec, no_player}
use networked_capture_the_fl.GameTypes.Config.{
  tick_rate_hz, max_players, match_time_limit_sec, snapshot_keyframe_interval,
}
use networked_capture_the_fl.ByteBuffer.{writer, written}
use networked_capture_the_fl.Protocol.Snapshot.{encode_world_snapshot}
use networked_capture_the_fl.Protocol.Delta.{encode_delta_snapshot}
use networked_capture_the_fl.Server.Queues.{udp_snapshot, udp_delta_snapshot, OutboundEvent, push}
use networked_capture_the_fl.Server.Sim.{Player, Sim, player, for_ids}

-- What the loop over the players has filled: `n` slots of the snapshot, and the acknowledgements.
pub record Filled : Type 0 where
  pub n : ℕ
  pub slots : List PlayerState
  pub acks : List ℕ

abbrev pub state_of : ℕ → Player → PlayerState
state_of id p = record no_player {
  id = id;
  team = p.team;
  motion = record { position = p.position; velocity = no_vec };
  aim_angle = p.aim_angle;
  health = p.health % 2 ^ 8;
  alive = p.alive;
  carrying_flag = p.carrying_flag;
}

unfoldable pub fill_slot : Sim → ℕ → Filled → Filled
fill_slot s id f =
    let p = player id s in
    if p.active
    then record {
      n = f.n + 1;
      slots = set f.slots f.n (state_of id p);
      acks = set f.acks id p.last_input_seq;
    }
    else f

unfoldable pub filled : Sim → Filled
filled s =
    for_ids max_players 0 (fill_slot s)
      (record { n = 0; slots = replicate max_players no_player; acks = s.player_acks })

-- The acknowledgement of a recipient is patched in later.
unfoldable pub snap_of : Sim → WorldSnapshot
snap_of s = record {
  tick = s.current_tick;
  last_input_seq = 0;
  player_count = (filled s).n;
  flag_carrier_red = s.flags.of_red.carrier_id;
  flag_carrier_blue = s.flags.of_blue.carrier_id;
  flag_state_red = s.flags.of_red.state;
  flag_state_blue = s.flags.of_blue.state;
  score_red = s.score.of_red;
  score_blue = s.score.of_blue;
  seconds_remaining = match_time_limit_sec - s.current_tick / tick_rate_hz;
  players = (filled s).slots;
}

-- Whether this tick sends its snapshot, and whether it sends the whole of it.
abbrev pub is_due : Sim → Bool
is_due s = let div = s.tick_hz / s.snapshot_hz in leb div 1 || (s.current_tick % div) == 0

abbrev pub is_keyframe : Sim → Bool
is_keyframe s =
    not s.delta_snapshots
    || not s.have_published
    || (s.snapshots_published % snapshot_keyframe_interval) == 0

abbrev pub payload_buffer : List ℕ
payload_buffer = replicate 512 0

unfoldable pub snapshot_event : Sim → OutboundEvent
snapshot_event s =
    let snap = snap_of s in
    record {
      kind = if is_keyframe s then udp_snapshot else udp_delta_snapshot;
      payload =
          if is_keyframe s
          then written (encode_world_snapshot snap (writer payload_buffer))
          else written (encode_delta_snapshot snap s.prev_published (writer payload_buffer));
      acks = (filled s).acks;
      tick = s.current_tick;
    }

unfoldable pub publish : Sim → Sim
publish s =
    let kept = record s { snapshot = snap_of s; player_acks = (filled s).acks } in
    if is_due s
    then record kept {
      outbound = push (snapshot_event s) s.outbound;
      prev_published = snap_of s;
      have_published = true;
      snapshots_published = (s.snapshots_published + 1) % 2 ^ 32;
    }
    else kept
