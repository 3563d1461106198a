-- ===== src/Client/Prediction.antt =====
-- client/prediction.cpp: the local player's prediction, and its reconciliation with the server.
pub mod Laws
use networked_capture_the_fl.Prelude.{
  ℕ, zero, suc, ◌+◌, ◌%◌, ◌^◌, Bool, false, not, ◌&&◌, List, [], ◌∷◌, Option, none, some, get_or,
  set, if◌then◌else◌, leb, ◌==◌, ◌==ℤ◌,
}
use networked_capture_the_fl.GameTypes.{
  InputCmd, no_input, Vec2Fixed, no_vec, PlayerMotion, no_motion, PlayerState, WorldSnapshot,
}
use networked_capture_the_fl.GameTypes.Config.{input_history_ring_size}
use networked_capture_the_fl.Movement.{movement_step}
use networked_capture_the_fl.RingBuffer.{RingBuffer, empty_ring, push_back, remove_if, contents}

pub record InputHistoryEntry : Type 0 where
  pub seq : ℕ
  pub input : InputCmd
  pub state_after : PlayerMotion

abbrev pub no_entry : InputHistoryEntry
no_entry = record { seq = 0; input = no_input; state_after = no_motion }

abbrev pub History : Type 0
History = RingBuffer input_history_ring_size no_entry

pub record Prediction : Type 0 where
  pub seq : ℕ
  pub last_applied_tick : ℕ
  pub local_state : PlayerMotion
  pub history : History
  pub mispredictions : ℕ

abbrev pub no_prediction : Prediction
no_prediction = record {
  seq = 0;
  last_applied_tick = 0;
  local_state = no_motion;
  history = empty_ring input_history_ring_size no_entry;
  mispredictions = 0;
}

unfoldable pub on_local_tick : InputCmd → Prediction → Prediction
on_local_tick cmd p =
    let seq = (p.seq + 1) % 2 ^ 32 in
    let state = movement_step p.local_state cmd in
    record p {
      seq = seq;
      local_state = state;
      history =
          push_back input_history_ring_size no_entry
            (record { seq = seq; input = cmd; state_after = state }) p.history;
    }

-- The first of the `n` slots in use that is this player's.
abbrev pub find_state : ℕ → ℕ → List PlayerState → Option PlayerState
find_state my_id zero players = none
find_state my_id (suc n) [] = none
find_state my_id (suc n) (ps ∷ players) =
    let rest = find_state my_id n players in if ps.id == my_id then some ps else rest

abbrev pub same_position : Vec2Fixed → Vec2Fixed → Bool
same_position a b = (a.x ==ℤ b.x) && (a.y ==ℤ b.y)

-- Whether the first entry with this sequence number was predicted elsewhere.
abbrev pub mispredicted : ℕ → Vec2Fixed → List InputHistoryEntry → Bool
mispredicted ack auth [] = false
mispredicted ack auth (e ∷ es) =
    let rest = mispredicted ack auth es in
    if e.seq == ack then not (same_position e.state_after.position auth) else rest

-- The loop that replays the entries from `i` on.
abbrev pub replay_loop :
    ℕ → ℕ → ℕ → List InputHistoryEntry → PlayerMotion → List InputHistoryEntry × PlayerMotion
replay_loop head zero i data_ local = (data_, local)
replay_loop head (suc n) i data_ local =
    let idx = (head + i) % input_history_ring_size in
    let e = get_or data_ idx no_entry in
    let state = movement_step local e.input in
    replay_loop head n (i + 1) (set data_ idx (record e { state_after = state })) state

unfoldable pub reconcile : WorldSnapshot → PlayerState → Prediction → Prediction
reconcile snap ps p =
    let ack = snap.last_input_seq in
    let auth = ps.motion in
    let missed =
      mispredicted ack auth.position (contents input_history_ring_size no_entry p.history) in
    let kept = remove_if input_history_ring_size no_entry (λ e. leb e.seq ack) p.history in
    let (data_, local) =
      replay_loop kept.head kept.size 0 kept.data_
        (record { position = auth.position; velocity = no_vec }) in
    record p {
      local_state = local;
      history = record kept { data_ = data_ };
      mispredictions = if missed then (p.mispredictions + 1) % 2 ^ 32 else p.mispredictions;
    }

abbrev pub apply_authority : WorldSnapshot → Option PlayerState → Prediction → Prediction
apply_authority snap none p = p
apply_authority snap (some ps) p = reconcile snap ps p

unfoldable pub on_snapshot : WorldSnapshot → ℕ → Prediction → Prediction
on_snapshot snap my_player_id p =
    if leb snap.tick p.last_applied_tick
    then p
    else apply_authority snap (find_state my_player_id snap.player_count snap.players)
        (record p { last_applied_tick = snap.tick })
