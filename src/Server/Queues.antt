-- ===== src/Server/Queues.antt =====
-- server/queues.{h,cpp}: the two queues between the network thread and the simulation thread. Each
-- is a list, oldest first; a mutex makes each call one step, so an interleaving of the threads is a
-- sequence of these calls.
use networked_capture_the_fl.Prelude.{ℕ, List, [], ◌∷◌, ◌++◌, Option, none, some}
use networked_capture_the_fl.GameTypes.{Team, InputCmd}

-- A command of `InboundCommandType`, with the fields that its handler reads.
pub data InboundCommand : Type 0 where
  player_joined : (player_id : ℕ) (team : Team) (spawn_index : ℕ) → InboundCommand
  player_left : (player_id : ℕ) → InboundCommand
  player_input : (player_id : ℕ) (seq : ℕ) (input : InputCmd) → InboundCommand

pub data OutboundEventType : Type 0 where
  tcp_broadcast udp_snapshot udp_delta_snapshot udp_event : OutboundEventType

-- `payload` is the first `payload_size` bytes of `payload_data`.
pub record OutboundEvent : Type 0 where
  pub kind : OutboundEventType
  pub payload : List ℕ
  pub acks : List ℕ
  pub tick : ℕ

module _ {ℓ} {A : Type ℓ} where
  -- `push` of either queue.
  abbrev pub push : A → List A → List A
  push item items = items ++ item ∷ []

  -- `pop` of either queue.
  abbrev pub pop : List A → Option A × List A
  pop [] = (none, [])
  pop (item ∷ items) = (some item, items)
