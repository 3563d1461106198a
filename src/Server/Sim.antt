-- ===== src/Server/Sim.antt =====
-- server/sim.{h,cpp}: the simulation, which owns the state of a match. This file has the state; the
-- children have the phases of a tick, in the order of the source.
pub mod Roster
pub mod Inputs
pub mod Ray
pub mod Combat
pub mod Flags
pub mod Publish
pub mod Tick
pub mod RayLaws
pub mod Consistent
pub mod Battle
pub mod Scoring
pub mod RayEnds
pub mod InputRing
pub mod Players
pub mod Sound
pub mod SoundTick
pub mod Clock
pub mod Run
pub mod Respawn
pub mod Liveness
pub mod Return
pub mod Carriers
use networked_capture_the_fl.Prelude.{
  ltb, get_or, set, replicate, ℤ, pos, ◌+ℤ◌, ltb_ℤ, ℕ, zero, suc, ◌+◌, ◌-◌, ◌≤◌, ◌<◌, sym, subst,
  ◌≢◌, Bool, true, false, not, ◌&&◌, List, [], ◌∷◌, arith, ℕ_discrete,
}
use networked_capture_the_fl.GameTypes.{
  Vec2Fixed, Team, red, blue, is_blue, at_base, dropped, InputCmd, FlagInfo, WorldSnapshot, no_vec,
  no_input, no_carrier, no_snapshot,
}
use networked_capture_the_fl.GameTypes.Config.{
  tick_rate_hz, max_health, max_players, input_ring_size,
}
use networked_capture_the_fl.Map.{red_base_position, blue_base_position, size_fp, spawn_points}
use networked_capture_the_fl.ByteBuffer.{writer, written}
use networked_capture_the_fl.Protocol.Events.{EventMsg, message_type, write_msg}
use networked_capture_the_fl.Server.Queues.{InboundCommand, OutboundEventType, OutboundEvent, push}

-- `Sim::Player`. Health, cooldown and the counters of the ring are never negative.
pub record Player : Type 0 where
  pub active : Bool
  pub team : Team
  pub position : Vec2Fixed
  pub aim_angle : ℕ
  pub health : ℕ
  pub alive : Bool
  pub carrying_flag : Bool
  pub spawn_index : ℕ
  pub respawn_timer : ℤ
  pub fire_cooldown : ℕ
  pub ring : List InputCmd
  pub seqs : List ℕ
  pub ring_head : ℕ
  pub ring_count : ℕ
  pub newest_seq : ℕ
  pub last_input_seq : ℕ

-- `Player{}`
abbrev pub no_one : Player
no_one = record {
  active = false;
  team = red;
  position = no_vec;
  aim_angle = 0;
  health = max_health;
  alive = true;
  carrying_flag = false;
  spawn_index = 0;
  respawn_timer = pos 0;
  fire_cooldown = 0;
  ring = replicate input_ring_size no_input;
  seqs = replicate input_ring_size 0;
  ring_head = 0;
  ring_count = 0;
  newest_seq = 0;
  last_input_seq = 0;
}

-- An array of two entries that `flag_index` indexes.
pub record PerTeam {ℓ} (A : Type ℓ) : Type ℓ where
  pub of_red : A
  pub of_blue : A

module _ {ℓ} {A : Type ℓ} where
  abbrev pub of_team : Team → PerTeam A → A
  of_team red p = p.of_red
  of_team blue p = p.of_blue

  abbrev pub put_team : Team → A → PerTeam A → PerTeam A
  put_team red a p = record p { of_red = a }
  put_team blue a p = record p { of_blue = a }

abbrev pub other_team : Team → Team
other_team red = blue
other_team blue = red

abbrev pub base_of : Team → Vec2Fixed
base_of red = red_base_position
base_of blue = blue_base_position

abbrev pub same_team : Team → Team → Bool
same_team red t = not (is_blue t)
same_team blue t = is_blue t

-- The descriptor that wakes the network thread, and the flag of the loop in `run`, are left out.
pub record Sim : Type 0 where
  pub inbound : List InboundCommand
  pub outbound : List OutboundEvent
  pub players : List Player
  pub player_count : ℕ
  pub flags : PerTeam FlagInfo
  pub drop_tick : PerTeam ℕ
  pub score : PerTeam ℕ
  pub snapshot : WorldSnapshot
  pub applied_cmds : List InputCmd
  pub player_acks : List ℕ
  pub last_ray_hit : Vec2Fixed
  pub tick_hz : ℕ
  pub snapshot_hz : ℕ
  pub delta_snapshots : Bool
  pub prev_published : WorldSnapshot
  pub have_published : Bool
  pub snapshots_published : ℕ
  pub current_tick : ℕ
  pub match_over : Bool

abbrev flag_at : Vec2Fixed → FlagInfo
flag_at p = record { state = at_base; position = p; carrier_id = no_carrier }

-- The constructor's state, with empty queues.
abbrev pub new_sim : Sim
new_sim = record {
  inbound = [];
  outbound = [];
  players = replicate max_players no_one;
  player_count = 0;
  flags = record { of_red = flag_at red_base_position; of_blue = flag_at blue_base_position };
  drop_tick = record { of_red = 0; of_blue = 0 };
  score = record { of_red = 0; of_blue = 0 };
  snapshot = no_snapshot;
  applied_cmds = replicate max_players no_input;
  player_acks = replicate max_players 0;
  last_ray_hit = no_vec;
  tick_hz = tick_rate_hz;
  snapshot_hz = tick_rate_hz;
  delta_snapshots = true;
  prev_published = no_snapshot;
  have_published = false;
  snapshots_published = 0;
  current_tick = 0;
  match_over = false;
}

-- `players_[id]`
abbrev pub player : ℕ → Sim → Player
player id s = get_or s.players id no_one

abbrev pub put_player : ℕ → Player → Sim → Sim
put_player id p s = record s { players = set s.players id p }

abbrev pub flag : Team → Sim → FlagInfo
flag t s = of_team t s.flags

abbrev pub put_flag : Team → FlagInfo → Sim → Sim
put_flag t f s = record s { flags = put_team t f s.flags }

-- `find_player(id) != nullptr`
abbrev pub is_joined : ℕ → Sim → Bool
is_joined id s = ltb id max_players && (player id s).active

-- `for (id = first; id < first + n; ++id) body(id);`
abbrev pub for_ids {ℓ} : {S : Type ℓ} → ℕ → ℕ → (ℕ → S → S) → S → S
for_ids zero first body s = s
for_ids (suc n) first body s = for_ids n (first + 1) body (body first s)

module _ {ℓ κ} {S : Type ℓ} (body : ℕ → S → S) where
  -- What each turn keeps, the loop keeps.
  pub for_ids-from :
      (P : S → Type κ) (n first : ℕ) (s : S)
      → ((i : ℕ) (s : S) → first ≤ i → i < first + n → P s → P (body i s))
      → P s
      → P (for_ids n first body s)
  for_ids-from P zero first s keeps h = h
  for_ids-from P (suc n) first s keeps h =
      for_ids-from P n (first + 1) (body first s) (λ i s j k. keeps i s (omega arith) (omega arith))
        (keeps first s (omega arith) (omega arith) h)

  -- What only the turn of `i` changes, from `P` to `Q`.
  pub for_ids-at :
      (P Q : S → Type κ) (i n first : ℕ) (s : S)
      → first ≤ i
      → i < first + n
      → ((j : ℕ) (s : S) → j ≢ i → P s → P (body j s))
      → ((j : ℕ) (s : S) → j ≢ i → Q s → Q (body j s))
      → ((s : S) → P s → Q (body i s))
      → P s
      → Q (for_ids n first body s)
  for_ids-at P Q i zero first s a b before after turn h = absurd (omega arith)
  for_ids-at P Q i (suc n) first s a b before after turn h = elim (ℕ_discrete first i) [
    | yes e ↦
        for_ids-from Q n (first + 1) (body first s)
          (λ j s k l. after j s (λ same. absurd (omega arith)))
          (subst (λ k. Q (body k s)) (sym e) (turn s h))
    | no e ↦
        for_ids-at P Q i n (first + 1) (body first s) (omega arith) (omega arith) before after turn
          (before first s e h)
  ]

pub for_ids-rule {ℓ κ} :
    {S : Type ℓ} (P : S → Type κ) (n first : ℕ) (body : ℕ → S → S) (s : S)
    → ((i : ℕ) (s : S) → i < first + n → P s → P (body i s))
    → P s
    → P (for_ids n first body s)
for_ids-rule P n first body s keeps h = for_ids-from body P n first s (λ i s j k. keeps i s k) h

-- `ser_event`: the type and the fields of an event.
unfoldable pub ser_event : EventMsg → List ℕ
ser_event m = message_type m ∷ written (write_msg m (writer (replicate 96 0)))

-- The event of a message, in the queue.
unfoldable pub push_event : OutboundEventType → EventMsg → Sim → Sim
push_event kind m s = record s {
  outbound =
      push (record { kind = kind; payload = ser_event m; acks = replicate max_players 0; tick = 0 })
        s.outbound;
}

-- A flag that its carrier, of the other team, drops at a place.
unfoldable pub drop_flag : Team → Vec2Fixed → Sim → Sim
drop_flag t p s =
    record (put_flag t (record { state = dropped; position = p; carrier_id = no_carrier }) s) {
      drop_tick = put_team t s.current_tick s.drop_tick;
    }

unfoldable pub aabb_overlap : Vec2Fixed → Vec2Fixed → Bool
aabb_overlap a b =
    ltb_ℤ a.x (b.x +ℤ pos size_fp)
    && ltb_ℤ b.x (a.x +ℤ pos size_fp)
    && ltb_ℤ a.y (b.y +ℤ pos size_fp)
    && ltb_ℤ b.y (a.y +ℤ pos size_fp)

-- `spawns[p.spawn_index]`
abbrev pub spawn_of : Player → Vec2Fixed
spawn_of p = get_or (spawn_points p.team) p.spawn_index no_vec
