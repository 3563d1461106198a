-- ===== src/GameTypes.antt =====
-- shared/game_types.h and shared/game_config.h: the value types and constants that server, client
-- and bot share. A `uint8_t`, `uint16_t` or `uint32_t` is a number, an `int32_t` an integer; an
-- array of `kMaxPlayers` entries is a list of that length.
use networked_capture_the_fl.Prelude.{ℕ, Bool, true, false, List, ℤ, pos, replicate}
pub mod Config
use Config.{max_health, max_players}

pub record Vec2Fixed : Type 0 where
  pub x : ℤ
  pub y : ℤ

pub data Team : Type 0 where
  red blue : Team

abbrev pub is_blue : Team → Bool
is_blue red = false
is_blue blue = true

pub data FlagState : Type 0 where
  at_base carried dropped : FlagState

-- `buttons` is the bit mask of `InputButton`.
pub record InputCmd : Type 0 where
  pub buttons : ℕ
  pub aim_angle : ℕ

pub record PlayerMotion : Type 0 where
  pub position : Vec2Fixed
  pub velocity : Vec2Fixed

pub record PlayerState : Type 0 where
  pub id : ℕ
  pub team : Team
  pub motion : PlayerMotion
  pub aim_angle : ℕ
  pub health : ℕ
  pub alive : Bool
  pub carrying_flag : Bool
  pub firing : Bool

pub record FlagInfo : Type 0 where
  pub state : FlagState
  pub position : Vec2Fixed
  pub carrier_id : ℕ

pub record WorldSnapshot : Type 0 where
  pub tick : ℕ
  pub last_input_seq : ℕ
  pub player_count : ℕ
  pub flag_carrier_red : ℕ
  pub flag_carrier_blue : ℕ
  pub flag_state_red : FlagState
  pub flag_state_blue : FlagState
  pub score_red : ℕ
  pub score_blue : ℕ
  pub seconds_remaining : ℕ
  pub players : List PlayerState

-- The values of the member initialisers.
abbrev pub no_vec : Vec2Fixed
no_vec = record { x = pos 0; y = pos 0 }

abbrev pub no_motion : PlayerMotion
no_motion = record { position = no_vec; velocity = no_vec }

abbrev pub no_input : InputCmd
no_input = record { buttons = 0; aim_angle = 0 }

abbrev pub no_player : PlayerState
no_player = record {
  id = 0;
  team = red;
  motion = no_motion;
  aim_angle = 0;
  health = max_health;
  alive = true;
  carrying_flag = false;
  firing = false;
}

abbrev pub no_carrier : ℕ
no_carrier = 0xff

abbrev pub no_snapshot : WorldSnapshot
no_snapshot = record {
  tick = 0;
  last_input_seq = 0;
  player_count = 0;
  flag_carrier_red = no_carrier;
  flag_carrier_blue = no_carrier;
  flag_state_red = at_base;
  flag_state_blue = at_base;
  score_red = 0;
  score_blue = 0;
  seconds_remaining = 0;
  players = replicate max_players no_player;
}

-- The enumerators as wire bytes.
abbrev pub team_byte : Team → ℕ
team_byte red = 0
team_byte blue = 1

abbrev pub flag_state_byte : FlagState → ℕ
flag_state_byte at_base = 0
flag_state_byte carried = 1
flag_state_byte dropped = 2
