-- ===== src/Server/Sim/Players.antt =====
-- What holds of every entry of `players_` in server/sim.cpp, after any number of ticks.
use networked_capture_the_fl.Prelude.{
  ltb, ◌==◌, if◌then◌else◌, and_left, and_right, not-true, length, get_or, set, All, All-set,
  All-get_or, ℤ, pos, ◌+ℤ◌, ◌-ℤ◌, ◌≤ℤ◌, ltb_ℤ, ℕ, zero, suc, ◌≤◌, ◌<◌, ◌≡◌, refl, Bool, true, false,
  not, ◌&&◌, List, [], ◌∷◌, arith,
}
use networked_capture_the_fl.GameTypes.{Vec2Fixed, Team, red, blue, InputCmd, no_vec}
use networked_capture_the_fl.GameTypes.Config.{
  max_health, max_players, fire_cooldown_ticks, respawn_delay_ticks, input_ring_size,
}
use networked_capture_the_fl.Map.{
  aabb_collides, is_wall, tile_at, spawn_points, red_spawn_points, blue_spawn_points,
}
use networked_capture_the_fl.Movement.Laws.{movement_step-free}
use networked_capture_the_fl.Server.Sim.{Player, no_one, Sim, player, spawn_of}
use networked_capture_the_fl.Server.Sim.Roster.{joining, push_input}
use networked_capture_the_fl.Server.Sim.Inputs.{popped, moved}
use networked_capture_the_fl.Server.Sim.Combat.{damaged}
use networked_capture_the_fl.Server.Sim.InputRing.{IsQueue, push_input-IsQueue, popped-IsQueue}

-- Who lives has health left; who is dead has none, and waits at most for the delay of a respawn.
pub record IsVital (health : ℕ) (alive : Bool) (timer : ℤ) : Type 0 where
  pub health_in : health ≤ max_health
  pub living : alive ≡ true → 0 < health
  pub dying : alive ≡ false → health ≡ 0
  pub waits : alive ≡ false → (pos 1 ≤ℤ timer) × (timer ≤ℤ pos respawn_delay_ticks)

-- The entries are sound: the life, the counters within their arrays, the inputs in order, and nobody
-- in a wall.
pub record IsPlayer (p : Player) : Type 0 where
  pub vital : IsVital p.health p.alive p.respawn_timer
  pub spawn_in : p.spawn_index < max_players
  pub cooldown_in : p.fire_cooldown ≤ fire_cooldown_ticks
  pub queue : IsQueue p.ring p.seqs p.ring_head p.ring_count p.last_input_seq p.newest_seq
  pub free : p.active ≡ true → aabb_collides p.position ≡ false

abbrev pub IsWorld : Sim → Type 0
IsWorld s = All IsPlayer s.players

unhurt : (timer : ℤ) → IsVital max_health true timer
unhurt timer = record {
  health_in = omega arith;
  living = λ e. omega arith;
  dying = λ e. cc;
  waits = λ e. cc;
}

empty-IsQueue :
    (p : Player)
    → length p.ring ≡ input_ring_size
    → length p.seqs ≡ input_ring_size
    → IsQueue p.ring p.seqs 0 0 0 p.newest_seq
empty-IsQueue p r s = record {
  head_in = omega arith;
  count_in = omega arith;
  ring_room = r;
  seqs_room = s;
  rises = omega arith;
}

pub no_one-IsPlayer : IsPlayer no_one
no_one-IsPlayer = record {
  vital = unhurt (pos 0);
  spawn_in = omega arith;
  cooldown_in = omega arith;
  queue = empty-IsQueue no_one refl refl;
  free = λ e. cc;
}

pub player-IsPlayer : (i : ℕ) (s : Sim) → IsWorld s → IsPlayer (player i s)
player-IsPlayer i s v = All-get_or IsPlayer s.players i no_one v no_one-IsPlayer

pub put-IsWorld :
    (i : ℕ) (p : Player) (s : Sim) → IsPlayer p → IsWorld s → All IsPlayer (set s.players i p)
put-IsWorld i p s h v = All-set IsPlayer s.players i p v h

all_free : List Vec2Fixed → Bool
all_free [] = true
all_free (p ∷ ps) = not (aabb_collides p) && all_free ps

all_free-get_or :
    (ps : List Vec2Fixed) (i : ℕ) (d : Vec2Fixed)
    → all_free ps ≡ true
    → i < length ps
    → aabb_collides (get_or ps i d) ≡ false
unfolding all_free
all_free-get_or [] i d h k = absurd (omega arith)
all_free-get_or (p ∷ ps) zero d h k = not-true _ (and_left _ _ h)
all_free-get_or (p ∷ ps) (suc i) d h k =
    all_free-get_or ps i d (and_right (not (aabb_collides p)) _ h) (omega arith)

red_free : all_free red_spawn_points ≡ true
unfolding all_free aabb_collides is_wall tile_at ◌+ℤ◌ ◌-ℤ◌
red_free = refl

blue_free : all_free blue_spawn_points ≡ true
unfolding all_free aabb_collides is_wall tile_at ◌+ℤ◌ ◌-ℤ◌
blue_free = refl

-- Nobody is put into a wall.
spawn-free :
    (t : Team) (i : ℕ) → i < max_players → aabb_collides (get_or (spawn_points t) i no_vec) ≡ false
spawn-free red i h = all_free-get_or red_spawn_points i no_vec red_free h
spawn-free blue i h = all_free-get_or blue_spawn_points i no_vec blue_free h

pub joining-IsPlayer :
    (t : Team) (index : ℕ) (p : Player) → IsPlayer p → IsPlayer (joining t index p)
joining-IsPlayer t index p v =
    let bounded : (if ltb index max_players then index else 0) < max_players = ground arith in
    record {
      vital = unhurt (pos 0);
      spawn_in = bounded;
      cooldown_in = omega arith;
      queue = empty-IsQueue p v.queue.ring_room v.queue.seqs_room;
      free = λ e. spawn-free t _ bounded;
    }

pub popped-IsPlayer : (p : Player) → 0 < p.ring_count → IsPlayer p → IsPlayer (popped p)
popped-IsPlayer p h v = record {
  vital = v.vital;
  spawn_in = v.spawn_in;
  cooldown_in = v.cooldown_in;
  queue = popped-IsQueue p v.queue h;
  free = v.free;
}

pub push_input-IsPlayer :
    (seq : ℕ) (input : InputCmd) (p : Player)
    → p.newest_seq < seq
    → IsPlayer p
    → IsPlayer (push_input seq input p)
unfolding push_input
push_input-IsPlayer seq input p h v = record {
  vital = v.vital;
  spawn_in = v.spawn_in;
  cooldown_in = v.cooldown_in;
  queue = push_input-IsQueue seq input p h v.queue;
  free = v.free;
}

pub moved-IsPlayer :
    (cmd : InputCmd) (p : Player) → p.active ≡ true → IsPlayer p → IsPlayer (moved cmd p)
moved-IsPlayer cmd p on v = record {
  vital = v.vital;
  spawn_in = v.spawn_in;
  cooldown_in = v.cooldown_in;
  queue = v.queue;
  free = λ e.
      (movement_step-free (record { position = p.position; velocity = no_vec }) cmd (v.free on)).0;
}

pub cooling-IsPlayer :
    (n : ℕ) (p : Player)
    → n ≤ fire_cooldown_ticks
    → IsPlayer p
    → IsPlayer (record p { fire_cooldown = n })
cooling-IsPlayer n p h v = record {
  vital = v.vital;
  spawn_in = v.spawn_in;
  cooldown_in = h;
  queue = v.queue;
  free = v.free;
}

-- A player whose health, life, timer or flag changes where it stands.
pub living-IsPlayer :
    (health : ℕ) (alive carries : Bool) (timer : ℤ) (p : Player)
    → IsVital health alive timer
    → IsPlayer p
    → IsPlayer (record p {
      health = health;
      alive = alive;
      carrying_flag = carries;
      respawn_timer = timer;
    })
living-IsPlayer health alive carries timer p h v = record {
  vital = h;
  spawn_in = v.spawn_in;
  cooldown_in = v.cooldown_in;
  queue = v.queue;
  free = v.free;
}

pub respawned-IsPlayer :
    (timer : ℤ) (p : Player)
    → IsPlayer p
    → IsPlayer (record p {
      respawn_timer = timer;
      alive = true;
      health = max_health;
      position = spawn_of p;
    })
respawned-IsPlayer timer p v = record {
  vital = unhurt timer;
  spawn_in = v.spawn_in;
  cooldown_in = v.cooldown_in;
  queue = v.queue;
  free = λ e. spawn-free p.team p.spawn_index v.spawn_in;
}

pub death : IsVital 0 false (pos respawn_delay_ticks)
death = record {
  health_in = omega arith;
  living = λ e. cc;
  dying = λ e. refl;
  waits = λ e. (omega arith, omega arith);
}

-- A hit that does not kill.
pub hurt-IsVital :
    (health : ℕ) (alive : Bool) (timer : ℤ)
    → (damaged health == 0) ≡ false
    → IsVital health alive timer
    → IsVital (damaged health) alive timer
hurt-IsVital health alive timer e v = record {
  health_in = ground (arith, v.health_in);
  living = λ a. ground (arith);
  dying = λ a. ground (arith, v.dying a);
  waits = v.waits;
}

pub waiting-IsVital :
    (health : ℕ) (timer : ℤ)
    → ltb_ℤ (pos 0) (timer -ℤ pos 1) ≡ true
    → IsVital health false timer
    → IsVital health false (timer -ℤ pos 1)
unfolding ◌-ℤ◌
waiting-IsVital health timer e v = record {
  health_in = v.health_in;
  living = v.living;
  dying = v.dying;
  waits = λ a. let w = v.waits refl in ground (arith, w);
}
