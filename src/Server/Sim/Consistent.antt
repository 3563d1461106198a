-- ===== src/Server/Sim/Consistent.antt =====
-- Each step of server/sim.cpp keeps the flags and their carriers consistent.
use networked_capture_the_fl.Prelude.{
  ltb, leb, ltb→lt, and_left, or_left, or_right, Bool-cases, if-elim, length, get_or, set, ℕ, ◌-◌,
  ◌<◌, ◌≡◌, refl, sym, ap, subst, ◌⊎◌, inl, inr, true, false, not, ◌&&◌, ◌||◌, List, [], ◌∷◌, arith,
}
use networked_capture_the_fl.GameTypes.{Vec2Fixed, Team, red, blue, carried, InputCmd, FlagInfo}
use networked_capture_the_fl.GameTypes.Config.{max_players}
use networked_capture_the_fl.Server.Queues.{
  InboundCommand, player_joined, player_left, player_input,
}
use networked_capture_the_fl.Server.Sim.{
  Player, no_one, PerTeam, of_team, put_team, other_team, Sim, player, put_player, flag, is_joined,
  for_ids-rule, drop_flag,
}
use networked_capture_the_fl.Server.Sim.Roster.{
  joining, apply_join, apply_leave, push_input, apply_input, apply_command, drain_commands,
  drain_inbound,
}
use networked_capture_the_fl.Server.Sim.Inputs.{
  popped, pop_input, pop_inputs, command, moved, move_player, move_players,
}
use networked_capture_the_fl.Server.Sim.Publish.{is_due, publish}
use networked_capture_the_fl.Server.Sim.Carriers.{
  Holds, IsConsistent, SameRole, same_role, Calm, Kept, Unheld, calm, Calm-put, release,
}

-- The state but for the players and the flags does not matter.
pub same_world :
    (s u : Sim) → u.players ≡ s.players → u.flags ≡ s.flags → IsConsistent s → IsConsistent u
same_world s u ps fs v =
    calm s u (ap length ps)
      (λ i. inl (subst (λ qs. SameRole (player i s) (get_or qs i no_one)) (sym ps) (same_role _)))
      (λ t. inl (
        ap (λ (f : PerTeam FlagInfo). (of_team t f).state) fs,
        ap (λ (f : PerTeam FlagInfo). (of_team t f).carrier_id) fs,
      ))
      v

-- A write to one slot that no flag is concerned by.
pub Calm-write :
    (i : ℕ) (p : Player) (s u : Sim)
    → i < max_players
    → u.players ≡ set s.players i p
    → u.flags ≡ s.flags
    → Calm (player i s) p
    → IsConsistent s
    → IsConsistent u
Calm-write i p s u h ps fs c v =
    Calm-put i p s u h ps c
      (λ t. inl (
        ap (λ (f : PerTeam FlagInfo). (of_team t f).state) fs,
        ap (λ (f : PerTeam FlagInfo). (of_team t f).carrier_id) fs,
      ))
      v

pub SameRole-write :
    (i : ℕ) (p : Player) (s u : Sim)
    → i < max_players
    → u.players ≡ set s.players i p
    → u.flags ≡ s.flags
    → SameRole (player i s) p
    → IsConsistent s
    → IsConsistent u
SameRole-write i p s u h ps fs c v = Calm-write i p s u h ps fs (inl c) v

put_team-cases :
    (t t' : Team) (f : FlagInfo) (fs : PerTeam FlagInfo)
    → Kept (of_team t fs) f ⊎ Unheld (of_team t fs) f
    → Kept (of_team t' fs) (of_team t' (put_team t f fs))
      ⊎ Unheld (of_team t' fs) (of_team t' (put_team t f fs))
put_team-cases red red f fs c = c
put_team-cases red blue f fs c = inl (refl, refl)
put_team-cases blue red f fs c = inl (refl, refl)
put_team-cases blue blue f fs c = c

-- A write to a flag that nobody is concerned by.
pub calm_flag :
    (t : Team) (f : FlagInfo) (s u : Sim)
    → u.players ≡ s.players
    → u.flags ≡ put_team t f s.flags
    → Kept (flag t s) f ⊎ Unheld (flag t s) f
    → IsConsistent s
    → IsConsistent u
calm_flag t f s u ps fs c v =
    calm s u (ap length ps)
      (λ i. inl (subst (λ qs. SameRole (player i s) (get_or qs i no_one)) (sym ps) (same_role _)))
      (λ t'.
        subst (λ gs. Kept (flag t' s) (of_team t' gs) ⊎ Unheld (flag t' s) (of_team t' gs)) (sym fs)
          (put_team-cases t t' f s.flags c))
      v

-- The carrier of a flag is in the match.
pub carrier_lem :
    (s : Sim) (i : ℕ)
    → IsConsistent s
    → (player i s).carrying_flag ≡ true
    → Holds (other_team (player i s).team) i s
carrier_lem s i v c =
    let (st, ca) = v.named i c in
    subst (λ j. Holds (other_team (player i s).team) j s) ca (v.held _ st)

outsider :
    (s : Sim) (i : ℕ)
    → IsConsistent s
    → (player i s).active ≡ false
    → (player i s).carrying_flag ≡ false
outsider s i v out = elim (Bool-cases (player i s).carrying_flag) [
  | inl c ↦ absurd (let a = (carrier_lem s i v c).active in cc)
  | inr n ↦ n
]

is_joined-active :
    (s : Sim) (i : ℕ) → i < max_players → is_joined i s ≡ false → (player i s).active ≡ false
is_joined-active s i h e = ground arith

is_joined-slot : (s : Sim) (i : ℕ) → is_joined i s ≡ true → i < max_players
is_joined-slot s i e = ltb→lt _ _ (and_left _ _ e)

apply_join-IsConsistent :
    (id : ℕ) (t : Team) (index : ℕ) (s : Sim)
    → IsConsistent s
    → IsConsistent (apply_join id t index s)
unfolding apply_join
apply_join-IsConsistent id t index s v =
    if-elim IsConsistent (s.match_over || is_joined id s || leb max_players id) s _ (λ e. v)
      (λ e.
        let out = or_right s.match_over (is_joined id s) (or_left _ _ e) in
        let slot : id < max_players = ground arith in
        let free = outsider s id v (is_joined-active s id slot out) in
        Calm-write id (joining t index (player id s)) s _ slot refl refl (inr (free, refl)) v)

pub drop_flag-Kept :
    (t : Team) (p : Vec2Fixed) (s : Sim)
    → Kept (flag (other_team t) s) (flag (other_team t) (drop_flag t p s))
unfolding drop_flag
drop_flag-Kept red p s = (refl, refl)
drop_flag-Kept blue p s = (refl, refl)

pub drop_flag-gone :
    (t : Team) (p : Vec2Fixed) (s : Sim) → ((flag t (drop_flag t p s)).state ≡ carried) → ⊥
unfolding drop_flag
drop_flag-gone red p s e = cc
drop_flag-gone blue p s e = cc

apply_leave-IsConsistent : (id : ℕ) (s : Sim) → IsConsistent s → IsConsistent (apply_leave id s)
unfolding apply_leave drop_flag
apply_leave-IsConsistent id s v =
    let p = player id s in
    if-elim IsConsistent (is_joined id s) _ s
      (λ e.
        if-elim
          (λ after.
            IsConsistent
              (record (put_player id no_one after) { player_count = s.player_count - 1 }))
          p.carrying_flag _ s
          (λ c.
            release id (other_team p.team) no_one s _ (is_joined-slot s id e) refl refl c refl
              (drop_flag-gone _ p.position s) (drop_flag-Kept _ p.position s) v)
          (λ c. Calm-write id no_one s _ (is_joined-slot s id e) refl refl (inr (c, refl)) v))
      (λ e. v)

apply_input-IsConsistent :
    (id seq : ℕ) (input : InputCmd) (s : Sim)
    → IsConsistent s
    → IsConsistent (apply_input id seq input s)
unfolding apply_input push_input
apply_input-IsConsistent id seq input s v =
    if-elim IsConsistent
      (is_joined id s && (player id s).alive && not (leb seq (player id s).newest_seq)) _ s
      (λ e.
        SameRole-write id _ s _ (is_joined-slot s id (and_left _ _ (and_left _ _ e))) refl refl
          (record { active = refl; alive = refl; carries = refl; team = refl }) v)
      (λ e. v)

apply_command-IsConsistent :
    (cmd : InboundCommand) (s : Sim) → IsConsistent s → IsConsistent (apply_command cmd s)
unfolding apply_command
apply_command-IsConsistent (player_joined id t index) s v =
    if-elim IsConsistent s.match_over s _ (λ e. v) (λ e. apply_join-IsConsistent id t index s v)
apply_command-IsConsistent (player_left id) s v =
    if-elim IsConsistent s.match_over s _ (λ e. v) (λ e. apply_leave-IsConsistent id s v)
apply_command-IsConsistent (player_input id seq input) s v =
    if-elim IsConsistent s.match_over s _ (λ e. v) (λ e. apply_input-IsConsistent id seq input s v)

drain_commands-IsConsistent :
    (cmds : List InboundCommand) (s : Sim) → IsConsistent s → IsConsistent (drain_commands cmds s)
drain_commands-IsConsistent [] s v = v
drain_commands-IsConsistent (cmd ∷ cmds) s v =
    drain_commands-IsConsistent cmds (apply_command cmd s) (apply_command-IsConsistent cmd s v)

pub drain_inbound-IsConsistent : (s : Sim) → IsConsistent s → IsConsistent (drain_inbound s)
unfolding drain_inbound
drain_inbound-IsConsistent s v =
    drain_commands-IsConsistent s.inbound _ (same_world s _ refl refl v)

pop_input-IsConsistent :
    (i : ℕ) (s : Sim) → i < max_players → IsConsistent s → IsConsistent (pop_input i s)
unfolding pop_input
pop_input-IsConsistent i s h v =
    if-elim IsConsistent (player i s).active _ s
      (λ e.
        if-elim IsConsistent ((player i s).alive && ltb 0 (player i s).ring_count) _ _
          (λ e.
            SameRole-write i (popped (player i s)) s _ h refl refl
              (record { active = refl; alive = refl; carries = refl; team = refl }) v)
          (λ e. same_world s _ refl refl v))
      (λ e. v)

pub pop_inputs-IsConsistent : (s : Sim) → IsConsistent s → IsConsistent (pop_inputs s)
unfolding pop_inputs
pop_inputs-IsConsistent s v =
    for_ids-rule IsConsistent max_players 0 pop_input s (λ i s h. pop_input-IsConsistent i s h) v

move_player-IsConsistent :
    (i : ℕ) (s : Sim) → i < max_players → IsConsistent s → IsConsistent (move_player i s)
unfolding move_player
move_player-IsConsistent i s h v =
    if-elim IsConsistent ((player i s).active && (player i s).alive) _ s
      (λ e.
        SameRole-write i (moved (command i s) (player i s)) s _ h refl refl
          (record { active = refl; alive = refl; carries = refl; team = refl }) v)
      (λ e. v)

pub move_players-IsConsistent : (s : Sim) → IsConsistent s → IsConsistent (move_players s)
unfolding move_players
move_players-IsConsistent s v =
    for_ids-rule IsConsistent max_players 0 move_player s (λ i s h. move_player-IsConsistent i s h)
      v

pub publish-IsConsistent : (s : Sim) → IsConsistent s → IsConsistent (publish s)
unfolding publish
publish-IsConsistent s v =
    if-elim IsConsistent (is_due s) _ _ (λ e. same_world s _ refl refl v)
      (λ e. same_world s _ refl refl v)
