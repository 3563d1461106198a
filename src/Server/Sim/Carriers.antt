-- ===== src/Server/Sim/Carriers.antt =====
-- Who carries which flag, in server/sim.cpp: the consistency of `flags_` with `players_`.
use networked_capture_the_fl.Prelude.{
  length, get_or, set, length-set, get_or-set_self, get_or-set_ne, ℕ, ◌<◌, ◌≡◌, refl, sym, ap,
  subst, ◌∙◌, ◌≢◌, ◌⊎◌, inl, inr, true, false, arith, ℕ_discrete,
}
use networked_capture_the_fl.GameTypes.{Team, red, blue, carried, FlagInfo}
use networked_capture_the_fl.GameTypes.Config.{max_players}
use networked_capture_the_fl.Server.Sim.{Player, no_one, other_team, Sim, player, flag}

-- A player who holds the flag of a team: of the other team, in the match and alive.
pub record Holds (t : Team) (i : ℕ) (s : Sim) : Type 0 where
  pub slot : i < max_players
  pub active : (player i s).active ≡ true
  pub alive : (player i s).alive ≡ true
  pub carries : (player i s).carrying_flag ≡ true
  pub enemy : (player i s).team ≡ other_team t

-- A flag is carried exactly by the player whom it names and who is marked as its carrier.
pub record IsConsistent (s : Sim) : Type 0 where
  pub ten : length s.players ≡ max_players
  pub held : (t : Team) → (flag t s).state ≡ carried → Holds t (flag t s).carrier_id s
  pub named :
      (i : ℕ)
      → (player i s).carrying_flag ≡ true
      → ((flag (other_team (player i s).team) s).state ≡ carried)
        × ((flag (other_team (player i s).team) s).carrier_id ≡ i)

pub record SameRole (p q : Player) : Type 0 where
  pub active : q.active ≡ p.active
  pub alive : q.alive ≡ p.alive
  pub carries : q.carrying_flag ≡ p.carrying_flag
  pub team : q.team ≡ p.team

pub same_role : (p : Player) → SameRole p p
same_role p = record { active = refl; alive = refl; carries = refl; team = refl }

-- A change that no flag is concerned by: the roles stay, or those of a player without a flag change.
abbrev pub Calm : Player → Player → Type 0
Calm p q = SameRole p q ⊎ ((p.carrying_flag ≡ false) × (q.carrying_flag ≡ false))

abbrev pub Kept : FlagInfo → FlagInfo → Type 0
Kept f g = (g.state ≡ f.state) × (g.carrier_id ≡ f.carrier_id)

abbrev pub Unheld : FlagInfo → FlagInfo → Type 0
Unheld f g = ((f.state ≡ carried) → ⊥) × ((g.state ≡ carried) → ⊥)

Holds-Calm :
    (t : Team) (i : ℕ) (s u : Sim) → Calm (player i s) (player i u) → Holds t i s → Holds t i u
Holds-Calm t i s u (inl r) h = record {
  slot = h.slot;
  active = r.active ∙ h.active;
  alive = r.alive ∙ h.alive;
  carries = r.carries ∙ h.carries;
  enemy = r.team ∙ h.enemy;
}
Holds-Calm t i s u (inr (a, b)) h = let c = h.carries in cc

pub calm :
    (s u : Sim)
    → length u.players ≡ length s.players
    → ((i : ℕ) → Calm (player i s) (player i u))
    → ((t : Team) → Kept (flag t s) (flag t u) ⊎ Unheld (flag t s) (flag t u))
    → IsConsistent s
    → IsConsistent u
calm s u len players flags v = record {
  ten = len ∙ v.ten;
  held = λ t h. elim (flags t) [
    | inl (state, carrier) ↦
        Holds-Calm t _ s u (players _)
          (subst (λ i. Holds t i s) (sym carrier) (v.held t (sym state ∙ h)))
    | inr (before, after) ↦ absurd (after h)
  ];
  named = λ i h. elim (players i) [
    | inl r ↦
        let (state, carrier) = v.named i (sym r.carries ∙ h) in
        elim (flags (other_team (player i s).team)) [
          | inl (same_state, same_carrier) ↦
              subst
                (λ t.
                  ((flag (other_team t) u).state ≡ carried)
                  × ((flag (other_team t) u).carrier_id ≡ i))
                (sym r.team) (same_state ∙ state, same_carrier ∙ carrier)
          | inr (before, after) ↦ absurd (before state)
        ]
    | inr (before, after) ↦ cc
  ];
}

-- What a write to one slot does to the others and to itself.
pub put_other :
    (i j : ℕ) (p : Player) (s u : Sim)
    → u.players ≡ set s.players i p
    → i ≢ j
    → player j u ≡ player j s
put_other i j p s u e ne = ap (λ ps. get_or ps j no_one) e ∙ get_or-set_ne s.players i j p no_one ne

pub put_self :
    (i : ℕ) (p : Player) (s u : Sim)
    → u.players ≡ set s.players i p
    → i < length s.players
    → player i u ≡ p
put_self i p s u e h = ap (λ ps. get_or ps i no_one) e ∙ get_or-set_self s.players i p no_one h

put_length :
    (i : ℕ) (p : Player) (s u : Sim)
    → u.players ≡ set s.players i p
    → length u.players ≡ length s.players
put_length i p s u e = ap length e ∙ length-set s.players i p

pub Calm-put :
    (i : ℕ) (p : Player) (s u : Sim)
    → i < max_players
    → u.players ≡ set s.players i p
    → Calm (player i s) p
    → ((t : Team) → Kept (flag t s) (flag t u) ⊎ Unheld (flag t s) (flag t u))
    → IsConsistent s
    → IsConsistent u
Calm-put i p s u h e c flags v =
    calm s u (put_length i p s u e)
      (λ j. elim (ℕ_discrete i j) [
        | yes k ↦
            subst (λ j. Calm (player j s) (player j u)) k
              (subst (Calm (player i s)) (sym (put_self i p s u e (omega (arith, v.ten)))) c)
        | no k ↦ inl (subst (SameRole (player j s)) (sym (put_other i j p s u e k)) (same_role _))
      ])
      flags v

pub other_twice : (t : Team) → other_team (other_team t) ≡ t
other_twice red = refl
other_twice blue = refl

other_ne : (t : Team) → other_team t ≡ t → ⊥
other_ne red e = cc
other_ne blue e = cc

teams : (t u : Team) → (u ≡ t) ⊎ (u ≡ other_team t)
teams red red = inl refl
teams red blue = inr refl
teams blue red = inr refl
teams blue blue = inl refl

Holds-same : (t : Team) (i : ℕ) (s u : Sim) → player i u ≡ player i s → Holds t i s → Holds t i u
Holds-same t i s u e h =
    Holds-Calm t i s u (inl (subst (SameRole (player i s)) (sym e) (same_role _))) h

-- A carrier who loses the flag of the team `t`.
pub release :
    (i : ℕ) (t : Team) (p : Player) (s u : Sim)
    → i < max_players
    → u.players ≡ set s.players i p
    → t ≡ other_team (player i s).team
    → (player i s).carrying_flag ≡ true
    → p.carrying_flag ≡ false
    → (((flag t u).state ≡ carried) → ⊥)
    → Kept (flag (other_team t) s) (flag (other_team t) u)
    → IsConsistent s
    → IsConsistent u
release i t p s u h e team had lost gone (state, carrier) v =
    let own : player i u ≡ p = put_self i p s u e (omega (arith, v.ten)) in
    record {
      ten = put_length i p s u e ∙ v.ten;
      held = λ t' f. elim (teams t t') [
        | inl k ↦ absurd (gone (subst (λ t. (flag t u).state ≡ carried) k f))
        | inr k ↦
            let f' = subst (λ t. (flag t u).state ≡ carried) k f in
            let holds = v.held (other_team t) (sym state ∙ f') in
            let here = subst (λ j. Holds (other_team t) j s) (sym carrier) holds in
            let apart : i ≢ (flag (other_team t) u).carrier_id = λ same. other_ne (other_team t) (
              other_twice t
              ∙ team
              ∙ ap other_team (ap (λ j. (player j s).team) same ∙ here.enemy ∙ other_twice t)) in
            subst (λ t'. Holds t' (flag t' u).carrier_id u) (sym k)
              (Holds-same (other_team t) _ s u (put_other i _ p s u e apart) here)
      ];
      named = λ j c. elim (ℕ_discrete i j) [
        | yes k ↦ absurd (
            let c' = subst (λ j. (player j u).carrying_flag ≡ true) (sym k) c in
            let no = ap (λ (q : Player). q.carrying_flag) own ∙ lost in cc)
        | no k ↦
            let same = put_other i j p s u e k in
            let (st, ca) = v.named j (sym (ap (λ (q : Player). q.carrying_flag) same) ∙ c) in
            let (st', ca') = v.named i had in
            subst
              (λ (q : Player).
                ((flag (other_team q.team) u).state ≡ carried)
                × ((flag (other_team q.team) u).carrier_id ≡ j))
              (sym same)
              (elim (teams t (other_team (player j s).team)) [
                | inl m ↦
                    absurd (k (sym ca' ∙ ap (λ t. (flag t s).carrier_id) (sym team ∙ sym m) ∙ ca))
                | inr m ↦ (
                  ap (λ t. (flag t u).state) m ∙ state ∙ ap (λ t. (flag t s).state) (sym m) ∙ st,
                  ap (λ t. (flag t u).carrier_id) m
                      ∙ carrier
                      ∙ ap (λ t. (flag t s).carrier_id) (sym m)
                      ∙ ca,
                )
              ])
      ];
    }

-- A player who takes the flag of the team `t`, which nobody carries.
pub take_up :
    (i : ℕ) (t : Team) (p : Player) (s u : Sim)
    → i < max_players
    → u.players ≡ set s.players i p
    → (p.active ≡ true) × (p.alive ≡ true) × (p.carrying_flag ≡ true) × (p.team ≡ other_team t)
    → (player i s).carrying_flag ≡ false
    → (((flag t s).state ≡ carried) → ⊥)
    → ((flag t u).state ≡ carried) × ((flag t u).carrier_id ≡ i)
    → Kept (flag (other_team t) s) (flag (other_team t) u)
    → IsConsistent s
    → IsConsistent u
take_up i t p s u h e (active, alive, carries, team) empty free (now, named) (state, carrier) v =
    let own : player i u ≡ p = put_self i p s u e (omega (arith, v.ten)) in
    record {
      ten = put_length i p s u e ∙ v.ten;
      held = λ t' f. elim (teams t t') [
        | inl k ↦
            subst (λ t'. Holds t' (flag t' u).carrier_id u) (sym k)
              (subst (λ j. Holds t j u) (sym named)
                (record {
                  slot = h;
                  active = ap (λ (q : Player). q.active) own ∙ active;
                  alive = ap (λ (q : Player). q.alive) own ∙ alive;
                  carries = ap (λ (q : Player). q.carrying_flag) own ∙ carries;
                  enemy = ap (λ (q : Player). q.team) own ∙ team;
                }))
        | inr k ↦
            let f' = subst (λ t. (flag t u).state ≡ carried) k f in
            let here =
              subst (λ j. Holds (other_team t) j s) (sym carrier)
                (v.held (other_team t) (sym state ∙ f')) in
            let apart : i ≢ (flag (other_team t) u).carrier_id =
              λ same. let c = ap (λ j. (player j s).carrying_flag) same ∙ here.carries in cc in
            subst (λ t'. Holds t' (flag t' u).carrier_id u) (sym k)
              (Holds-same (other_team t) _ s u (put_other i _ p s u e apart) here)
      ];
      named = λ j c. elim (ℕ_discrete i j) [
        | yes k ↦
            subst
              (λ (j : ℕ).
                ((flag (other_team (player j u).team) u).state ≡ carried)
                × ((flag (other_team (player j u).team) u).carrier_id ≡ j))
              k
              (subst (λ t. ((flag t u).state ≡ carried) × ((flag t u).carrier_id ≡ i))
                (sym
                  (ap (λ (q : Player). other_team q.team) own ∙ ap other_team team ∙ other_twice t))
                (now, named))
        | no k ↦
            let same = put_other i j p s u e k in
            let (st, ca) = v.named j (sym (ap (λ (q : Player). q.carrying_flag) same) ∙ c) in
            subst
              (λ (q : Player).
                ((flag (other_team q.team) u).state ≡ carried)
                × ((flag (other_team q.team) u).carrier_id ≡ j))
              (sym same)
              (elim (teams t (other_team (player j s).team)) [
                | inl m ↦ absurd (free (ap (λ t. (flag t s).state) (sym m) ∙ st))
                | inr m ↦ (
                  ap (λ t. (flag t u).state) m ∙ state ∙ ap (λ t. (flag t s).state) (sym m) ∙ st,
                  ap (λ t. (flag t u).carrier_id) m
                      ∙ carrier
                      ∙ ap (λ t. (flag t s).carrier_id) (sym m)
                      ∙ ca,
                )
              ])
      ];
    }
