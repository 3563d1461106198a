-- ===== src/Client/Prediction/Laws.antt =====
-- Reconciliation of client/prediction.cpp: the local player stands where the server will put it.
use networked_capture_the_fl.Prelude.{
  lt→not-leb, map-set, length, without, get_or, set, length-set, drop, leb, le→leb, if_true,
  if_false, ℕ, zero, suc, ◌+◌, ◌%◌, ◌^◌, ◌≤◌, ◌<◌, ◌≡◌, refl, sym, ap, ap₂, Bool, true, false,
  subst, ◌∙◌, Option, none, some, List, [], ◌∷◌, ◌++◌, map, arith,
}
use networked_capture_the_fl.GameTypes.{
  InputCmd, no_input, no_vec, PlayerMotion, no_motion, PlayerState, WorldSnapshot,
}
use networked_capture_the_fl.GameTypes.Config.{input_history_ring_size}
use networked_capture_the_fl.Movement.{movement_step}
use networked_capture_the_fl.RingBuffer.{remove_if, contents, slots}
use networked_capture_the_fl.RingBuffer.Slots.{slots-set_other, apart, map-slots, length-slots}
use networked_capture_the_fl.RingBuffer.Laws.{IsRing, push_back_lem, remove_if_lem}
use networked_capture_the_fl.Client.Prediction.{
  InputHistoryEntry, no_entry, Prediction, no_prediction, on_local_tick, find_state, replay_loop,
  reconcile, apply_authority, on_snapshot,
}

-- The player's motion after some numbered inputs.
abbrev pub after : PlayerMotion → List (ℕ × InputCmd) → PlayerMotion
after m [] = m
after m ((seq, cmd) ∷ es) = after (movement_step m cmd) es

-- What an entry says of the input, without the state that is kept for display.
abbrev pub order : InputHistoryEntry → ℕ × InputCmd
order e = (e.seq, e.input)

abbrev pub orders : List InputHistoryEntry → List (ℕ × InputCmd)
orders es = map order es

replay_loop_lem :
    (head n i : ℕ) (data_ : List InputHistoryEntry) (local : PlayerMotion)
    → head < 64
    → i + n ≤ 64
    → length data_ ≡ 64
    → let (out, m) = replay_loop head n i data_ local in
      (length out ≡ 64)
      × (m ≡ after local (orders (slots 64 no_entry data_ n (head + i))))
      × (map order out ≡ map order data_)
replay_loop_lem head zero i data_ local h room l = (l, refl, refl)
replay_loop_lem head (suc n) i data_ local h room l =
    let idx = (head + i) % 64 in
    let e = get_or data_ idx no_entry in
    let state = movement_step local e.input in
    let e' : InputHistoryEntry = record e { state_after = state } in
    let data' = set data_ idx e' in
    let (a, b, f) =
      replay_loop_lem head n (i + 1) data' state h (omega arith) (length-set data_ idx e' ∙ l) in
    let rest : slots 64 no_entry data' n (head + (i + 1))
        ≡ slots 64 no_entry data_ n (head + i + 1) =
      slots-set_other 64 no_entry data_ n (head + (i + 1)) idx e' (λ k s e.
        apart 64 head (head + i) (head + (i + 1) + k) h (omega arith) (omega arith) (omega arith) e)
      ∙ ap (slots 64 no_entry data_ n) (omega arith) in
    (a, b ∙ ap (λ es. after state (orders es)) rest, f ∙ map-set order data_ idx e' no_entry refl)

-- The numbered inputs that the history holds.
abbrev pub kept_of : Prediction → List (ℕ × InputCmd)
kept_of p = orders (contents input_history_ring_size no_entry p.history)

-- Those of some inputs that are not acknowledged.
abbrev pub unacknowledged : ℕ → List (ℕ × InputCmd) → List (ℕ × InputCmd)
unacknowledged ack es = without (λ (c : ℕ × InputCmd). leb c.0 ack) es

-- An entry that is dropped or kept, and its input.
orders-keep :
    (dropped : Bool) (e : InputHistoryEntry) (xs : List InputHistoryEntry)
    (ys : List (ℕ × InputCmd))
    → orders xs ≡ ys
    → orders (elim dropped [ true ↦ xs | false ↦ e ∷ xs ])
      ≡ elim dropped [ true ↦ ys | false ↦ order e ∷ ys ]
orders-keep true e xs ys h = h
orders-keep false e xs ys h = ap (λ zs. order e ∷ zs) h

-- Acknowledged entries are acknowledged inputs.
orders-without :
    (ack : ℕ) (es : List InputHistoryEntry)
    → orders (without (λ e. leb e.seq ack) es) ≡ unacknowledged ack (orders es)
orders-without ack [] = refl
orders-without ack (e ∷ es) = orders-keep (leb e.seq ack) e _ _ (orders-without ack es)

abbrev pub IsHistory : Prediction → Type 0
IsHistory p = IsRing input_history_ring_size no_entry p.history

reconcile_lem :
    (snap : WorldSnapshot) (ps : PlayerState) (p : Prediction)
    → IsHistory p
    → let q = reconcile snap ps p in
      let es = unacknowledged snap.last_input_seq (kept_of p) in
      IsHistory q
      × (q.local_state ≡ after (record { position = ps.motion.position; velocity = no_vec }) es)
      × (kept_of q ≡ es)
unfolding reconcile
reconcile_lem snap ps p v =
    let (w, e) = remove_if_lem 64 no_entry (λ e. leb e.seq snap.last_input_seq) p.history v in
    let kept = remove_if 64 no_entry (λ e. leb e.seq snap.last_input_seq) p.history in
    let start : PlayerMotion = record { position = ps.motion.position; velocity = no_vec } in
    let (a, b, f) =
      replay_loop_lem kept.head kept.size 0 kept.data_ start w.head_in (omega (arith, w.size_in))
        w.room in
    let es : orders (slots 64 no_entry kept.data_ kept.size kept.head)
        ≡ unacknowledged snap.last_input_seq (kept_of p) =
      ap orders e ∙ orders-without snap.last_input_seq (contents 64 no_entry p.history) in
    (
      record {
        some = w.some;
        room = a;
        head_in = w.head_in;
        size_in = w.size_in;
        tail_at = w.tail_at;
      },
      b
          ∙ ap (λ k. after start (orders (slots 64 no_entry kept.data_ kept.size k)))
              {x = kept.head + 0} (omega arith)
          ∙ ap (after start) es,
      map-slots order 64 no_entry _ kept.size kept.head
          ∙ ap (λ xs. slots 64 (0, no_input) xs kept.size kept.head) f
          ∙ sym (map-slots order 64 no_entry kept.data_ kept.size kept.head)
          ∙ es,
    )

after-snoc :
    (m : PlayerMotion) (xs : List (ℕ × InputCmd)) (seq : ℕ) (cmd : InputCmd)
    → after m (xs ++ (seq, cmd) ∷ []) ≡ movement_step (after m xs) cmd
after-snoc m [] seq cmd = refl
after-snoc m ((k, c) ∷ xs) seq cmd = after-snoc (movement_step m c) xs seq cmd

orders-snoc :
    (xs : List InputHistoryEntry) (e : InputHistoryEntry)
    → orders (xs ++ e ∷ []) ≡ orders xs ++ order e ∷ []
orders-snoc [] e = refl
orders-snoc (x ∷ xs) e = ap (λ ys. order x ∷ ys) (orders-snoc xs e)

-- What a client runs through: local ticks, while the ring has room, and snapshots that are stale,
-- or do not show the player, or put it somewhere. The indices are how many ticks there were, in 32 bits,
-- where the server last put the player, and the inputs that it has not acknowledged: a tick numbers its
-- input and adds it, and a snapshot that is applied takes away those up to the number that it names.
pub data Run : ℕ → PlayerMotion → List (ℕ × InputCmd) → Prediction → Type 0 where
  begin : Run 0 no_motion [] no_prediction
  ticks :
      {n : ℕ} {b : PlayerMotion} {es : List (ℕ × InputCmd)} {p : Prediction} (cmd : InputCmd)
      → Run n b es p
      → p.history.size < input_history_ring_size
      → Run ((n + 1) % 2 ^ 32) b (es ++ ((n + 1) % 2 ^ 32, cmd) ∷ []) (on_local_tick cmd p)
  stale :
      {n : ℕ} {b : PlayerMotion} {es : List (ℕ × InputCmd)} {p : Prediction} (snap : WorldSnapshot)
      (id : ℕ)
      → Run n b es p
      → snap.tick ≤ p.last_applied_tick
      → Run n b es (on_snapshot snap id p)
  absent :
      {n : ℕ} {b : PlayerMotion} {es : List (ℕ × InputCmd)} {p : Prediction} (snap : WorldSnapshot)
      (id : ℕ)
      → Run n b es p
      → p.last_applied_tick < snap.tick
      → find_state id snap.player_count snap.players ≡ none
      → Run n b es (on_snapshot snap id p)
  placed :
      {n : ℕ} {b : PlayerMotion} {es : List (ℕ × InputCmd)} {p : Prediction} (snap : WorldSnapshot)
      (id : ℕ) (ps : PlayerState)
      → Run n b es p
      → p.last_applied_tick < snap.tick
      → find_state id snap.player_count snap.players ≡ some ps
      → Run n
          (record { position = ps.motion.position; velocity = no_vec })
          (unacknowledged snap.last_input_seq es)
          (on_snapshot snap id p)

-- The history holds exactly the given inputs, and the player is where they take it.
pub record IsPredicted (n : ℕ) (b : PlayerMotion) (es : List (ℕ × InputCmd)) (p : Prediction)
    : Type 0 where
  pub ring : IsHistory p
  pub numbered : p.seq ≡ n
  pub held : kept_of p ≡ es
  pub here : p.local_state ≡ after b es

ticks-IsPredicted :
    (n : ℕ) (b : PlayerMotion) (es : List (ℕ × InputCmd)) (p : Prediction) (cmd : InputCmd)
    → IsPredicted n b es p
    → p.history.size < 64
    → IsPredicted ((n + 1) % 2 ^ 32) b (es ++ ((n + 1) % 2 ^ 32, cmd) ∷ []) (on_local_tick cmd p)
unfolding on_local_tick
ticks-IsPredicted n b es p cmd v h =
    let state = movement_step p.local_state cmd in
    let seq = (p.seq + 1) % 2 ^ 32 in
    let e : InputHistoryEntry = record { seq = seq; input = cmd; state_after = state } in
    let whole = contents 64 no_entry p.history in
    let (w, f) = push_back_lem 64 no_entry e p.history v.ring in
    let number : seq ≡ (n + 1) % 2 ^ 32 = ap (λ k. (k + 1) % 2 ^ 32) v.numbered in
    record {
      ring = w;
      numbered = number;
      held =
          ap orders f
          ∙ ap (λ k. orders (drop k whole ++ e ∷ [])) {y = 0}
              (omega
                (arith, length-slots 64 no_entry p.history.data_ p.history.size p.history.head))
          ∙ orders-snoc whole e
          ∙ ap₂ (λ xs k. xs ++ (k, cmd) ∷ []) v.held number;
      here = ap (λ m. movement_step m cmd) v.here ∙ sym (after-snoc b es ((n + 1) % 2 ^ 32) cmd);
    }

-- A snapshot that is not stale.
fresh_lem :
    (p : Prediction) (snap : WorldSnapshot) (id : ℕ) (found : Option PlayerState)
    → p.last_applied_tick < snap.tick
    → find_state id snap.player_count snap.players ≡ found
    → on_snapshot snap id p
      ≡ apply_authority snap found (record p { last_applied_tick = snap.tick })
unfolding on_snapshot
fresh_lem p snap id found h e =
    if_false (leb snap.tick p.last_applied_tick) _ _ (lt→not-leb _ _ h)
    ∙ ap (λ o. apply_authority snap o (record p { last_applied_tick = snap.tick })) e

stale_lem :
    (p : Prediction) (snap : WorldSnapshot) (id : ℕ)
    → snap.tick ≤ p.last_applied_tick
    → on_snapshot snap id p ≡ p
unfolding on_snapshot
stale_lem p snap id h = if_true (leb snap.tick p.last_applied_tick) _ _ (le→leb _ _ h)

placed-IsPredicted :
    (n : ℕ) (b : PlayerMotion) (es : List (ℕ × InputCmd)) (p : Prediction) (snap : WorldSnapshot)
    (ps : PlayerState)
    → IsPredicted n b es p
    → IsPredicted n
        (record { position = ps.motion.position; velocity = no_vec })
        (unacknowledged snap.last_input_seq es)
        (reconcile snap ps p)
unfolding reconcile
placed-IsPredicted n b es p snap ps v =
    let (ring, here, held) = reconcile_lem snap ps p v.ring in
    let same = ap (unacknowledged snap.last_input_seq) v.held in
    record {
      ring = ring;
      numbered = v.numbered;
      held = held ∙ same;
      here = here ∙ ap (after _) same;
    }

-- After any ticks and snapshots the history holds exactly the inputs that the server has not
-- acknowledged, with the numbers of their ticks, and the local player stands where these, in their
-- order, take it from the place that the last applied snapshot gave. Each tick needs room in the
-- history.
pub Run-IsPredicted :
    {n : ℕ} {b : PlayerMotion} {es : List (ℕ × InputCmd)} {p : Prediction}
    → Run n b es p
    → IsPredicted n b es p
Run-IsPredicted begin = record {
  ring = record {
    some = omega arith;
    room = refl;
    head_in = omega arith;
    size_in = omega arith;
    tail_at = refl;
  };
  numbered = refl;
  held = refl;
  here = refl;
}
Run-IsPredicted (ticks {n} {b} {es} {p} cmd run room) =
    ticks-IsPredicted n b es p cmd (Run-IsPredicted run) room
Run-IsPredicted (stale {n} {b} {es} {p} snap id run h) =
    subst (IsPredicted n b es) (sym (stale_lem p snap id h)) (Run-IsPredicted run)
Run-IsPredicted (absent {n} {b} {es} {p} snap id run h e) =
    let v = Run-IsPredicted run in
    subst (IsPredicted n b es) (sym (fresh_lem p snap id none h e))
      (record { ring = v.ring; numbered = v.numbered; held = v.held; here = v.here })
Run-IsPredicted (placed {n} {b} {es} {p} snap id ps run h e) =
    let v = Run-IsPredicted run in
    subst (IsPredicted _ _ _) (sym (fresh_lem p snap id (some ps) h e)) (
      placed-IsPredicted n b es (record p { last_applied_tick = snap.tick }) snap ps
        (record { ring = v.ring; numbered = v.numbered; held = v.held; here = v.here }))
