-- ===== src/Server/Registry/Laws.antt =====
-- The registry of server/client_registry.cpp is a finite map with compact identifiers.
use networked_capture_the_fl.Prelude.{
  lt→not-leb, not-true, not-false, ltb→ge, if-elim, length, get_or, set, get_or-set_self,
  get_or-set_ne, length-append, length-set, ltb, leb, ◌==◌, if◌then◌else◌, ltb→lt, lt→ltb, not_ltb,
  and_left, ==_iff, if_true, if_false, ℤ, ◌==ℤ◌, ℕ, zero, suc, ◌≤◌, ◌<◌, ◌≡◌, refl, sym, ap, subst,
  ◌∙◌, true, false, not, ◌&&◌, Option, none, some, List, [], ◌∷◌, ◌++◌, arith, dec_lt,
}
use networked_capture_the_fl.GameTypes.Config.{max_players}
use networked_capture_the_fl.Server.Registry.{
  ClientEntry, free_fd, no_client, is_live, first_free, live_count, new_client, add, remove,
  find_by_id,
}

-- An entry, if its slot is in use.
found : ClientEntry → Option ClientEntry
found e = if is_live e then some e else none

pub get_or_past :
    (es : List ClientEntry) (i : ℕ) → length es ≤ i → get_or es i no_client ≡ no_client
get_or_past [] i h = refl
get_or_past (e ∷ es) zero h = absurd (omega arith)
get_or_past (e ∷ es) (suc i) h = get_or_past es i (omega arith)

pub get_or-snoc :
    (es : List ClientEntry) (i : ℕ)
    → get_or (es ++ no_client ∷ []) i no_client ≡ get_or es i no_client
get_or-snoc [] zero = refl
get_or-snoc [] (suc i) = refl
get_or-snoc (e ∷ es) zero = refl
get_or-snoc (e ∷ es) (suc i) = get_or-snoc es i

find_by_id-found : (j : ℕ) (es : List ClientEntry) → find_by_id j es ≡ found (get_or es j no_client)
unfolding find_by_id found
find_by_id-found j es = elim (dec_lt j (length es)) [
  | yes h ↦
      ap (λ b. if b && is_live (get_or es j no_client) then some (get_or es j no_client) else none)
        (lt→ltb _ _ h)
  | no h ↦
      ap (λ b. if b && is_live (get_or es j no_client) then some (get_or es j no_client) else none)
        (not_ltb _ _ (omega arith))
      ∙ sym (ap found (get_or_past es j (omega arith)))
]

-- What a write to a slot does to a lookup.
find_by_id-set :
    (i j : ℕ) (es fs : List ClientEntry) (e : ClientEntry)
    → i < length es
    → get_or es j no_client ≡ get_or fs j no_client
    → find_by_id j (set es i e) ≡ (if j == i then found e else find_by_id j fs)
find_by_id-set i j es fs e h same =
    find_by_id-found j (set es i e)
    ∙ if-elim (λ o. found (get_or (set es i e) j no_client) ≡ o) (j == i) _ _
        (λ k.
          ap (λ n. found (get_or (set es i e) n no_client)) ((==_iff j i).0 k)
          ∙ ap found (get_or-set_self es i e no_client h))
        (λ k.
          ap found (get_or-set_ne es i j e no_client (ground arith) ∙ same)
          ∙ sym (find_by_id-found j fs))

pub first_free-le : (es : List ClientEntry) → first_free es ≤ length es
first_free-le [] = omega arith
first_free-le (e ∷ es) = ground (arith, first_free-le es)

live_below :
    (es : List ClientEntry) (j : ℕ) → j < first_free es → is_live (get_or es j no_client) ≡ true
live_below [] j h = absurd (omega arith)
live_below (e ∷ es) zero h = ground arith
live_below (e ∷ es) (suc j) h = ground (arith, live_below es j)

pub first_free-fresh :
    (es : List ClientEntry) → is_live (get_or es (first_free es) no_client) ≡ false
first_free-fresh [] = refl
first_free-fresh (e ∷ es) =
    if-elim (λ n. is_live (get_or (e ∷ es) n no_client) ≡ false) (is_live e) (suc (first_free es)) 0
      (λ h. first_free-fresh es) (λ h. h)

all_live : (es : List ClientEntry) → first_free es ≡ length es → live_count es ≡ length es
all_live [] h = refl
all_live (e ∷ es) h = ground (arith, all_live es, first_free-le es)

live_count-snoc : (es : List ClientEntry) → live_count (es ++ no_client ∷ []) ≡ live_count es
live_count-snoc [] = refl
live_count-snoc (e ∷ es) = ground (arith, live_count-snoc es)

-- The storage with a slot for the new entry.
record IsGrown (es gs : List ClientEntry) : Type 0 where
  live : live_count gs ≡ live_count es
  inside : first_free es < length gs
  few : length gs ≤ max_players
  same : (j : ℕ) → get_or gs j no_client ≡ get_or es j no_client

grown_lem :
    (es : List ClientEntry)
    → length es ≤ max_players
    → live_count es < max_players
    → IsGrown es (if not (ltb (first_free es) (length es)) then es ++ no_client ∷ [] else es)
grown_lem es few room =
    if-elim (IsGrown es) (not (ltb (first_free es) (length es))) _ es
      (λ e.
        let past = ltb→ge (first_free es) (length es) (not-true _ e) in
        let at_end : first_free es ≡ length es = omega (arith, past, first_free-le es) in
        record {
          live = live_count-snoc es;
          inside = omega (arith, at_end, length-append es (no_client ∷ []));
          few = omega (arith, all_live es at_end, length-append es (no_client ∷ []));
          same = get_or-snoc es;
        })
      (λ e. record {
        live = refl;
        inside = ltb→lt (first_free es) (length es) (not-false _ e);
        few = few;
        same = λ j. refl;
      })

has_room :
    (es : List ClientEntry)
    → live_count es < max_players
    → not (ltb (first_free es) (length es)) && leb max_players (length es) ≡ false
has_room es room = elim (dec_lt (first_free es) (length es)) [
  | yes h ↦ ground arith
  | no h ↦
      let at_end : first_free es ≡ length es = omega (arith, first_free-le es) in
      let full = all_live es at_end in ground arith
]

-- With at most ten slots, fewer than ten clients connected, and a descriptor that is not the mark of
-- a free slot, a client is given an identifier that is not in use, below which all are,
-- under which it is found from then on, while every other lookup stays as it was.
pub add_lem :
    (tcp_fd : ℤ) (name : List ℕ) (es : List ClientEntry)
    → length es ≤ max_players
    → live_count es < max_players
    → (tcp_fd ==ℤ free_fd) ≡ false
    → let (o, fs) = add tcp_fd name es in
      let id = first_free es in
      (o ≡ some id)
      × (length fs ≤ max_players)
      × (is_live (get_or es id no_client) ≡ false)
      × ((j : ℕ) → j < id → is_live (get_or es j no_client) ≡ true)
      × ((j : ℕ)
          → find_by_id j fs
            ≡ (if j == id then some (new_client id tcp_fd name) else find_by_id j es))
unfolding add found
add_lem tcp_fd name es few room real =
    let id = first_free es in
    let gs = if not (ltb id (length es)) then es ++ no_client ∷ [] else es in
    let e = new_client id tcp_fd name in
    let g = grown_lem es few room in
    let adds : add tcp_fd name es ≡ (some id, set gs id e) =
      if_false (not (ltb id (length es)) && leb max_players (length es)) _ _ (has_room es room)
      ∙ if_false (leb max_players (live_count gs)) _ _ (lt→not-leb _ _ (omega (arith, g.live))) in
    subst
      (λ (p : Option ℕ × List ClientEntry).
        (p.0 ≡ some id)
        × (length p.1 ≤ max_players)
        × (is_live (get_or es id no_client) ≡ false)
        × ((j : ℕ) → j < id → is_live (get_or es j no_client) ≡ true)
        × ((j : ℕ) → find_by_id j p.1 ≡ (if j == id then some e else find_by_id j es)))
      (sym adds)
      (
        refl,
        omega (arith, g.few, length-set gs id e),
        first_free-fresh es,
        live_below es,
        (λ j.
            find_by_id-set id j gs es e g.inside (g.same j)
            ∙ ap (λ o. if j == id then o else find_by_id j es)
                (if_true (not (tcp_fd ==ℤ free_fd)) (some e) none (ground arith))),
      )

absent :
    (id : ℕ) (es : List ClientEntry)
    → ltb id (length es) && is_live (get_or es id no_client) ≡ false
    → find_by_id id es ≡ none
unfolding find_by_id
absent id es e = if_false (ltb id (length es) && is_live (get_or es id no_client)) _ _ e

-- A removed client is found no more, and every other lookup stays as it was.
pub remove_lem :
    (id : ℕ) (es : List ClientEntry)
    → let fs = remove id es in
      (length fs ≡ length es)
      × ((j : ℕ) → find_by_id j fs ≡ (if j == id then none else find_by_id j es))
unfolding remove found
remove_lem id es =
    if-elim
      (λ fs.
        (length fs ≡ length es)
        × ((j : ℕ) → find_by_id j fs ≡ (if j == id then none else find_by_id j es)))
      (ltb id (length es) && is_live (get_or es id no_client)) _ es
      (λ e. (
        length-set es id no_client,
        (λ j. find_by_id-set id j es es no_client (ltb→lt _ _ (and_left _ _ e)) refl),
      ))
      (λ e. (
        refl,
        (λ j.
            if-elim (λ o. find_by_id j es ≡ o) (j == id) none _
              (λ k. ap (λ n. find_by_id n es) ((==_iff j id).0 k) ∙ absent id es e) (λ k. refl)),
      ))
