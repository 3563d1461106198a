-- ===== src/Server/Sim/InputRing.antt =====
-- The ring of inputs that server/sim.cpp keeps for each player, as the queue that it stands for.
use networked_capture_the_fl.Prelude.{
  ltb, ◌==◌, if◌then◌else◌, lt→ltb, not_ltb, ==_iff, if_true, if_false, if-elim, length, get_or,
  set, drop, length-set, ℕ, zero, suc, ◌+◌, ◌-◌, ◌%◌, ◌≤◌, ◌<◌, ◌≡◌, refl, sym, ap, ap₂, subst, ◌∙◌,
  Bool, true, false, List, [], ◌∷◌, ◌++◌, arith,
}
use networked_capture_the_fl.GameTypes.{InputCmd, no_input}
use networked_capture_the_fl.GameTypes.Config.{input_ring_size}
use networked_capture_the_fl.RingBuffer.{slots, RingBuffer, push_back, contents}
use networked_capture_the_fl.RingBuffer.Laws.{IsRing, push_back_lem}
use networked_capture_the_fl.RingBuffer.Slots.{slots-cong}
use networked_capture_the_fl.Server.Sim.{Player}
use networked_capture_the_fl.Server.Sim.Roster.{push_input}
use networked_capture_the_fl.Server.Sim.Inputs.{popped}
use native.Mathlib.Nat.{mod-lt, mod-add-mod, mod-mod}

-- The sequence numbers and the inputs that wait, oldest first.
abbrev pub queued_seqs : Player → List ℕ
queued_seqs p = slots input_ring_size 0 p.seqs p.ring_count p.ring_head

abbrev pub queued_inputs : Player → List InputCmd
queued_inputs p = slots input_ring_size no_input p.ring p.ring_count p.ring_head

-- The numbers rise from above `low` to at most `high`.
abbrev pub Rises : ℕ → List ℕ → ℕ → Type 0
Rises low [] high = low ≤ high
Rises low (x ∷ xs) high = (low < x) × Rises x xs high

-- A ring within its arrays, whose numbers rise from the acknowledged one to the newest one.
pub record IsQueue (ring : List InputCmd) (seqs : List ℕ) (head count last newest : ℕ)
    : Type 0 where
  pub head_in : head < input_ring_size
  pub count_in : count ≤ input_ring_size
  pub ring_room : length ring ≡ input_ring_size
  pub seqs_room : length seqs ≡ input_ring_size
  pub rises : Rises last (slots input_ring_size 0 seqs count head) newest

module _ {ℓ} {T : Type ℓ} (d : T) (data_ : List T) (head count : ℕ) (item : T)
    (room : length data_ ≡ input_ring_size) (head_in : head < input_ring_size)
    (count_in : count ≤ input_ring_size) where
  abbrev as_ring : RingBuffer input_ring_size d
  as_ring = record {
    data_ = data_;
    head = head;
    tail = (head + count) % input_ring_size;
    size = count;
  }

  as_ring-IsRing : IsRing input_ring_size d as_ring
  as_ring-IsRing = record {
    some = omega arith;
    room = room;
    head_in = head_in;
    size_in = count_in;
    tail_at = refl;
  }

  abbrev grown : List T
  grown =
      let old = slots input_ring_size d data_ count head in
      drop (length old + 1 - input_ring_size) old ++ item ∷ []

  abbrev new_head : Bool → ℕ
  new_head is_full = if is_full then (head + 1) % input_ring_size else head

  abbrev new_count : Bool → ℕ
  new_count is_full = if is_full then count - 1 else count

  slots-push :
      (is_full : Bool)
      → (count == input_ring_size) ≡ is_full
      → slots input_ring_size d
          (set data_ ((new_head is_full + new_count is_full) % input_ring_size) item)
          (new_count is_full + 1)
          (new_head is_full)
        ≡ grown
  unfolding push_back
  slots-push false e =
      let less : count < input_ring_size = ground arith in
      sym (
        ap (contents input_ring_size d)
          (if_true (ltb count input_ring_size) _ _ (lt→ltb count input_ring_size less)))
      ∙ (push_back_lem input_ring_size d item as_ring as_ring-IsRing).1
  slots-push true e =
      let full : count ≡ input_ring_size = (==_iff count input_ring_size).0 e in
      ap₂ (λ i n. slots input_ring_size d (set data_ i item) n ((head + 1) % input_ring_size))
        (mod-add-mod (head + 1) input_ring_size (count - 1)
          ∙ ap (λ k. k % input_ring_size) (omega (arith, full)))
        (omega (arith, full))
      ∙ sym (
          ap (contents input_ring_size d) (
            if_false (ltb count input_ring_size) _ _
              (not_ltb count input_ring_size (omega (arith, full)))))
      ∙ (push_back_lem input_ring_size d item as_ring as_ring-IsRing).1

-- An input that arrives is put behind those that wait, its number with it; of eight that wait the
-- oldest is dropped, given a ring within its arrays.
pub push_input_lem :
    (seq : ℕ) (input : InputCmd) (p : Player)
    → IsQueue p.ring p.seqs p.ring_head p.ring_count p.last_input_seq p.newest_seq
    → let q = push_input seq input p in
      (queued_seqs q
        ≡ drop (length (queued_seqs p) + 1 - input_ring_size) (queued_seqs p) ++ seq ∷ [])
      × (queued_inputs q
          ≡ drop (length (queued_inputs p) + 1 - input_ring_size) (queued_inputs p) ++ input ∷ [])
unfolding push_input
push_input_lem seq input p v = (
  slots-push 0 p.seqs p.ring_head p.ring_count seq v.seqs_room v.head_in v.count_in
      (p.ring_count == input_ring_size) refl,
  slots-push no_input p.ring p.ring_head p.ring_count input v.ring_room v.head_in v.count_in
      (p.ring_count == input_ring_size) refl,
)

Rises-le : (low : ℕ) (xs : List ℕ) (high : ℕ) → Rises low xs high → low ≤ high
Rises-le low [] high h = h
Rises-le low (x ∷ xs) high (l, h) = omega (arith, Rises-le x xs high h)

Rises-lower : (k low : ℕ) (xs : List ℕ) (high : ℕ) → k ≤ low → Rises low xs high → Rises k xs high
Rises-lower k low [] high h r = omega arith
Rises-lower k low (x ∷ xs) high h (l, r) = (omega arith, r)

Rises-drop : (n low : ℕ) (xs : List ℕ) (high : ℕ) → Rises low xs high → Rises low (drop n xs) high
Rises-drop zero low xs high r = r
Rises-drop (suc n) low [] high r = r
Rises-drop (suc n) low (x ∷ xs) high (l, r) =
    Rises-lower low x (drop n xs) high (omega arith) (Rises-drop n x xs high r)

Rises-snoc :
    (low : ℕ) (xs : List ℕ) (high v : ℕ) → Rises low xs high → high < v → Rises low (xs ++ v ∷ []) v
Rises-snoc low [] high v r h = (omega arith, omega arith)
Rises-snoc low (x ∷ xs) high v (l, r) h = (l, Rises-snoc x xs high v r h)

wrapped : (n : ℕ) → n % input_ring_size < input_ring_size
wrapped n = mod-lt n (omega arith)

pub push_input-IsQueue :
    (seq : ℕ) (input : InputCmd) (p : Player)
    → p.newest_seq < seq
    → IsQueue p.ring p.seqs p.ring_head p.ring_count p.last_input_seq p.newest_seq
    → let q = push_input seq input p in
      IsQueue q.ring q.seqs q.ring_head q.ring_count q.last_input_seq q.newest_seq
unfolding push_input
push_input-IsQueue seq input p newer v = record {
  head_in =
      if-elim (λ n. n < input_ring_size) (p.ring_count == input_ring_size) _ _
        (λ e. wrapped (p.ring_head + 1)) (λ e. v.head_in);
  count_in = ground (arith, v.count_in);
  ring_room = length-set p.ring _ input ∙ v.ring_room;
  seqs_room = length-set p.seqs _ seq ∙ v.seqs_room;
  rises =
      subst (λ xs. Rises p.last_input_seq xs seq) (sym (push_input_lem seq input p v).0)
        (Rises-snoc _ _ p.newest_seq seq (Rises-drop _ _ _ p.newest_seq v.rises) newer);
}

pop-slots {ℓ} :
    {T : Type ℓ} (d : T) (data_ : List T) (head count : ℕ)
    → head < input_ring_size
    → 0 < count
    → slots input_ring_size d data_ count head
      ≡ get_or data_ head d
        ∷ slots input_ring_size d data_ (count - 1) ((head + 1) % input_ring_size)
pop-slots d data_ head count h filled =
    ap (λ n. slots input_ring_size d data_ n head) {y = suc (count - 1)} (omega arith)
    ∙ ap₂ (λ i xs. get_or data_ i d ∷ xs) (omega arith)
        (slots-cong input_ring_size d data_ (count - 1) (head + 1) ((head + 1) % input_ring_size)
          (sym (mod-mod (head + 1) input_ring_size)))

-- The oldest input that waits leaves the ring and is acknowledged, given a ring within its arrays
-- and not empty.
pub popped_lem :
    (p : Player)
    → IsQueue p.ring p.seqs p.ring_head p.ring_count p.last_input_seq p.newest_seq
    → 0 < p.ring_count
    → (queued_seqs p ≡ (popped p).last_input_seq ∷ queued_seqs (popped p))
      × (queued_inputs p ≡ get_or p.ring p.ring_head no_input ∷ queued_inputs (popped p))
popped_lem p v filled = (
  pop-slots 0 p.seqs p.ring_head p.ring_count v.head_in filled,
  pop-slots no_input p.ring p.ring_head p.ring_count v.head_in filled,
)

pub popped-IsQueue :
    (p : Player)
    → IsQueue p.ring p.seqs p.ring_head p.ring_count p.last_input_seq p.newest_seq
    → 0 < p.ring_count
    → let q = popped p in
      IsQueue q.ring q.seqs q.ring_head q.ring_count q.last_input_seq q.newest_seq
popped-IsQueue p v filled = record {
  head_in = wrapped (p.ring_head + 1);
  count_in = omega (arith, v.count_in);
  ring_room = v.ring_room;
  seqs_room = v.seqs_room;
  rises =
      (subst (λ xs. Rises p.last_input_seq xs p.newest_seq) (popped_lem p v filled).0 v.rises).1;
}
