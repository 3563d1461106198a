-- ===== src/RingBuffer/Laws.antt =====
-- What the operations of shared/ring_buffer.h do to the sequence of the elements.
use networked_capture_the_fl.Prelude.{
  ltb→ge, length, without, get_or, set, get_or-set_self, length-set, set-get_or, if-elim, drop, ltb,
  ◌==◌, if◌then◌else◌, ltb→lt, ==_iff, Bool-cases, if-elim, ℕ, zero, suc, ◌+◌, ◌-◌, ◌%◌, ◌≤◌, ◌<◌,
  ◌≡◌, refl, sym, ap, ap₂, subst, ◌∙◌, inl, inr, Bool, true, false, List, [], ◌∷◌, ◌++◌, append-nil,
  append_assoc, arith,
}
use networked_capture_the_fl.RingBuffer.{
  slots, RingBuffer, push_back, pop_front, remove_if, remove_loop, contents,
}
use networked_capture_the_fl.RingBuffer.Slots.{
  apart, slots-set_other, slots-snoc, slots-cong, length-slots,
}
use native.Mathlib.Nat.{mod-lt, mod-add-mod, mod-mod}

module _ {ℓ} {T : Type ℓ} (c : ℕ) (d : T) where
  -- The positions of a ring, and how they depend on each other.
  pub record IsRing (r : RingBuffer c d) : Type ℓ where
    pub some : 0 < c
    pub room : length r.data_ ≡ c
    pub head_in : r.head < c
    pub size_in : r.size ≤ c
    pub tail_at : r.tail ≡ (r.head + r.size) % c

  next_tail : (r : RingBuffer c d) → IsRing r → (r.tail + 1) % c ≡ (r.head + (r.size + 1)) % c
  next_tail r v =
      ap (λ k. (k + 1) % c) v.tail_at
      ∙ mod-add-mod (r.head + r.size) c 1
      ∙ ap (λ k. k % c) (omega arith)

  tail_in : (r : RingBuffer c d) → IsRing r → r.tail < length r.data_
  tail_in r v =
      subst (λ k. k < length r.data_) (sym v.tail_at)
        (omega (arith, v.room, mod-lt (r.head + r.size) v.some))

  -- A write at the tail, seen from a start whose `n` slots end before it.
  slots-tail :
      (item : T) (r : RingBuffer c d) (n start : ℕ)
      → IsRing r
      → n < c
      → r.tail ≡ (start + n) % c
      → slots c d (set r.data_ r.tail item) (n + 1) start ≡ slots c d r.data_ n start ++ item ∷ []
  slots-tail item r n start v h at =
      ap (λ k. slots c d (set r.data_ r.tail item) k start) {y = suc n} (omega arith)
      ∙ slots-snoc c d (set r.data_ r.tail item) n start
      ∙ ap₂ (λ xs x. xs ++ x ∷ [])
          (slots-set_other c d r.data_ n start r.tail item (λ k l e.
            apart c (start % c) (start % c + k) (start % c + n) (mod-lt start v.some) (omega arith)
              (omega arith) (omega arith)
              (mod-add-mod start c k ∙ sym e ∙ at ∙ sym (mod-add-mod start c n))))
          (ap (λ k. get_or (set r.data_ r.tail item) k d) (sym at)
            ∙ get_or-set_self r.data_ r.tail item d (tail_in r v))

  slots-drop :
      (data_ : List T) (n m start : ℕ)
      → n ≡ suc m
      → drop 1 (slots c d data_ n start) ≡ slots c d data_ m (start + 1)
  slots-drop data_ n m start e = ap (λ n. drop 1 (slots c d data_ n start)) e

  -- A push keeps a ring well formed, appends the item, and drops the oldest element if the ring is full.
  pub push_back_lem :
      (item : T) (r : RingBuffer c d)
      → IsRing r
      → let q = push_back c d item r in
        IsRing q
        × (contents c d q ≡ drop (length (contents c d r) + 1 - c) (contents c d r) ++ item ∷ [])
  unfolding push_back
  push_back_lem item r v =
      let whole = contents c d r in
      if-elim (λ q. IsRing q × (contents c d q ≡ drop (length whole + 1 - c) whole ++ item ∷ []))
        (ltb r.size c) _ _
        (λ e. (
          record {
            some = v.some;
            room = length-set _ _ _ ∙ v.room;
            head_in = v.head_in;
            size_in = omega (arith, ltb→lt _ _ e);
            tail_at = next_tail r v;
          },
          slots-tail item r r.size r.head v (ltb→lt _ _ e) v.tail_at
              ∙ ap (λ k. drop k whole ++ item ∷ []) {x = 0}
                  (omega (arith, ltb→lt _ _ e, length-slots c d r.data_ r.size r.head)),
        ))
        (λ e.
          let full : r.size ≡ c = omega (arith, ltb→ge _ _ e, v.size_in) in
          (
            record {
              some = v.some;
              room = length-set _ _ _ ∙ v.room;
              head_in = mod-lt _ v.some;
              size_in = v.size_in;
              tail_at =
                  next_tail r v
                  ∙ ap (λ k. k % c) {y = r.head + 1 + r.size} (omega arith)
                  ∙ sym (mod-add-mod (r.head + 1) c r.size);
            },
            slots-cong c d _ r.size _ _ (mod-mod (r.head + 1) c)
                ∙ ap (λ k. slots c d (set r.data_ r.tail item) k (r.head + 1)) {y = c - 1 + 1}
                    (omega (arith, v.some))
                ∙ slots-tail item r (c - 1) (r.head + 1) v (omega (arith, v.some))
                    (v.tail_at ∙ ap (λ k. k % c) (omega (arith, full, v.some)))
                ∙ ap (λ xs. xs ++ item ∷ [])
                    (sym (slots-drop r.data_ r.size (c - 1) r.head (omega (arith, v.some))))
                ∙ ap (λ k. drop k whole ++ item ∷ []) {x = 1}
                    (omega (arith, length-slots c d r.data_ r.size r.head)),
          ))

  -- A pop keeps a ring well formed and removes its oldest element, if there is one.
  pop_front_lem :
      (r : RingBuffer c d)
      → IsRing r
      → let q = pop_front c d r in IsRing q × (contents c d q ≡ drop 1 (contents c d r))
  unfolding pop_front
  pop_front_lem r v =
      if-elim (λ q. IsRing q × (contents c d q ≡ drop 1 (contents c d r))) (r.size == 0) _ _
        (λ e. (
          v,
          ap (λ k. slots c d r.data_ k r.head) {y = 0} (ground arith)
              ∙ ap (λ k. drop 1 (slots c d r.data_ k r.head)) {x = 0} (ground arith),
        ))
        (λ e.
          let more : r.size ≡ suc (r.size - 1) = ground arith in
          (
            record {
              some = v.some;
              room = v.room;
              head_in = mod-lt _ v.some;
              size_in = omega (arith, v.size_in);
              tail_at =
                  v.tail_at
                  ∙ ap (λ k. k % c) {y = r.head + 1 + (r.size - 1)} (omega (arith, more))
                  ∙ sym (mod-add-mod (r.head + 1) c (r.size - 1));
            },
            slots-cong c d _ _ _ _ (mod-mod (r.head + 1) c)
                ∙ sym (slots-drop r.data_ r.size (r.size - 1) r.head more),
          ))

  moved_lem :
      (data_ : List T) (i j : ℕ)
      → (if i == j then data_ else set data_ i (get_or data_ j d)) ≡ set data_ i (get_or data_ j d)
  moved_lem data_ i j =
      if-elim (λ xs. xs ≡ set data_ i (get_or data_ j d)) (i == j) _ _
        (λ e.
          sym (set-get_or data_ i d) ∙ ap (λ k. set data_ i (get_or data_ k d)) ((==_iff i j).0 e))
        (λ e. refl)

  -- An element that moves down to the first place that is not kept.
  kept_lem :
      (pred : T → Bool) (head n i new : ℕ) (data_ : List T) (v : T)
      → length data_ ≡ c
      → head < c
      → new ≤ i
      → i + suc n ≤ c
      → let moved = set data_ ((head + new) % c) v in
        slots c d moved (new + 1) head ++ without pred (slots c d moved n (head + (i + 1)))
        ≡ slots c d data_ new head ++ v ∷ without pred (slots c d data_ n (head + i + 1))
  kept_lem pred head n i new data_ v l h le room =
      let moved = set data_ ((head + new) % c) v in
      let first : slots c d moved (new + 1) head ≡ slots c d data_ new head ++ v ∷ [] =
        ap (λ k. slots c d moved k head) {y = suc new} (omega arith)
        ∙ slots-snoc c d moved new head
        ∙ ap₂ (λ xs x. xs ++ x ∷ [])
            (slots-set_other c d data_ new head _ v (λ k s e.
              apart c head (head + k) (head + new) h (omega arith) (omega arith) (omega arith)
                (sym e)))
            (get_or-set_self data_ _ v d
              (omega (arith, l, mod-lt (head + new) {m = c} (omega arith)))) in
      let rest : slots c d moved n (head + (i + 1)) ≡ slots c d data_ n (head + i + 1) =
        slots-set_other c d data_ n (head + (i + 1)) _ v (λ k s e.
          apart c head (head + new) (head + (i + 1) + k) h (omega arith) (omega arith) (omega arith)
            e)
        ∙ ap (slots c d data_ n) (omega arith) in
      ap₂ (λ xs ys. xs ++ without pred ys) first rest
      ∙ append_assoc (slots c d data_ new head) (v ∷ []) _

  -- The array after the loop, and the number of elements that it keeps.
  abbrev Keeps : ℕ → ℕ → List T → List T × ℕ → Type ℓ
  Keeps head most kept (out, m) = (length out ≡ c) × (m ≤ most) × (slots c d out m head ≡ kept)

  -- The loop of `remove_if`: what it kept so far, then what it keeps of the elements to come.
  remove_loop_lem :
      (pred : T → Bool) (head n i new : ℕ) (data_ : List T)
      → length data_ ≡ c
      → head < c
      → new ≤ i
      → i + n ≤ c
      → Keeps head
          (new + n)
          (slots c d data_ new head ++ without pred (slots c d data_ n (head + i)))
          (remove_loop c d pred head n i new data_)
  remove_loop_lem pred head zero i new data_ l h le room = (l, omega arith, sym (append-nil _))
  remove_loop_lem pred head (suc n) i new data_ l h le room =
      let dst = (head + new) % c in
      let v = get_or data_ ((head + i) % c) d in
      let moved = if dst == (head + i) % c then data_ else set data_ dst v in
      let rest = without pred (slots c d data_ n (head + i + 1)) in
      let Goal : Bool → List T → Type ℓ = λ b xs.
        Keeps head (new + suc n)
          (slots c d data_ new head ++ elim b [ true ↦ rest | false ↦ v ∷ rest ])
          (remove_loop c d pred head n (i + 1) (if b then new else new + 1)
            (if b then data_ else xs)) in
      elim (Bool-cases (pred v)) [
        | inl e ↦
            let (a, b, f) =
              remove_loop_lem pred head n (i + 1) new data_ l h (omega arith) (omega arith) in
            subst (λ b. Goal b moved) (sym e)
              (
                a,
                omega (arith, b),
                f
                    ∙ ap (λ s. slots c d data_ new head ++ without pred (slots c d data_ n s))
                        (omega arith),
              )
        | inr e ↦
            let (a, b, f) =
              remove_loop_lem pred head n (i + 1) (new + 1) (set data_ dst v)
                (length-set data_ dst v ∙ l) h (omega arith) (omega arith) in
            subst (λ b. Goal b moved) (sym e)
              (subst (Goal false) (sym (moved_lem data_ dst ((head + i) % c)))
                (a, omega (arith, b), f ∙ kept_lem pred head n i new data_ v l h le room))
      ]

  -- Removal by a test keeps a ring well formed, and of its elements those that the test does not name,
  -- in their order.
  pub remove_if_lem :
      (pred : T → Bool) (r : RingBuffer c d)
      → IsRing r
      → let q = remove_if c d pred r in IsRing q × (contents c d q ≡ without pred (contents c d r))
  unfolding remove_if
  remove_if_lem pred r v =
      let (a, b, e) =
        remove_loop_lem pred r.head r.size 0 0 r.data_ v.room v.head_in (omega arith)
          (omega (arith, v.size_in)) in
      (
        record {
          some = v.some;
          room = a;
          head_in = v.head_in;
          size_in = omega (arith, b, v.size_in);
          tail_at = refl;
        },
        e ∙ ap (λ s. without pred (slots c d r.data_ r.size s)) (omega arith),
      )
