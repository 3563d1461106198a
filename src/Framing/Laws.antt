-- ===== src/Framing/Laws.antt =====
-- How a stream is split over reads does not matter, and every frame that is sent arrives.
use networked_capture_the_fl.Prelude.{
  length, get_or, drop, take, length-append, ltb, ltb→lt, lt→ltb, not_ltb, Bool-cases, if_true,
  if_false, ltb→ge, ℕ, zero, suc, ◌+◌, ◌-◌, ◌*◌, ◌%◌, ◌≤◌, ◌<◌, ◌≡◌, refl, ap, ap₂, ◌∙◌, inl, inr,
  List, [], ◌∷◌, ◌++◌, arith,
}
use networked_capture_the_fl.Framing.{
  announced, recv_framed, tcp_frame, incomplete, oversize, frame,
}

-- The branches of `recv_framed`.
pub data Received (buf : List ℕ) : Type 0 where
  short : length buf < 3 → recv_framed buf ≡ incomplete → Received buf
  partial :
      3 ≤ length buf
      → length buf < 3 + announced buf
      → announced buf ≤ 4096
      → recv_framed buf ≡ incomplete
      → Received buf
  huge : 3 ≤ length buf → 4096 < announced buf → recv_framed buf ≡ oversize → Received buf
  whole :
      3 + announced buf ≤ length buf
      → announced buf ≤ 4096
      → recv_framed buf ≡ frame (get_or buf 2 0) (take (announced buf) (drop 3 buf))
      → Received buf

pub received : (buf : List ℕ) → Received buf
unfolding recv_framed
received buf = elim (Bool-cases (ltb (length buf) 3)) [
  | inl a ↦ short (ltb→lt _ _ a) (if_true (ltb (length buf) 3) _ _ a)
  | inr a ↦ elim (Bool-cases (ltb 4096 (announced buf))) [
    | inl b ↦
        huge (ltb→ge _ _ a) (ltb→lt _ _ b)
          (if_false (ltb (length buf) 3) _ _ a ∙ if_true (ltb 4096 (announced buf)) _ _ b)
    | inr b ↦
        let past =
          if_false (ltb (length buf) 3) _ _ a ∙ if_false (ltb 4096 (announced buf)) _ _ b in
        elim (Bool-cases (ltb (length buf) (3 + announced buf))) [
          | inl c ↦
              partial (ltb→ge _ _ a) (ltb→lt _ _ c) (ltb→ge _ _ b)
                (past ∙ if_true (ltb (length buf) (3 + announced buf)) _ _ c)
          | inr c ↦
              whole (ltb→ge _ _ c) (ltb→ge _ _ b)
                (past ∙ if_false (ltb (length buf) (3 + announced buf)) _ _ c)
        ]
  ]
]

get_or-append : (xs ys : List ℕ) (i : ℕ) → i < length xs → get_or (xs ++ ys) i 0 ≡ get_or xs i 0
get_or-append [] ys i h = absurd (omega arith)
get_or-append (x ∷ xs) ys zero h = refl
get_or-append (x ∷ xs) ys (suc i) h = get_or-append xs ys i (omega arith)

pub drop-append : (n : ℕ) (xs ys : List ℕ) → n ≤ length xs → drop n (xs ++ ys) ≡ drop n xs ++ ys
drop-append zero xs ys h = refl
drop-append (suc n) [] ys h = absurd (omega arith)
drop-append (suc n) (x ∷ xs) ys h = drop-append n xs ys (omega arith)

take-append : (n : ℕ) (xs ys : List ℕ) → n ≤ length xs → take n (xs ++ ys) ≡ take n xs
take-append zero xs ys h = refl
take-append (suc n) [] ys h = absurd (omega arith)
take-append (suc n) (x ∷ xs) ys h = ap (λ zs. x ∷ zs) (take-append n xs ys (omega arith))

pub length-drop : (n : ℕ) (xs : List ℕ) → length (drop n xs) ≡ length xs - n
length-drop zero xs = omega arith
length-drop (suc n) [] = omega arith
length-drop (suc n) (x ∷ xs) = length-drop n xs ∙ omega arith

take-all : (xs : List ℕ) → take (length xs) xs ≡ xs
take-all [] = refl
take-all (x ∷ xs) = ap (λ zs. x ∷ zs) (take-all xs)

announced-append : (xs ys : List ℕ) → 3 ≤ length xs → announced (xs ++ ys) ≡ announced xs
announced-append xs ys h =
    ap₂ (λ a b. a * 256 + b) (get_or-append xs ys 0 (omega arith))
      (get_or-append xs ys 1 (omega arith))

pub short_lem : (buf : List ℕ) → length buf < 3 → recv_framed buf ≡ incomplete
unfolding recv_framed
short_lem buf h = if_true (ltb (length buf) 3) _ _ (lt→ltb _ _ h)

pub huge_lem : (buf : List ℕ) → 3 ≤ length buf → 4096 < announced buf → recv_framed buf ≡ oversize
unfolding recv_framed
huge_lem buf h b =
    if_false (ltb (length buf) 3) _ _ (not_ltb _ _ h)
    ∙ if_true (ltb 4096 (announced buf)) _ _ (lt→ltb _ _ b)

pub whole_lem :
    (buf : List ℕ)
    → 3 + announced buf ≤ length buf
    → announced buf ≤ 4096
    → recv_framed buf ≡ frame (get_or buf 2 0) (take (announced buf) (drop 3 buf))
unfolding recv_framed
whole_lem buf h n =
    if_false (ltb (length buf) 3) _ _ (not_ltb _ _ (omega arith))
    ∙ if_false (ltb 4096 (announced buf)) _ _ (not_ltb _ _ n)
    ∙ if_false (ltb (length buf) (3 + announced buf)) _ _ (not_ltb _ _ h)

-- More bytes change neither a frame nor an oversize one.
pub whole-append :
    (xs ys : List ℕ)
    → 3 + announced xs ≤ length xs
    → announced xs ≤ 4096
    → recv_framed (xs ++ ys) ≡ frame (get_or xs 2 0) (take (announced xs) (drop 3 xs))
whole-append xs ys h n =
    let same = announced-append xs ys (omega arith) in
    whole_lem (xs ++ ys) (omega (arith, same, length-append xs ys)) (omega (arith, same))
    ∙ ap₂ frame (get_or-append xs ys 2 (omega arith)) (
        ap₂ take same (drop-append 3 xs ys (omega arith))
        ∙ take-append (announced xs) (drop 3 xs) ys (omega (arith, length-drop 3 xs)))

pub huge-append :
    (xs ys : List ℕ) → 3 ≤ length xs → 4096 < announced xs → recv_framed (xs ++ ys) ≡ oversize
huge-append xs ys h b =
    huge_lem (xs ++ ys) (omega (arith, length-append xs ys))
      (omega (arith, announced-append xs ys h))

-- A frame that was sent, and what follows it.
pub recv_framed-tcp_frame :
    (type : ℕ) (payload rest : List ℕ)
    → length payload ≤ 4096
    → recv_framed (tcp_frame type payload ++ rest) ≡ frame (type % 256) payload
unfolding tcp_frame
recv_framed-tcp_frame type payload rest h =
    let buf = tcp_frame type payload ++ rest in
    let n : announced buf ≡ length payload = omega arith in
    whole_lem buf (omega (arith, n, length-append payload rest)) (omega (arith, n))
    ∙ ap (frame (type % 256)) (
        ap (λ k. take k (payload ++ rest)) n
        ∙ take-append (length payload) payload rest (omega arith)
        ∙ take-all payload)
