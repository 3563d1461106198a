-- ===== src/Framing/Stream.antt =====
-- Streams of frames: how a stream is split over reads does not matter, and every frame arrives.
use networked_capture_the_fl.Prelude.{
  length, drop, take, length-take, All, ℕ, zero, suc, ◌+◌, ◌%◌, ◌≤◌, ◌≡◌, refl, sym, ap, ◌∙◌,
  Option, some, List, [], ◌∷◌, ◌++◌, append-nil, append_assoc, arith,
}
use networked_capture_the_fl.Framing.{
  Framed, announced, recv_framed, tcp_frame, advance, drain_loop, drain, receive, receive_all,
  oversize, frame,
}
use networked_capture_the_fl.Framing.Laws.{
  short, partial, huge, whole, received, short_lem, whole-append, huge-append, drop-append,
  length-drop, recv_framed-tcp_frame,
}

drop-exact : (xs ys : List ℕ) → drop (length xs) (xs ++ ys) ≡ ys
drop-exact [] ys = refl
drop-exact (x ∷ xs) ys = drop-exact xs ys

drop-tcp_frame :
    (type : ℕ) (payload rest : List ℕ)
    → drop (3 + length payload) (tcp_frame type payload ++ rest) ≡ rest
unfolding tcp_frame
drop-tcp_frame type payload rest =
    ap (λ k. drop k (tcp_frame type payload ++ rest)) {y = suc (suc (suc (length payload)))}
      (omega arith)
    ∙ drop-exact payload rest

-- The chunks of a stream, put together.
abbrev pub concat : List (List ℕ) → List ℕ
concat [] = []
concat (c ∷ cs) = c ++ concat cs

-- The messages that a peer sends.
abbrev pub stream : List (ℕ × List ℕ) → List ℕ
stream [] = []
stream ((type, payload) ∷ ms) = tcp_frame type payload ++ stream ms

module _ {ℓ} {S : Type ℓ} (dispatch : ℕ → List ℕ → S → S) where
  step : (fuel : ℕ) (buf : List ℕ) (s : S) → Framed → Option (List ℕ) × S
  step fuel buf s = advance dispatch (drain_loop dispatch fuel) buf s

  -- Enough fuel is as good as more.
  drain_fuel :
      (f g : ℕ) (buf : List ℕ) (s : S)
      → length buf ≤ f
      → length buf ≤ g
      → drain_loop dispatch f buf s ≡ drain_loop dispatch g buf s
  unfolding drain_loop step
  drain_fuel zero zero buf s a b = refl
  drain_fuel zero (suc g) buf s a b = sym (ap (step g buf s) (short_lem buf (omega arith)))
  drain_fuel (suc f) zero buf s a b = ap (step f buf s) (short_lem buf (omega arith))
  drain_fuel (suc f) (suc g) buf s a b = elim (received buf) [
    | short h e ↦ ap (step f buf s) e ∙ sym (ap (step g buf s) e)
    | partial h k n e ↦ ap (step f buf s) e ∙ sym (ap (step g buf s) e)
    | huge h n e ↦ ap (step f buf s) e ∙ sym (ap (step g buf s) e)
    | whole h n e ↦
        ap (step f buf s) e
        ∙ drain_fuel f g _ _
            (omega (arith, length-drop (3 + length (take (announced buf) (drop 3 buf))) buf))
            (omega (arith, length-drop (3 + length (take (announced buf) (drop 3 buf))) buf))
        ∙ sym (ap (step g buf s) e)
  ]

  -- One turn of the loop, with fuel for the bytes that are left.
  drain_turn :
      (buf : List ℕ) (s : S) (o : Framed)
      → recv_framed buf ≡ o
      → drain dispatch buf s ≡ advance dispatch (drain_loop dispatch (length buf)) buf s o
  unfolding drain_loop step
  drain_turn buf s o e =
      drain_fuel (length buf) (suc (length buf)) buf s (omega arith) (omega arith)
      ∙ ap (step (length buf) buf s) e

  drain_frame :
      (buf rest payload : List ℕ) (s : S) (type : ℕ)
      → recv_framed buf ≡ frame type payload
      → drop (3 + length payload) buf ≡ rest
      → drain dispatch buf s ≡ drain dispatch rest (dispatch type payload s)
  drain_frame buf rest payload s type e d =
      drain_turn buf s _ e
      ∙ ap (λ xs. drain_loop dispatch (length buf) xs (dispatch type payload s)) d
      ∙ drain_fuel (length buf) (length rest) rest _
          (omega (arith, ap length d, length-drop (3 + length payload) buf)) (omega arith)

  drain-append :
      (fuel : ℕ) (xs ys : List ℕ) (s : S)
      → length xs ≤ fuel
      → drain dispatch (xs ++ ys) s ≡ receive dispatch (drain_loop dispatch fuel xs s) ys
  unfolding drain_loop step
  drain-append zero xs ys s h = refl
  drain-append (suc fuel) xs ys s h =
      let read : Framed → Option (List ℕ) × S = λ o. receive dispatch (step fuel xs s o) ys in
      elim (received xs) [
        | short k e ↦ sym (ap read e)
        | partial k m n e ↦ sym (ap read e)
        | huge k n e ↦ drain_turn (xs ++ ys) s oversize (huge-append xs ys k n) ∙ sym (ap read e)
        | whole k n e ↦
            let taken = 3 + length (take (announced xs) (drop 3 xs)) in
            drain_frame (xs ++ ys) (drop taken xs ++ ys) _ s _ (whole-append xs ys k n) (
              drop-append taken xs ys
                (omega (arith, length-take (announced xs) (drop 3 xs), length-drop 3 xs)))
            ∙ drain-append fuel (drop taken xs) ys _ (omega (arith, length-drop taken xs))
            ∙ sym (ap read e)
      ]

  receive_all-drain :
      (chunks : List (List ℕ)) (past : List ℕ) (s : S)
      → receive_all dispatch (drain dispatch past s) chunks
        ≡ drain dispatch (past ++ concat chunks) s
  receive_all-drain [] past s = ap (λ xs. drain dispatch xs s) (sym (append-nil past))
  receive_all-drain (c ∷ cs) past s =
      ap (λ o. receive_all dispatch o cs) (sym (drain-append (length past) past c s (omega arith)))
      ∙ receive_all-drain cs (past ++ c) s
      ∙ ap (λ xs. drain dispatch xs s) (append_assoc past c (concat cs))

  -- A receiver that reads a stream in chunks, however it is split, ends as one that reads it at
  -- once: with the same state, with the same bytes left, or giving up the connection alike.
  pub receive_all-concat :
      (chunks : List (List ℕ)) (s : S)
      → receive_all dispatch (some [], s) chunks ≡ drain dispatch (concat chunks) s
  unfolding drain_loop
  receive_all-concat chunks s = receive_all-drain chunks [] s

  -- What a receiver makes of the messages of a stream.
  abbrev pub handled : S → List (ℕ × List ℕ) → S
  handled s [] = s
  handled s ((type, payload) ∷ ms) = handled (dispatch (type % 256) payload s) ms

  pub drain-stream :
      (ms : List (ℕ × List ℕ)) (s : S)
      → All (λ m. length m.1 ≤ 4096) ms
      → drain dispatch (stream ms) s ≡ (some [], handled s ms)
  unfolding drain_loop
  drain-stream [] s h = refl
  drain-stream ((type, payload) ∷ ms) s h =
      drain_frame (tcp_frame type payload ++ stream ms) (stream ms) payload s (type % 256)
        (recv_framed-tcp_frame type payload (stream ms) h.0)
        (drop-tcp_frame type payload (stream ms))
      ∙ drain-stream ms (dispatch (type % 256) payload s) h.1

  -- Messages of at most 4096 bytes, however their stream is split over reads, are handed on one by
  -- one, whole and in order, and no byte is left over.
  pub receive_all-stream :
      (ms : List (ℕ × List ℕ)) (chunks : List (List ℕ)) (s : S)
      → All (λ m. length m.1 ≤ 4096) ms
      → concat chunks ≡ stream ms
      → receive_all dispatch (some [], s) chunks ≡ (some [], handled s ms)
  receive_all-stream ms chunks s h e =
      receive_all-concat chunks s ∙ ap (λ xs. drain dispatch xs s) e ∙ drain-stream ms s h
