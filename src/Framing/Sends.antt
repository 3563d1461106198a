-- ===== src/Framing/Sends.antt =====
-- shared/net_util.cpp: `send_all`, which sends what the socket takes.
use networked_capture_the_fl.Prelude.{
  ℕ, zero, suc, ◌+◌, ◌==◌, ltb, if◌then◌else◌, if-elim, ℤ, pos, negsuc, length, length-append, take,
  drop, take-drop, ◌≡◌, ◌∙◌, refl, sym, ap, subst, if_true, lt→ltb, ◌⊎◌, inl, inr, List, [], ◌∷◌,
  ◌++◌, append_assoc, arith,
}

-- What `send` returns: a number of bytes, of those that it is given at most; `EAGAIN`; `EINTR`; or
-- another error.
pub data SendResult : Type 0 where
  took_bytes : ℕ → SendResult
  send_is_full send_is_interrupted send_is_broken : SendResult

-- `sent > 0 ? sent : -1`
abbrev pub unless_none : ℕ → ℤ
unless_none sent = if ltb 0 sent then pos sent else negsuc 0

-- What is returned once `sent` bytes are out, and the bytes of the rest that the system takes. At
-- the end of the results the socket is full.
unfoldable pub send_rest : List SendResult → ℕ → List ℕ → ℤ × List ℕ
send_rest results sent [] = (pos sent, [])
send_rest [] sent (b ∷ bs) = (pos sent, [])
send_rest (took_bytes n ∷ results) sent (b ∷ bs) =
    let chunk = take n (b ∷ bs) in
    let rest = send_rest results (sent + length chunk) (drop n (b ∷ bs)) in
    if n == 0 then (unless_none sent, []) else (rest.0, chunk ++ rest.1)
send_rest (send_is_full ∷ results) sent (b ∷ bs) = (pos sent, [])
send_rest (send_is_interrupted ∷ results) sent (b ∷ bs) = send_rest results sent (b ∷ bs)
send_rest (send_is_broken ∷ results) sent (b ∷ bs) = (unless_none sent, [])

abbrev pub send_all : List SendResult → List ℕ → ℤ × List ℕ
send_all results buf = send_rest results 0 buf

-- What a send of `buf` may end with, once `sent` bytes are out.
pub record Reports (sent : ℕ) (buf : List ℕ) (o : ℤ × List ℕ) : Type 0 where
  pub count : (o.0 ≡ pos (sent + length o.1)) ⊎ ((o.0 ≡ negsuc 0) × (sent + length o.1 ≡ 0))
  pub left : List ℕ
  pub whole : o.1 ++ left ≡ buf

none-Reports : (sent : ℕ) (buf : List ℕ) → Reports sent buf (pos sent, [])
none-Reports sent buf = record { count = inl (ap pos (omega arith)); left = buf; whole = refl }

unless_none-Reports : (sent : ℕ) (buf : List ℕ) → Reports sent buf (unless_none sent, [])
unless_none-Reports zero buf = record { count = inr (refl, refl); left = buf; whole = refl }
unless_none-Reports (suc n) buf =
    subst (λ r. Reports (suc n) buf (r, []))
      (sym (if_true (ltb 0 (suc n)) (pos (suc n)) (negsuc 0) (lt→ltb 0 (suc n) (omega arith))))
      (none-Reports (suc n) buf)

-- A chunk that the system takes, before the rest.
took-Reports :
    (sent n : ℕ) (buf : List ℕ) (o : ℤ × List ℕ)
    → Reports (sent + length (take n buf)) (drop n buf) o
    → Reports sent buf (o.0, take n buf ++ o.1)
took-Reports sent n buf o h =
    let size = length-append (take n buf) o.1 in
    record {
      count = elim h.count [
        | inl e ↦ inl (e ∙ ap pos (omega arith))
        | inr (e, f) ↦ inr (e, omega arith)
      ];
      left = h.left;
      whole =
          append_assoc (take n buf) o.1 h.left
          ∙ ap (λ xs. take n buf ++ xs) h.whole
          ∙ take-drop n buf;
    }

send_rest-Reports :
    (results : List SendResult) (sent : ℕ) (buf : List ℕ)
    → Reports sent buf (send_rest results sent buf)
unfolding send_rest
send_rest-Reports [] sent [] = none-Reports sent []
send_rest-Reports (r ∷ results) sent [] = none-Reports sent []
send_rest-Reports [] sent (b ∷ bs) = none-Reports sent (b ∷ bs)
send_rest-Reports (took_bytes n ∷ results) sent (b ∷ bs) =
    if-elim (Reports sent (b ∷ bs)) (n == 0) _ _ (λ e. unless_none-Reports sent (b ∷ bs))
      (λ e. took-Reports sent n (b ∷ bs) _ (send_rest-Reports results _ (drop n (b ∷ bs))))
send_rest-Reports (send_is_full ∷ results) sent (b ∷ bs) = none-Reports sent (b ∷ bs)
send_rest-Reports (send_is_interrupted ∷ results) sent (b ∷ bs) =
    send_rest-Reports results sent (b ∷ bs)
send_rest-Reports (send_is_broken ∷ results) sent (b ∷ bs) = unless_none-Reports sent (b ∷ bs)

-- Whatever the socket does, the bytes that it takes are the first ones of the buffer, and the result
-- is their number, or -1, and that only if it took none.
pub send_all-Reports :
    (results : List SendResult) (buf : List ℕ) → Reports 0 buf (send_all results buf)
send_all-Reports results buf = send_rest-Reports results 0 buf
