-- ===== src/Server/NetServer/Bytes.antt =====
-- What becomes of the bytes on a TCP connection of server/net_server.cpp.
use networked_capture_the_fl.Prelude.{
  take-drop, ltb, ◌==◌, lt→ltb, not_ltb, ==_iff, Bool-cases, if_true, if_false, if-elim, length,
  take, drop, get_or-set_self, All, set-set, ℤ, pos_part, neg_part, ◌==ℤ◌, ℕ, ◌+◌, ◌≤◌, ◌<◌, ◌≡◌,
  refl, sym, ap, ◌∙◌, inl, inr, Bool, true, List, [], ◌∷◌, ◌++◌, append_assoc, arith,
}
use networked_capture_the_fl.GameTypes.Config.{tcp_frame_cap_bytes}
use networked_capture_the_fl.Framing.{drain}
use networked_capture_the_fl.Framing.Stream.{stream, handled, drain-stream}
use networked_capture_the_fl.Server.NetServer.{NetServer}
use networked_capture_the_fl.Server.NetServer.Streams.{
  Accum, of_client, of_fd, Recv, got, Send, send_failed, send_blocked, interrupted, took, accum_for,
  lookup_fd, put_fd, accum, put_accum, chunk_size, on_frame, kept_bytes, dispatch_frames,
  handle_tcp_readable, flush_loop,
}

==ℤ-same : (a : ℤ) → (a ==ℤ a) ≡ true
==ℤ-same a = (==_iff (pos_part a + neg_part a) (pos_part a + neg_part a)).1 refl

-- Whatever the system takes, the bytes that it took and those that are left are those that were
-- pending, in their order.
flush_loop_lem :
    (sends : List Send) (pending : List ℕ)
    → (flush_loop sends pending).1 ++ (flush_loop sends pending).2 ≡ pending
unfolding flush_loop
flush_loop_lem [] pending = refl
flush_loop_lem (r ∷ sends) [] = refl
flush_loop_lem (send_failed ∷ sends) (b ∷ pending) = refl
flush_loop_lem (send_blocked ∷ sends) (b ∷ pending) = refl
flush_loop_lem (interrupted ∷ sends) (b ∷ pending) = flush_loop_lem sends (b ∷ pending)
flush_loop_lem (took n ∷ sends) (b ∷ pending) =
    if-elim {A = Bool × List ℕ × List ℕ} (λ o. o.1 ++ o.2 ≡ b ∷ pending) (n == 0) _ _ (λ e. refl)
      (λ e.
        append_assoc (take n (b ∷ pending)) _ _
        ∙ ap (λ xs. take n (b ∷ pending) ++ xs) (flush_loop_lem sends (drop n (b ∷ pending)))
        ∙ take-drop n (b ∷ pending))

-- The slot of the accumulated bytes is there.
abbrev pub IsHeld : Accum → NetServer → Type 0
IsHeld (of_client id) s = id < length s.tcp_in
IsHeld (of_fd fd) s = Unit

lookup_fd-put_fd :
    (fd : ℤ) (bytes : List ℕ) (es : List (ℤ × List ℕ)) → lookup_fd fd (put_fd fd bytes es) ≡ bytes
lookup_fd-put_fd fd bytes [] = if_true (fd ==ℤ fd) _ _ (==ℤ-same fd)
lookup_fd-put_fd fd bytes ((key, old) ∷ es) =
    if-elim (λ o. lookup_fd fd o ≡ bytes) (key ==ℤ fd) _ _ (λ e. if_true (key ==ℤ fd) _ _ e)
      (λ e. if_false (key ==ℤ fd) _ _ e ∙ lookup_fd-put_fd fd bytes es)

put_fd-put_fd :
    (fd : ℤ) (new old : List ℕ) (es : List (ℤ × List ℕ))
    → put_fd fd new (put_fd fd old es) ≡ put_fd fd new es
put_fd-put_fd fd new old [] = if_true (fd ==ℤ fd) _ _ (==ℤ-same fd)
put_fd-put_fd fd new old ((key, past) ∷ es) = elim (Bool-cases (key ==ℤ fd)) [
  | inl e ↦
      ap (put_fd fd new) (if_true (key ==ℤ fd) _ _ e)
      ∙ if_true (key ==ℤ fd) _ _ e
      ∙ sym (if_true (key ==ℤ fd) _ _ e)
  | inr e ↦
      ap (put_fd fd new) (if_false (key ==ℤ fd) _ _ e)
      ∙ if_false (key ==ℤ fd) _ _ e
      ∙ ap (λ xs. (key, past) ∷ xs) (put_fd-put_fd fd new old es)
      ∙ sym (if_false (key ==ℤ fd) _ _ e)
]

accum-put_accum :
    (a : Accum) (bytes : List ℕ) (s : NetServer)
    → IsHeld a s
    → accum a (put_accum a bytes s) ≡ bytes
accum-put_accum (of_client id) bytes s h = get_or-set_self s.tcp_in id bytes [] h
accum-put_accum (of_fd fd) bytes s h = lookup_fd-put_fd fd bytes s.pre_join

put_accum-put_accum :
    (a : Accum) (new old : List ℕ) (s : NetServer)
    → put_accum a new (put_accum a old s) ≡ put_accum a new s
put_accum-put_accum (of_client id) new old s =
    ap (λ xs. record s { tcp_in = xs }) (set-set s.tcp_in id old new)
put_accum-put_accum (of_fd fd) new old s =
    ap (λ xs. record s { pre_join = xs }) (put_fd-put_fd fd new old s.pre_join)

-- A read that ends what a connection has sent as whole messages, within the cap, hands them on one by
-- one and in order, and leaves no byte behind: given that fewer bytes than the chunk has room for came
-- in, and that the slot of the connection's bytes is there.
pub handle_tcp_readable-stream :
    (now token : ℕ) (shuffle : List ℕ → List ℕ) (fd : ℤ) (s : NetServer) (ms : List (ℕ × List ℕ))
    (chunk : List ℕ) (reads : List Recv)
    → IsHeld (accum_for fd s) s
    → accum (accum_for fd s) s ++ chunk ≡ stream ms
    → length (stream ms) ≤ tcp_frame_cap_bytes
    → length chunk < chunk_size
    → All (λ (m : ℕ × List ℕ). length m.1 ≤ tcp_frame_cap_bytes) ms
    → handle_tcp_readable now token shuffle fd (got chunk ∷ reads) s
      ≡ put_accum
          (accum_for fd s)
          []
          (handled (on_frame now token shuffle fd) (put_accum (accum_for fd s) (stream ms) s) ms)
unfolding handle_tcp_readable
handle_tcp_readable-stream now token shuffle fd s ms chunk reads held whole fits short small =
    let a = accum_for fd s in
    let t = put_accum a (accum a s) s in
    let bytes : accum a t ++ chunk ≡ stream ms =
      ap (λ xs. xs ++ chunk) (accum-put_accum a (accum a s) s held) ∙ whole in
    let after : put_accum a (accum a t ++ chunk) t ≡ put_accum a (stream ms) s =
      ap (λ xs. put_accum a xs t) bytes ∙ put_accum-put_accum a (stream ms) (accum a s) s in
    ap (dispatch_frames now token shuffle fd a) (
      if_false (ltb tcp_frame_cap_bytes (length (accum a t ++ chunk))) _ _
        (not_ltb _ _ (omega (arith, ap length bytes, fits)))
      ∙ if_true (ltb (length chunk) chunk_size) _ _ (lt→ltb _ _ short)
      ∙ ap (λ o. (true, o)) after)
    ∙ ap
        (λ xs.
          kept_bytes fd a (drain (on_frame now token shuffle fd) xs (put_accum a (stream ms) s)))
        (accum-put_accum a (stream ms) s held)
    ∙ ap (kept_bytes fd a)
        (drain-stream (on_frame now token shuffle fd) ms (put_accum a (stream ms) s) small)
