-- ===== src/Server/NetServer/Reads.antt =====
-- What the calls on a TCP connection of server/net_server.cpp keep, and what becomes of what is read.
use networked_capture_the_fl.Prelude.{
  ltb, ◌==◌, if-elim, length, ℤ, ◌==ℤ◌, ℕ, zero, suc, ◌≡◌, refl, ap, Bool, true, false, not, Option,
  none, some, List, [], ◌∷◌, ◌++◌,
}
use networked_capture_the_fl.ByteBuffer.{reader}
use networked_capture_the_fl.Protocol.Handshake.{decode_join_lobby, decode_empty}
use networked_capture_the_fl.GameTypes.Config.{tcp_frame_cap_bytes}
use networked_capture_the_fl.Framing.{
  Framed, incomplete, oversize, frame, recv_framed, advance, drain_loop,
}
use networked_capture_the_fl.Server.Registry.{ClientEntry, free_fd, is_live, find_by_fd}
use networked_capture_the_fl.Server.NetServer.{NetServer, close_unregistered}
use networked_capture_the_fl.Server.NetServer.Joining.{on_join_lobby}
use networked_capture_the_fl.Server.NetServer.Matches.{on_start_request}
use networked_capture_the_fl.Server.NetServer.Streams.{
  Accum, of_client, of_fd, Recv, hung_up, recv_failed, recv_blocked, got, Send, accum_for, accum,
  put_accum, give_up, chunk_size, read_loop, on_frame, kept_bytes, dispatch_frames,
  handle_tcp_readable, flush_loop, change_by_fd, flushed, flush_entry, flush_pending,
}
use networked_capture_the_fl.Server.NetServer.InStep.{
  client, InStep, IsInStep, SameLive, SameLive-InStep, disconnect-IsInStep,
}
use networked_capture_the_fl.Server.NetServer.Joins.{on_join_lobby-IsInStep}
use networked_capture_the_fl.Server.NetServer.Starts.{if_decoded-IsInStep, start_by-IsInStep}

-- What every handler keeps, the loop over the frames keeps.
module _ {ℓ κ} {S : Type ℓ} (dispatch : ℕ → List ℕ → S → S) (P : S → Type κ)
    (keeps : (type : ℕ) (payload : List ℕ) (s : S) → P s → P (dispatch type payload s)) where
  advance_invariant :
      (next : List ℕ → S → Option (List ℕ) × S)
      → ((buf : List ℕ) (s : S) → P s → P (next buf s).1)
      → (buf : List ℕ) (s : S) (f : Framed) → P s
      → P (advance dispatch next buf s f).1
  advance_invariant next h buf s incomplete v = v
  advance_invariant next h buf s oversize v = v
  advance_invariant next h buf s (frame type payload) v = h _ _ (keeps type payload s v)

  drain_invariant : (fuel : ℕ) (buf : List ℕ) (s : S) → P s → P (drain_loop dispatch fuel buf s).1
  unfolding drain_loop
  drain_invariant zero buf s v = v
  drain_invariant (suc fuel) buf s v =
      advance_invariant (drain_loop dispatch fuel) (drain_invariant fuel) buf s (recv_framed buf) v

put_accum-IsInStep :
    (a : Accum) (bytes : List ℕ) (s : NetServer) → IsInStep s → IsInStep (put_accum a bytes s)
put_accum-IsInStep (of_client id) bytes s v = v
put_accum-IsInStep (of_fd fd) bytes s v = v

give_up-IsInStep : (fd : ℤ) (a : Accum) (s : NetServer) → IsInStep s → IsInStep (give_up fd a s)
unfolding close_unregistered
give_up-IsInStep fd (of_client id) s v = disconnect-IsInStep id true s v
give_up-IsInStep fd (of_fd key) s v = v

read_loop-IsInStep :
    (fd : ℤ) (a : Accum) (reads : List Recv) (s : NetServer)
    → IsInStep s
    → IsInStep (read_loop fd a reads s).1
read_loop-IsInStep fd a [] s v = v
read_loop-IsInStep fd a (hung_up ∷ reads) s v = give_up-IsInStep fd a s v
read_loop-IsInStep fd a (recv_failed ∷ reads) s v = give_up-IsInStep fd a s v
read_loop-IsInStep fd a (recv_blocked ∷ reads) s v = v
read_loop-IsInStep fd a (got chunk ∷ reads) s v =
    let bytes = accum a s ++ chunk in
    let t = put_accum a bytes s in
    let w = put_accum-IsInStep a bytes s v in
    let P : Bool × NetServer → Type 0 = λ o. IsInStep o.1 in
    if-elim P (ltb tcp_frame_cap_bytes (length bytes)) _ _ (λ e. give_up-IsInStep fd a t w)
      (λ e.
        if-elim P (ltb (length chunk) chunk_size) _ _ (λ k. w)
          (λ k. read_loop-IsInStep fd a reads t w))

on_frame-IsInStep :
    (now token : ℕ) (shuffle : List ℕ → List ℕ) (fd : ℤ)
    → (fd ==ℤ free_fd) ≡ false
    → (type : ℕ) (payload : List ℕ) (s : NetServer) → IsInStep s
    → IsInStep (on_frame now token shuffle fd type payload s)
unfolding on_start_request
on_frame-IsInStep now token shuffle fd real type payload s v =
    if-elim IsInStep (type == 1) _ _
      (λ e.
        if_decoded-IsInStep (decode_join_lobby (reader payload)).0 (on_join_lobby now token fd) s
          (λ m. on_join_lobby-IsInStep now token fd m s real v) v)
      (λ e.
        if-elim IsInStep (type == 5) _ s
          (λ k.
            if_decoded-IsInStep (decode_empty (reader payload)).0 (λ m. on_start_request shuffle fd)
              s (λ m. start_by-IsInStep shuffle fd (find_by_fd fd s.registry) s v) v)
          (λ k. v))

kept_bytes-IsInStep :
    (fd : ℤ) (a : Accum) (o : Option (List ℕ) × NetServer)
    → IsInStep o.1
    → IsInStep (kept_bytes fd a o)
kept_bytes-IsInStep fd a (none, s) v = give_up-IsInStep fd (accum_for fd s) s v
kept_bytes-IsInStep fd a (some left, s) v = put_accum-IsInStep a left s v

dispatch_frames-IsInStep :
    (now token : ℕ) (shuffle : List ℕ → List ℕ) (fd : ℤ) (a : Accum) (o : Bool × NetServer)
    → (fd ==ℤ free_fd) ≡ false
    → IsInStep o.1
    → IsInStep (dispatch_frames now token shuffle fd a o)
dispatch_frames-IsInStep now token shuffle fd a (false, s) real v = v
dispatch_frames-IsInStep now token shuffle fd a (true, s) real v = kept_bytes-IsInStep fd a _ (
    drain_invariant (on_frame now token shuffle fd) IsInStep
      (on_frame-IsInStep now token shuffle fd real) (length (accum a s)) (accum a s) s v)

pub handle_tcp_readable-IsInStep :
    (now token : ℕ) (shuffle : List ℕ → List ℕ) (fd : ℤ) (reads : List Recv) (s : NetServer)
    → (fd ==ℤ free_fd) ≡ false
    → IsInStep s
    → IsInStep (handle_tcp_readable now token shuffle fd reads s)
unfolding handle_tcp_readable
handle_tcp_readable-IsInStep now token shuffle fd reads s real v =
    let a = accum_for fd s in
    dispatch_frames-IsInStep now token shuffle fd a _ real
      (read_loop-IsInStep fd a reads _ (put_accum-IsInStep a (accum a s) s v))

live-cons :
    (e f : ClientEntry) (es fs : List ClientEntry)
    → f.tcp_fd ≡ e.tcp_fd
    → SameLive es fs
    → (id : ℕ) → is_live (client id (f ∷ fs)) ≡ is_live (client id (e ∷ es))
live-cons e f es fs h v zero = ap (λ fd. not (fd ==ℤ free_fd)) h
live-cons e f es fs h v (suc id) = v.live id

change_by_fd-SameLive :
    (fd : ℤ) (pending : List ℕ) (es : List ClientEntry) → SameLive es (change_by_fd fd pending es)
change_by_fd-SameLive fd pending [] = record { size = refl; live = λ id. refl }
change_by_fd-SameLive fd pending (e ∷ es) =
    let h = change_by_fd-SameLive fd pending es in
    let same : SameLive es es = record { size = refl; live = λ id. refl } in
    if-elim (SameLive (e ∷ es)) (e.tcp_fd ==ℤ fd) _ _
      (λ k. record {
        size = refl;
        live = live-cons e (record e { pending_out = pending }) es es refl same;
      })
      (λ k. record { size = ap suc h.size; live = live-cons e e es _ refl h })

flushed-IsInStep :
    (fd : ℤ) (id : ℕ) (o : Bool × List ℕ × List ℕ) (s : NetServer)
    → IsInStep s
    → IsInStep (flushed fd id o s)
flushed-IsInStep fd id (stays, handed, left) s v =
    let w : InStep s.lobby (change_by_fd fd left s.registry) =
      SameLive-InStep s.lobby s.registry _ (change_by_fd-SameLive fd left s.registry) v in
    if-elim IsInStep stays _ _ (λ e. w) (λ e. disconnect-IsInStep id true _ w)

flush_entry-IsInStep :
    (fd : ℤ) (sends : List Send) (o : Option ClientEntry) (s : NetServer)
    → IsInStep s
    → IsInStep (flush_entry fd sends o s)
flush_entry-IsInStep fd sends none s v = v
flush_entry-IsInStep fd sends (some e) s v =
    flushed-IsInStep fd e.player_id (flush_loop sends e.pending_out) s v

pub flush_pending-IsInStep :
    (fd : ℤ) (sends : List Send) (s : NetServer) → IsInStep s → IsInStep (flush_pending fd sends s)
unfolding flush_pending
flush_pending-IsInStep fd sends s v = flush_entry-IsInStep fd sends (find_by_fd fd s.registry) s v
