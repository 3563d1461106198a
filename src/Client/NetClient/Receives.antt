-- ===== src/Client/NetClient/Receives.antt =====
-- What a client of client/net_client.cpp makes of the stream that it reads.
use networked_capture_the_fl.Prelude.{
  length, All, ℕ, zero, suc, ◌≤◌, ◌≡◌, sym, ap, ◌∙◌, Option, some, List, [], ◌∷◌, ◌++◌, append-nil,
  append_assoc,
}
use networked_capture_the_fl.Framing.{
  Framed, incomplete, oversize, frame, recv_framed, advance, drain_loop,
}
use networked_capture_the_fl.Framing.Stream.{concat, stream, handled, drain-stream}
use networked_capture_the_fl.Client.Events.{EventLog, dispatch_tcp_frame}
use networked_capture_the_fl.Client.NetClient.{NetClient}
use networked_capture_the_fl.Client.NetClient.Polls.{
  TcpRead, bytes, frames_turn, frames_loop, drain_tcp,
}

frames_turn_lem :
    (next : List ℕ → EventLog → Option (List ℕ) × EventLog) (again : NetClient → NetClient)
    (c : NetClient) (f : Framed) (left : List ℕ) (s : EventLog)
    → ((d : NetClient)
        → next d.tcp_rx d.events ≡ (some left, s)
        → again d ≡ record d { tcp_rx = left; events = s })
    → advance dispatch_tcp_frame next c.tcp_rx c.events f ≡ (some left, s)
    → frames_turn again c f ≡ record c { tcp_rx = left; events = s }
frames_turn_lem next again c incomplete left s h e = cc
frames_turn_lem next again c oversize left s h e = cc
frames_turn_lem next again c (frame type payload) left s h e = h _ e

-- A buffer that is drained without a fault is drained the same way here.
frames_loop_lem :
    (fuel : ℕ) (c : NetClient) (left : List ℕ) (s : EventLog)
    → drain_loop dispatch_tcp_frame fuel c.tcp_rx c.events ≡ (some left, s)
    → frames_loop fuel c ≡ record c { tcp_rx = left; events = s }
unfolding drain_loop frames_loop
frames_loop_lem zero c left s e = cc
frames_loop_lem (suc fuel) c left s e =
    frames_turn_lem (drain_loop dispatch_tcp_frame fuel) (frames_loop fuel) c (recv_framed c.tcp_rx)
      left s (λ d h. frames_loop_lem fuel d left s h) e

abbrev pub reads_of : List (List ℕ) → List TcpRead
reads_of [] = []
reads_of (chunk ∷ chunks) = bytes chunk ∷ reads_of chunks

drain_tcp-reads_of :
    (chunks : List (List ℕ)) (c : NetClient)
    → drain_tcp (reads_of chunks) c
      ≡ frames_loop
          (length (c.tcp_rx ++ concat chunks))
          (record c { tcp_rx = c.tcp_rx ++ concat chunks })
unfolding drain_tcp
drain_tcp-reads_of [] c =
    ap (λ xs. frames_loop (length xs) (record c { tcp_rx = xs })) (sym (append-nil c.tcp_rx))
drain_tcp-reads_of (chunk ∷ chunks) c =
    drain_tcp-reads_of chunks (record c { tcp_rx = c.tcp_rx ++ chunk })
    ∙ ap (λ xs. frames_loop (length xs) (record c { tcp_rx = xs }))
        (append_assoc c.tcp_rx chunk (concat chunks))

-- Reads that complete a stream of messages of at most 4096 bytes hand each of them on once, whole and in
-- order, however the stream is split over them and the reads before; nothing else of the client changes.
pub drain_tcp-stream :
    (ms : List (ℕ × List ℕ)) (chunks : List (List ℕ)) (c : NetClient)
    → All (λ (m : ℕ × List ℕ). length m.1 ≤ 4096) ms
    → c.tcp_rx ++ concat chunks ≡ stream ms
    → drain_tcp (reads_of chunks) c
      ≡ record c { tcp_rx = []; events = handled dispatch_tcp_frame c.events ms }
drain_tcp-stream ms chunks c h e =
    drain_tcp-reads_of chunks c
    ∙ ap (λ xs. frames_loop (length xs) (record c { tcp_rx = xs })) e
    ∙ frames_loop_lem (length (stream ms)) (record c { tcp_rx = stream ms }) [] _
        (drain-stream dispatch_tcp_frame ms c.events h)
