-- ===== src/Tests/Frames.antt =====
-- Frames at concrete inputs (shared/net_util.cpp).
use networked_capture_the_fl.Prelude.{pos, negsuc, ℕ, ◌≡◌, refl, List, [], ◌∷◌, some, arith}
use networked_capture_the_fl.Framing.{
  oversize, recv_framed, tcp_frame, frame_payload, drain, receive_all,
}
use networked_capture_the_fl.Framing.Stream.{concat, stream, receive_all-concat, receive_all-stream}
use networked_capture_the_fl.Framing.Sends.{
  SendResult, took_bytes, send_is_full, send_is_interrupted, send_is_broken, send_rest, send_all,
  Reports, send_all-Reports,
}

-- A receiver that keeps the messages, the last one first.
abbrev keep : ℕ → List ℕ → List (ℕ × List ℕ) → List (ℕ × List ℕ)
keep type payload log = (type, payload) ∷ log

abbrev messages : List (ℕ × List ℕ)
messages = (1, 7 ∷ 8 ∷ []) ∷ (18, []) ∷ (4, 9 ∷ []) ∷ []

abbrev reads : List (List ℕ)
reads = (0 ∷ []) ∷ (2 ∷ 1 ∷ 7 ∷ []) ∷ (8 ∷ 0 ∷ 0 ∷ 18 ∷ 0 ∷ []) ∷ (1 ∷ 4 ∷ 9 ∷ []) ∷ []

reads-stream : concat reads ≡ stream messages
unfolding tcp_frame
reads-stream = refl

both_senders : frame_payload (4 ∷ 9 ∷ []) ≡ tcp_frame 4 (9 ∷ [])
unfolding frame_payload tcp_frame
both_senders = refl

too_long : recv_framed (16 ∷ 1 ∷ 4 ∷ []) ≡ oversize
unfolding recv_framed
too_long = refl

receive_all-concat_example : receive_all keep (some [], []) reads ≡ drain keep (concat reads) []
receive_all-concat_example = receive_all-concat keep reads []

receive_all-stream_example :
    receive_all keep (some [], []) reads ≡ (some [], (4, 9 ∷ []) ∷ (18, []) ∷ (1, 7 ∷ 8 ∷ []) ∷ [])
receive_all-stream_example =
    receive_all-stream keep messages reads [] (omega arith, (omega arith, (omega arith, tt)))
      reads-stream

-- The socket takes three of five bytes and is full.
abbrev socket_results : List SendResult
socket_results = took_bytes 2 ∷ send_is_interrupted ∷ took_bytes 1 ∷ send_is_full ∷ []

three_of_five : send_all socket_results (0 ∷ 2 ∷ 1 ∷ 7 ∷ 8 ∷ []) ≡ (pos 3, 0 ∷ 2 ∷ 1 ∷ [])
unfolding send_rest
three_of_five = refl

none_of_five : send_all (send_is_broken ∷ []) (0 ∷ 2 ∷ 1 ∷ 7 ∷ 8 ∷ []) ≡ (negsuc 0, [])
unfolding send_rest
none_of_five = refl

send_all-Reports_example :
    Reports 0 (0 ∷ 2 ∷ 1 ∷ 7 ∷ 8 ∷ []) (send_all socket_results (0 ∷ 2 ∷ 1 ∷ 7 ∷ 8 ∷ []))
send_all-Reports_example = send_all-Reports socket_results (0 ∷ 2 ∷ 1 ∷ 7 ∷ 8 ∷ [])
