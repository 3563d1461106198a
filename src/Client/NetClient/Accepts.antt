-- ===== src/Client/NetClient/Accepts.antt =====
-- A client of client/net_client.cpp that the server accepts is in the lobby.
use networked_capture_the_fl.Prelude.{
  if_false, if-elim, lt→not-leb, length, replicate, All, pos, ℕ, ◌+◌, ◌%◌, ◌^◌, ◌≤◌, ◌<◌, ◌≡◌, refl,
  sym, ap, subst, ◌∙◌, ◌⊎◌, inl, inr, Bool, true, not, Option, some, List, [], ◌∷◌, ◌++◌,
  append-nil, append_assoc, arith,
}
use networked_capture_the_fl.ByteBuffer.{writer, written}
use networked_capture_the_fl.Protocol.Handshake.{
  MsgJoinAccept, encode_join_accept, decode_join_accept,
}
use networked_capture_the_fl.ByteBuffer.Codec.{written_size}
use networked_capture_the_fl.Protocol.Handshake.Laws.{join_accept-Codec}
use networked_capture_the_fl.Client.Events.{in_lobby, decoded}
use networked_capture_the_fl.Client.Events.Laws.{decoded_lem}
use networked_capture_the_fl.Framing.{incomplete, frame, recv_framed, tcp_frame}
use networked_capture_the_fl.Framing.Laws.{
  short, partial, huge, whole, received, whole-append, huge-append, recv_framed-tcp_frame,
}
use networked_capture_the_fl.Framing.Stream.{concat}
use networked_capture_the_fl.Client.NetClient.{
  NetClient, is_open, disconnect_client, send_tcp_frame, arrived, Turn, wait_for_tcp_frame, Network,
  accepted, answered, asked, settled, join_on, connect_and_join,
}

-- Reads that bring bytes, with the times at which they are waited for.
abbrev pub arrivals : List (ℕ × List ℕ) → List Turn
arrivals [] = []
arrivals ((now, chunk) ∷ cs) = record { now = now; poll = arrived chunk } ∷ arrivals cs

abbrev pub chunks_of : List (ℕ × List ℕ) → List (List ℕ)
chunks_of [] = []
chunks_of ((now, chunk) ∷ cs) = chunk ∷ chunks_of cs

-- What a buffer that starts a frame looks like.
start_of :
    (buf more rest payload : List ℕ) (type : ℕ)
    → length payload ≤ 4096
    → buf ++ more ≡ tcp_frame type payload ++ rest
    → (recv_framed buf ≡ frame (type % 256) payload) ⊎ (recv_framed buf ≡ incomplete)
start_of buf more rest payload type h e =
    let there = ap recv_framed e ∙ recv_framed-tcp_frame type payload rest h in
    elim (received buf) [
      | short n f ↦ inr f
      | partial a b n f ↦ inr f
      | huge a b f ↦ cc (sym there ∙ huge-append buf more a b)
      | whole a b f ↦ inl (f ∙ sym (whole-append buf more a b) ∙ there)
    ]

-- The wait ends with the frame, however its bytes are split over the reads.
wait-arrivals :
    (deadline : ℕ) (cs : List (ℕ × List ℕ)) (buf rest payload : List ℕ) (type : ℕ)
    → length payload ≤ 4096
    → All (λ (c : ℕ × List ℕ). c.0 < deadline) cs
    → buf ++ concat (chunks_of cs) ≡ tcp_frame type payload ++ rest
    → (wait_for_tcp_frame deadline (arrivals cs) buf).0 ≡ some (type % 256, payload)
unfolding wait_for_tcp_frame
wait-arrivals deadline [] buf rest payload type h late e =
    rw (ap recv_framed (sym (append-nil buf) ∙ e) ∙ recv_framed-tcp_frame type payload rest h) refl
wait-arrivals deadline ((now, chunk) ∷ cs) buf rest payload type h late e =
    elim (start_of buf (chunk ++ concat (chunks_of cs)) rest payload type h e) [
      | inl f ↦ rw f refl
      | inr f ↦
          rw (f, lt→not-leb now deadline late.0)
            (wait-arrivals deadline cs (buf ++ chunk) rest payload type h late.1
              (append_assoc buf chunk _ ∙ e))
    ]

-- The network of a client whose sockets open, and whose reads all bring bytes.
abbrev pub working : ℕ → ℕ → ℕ → List (ℕ × List ℕ) → Network
working tcp udp started cs = record {
  resolved = true;
  tcp_socket = pos tcp;
  connects = true;
  udp_socket = pos udp;
  binds = true;
  started = started;
  turns = arrivals cs;
}

-- What the server sends to a client that it accepts, `send_frame_generic`.
abbrev pub accept_frame : MsgJoinAccept → List ℕ
accept_frame m = tcp_frame 2 (written (encode_join_accept m (writer (replicate 512 0))))

asked-tcp_rx : (name : List ℕ) (c : NetClient) → (asked name c).tcp_rx ≡ c.tcp_rx
unfolding send_tcp_frame
asked-tcp_rx name c =
    if-elim (λ (t : NetClient). t.tcp_rx ≡ c.tcp_rx) (is_open c.tcp_fd) _ c (λ e. refl) (λ e. refl)

-- The client has what the server gave it.
pub record HasJoined (m : MsgJoinAccept) (o : Bool × NetClient) : Type 0 where
  pub returned : o.0 ≡ true
  pub player_id : o.1.player_id ≡ m.player_id
  pub session_token : o.1.session_token ≡ m.session_token
  pub server_udp_port : o.1.server_udp_port ≡ m.udp_port
  pub state : o.1.events.state ≡ in_lobby

settled-HasJoined :
    (m : MsgJoinAccept) (payload left : List ℕ) (answer : Option (ℕ × List ℕ)) (c : NetClient)
    → answer ≡ some (2, payload)
    → decoded decode_join_accept payload ≡ some m
    → HasJoined m (settled (answer, left) c)
settled-HasJoined m payload left answer c e f =
    subst (λ a. HasJoined m (answered a (record c { tcp_rx = left }))) (sym e)
      (subst (λ a. HasJoined m (accepted a (record c { tcp_rx = left }))) (sym f)
        (record {
          returned = refl;
          player_id = refl;
          session_token = refl;
          server_udp_port = refl;
          state = refl;
        }))

opens : (n : ℕ) → is_open (pos n) ≡ true
opens n = ground arith

working-join_on :
    (name : List ℕ) (timeout_ms tcp udp started : ℕ) (cs : List (ℕ × List ℕ)) (c : NetClient)
    → connect_and_join name timeout_ms (working tcp udp started cs) c
      ≡ join_on name timeout_ms
          (working tcp udp started cs)
          (record (disconnect_client c) { tcp_fd = pos tcp; udp_fd = pos udp })
unfolding connect_and_join
working-join_on name timeout_ms tcp udp started cs c =
    if_false (not (is_open (pos tcp))) _ _ (ap not (opens tcp))
    ∙ if_false (not (is_open (pos udp))) _ _ (ap not (opens udp))

-- A client that starts with no bytes is in the lobby, with the identifier, the token and the port that
-- the server gave it, once the frame of a JOIN_ACCEPT has come in, however it is split over reads that
-- all come before the deadline, whatever follows it: given that the token fits 32 bits and the port 16.
pub connect_and_join-accepts :
    (name rest : List ℕ) (timeout_ms tcp udp started : ℕ) (cs : List (ℕ × List ℕ))
    (m : MsgJoinAccept) (c : NetClient)
    → m.session_token < 2 ^ 32
    → m.udp_port < 2 ^ 16
    → c.tcp_rx ≡ []
    → All (λ (a : ℕ × List ℕ). a.0 < (started + timeout_ms) % 2 ^ 32) cs
    → concat (chunks_of cs) ≡ accept_frame m ++ rest
    → HasJoined m (connect_and_join name timeout_ms (working tcp udp started cs) c)
unfolding join_on disconnect_client
connect_and_join-accepts name rest timeout_ms tcp udp started cs m c fits port fresh early stream =
    let payload = written (encode_join_accept m (writer (replicate 512 0))) in
    let codec = join_accept-Codec m fits port in
    let deadline = (started + timeout_ms) % 2 ^ 32 in
    let c₁ = record (disconnect_client c) { tcp_fd = pos tcp; udp_fd = pos udp } in
    let empty : (asked name c₁).tcp_rx ≡ [] = asked-tcp_rx name c₁ ∙ fresh in
    let net = working tcp udp started cs in
    let w = wait_for_tcp_frame deadline net.turns (asked name c₁).tcp_rx in
    subst (HasJoined m) (sym (working-join_on name timeout_ms tcp udp started cs c)) (
      settled-HasJoined m payload w.1 w.0 (asked name c₁)
        (wait-arrivals deadline cs (asked name c₁).tcp_rx rest payload 2
          (omega (arith, written_size codec (replicate 512 0) (omega arith))) early
          (ap (λ xs. xs ++ concat (chunks_of cs)) empty ∙ stream))
        (decoded_lem (replicate 512 0) codec (omega arith)))
