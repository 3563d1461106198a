-- ===== src/Framing.antt =====
-- The framing of TCP: shared/net_util.cpp, `recv_framed`, and the loops of client/net_client.cpp and
-- server/net_server.cpp that take frames out of what was received; what is sent.
pub mod Laws
pub mod Stream
pub mod Sends
use networked_capture_the_fl.Prelude.{
  ℕ, zero, suc, ◌+◌, ◌-◌, ◌*◌, ◌/◌, ◌%◌, List, [], ◌∷◌, ◌++◌, Option, none, some, length, get_or,
  take, drop, if◌then◌else◌, ltb,
}
use networked_capture_the_fl.GameTypes.Config.{tcp_frame_header_bytes, tcp_frame_cap_bytes}

-- What `recv_framed` returns: 0, SIZE_MAX, or the bytes that the frame takes.
pub data Framed : Type 0 where
  incomplete oversize : Framed
  frame : ℕ → List ℕ → Framed

-- `(buf[0] << 8) | buf[1]`, of two bytes.
abbrev pub announced : List ℕ → ℕ
announced buf = get_or buf 0 0 * 256 + get_or buf 1 0

unfoldable pub recv_framed : List ℕ → Framed
recv_framed buf =
    let payload_len = announced buf in
    if ltb (length buf) tcp_frame_header_bytes
    then incomplete
    else (if ltb tcp_frame_cap_bytes payload_len
        then oversize
        else (if ltb (length buf) (tcp_frame_header_bytes + payload_len)
            then incomplete
            else frame (get_or buf 2 0) (take payload_len (drop tcp_frame_header_bytes buf))))

-- The frame of `send_tcp_frame`.
unfoldable pub tcp_frame : ℕ → List ℕ → List ℕ
tcp_frame type payload = length payload / 256 % 256 ∷ length payload % 256 ∷ type % 256 ∷ payload

-- `frame_payload`: the frame of a payload that starts with its type.
unfoldable pub frame_payload : List ℕ → List ℕ
frame_payload payload = (length payload - 1) / 256 % 256 ∷ (length payload - 1) % 256 ∷ payload

-- What is left of the buffer, unless the connection is given up, and the state of the receiver.
module _ {ℓ} {S : Type ℓ} (dispatch : ℕ → List ℕ → S → S) where
  abbrev pub advance :
      (List ℕ → S → Option (List ℕ) × S) → List ℕ → S → Framed → Option (List ℕ) × S
  advance next buf s incomplete = (some buf, s)
  advance next buf s oversize = (none, s)
  advance next buf s (frame type payload) =
      next (drop (tcp_frame_header_bytes + length payload) buf) (dispatch type payload s)

  unfoldable pub drain_loop : ℕ → List ℕ → S → Option (List ℕ) × S
  drain_loop zero buf s = (some buf, s)
  drain_loop (suc fuel) buf s = advance (drain_loop fuel) buf s (recv_framed buf)

  -- A frame takes bytes of the buffer, so its length is fuel enough.
  abbrev pub drain : List ℕ → S → Option (List ℕ) × S
  drain buf s = drain_loop (length buf) buf s

  -- A read: the new bytes join those that were left, and the frames are taken out.
  abbrev pub receive : Option (List ℕ) × S → List ℕ → Option (List ℕ) × S
  receive (none, s) chunk = (none, s)
  receive (some left, s) chunk = drain (left ++ chunk) s

  abbrev pub receive_all : Option (List ℕ) × S → List (List ℕ) → Option (List ℕ) × S
  receive_all state [] = state
  receive_all state (chunk ∷ chunks) = receive_all (receive state chunk) chunks
