-- ===== src/Server/NetServer/Arrives.antt =====
-- From the client's inputs to the commands of the simulation: client/net_client.cpp, `send_input`,
-- and server/net_server.cpp, `on_udp_packet`.
use networked_capture_the_fl.Prelude.{
  ◌==◌, ==_iff, if_true, length, drop, replicate, length-append, All, ℕ, ◌+◌, ◌-◌, ◌^◌, ◌≤◌, ◌<◌,
  min, ◌≡◌, refl, sym, ap, ap₂, ◌∙◌, true, false, not, ◌&&◌, ◌||◌, none, some, List, [], ◌∷◌, ◌++◌,
  append-nil, arith,
}
use networked_capture_the_fl.GameTypes.{InputCmd}
use networked_capture_the_fl.GameTypes.Config.{input_redundancy}
use networked_capture_the_fl.ByteBuffer.{Writer, Parser, reader, writer, written, ◌⨾◌}
use networked_capture_the_fl.ByteBuffer.Encodes.{◌▹◌}
use networked_capture_the_fl.ByteBuffer.Codec.{drop-append, Codec}
use networked_capture_the_fl.Protocol.Handshake.{
  encode_udp_header, MsgPlayerInput, encode_player_input,
}
use networked_capture_the_fl.Protocol.Handshake.Laws.{
  udp_header-Codec, IsWireInput, received_input, player_input-Codec,
}
use networked_capture_the_fl.Client.Sends.{input_msg, input_header, if_ok, send_input}
use networked_capture_the_fl.Server.Queues.{InboundCommand, player_input}
use networked_capture_the_fl.Server.Registry.{SockAddr, ClientEntry, find_by_id}
use networked_capture_the_fl.Server.NetServer.{
  NetServer, put_client, same_addr, checked, auth_udp_sender, input_commands, took_input,
  on_player_input, if_decoded, dispatch_udp, on_udp_packet,
}

-- Two encoders in one buffer: what is written, and what is read at the start and behind `n` bytes.
two_parts {ℓ κ} :
    {A : Type ℓ} {B : Type κ} {e f : Writer → Writer} {p : Parser A} {q : Parser B} {n k : ℕ}
    {a : A} {b : B}
    → Codec e p n a
    → Codec f q k b
    → (buf : List ℕ) → n + k ≤ length buf
    → let w = (e ⨾ f) (writer buf) in
      (w.overflow ≡ false)
      × ((p (reader (written w))).0 ≡ some a)
      × ((q (reader (drop n (written w)))).0 ≡ some b)
two_parts {e = e} {f = f} {p = p} {q = q} {n = n} {k = k} {a = a} {b = b} c d buf h =
    let both = c.bytes ++ d.bytes in
    let out =
      (c.encodes ▹ d.encodes).fits (writer buf) refl
        (omega (arith, c.size, d.size, length-append c.bytes d.bytes)) in
    let first = c.parses.run (reader both) d.bytes (record { fine = refl; rest = refl }) in
    let second =
      d.parses.run (reader d.bytes) [] (record { fine = refl; rest = sym (append-nil d.bytes) }) in
    (
      out.fine,
      ap (λ bs. (p (reader bs)).0) out.bytes ∙ ap (λ r. r.0) first.1,
      ap (λ bs. (q (reader (drop n bs))).0) out.bytes
          ∙ ap (λ bs. (q (reader bs)).0) (drop-append c.bytes d.bytes n c.size)
          ∙ ap (λ r. r.0) second.1,
    )

-- One command for each input, numbered from `seq` on.
abbrev pub commands_of : ℕ → ℕ → List InputCmd → List InboundCommand
commands_of id seq [] = []
commands_of id seq (c ∷ cs) = player_input id seq c ∷ commands_of id (seq + 1) cs

numbered :
    (id token base : ℕ) (inputs : List InputCmd)
    → base < 2 ^ 32
    → length inputs ≤ input_redundancy
    → length inputs ≤ base + 1
    → let n = length inputs in
      input_commands (received_input (input_msg id token base inputs n)) n n 0
      ≡ commands_of id (base + 1 - n) inputs
numbered id token base [] b h k = refl
numbered id token base (x ∷ []) b h k = ap (λ n. player_input id n x ∷ []) (omega arith)
numbered id token base (x ∷ y ∷ []) b h k =
    ap₂ (λ n m. player_input id n x ∷ player_input id m y ∷ []) (omega arith) (omega arith)
numbered id token base (x ∷ y ∷ z ∷ []) b h k =
    ap₂ (λ n cs. player_input id n x ∷ cs) (omega arith)
      (ap₂ (λ n m. player_input id n y ∷ player_input id m z ∷ []) (omega arith) (omega arith))
numbered id token base (x ∷ y ∷ z ∷ w ∷ rest) b h k = absurd (omega arith)

input_msg-wire :
    (id token base : ℕ) (inputs : List InputCmd)
    → length inputs ≤ input_redundancy
    → All IsWireInput inputs
    → let m = input_msg id token base inputs (length inputs) in
      (length m.inputs ≡ input_redundancy) × All IsWireInput m.inputs
input_msg-wire id token base [] h ok = (refl, (omega arith, (omega arith, (omega arith, tt))))
input_msg-wire id token base (x ∷ []) h ok = (refl, (ok.0, (omega arith, (omega arith, tt))))
input_msg-wire id token base (x ∷ y ∷ []) h ok = (refl, (ok.0, (ok.1.0, (omega arith, tt))))
input_msg-wire id token base (x ∷ y ∷ z ∷ []) h ok = (refl, ok)
input_msg-wire id token base (x ∷ y ∷ z ∷ w ∷ rest) h ok = absurd (omega arith)

-- The server's state with the inputs of a client taken in.
abbrev pub with_inputs : ℕ → ℕ → ClientEntry → List InboundCommand → NetServer → NetServer
with_inputs now id e cmds s = record (put_client id (record e { last_input_tick = now }) s) {
  inbound = s.inbound ++ cmds;
}

takes :
    (now : ℕ) (src : SockAddr) (m : MsgPlayerInput) (e : ClientEntry) (s : NetServer)
    → m.count ≤ input_redundancy
    → find_by_id m.player_id s.registry ≡ some e
    → e.session_token ≡ m.session_token
    → (not e.has_udp_addr || same_addr e.udp_addr src) ≡ true
    → on_player_input now src m s
      ≡ with_inputs now m.player_id e (input_commands m m.count m.count 0) s
unfolding on_player_input auth_udp_sender
takes now src m e s few live fits addr =
    ap (λ o. took_input now m (checked src m.session_token o) s) live
    ∙ ap (λ o. took_input now m o s)
        (if_true
          ((e.session_token == m.session_token) && (not e.has_udp_addr || same_addr e.udp_addr src))
          (some e) none
          (let same = (==_iff e.session_token m.session_token).1 fits in ground arith))
    ∙ ap (λ n. with_inputs now m.player_id e (input_commands m n n 0) s)
        {x = min m.count input_redundancy} (omega arith)

-- The inputs that a client sends in one datagram, three at most, become commands of the simulation,
-- in their order and numbered up to the base, as the only other change to the client's entry being
-- the time: given a live client with the token, from its address if that is known, and numbers that
-- do not start below 0.
pub send_input-arrives :
    (now : ℕ) (src : SockAddr) (id token base : ℕ) (inputs : List InputCmd) (e : ClientEntry)
    (s : NetServer)
    → token < 2 ^ 32
    → base < 2 ^ 32
    → length inputs ≤ input_redundancy
    → length inputs ≤ base + 1
    → All IsWireInput inputs
    → find_by_id id s.registry ≡ some e
    → e.session_token ≡ token
    → (not e.has_udp_addr || same_addr e.udp_addr src) ≡ true
    → (packet : List ℕ) × (send_input id token base inputs (length inputs) ≡ some packet)
      × (on_udp_packet now src packet s
          ≡ with_inputs now id e (commands_of id (base + 1 - length inputs) inputs) s)
unfolding send_input on_udp_packet
send_input-arrives now src id token base inputs e s t b few start ok live fits addr =
    let n = length inputs in
    let m = input_msg id token base inputs n in
    let (l, wires) = input_msg-wire id token base inputs few ok in
    let w : Writer =
      (encode_udp_header (input_header base) ⨾ encode_player_input m) (writer (replicate 30 0)) in
    let (fine, head, body) =
      two_parts (udp_header-Codec (input_header base) refl refl b)
        (player_input-Codec m t b few l wires) (replicate 30 0) (omega (arith, few)) in
    (
      written w,
      ap
            (λ k. if_ok (
              (encode_udp_header (input_header base)
                  ⨾ encode_player_input (input_msg id token base inputs k))
                (writer (replicate 30 0))))
            {x = min n input_redundancy} (omega arith)
          ∙ if_true (not w.overflow) (some (written w)) none (ap not fine),
      ap (λ o. if_decoded o (dispatch_udp now src (drop 8 (written w))) s) head
          ∙ ap (λ o. if_decoded o (on_player_input now src) s) body
          ∙ takes now src (received_input m) e s few live fits addr
          ∙ ap (λ cmds. with_inputs now id e cmds s) (numbered id token base inputs b few start),
    )
