-- ===== src/Tests/Messages.antt =====
-- The messages of shared/protocol.cpp at concrete inputs.
use networked_capture_the_fl.Prelude.{
  ℕ, ◌≡◌, refl, false, List, [], ◌∷◌, none, some, replicate, arith,
}
use networked_capture_the_fl.ByteBuffer.{
  writer, reader, written, ◌⨾◌, ◌>>=◌, put_u8, put_u16, put_u32, get_u8, get_u16, get_u32,
}
use networked_capture_the_fl.Protocol.Handshake.{
  UdpHeader, encode_udp_header, decode_udp_header, no_lobby_slot, MsgLobbyState, encode_lobby_state,
  decode_lobby_state,
}
use networked_capture_the_fl.Protocol.Handshake.Laws.{received_lobby}
use networked_capture_the_fl.Protocol.RoundTrip.{decode-encode_lobby_state}

abbrev zeros : ℕ → List ℕ
zeros n = replicate n 0

abbrev header : UdpHeader
header = record { magic_word = 0x4346; version = 2; type = 9; tick = 70_000 }

header_bytes :
    written (encode_udp_header header (writer (zeros 8)))
    ≡ 0x43 ∷ 0x46 ∷ 2 ∷ 9 ∷ 0 ∷ 1 ∷ 17 ∷ 112 ∷ []
unfolding encode_udp_header ◌⨾◌ put_u8 put_u16 put_u32
header_bytes = refl

-- A header of another version is dropped.
old_version : (decode_udp_header (reader (0x43 ∷ 0x46 ∷ 1 ∷ 9 ∷ 0 ∷ 0 ∷ 0 ∷ 0 ∷ []))).0 ≡ none
unfolding decode_udp_header ◌>>=◌ get_u8 get_u16 get_u32
old_version = refl

-- So is one that is cut short.
short_header : (decode_udp_header (reader (0x43 ∷ 0x46 ∷ 2 ∷ 9 ∷ 0 ∷ 0 ∷ []))).0 ≡ none
unfolding decode_udp_header ◌>>=◌ get_u8 get_u16 get_u32
short_header = refl

abbrev name : ℕ → List ℕ
name c = c ∷ zeros 15

abbrev lobby : MsgLobbyState
lobby = record {
  player_count = 2;
  slots =
      record { id = 0; name = name b'a' }
      ∷ record { id = 3; name = name b'b' }
      ∷ replicate 8 no_lobby_slot;
  host_id = 3;
}

decode-encode_lobby_state_example :
    let w = encode_lobby_state lobby (writer (zeros 600)) in
    (w.overflow ≡ false)
    × (w.pos ≡ 36)
    × ((decode_lobby_state (reader (written w))).0 ≡ some (received_lobby lobby))
decode-encode_lobby_state_example =
    decode-encode_lobby_state lobby (zeros 600) (omega arith) refl
      (refl, (refl, (refl, (refl, (refl, (refl, (refl, (refl, (refl, (refl, tt))))))))))
      (omega arith)
