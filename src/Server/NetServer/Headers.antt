-- ===== src/Server/NetServer/Headers.antt =====
-- What the header of a datagram says that server/net_server.cpp does not drop.
use networked_capture_the_fl.Prelude.{
  ℕ, ◌+◌, ◌*◌, ◌≤◌, ◌<◌, ◌≡◌, refl, sym, subst, ◌∙◌, Bool, ◌==◌, ◌&&◌, ==_iff, and_left, and_right,
  lt→ltb, dec_lt, if_true, if_false, Bool-cases, inl, inr, if◌then◌else◌, none, some, List, length,
  get_or, arith,
}
use networked_capture_the_fl.ByteBuffer.{reader, get_u8, get_u16, get_u32, ◌>>=◌}
use networked_capture_the_fl.Protocol.Handshake.{
  magic, protocol_version, UdpHeader, decode_udp_header,
}

-- A header of eight bytes, with the mark of the protocol and its version, and a type.
pub record IsHeaded (type : ℕ) (packet : List ℕ) : Type 0 where
  pub long : 8 ≤ length packet
  pub mark : get_or packet 0 0 * 256 + get_or packet 1 0 ≡ 17222
  pub version : get_or packet 2 0 ≡ 2
  pub kind : get_or packet 3 0 ≡ type

-- The header that eight bytes or more begin with.
header_of : List ℕ → UdpHeader
header_of packet = record {
  magic_word = get_or packet 0 0 * 256 + get_or packet 1 0;
  version = get_or packet 2 0;
  type = get_or packet 3 0;
  tick =
      get_or packet 4 0 * 16777216
      + get_or packet 5 0 * 65536
      + get_or packet 6 0 * 256
      + get_or packet 7 0;
}

is_ours : UdpHeader → Bool
is_ours h = h.magic_word == magic && h.version == protocol_version

long_header :
    (packet : List ℕ)
    → 8 ≤ length packet
    → (decode_udp_header (reader packet)).0
      ≡ (if is_ours (header_of packet) then some (header_of packet) else none)
unfolding decode_udp_header get_u8 get_u16 get_u32 ◌>>=◌ header_of is_ours
long_header packet long = ground arith

short_header : (packet : List ℕ) → length packet < 8 → (decode_udp_header (reader packet)).0 ≡ none
unfolding decode_udp_header get_u8 get_u16 get_u32 ◌>>=◌
short_header packet short = ground (arith, lt→ltb (length packet) 8 short)

-- What decodes as a header is one.
pub decode_udp_header-IsHeaded :
    (packet : List ℕ) (h : UdpHeader)
    → (decode_udp_header (reader packet)).0 ≡ some h
    → IsHeaded h.type packet
unfolding header_of is_ours
decode_udp_header-IsHeaded packet h e = elim (dec_lt (length packet) 8) [
  | yes short ↦ let gone = short_header packet short in cc
  | no long ↦ elim (Bool-cases (is_ours (header_of packet))) [
    | inl ours ↦
        let whole = long_header packet (omega arith) in
        let same : some (header_of packet) ≡ some h =
          sym (if_true (is_ours (header_of packet)) _ _ ours) ∙ sym whole ∙ e in
        let eq : header_of packet ≡ h = cc in
        subst (λ (g : UdpHeader). IsHeaded g.type packet) eq
          (record {
            long = omega arith;
            mark = (==_iff _ magic).0 (and_left _ _ ours);
            version =
                (==_iff (get_or packet 2 0) protocol_version).0
                  (and_right (get_or packet 0 0 * 256 + get_or packet 1 0 == magic) _ ours);
            kind = refl;
          })
    | inr other ↦
        let whole = long_header packet (omega arith) in
        let same : none ≡ some h =
          sym (if_false (is_ours (header_of packet)) _ _ other) ∙ sym whole ∙ e in
        cc
  ]
]
