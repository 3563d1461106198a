-- ===== src/Protocol/Delta/Masks.antt =====
-- The masks of a delta (shared/protocol.cpp): each bit reads back as the test that set it.
use networked_capture_the_fl.Prelude.{◌≡◌, Bool, bit_and, arith}
use networked_capture_the_fl.Protocol.Delta.{has, mask4, mask6}

pub mask4_bits :
    (a b c d : Bool)
    → (has (mask4 a b c d) 1 ≡ a)
      × (has (mask4 a b c d) 2 ≡ b)
      × (has (mask4 a b c d) 4 ≡ c)
      × (has (mask4 a b c d) 8 ≡ d)
      × (bit_and (mask4 a b c d) 0xf0 ≡ 0)
unfolding mask4
mask4_bits a b c d = ground arith

pub mask6_bits :
    (a b c d e f : Bool)
    → (has (mask6 a b c d e f) 1 ≡ a)
      × (has (mask6 a b c d e f) 2 ≡ b)
      × (has (mask6 a b c d e f) 4 ≡ c)
      × (has (mask6 a b c d e f) 8 ≡ d)
      × (has (mask6 a b c d e f) 16 ≡ e)
      × (has (mask6 a b c d e f) 32 ≡ f)
      × (bit_and (mask6 a b c d e f) 0xc0 ≡ 0)
unfolding mask6
mask6_bits a b c d e f = ground arith
