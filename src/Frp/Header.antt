-- ===== src/Frp/Header.antt =====
-- The header of a message is read back.
use vlink.Prelude.{◌^◌, ◌<◌, ◌≡◌, ap}
use vlink.Bytes.{from-to_be_bytes}
use vlink.Frp.{MsgHeader, msg_header_encode, msg_header_decode}

-- `msg_header_decode` reads back what `msg_header_encode` writes for a header with a 64-bit length.
pub msg_header_decode-encode :
    (hdr : MsgHeader) → hdr.len < 256 ^ 8 → msg_header_decode (msg_header_encode hdr) ≡ hdr
unfolding msg_header_decode msg_header_encode
msg_header_decode-encode hdr small =
    ap (λ n. record hdr { len = n }) (from-to_be_bytes 8 hdr.len small)
