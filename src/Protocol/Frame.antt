-- ===== src/Protocol/Frame.antt =====
-- The frames of crates/daemon/os-daemon-protocol/src/lib.rs, `[version][tag][u32 length][payload]`,
-- and their transport over a byte stream.
use os_emulation.Base.{
  ℕ, ◌%◌, ltb, ◌==◌, if◌then◌else◌, Result, ok, err, ◌>>=◌, ◌∷◌, ◌++◌, length, take, drop, Bytes,
}
use os_emulation.Base.Words.{u32_mod, u32_to_le, u32_from_le}
use os_emulation.Protocol.Fields.{WireError, wire_error}

abbrev pub protocol_version : ℕ
protocol_version = 2

unfoldable pub encode_frame : ℕ → Bytes → Bytes
encode_frame tag payload =
    protocol_version ∷ tag ∷ (u32_to_le (length payload % u32_mod) ++ payload)

-- The test `buf.len() < 6` is the pattern; `buf.len() != 6 + len` compares the payload's length.
unfoldable pub decode_frame : Bytes → Result WireError (ℕ × Bytes)
decode_frame (version ∷ tag ∷ b0 ∷ b1 ∷ b2 ∷ b3 ∷ payload) =
    if version == protocol_version
    then if length payload == u32_from_le b0 b1 b2 b3 then ok (tag, payload) else err wire_error
    else err wire_error
decode_frame _ = err wire_error

-- A reader is the bytes that are still to come before the end of the stream.
pub data ReadError : Type 0 where
  unexpected_eof : ReadError

-- `Read::read_exact` of `n` bytes, with the reader that it leaves.
unfoldable pub read_exact : ℕ → Bytes → Result ReadError (Bytes × Bytes)
read_exact n r = if ltb (length r) n then err unexpected_eof else ok (take n r, drop n r)

-- `hdr[2..6]` read as a `u32`; `read_exact` gave six bytes.
unfoldable pub header_length : Bytes → ℕ
header_length (version ∷ tag ∷ b0 ∷ b1 ∷ b2 ∷ b3 ∷ rest) = u32_from_le b0 b1 b2 b3
header_length _ = 0

-- The part of `read_frame` behind the header.
unfoldable pub read_payload : Bytes → Bytes → Result ReadError (Bytes × Bytes)
read_payload hdr r =
    let len = header_length hdr in
    if ltb 0 len
    then (do (payload, r') ← read_exact len r; ok (hdr ++ payload, r'))
    else ok (hdr, r)

unfoldable pub read_frame : Bytes → Result ReadError (Bytes × Bytes)
read_frame r = do (hdr, r') ← read_exact 6 r; read_payload hdr r'

-- `write_all` and `flush` into what the other end will read.
unfoldable pub write_frame : Bytes → Bytes → Bytes
write_frame w frame = w ++ frame
