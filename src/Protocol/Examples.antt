-- ===== src/Protocol/Examples.antt =====
-- Runs of the codecs of crates/daemon/os-daemon-protocol/src/lib.rs.
use os_emulation.Base.{
  ◌≡◌, refl, ok, err, [], ◌∷◌, ◌++◌, some, none, Bytes, ascii, is_utf8, All, IsByte, arith,
}
use os_emulation.Base.Words.{u32_to_le, u32_from_le}
use os_emulation.Protocol.Fields.{
  wire_error, encode_string, encode_option_string, encode_string_vec, encode_items, decode_string,
  decode_option_string,
}
use os_emulation.Protocol.Frame.{
  encode_frame, decode_frame, read_frame, read_payload, read_exact, header_length,
}
use os_emulation.Protocol.Message.{
  Request, analyze, Response, unsuitable, request_body, response_body, encode_request,
  decode_request, encode_response, decode_response,
}
use os_emulation.Protocol.RoundTrip.{
  IsWireRequest, decode_request-encode_request, decode_frame-encode_frame,
}
use os_emulation.Protocol.ResponseRoundTrip.{IsWireResponse, decode_response-encode_response}
use os_emulation.Protocol.CanonicalRequest.{encode_request-decode_request}
use os_emulation.Protocol.Stream.{read_frame_split}

abbrev a_request : Request
a_request = analyze (ascii "/bin/ls") (some (ascii "integrated"))

a_request-IsWire : IsWireRequest a_request
unfolding request_body encode_string encode_option_string u32_to_le is_utf8
a_request-IsWire = ((refl, refl), omega arith)

decode_request-encode_request_example : decode_request (encode_request a_request) ≡ ok a_request
decode_request-encode_request_example = decode_request-encode_request a_request a_request-IsWire

abbrev a_response : Response
a_response = unsuitable (ascii "simple-rewrite") (ascii "not ELF" ∷ ascii "no .text" ∷ [])

a_response-IsWire : IsWireResponse a_response
unfolding response_body encode_string encode_string_vec encode_items u32_to_le is_utf8
a_response-IsWire = ((refl, (refl, (refl, tt))), omega arith)

decode_response-encode_response_example :
    decode_response (encode_response a_response) ≡ ok a_response
decode_response-encode_response_example =
    decode_response-encode_response a_response a_response-IsWire

-- `Analyze` of the path "a" with no backend named.
abbrev pub a_buffer : Bytes
a_buffer = 2 ∷ 1 ∷ 6 ∷ 0 ∷ 0 ∷ 0 ∷ 1 ∷ 0 ∷ 0 ∷ 0 ∷ 97 ∷ 0 ∷ []

a_buffer-IsByte : All IsByte a_buffer
a_buffer-IsByte = omega arith

a_buffer-decodes : decode_request a_buffer ≡ ok (analyze (ascii "a") none)
unfolding decode_request decode_frame decode_string decode_option_string is_utf8 u32_from_le
a_buffer-decodes = refl

encode_request-decode_request_example : encode_request (analyze (ascii "a") none) ≡ a_buffer
encode_request-decode_request_example =
    encode_request-decode_request a_buffer (analyze (ascii "a") none) a_buffer-IsByte
      a_buffer-decodes

-- A byte behind the payload is refused.
trailing_byte : decode_request (a_buffer ++ (0 ∷ [])) ≡ err wire_error
unfolding decode_request decode_frame u32_from_le
trailing_byte = refl

decode_frame-encode_frame_example :
    decode_frame (encode_frame 7 (1 ∷ 2 ∷ 3 ∷ [])) ≡ ok (7, 1 ∷ 2 ∷ 3 ∷ [])
decode_frame-encode_frame_example = decode_frame-encode_frame 7 (1 ∷ 2 ∷ 3 ∷ []) (omega arith)

a_buffer-read : read_frame (a_buffer ++ (5 ∷ 6 ∷ [])) ≡ ok (a_buffer, 5 ∷ 6 ∷ [])
unfolding read_frame read_payload read_exact header_length u32_from_le
a_buffer-read = refl

read_frame_split_example : a_buffer ++ (5 ∷ 6 ∷ []) ≡ a_buffer ++ (5 ∷ 6 ∷ [])
read_frame_split_example =
    read_frame_split (a_buffer ++ (5 ∷ 6 ∷ [])) a_buffer (5 ∷ 6 ∷ []) a_buffer-read
