-- ===== src/Protocol/RoundTrip.antt =====
-- Decoding what was encoded, for requests.
use os_emulation.Base.{
  ℕ, ◌<◌, ◌≡◌, refl, eq_refl, true, ok, List, [], ◌++◌, Option, none, some, length, length-append,
  append-nil, Bytes, Text, All, is_utf8, arith,
}
use os_emulation.Base.Words.{u32_mod, u32_to_le}
use os_emulation.Protocol.Fields.{decode_string, decode_string_vec, decode_option_string}
use os_emulation.Protocol.Frame.{encode_frame, decode_frame}
use os_emulation.Protocol.Message.{
  Request, ping, analyze, obtain, list_backends, request_body, encode_request, decode_request_body,
  decode_request, decode_ping, decode_analyze, decode_obtain, decode_list_backends,
}
use os_emulation.Protocol.FieldLaws.{
  IsWireText, string_bytes, option_bytes, vec_bytes, encode_string_lem, encode_option_string_lem,
  decode_string-bytes, decode_option_string-bytes, decode_string_vec-bytes, IsWireOption,
  length-string_bytes, u32_header,
}

abbrev pub IsText : Text → Type 0
IsText s = is_utf8 s ≡ true

abbrev IsTextOption : Option Text → Type 0
IsTextOption none = Unit
IsTextOption (some s) = IsText s

-- The strings of a request are UTF-8, as the type `String` guarantees.
abbrev pub HasText : Request → Type 0
HasText ping = Unit
HasText (analyze path backend) = IsText path × IsTextOption backend
HasText (obtain path backend) = IsText path × IsText backend
HasText list_backends = Unit

abbrev pub IsWireRequest : Request → Type 0
IsWireRequest req = HasText req × (length (request_body req).1 < u32_mod)

pub decode_frame-encode_frame :
    (tag : ℕ) (payload : Bytes)
    → length payload < u32_mod
    → decode_frame (encode_frame tag payload) ≡ ok (tag, payload)
unfolding decode_frame encode_frame u32_to_le
decode_frame-encode_frame tag payload fits =
    rw (u32_header (length payload) fits, eq_refl (length payload))

pub analyze_body :
    (path : Text) (backend : Option Text)
    → request_body (analyze path backend) ≡ (1, string_bytes path ++ option_bytes backend)
unfolding request_body
analyze_body path backend = rw (encode_string_lem path [], encode_option_string_lem backend)

pub obtain_body :
    (path backend : Text)
    → request_body (obtain path backend) ≡ (2, string_bytes path ++ string_bytes backend)
unfolding request_body
obtain_body path backend = rw (encode_string_lem path [], encode_string_lem backend)

length-option_bytes_text :
    (o : Option Text) → IsTextOption o → length (option_bytes o) < u32_mod → IsWireOption o
unfolding option_bytes
length-option_bytes_text none h k = tt
length-option_bytes_text (some s) h k = (h, omega (arith, length-string_bytes s))

pub string_last : (s : Text) → IsWireText s → decode_string (string_bytes s) ≡ ok (s, [])
string_last s h = rw (append-nil (string_bytes s)) at (decode_string-bytes s [] h)

option_last :
    (o : Option Text) → IsWireOption o → decode_option_string (option_bytes o) ≡ ok (o, [])
option_last o h = rw (append-nil (option_bytes o)) at (decode_option_string-bytes o [] h)

pub vec_last :
    (items : List Text)
    → length items < u32_mod
    → All IsWireText items
    → decode_string_vec (vec_bytes items) ≡ ok (items, [])
vec_last items h k = rw (append-nil (vec_bytes items)) at (decode_string_vec-bytes items [] h k)

-- A string in front of `rest` in a payload that fits.
pub wire_text :
    (s rest : Bytes) → IsText s → length (string_bytes s ++ rest) < u32_mod → IsWireText s
wire_text s rest t fits =
    (t, omega (arith, length-string_bytes s, length-append (string_bytes s) rest))

analyze_decodes :
    (path : Text) (backend : Option Text)
    → IsWireText path
    → IsWireOption backend
    → decode_request_body 1 (string_bytes path ++ option_bytes backend) ≡ ok (analyze path backend)
unfolding decode_request_body decode_analyze
analyze_decodes path backend p b =
    rw (decode_string-bytes path (option_bytes backend) p, option_last backend b)

obtain_decodes :
    (path backend : Text)
    → IsWireText path
    → IsWireText backend
    → decode_request_body 2 (string_bytes path ++ string_bytes backend) ≡ ok (obtain path backend)
unfolding decode_request_body decode_obtain
obtain_decodes path backend p b =
    rw (decode_string-bytes path (string_bytes backend) p, string_last backend b)

request_body_decodes :
    (req : Request)
    → IsWireRequest req
    → decode_request_body (request_body req).0 (request_body req).1 ≡ ok req
request_body_decodes ping h = unfold request_body decode_request_body decode_ping in refl
request_body_decodes list_backends h =
    unfold request_body decode_request_body decode_list_backends in refl
request_body_decodes (analyze path backend) ((p, b), fits) =
    let fits' : length (string_bytes path ++ option_bytes backend) < u32_mod =
      rw (analyze_body path backend) at fits in
    rw (analyze_body path backend) (
      analyze_decodes path backend (wire_text path (option_bytes backend) p fits') (
        length-option_bytes_text backend b
          (omega (arith, length-append (string_bytes path) (option_bytes backend)))))
request_body_decodes (obtain path backend) ((p, b), fits) =
    let fits' : length (string_bytes path ++ string_bytes backend) < u32_mod =
      rw (obtain_body path backend) at fits in
    rw (obtain_body path backend) (
      obtain_decodes path backend (wire_text path (string_bytes backend) p fits') (
        b,
        omega (
          arith,
          length-string_bytes backend,
          length-append (string_bytes path) (string_bytes backend),
        ),
      ))

-- Every request whose strings are UTF-8 and whose payload is shorter than 2^32 bytes comes back
-- from its encoding unchanged.
pub decode_request-encode_request :
    (req : Request) → IsWireRequest req → decode_request (encode_request req) ≡ ok req
unfolding decode_request encode_request
decode_request-encode_request req h =
    rw (decode_frame-encode_frame (request_body req).0 (request_body req).1 h.1)
      (request_body_decodes req h)
