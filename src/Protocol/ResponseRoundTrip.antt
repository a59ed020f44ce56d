-- ===== src/Protocol/ResponseRoundTrip.antt =====
-- Decoding what was encoded, for responses.
use os_emulation.Base.{
  ◌<◌, ◌≡◌, refl, Bool, true, false, ok, List, [], ◌∷◌, ◌++◌, length, length-append, append_assoc,
  Bytes, Text, All, arith,
}
use os_emulation.Base.Words.{u32_mod, u32_to_le}
use os_emulation.Protocol.Fields.{decode_string, decode_string_vec}
use os_emulation.Protocol.Message.{
  Response, pong, suitable, unsuitable, ready, error, backends, response_body, encode_response,
  decode_response_body, decode_response, bool_byte,
}
use os_emulation.Protocol.FieldLaws.{
  IsWireText, string_bytes, vec_bytes, items_bytes, encode_string_lem, encode_string_vec_lem,
  decode_string-bytes, length-string_bytes, length-vec_bytes,
}
use os_emulation.Protocol.RoundTrip.{
  IsText, decode_frame-encode_frame, string_last, vec_last, wire_text,
}

abbrev pub HasResponseText : Response → Type 0
HasResponseText pong = Unit
HasResponseText (suitable backend) = IsText backend
HasResponseText (unsuitable backend reasons) = IsText backend × All IsText reasons
HasResponseText (ready exe_path cache_hit backend) = IsText exe_path × IsText backend
HasResponseText (error message) = IsText message
HasResponseText (backends ids) = All IsText ids

abbrev pub IsWireResponse : Response → Type 0
IsWireResponse resp = HasResponseText resp × (length (response_body resp).1 < u32_mod)

-- The payload of each response, in the order that it is read.
unfoldable payload : Response → Bytes
payload pong = []
payload (suitable backend) = string_bytes backend
payload (unsuitable backend reasons) = string_bytes backend ++ vec_bytes reasons
payload (ready exe_path cache_hit backend) =
    string_bytes exe_path ++ (bool_byte cache_hit ∷ string_bytes backend)
payload (error message) = string_bytes message
payload (backends ids) = vec_bytes ids

response_body_lem : (resp : Response) → (response_body resp).1 ≡ payload resp
unfolding response_body payload
response_body_lem pong = refl
response_body_lem (suitable backend) = encode_string_lem backend []
response_body_lem (unsuitable backend reasons) =
    rw (encode_string_lem backend [], encode_string_vec_lem reasons)
response_body_lem (ready exe_path cache_hit backend) =
    rw (encode_string_lem exe_path [], encode_string_lem backend)
      (append_assoc (string_bytes exe_path) (bool_byte cache_hit ∷ []) (string_bytes backend))
response_body_lem (error message) = encode_string_lem message []
response_body_lem (backends ids) = encode_string_vec_lem ids []

items_fit :
    (items : List Text)
    → All IsText items
    → length (items_bytes items) < u32_mod
    → All IsWireText items
unfolding items_bytes
items_fit [] h fits = tt
items_fit (s ∷ items) (hs, h) fits = (
  wire_text s (items_bytes items) hs fits,
  items_fit items h (omega (arith, length-append (string_bytes s) (items_bytes items))),
)

vec_fits :
    (items : List Text) → length (vec_bytes items) < u32_mod → length (items_bytes items) < u32_mod
unfolding vec_bytes u32_to_le
vec_fits items fits = omega arith

vec_decodes :
    (items : List Text)
    → All IsText items
    → length (vec_bytes items) < u32_mod
    → decode_string_vec (vec_bytes items) ≡ ok (items, [])
vec_decodes items h fits =
    vec_last items (omega (arith, length-vec_bytes items)) (items_fit items h (vec_fits items fits))

string_decodes :
    (s : Text)
    → IsText s
    → length (string_bytes s) < u32_mod
    → decode_string (string_bytes s) ≡ ok (s, [])
string_decodes s t fits = string_last s (t, omega (arith, length-string_bytes s))

unsuitable_decodes :
    (backend : Text) (reasons : List Text)
    → IsWireText backend
    → decode_string_vec (vec_bytes reasons) ≡ ok (reasons, [])
    → decode_response_body 2 (string_bytes backend ++ vec_bytes reasons)
      ≡ ok (unsuitable backend reasons)
unfolding decode_response_body
unsuitable_decodes backend reasons b e = rw (decode_string-bytes backend (vec_bytes reasons) b, e)

ready_decodes :
    (exe_path : Text) (cache_hit : Bool) (backend : Text)
    → IsWireText exe_path
    → decode_string (string_bytes backend) ≡ ok (backend, [])
    → decode_response_body 3 (string_bytes exe_path ++ (bool_byte cache_hit ∷ string_bytes backend))
      ≡ ok (ready exe_path cache_hit backend)
unfolding decode_response_body
ready_decodes exe_path true backend p e =
    rw (decode_string-bytes exe_path (1 ∷ string_bytes backend) p, e)
ready_decodes exe_path false backend p e =
    rw (decode_string-bytes exe_path (0 ∷ string_bytes backend) p, e)

response_decodes :
    (resp : Response)
    → HasResponseText resp
    → length (payload resp) < u32_mod
    → decode_response_body (response_body resp).0 (payload resp) ≡ ok resp
unfolding response_body payload
response_decodes pong h fits = unfold decode_response_body in refl
response_decodes (suitable backend) h fits =
    unfold decode_response_body in rw (string_decodes backend h fits)
response_decodes (unsuitable backend reasons) (b, r) fits =
    unsuitable_decodes backend reasons (wire_text backend (vec_bytes reasons) b fits) (
      vec_decodes reasons r
        (omega (arith, length-append (string_bytes backend) (vec_bytes reasons))))
response_decodes (ready exe_path cache_hit backend) (p, b) fits =
    ready_decodes exe_path cache_hit backend
      (wire_text exe_path (bool_byte cache_hit ∷ string_bytes backend) p fits)
      (string_decodes backend b (
        omega (
          arith,
          length-append (string_bytes exe_path) (bool_byte cache_hit ∷ string_bytes backend),
        )))
response_decodes (error message) h fits =
    unfold decode_response_body in rw (string_decodes message h fits)
response_decodes (backends ids) h fits = unfold decode_response_body in rw (vec_decodes ids h fits)

-- Every response whose strings are UTF-8 and whose payload is shorter than 2^32 bytes comes back
-- from its encoding unchanged.
pub decode_response-encode_response :
    (resp : Response) → IsWireResponse resp → decode_response (encode_response resp) ≡ ok resp
unfolding decode_response encode_response
decode_response-encode_response resp (h, fits) =
    rw
      (
        decode_frame-encode_frame (response_body resp).0 (response_body resp).1 fits,
        response_body_lem resp,
      )
      (response_decodes resp h (rw (response_body_lem resp) at fits))
