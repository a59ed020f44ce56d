-- ===== src/Protocol/Message.antt =====
-- Requests and responses of crates/daemon/os-daemon-protocol/src/lib.rs and their codecs.
use os_emulation.Base.{
  ℕ, ◌==◌, if◌then◌else◌, Bool, true, false, not, Result, ok, err, ◌>>=◌, ◌>>◌, guard, List, [],
  ◌∷◌, ◌++◌, Option, Bytes, Text,
}
use os_emulation.Protocol.Fields.{
  WireError, wire_error, encode_string, decode_string, encode_option_string, decode_option_string,
  encode_string_vec, decode_string_vec,
}
use os_emulation.Protocol.Frame.{encode_frame, decode_frame}

abbrev pub op_ping : ℕ
op_ping = 0

abbrev pub op_analyze : ℕ
op_analyze = 1

abbrev pub op_obtain : ℕ
op_obtain = 2

abbrev pub op_list_backends : ℕ
op_list_backends = 3

abbrev pub status_pong : ℕ
status_pong = 0

abbrev pub status_suitable : ℕ
status_suitable = 1

abbrev pub status_unsuitable : ℕ
status_unsuitable = 2

abbrev pub status_ready : ℕ
status_ready = 3

abbrev pub status_error : ℕ
status_error = 4

abbrev pub status_backends : ℕ
status_backends = 5

pub data Request : Type 0 where
  ping : Request
  analyze : Text → Option Text → Request
  obtain : Text → Text → Request
  list_backends : Request

-- `ready exe_path cache_hit backend`
pub data Response : Type 0 where
  pong : Response
  suitable : Text → Response
  unsuitable : Text → List Text → Response
  ready : Text → Bool → Text → Response
  error : Text → Response
  backends : List Text → Response

-- `rest.is_empty()`
abbrev pub is_empty : Bytes → Bool
is_empty [] = true
is_empty (b ∷ bs) = false

-- The tag and the payload that `encode_request` builds.
unfoldable pub request_body : Request → ℕ × Bytes
request_body ping = (op_ping, [])
request_body (analyze path backend) =
    (op_analyze, encode_option_string backend (encode_string path []))
request_body (obtain path backend) = (op_obtain, encode_string backend (encode_string path []))
request_body list_backends = (op_list_backends, [])

unfoldable pub encode_request : Request → Bytes
unfolding request_body
encode_request req = let (tag, payload) = request_body req in encode_frame tag payload

-- The arms of the match in `decode_request`.
unfoldable pub decode_ping : Bytes → Result WireError Request
decode_ping payload = do guard (is_empty payload) wire_error; ok ping

unfoldable pub decode_analyze : Bytes → Result WireError Request
decode_analyze payload = do
  (path, rest) ← decode_string payload
  (backend, rest') ← decode_option_string rest
  guard (is_empty rest') wire_error
  ok (analyze path backend)

unfoldable pub decode_obtain : Bytes → Result WireError Request
decode_obtain payload = do
  (path, rest) ← decode_string payload
  (backend, rest') ← decode_string rest
  guard (is_empty rest') wire_error
  ok (obtain path backend)

unfoldable pub decode_list_backends : Bytes → Result WireError Request
decode_list_backends payload = do guard (is_empty payload) wire_error; ok list_backends

unfoldable pub decode_request_body : ℕ → Bytes → Result WireError Request
decode_request_body tag payload =
    if tag == op_ping
    then decode_ping payload
    else if tag == op_analyze
    then decode_analyze payload
    else if tag == op_obtain
    then decode_obtain payload
    else if tag == op_list_backends
    then decode_list_backends payload
    else err wire_error

unfoldable pub decode_request : Bytes → Result WireError Request
unfolding decode_request_body decode_ping decode_analyze decode_obtain decode_list_backends
decode_request buf = do (tag, payload) ← decode_frame buf; decode_request_body tag payload

-- `u8::from(b)`
abbrev pub bool_byte : Bool → ℕ
bool_byte true = 1
bool_byte false = 0

unfoldable pub response_body : Response → ℕ × Bytes
response_body pong = (status_pong, [])
response_body (suitable backend) = (status_suitable, encode_string backend [])
response_body (unsuitable backend reasons) =
    (status_unsuitable, encode_string_vec reasons (encode_string backend []))
response_body (ready exe_path cache_hit backend) =
    (status_ready, encode_string backend (encode_string exe_path [] ++ (bool_byte cache_hit ∷ [])))
response_body (error message) = (status_error, encode_string message [])
response_body (backends ids) = (status_backends, encode_string_vec ids [])

unfoldable pub encode_response : Response → Bytes
unfolding response_body
encode_response resp = let (tag, payload) = response_body resp in encode_frame tag payload

-- `rest[0] != 0` and `&rest[1..]`, behind the test that `rest` is not empty.
unfoldable pub split_flag : Bytes → Result WireError (Bool × Bytes)
split_flag [] = err wire_error
split_flag (b ∷ bs) = ok (not (b == 0), bs)

unfoldable pub decode_response_body : ℕ → Bytes → Result WireError Response
unfolding split_flag
decode_response_body tag payload =
    if tag == status_pong
    then (do guard (is_empty payload) wire_error; ok pong)
    else if tag == status_suitable
    then (do
      (backend, rest) ← decode_string payload
      guard (is_empty rest) wire_error
      ok (suitable backend))
    else if tag == status_unsuitable
    then (do
      (backend, rest) ← decode_string payload
      (reasons, rest') ← decode_string_vec rest
      guard (is_empty rest') wire_error
      ok (unsuitable backend reasons))
    else if tag == status_ready
    then (do
      (exe_path, rest) ← decode_string payload
      (cache_hit, rest') ← split_flag rest
      (backend, rest'') ← decode_string rest'
      guard (is_empty rest'') wire_error
      ok (ready exe_path cache_hit backend))
    else if tag == status_error
    then (do
      (message, rest) ← decode_string payload
      guard (is_empty rest) wire_error
      ok (error message))
    else if tag == status_backends
    then (do
      (ids, rest) ← decode_string_vec payload
      guard (is_empty rest) wire_error
      ok (backends ids))
    else err wire_error

unfoldable pub decode_response : Bytes → Result WireError Response
unfolding decode_response_body
decode_response buf = do (tag, payload) ← decode_frame buf; decode_response_body tag payload
