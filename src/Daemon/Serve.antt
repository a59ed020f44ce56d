-- ===== src/Daemon/Serve.antt =====
-- `handle_client` and `run_on_listener` of crates/daemon/os-daemon/src/lib.rs, over what clients send.
use os_emulation.Base.{
  ◌≡◌, refl, ◌∙◌, inl, inr, Result, Result-cases, ok, err, List, [], ◌∷◌, some, Bytes, Text,
}
use os_emulation.Transform.{TransformBackend}
use os_emulation.Protocol.Frame.{read_frame, write_frame}
use os_emulation.Protocol.Stream.{read_frame-encode_frame}
use os_emulation.Protocol.Message.{
  Request, Response, request_body, encode_request, encode_response, decode_response,
}
use os_emulation.Protocol.RoundTrip.{IsWireRequest, decode_request-encode_request}
use os_emulation.Protocol.ResponseRoundTrip.{IsWireResponse, decode_response-encode_response}
use os_emulation.Daemon.{
  Daemon, dispatch, handle_frame, handle_client, run_on_listener, invalid_request,
}
use os_emulation.Daemon.Registry.{keys}
use os_emulation.Daemon.Dispatch.{IsWellKeyed, Keeps, handle_frame_ok, frame_cases, dispatch-Keeps}

module _ {B : Type 0} (ops : TransformBackend B) where
  client_ok :
      (d : Daemon B) (input frame rest : Bytes)
      → read_frame input ≡ ok (frame, rest)
      → handle_client ops d input ≡ handle_frame ops d frame
  unfolding handle_client
  client_ok d input frame rest e = rw (e, handle_client)

  -- What is written back for a request that fits a frame.
  pub client_answered :
      (d d' : Daemon B) (req : Request) (r : Response) (rest : Bytes)
      → IsWireRequest req
      → dispatch ops d req ≡ some (r, d')
      → handle_client ops d (write_frame (encode_request req) rest) ≡ some (encode_response r, d')
  unfolding encode_request
  client_answered d d' req r rest wq e =
      rw
        (client_ok d _ (encode_request req) rest
          (read_frame-encode_frame (request_body req).0 (request_body req).1 rest wq.1))
        (handle_frame_ok ops d d' (encode_request req) req r (decode_request-encode_request req wq)
          e)

  -- A client that sends a request and reads the reply gets the answer of `dispatch`, where request
  -- and answer fit a frame, whatever it sends behind the request.
  pub client_round_trip :
      (d d' : Daemon B) (req : Request) (r : Response) (rest : Bytes)
      → IsWireRequest req
      → IsWireResponse r
      → dispatch ops d req ≡ some (r, d')
      → (reply : Bytes) × (handle_client ops d (write_frame (encode_request req) rest)
          ≡ some (reply, d'))
        × (decode_response reply ≡ ok r)
  client_round_trip d d' req r rest wq wr e = (
    encode_response r,
    client_answered d d' req r rest wq e,
    decode_response-encode_response r wr,
  )

module _ {B : Type 0} (ops : TransformBackend B)
    (stable : (b : B) (path : Text) → ops.id (ops.obtain b path).1 ≡ ops.id b) where
  frame_served :
      (d : Daemon B) (frame : Bytes)
      → IsWellKeyed ops d
      → (reply : Bytes) × (d' : Daemon B) × (handle_frame ops d frame ≡ some (reply, d'))
        × Keeps ops stable d d'
  frame_served d frame h = elim (frame_cases ops d frame) [
    | inl e ↦ (invalid_request, d, e, (h, refl))
    | inr (req, r, d', q, e) ↦ (encode_response r, d', e, dispatch-Keeps ops stable d d' req r h q)
  ]

  client_served :
      (d : Daemon B) (input : Bytes)
      → IsWellKeyed ops d
      → (reply : Bytes) × (d' : Daemon B) × (handle_client ops d input ≡ some (reply, d'))
        × Keeps ops stable d d'
  unfolding handle_client
  client_served d input h = elim (Result-cases (read_frame input)) [
    | inr (x, e) ↦ ([], d, rw (e, handle_client), (h, refl))
    | inl ((frame, rest), e) ↦
        let (reply, d', q, k) = frame_served d frame h in
        (reply, d', client_ok ops d input frame rest e ∙ q, k)
  ]

  -- Whatever clients send, the accept loop of a daemon whose backends are registered under their
  -- own ids ends without a panic. The registry it leaves has the same keys as before, in order, and
  -- what it has under a key is a backend of that id. (`obtain` keeps a backend's id.)
  pub run_on_listener-IsWellKeyed :
      (d : Daemon B) (streams : List (Result Text Bytes))
      → IsWellKeyed ops d
      → (replies : List Bytes) × (d' : Daemon B) × (run_on_listener ops d streams
          ≡ some (replies, d'))
        × IsWellKeyed ops d'
        × (keys d'.registry ≡ keys d.registry)
  unfolding run_on_listener
  run_on_listener-IsWellKeyed d [] h = ([], d, refl, h, refl)
  run_on_listener-IsWellKeyed d (err e ∷ streams) h = ([], d, refl, h, refl)
  run_on_listener-IsWellKeyed d (ok input ∷ streams) h =
      let (reply, d', q, (k, same)) = client_served d input h in
      let (replies, d'', q', k', same') = run_on_listener-IsWellKeyed d' streams k in
      (reply ∷ replies, d'', rw (q, run_on_listener, q'), k', same' ∙ same)
