-- ===== src/Daemon.antt =====
-- The transform daemon, crates/daemon/os-daemon/src/lib.rs: a registry of backends and the handlers
-- of requests. `none` is a panic of `backends[id]`; a lock that is poisoned does not occur.
pub mod Registry
pub mod RegistryLaws
pub mod Analyze
pub mod Dispatch
pub mod Serve
pub mod Client
pub mod ClientLaws
pub mod SocketPath
mod ClientExamples
mod Examples
use os_emulation.Base.{
  Bool, true, false, if◌then◌else◌, Result, ok, err, List, [], ◌∷◌, ◌++◌, Option, none, some, Bytes,
  Text, ascii,
}
use os_emulation.Transform.{
  Suitability, ObtainError, unsuitable_input, transform_failed, RunAs, exec, TransformBackend,
}
use os_emulation.Protocol.Frame.{read_frame}
use os_emulation.Protocol.Message.{
  Request, ping, analyze, obtain, list_backends, Response, pong, suitable, unsuitable, ready, error,
  backends, decode_request, encode_response,
}
use Registry.{get, insert, keys, sort}

pub record Daemon (B : Type 0) : Type 0 where
  pub registry : List (Text × B)

module _ {B : Type 0} where
  pub new : Daemon B
  new = record { registry = [] }

unfoldable pub unknown_backend : Text → Response
unknown_backend id = error (ascii "unknown backend: " ++ id)

-- The answer to one backend's analysis.
unfoldable pub analysis : Text → Result Text Suitability → Response
analysis id (ok s) = if s.suitable then suitable id else unsuitable id s.reasons
analysis id (err e) = error e

unfoldable pub is_suitable : Response → Bool
is_suitable (suitable id) = true
is_suitable _ = false

-- The answer to one backend's `obtain`; `cache_hit` is always false here.
unfoldable pub obtained : Text → Result ObtainError RunAs → Response
obtained id (ok (exec exe)) = ready exe false id
obtained id (err (unsuitable_input s)) = unsuitable id s.reasons
obtained id (err (transform_failed e)) = error e

unfoldable pub nothing_registered : Response
nothing_registered = unsuitable [] (ascii "no backend registered" ∷ [])

unfoldable pub invalid_request : Bytes
invalid_request = encode_response (error (ascii "invalid request"))

module _ {B : Type 0} (ops : TransformBackend B) where
  unfoldable pub register : Daemon B → B → Daemon B
  register d b = record { registry = insert (ops.id b) b d.registry }

  unfoldable pub analyze_one : Text → B → Text → Response
  unfolding analysis
  analyze_one id b path = analysis id (ops.analyze b path)

  -- The loop over the sorted ids: the first suitable backend wins, else the last answer.
  unfoldable pub analyze_loop : List (Text × B) → Text → List Text → Response → Option Response
  analyze_loop m path [] last = some last
  analyze_loop m path (id ∷ ids) last = elim (get m id) [
    | none ↦ none
    | some b ↦
        let r = analyze_one id b path in
        let rest = analyze_loop m path ids r in if is_suitable r then some r else rest
  ]

  unfoldable pub handle_analyze : Daemon B → Text → Option Text → Option Response
  handle_analyze d path (some id) = elim (get d.registry id) [
    | some b ↦ some (analyze_one id b path)
    | none ↦ some (unknown_backend id)
  ]
  handle_analyze d path none =
      analyze_loop d.registry path (sort (keys d.registry)) nothing_registered

  unfoldable pub handle_obtain : Daemon B → Text → Text → Response × Daemon B
  handle_obtain d path id = elim (get d.registry id) [
    | none ↦ (unknown_backend id, d)
    | some b ↦
        let (result, b') = ops.obtain b path in
        (obtained id result, record d { registry = insert id b' d.registry })
  ]

  unfoldable pub dispatch : Daemon B → Request → Option (Response × Daemon B)
  dispatch d ping = some (pong, d)
  dispatch d (analyze path backend) = elim (handle_analyze d path backend) [
    | none ↦ none
    | some r ↦ some (r, d)
  ]
  dispatch d (obtain path backend) = some (handle_obtain d path backend)
  dispatch d list_backends = some (backends (sort (keys d.registry)), d)

  unfoldable pub handle_frame : Daemon B → Bytes → Option (Bytes × Daemon B)
  handle_frame d frame = elim (decode_request frame) [
    | err e ↦ some (invalid_request, d)
    | ok req ↦ elim (dispatch d req) [ none ↦ none | some (r, d') ↦ some (encode_response r, d') ]
  ]

  -- `handle_client` on what a client sends: what is written back, or nothing if no frame was read.
  unfoldable pub handle_client : Daemon B → Bytes → Option (Bytes × Daemon B)
  handle_client d input = elim (read_frame input) [
    | err e ↦ some ([], d)
    | ok (frame, rest) ↦ handle_frame d frame
  ]

  -- `run_on_listener` on the connections that arrive: the replies, and the daemon at the end. A
  -- client's failure is dropped (`let _ =`); a failed accept ends the loop.
  unfoldable pub run_on_listener :
      Daemon B → List (Result Text Bytes) → Option (List Bytes × Daemon B)
  run_on_listener d [] = some ([], d)
  run_on_listener d (err e ∷ streams) = some ([], d)
  run_on_listener d (ok input ∷ streams) = elim (handle_client d input) [
    | none ↦ none
    | some (reply, d') ↦ elim (run_on_listener d' streams) [
      | none ↦ none
      | some (replies, d'') ↦ some (reply ∷ replies, d'')
    ]
  ]
