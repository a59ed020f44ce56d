-- ===== src/Daemon/Examples.antt =====
-- Runs of the daemon of crates/daemon/os-daemon/src/lib.rs with two backends.
use os_emulation.Base.{
  ◌≡◌, refl, ok, err, List, [], ◌∷◌, some, none, Bytes, Text, ascii, text_eq, arith,
}
use os_emulation.Transform.{TransformBackend, exec}
use os_emulation.Protocol.Examples.{a_buffer}
use os_emulation.Protocol.Message.{
  pong, ping, encode_request, decode_response, request_body, response_body,
}
use os_emulation.Protocol.Frame.{write_frame}
use os_emulation.Daemon.{
  Daemon, new, register, handle_analyze, handle_obtain, dispatch, handle_client, run_on_listener,
}
use os_emulation.Daemon.Registry.{get, keys}
use os_emulation.Daemon.Analyze.{PicksLeast, handle_analyze_default}
use os_emulation.Daemon.Dispatch.{Routed, handle_obtain_routes, IsWellKeyed, register-IsWellKeyed}
use os_emulation.Daemon.Serve.{client_round_trip, run_on_listener-IsWellKeyed}

-- Backends that are their ids; only "b" suits.
abbrev named : TransformBackend Text
named = record {
  id = λ b. b;
  analyze = λ b path. ok (record { suitable = text_eq b (ascii "b"); reasons = ascii "no" ∷ [] });
  obtain = λ b path. (ok (exec path), b);
}

abbrev two_backends : Daemon Text
two_backends = register named (register named new (ascii "c")) (ascii "b")

empty-IsWellKeyed : IsWellKeyed named new
unfolding new get
empty-IsWellKeyed k b e = absurd (cc e)

two_backends-IsWellKeyed : IsWellKeyed named two_backends
two_backends-IsWellKeyed =
    register-IsWellKeyed named (register named new (ascii "c")) (ascii "b")
      (register-IsWellKeyed named new (ascii "c") empty-IsWellKeyed)

handle_analyze_default_example :
    PicksLeast named
      (ascii "p")
      two_backends.registry
      (handle_analyze named two_backends (ascii "p") none)
handle_analyze_default_example = handle_analyze_default named (ascii "p") two_backends

handle_obtain_routes_example :
    Routed named two_backends
      (ascii "p")
      (ascii "c")
      (handle_obtain named two_backends (ascii "p") (ascii "c"))
handle_obtain_routes_example = handle_obtain_routes named two_backends (ascii "p") (ascii "c")

client_round_trip_example :
    (reply : Bytes) × (handle_client named two_backends (write_frame (encode_request ping) (7 ∷ []))
      ≡ some (reply, two_backends))
    × (decode_response reply ≡ ok pong)
client_round_trip_example =
    client_round_trip named two_backends two_backends ping pong (7 ∷ [])
      (tt, unfold request_body in omega arith) (tt, unfold response_body in omega arith)
      (unfold dispatch in refl)

run_on_listener-IsWellKeyed_example :
    (replies : List Bytes) × (d' : Daemon Text) × (run_on_listener named two_backends
        (ok (1 ∷ 2 ∷ []) ∷ ok a_buffer ∷ err (ascii "io") ∷ [])
      ≡ some (replies, d'))
    × IsWellKeyed named d'
    × (keys d'.registry ≡ keys two_backends.registry)
run_on_listener-IsWellKeyed_example =
    run_on_listener-IsWellKeyed named (λ b path. refl) two_backends
      (ok (1 ∷ 2 ∷ []) ∷ ok a_buffer ∷ err (ascii "io") ∷ []) two_backends-IsWellKeyed
