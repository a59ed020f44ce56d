-- ===== src/Daemon/Dispatch.antt =====
-- `dispatch` of crates/daemon/os-daemon/src/lib.rs, and the keys of its registry.
use os_emulation.Base.{
  ◌≡◌, ◌≢◌, ◌++◌, ascii, false, Result, ◌⊎◌, subst, refl, sym, ap, ◌∙◌, inl, inr, Bool-cases,
  Option-cases, if◌then◌else◌, Result-cases, ok, err, List, Option, none, some, Bytes, Text,
  text_eq, text_eq_sound, arith,
}
use mathlib.Core.List.{Perm}
use os_emulation.Transform.{
  Suitability, ObtainError, unsuitable_input, transform_failed, RunAs, exec, TransformBackend,
}
use os_emulation.Protocol.Fields.{WireError}
use os_emulation.Protocol.Message.{
  Request, ping, analyze, obtain, list_backends, Response, ready, unsuitable, error, backends,
  decode_request, encode_response,
}
use os_emulation.Daemon.{
  Daemon, register, handle_analyze, handle_obtain, dispatch, handle_frame, invalid_request,
  obtained, unknown_backend,
}
use os_emulation.Daemon.Registry.{get, insert, keys, sort}
use os_emulation.Daemon.RegistryLaws.{get-insert, keys-insert, Sorted, sort-Sorted, sort-perm}
use os_emulation.Daemon.Analyze.{handle_analyze_default}

same_snd :
    {X Y : Type 0} {x x' : X} {y y' : Y}
    → ◌≡◌ {A = Option (X × Y)} (some (x, y)) (some (x', y'))
    → y ≡ y'
same_snd e = ground arith

-- What an answer must say of a backend's result.
abbrev pub Reports : Text → Result ObtainError RunAs → Response → Type 0
Reports id result (ready exe cached backend) =
    (result ≡ ok (exec exe)) × (cached ≡ false) × (backend ≡ id)
Reports id result (unsuitable backend reasons) =
    (backend ≡ id) × (s : Suitability) × (result ≡ err (unsuitable_input s)) × (s.reasons ≡ reasons)
Reports id result (error message) = result ≡ err (transform_failed message)
Reports id result _ = ⊥

obtained-Reports :
    (id : Text) (result : Result ObtainError RunAs) → Reports id result (obtained id result)
unfolding obtained
obtained-Reports id (ok (exec exe)) = (refl, refl, refl)
obtained-Reports id (err (unsuitable_input s)) = (refl, s, refl, refl)
obtained-Reports id (err (transform_failed e)) = refl

module _ {B : Type 0} (ops : TransformBackend B) where
  handle_analyze-ne-none :
      (d : Daemon B) (path : Text) (backend : Option Text)
      → handle_analyze ops d path backend ≢ none
  handle_analyze-ne-none d path (some id) e = unfold handle_analyze in ground arith
  handle_analyze-ne-none d path none e = elim (handle_analyze_default ops path d) [
    | inl (id, b, q, s, a, rest) ↦ cc
    | inr (a, q, f, rest) ↦ cc
  ]

  -- Every request is answered: the lookup `backends[id]` never panics.
  pub dispatch_total :
      (d : Daemon B) (req : Request)
      → (r : Response) × (d' : Daemon B) × (dispatch ops d req ≡ some (r, d'))
  unfolding dispatch
  dispatch_total d ping = (_, _, refl)
  dispatch_total d (analyze path backend) =
      elim (Option-cases (handle_analyze ops d path backend)) [
        | inl e ↦ absurd (handle_analyze-ne-none d path backend e)
        | inr (r, e) ↦ (r, d, rw (e, dispatch))
      ]
  dispatch_total d (obtain path backend) = (_, _, refl)
  dispatch_total d list_backends = (_, _, refl)

  -- `ListBackends` answers with the registered ids, each as often as it is registered, in order.
  pub list_backends-Sorted :
      (d : Daemon B)
      → (ids : List Text) × (dispatch ops d list_backends ≡ some (backends ids, d))
        × Sorted ids
        × Perm ids (keys d.registry)
  unfolding dispatch
  list_backends-Sorted d =
      (sort (keys d.registry), refl, sort-Sorted (keys d.registry), sort-perm (keys d.registry))

  obtain_known :
      (d : Daemon B) (path id : Text) (b : B)
      → get d.registry id ≡ some b
      → handle_obtain ops d path id ≡ (
        obtained id (ops.obtain b path).0,
        record d { registry = insert id (ops.obtain b path).1 d.registry },
      )
  unfolding handle_obtain
  obtain_known d path id b e = rw (e, handle_obtain)

  obtain_unknown :
      (d : Daemon B) (path id : Text)
      → get d.registry id ≡ none
      → handle_obtain ops d path id ≡ (unknown_backend id, d)
  unfolding handle_obtain
  obtain_unknown d path id e = rw (e, handle_obtain)

  -- `r` is the answer of the backend under `id`, which alone has changed, or names the unknown id.
  abbrev pub Routed : Daemon B → Text → Text → Response × Daemon B → Type 0
  Routed d path id r =
      ((b : B) × (get d.registry id ≡ some b)
        × Reports id (ops.obtain b path).0 r.0
        × ((j : Text)
            → get r.1.registry j
              ≡ (if text_eq id j then some (ops.obtain b path).1 else get d.registry j)))
      ⊎ ((get d.registry id ≡ none) × (r.0 ≡ error (ascii "unknown backend: " ++ id)) × (r.1 ≡ d))

  -- An `obtain` that names a registered backend is answered by what that backend did: the path of the
  -- executable, not as a cache hit, or the reasons of its refusal, both with the id, or the message of
  -- its failure. It changes no other backend. An `obtain` of an unknown id is answered by an error that
  -- names the id, and changes nothing.
  pub handle_obtain_routes :
      (d : Daemon B) (path id : Text) → Routed d path id (handle_obtain ops d path id)
  unfolding unknown_backend
  handle_obtain_routes d path id = elim (Option-cases (get d.registry id)) [
    | inl e ↦ inr (
      e,
      ap (λ (p : Response × Daemon B). p.0) (obtain_unknown d path id e),
      ap (λ (p : Response × Daemon B). p.1) (obtain_unknown d path id e),
    )
    | inr (b, e) ↦ inl (
      b,
      e,
      rw (obtain_known d path id b e) (obtained-Reports id (ops.obtain b path).0),
      λ j. rw (obtain_known d path id b e) (get-insert d.registry id j (ops.obtain b path).1),
    )
  ]

  -- Every backend is registered under its own id.
  abbrev pub IsWellKeyed : Daemon B → Type 0
  IsWellKeyed d = (k : Text) (b : B) → get d.registry k ≡ some b → ops.id b ≡ k

  insert_keyed :
      (m : List (Text × B)) (k : Text) (v : B)
      → ((j : Text) (b : B) → get m j ≡ some b → ops.id b ≡ j)
      → ops.id v ≡ k
      → (j : Text) (b : B) → get (insert k v m) j ≡ some b
      → ops.id b ≡ j
  insert_keyed m k v h e j b q = elim (Bool-cases (text_eq k j)) [
    | inl same ↦
        let found : some v ≡ some b = rw (get-insert m k j v, same) at q in
        let vb : v ≡ b = cc found in ap ops.id (sym vb) ∙ e ∙ text_eq_sound k j same
    | inr other ↦ h j b (rw (get-insert m k j v, other) at q)
  ]

  pub register-IsWellKeyed : (d : Daemon B) (b : B) → IsWellKeyed d → IsWellKeyed (register ops d b)
  unfolding register
  register-IsWellKeyed d b h = insert_keyed d.registry (ops.id b) b h refl

  pub handle_frame_ok :
      (d d' : Daemon B) (frame : Bytes) (req : Request) (r : Response)
      → decode_request frame ≡ ok req
      → dispatch ops d req ≡ some (r, d')
      → handle_frame ops d frame ≡ some (encode_response r, d')
  unfolding handle_frame
  handle_frame_ok d d' frame req r e q = rw (e, handle_frame, q)

  -- A frame that does not decode is answered with an error, and changes nothing.
  pub handle_frame_err :
      (d : Daemon B) (frame : Bytes) (e : WireError)
      → decode_request frame ≡ err e
      → handle_frame ops d frame ≡ some (invalid_request, d)
  unfolding handle_frame
  handle_frame_err d frame x e = rw (e, handle_frame)

  -- A frame is refused, which changes nothing, or its request is dispatched.
  pub frame_cases :
      (d : Daemon B) (frame : Bytes)
      → ((handle_frame ops d frame ≡ some (invalid_request, d)))
        ⊎ ((req : Request) × (r : Response) × (d' : Daemon B) × (dispatch ops d req ≡ some (r, d'))
            × (handle_frame ops d frame ≡ some (encode_response r, d')))
  frame_cases d frame = elim (Result-cases (decode_request frame)) [
    | inr (x, e) ↦ inl (handle_frame_err d frame x e)
    | inl (req, e) ↦
        let (r, d', q) = dispatch_total d req in
        inr (req, r, d', q, handle_frame_ok d d' frame req r e q)
  ]

module _ {B : Type 0} (ops : TransformBackend B)
    (stable : (b : B) (path : Text) → ops.id (ops.obtain b path).1 ≡ ops.id b) where
  -- `d'` has the keys of `d`, each for the backend of that id.
  abbrev pub Keeps : Daemon B → Daemon B → Type 0
  Keeps d d' = IsWellKeyed ops d' × (keys d'.registry ≡ keys d.registry)

  handle_obtain-Keeps :
      (d : Daemon B) (path id : Text) → IsWellKeyed ops d → Keeps d (handle_obtain ops d path id).1
  handle_obtain-Keeps d path id h = elim (Option-cases (get d.registry id)) [
    | inl e ↦ rw (obtain_unknown ops d path id e) (h, refl)
    | inr (b, e) ↦ rw (obtain_known ops d path id b e) (
      insert_keyed ops d.registry id (ops.obtain b path).1 h (stable b path ∙ h id b e),
      keys-insert d.registry id b (ops.obtain b path).1 e,
    )
  ]

  pub dispatch-Keeps :
      (d d' : Daemon B) (req : Request) (r : Response)
      → IsWellKeyed ops d
      → dispatch ops d req ≡ some (r, d')
      → Keeps d d'
  unfolding dispatch
  dispatch-Keeps d d' ping r h e = subst (Keeps d) (same_snd e) (h, refl)
  dispatch-Keeps d d' list_backends r h e = subst (Keeps d) (same_snd e) (h, refl)
  dispatch-Keeps d d' (obtain path id) r h e =
      subst (Keeps d) (same_snd e) (handle_obtain-Keeps d path id h)
  dispatch-Keeps d d' (analyze path backend) r h e = subst (Keeps d) (ground arith) (h, refl)
