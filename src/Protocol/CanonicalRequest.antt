-- ===== src/Protocol/CanonicalRequest.antt =====
-- What `decode_request` accepts: the frame that `encode_request` makes, and no other.
use os_emulation.Base.{
  ℕ, ◌%◌, ◌≡◌, refl, ◌⊎◌, sym, ap, ◌∙◌, ap₂, true, inl, inr, ok, ◌>>◌, >>=-eq-ok, guard-eq-ok,
  guard, [], ◌∷◌, Option, length, append-nil, Bytes, IsByte, Text, All, arith,
}
use os_emulation.Base.Words.{u32_mod, u32_from_le}
use os_emulation.Protocol.Fields.{wire_error, decode_string, decode_option_string}
use os_emulation.Protocol.Frame.{encode_frame, decode_frame}
use os_emulation.Protocol.Message.{
  Request, ping, analyze, obtain, list_backends, is_empty, request_body, encode_request,
  decode_request_body, decode_request, decode_ping, decode_analyze, decode_obtain,
  decode_list_backends,
}
use os_emulation.Protocol.RoundTrip.{analyze_body, obtain_body}
use os_emulation.Protocol.FieldLaws.{string_bytes, option_bytes}
use os_emulation.Protocol.Canonical.{header_bytes, decode_string_sound, decode_option_string_sound}

is_empty_sound : (xs : Bytes) → is_empty xs ≡ true → xs ≡ []
is_empty_sound [] h = refl
is_empty_sound (b ∷ bs) h = cc

decode_analyze_parts :
    (payload : Bytes) (req : Request)
    → decode_analyze payload ≡ ok req
    → (path : Text) × (rest : Bytes) × (backend : Option Text) × (decode_string payload
        ≡ ok (path, rest))
      × (decode_option_string rest ≡ ok (backend, []))
      × (req ≡ analyze path backend)
unfolding decode_analyze
decode_analyze_parts payload req h =
    let ((path, rest), d, k) = >>=-eq-ok (decode_string payload) _ h in
    let ((backend, rest'), d', k') = >>=-eq-ok (decode_option_string rest) _ k in
    let (u, g, last) = >>=-eq-ok (guard (is_empty rest') wire_error) _ k' in
    let none_left : rest' ≡ [] = is_empty_sound rest' (guard-eq-ok (is_empty rest') wire_error g) in
    (path, rest, backend, d, d' ∙ ap (λ (q : Bytes). ok (backend, q)) none_left, cc last)

decode_obtain_parts :
    (payload : Bytes) (req : Request)
    → decode_obtain payload ≡ ok req
    → (path : Text) × (rest : Bytes) × (backend : Text) × (decode_string payload ≡ ok (path, rest))
      × (decode_string rest ≡ ok (backend, []))
      × (req ≡ obtain path backend)
unfolding decode_obtain
decode_obtain_parts payload req h =
    let ((path, rest), d, k) = >>=-eq-ok (decode_string payload) _ h in
    let ((backend, rest'), d', k') = >>=-eq-ok (decode_string rest) _ k in
    let (u, g, last) = >>=-eq-ok (guard (is_empty rest') wire_error) _ k' in
    let none_left : rest' ≡ [] = is_empty_sound rest' (guard-eq-ok (is_empty rest') wire_error g) in
    (path, rest, backend, d, d' ∙ ap (λ (q : Bytes). ok (backend, q)) none_left, cc last)

-- What the arm that a tag selects accepts is the body of the request.
abbrev IsBody : ℕ → Bytes → Request → Type 0
IsBody tag payload req = (request_body req).0 ≡ tag × (request_body req).1 ≡ payload

decode_analyze_sound :
    (payload : Bytes) (req : Request)
    → All IsByte payload
    → decode_analyze payload ≡ ok req
    → IsBody 1 payload req
decode_analyze_sound payload req h e =
    let (path, rest, backend, d, d', r) = decode_analyze_parts payload req e in
    let (w, (q, k)) = decode_string_sound payload path rest h d in
    let (w', (q', k')) = decode_option_string_sound rest backend [] k d' in
    rw (r, analyze_body path backend, q, q', append-nil (option_bytes backend)) (refl, refl)

decode_obtain_sound :
    (payload : Bytes) (req : Request)
    → All IsByte payload
    → decode_obtain payload ≡ ok req
    → IsBody 2 payload req
decode_obtain_sound payload req h e =
    let (path, rest, backend, d, d', r) = decode_obtain_parts payload req e in
    let (w, (q, k)) = decode_string_sound payload path rest h d in
    let (w', (q', k')) = decode_string_sound rest backend [] k d' in
    rw (r, obtain_body path backend, q, q', append-nil (string_bytes backend)) (refl, refl)

decode_empty_sound :
    (payload : Bytes) (req out : Request)
    → (guard (is_empty payload) wire_error >> ok out) ≡ ok req
    → (payload ≡ []) × (req ≡ out)
decode_empty_sound [] req out e = (refl, cc e)
decode_empty_sound (b ∷ bs) req out e = cc

decode_request_body_arms :
    (tag : ℕ) (payload : Bytes) (req : Request)
    → decode_request_body tag payload ≡ ok req
    → ((tag ≡ 0) × (decode_ping payload ≡ ok req))
      ⊎ (((tag ≡ 1) × (decode_analyze payload ≡ ok req))
          ⊎ (((tag ≡ 2) × (decode_obtain payload ≡ ok req))
              ⊎ ((tag ≡ 3) × (decode_list_backends payload ≡ ok req))))
unfolding decode_request_body
decode_request_body_arms tag payload req e = ground arith

decode_request_body_sound :
    (tag : ℕ) (payload : Bytes) (req : Request)
    → All IsByte payload
    → decode_request_body tag payload ≡ ok req
    → IsBody tag payload req
unfolding request_body
decode_request_body_sound tag payload req h e = elim (decode_request_body_arms tag payload req e) [
  | inl (t, d) ↦
      let (p, r) = decode_empty_sound payload req ping (unfold decode_ping in d) in
      rw (t, p, r) (refl, refl)
  | inr (inl (t, d)) ↦ rw t (decode_analyze_sound payload req h d)
  | inr (inr (inl (t, d))) ↦ rw t (decode_obtain_sound payload req h d)
  | inr (inr (inr (t, d))) ↦
      let (p, r) =
        decode_empty_sound payload req list_backends (unfold decode_list_backends in d) in
      rw (t, p, r) (refl, refl)
]

decode_frame_parts :
    (version tag b0 b1 b2 b3 : ℕ) (payload : Bytes) (t : ℕ) (p : Bytes)
    → decode_frame (version ∷ tag ∷ b0 ∷ b1 ∷ b2 ∷ b3 ∷ payload) ≡ ok (t, p)
    → (version ≡ 2) × (tag ≡ t) × (u32_from_le b0 b1 b2 b3 ≡ length payload) × (payload ≡ p)
unfolding decode_frame
decode_frame_parts version tag b0 b1 b2 b3 payload t p e = ground arith

decode_frame_sound :
    (buf : Bytes) (tag : ℕ) (payload : Bytes)
    → All IsByte buf
    → decode_frame buf ≡ ok (tag, payload)
    → (buf ≡ encode_frame tag payload) × All IsByte payload
decode_frame_sound [] t p h e = unfold decode_frame in cc
decode_frame_sound (a ∷ []) t p h e = unfold decode_frame in cc
decode_frame_sound (a ∷ b ∷ []) t p h e = unfold decode_frame in cc
decode_frame_sound (a ∷ b ∷ c ∷ []) t p h e = unfold decode_frame in cc
decode_frame_sound (a ∷ b ∷ c ∷ d ∷ []) t p h e = unfold decode_frame in cc
decode_frame_sound (a ∷ b ∷ c ∷ d ∷ f ∷ []) t p h e = unfold decode_frame in cc
decode_frame_sound (version ∷ tag ∷ b0 ∷ b1 ∷ b2 ∷ b3 ∷ payload) t p h e =
    let (v, g, n, q) = decode_frame_parts version tag b0 b1 b2 b3 payload t p e in
    let tail : All IsByte (b0 ∷ b1 ∷ b2 ∷ b3 ∷ payload) = h.1.1 in
    let bytes : All IsByte payload = tail.1.1.1.1 in
    let (hd, fits) = header_bytes b0 b1 b2 b3 (length payload) payload tail n in
    let small : length payload % u32_mod ≡ length payload = omega arith in
    let whole : version ∷ tag ∷ b0 ∷ b1 ∷ b2 ∷ b3 ∷ payload ≡ encode_frame tag payload =
      unfold encode_frame in rw (small, hd, v) in
    (whole ∙ ap₂ encode_frame g q, rw q at bytes)

-- A sequence of bytes that decodes to a request is the encoding of that request: no two frames mean
-- the same, and nothing may follow a payload.
pub encode_request-decode_request :
    (buf : Bytes) (req : Request)
    → All IsByte buf
    → decode_request buf ≡ ok req
    → encode_request req ≡ buf
unfolding decode_request encode_request
encode_request-decode_request buf req h e =
    let ((tag, payload), d, k) = >>=-eq-ok (decode_frame buf) _ e in
    let (whole, bytes) = decode_frame_sound buf tag payload h d in
    let (t, p) = decode_request_body_sound tag payload req bytes k in
    ap₂ encode_frame t p ∙ sym whole
