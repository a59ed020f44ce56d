-- ===== src/Protocol/Stream.antt =====
-- Frames on a byte stream: a reader gets back what a writer put on it, frame by frame.
use os_emulation.Base.{
  ℕ, ◌%◌, ◌<◌, ◌≡◌, refl, sym, ap, ◌∙◌, ok, >>=-eq-ok, [], ◌∷◌, ◌++◌, length, length-append,
  take-append, drop-append, take-append-drop, append-nil, append_assoc, ltb, le→ltb, ltb→le,
  Bool-cases, inl, inr, false, Bytes, arith,
}
use os_emulation.Base.Words.{u32_mod, u32_to_le}
use os_emulation.Protocol.Frame.{
  encode_frame, read_exact, read_frame, read_payload, header_length, write_frame,
}
use os_emulation.Protocol.FieldLaws.{u32_header}

read_exact-append : (n : ℕ) (xs ys : Bytes) → length xs ≡ n → read_exact n (xs ++ ys) ≡ ok (xs, ys)
unfolding read_exact
read_exact-append n xs ys e =
    let fits : ltb (length (xs ++ ys)) (length xs) ≡ false =
      le→ltb _ _ (omega (arith, length-append xs ys)) in
    rw (← e, fits, take-append xs ys, drop-append xs ys)

read_exact_split : (n : ℕ) (r xs ys : Bytes) → read_exact n r ≡ ok (xs, ys) → r ≡ xs ++ ys
unfolding read_exact
read_exact_split n r xs ys h = ground (arith, take-append-drop n r)

empty_of_length : (xs : Bytes) → ltb 0 (length xs) ≡ false → xs ≡ []
empty_of_length [] h = refl
empty_of_length (x ∷ xs) h = absurd (omega (arith, ltb→le 0 (length (x ∷ xs)) h))

read_frame_parts :
    (hdr payload rest : Bytes)
    → length hdr ≡ 6
    → header_length hdr ≡ length payload
    → read_frame (hdr ++ (payload ++ rest)) ≡ ok (hdr ++ payload, rest)
unfolding read_frame read_payload
read_frame_parts hdr payload rest six n =
    rw (read_exact-append 6 hdr (payload ++ rest) six, n)
      (elim (Bool-cases (ltb 0 (length payload))) [
        | inl some_left ↦ rw (some_left, read_exact-append (length payload) payload rest refl)
        | inr empty ↦ rw (empty_of_length payload empty) (rw (append-nil hdr))
      ])

-- With a payload shorter than 2^32 bytes, a frame that was written in front of `rest` is read
-- whole, and the reader is left at `rest`.
pub read_frame-encode_frame :
    (tag : ℕ) (payload rest : Bytes)
    → length payload < u32_mod
    → read_frame (write_frame (encode_frame tag payload) rest) ≡ ok (encode_frame tag payload, rest)
unfolding write_frame encode_frame u32_to_le header_length
read_frame-encode_frame tag payload rest fits =
    read_frame_parts (2 ∷ tag ∷ u32_to_le (length payload % u32_mod)) payload rest refl
      (u32_header _ fits)

read_payload_split :
    (hdr r frame rest : Bytes)
    → read_payload hdr r ≡ ok (frame, rest)
    → (payload : Bytes) × (frame ≡ hdr ++ payload) × (r ≡ payload ++ rest)
unfolding read_payload
read_payload_split hdr r frame rest h = elim (Bool-cases (ltb 0 (header_length hdr))) [
  | inl more ↦
      let ((payload, r'), d, k) = >>=-eq-ok (read_exact (header_length hdr) r) _ (rw more at h) in
      (payload, cc k, read_exact_split _ r payload r' d ∙ cc k)
  | inr done ↦ ([], ground (arith, append-nil hdr), ground arith)
]

-- Whatever is read off the stream is its front: no byte is lost, repeated or reordered.
pub read_frame_split : (r frame rest : Bytes) → read_frame r ≡ ok (frame, rest) → r ≡ frame ++ rest
unfolding read_frame
read_frame_split r frame rest h =
    let ((hdr, r'), d, k) = >>=-eq-ok (read_exact 6 r) _ h in
    let (payload, f, q) = read_payload_split hdr r' frame rest k in
    read_exact_split 6 r hdr r' d
    ∙ ap (λ (x : Bytes). hdr ++ x) q
    ∙ sym (append_assoc hdr payload rest)
    ∙ ap (λ (x : Bytes). x ++ rest) (sym f)
