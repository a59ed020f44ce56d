-- ===== src/Protocol/Canonical.antt =====
-- What the field decoders accept: the bytes that the encoders make, and only strings that are UTF-8.
use os_emulation.Base.{
  ℕ, ◌%◌, ◌≤◌, ◌<◌, ◌≡◌, ◌⊎◌, sym, ap, ◌∙◌, true, inl, inr, ok, [], ◌∷◌, ◌++◌, Option, none, some,
  length, take, drop, take-append-drop, length-take_le, Bytes, IsByte, Text, All, All-drop, is_utf8,
  arith,
}
use os_emulation.Base.Words.{u32_mod, u32_to_le, u32_from_le, u32_to_le-from_le, u32_from_le-lt}
use os_emulation.Protocol.Fields.{decode_string, decode_option_string}
use os_emulation.Protocol.FieldLaws.{IsWireText, string_bytes, option_bytes, IsWireOption}

-- `buf` is `front` and then `rest`, and `rest` is bytes.
abbrev pub Splits : Bytes → Bytes → Bytes → Type 0
Splits buf front rest = (buf ≡ front ++ rest) × All IsByte rest

-- The header of a field is what `to_le_bytes` makes of the length that it gives.
pub header_bytes :
    (b0 b1 b2 b3 n : ℕ) (xs : Bytes)
    → All IsByte (b0 ∷ b1 ∷ b2 ∷ b3 ∷ xs)
    → u32_from_le b0 b1 b2 b3 ≡ n
    → (u32_to_le n ≡ b0 ∷ b1 ∷ b2 ∷ b3 ∷ []) × (n < u32_mod)
header_bytes b0 b1 b2 b3 n xs (h0, (h1, (h2, (h3, h)))) e =
    rw (← e) (u32_to_le-from_le b0 b1 b2 b3 h0 h1 h2 h3, u32_from_le-lt b0 b1 b2 b3 h0 h1 h2 h3)

decode_string_parts :
    (b0 b1 b2 b3 : ℕ) (rest s r : Bytes)
    → decode_string (b0 ∷ b1 ∷ b2 ∷ b3 ∷ rest) ≡ ok (s, r)
    → (u32_from_le b0 b1 b2 b3 ≤ length rest)
      × (is_utf8 s ≡ true)
      × (take (u32_from_le b0 b1 b2 b3) rest ≡ s)
      × (drop (u32_from_le b0 b1 b2 b3) rest ≡ r)
unfolding decode_string
decode_string_parts b0 b1 b2 b3 rest s r h = ground arith

decode_string_whole :
    (b0 b1 b2 b3 : ℕ) (rest s r : Bytes)
    → All IsByte (b0 ∷ b1 ∷ b2 ∷ b3 ∷ rest)
    → u32_from_le b0 b1 b2 b3 ≡ length s
    → rest ≡ s ++ r
    → b0 ∷ b1 ∷ b2 ∷ b3 ∷ rest ≡ string_bytes s ++ r
unfolding string_bytes
decode_string_whole b0 b1 b2 b3 rest s r h e q =
    let (bytes, fits) = header_bytes b0 b1 b2 b3 (length s) rest h e in
    let small : length s % u32_mod ≡ length s = omega arith in rw (small, bytes, q)

pub decode_string_sound :
    (buf s rest : Bytes)
    → All IsByte buf
    → decode_string buf ≡ ok (s, rest)
    → IsWireText s × Splits buf (string_bytes s) rest
decode_string_sound [] s r h e = unfold decode_string in cc
decode_string_sound (a ∷ []) s r h e = unfold decode_string in cc
decode_string_sound (a ∷ b ∷ []) s r h e = unfold decode_string in cc
decode_string_sound (a ∷ b ∷ c ∷ []) s r h e = unfold decode_string in cc
decode_string_sound (b0 ∷ b1 ∷ b2 ∷ b3 ∷ rest) s r h e =
    let (le, valid, t, d) = decode_string_parts b0 b1 b2 b3 rest s r e in
    let n : u32_from_le b0 b1 b2 b3 ≡ length s =
      sym (length-take_le (u32_from_le b0 b1 b2 b3) rest le) ∙ ap (λ (x : Bytes). length x) t in
    let q : rest ≡ s ++ r = sym (take-append-drop (u32_from_le b0 b1 b2 b3) rest) ∙ rw (t, d) in
    let tail : All IsByte rest = h.1.1.1.1 in
    (
      (valid, (header_bytes b0 b1 b2 b3 (length s) rest h n).1),
      (
        decode_string_whole b0 b1 b2 b3 rest s r h n q,
        rw d at (All-drop IsByte (u32_from_le b0 b1 b2 b3) rest tail),
      ),
    )

decode_option_string_parts :
    (tag : ℕ) (rest : Bytes) (o : Option Text) (r : Bytes)
    → decode_option_string (tag ∷ rest) ≡ ok (o, r)
    → ((tag ≡ 0) × (o ≡ none) × (rest ≡ r))
      ⊎ ((s : Text) × (tag ≡ 1) × (o ≡ some s) × (decode_string rest ≡ ok (s, r)))
unfolding decode_option_string
decode_option_string_parts tag rest o r h = ground arith

pub decode_option_string_sound :
    (buf : Bytes) (o : Option Text) (rest : Bytes)
    → All IsByte buf
    → decode_option_string buf ≡ ok (o, rest)
    → IsWireOption o × Splits buf (option_bytes o) rest
unfolding option_bytes
decode_option_string_sound [] o r h e = unfold decode_option_string in cc
decode_option_string_sound (tag ∷ rest) o r (ht, h) e =
    elim (decode_option_string_parts tag rest o r e) [
      | inl (z, n, q) ↦ rw (z, n) (tt, (rw q, rw q at h))
      | inr (s, z, n, d) ↦
          let (w, (q, k)) = decode_string_sound rest s r h d in rw (z, n) (w, (rw q, k))
    ]
