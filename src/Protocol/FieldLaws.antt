-- ===== src/Protocol/FieldLaws.antt =====
-- What the field codecs of Protocol.Fields write, and that they read it back.
use os_emulation.Base.{
  ℕ, ◌+◌, ◌%◌, ◌≤◌, ◌<◌, ◌≡◌, refl, sym, ◌∙◌, ltb, true, false, ok, List, [], ◌∷◌, ◌++◌, Option,
  none, some, length, length-append, take-append, drop-append, append-nil, append_assoc, Bytes,
  Text, All, is_utf8, le→ltb, arith,
}
use os_emulation.Base.Words.{u32_mod, u32_to_le, u32_from_le, byte_of}
use os_emulation.Protocol.Fields.{
  encode_string, decode_string, encode_option_string, decode_option_string, encode_items,
  encode_string_vec, decode_items, decode_string_vec,
}

-- A Rust string whose length a `u32` holds.
abbrev pub IsWireText : Text → Type 0
IsWireText s = (is_utf8 s ≡ true) × (length s < u32_mod)

unfoldable pub string_bytes : Text → Bytes
string_bytes s = u32_to_le (length s % u32_mod) ++ s

pub encode_string_lem : (s : Text) (out : Bytes) → encode_string s out ≡ out ++ string_bytes s
unfolding encode_string string_bytes
encode_string_lem s out = append_assoc out (u32_to_le (length s % u32_mod)) s

-- The four length bytes give the length back.
pub u32_header :
    (n : ℕ)
    → n < u32_mod
    → u32_from_le
        (byte_of (n % u32_mod) 0)
        (byte_of (n % u32_mod) 1)
        (byte_of (n % u32_mod) 2)
        (byte_of (n % u32_mod) 3)
      ≡ n
unfolding u32_from_le
u32_header n h = omega arith

decode_string_at :
    (b0 b1 b2 b3 : ℕ) (s rest : Bytes)
    → u32_from_le b0 b1 b2 b3 ≡ length s
    → is_utf8 s ≡ true
    → decode_string (b0 ∷ b1 ∷ b2 ∷ b3 ∷ (s ++ rest)) ≡ ok (s, rest)
unfolding decode_string
decode_string_at b0 b1 b2 b3 s rest e valid =
    let fits : ltb (length (s ++ rest)) (length s) ≡ false =
      le→ltb _ _ (omega (arith, length-append s rest)) in
    rw (e, fits, take-append s rest, drop-append s rest, valid)

pub decode_string-bytes :
    (s rest : Bytes) → IsWireText s → decode_string (string_bytes s ++ rest) ≡ ok (s, rest)
unfolding string_bytes u32_to_le
decode_string-bytes s rest (valid, fits) =
    decode_string_at _ _ _ _ s rest (u32_header (length s) fits) valid

unfoldable pub option_bytes : Option Text → Bytes
option_bytes none = 0 ∷ []
option_bytes (some s) = 1 ∷ string_bytes s

pub encode_option_string_lem :
    (o : Option Text) (out : Bytes) → encode_option_string o out ≡ out ++ option_bytes o
unfolding encode_option_string option_bytes
encode_option_string_lem none out = refl
encode_option_string_lem (some s) out =
    encode_string_lem s (out ++ (1 ∷ [])) ∙ append_assoc out (1 ∷ []) (string_bytes s)

abbrev pub IsWireOption : Option Text → Type 0
IsWireOption none = Unit
IsWireOption (some s) = IsWireText s

pub decode_option_string-bytes :
    (o : Option Text) (rest : Bytes)
    → IsWireOption o
    → decode_option_string (option_bytes o ++ rest) ≡ ok (o, rest)
unfolding decode_option_string option_bytes
decode_option_string-bytes none rest h = refl
decode_option_string-bytes (some s) rest h = rw (decode_string-bytes s rest h)

unfoldable pub items_bytes : List Text → Bytes
items_bytes [] = []
items_bytes (s ∷ items) = string_bytes s ++ items_bytes items

unfoldable pub vec_bytes : List Text → Bytes
unfolding items_bytes
vec_bytes items = u32_to_le (length items % u32_mod) ++ items_bytes items

encode_items_lem :
    (items : List Text) (out : Bytes) → encode_items items out ≡ out ++ items_bytes items
unfolding encode_items items_bytes
encode_items_lem [] out = sym (append-nil out)
encode_items_lem (s ∷ items) out =
    encode_items_lem items (encode_string s out)
    ∙ rw (encode_string_lem s out, append_assoc out (string_bytes s) (items_bytes items))

pub encode_string_vec_lem :
    (items : List Text) (out : Bytes) → encode_string_vec items out ≡ out ++ vec_bytes items
unfolding encode_string_vec vec_bytes
encode_string_vec_lem items out =
    encode_items_lem items _
    ∙ append_assoc out (u32_to_le (length items % u32_mod)) (items_bytes items)

decode_items-bytes :
    (items : List Text) (rest : Bytes) (seen : List Text)
    → All IsWireText items
    → decode_items (length items) (items_bytes items ++ rest) seen ≡ ok (seen ++ items, rest)
unfolding decode_items items_bytes
decode_items-bytes [] rest seen h = rw (append-nil seen)
decode_items-bytes (s ∷ items) rest seen (hs, h) =
    rw
      (
        append_assoc (string_bytes s) (items_bytes items) rest,
        decode_string-bytes s (items_bytes items ++ rest) hs,
      )
      (decode_items-bytes items rest (seen ++ (s ∷ [])) h ∙ rw (append_assoc seen (s ∷ []) items))

pub decode_string_vec-bytes :
    (items : List Text) (rest : Bytes)
    → length items < u32_mod
    → All IsWireText items
    → decode_string_vec (vec_bytes items ++ rest) ≡ ok (items, rest)
unfolding decode_string_vec vec_bytes u32_to_le
decode_string_vec-bytes items rest fits h =
    rw (u32_header (length items) fits) (decode_items-bytes items rest [] h)

-- Each item takes four bytes or more, so a payload that fits has a count that fits.
pub length-items_bytes : (items : List Text) → length items ≤ length (items_bytes items)
unfolding items_bytes string_bytes u32_to_le
length-items_bytes [] = omega arith
length-items_bytes (s ∷ items) =
    omega (arith, length-items_bytes items, length-append s (items_bytes items))

pub length-string_bytes : (s : Text) → length (string_bytes s) ≡ 4 + length s
unfolding string_bytes u32_to_le
length-string_bytes s = omega arith

pub length-vec_bytes : (items : List Text) → length items + 4 ≤ length (vec_bytes items)
unfolding vec_bytes u32_to_le
length-vec_bytes items = omega (arith, length-items_bytes items)
