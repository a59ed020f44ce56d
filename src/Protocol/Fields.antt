-- ===== src/Protocol/Fields.antt =====
-- The field codecs of crates/daemon/os-daemon-protocol/src/lib.rs: strings, optional strings and
-- vectors of strings. An `out: &mut Vec<u8>` is an argument that is returned with bytes added.
use os_emulation.Base.{
  ℕ, zero, suc, ◌%◌, ltb, ◌==◌, if◌then◌else◌, Result, ok, err, ◌>>=◌, List, [], ◌∷◌, ◌++◌, Option,
  none, some, length, take, drop, Bytes, Text, is_utf8,
}
use os_emulation.Base.Words.{u32_mod, u32_to_le, u32_from_le}

pub data WireError : Type 0 where
  wire_error : WireError

unfoldable pub encode_string : Text → Bytes → Bytes
encode_string s out = (out ++ u32_to_le (length s % u32_mod)) ++ s

-- The test `input.len() < 4` is the pattern.
unfoldable pub decode_string : Bytes → Result WireError (Text × Bytes)
decode_string (b0 ∷ b1 ∷ b2 ∷ b3 ∷ rest) =
    let len = u32_from_le b0 b1 b2 b3 in
    if ltb (length rest) len
    then err wire_error
    else if is_utf8 (take len rest)
    then ok (take len rest, drop len rest)
    else err wire_error
decode_string _ = err wire_error

unfoldable pub encode_option_string : Option Text → Bytes → Bytes
unfolding encode_string
encode_option_string none out = out ++ (0 ∷ [])
encode_option_string (some s) out = encode_string s (out ++ (1 ∷ []))

unfoldable pub decode_option_string : Bytes → Result WireError (Option Text × Bytes)
decode_option_string [] = err wire_error
decode_option_string (tag ∷ rest) =
    if tag == 0
    then ok (none, rest)
    else if tag == 1
    then (do (s, r) ← decode_string rest; ok (some s, r))
    else err wire_error

-- `for item in items { encode_string(item, out) }`
unfoldable pub encode_items : List Text → Bytes → Bytes
encode_items [] out = out
encode_items (s ∷ items) out = encode_items items (encode_string s out)

unfoldable pub encode_string_vec : List Text → Bytes → Bytes
encode_string_vec items out = encode_items items (out ++ u32_to_le (length items % u32_mod))

-- `for _ in 0..len`, with the items read so far.
unfoldable pub decode_items : ℕ → Bytes → List Text → Result WireError (List Text × Bytes)
decode_items zero rest items = ok (items, rest)
decode_items (suc n) rest items = do
  (s, r) ← decode_string rest
  decode_items n r (items ++ (s ∷ []))

unfoldable pub decode_string_vec : Bytes → Result WireError (List Text × Bytes)
decode_string_vec (b0 ∷ b1 ∷ b2 ∷ b3 ∷ rest) = decode_items (u32_from_le b0 b1 b2 b3) rest []
decode_string_vec _ = err wire_error
