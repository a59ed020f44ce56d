-- ===== src/Codesign/Examples.antt =====
-- Runs of the encodings of crates/daemon/os-codesign-macho/src/lib.rs, the vectors of its tests among
-- them.
use os_emulation.Base.{◌≡◌, refl, none, some, [], ◌∷◌, ascii}
use os_emulation.Codesign.Base64.{encode_chunk, base64_encode}
use os_emulation.Codesign.Hex.{to_digit, from_str_radix, decode_pairs, hex_decode}

foobar : base64_encode (ascii "foobar") ≡ ascii "Zm9vYmFy"
unfolding base64_encode encode_chunk
foobar = refl

fo : base64_encode (ascii "fo") ≡ ascii "Zm8="
unfolding base64_encode encode_chunk
fo = refl

f : base64_encode (ascii "f") ≡ ascii "Zg=="
unfolding base64_encode encode_chunk
f = refl

deadbeef : hex_decode (ascii "deadbeef") ≡ some (some (0xde ∷ 0xad ∷ 0xbe ∷ 0xef ∷ []))
unfolding hex_decode decode_pairs from_str_radix to_digit
deadbeef = refl

odd_length : hex_decode (ascii "abc") ≡ some none
unfolding hex_decode decode_pairs from_str_radix to_digit
odd_length = refl

-- A plus sign stands for a digit.
plus_sign : hex_decode (ascii "+f") ≡ some (some (15 ∷ []))
unfolding hex_decode decode_pairs from_str_radix to_digit
plus_sign = refl

-- The euro sign has three bytes; the first pair ends within it.
split_character : hex_decode (0xe2 ∷ 0x82 ∷ 0xac ∷ 48 ∷ []) ≡ none
unfolding hex_decode decode_pairs from_str_radix to_digit
split_character = refl
