-- ===== src/Codesign/Hex.antt =====
-- `hex_decode` of crates/daemon/os-codesign-macho/src/lib.rs, and the test that `signing_info` makes
-- of a code-directory hash. The outer `none` is a panic.
use os_emulation.Base.{
  ℕ, ◌+◌, ◌-◌, ◌*◌, ◌%◌, Bool, true, false, ◌&&◌, ◌||◌, not, Option, none, some, [], ◌∷◌, Text,
  Bytes, length, ltb, leb, ◌==◌, if◌then◌else◌,
}

-- `b.is_ascii_hexdigit()`
abbrev pub is_ascii_hexdigit : ℕ → Bool
is_ascii_hexdigit b = (leb 48 b && leb b 57) || (leb 65 b && leb b 70) || (leb 97 b && leb b 102)

-- `(b as char).to_digit(16)`
unfoldable pub to_digit : ℕ → Option ℕ
to_digit b =
    if leb 48 b && leb b 57
    then some (b - 48)
    else if leb 65 b && leb b 70
    then some (b - 55)
    else if leb 97 b && leb b 102
    then some (b - 87)
    else none

-- `u8::from_str_radix(text, 16).ok()` of two bytes: a plus sign may stand in front.
unfoldable pub from_str_radix : ℕ → ℕ → Option ℕ
from_str_radix a b = if a == 43 then to_digit b else elim (to_digit a) [
  | none ↦ none
  | some high ↦ elim (to_digit b) [ none ↦ none | some low ↦ some (high * 16 + low) ]
]

-- A slice may not end before a continuation byte.
abbrev pub splits_character : Text → Bool
splits_character [] = false
splits_character (b ∷ rest) = leb 0x80 b && ltb b 0xc0

abbrev prepend : ℕ → Option (Option Bytes) → Option (Option Bytes)
prepend v none = none
prepend v (some none) = some none
prepend v (some (some bs)) = some (some (v ∷ bs))

-- `(0..s.len()).step_by(2).map(…).collect()`
unfoldable pub decode_pairs : Text → Option (Option Bytes)
decode_pairs (a ∷ b ∷ rest) =
    let decoded = decode_pairs rest in
    if splits_character rest
    then none
    else elim (from_str_radix a b) [ none ↦ some none | some v ↦ prepend v decoded ]
decode_pairs short = some (some [])

unfoldable pub hex_decode : Text → Option (Option Bytes)
hex_decode s = if length s % 2 == 0 then decode_pairs s else some none

-- `cdhash.bytes().all(|b| b.is_ascii_hexdigit())`
abbrev pub all_hexdigits : Text → Bool
all_hexdigits [] = true
all_hexdigits (b ∷ rest) = is_ascii_hexdigit b && all_hexdigits rest

-- Where `signing_info` refuses a code-directory hash.
unfoldable pub is_unusable : Text → Bool
is_unusable cdhash = if length cdhash == 40 then not (all_hexdigits cdhash) else true
