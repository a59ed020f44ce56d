-- ===== src/Codesign/Texts.antt =====
-- The operations on strings that crates/daemon/os-codesign-macho/src/lib.rs uses, on their bytes.
use os_emulation.Base.{
  ℕ, zero, suc, Bool, true, false, ◌&&◌, ◌||◌, Option, none, some, List, [], ◌∷◌, ◌++◌, Text, leb,
  ◌==◌, if◌then◌else◌, reverse_onto,
}

-- `s.strip_prefix(prefix)`
unfoldable pub strip_prefix : (prefix : Text) → Text → Option Text
strip_prefix [] s = some s
strip_prefix (p ∷ prefix) [] = none
strip_prefix (p ∷ prefix) (b ∷ s) = if p == b then strip_prefix prefix s else none

abbrev is_some : Option Text → Bool
is_some none = false
is_some (some s) = true

-- `s.starts_with(prefix)`
unfoldable pub starts_with : (prefix : Text) → Text → Bool
unfolding strip_prefix
starts_with prefix s = is_some (strip_prefix prefix s)

-- `&s[s.find(marker)? + marker.len()..]`
unfoldable pub after : (marker : Text) → Text → Option Text
unfolding strip_prefix
after marker [] = strip_prefix marker []
after marker (b ∷ s) = elim (strip_prefix marker (b ∷ s)) [
  | none ↦ after marker s
  | some rest ↦ some rest
]

-- `char::is_whitespace`, of a character of one, two and three bytes.
abbrev is_white1 : ℕ → Bool
is_white1 a = (leb 9 a && leb a 13) || a == 32

abbrev is_white2 : ℕ → ℕ → Bool
is_white2 a b = a == 0xc2 && (b == 0x85 || b == 0xa0)

abbrev is_white3 : ℕ → ℕ → ℕ → Bool
is_white3 a b c =
    (a == 0xe1 && b == 0x9a && c == 0x80)
    || (a == 0xe2
        && b == 0x80
        && ((leb 0x80 c && leb c 0x8a) || c == 0xa8 || c == 0xa9 || c == 0xaf))
    || (a == 0xe2 && b == 0x81 && c == 0x9f)
    || (a == 0xe3 && b == 0x80 && c == 0x80)

-- The bytes of the white space in front, or zero; the same of a text that is read backwards.
unfoldable pub white_width : Text → ℕ
white_width [] = 0
white_width (a ∷ []) = if is_white1 a then 1 else 0
white_width (a ∷ b ∷ []) = if is_white1 a then 1 else if is_white2 a b then 2 else 0
white_width (a ∷ b ∷ c ∷ s) =
    if is_white1 a then 1 else if is_white2 a b then 2 else if is_white3 a b c then 3 else 0

unfoldable pub white_width_back : Text → ℕ
white_width_back [] = 0
white_width_back (c ∷ []) = if is_white1 c then 1 else 0
white_width_back (c ∷ b ∷ []) = if is_white1 c then 1 else if is_white2 b c then 2 else 0
white_width_back (c ∷ b ∷ a ∷ s) =
    if is_white1 c then 1 else if is_white2 b c then 2 else if is_white3 a b c then 3 else 0

-- White space in front is left out, `skip` bytes of it first.
unfoldable pub trim_by : (Text → ℕ) → (skip : ℕ) → Text → Text
trim_by width skip [] = []
trim_by width (suc skip) (b ∷ s) = trim_by width skip s
trim_by width zero (b ∷ s) = elim (width (b ∷ s)) [ zero ↦ b ∷ s | suc skip ↦ trim_by width skip s ]

-- `s.trim_start()`
unfoldable pub trim_start : Text → Text
unfolding trim_by white_width
trim_start = trim_by white_width 0

-- `s.trim()`
unfoldable pub trim : Text → Text
unfolding trim_start trim_by white_width_back
trim s = reverse_onto (trim_by white_width_back 0 (reverse_onto (trim_start s) [])) []

-- A line that a line feed ends, read backwards: a carriage return before it goes, too.
abbrev end_line : Text → Text
end_line [] = []
end_line (b ∷ line) = if b == 13 then reverse_onto line [] else reverse_onto (b ∷ line) []

-- `s.lines()`, behind the part of a line that is held backwards.
unfoldable pub lines_from : (line : Text) → Text → List Text
lines_from [] [] = []
lines_from (b ∷ line) [] = reverse_onto (b ∷ line) [] ∷ []
lines_from line (b ∷ s) =
    let ended = lines_from [] s in
    let longer = lines_from (b ∷ line) s in if b == 10 then end_line line ∷ ended else longer

unfoldable pub lines : Text → List Text
unfolding lines_from
lines = lines_from []

-- `s.replace(c, with)` of a character of one byte.
unfoldable pub replace : (c : ℕ) → (with' : Text) → Text → Text
replace c with' [] = []
replace c with' (b ∷ s) = if b == c then with' ++ replace c with' s else b ∷ replace c with' s
