-- ===== src/Base/Strings.antt =====
-- Bytes and text. Rust's `String` is a byte sequence that passes `std::str::from_utf8`; its order
-- and equality are those of the bytes.
use Prim.Native.Nat.{ℕ, zero, suc, ◌<◌}
use mathlib.Core.Path.{◌≡◌, refl, subst}
use mathlib.Core.Logic.{◌↔◌}
use mathlib.Core.Bool.{Bool, true, false, ◌&&◌, ◌||◌}
use mathlib.Core.List.{List, [], ◌∷◌}
use Prim.Native.Char.{code}
use Prim.Native.String.{String}
use native.Mathlib.Omega.{arith}
use os_emulation.Base.Lists.{reverse_onto}
use os_emulation.Base.Tests.{ltb, leb, ◌==◌, if◌then◌else◌, and_split}

abbrev pub Bytes : Type 0
Bytes = List ℕ

abbrev pub IsByte : ℕ → Type 0
IsByte b = b < 256

abbrev pub Text : Type 0
Text = List ℕ

-- An ASCII literal as its bytes.
abbrev pub ascii : String → Text
ascii String.[] = []
ascii (String.◌∷◌ c s) = code c ∷ ascii s

-- Where a UTF-8 decoder stands: between characters, or before a byte in [lo, hi] with `more`
-- continuation bytes behind it.
pub data Utf8 : Type 0 where
  start : Utf8
  within : ℕ → ℕ → ℕ → Utf8
  invalid : Utf8

-- The table of first bytes of `core::str::from_utf8` (RFC 3629).
utf8_first : ℕ → Utf8
utf8_first b =
    if ltb b 0x80
    then start
    else if ltb b 0xc2
    then invalid
    else if ltb b 0xe0
    then within 0 0x80 0xbf
    else if b == 0xe0
    then within 1 0xa0 0xbf
    else if b == 0xed
    then within 1 0x80 0x9f
    else if ltb b 0xf0
    then within 1 0x80 0xbf
    else if b == 0xf0
    then within 2 0x90 0xbf
    else if ltb b 0xf4
    then within 2 0x80 0xbf
    else if b == 0xf4
    then within 2 0x80 0x8f
    else invalid

utf8_step : Utf8 → ℕ → Utf8
unfolding utf8_first
utf8_step start b = utf8_first b
utf8_step (within zero lo hi) b = if leb lo b && leb b hi then start else invalid
utf8_step (within (suc n) lo hi) b = if leb lo b && leb b hi then within n 0x80 0xbf else invalid
utf8_step invalid b = invalid

utf8_from : Utf8 → Bytes → Bool
utf8_from start [] = true
utf8_from (within n lo hi) [] = false
utf8_from invalid [] = false
utf8_from s (b ∷ bs) = utf8_from (utf8_step s b) bs

-- `std::str::from_utf8(bytes).is_ok()`
unfoldable pub is_utf8 : Bytes → Bool
unfolding utf8_from utf8_step
is_utf8 = utf8_from start

-- The three bytes of U+FFFD.
abbrev replacement : Bytes → Bytes
replacement rest = 0xef ∷ 0xbf ∷ 0xbd ∷ rest

-- `String::from_utf8_lossy`: what stands of a character that breaks off gives way to U+FFFD, and the
-- byte that broke it is read anew. `pending` is that part, the last byte first.
lossy_from : Utf8 → (pending : Bytes) → Bytes → Bytes
unfolding utf8_first utf8_step
lossy_from invalid pending bs = []
lossy_from start pending [] = []
lossy_from (within n lo hi) pending [] = replacement []
lossy_from start pending (b ∷ bs) = elim (utf8_first b) [
  | start ↦ b ∷ lossy_from start [] bs
  | within n lo hi ↦ lossy_from (within n lo hi) (b ∷ []) bs
  | invalid ↦ replacement (lossy_from start [] bs)
]
lossy_from (within n lo hi) pending (b ∷ bs) = elim (utf8_step (within n lo hi) b) [
  | start ↦ reverse_onto pending (b ∷ lossy_from start [] bs)
  | within m lo' hi' ↦ lossy_from (within m lo' hi') (b ∷ pending) bs
  | invalid ↦ replacement (elim (utf8_first b) [
    | start ↦ b ∷ lossy_from start [] bs
    | within m lo' hi' ↦ lossy_from (within m lo' hi') (b ∷ []) bs
    | invalid ↦ replacement (lossy_from start [] bs)
  ])
]

unfoldable pub from_utf8_lossy : Bytes → Bytes
unfolding lossy_from
from_utf8_lossy = lossy_from start []

-- `Path::join` of a relative name
unfoldable pub join : (dir name : Bytes) → Bytes
join [] name = name
join (b ∷ []) name = if b == 47 then b ∷ name else b ∷ 47 ∷ name
join (b ∷ c ∷ dir) name = b ∷ join (c ∷ dir) name

-- `a == b` and `a <= b` on `str`
unfoldable pub text_eq : Text → Text → Bool
text_eq [] [] = true
text_eq [] (b ∷ bs) = false
text_eq (a ∷ as') [] = false
text_eq (a ∷ as') (b ∷ bs) = a == b && text_eq as' bs

unfoldable pub text_le : Text → Text → Bool
text_le [] bs = true
text_le (a ∷ as') [] = false
text_le (a ∷ as') (b ∷ bs) = ltb a b || (a == b && text_le as' bs)

pub text_eq_sound : (a b : Text) → text_eq a b ≡ true → a ≡ b
unfolding text_eq
text_eq_sound [] [] h = refl
text_eq_sound [] (b ∷ bs) h = cc
text_eq_sound (a ∷ as') [] h = cc
text_eq_sound (a ∷ as') (b ∷ bs) h =
    ground (arith, and_split (a == b) (text_eq as' bs) h, text_eq_sound as' bs)

pub text_eq_refl : (a : Text) → text_eq a a ≡ true
unfolding text_eq
text_eq_refl [] = refl
text_eq_refl (a ∷ as') = ground (arith, text_eq_refl as')

pub text_le_total : (a b : Text) → text_le a b ≡ false → text_le b a ≡ true
unfolding text_le
text_le_total [] b h = cc
text_le_total (a ∷ as') [] h = refl
text_le_total (a ∷ as') (b ∷ bs) h = ground (arith, text_le_total as' bs)

pub text_le_trans : (a b c : Text) → text_le a b ≡ true → text_le b c ≡ true → text_le a c ≡ true
unfolding text_le
text_le_trans [] b c h k = refl
text_le_trans (a ∷ as') [] c h k = cc
text_le_trans (a ∷ as') (b ∷ bs) [] h k = cc
text_le_trans (a ∷ as') (b ∷ bs) (c ∷ cs) h k = ground (arith, text_le_trans as' bs cs)

pub text_eq_iff : (a b : Text) → (text_eq a b ≡ true) ↔ (a ≡ b)
text_eq_iff a b =
    (text_eq_sound a b, λ e. subst (λ (x : Text). text_eq a x ≡ true) e (text_eq_refl a))

pub text_le_refl : (a : Text) → text_le a a ≡ true
unfolding text_le
text_le_refl [] = refl
text_le_refl (a ∷ as') = ground (arith, text_le_refl as')
