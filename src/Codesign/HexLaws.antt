-- ===== src/Codesign/HexLaws.antt =====
-- What `hex_decode` of crates/daemon/os-codesign-macho/src/lib.rs makes of a hash that `signing_info`
-- lets through.
use os_emulation.Base.{
  ℕ, zero, suc, ◌+◌, ◌-◌, ◌*◌, ◌/◌, ◌%◌, ◌<◌, ◌≡◌, refl, true, false, some, [], ◌∷◌, Text, Bytes,
  IsByte, All, List, length, leb, ◌==◌, and_split, if◌then◌else◌, arith,
}
use os_emulation.Codesign.Hex.{
  is_ascii_hexdigit, to_digit, from_str_radix, splits_character, decode_pairs, hex_decode,
  all_hexdigits, is_unusable,
}

-- The value of a hexadecimal digit, and the two digits' values of each byte.
unfoldable pub hex_value : ℕ → ℕ
hex_value b = if leb b 57 then b - 48 else if leb b 70 then b - 55 else b - 87

unfoldable pub hex_values : Text → List ℕ
unfolding hex_value
hex_values [] = []
hex_values (b ∷ rest) = hex_value b ∷ hex_values rest

unfoldable pub nibbles : Bytes → List ℕ
nibbles [] = []
nibbles (v ∷ rest) = v / 16 ∷ v % 16 ∷ nibbles rest

to_digit-hex : (b : ℕ) → is_ascii_hexdigit b ≡ true → to_digit b ≡ some (hex_value b)
unfolding to_digit hex_value
to_digit-hex b h = ground arith

hex_value-lt : (b : ℕ) → is_ascii_hexdigit b ≡ true → hex_value b < 16
unfolding hex_value
hex_value-lt b h = ground arith

not-plus : (b : ℕ) → is_ascii_hexdigit b ≡ true → (b == 43) ≡ false
not-plus b h = ground arith

pair_value :
    (a b : ℕ)
    → is_ascii_hexdigit a ≡ true
    → is_ascii_hexdigit b ≡ true
    → from_str_radix a b ≡ some (hex_value a * 16 + hex_value b)
unfolding from_str_radix
pair_value a b ha hb = rw (not-plus a ha) (rw (to_digit-hex a ha) (rw (to_digit-hex b hb) refl))

hexdigits_end : (s : Text) → all_hexdigits s ≡ true → splits_character s ≡ false
hexdigits_end [] h = refl
hexdigits_end (b ∷ rest) h =
    let first = (and_split (is_ascii_hexdigit b) (all_hexdigits rest) h).0 in ground arith

-- The bytes that digits stand for, two digits to a byte.
record Decoded (s : Text) : Type 0 where
  bytes : Bytes
  decoded : decode_pairs s ≡ some (some bytes)
  holds : All IsByte bytes
  agrees : nibbles bytes ≡ hex_values s
  half : 2 * length bytes ≡ length s

halves :
    {x y a b : ℕ} {xs ys : List ℕ}
    → x ≡ a
    → y ≡ b
    → xs ≡ ys
    → ◌≡◌ {A = List ℕ} (x ∷ y ∷ xs) (a ∷ b ∷ ys)
halves p q r = cc

digits-Decoded : (k : ℕ) (s : Text) → length s ≡ 2 * k → all_hexdigits s ≡ true → Decoded s
unfolding decode_pairs nibbles hex_values
digits-Decoded k [] e h = record {
  bytes = [];
  decoded = refl;
  holds = tt;
  agrees = refl;
  half = refl;
}
digits-Decoded k (a ∷ []) e h = absurd (omega arith)
digits-Decoded zero (a ∷ b ∷ rest) e h = absurd (omega arith)
digits-Decoded (suc k) (a ∷ b ∷ rest) e h =
    let ha = (and_split (is_ascii_hexdigit a) (all_hexdigits (b ∷ rest)) h).0 in
    let behind = (and_split (is_ascii_hexdigit a) (all_hexdigits (b ∷ rest)) h).1 in
    let hb = (and_split (is_ascii_hexdigit b) (all_hexdigits rest) behind).0 in
    let others = (and_split (is_ascii_hexdigit b) (all_hexdigits rest) behind).1 in
    let r = digits-Decoded k rest (omega arith) others in
    record {
      bytes = (hex_value a * 16 + hex_value b) ∷ r.bytes;
      decoded = rw (hexdigits_end rest others) (rw (pair_value a b ha hb) (rw r.decoded refl));
      holds = (omega (arith, hex_value-lt a ha, hex_value-lt b hb), r.holds);
      agrees =
          halves (omega (arith, hex_value-lt b hb)) (omega (arith, hex_value-lt b hb)) r.agrees;
      half = omega (arith, r.half);
    }

usable_digits :
    (cdhash : Text)
    → is_unusable cdhash ≡ false
    → (length cdhash ≡ 40) × (all_hexdigits cdhash ≡ true)
unfolding is_unusable
usable_digits cdhash h = ground arith

-- A code-directory hash that `signing_info` lets through decodes, without a panic, to twenty bytes:
-- those whose halves are, in order, the values of the digits.
pub hex_decode-usable :
    (cdhash : Text)
    → is_unusable cdhash ≡ false
    → (hash : Bytes) × (hex_decode cdhash ≡ some (some hash))
      × (length hash ≡ 20)
      × All IsByte hash
      × (nibbles hash ≡ hex_values cdhash)
unfolding hex_decode
hex_decode-usable cdhash h =
    let parts = usable_digits cdhash h in
    let d = digits-Decoded 20 cdhash (omega (arith, parts.0)) parts.1 in
    (d.bytes, rw parts.0 d.decoded, omega (arith, d.half, parts.0), d.holds, d.agrees)
