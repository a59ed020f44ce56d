-- ===== src/Codesign/Base64.antt =====
-- `base64_encode` of crates/daemon/os-codesign-macho/src/lib.rs, and the reading of base 64 that
-- RFC 4648 describes.
use Prim.Native.Nat.{bit_or}
use os_emulation.Base.{
  ℕ, ◌+◌, ◌-◌, ◌*◌, ◌/◌, ◌%◌, ◌^◌, [], ◌∷◌, ◌++◌, Text, Bytes, ascii, get_or, ltb, ◌==◌,
  if◌then◌else◌,
}

abbrev pub base64_alphabet : Text
base64_alphabet = ascii "ABCDEFGHIJKLMNOPQRSTUVWXYZabcdefghijklmnopqrstuvwxyz0123456789+/"

-- `=`
abbrev pub padding : ℕ
padding = 61

-- `BASE64_ALPHABET[((n >> shift) & 0x3f) as usize]`
abbrev pub digit : ℕ → ℕ → ℕ
digit n shift = get_or base64_alphabet (n / 2 ^ shift % 64) 0

-- `((b0 as u32) << 16) | ((b1 as u32) << 8) | b2 as u32`
abbrev pub quantum : ℕ → ℕ → ℕ → ℕ
quantum b0 b1 b2 = bit_or (bit_or (b0 * 2 ^ 16) (b1 * 2 ^ 8)) b2

-- The body of the loop, for a chunk of `len` bytes.
unfoldable pub encode_chunk : ℕ → ℕ → ℕ → ℕ → Text
encode_chunk len b0 b1 b2 =
    digit (quantum b0 b1 b2) 18
    ∷ digit (quantum b0 b1 b2) 12
    ∷ (if ltb 1 len then digit (quantum b0 b1 b2) 6 else padding)
    ∷ (if ltb 2 len then digit (quantum b0 b1 b2) 0 else padding)
    ∷ []

-- `for chunk in data.chunks(3)`
unfoldable pub base64_encode : Bytes → Text
base64_encode [] = []
base64_encode (b0 ∷ []) = encode_chunk 1 b0 0 0
base64_encode (b0 ∷ b1 ∷ []) = encode_chunk 2 b0 b1 0
base64_encode (b0 ∷ b1 ∷ b2 ∷ rest) = encode_chunk 3 b0 b1 b2 ++ base64_encode rest

-- The value of a digit, by the ranges of its character.
unfoldable pub sextet : ℕ → ℕ
sextet c =
    if c == 43
    then 62
    else if c == 47
    then 63
    else if ltb c 65
    then c + 4
    else if ltb c 97
    then c - 65
    else c - 71

-- Four digits are three bytes; one or two of them may be padding.
unfoldable pub base64_decode : Text → Bytes
base64_decode (a ∷ b ∷ c ∷ d ∷ rest) =
    let behind = base64_decode rest in
    (sextet a * 4 + sextet b / 16)
    ∷ (if c == padding
        then []
        else (sextet b % 16 * 16 + sextet c / 4)
          ∷ (if d == padding then [] else (sextet c % 4 * 64 + sextet d) ∷ behind))
base64_decode short = []
