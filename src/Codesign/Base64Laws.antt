-- ===== src/Codesign/Base64Laws.antt =====
-- Reading back what `base64_encode` of crates/daemon/os-codesign-macho/src/lib.rs wrote.
use Prim.Native.Nat.{bit_or}
use os_emulation.Base.{
  inl, inr, Bool-cases, Text, ℕ, zero, suc, ◌+◌, ◌*◌, ◌/◌, ◌%◌, ◌^◌, ◌<◌, ◌≡◌, refl, ap, ◌∙◌, Bool,
  true, false, ◌&&◌, not, [], ◌∷◌, ◌++◌, Bytes, IsByte, All, length, get_or, ◌==◌, ==_iff,
  and_split, arith,
}
use os_emulation.Base.Bits.{add-bit_or}
use os_emulation.Codesign.Base64.{
  base64_alphabet, padding, digit, quantum, encode_chunk, base64_encode, sextet, base64_decode,
}

-- A test on every number below a bound.
all_below : ℕ → (ℕ → Bool) → Bool
all_below zero test = true
all_below (suc k) test = test k && all_below k test

all_below-at : (k : ℕ) (test : ℕ → Bool) (d : ℕ) → all_below k test ≡ true → d < k → test d ≡ true
unfolding all_below
all_below-at zero test d h lt = absurd (omega arith)
all_below-at (suc k) test d h lt =
    let parts = and_split (test k) (all_below k test) h in
    elim (Bool-cases (d == k)) [
      | inl same ↦ ap test ((==_iff d k).0 same) ∙ parts.0
      | inr other ↦ all_below-at k test d parts.1 (ground arith)
    ]

letter : ℕ → ℕ
letter d = get_or base64_alphabet d 0

is_letter : ℕ → Bool
unfolding sextet letter
is_letter d = (sextet (letter d) == d) && not (letter d == padding)

is_letter-below : (d : ℕ) → d < 64 → is_letter d ≡ true
unfolding is_letter all_below sextet letter
is_letter-below d h = all_below-at 64 is_letter d refl h

sextet-letter : (d : ℕ) → d < 64 → sextet (letter d) ≡ d
unfolding is_letter
sextet-letter d h = ground (arith, is_letter-below d h)

letter-padding : (d : ℕ) → d < 64 → (letter d == padding) ≡ false
unfolding is_letter
letter-padding d h = ground (arith, is_letter-below d h)

quantum_sum :
    (b0 b1 b2 : ℕ) → IsByte b1 → IsByte b2 → quantum b0 b1 b2 ≡ b0 * 2 ^ 16 + b1 * 2 ^ 8 + b2
quantum_sum b0 b1 b2 h1 h2 =
    ap (λ (x : ℕ). bit_or x b2) (add-bit_or 16 (b1 * 2 ^ 8) b0 (omega arith))
    ∙ ap (λ (x : ℕ). bit_or x b2) (shifted)
    ∙ add-bit_or 8 b2 (b0 * 2 ^ 8 + b1) h2
    ∙ omega arith
  where
    shifted : b1 * 2 ^ 8 + b0 * 2 ^ 16 ≡ (b0 * 2 ^ 8 + b1) * 2 ^ 8
    shifted = omega arith

-- What the four digits of a chunk mean.
record Digits (n : ℕ) : Type 0 where
  first : sextet (digit n 18) ≡ n / 2 ^ 18 % 64
  second : sextet (digit n 12) ≡ n / 2 ^ 12 % 64
  third : sextet (digit n 6) ≡ n / 2 ^ 6 % 64
  fourth : sextet (digit n 0) ≡ n / 2 ^ 0 % 64
  third_kept : (digit n 6 == padding) ≡ false
  fourth_kept : (digit n 0 == padding) ≡ false

digit-Digits : (n : ℕ) → Digits n
unfolding letter
digit-Digits n = record {
  first = sextet-letter (n / 2 ^ 18 % 64) (omega arith);
  second = sextet-letter (n / 2 ^ 12 % 64) (omega arith);
  third = sextet-letter (n / 2 ^ 6 % 64) (omega arith);
  fourth = sextet-letter (n / 2 ^ 0 % 64) (omega arith);
  third_kept = letter-padding (n / 2 ^ 6 % 64) (omega arith);
  fourth_kept = letter-padding (n / 2 ^ 0 % 64) (omega arith);
}

decode_four :
    (a b c d : ℕ) (rest : Text)
    → (c == padding) ≡ false
    → (d == padding) ≡ false
    → base64_decode (a ∷ b ∷ c ∷ d ∷ rest)
      ≡ (sextet a * 4 + sextet b / 16)
        ∷ (sextet b % 16 * 16 + sextet c / 4)
        ∷ (sextet c % 4 * 64 + sextet d)
        ∷ base64_decode rest
unfolding base64_decode
decode_four a b c d rest hc hd = rw hc (rw hd refl)

three :
    {a b c x y z : ℕ} (rest : Bytes)
    → a ≡ x
    → b ≡ y
    → c ≡ z
    → ◌≡◌ {A = Bytes} (a ∷ b ∷ c ∷ rest) (x ∷ y ∷ z ∷ rest)
three rest p q r = cc

two : {a b x y : ℕ} → a ≡ x → b ≡ y → ◌≡◌ {A = Bytes} (a ∷ b ∷ []) (x ∷ y ∷ [])
two p q = cc

one : {a x : ℕ} → a ≡ x → ◌≡◌ {A = Bytes} (a ∷ []) (x ∷ [])
one p = cc

whole_chunk :
    (b0 b1 b2 : ℕ) (rest : Text)
    → IsByte b0
    → IsByte b1
    → IsByte b2
    → base64_decode (encode_chunk 3 b0 b1 b2 ++ rest) ≡ b0 ∷ b1 ∷ b2 ∷ base64_decode rest
unfolding encode_chunk
whole_chunk b0 b1 b2 rest h0 h1 h2 =
    let n = quantum b0 b1 b2 in
    let sum = quantum_sum b0 b1 b2 h1 h2 in
    let mean = digit-Digits n in
    decode_four (digit n 18) (digit n 12) (digit n 6) (digit n 0) rest mean.third_kept
      mean.fourth_kept
    ∙ three (base64_decode rest) (omega (arith, sum, mean.first, mean.second))
        (omega (arith, sum, mean.second, mean.third)) (omega (arith, sum, mean.third, mean.fourth))

decode_three :
    (a b c : ℕ)
    → (c == padding) ≡ false
    → base64_decode (a ∷ b ∷ c ∷ padding ∷ [])
      ≡ (sextet a * 4 + sextet b / 16) ∷ (sextet b % 16 * 16 + sextet c / 4) ∷ []
unfolding base64_decode
decode_three a b c hc = rw hc refl

two_byte_chunk :
    (b0 b1 : ℕ) → IsByte b0 → IsByte b1 → base64_decode (encode_chunk 2 b0 b1 0) ≡ b0 ∷ b1 ∷ []
unfolding encode_chunk
two_byte_chunk b0 b1 h0 h1 =
    let n = quantum b0 b1 0 in
    let sum = quantum_sum b0 b1 0 h1 (omega arith) in
    let mean = digit-Digits n in
    decode_three (digit n 18) (digit n 12) (digit n 6) mean.third_kept
    ∙ two (omega (arith, sum, mean.first, mean.second))
        (omega (arith, sum, mean.second, mean.third))

one_byte_chunk : (b0 : ℕ) → IsByte b0 → base64_decode (encode_chunk 1 b0 0 0) ≡ b0 ∷ []
unfolding encode_chunk base64_decode
one_byte_chunk b0 h0 =
    let n = quantum b0 0 0 in
    let sum = quantum_sum b0 0 0 (omega arith) (omega arith) in
    let mean = digit-Digits n in one (omega (arith, sum, mean.first, mean.second))

decodes : (input : Bytes) → All IsByte input → base64_decode (base64_encode input) ≡ input
unfolding base64_encode base64_decode
decodes [] h = refl
decodes (b0 ∷ []) (h0, h) = one_byte_chunk b0 h0
decodes (b0 ∷ b1 ∷ []) (h0, (h1, h)) = two_byte_chunk b0 b1 h0 h1
decodes (b0 ∷ b1 ∷ b2 ∷ rest) (h0, (h1, (h2, h))) =
    whole_chunk b0 b1 b2 (base64_encode rest) h0 h1 h2
    ∙ ap (λ (xs : Bytes). b0 ∷ b1 ∷ b2 ∷ xs) (decodes rest h)

length-base64_encode : (input : Bytes) → length (base64_encode input) ≡ (length input + 2) / 3 * 4
unfolding base64_encode encode_chunk
length-base64_encode [] = refl
length-base64_encode (b0 ∷ []) = refl
length-base64_encode (b0 ∷ b1 ∷ []) = refl
length-base64_encode (b0 ∷ b1 ∷ b2 ∷ rest) = omega (arith, length-base64_encode rest)

-- Bytes written in base 64 are read back unchanged, the padding of the last chunk included, and the
-- text has exactly the length that was reserved for it.
pub base64_decode-base64_encode :
    (input : Bytes)
    → All IsByte input
    → (base64_decode (base64_encode input) ≡ input)
      × (length (base64_encode input) ≡ (length input + 2) / 3 * 4)
base64_decode-base64_encode input h = (decodes input h, length-base64_encode input)
