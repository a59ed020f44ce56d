-- ===== src/Codesign/Constrains.antt =====
-- The library constraint of crates/daemon/os-codesign-macho/src/lib.rs, as a reader of property lists
-- takes it.
use os_emulation.Base.{
  ℕ, zero, suc, ◌/◌, ◌%◌, ◌^◌, ◌<◌, ◌≡◌, ◌≢◌, refl, ap, subst, ◌∙◌, Bool, true, false, not, Option,
  none, some, [], ◌∷◌, ◌++◌, Text, Bytes, IsByte, ascii, length, ◌==◌, ◌&&◌, All, arith, Bool-cases,
  Option-cases, inl, inr, ok, >>=-eq-ok, guard, guard-eq-ok, ok-injective, ==_iff, get_or,
  and_split,
}
use os_emulation.Codesign.Texts.{strip_prefix, after}
use os_emulation.Codesign.Hex.{to_digit, from_str_radix, decode_pairs, hex_decode, splits_character}
use os_emulation.Codesign.Base64.{
  base64_encode, encode_chunk, base64_decode, base64_alphabet, quantum, digit,
}
use os_emulation.Codesign.Base64Laws.{base64_decode-base64_encode}
use os_emulation.Codesign.Plist.{
  SigningIdentity, real, ad_hoc, ShimSigningInfo, xml_escape, decoded_hash, constraint_plist,
  team_or_empty,
}
use os_emulation.Codesign.ConstraintLaws.{
  unescape, element, element-xml_escape, after-xml_escape, unescape-xml_escape,
}

-- The string and the data that belong to a key.
abbrev pub string_found : Option Text → Option Text
string_found none = none
string_found (some rest) = some (unescape 0 (element rest))

abbrev pub string_value : (key xml : Text) → Option Text
string_value key xml = string_found (after (ascii "<key>" ++ (key ++ ascii "</key><string>")) xml)

abbrev pub data_found : Option Text → Option Bytes
data_found none = none
data_found (some rest) = some (base64_decode (element rest))

abbrev pub data_value : (key xml : Text) → Option Bytes
data_value key xml = data_found (after (ascii "<key>" ++ (key ++ ascii "</key><data>")) xml)

-- The constraint names the team and the identifier of the shim, or for an ad-hoc identity its hash.
unfoldable pub Constrains : SigningIdentity → ShimSigningInfo → Text → Type 0
Constrains (real name) info xml =
    (string_value (ascii "team-identifier") xml ≡ some (team_or_empty info.team_identifier))
    × (string_value (ascii "signing-identifier") xml ≡ some info.identifier)
Constrains ad_hoc info xml =
    (hash : Bytes) × (hex_decode info.cdhash_sha256 ≡ some (some hash))
    × (length hash ≡ 20)
    × (data_value (ascii "cdhash") xml ≡ some hash)

-- The constraint of a real identity, behind the tag of the team.
module _ (team identifier : Text) where
  abbrev behind_identifier : Text
  behind_identifier = ascii "</string></dict></plist>"

  abbrev behind_team : Text
  behind_team =
      ascii "</string><key>signing-identifier</key><string>"
      ++ (xml_escape identifier ++ behind_identifier)

  string_of : (s rest : Text) → unescape 0 (element (xml_escape s ++ (60 ∷ rest))) ≡ s
  string_of s rest = ap (unescape 0) (element-xml_escape s rest) ∙ unescape-xml_escape s

  abbrev real_xml : Text
  real_xml =
      ascii
        "<?xml version=\"1.0\" encoding=\"UTF-8\"?><plist version=\"1.0\"><dict><key>team-identifier</key><string>"
      ++ (xml_escape team ++ behind_team)

  team_read : string_value (ascii "team-identifier") real_xml ≡ some team
  unfolding after strip_prefix
  team_read = ap some (string_of team _)

  identifier_read : string_value (ascii "signing-identifier") real_xml ≡ some identifier
  unfolding after strip_prefix
  identifier_read =
      ap string_found
        (after-xml_escape (ascii "key>signing-identifier</key><string>") team behind_team)
      ∙ ap some (string_of identifier _)

-- No digit of base 64 starts a tag.
abbrev no_tag : Text → Bool
no_tag [] = true
no_tag (c ∷ s) = not (c == 60) && no_tag s

get_or-no_tag : (s : Text) (i : ℕ) → no_tag s ≡ true → (get_or s i 0 == 60) ≡ false
get_or-no_tag [] i h = refl
get_or-no_tag (c ∷ s) zero h = ground arith
get_or-no_tag (c ∷ s) (suc i) h = get_or-no_tag s i (and_split (not (c == 60)) (no_tag s) h).1

digit_no_tag : (n shift : ℕ) → (digit n shift == 60) ≡ false
digit_no_tag n shift = get_or-no_tag base64_alphabet (n / 2 ^ shift % 64) refl

element_four :
    (a b c d : ℕ) (s : Text)
    → (a == 60) ≡ false
    → (b == 60) ≡ false
    → (c == 60) ≡ false
    → (d == 60) ≡ false
    → element (a ∷ b ∷ c ∷ d ∷ s) ≡ a ∷ b ∷ c ∷ d ∷ element s
unfolding element
element_four a b c d s ha hb hc hd = rw ha (rw hb (rw hc (rw hd refl)))

element-base64_encode :
    (bs : Bytes) (rest : Text) → element (base64_encode bs ++ (60 ∷ rest)) ≡ base64_encode bs
unfolding base64_encode encode_chunk element
element-base64_encode [] rest = refl
element-base64_encode (a ∷ []) rest =
    element_four _ _ _ _ (60 ∷ rest) (digit_no_tag (quantum a 0 0) 18)
      (digit_no_tag (quantum a 0 0) 12) refl refl
element-base64_encode (a ∷ b ∷ []) rest =
    element_four _ _ _ _ (60 ∷ rest) (digit_no_tag (quantum a b 0) 18)
      (digit_no_tag (quantum a b 0) 12) (digit_no_tag (quantum a b 0) 6) refl
element-base64_encode (a ∷ b ∷ c ∷ bs) rest =
    element_four _ _ _ _ (base64_encode bs ++ (60 ∷ rest)) (digit_no_tag (quantum a b c) 18)
      (digit_no_tag (quantum a b c) 12) (digit_no_tag (quantum a b c) 6)
      (digit_no_tag (quantum a b c) 0)
    ∙ ap (λ (s : Text). encode_chunk 3 a b c ++ s) (element-base64_encode bs rest)

none-some : {A : Type 0} {a : A} → ◌≢◌ {A = Option A} none (some a)
none-some h = cc

same_value : {A : Type 0} {a b : A} → ◌≡◌ {A = Option A} (some a) (some b) → a ≡ b
same_value h = cc

to_digit-lt : (b v : ℕ) → to_digit b ≡ some v → v < 16
unfolding to_digit
to_digit-lt b v h = ground arith

from_str_radix-IsByte : (a b v : ℕ) → from_str_radix a b ≡ some v → IsByte v
unfolding from_str_radix
from_str_radix-IsByte a b v h = elim (Bool-cases (a == 43)) [
  | inl plus ↦ let low = to_digit-lt b v (rw plus at h) in omega arith
  | inr digits ↦ elim (Option-cases (to_digit a)) [
    | inl bad ↦ absurd (none-some (rw bad at (rw digits at h)))
    | inr (high, e) ↦ elim (Option-cases (to_digit b)) [
      | inl bad ↦ absurd (none-some (rw bad at (rw e at (rw digits at h))))
      | inr (low, e') ↦
          let sum = same_value (rw e' at (rw e at (rw digits at h))) in
          omega (arith, sum, to_digit-lt a high e, to_digit-lt b low e')
    ]
  ]
]

decode_pairs-IsByte : (s : Text) (bs : Bytes) → decode_pairs s ≡ some (some bs) → All IsByte bs
unfolding decode_pairs
decode_pairs-IsByte [] bs h = subst (All IsByte) (same_value (same_value h)) tt
decode_pairs-IsByte (a ∷ []) bs h = subst (All IsByte) (same_value (same_value h)) tt
decode_pairs-IsByte (a ∷ b ∷ rest) bs h = elim (Bool-cases (splits_character rest)) [
  | inl splits ↦ absurd (none-some (rw splits at h))
  | inr whole ↦ elim (Option-cases (from_str_radix a b)) [
    | inl bad ↦ absurd (none-some (same_value (rw bad at (rw whole at h))))
    | inr (v, e) ↦ elim (Option-cases (decode_pairs rest)) [
      | inl panics ↦ absurd (none-some (rw panics at (rw e at (rw whole at h))))
      | inr (decoded, e') ↦ elim (Option-cases decoded) [
        | inl bad ↦
            absurd (none-some (same_value (rw (e' ∙ ap some bad) at (rw e at (rw whole at h)))))
        | inr (vs, e'') ↦
            subst (All IsByte)
              (same_value (same_value (rw (e' ∙ ap some e'') at (rw e at (rw whole at h)))))
              (from_str_radix-IsByte a b v e, decode_pairs-IsByte rest vs (e' ∙ ap some e''))
      ]
    ]
  ]
]

hex_decode-IsByte : (s : Text) (bs : Bytes) → hex_decode s ≡ some (some bs) → All IsByte bs
unfolding hex_decode
hex_decode-IsByte s bs h = elim (Bool-cases (length s % 2 == 0)) [
  | inl even ↦ decode_pairs-IsByte s bs (rw even at h)
  | inr odd ↦ absurd (none-some (same_value (rw odd at h)))
]

decoded_hash-ok :
    (o : Option (Option Bytes)) (bs : Bytes) → decoded_hash o ≡ ok bs → o ≡ some (some bs)
decoded_hash-ok none bs h = cc
decoded_hash-ok (some none) bs h = cc
decoded_hash-ok (some (some v)) bs h = cc

-- The constraint of an ad-hoc identity.
abbrev pub hash_xml : Bytes → Text
hash_xml hash =
    ascii
      "<?xml version=\"1.0\" encoding=\"UTF-8\"?><plist version=\"1.0\"><dict><key>cdhash</key><data>"
    ++ (base64_encode hash ++ ascii "</data></dict></plist>")

data_read :
    (hash : Bytes) → All IsByte hash → data_value (ascii "cdhash") (hash_xml hash) ≡ some hash
unfolding after strip_prefix
data_read hash h =
    ap some
      (ap base64_decode (element-base64_encode hash _) ∙ (base64_decode-base64_encode hash h).0)

-- The constraint that is written constrains.
pub constraint_plist-Constrains :
    (identity : SigningIdentity) (info : ShimSigningInfo) (xml : Text)
    → constraint_plist identity info ≡ ok xml
    → Constrains identity info xml
unfolding constraint_plist Constrains
constraint_plist-Constrains (real name) info xml h =
    subst (Constrains (real name) info) (ok-injective h) (
      team_read (team_or_empty info.team_identifier) info.identifier,
      identifier_read (team_or_empty info.team_identifier) info.identifier,
    )
constraint_plist-Constrains ad_hoc info xml h =
    let (hash, decodes, h1) = >>=-eq-ok (decoded_hash (hex_decode info.cdhash_sha256)) _ h in
    let (u, twenty, h2) = >>=-eq-ok (guard (length hash == 20) _) _ h1 in
    let d = decoded_hash-ok (hex_decode info.cdhash_sha256) hash decodes in
    (
      hash,
      d,
      (==_iff (length hash) 20).0 (guard-eq-ok _ _ twenty),
      subst (λ (t : Text). data_value (ascii "cdhash") t ≡ some hash) (ok-injective h2)
          (data_read hash (hex_decode-IsByte info.cdhash_sha256 hash d)),
    )
