-- ===== src/Codesign/ConstraintLaws.antt =====
-- What a reader of the library constraint finds that `sign_rewritten_executable` of
-- crates/daemon/os-codesign-macho/src/lib.rs writes.
use os_emulation.Base.{
  ℕ, zero, suc, ◌≡◌, refl, sym, ap, subst, ◌∙◌, Bool, true, false, none, some, [], ◌∷◌, ◌++◌, Text,
  ascii, append_assoc, if◌then◌else◌, ◌==◌, arith, Bool-cases, inl, inr,
}
use os_emulation.Codesign.Texts.{strip_prefix, starts_with, after, replace}
use os_emulation.Codesign.Plist.{xml_escape}

-- An entity behind its `&`, as its character and the bytes that it takes there.
unfoldable pub entity : Text → ℕ × ℕ
entity s =
    if starts_with (ascii "amp;") s
    then (38, 4)
    else if starts_with (ascii "lt;") s
    then (60, 3)
    else if starts_with (ascii "gt;") s
    then (62, 3)
    else if starts_with (ascii "quot;") s
    then (34, 5)
    else if starts_with (ascii "apos;") s
    then (39, 5)
    else (38, 0)

-- The characters that a text of XML stands for; `skip` bytes of it belong to an entity.
unfoldable pub unescape : (skip : ℕ) → Text → Text
unfolding entity
unescape skip [] = []
unescape (suc skip) (b ∷ s) = unescape skip s
unescape zero (b ∷ s) =
    if b == 38 then (entity s).0 ∷ unescape (entity s).1 s else b ∷ unescape zero s

-- What stands before the next tag.
unfoldable pub element : Text → Text
element [] = []
element (b ∷ s) = if b == 60 then [] else b ∷ element s

-- A byte, escaped.
abbrev pub escape_byte : ℕ → Text
escape_byte b =
    if b == 38
    then ascii "&amp;"
    else if b == 60
    then ascii "&lt;"
    else if b == 62
    then ascii "&gt;"
    else if b == 34
    then ascii "&quot;"
    else if b == 39
    then ascii "&apos;"
    else b ∷ []

replace-append :
    (c : ℕ) (with' a b : Text) → replace c with' (a ++ b) ≡ replace c with' a ++ replace c with' b
unfolding replace
replace-append c with' [] b = refl
replace-append c with' (x ∷ a) b = elim (Bool-cases (x == c)) [
  | inl same ↦ rw same (
      ap (λ (s : Text). with' ++ s) (replace-append c with' a b)
      ∙ sym (append_assoc with' (replace c with' a) (replace c with' b)))
  | inr other ↦ rw other (ap (λ (s : Text). x ∷ s) (replace-append c with' a b))
]

xml_escape-append : (a b : Text) → xml_escape (a ++ b) ≡ xml_escape a ++ xml_escape b
unfolding xml_escape
xml_escape-append a b = simp replace-append refl

-- A byte that is not escaped.
record Plain (b : ℕ) : Type 0 where
  not_amp : (b == 38) ≡ false
  not_lt : (b == 60) ≡ false
  not_gt : (b == 62) ≡ false
  not_quot : (b == 34) ≡ false
  not_apos : (b == 39) ≡ false

same_byte : (b c : ℕ) → (b == c) ≡ true → c ≡ b
same_byte b c e = ground arith

by_byte :
    (P : ℕ → Type 0) → P 38 → P 60 → P 62 → P 34 → P 39 → ((b : ℕ) → Plain b → P b) → (b : ℕ) → P b
by_byte P amp lt gt quot apos plain b = elim (Bool-cases (b == 38)) [
  | inl e ↦ subst P (same_byte b 38 e) amp
  | inr a ↦ elim (Bool-cases (b == 60)) [
    | inl e ↦ subst P (same_byte b 60 e) lt
    | inr l ↦ elim (Bool-cases (b == 62)) [
      | inl e ↦ subst P (same_byte b 62 e) gt
      | inr g ↦ elim (Bool-cases (b == 34)) [
        | inl e ↦ subst P (same_byte b 34 e) quot
        | inr q ↦ elim (Bool-cases (b == 39)) [
          | inl e ↦ subst P (same_byte b 39 e) apos
          | inr n ↦
              plain b (record { not_amp = a; not_lt = l; not_gt = g; not_quot = q; not_apos = n })
        ]
      ]
    ]
  ]
]

xml_escape_byte : (b : ℕ) → xml_escape (b ∷ []) ≡ escape_byte b
unfolding xml_escape replace
xml_escape_byte =
    by_byte (λ b. xml_escape (b ∷ []) ≡ escape_byte b) refl refl refl refl refl
      (λ b p. rw p.not_amp (rw p.not_lt (rw p.not_gt (rw p.not_quot (rw p.not_apos refl)))))

-- An escaped byte is read back, and is no tag.
unescape_byte : (b : ℕ) (rest : Text) → unescape 0 (escape_byte b ++ rest) ≡ b ∷ unescape 0 rest
unfolding unescape entity starts_with strip_prefix
unescape_byte b rest =
    by_byte (λ b. unescape 0 (escape_byte b ++ rest) ≡ b ∷ unescape 0 rest) refl refl refl refl refl
      (λ b p.
        rw p.not_amp
          (rw p.not_lt (rw p.not_gt (rw p.not_quot (rw p.not_apos (rw p.not_amp refl))))))
      b

tag_byte : (b : ℕ) (rest : Text) → element (escape_byte b ++ rest) ≡ escape_byte b ++ element rest
unfolding element
tag_byte b rest =
    by_byte (λ b. element (escape_byte b ++ rest) ≡ escape_byte b ++ element rest) refl refl refl
      refl refl
      (λ b p.
        rw p.not_amp (rw p.not_lt (rw p.not_gt (rw p.not_quot (rw p.not_apos (rw p.not_lt refl))))))
      b

after_other :
    (marker : Text) (b : ℕ) (rest : Text)
    → (60 == b) ≡ false
    → after (60 ∷ marker) (b ∷ rest) ≡ after (60 ∷ marker) rest
unfolding after strip_prefix
after_other marker b rest other =
    ap
      (λ (same : Bool). elim (if same then strip_prefix marker rest else none) [
        | none ↦ after (60 ∷ marker) rest
        | some r ↦ some r
      ])
      other

after_byte :
    (marker : Text) (b : ℕ) (rest : Text)
    → after (60 ∷ marker) (escape_byte b ++ rest) ≡ after (60 ∷ marker) rest
unfolding after strip_prefix
after_byte marker b rest =
    by_byte (λ b. after (60 ∷ marker) (escape_byte b ++ rest) ≡ after (60 ∷ marker) rest) refl refl
      refl refl refl
      (λ b p.
        let other : (60 == b) ≡ false = ground (arith, p.not_lt) in
        rw p.not_amp (
          rw p.not_lt
            (rw p.not_gt (rw p.not_quot (rw p.not_apos (after_other marker b rest other))))))
      b

xml_escape-cons : (b : ℕ) (s : Text) → xml_escape (b ∷ s) ≡ escape_byte b ++ xml_escape s
xml_escape-cons b s =
    xml_escape-append (b ∷ []) s ∙ ap (λ (t : Text). t ++ xml_escape s) (xml_escape_byte b)

xml_escape_behind :
    (b : ℕ) (s rest : Text) → xml_escape (b ∷ s) ++ rest ≡ escape_byte b ++ (xml_escape s ++ rest)
xml_escape_behind b s rest =
    ap (λ (t : Text). t ++ rest) (xml_escape-cons b s)
    ∙ append_assoc (escape_byte b) (xml_escape s) rest

-- The escaped text ends at the next tag, has no tag within, and stands for the text.
pub element-xml_escape : (s rest : Text) → element (xml_escape s ++ (60 ∷ rest)) ≡ xml_escape s
unfolding xml_escape replace element
element-xml_escape [] rest = refl
element-xml_escape (b ∷ s) rest =
    ap element (xml_escape_behind b s (60 ∷ rest))
    ∙ tag_byte b (xml_escape s ++ (60 ∷ rest))
    ∙ ap (λ (t : Text). escape_byte b ++ t) (element-xml_escape s rest)
    ∙ sym (xml_escape-cons b s)

pub after-xml_escape :
    (marker s rest : Text) → after (60 ∷ marker) (xml_escape s ++ rest) ≡ after (60 ∷ marker) rest
unfolding xml_escape replace
after-xml_escape marker [] rest = refl
after-xml_escape marker (b ∷ s) rest =
    ap (after (60 ∷ marker)) (xml_escape_behind b s rest)
    ∙ after_byte marker b (xml_escape s ++ rest)
    ∙ after-xml_escape marker s rest

pub unescape-xml_escape : (s : Text) → unescape 0 (xml_escape s) ≡ s
unfolding xml_escape replace unescape
unescape-xml_escape [] = refl
unescape-xml_escape (b ∷ s) =
    ap (unescape 0) (xml_escape-cons b s)
    ∙ unescape_byte b (xml_escape s)
    ∙ ap (λ (t : Text). b ∷ t) (unescape-xml_escape s)
