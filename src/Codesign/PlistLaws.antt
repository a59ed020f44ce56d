-- ===== src/Codesign/PlistLaws.antt =====
-- What a reader finds in the property lists that `sign_rewritten_executable` of
-- crates/daemon/os-codesign-macho/src/lib.rs writes.
use os_emulation.Base.{
  Bool, true, false, ◌&&◌, ◌≡◌, refl, ap, ◌∙◌, Option, none, some, ◌∷◌, ◌++◌, Text, ascii,
}
use os_emulation.Codesign.Texts.{strip_prefix, starts_with, after, trim_start, trim_by, white_width}
use os_emulation.Codesign.Plist.{
  SigningIdentity, real, ad_hoc, is_adhoc, EntitlementPolicy, plist_bool, bool_tag, unvalidated,
  entitlements_plist, allow_jit_key, unsigned_memory_key, task_allow_key,
}

abbrev pub unvalidated_key : Text
unvalidated_key = ascii "com.apple.security.cs.disable-library-validation"

-- A property list grants the policy, and the switch of the library validation to an ad-hoc identity.
pub record Grants (xml : Text) (identity : SigningIdentity) (jit memory task : Bool) : Type 0 where
  pub grants_jit : plist_bool xml allow_jit_key ≡ jit
  pub grants_memory : plist_bool xml unsigned_memory_key ≡ memory
  pub grants_task : plist_bool xml task_allow_key ≡ task
  pub unvalidates : plist_bool xml unvalidated_key ≡ is_adhoc identity

-- A tag holds no marker.
skip_tag :
    (marker : Text) (b : Bool) (rest : Text)
    → after (60 ∷ 107 ∷ marker) (60 ∷ (bool_tag b ++ rest)) ≡ after (60 ∷ 107 ∷ marker) rest
unfolding after strip_prefix bool_tag
skip_tag marker true rest = refl
skip_tag marker false rest = refl

-- What `plist_bool` makes of the text behind the key.
unfoldable granted : Option Text → Bool
unfolding trim_start starts_with
granted none = false
granted (some rest) = starts_with (ascii "<true/>") (trim_start rest)

granted_tag : (b : Bool) (rest : Text) → granted (some (60 ∷ (bool_tag b ++ (47 ∷ 62 ∷ rest)))) ≡ b
unfolding granted bool_tag trim_start trim_by white_width starts_with strip_prefix
granted_tag true rest = refl
granted_tag false rest = refl

-- The marker of a key, behind its first two bytes.
abbrev marker_of : Text → Text
marker_of key = ascii "ey>" ++ (key ++ ascii "</key>")

granted_after :
    (key xml rest : Text) (b : Bool) (tail : Text)
    → after (60 ∷ 107 ∷ marker_of key) xml ≡ after (60 ∷ 107 ∷ marker_of key) rest
    → after (60 ∷ 107 ∷ marker_of key) rest ≡ some (60 ∷ (bool_tag b ++ (47 ∷ 62 ∷ tail)))
    → plist_bool xml key ≡ b
unfolding plist_bool granted
granted_after key xml rest b tail skipped found = ap granted (skipped ∙ found) ∙ granted_tag b tail

-- The end of the list, where the library validation is switched.
switch_read :
    (identity : SigningIdentity)
    → granted (
        after
          (60 ∷ 107 ∷ marker_of unvalidated_key)
          (ascii "/>" ++ (unvalidated identity ++ ascii "</dict></plist>")))
      ≡ is_adhoc identity
unfolding granted after strip_prefix unvalidated is_adhoc trim_start trim_by white_width starts_with
switch_read (real name) = refl
switch_read ad_hoc = refl

module _ (identity : SigningIdentity) (policy : EntitlementPolicy) (allow : Bool) where
  -- The property list behind its last tag, from the third one on, and from the second and the first on.
  abbrev behind : Text
  behind = ascii "/>" ++ (unvalidated identity ++ ascii "</dict></plist>")

  abbrev third : Text
  third =
      ascii "/><key>com.apple.security.get-task-allow</key><"
      ++ (bool_tag (policy.get_task_allow && allow) ++ behind)

  abbrev second : Text
  second =
      ascii "/><key>com.apple.security.cs.allow-unsigned-executable-memory</key><"
      ++ (bool_tag policy.allow_unsigned_executable_memory ++ third)

  abbrev xml : Text
  xml = entitlements_plist identity policy allow

  jit_read : plist_bool xml allow_jit_key ≡ policy.allow_jit
  unfolding entitlements_plist after strip_prefix
  jit_read = granted_after allow_jit_key xml xml policy.allow_jit _ refl refl

  memory_read : plist_bool xml unsigned_memory_key ≡ policy.allow_unsigned_executable_memory
  unfolding entitlements_plist after strip_prefix
  memory_read =
      granted_after unsigned_memory_key xml second policy.allow_unsigned_executable_memory _
        (skip_tag (marker_of unsigned_memory_key) policy.allow_jit second) refl

  task_read : plist_bool xml task_allow_key ≡ policy.get_task_allow && allow
  unfolding entitlements_plist after strip_prefix
  task_read =
      granted_after task_allow_key xml third (policy.get_task_allow && allow) _
        (skip_tag (marker_of task_allow_key) policy.allow_jit second
          ∙ skip_tag (marker_of task_allow_key) policy.allow_unsigned_executable_memory third)
        refl

  unvalidated_read : plist_bool xml unvalidated_key ≡ is_adhoc identity
  unfolding plist_bool granted entitlements_plist after strip_prefix
  unvalidated_read =
      ap granted (
        skip_tag (marker_of unvalidated_key) policy.allow_jit second
        ∙ skip_tag (marker_of unvalidated_key) policy.allow_unsigned_executable_memory third
        ∙ skip_tag (marker_of unvalidated_key) (policy.get_task_allow && allow) behind)
      ∙ switch_read identity

  -- The entitlements that are written grant what the policy grants, the debugging only if it is allowed
  -- too, and an ad-hoc identity does without the library validation, no other.
  pub entitlements_plist-Grants :
      Grants xml identity policy.allow_jit policy.allow_unsigned_executable_memory
        (policy.get_task_allow && allow)
  entitlements_plist-Grants = record {
    grants_jit = jit_read;
    grants_memory = memory_read;
    grants_task = task_read;
    unvalidates = unvalidated_read;
  }
