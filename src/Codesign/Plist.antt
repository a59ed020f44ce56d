-- ===== src/Codesign/Plist.antt =====
-- The property lists that crates/daemon/os-codesign-macho/src/lib.rs writes and reads
-- (`sign_rewritten_executable`, `plist_bool`).
use os_emulation.Base.{
  Bool, true, false, ◌&&◌, Option, none, some, [], ◌++◌, Text, Bytes, ascii, length, ◌==◌, Result,
  ok, err, ◌>>=◌, ◌>>◌, guard, not,
}
use os_emulation.Codesign.Texts.{starts_with, after, trim_start, replace}
use os_emulation.Codesign.Hex.{hex_decode}
use os_emulation.Codesign.Base64.{base64_encode}

pub data SigningIdentity : Type 0 where
  real : Text → SigningIdentity
  ad_hoc : SigningIdentity

unfoldable pub codesign_arg : SigningIdentity → Text
codesign_arg (real s) = s
codesign_arg ad_hoc = ascii "-"

unfoldable pub is_adhoc : SigningIdentity → Bool
is_adhoc (real s) = false
is_adhoc ad_hoc = true

pub record EntitlementPolicy : Type 0 where
  pub allow_jit : Bool
  pub allow_unsigned_executable_memory : Bool
  pub get_task_allow : Bool

pub data SignError : Type 0 where
  codesign_not_found : SignError
  command_failed : Text → SignError
  parse_failed : Text → SignError

-- How a call ends that gives no value.
pub data Failure : Type 0 where
  failed : SignError → Failure
  panicked : Failure

abbrev pub Signing : Type 0 → Type 0
Signing A = Result Failure A

pub record ShimSigningInfo : Type 0 where
  pub team_identifier : Option Text
  pub identifier : Text
  pub cdhash_sha256 : Text

unfoldable pub plist_bool : (xml key : Text) → Bool
unfolding after trim_start starts_with
plist_bool xml key = elim (after (ascii "<key>" ++ key ++ ascii "</key>") xml) [
  | none ↦ false
  | some rest ↦ starts_with (ascii "<true/>") (trim_start rest)
]

unfoldable pub bool_tag : Bool → Text
bool_tag true = ascii "true"
bool_tag false = ascii "false"

unfoldable pub xml_escape : Text → Text
unfolding replace
xml_escape s = replace 39 (ascii "&apos;") (
    replace 34 (ascii "&quot;")
      (replace 62 (ascii "&gt;") (replace 60 (ascii "&lt;") (replace 38 (ascii "&amp;") s))))

abbrev pub allow_jit_key : Text
allow_jit_key = ascii "com.apple.security.cs.allow-jit"

abbrev pub unsigned_memory_key : Text
unsigned_memory_key = ascii "com.apple.security.cs.allow-unsigned-executable-memory"

abbrev pub task_allow_key : Text
task_allow_key = ascii "com.apple.security.get-task-allow"

-- `<key>com.apple.security.cs.disable-library-validation</key><true/>`, for an ad-hoc identity.
unfoldable pub unvalidated : SigningIdentity → Text
unvalidated (real s) = []
unvalidated ad_hoc = ascii "<key>com.apple.security.cs.disable-library-validation</key><true/>"

-- The text `entitlements`.
unfoldable pub entitlements_plist : SigningIdentity → EntitlementPolicy → Bool → Text
unfolding bool_tag unvalidated
entitlements_plist identity policy allow_get_task_allow =
    ascii "<?xml version=\"1.0\" encoding=\"UTF-8\"?><plist version=\"1.0\"><dict>"
    ++ (ascii "<key>com.apple.security.cs.allow-jit</key><"
        ++ (bool_tag policy.allow_jit
            ++ (ascii "/><key>com.apple.security.cs.allow-unsigned-executable-memory</key><"
                ++ (bool_tag policy.allow_unsigned_executable_memory
                    ++ (ascii "/><key>com.apple.security.get-task-allow</key><"
                        ++ (bool_tag (policy.get_task_allow && allow_get_task_allow)
                            ++ (ascii "/>"
                                ++ (unvalidated identity ++ ascii "</dict></plist>"))))))))

-- `hex_decode(…).ok_or_else(…)?`
abbrev pub decoded_hash : Option (Option Bytes) → Signing Bytes
decoded_hash none = err panicked
decoded_hash (some none) = err (failed (parse_failed (ascii "invalid shim cdhash")))
decoded_hash (some (some decoded)) = ok decoded

-- `team.as_deref().unwrap_or("")`
abbrev pub team_or_empty : Option Text → Text
team_or_empty none = []
team_or_empty (some team) = team

-- The text `constraint`.
unfoldable pub constraint_plist : SigningIdentity → ShimSigningInfo → Signing Text
unfolding hex_decode base64_encode xml_escape
constraint_plist ad_hoc info = do
  decoded ← decoded_hash (hex_decode info.cdhash_sha256)
  guard (length decoded == 20) (failed (parse_failed (ascii "invalid shim cdhash length")))
  ok (
      ascii
        "<?xml version=\"1.0\" encoding=\"UTF-8\"?><plist version=\"1.0\"><dict><key>cdhash</key><data>"
      ++ (base64_encode decoded ++ ascii "</data></dict></plist>"))
constraint_plist (real s) info = ok (
    ascii
      "<?xml version=\"1.0\" encoding=\"UTF-8\"?><plist version=\"1.0\"><dict><key>team-identifier</key><string>"
    ++ (xml_escape (team_or_empty info.team_identifier)
        ++ (ascii "</string><key>signing-identifier</key><string>"
            ++ (xml_escape info.identifier ++ ascii "</string></dict></plist>"))))

abbrev is_none : Option Text → Bool
is_none none = true
is_none (some team) = false

-- The guards in front of `sign_rewritten_executable`.
unfoldable pub check_identity : SigningIdentity → ShimSigningInfo → Signing (Unit {0})
check_identity ad_hoc info =
    guard (not (length info.cdhash_sha256 == 0))
      (failed (parse_failed (ascii "shim has no SHA-256 code-directory hash")))
check_identity (real s) info = guard (not (is_none info.team_identifier)) (
    failed (
      parse_failed (
        ascii
          "shim has no TeamIdentifier; sign it with a real identity or use SigningIdentity::AdHoc")))
