-- ===== src/Codesign/SigningExamples.antt =====
-- Runs of the signing in crates/daemon/os-codesign-macho/src/lib.rs on a machine that records what is
-- done to it, with the vectors of its tests.
use os_emulation.Base.{
  join, true, false, none, some, List, [], ◌∷◌, ◌≡◌, refl, Text, Bytes, ascii, ok, err, is_utf8,
  from_utf8_lossy, text_eq,
}
use os_emulation.Codesign.Texts.{
  strip_prefix, starts_with, after, white_width, white_width_back, trim_by, trim_start, trim,
  lines_from, lines, replace,
}
use os_emulation.Codesign.Hex.{hex_decode, decode_pairs, from_str_radix, to_digit, is_unusable}
use os_emulation.Codesign.Plist.{
  real, ad_hoc, EntitlementPolicy, ShimSigningInfo, failed, parse_failed, plist_bool, xml_escape,
  constraint_plist, check_identity, allow_jit_key, task_allow_key,
}
use os_emulation.Codesign.Constrains.{Constrains}
use os_emulation.Codesign.Report.{
  combined_output, note_line, report_loop, noted_identifier, noted_cdhash, noted_team, parse_report,
}
use os_emulation.Codesign.Signing.{
  System, to_str, shim_args, run_codesign, write_file, signing_info, sign_shim,
  sign_rewritten_executable,
}
use os_emulation.Codesign.SigningLaws.{Signed, sign_rewritten_executable-Signed}
use os_emulation.Codesign.Accepted.{Fits, sign_shim-Fits}

granted_key :
    plist_bool
      (ascii
        "<dict><key>com.apple.security.cs.allow-jit</key><true/><key>com.apple.security.get-task-allow</key><false/></dict>")
      allow_jit_key
    ≡ true
unfolding plist_bool after strip_prefix starts_with trim_start trim_by white_width
granted_key = refl

denied_key :
    plist_bool
      (ascii
        "<dict><key>com.apple.security.cs.allow-jit</key><true/><key>com.apple.security.get-task-allow</key><false/></dict>")
      task_allow_key
    ≡ false
unfolding plist_bool after strip_prefix starts_with trim_start trim_by white_width
denied_key = refl

reserved : xml_escape (ascii "A&B<C>\"D'") ≡ ascii "A&amp;B&lt;C&gt;&quot;D&apos;"
unfolding xml_escape replace
reserved = refl

-- A broken character gives way to U+FFFD.
broken : from_utf8_lossy (65 ∷ 0xe2 ∷ 0x82 ∷ 66 ∷ []) ≡ 65 ∷ 0xef ∷ 0xbf ∷ 0xbd ∷ 66 ∷ []
unfolding from_utf8_lossy
broken = refl

abbrev recorder : System (List Bytes)
recorder = record {
  codesign = λ args m. (
    ascii "codesign" ∷ m,
    some (record {
      success = true;
      stdout = [];
      stderr =
          ascii
            "Executable=/shim\nIdentifier=org.shim\r\nCandidateCDHash sha256=0123456789abcdefABCDEF0123456789deadbeef\nTeamIdentifier=not set\n";
    }),
  );
  write = λ path contents m. (path ∷ m, none);
}

abbrev a_shim : ShimSigningInfo
a_shim = record {
  team_identifier = none;
  identifier = ascii "org.shim";
  cdhash_sha256 = ascii "0123456789abcdefABCDEF0123456789deadbeef";
}

abbrev a_policy : EntitlementPolicy
a_policy = record {
  allow_jit = true;
  allow_unsigned_executable_memory = false;
  get_task_allow = true;
}

signs_shim :
    sign_shim recorder (ascii "/shim") ad_hoc none []
    ≡ (ascii "codesign" ∷ ascii "codesign" ∷ [], ok a_shim)
unfolding sign_shim signing_info run_codesign to_str is_utf8 shim_args combined_output
    from_utf8_lossy parse_report lines lines_from report_loop note_line strip_prefix trim trim_start
    trim_by white_width white_width_back noted_identifier noted_cdhash noted_team is_unusable
    text_eq
signs_shim = refl

abbrev written_files : List Bytes
written_files =
    ascii "codesign"
    ∷ ascii "/work/library-constraint.plist"
    ∷ ascii "/work/entitlements.plist"
    ∷ []

signs_executable :
    sign_rewritten_executable recorder
      (ascii "/exe")
      a_shim
      ad_hoc
      a_policy
      false
      (ascii "/work")
      none
      []
    ≡ (written_files, ok tt)
unfolding sign_rewritten_executable check_identity constraint_plist hex_decode decode_pairs
    from_str_radix to_digit write_file run_codesign to_str is_utf8 join
signs_executable = refl

sign_rewritten_executable-Signed_example :
    Signed recorder
      (ascii "/exe")
      a_shim
      ad_hoc
      a_policy
      false
      (ascii "/work")
      none
      []
      written_files
sign_rewritten_executable-Signed_example =
    sign_rewritten_executable-Signed recorder (ascii "/exe") a_shim ad_hoc a_policy false
      (ascii "/work") none [] written_files signs_executable

a_shim-Fits : Fits ad_hoc a_shim
unfolding Fits
a_shim-Fits = tt

sign_shim-Fits_example :
    (check_identity ad_hoc a_shim ≡ ok tt)
    × ((xml : Text) × (constraint_plist ad_hoc a_shim ≡ ok xml) × Constrains ad_hoc a_shim xml)
sign_shim-Fits_example =
    sign_shim-Fits recorder (ascii "/shim") ad_hoc none []
      (ascii "codesign" ∷ ascii "codesign" ∷ []) a_shim signs_shim ad_hoc a_shim-Fits

-- The guards refuse before anything is done.
no_hash :
    sign_rewritten_executable recorder
      (ascii "/exe")
      (record { team_identifier = none; identifier = ascii "org.shim"; cdhash_sha256 = [] })
      ad_hoc
      a_policy
      false
      (ascii "/work")
      none
      []
    ≡ ([], err (failed (parse_failed (ascii "shim has no SHA-256 code-directory hash"))))
unfolding sign_rewritten_executable check_identity
no_hash = refl

no_team :
    sign_rewritten_executable recorder
      (ascii "/exe")
      a_shim
      (real (ascii "Developer ID"))
      a_policy
      false
      (ascii "/work")
      none
      []
    ≡ (
      [],
      err (
          failed (
            parse_failed (
              ascii
                "shim has no TeamIdentifier; sign it with a real identity or use SigningIdentity::AdHoc"))),
    )
unfolding sign_rewritten_executable check_identity
no_team = refl
