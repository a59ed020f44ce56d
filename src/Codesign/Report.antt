-- ===== src/Codesign/Report.antt =====
-- The report of `codesign -dv --verbose=4`, as `signing_info` of
-- crates/daemon/os-codesign-macho/src/lib.rs reads it.
use os_emulation.Base.{
  Bool, Option, none, some, List, [], ◌∷◌, ◌++◌, Text, ascii, not, if◌then◌else◌, ok, err, ◌>>=◌,
  ◌>>◌, guard, text_eq, Bytes, from_utf8_lossy,
}
use os_emulation.Codesign.Texts.{strip_prefix, trim, lines}
use os_emulation.Codesign.Hex.{is_unusable}
use os_emulation.Codesign.Plist.{Signing, ShimSigningInfo, parse_failed, failed}

-- `std::process::Output`
pub record Output : Type 0 where
  pub success : Bool
  pub stdout : Bytes
  pub stderr : Bytes

unfoldable pub combined_output : Output → Text
combined_output out = from_utf8_lossy out.stdout ++ from_utf8_lossy out.stderr

-- The values that the lines so far have set.
pub record Report : Type 0 where
  pub team : Option Text
  pub identifier : Option Text
  pub cdhash : Option Text

unfoldable pub note_line : Report → (line : Text) → Report
unfolding strip_prefix trim
note_line report line = elim (strip_prefix (ascii "TeamIdentifier=") line) [
  | some v ↦ record report { team = some (trim v) }
  | none ↦ elim (strip_prefix (ascii "Identifier=") line) [
    | some v ↦ record report { identifier = some (trim v) }
    | none ↦ elim (strip_prefix (ascii "CandidateCDHash sha256=") line) [
      | some v ↦ record report { cdhash = some (trim v) }
      | none ↦ report
    ]
  ]
]

-- `for line in report.lines()`
unfoldable pub report_loop : Report → List Text → Report
unfolding note_line
report_loop report [] = report
report_loop report (line ∷ rest) = report_loop (note_line report line) rest

abbrev pub nothing_noted : Report
nothing_noted = record { team = none; identifier = none; cdhash = none }

-- `identifier.filter(|s| !s.is_empty()).ok_or_else(…)?`
unfoldable pub noted_identifier : Option Text → Signing Text
noted_identifier (some (b ∷ s)) = ok (b ∷ s)
noted_identifier (some []) = err (failed (parse_failed (ascii "no signing identifier")))
noted_identifier none = err (failed (parse_failed (ascii "no signing identifier")))

-- `cdhash.ok_or_else(…)?`
unfoldable pub noted_cdhash : Option Text → Signing Text
noted_cdhash (some s) = ok s
noted_cdhash none = err (failed (parse_failed (ascii "no usable SHA-256 code-directory hash")))

-- `team.filter(|t| t != "not set")`
unfoldable pub noted_team : Option Text → Option Text
noted_team none = none
noted_team (some t) = if text_eq t (ascii "not set") then none else some t

-- `signing_info` from the report on.
unfoldable pub parse_report : Text → Signing ShimSigningInfo
unfolding lines report_loop noted_identifier noted_cdhash noted_team is_unusable
parse_report text = do
  let report = report_loop nothing_noted (lines text)
  identifier ← noted_identifier report.identifier
  cdhash ← noted_cdhash report.cdhash
  guard (not (is_unusable cdhash))
      (failed (parse_failed (ascii "no usable SHA-256 code-directory hash")))
  ok (record {
    team_identifier = noted_team report.team;
    identifier = identifier;
    cdhash_sha256 = cdhash;
  })
