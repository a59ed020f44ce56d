-- ===== src/Codesign/Signing.antt =====
-- The calls of `codesign` in crates/daemon/os-codesign-macho/src/lib.rs. The tool and the writes of
-- files are parameters that work on a state of the machine; a path is a list of bytes.
use os_emulation.Base.{
  Bool, true, false, Option, none, some, List, [], ◌∷◌, ◌++◌, Text, Bytes, ascii, is_utf8, join,
  from_utf8_lossy, if◌then◌else◌, ok, err,
}
use os_emulation.Codesign.Plist.{
  Signing, failed, SignError, codesign_not_found, command_failed, parse_failed, SigningIdentity,
  codesign_arg, EntitlementPolicy, ShimSigningInfo, plist_bool, allow_jit_key, unsigned_memory_key,
  task_allow_key, entitlements_plist, constraint_plist, check_identity,
}
use os_emulation.Codesign.Report.{Output, combined_output, parse_report}

-- `codesign` with its arguments, which may not start, and `std::fs::write`, which may give the text of
-- an error.
pub record System (Machine : Type 0) : Type 0 where
  pub codesign : List Bytes → Machine → Machine × Option Output
  pub write : (path contents : Bytes) → Machine → Machine × Option Text

-- A run changes the machine and gives a value or a failure.
abbrev pub Run : Type 0 → Type 0 → Type 0
Run Machine A = Machine → Machine × Signing A

-- `Path::to_str` with its error
unfoldable pub to_str : Bytes → Signing Text
to_str path = if is_utf8 path then ok path else err (failed (parse_failed (ascii "non-UTF8 path")))

-- `["--keychain", kc]`
unfoldable pub keychain_args : Option Text → List Bytes
keychain_args none = []
keychain_args (some kc) = ascii "--keychain" ∷ kc ∷ []

unfoldable pub shim_args : SigningIdentity → Option Text → (path : Text) → List Bytes
unfolding codesign_arg keychain_args
shim_args identity keychain path =
    ascii "--force"
    ∷ ascii "--sign"
    ∷ codesign_arg identity
    ∷ ascii "--timestamp=none"
    ∷ ascii "--options"
    ∷ ascii "runtime"
    ∷ (keychain_args keychain ++ (path ∷ []))

unfoldable pub executable_args :
    SigningIdentity → Option Text → (exe entitlements constraint : Text) → List Bytes
unfolding codesign_arg keychain_args
executable_args identity keychain exe entitlements constraint =
    ascii "--force"
    ∷ ascii "--sign"
    ∷ codesign_arg identity
    ∷ ascii "--timestamp=none"
    ∷ ascii "--options"
    ∷ ascii "runtime"
    ∷ ascii "--entitlements"
    ∷ entitlements
    ∷ ascii "--library-constraint"
    ∷ constraint
    ∷ (keychain_args keychain ++ (exe ∷ []))

module _ {Machine : Type 0} where
  -- A call goes on where the one before it gave a value.
  abbrev pub continue :
      {A B : Type 0} → Machine × Signing A → (A → Run Machine B) → Machine × Signing B
  continue (m, err e) next = (m, err e)
  continue (m, ok v) next = next v m

  infixl 5 ◌>>=◌
  abbrev pub ◌>>=◌ : {A B : Type 0} → Run Machine A → (A → Run Machine B) → Run Machine B
  (first >>= next) m = continue (first m) next

  infixl 5 ◌>>◌
  abbrev pub ◌>>◌ : {B : Type 0} → Run Machine (Unit {0}) → Run Machine B → Run Machine B
  first >> second = first >>= λ done. second

  -- What leaves the machine alone.
  abbrev pub lift : {A : Type 0} → Signing A → Run Machine A
  lift outcome m = (m, outcome)

  abbrev pub refuse_unless : Bool → SignError → Run Machine (Unit {0})
  refuse_unless true e = lift (ok tt)
  refuse_unless false e = lift (err (failed e))

  -- `.output().map_err(|_| SignError::CodesignNotFound)`
  abbrev pub ran : Machine × Option Output → Machine × Signing Output
  ran (m, none) = (m, err (failed codesign_not_found))
  ran (m, some out) = (m, ok out)

  -- `.map_err(|e| SignError::CommandFailed(e.to_string()))`
  abbrev pub written : Machine × Option Text → Machine × Signing (Unit {0})
  written (m, none) = (m, ok tt)
  written (m, some e) = (m, err (failed (command_failed e)))

  module _ (system : System Machine) where
    unfoldable pub run_codesign : List Bytes → Run Machine Output
    run_codesign args m = ran (system.codesign args m)

    -- `std::fs::write(…).map_err(…)?`
    unfoldable pub write_file : (path contents : Bytes) → Run Machine (Unit {0})
    write_file path contents m = written (system.write path contents m)

    abbrev succeeds : Option Output → Bool
    succeeds none = false
    succeeds (some out) = out.success

    unfoldable pub verify_signed : (path : Bytes) → Run Machine Bool
    verify_signed path m =
        let (m', outcome) = system.codesign (ascii "--verify" ∷ ascii "--strict" ∷ path ∷ []) m in
        (m', ok (succeeds outcome))

    unfoldable pub read_original_entitlements : (path : Bytes) → Run Machine EntitlementPolicy
    unfolding verify_signed run_codesign combined_output plist_bool to_str
    read_original_entitlements original_path = do
      valid ← verify_signed original_path
      refuse_unless valid (
          command_failed
            (from_utf8_lossy original_path ++ ascii " does not have a valid signature"))
      path ← lift (to_str original_path)
      out ← run_codesign (ascii "-d" ∷ ascii "--entitlements" ∷ ascii ":-" ∷ path ∷ [])
      refuse_unless out.success (command_failed (combined_output out))
      let plist = combined_output out
      lift (
          ok (record {
            allow_jit = plist_bool plist allow_jit_key;
            allow_unsigned_executable_memory = plist_bool plist unsigned_memory_key;
            get_task_allow = plist_bool plist task_allow_key;
          }))

    unfoldable pub signing_info : (path : Bytes) → Run Machine ShimSigningInfo
    unfolding run_codesign combined_output parse_report to_str
    signing_info path = do
      path_str ← lift (to_str path)
      out ← run_codesign (ascii "-dv" ∷ ascii "--verbose=4" ∷ path_str ∷ [])
      refuse_unless out.success
          (command_failed (ascii "inspect signature: " ++ combined_output out))
      lift (parse_report (combined_output out))

    unfoldable pub sign_shim :
        (shim_path : Bytes) → SigningIdentity → Option Text → Run Machine ShimSigningInfo
    unfolding run_codesign combined_output signing_info shim_args to_str
    sign_shim shim_path identity keychain = do
      path_str ← lift (to_str shim_path)
      out ← run_codesign (shim_args identity keychain path_str)
      refuse_unless out.success (command_failed (combined_output out))
      signing_info shim_path

    unfoldable pub sign_rewritten_executable :
        (exe_path : Bytes)
        → ShimSigningInfo
        → SigningIdentity
        → EntitlementPolicy
        → (allow_get_task_allow : Bool) → (work_dir : Bytes) → Option Text
        → Run Machine (Unit {0})
    unfolding check_identity entitlements_plist constraint_plist write_file run_codesign
        combined_output executable_args to_str join
    sign_rewritten_executable exe_path info identity policy allow_get_task_allow work_dir keychain =
        do
          lift (check_identity identity info)
          constraint ← lift (constraint_plist identity info)
          let entitlements_path = join work_dir (ascii "entitlements.plist")
          let constraint_path = join work_dir (ascii "library-constraint.plist")
          write_file entitlements_path (entitlements_plist identity policy allow_get_task_allow)
          write_file constraint_path constraint
          exe_str ← lift (to_str exe_path)
          entitlements_str ← lift (to_str entitlements_path)
          constraint_str ← lift (to_str constraint_path)
          out ←
              run_codesign
                (executable_args identity keychain exe_str entitlements_str constraint_str)
          refuse_unless out.success (
              command_failed
                (ascii "hardened codesign with library constraint: " ++ combined_output out))
          lift (ok tt)
