-- ===== src/Codesign/SigningLaws.antt =====
-- What `sign_rewritten_executable` of crates/daemon/os-codesign-macho/src/lib.rs has done where it
-- succeeds.
use os_emulation.Base.{
  join, Bool, true, false, ◌&&◌, Option, none, some, List, ◌≡◌, refl, sym, ap, ◌∙◌, Text, Bytes,
  is_utf8, ascii, ok, err, ok-injective, err-not-ok, inl, inr, Bool-cases,
}
use os_emulation.Codesign.Plist.{
  Signing, SignError, SigningIdentity, EntitlementPolicy, ShimSigningInfo, entitlements_plist,
  constraint_plist, check_identity,
}
use os_emulation.Codesign.PlistLaws.{Grants, entitlements_plist-Grants}
use os_emulation.Codesign.Constrains.{Constrains, constraint_plist-Constrains}
use os_emulation.Codesign.Report.{Output}
use os_emulation.Codesign.Signing.{
  System, Run, to_str, executable_args, continue, refuse_unless, ran, written, run_codesign,
  write_file, sign_rewritten_executable,
}

to_str-ok : (path : Bytes) {s : Text} → to_str path ≡ ok s → path ≡ s
unfolding to_str
to_str-ok path h = elim (Bool-cases (is_utf8 path)) [
  | inl valid ↦ ok-injective (rw valid at h)
  | inr invalid ↦ absurd (err-not-ok (rw invalid at h))
]

args_same :
    (identity : SigningIdentity) (keychain : Option Text) {a b c a' b' c' : Text}
    → a' ≡ a
    → b' ≡ b
    → c' ≡ c
    → executable_args identity keychain a b c ≡ executable_args identity keychain a' b' c'
args_same identity keychain p q r = cc

module _ {Machine : Type 0} where
  pub outcome_of :
      {A : Type 0} {m n : Machine} {r s : Signing A}
      → ◌≡◌ {A = Machine × Signing A} (m, r) (n, s)
      → r ≡ s
  outcome_of h = ap (λ (p : Machine × Signing _). p.1) h

  machine_of :
      {A : Type 0} {m n : Machine} {r s : Signing A}
      → ◌≡◌ {A = Machine × Signing A} (m, r) (n, s)
      → m ≡ n
  machine_of h = ap (λ (p : Machine × Signing _). p.0) h

  -- What a call that succeeded went through.
  pub continue-ok :
      {A B : Type 0} (p : Machine × Signing A) (next : A → Run Machine B) {m : Machine} {v : B}
      → continue p next ≡ (m, ok v)
      → (a : A) × (p ≡ (p.0, ok a)) × (next a p.0 ≡ (m, ok v))
  continue-ok (n, err e) next h = absurd (err-not-ok (outcome_of h))
  continue-ok (n, ok a) next h = (a, refl, h)

  ran-ok :
      (p : Machine × Option Output) {n : Machine} {out : Output}
      → ran p ≡ (n, ok out)
      → p ≡ (n, some out)
  ran-ok (m, none) h = absurd (err-not-ok (outcome_of h))
  ran-ok (m, some out) h = cc

  written-ok :
      (p : Machine × Option Text) {n : Machine} {u : Unit} → written p ≡ (n, ok u) → p ≡ (n, none)
  written-ok (m, none) h = cc
  written-ok (m, some e) h = absurd (err-not-ok (outcome_of h))

  pub refuse_unless-ok :
      (b : Bool) (e : SignError) (m : Machine) {n : Machine} {u : Unit}
      → refuse_unless b e m ≡ (n, ok u)
      → (b ≡ true) × (m ≡ n)
  refuse_unless-ok true e m h = (refl, machine_of h)
  refuse_unless-ok false e m h = absurd (err-not-ok (outcome_of h))

  -- The files are written, with the entitlements and the constraint that they should hold, and the tool
  -- has signed the executable with them.
  pub record Signed (system : System Machine) (exe_path : Bytes) (info : ShimSigningInfo)
      (identity : SigningIdentity) (policy : EntitlementPolicy) (allow : Bool) (work_dir : Bytes)
      (keychain : Option Text) (before after : Machine) : Type 0 where
    pub entitlements : Text
    pub constraint : Text
    pub first : Machine
    pub second : Machine
    pub out : Output
    pub writes_entitlements :
        system.write (join work_dir (ascii "entitlements.plist")) entitlements before
        ≡ (first, none)
    pub writes_constraint :
        system.write (join work_dir (ascii "library-constraint.plist")) constraint first
        ≡ (second, none)
    pub signs :
        system.codesign
          (executable_args identity keychain exe_path
            (join work_dir (ascii "entitlements.plist"))
            (join work_dir (ascii "library-constraint.plist")))
          second
        ≡ (after, some out)
    pub succeeds : out.success ≡ true
    pub grants :
        Grants entitlements identity policy.allow_jit policy.allow_unsigned_executable_memory
          (policy.get_task_allow && allow)
    pub constrains : Constrains identity info constraint

  module _ (system : System Machine) where
    write_file-ok :
        (path contents : Bytes) (m : Machine) {n : Machine} {u : Unit}
        → write_file system path contents m ≡ (n, ok u)
        → system.write path contents m ≡ (n, none)
    unfolding write_file
    write_file-ok path contents m h = written-ok (system.write path contents m) h

    run_codesign-ok :
        {args args' : List Bytes} (m : Machine) {n n' : Machine} {out : Output}
        → args ≡ args'
        → n ≡ n'
        → run_codesign system args m ≡ (n, ok out)
        → system.codesign args' m ≡ (n', some out)
    unfolding run_codesign
    run_codesign-ok {args} m {n} {n'} {out} same ends h =
        ap (λ (a : List Bytes). system.codesign a m) (sym same)
        ∙ ran-ok (system.codesign args m) h
        ∙ ap (λ (x : Machine). (x, some out)) ends

    -- Where `sign_rewritten_executable` succeeds, it has written both files and run the tool on them
    -- with success, in this order; the entitlements grant what the policy grants, the debugging only if
    -- it is allowed too, and do without the library validation for an ad-hoc identity only; and the
    -- constraint names the team and the identifier of the shim, or its code-directory hash.
    pub sign_rewritten_executable-Signed :
        (exe_path : Bytes) (info : ShimSigningInfo) (identity : SigningIdentity)
        (policy : EntitlementPolicy) (allow : Bool) (work_dir : Bytes) (keychain : Option Text)
        (before after : Machine)
        → sign_rewritten_executable system exe_path info identity policy allow work_dir keychain
            before
          ≡ (after, ok tt)
        → Signed system exe_path info identity policy allow work_dir keychain before after
    unfolding sign_rewritten_executable
    sign_rewritten_executable-Signed exe_path info identity policy allow work_dir keychain m m' h =
        let (u, checks, h1) = continue-ok (m, check_identity identity info) _ h in
        let (xml, constrains, h2) = continue-ok (m, constraint_plist identity info) _ h1 in
        let (v, w1, h3) = continue-ok (write_file system _ _ m) _ h2 in
        let (v', w2, h4) = continue-ok (write_file system _ _ _) _ h3 in
        let (exe, p1, h5) = continue-ok (_, to_str exe_path) _ h4 in
        let (ent, p2, h6) =
          continue-ok (_, to_str (join work_dir (ascii "entitlements.plist"))) _ h5 in
        let (con, p3, h7) =
          continue-ok (_, to_str (join work_dir (ascii "library-constraint.plist"))) _ h6 in
        let (out, runs, h8) = continue-ok (run_codesign system _ _) _ h7 in
        let (u', won, h9) = continue-ok (refuse_unless out.success _ _) _ h8 in
        let (succeeded, same) = refuse_unless-ok out.success _ _ won in
        let args : executable_args identity keychain exe ent con
            ≡ executable_args identity keychain exe_path
                (join work_dir (ascii "entitlements.plist"))
                (join work_dir (ascii "library-constraint.plist")) =
          args_same identity keychain (to_str-ok _ (outcome_of p1)) (to_str-ok _ (outcome_of p2))
            (to_str-ok _ (outcome_of p3)) in
        let e1 = write_file-ok _ _ m w1 in
        let e2 = write_file-ok _ _ _ w2 in
        record {
          entitlements = entitlements_plist identity policy allow;
          constraint = xml;
          first = _;
          second = _;
          out = out;
          writes_entitlements = e1;
          writes_constraint = e2;
          signs = run_codesign-ok _ args (same ∙ machine_of h9) runs;
          succeeds = succeeded;
          grants = entitlements_plist-Grants identity policy allow;
          constrains = constraint_plist-Constrains identity info xml (outcome_of constrains);
        }
