-- ===== src/Codesign/Accepted.antt =====
-- What `sign_shim` of crates/daemon/os-codesign-macho/src/lib.rs reports, at the checks of
-- `sign_rewritten_executable`.
use os_emulation.Base.{
  Bool, true, false, not, Option, none, some, [], ◌∷◌, ◌≡◌, ◌≢◌, refl, sym, subst, Text, Bytes,
  ascii, length, ok, ok-injective, guard, guard-eq-ok, ◌==◌, inl, inr, Bool-cases, Option-cases,
  arith, >>=-eq-ok, text_eq, text_eq_refl,
}
use os_emulation.Codesign.Hex.{is_unusable}
use os_emulation.Codesign.HexLaws.{hex_decode-usable}
use os_emulation.Codesign.Plist.{
  SigningIdentity, real, ad_hoc, ShimSigningInfo, constraint_plist, check_identity,
}
use os_emulation.Codesign.Constrains.{Constrains, hash_xml, constraint_plist-Constrains}
use os_emulation.Codesign.Texts.{lines}
use os_emulation.Codesign.Report.{
  combined_output, parse_report, noted_team, noted_identifier, noted_cdhash, report_loop,
  nothing_noted,
}
use os_emulation.Codesign.Signing.{
  System, refuse_unless, to_str, signing_info, sign_shim, run_codesign,
}
use os_emulation.Codesign.SigningLaws.{continue-ok, outcome_of}

-- The shim's data as `signing_info` lets them through.
pub record Sound (info : ShimSigningInfo) : Type 0 where
  pub usable : is_unusable info.cdhash_sha256 ≡ false
  pub named : info.identifier ≢ []
  pub set : info.team_identifier ≢ some (ascii "not set")

none-some : {A : Type 0} {a : A} → ◌≢◌ {A = Option A} none (some a)
none-some h = cc

same_value : {A : Type 0} {a b : A} → ◌≡◌ {A = Option A} (some a) (some b) → a ≡ b
same_value h = cc

not_both : {b : Bool} → b ≡ false → b ≢ true
not_both h k = cc

refuted : (b : Bool) → not b ≡ true → b ≡ false
refuted b h = ground arith

noted_identifier-ok : (o : Option Text) (s : Text) → noted_identifier o ≡ ok s → s ≢ []
unfolding noted_identifier
noted_identifier-ok none s h e = cc
noted_identifier-ok (some []) s h e = cc
noted_identifier-ok (some (b ∷ t)) s h e = cc

noted_team-set : (o : Option Text) → noted_team o ≢ some (ascii "not set")
unfolding noted_team
noted_team-set none e = cc
noted_team-set (some t) e = elim (Bool-cases (text_eq t (ascii "not set"))) [
  | inl unset ↦ absurd (none-some (rw unset at e))
  | inr other ↦
      let same : t ≡ ascii "not set" = same_value (rw other at e) in
      absurd (
        not_both other (
          subst (λ (x : Text). text_eq x (ascii "not set") ≡ true) (sym same)
            (text_eq_refl (ascii "not set"))))
]

parse_report-Sound :
    (text : Text) (info : ShimSigningInfo) → parse_report text ≡ ok info → Sound info
unfolding parse_report
parse_report-Sound text info h =
    let report = report_loop nothing_noted (lines text) in
    let (identifier, i, h1) = >>=-eq-ok (noted_identifier report.identifier) _ h in
    let (cdhash, c, h2) = >>=-eq-ok (noted_cdhash report.cdhash) _ h1 in
    let (u, g, h3) = >>=-eq-ok (guard (not (is_unusable cdhash)) _) _ h2 in
    subst Sound (ok-injective h3) (record {
      usable = refuted (is_unusable cdhash) (guard-eq-ok _ _ g);
      named = noted_identifier-ok report.identifier identifier i;
      set = noted_team-set report.team;
    })

-- An identity that can use the data.
unfoldable pub Fits : SigningIdentity → ShimSigningInfo → Type 0
Fits (real name) info = info.team_identifier ≢ none
Fits ad_hoc info = Unit

signing_info-Sound :
    {Machine : Type 0} (system : System Machine) (path : Bytes) (m n : Machine)
    (info : ShimSigningInfo)
    → signing_info system path m ≡ (n, ok info)
    → Sound info
unfolding signing_info
signing_info-Sound system path m n info h =
    let (s, p, h1) = continue-ok (m, to_str path) _ h in
    let (out, r, h2) = continue-ok (run_codesign system _ m) _ h1 in
    let (u, g, h3) = continue-ok (refuse_unless out.success _ _) _ h2 in
    parse_report-Sound (combined_output out) info (outcome_of h3)

sign_shim-Sound :
    {Machine : Type 0} (system : System Machine) (shim_path : Bytes) (identity : SigningIdentity)
    (keychain : Option Text) (m n : Machine) (info : ShimSigningInfo)
    → sign_shim system shim_path identity keychain m ≡ (n, ok info)
    → Sound info
unfolding sign_shim
sign_shim-Sound system shim_path identity keychain m n info h =
    let (s, p, h1) = continue-ok (m, to_str shim_path) _ h in
    let (out, r, h2) = continue-ok (run_codesign system _ m) _ h1 in
    let (u, g, h3) = continue-ok (refuse_unless out.success _ _) _ h2 in
    signing_info-Sound system shim_path _ n info h3

accepted :
    (signer : SigningIdentity) (info : ShimSigningInfo)
    → Sound info
    → Fits signer info
    → check_identity signer info ≡ ok tt
unfolding check_identity Fits is_unusable
accepted (real name) info sound fits = elim (Option-cases info.team_identifier) [
  | inl none' ↦ absurd (fits none')
  | inr (team, e) ↦ rw e refl
]
accepted ad_hoc info sound fits =
    let whole : (length info.cdhash_sha256 == 0) ≡ false = ground (arith, sound.usable) in
    rw whole refl

constraint_made :
    (signer : SigningIdentity) (info : ShimSigningInfo)
    → Sound info
    → (xml : Text) × (constraint_plist signer info ≡ ok xml)
unfolding constraint_plist
constraint_made (real name) info sound = (_, refl)
constraint_made ad_hoc info sound =
    let (hash, decodes, twenty, bytes, digits) =
      hex_decode-usable info.cdhash_sha256 sound.usable in
    (hash_xml hash, rw decodes (rw twenty refl))

-- The data that `sign_shim` reports are usable: an ad-hoc identity is accepted with them, a real one if
-- they have a team, and the library constraint is made without a panic, and constrains.
pub sign_shim-Fits :
    {Machine : Type 0} (system : System Machine) (shim_path : Bytes) (identity : SigningIdentity)
    (keychain : Option Text) (before after : Machine) (info : ShimSigningInfo)
    → sign_shim system shim_path identity keychain before ≡ (after, ok info)
    → (signer : SigningIdentity) → Fits signer info
    → (check_identity signer info ≡ ok tt)
      × ((xml : Text) × (constraint_plist signer info ≡ ok xml) × Constrains signer info xml)
sign_shim-Fits system shim_path identity keychain m m' info h signer fits =
    let sound = sign_shim-Sound system shim_path identity keychain m m' info h in
    let (xml, e) = constraint_made signer info sound in
    (accepted signer info sound fits, (xml, e, constraint_plist-Constrains signer info xml e))
