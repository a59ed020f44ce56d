-- ===== src/Abi/Extending.antt =====
-- What `extend_manifest` of crates/abi/os-abi-stubs/src/lib.rs keeps of a manifest, and what it adds.
use os_emulation.Base.{
  ◌≡◌, ◌≢◌, refl, sym, ◌∙◌, Bool, Bool-cases, Option-cases, ◌⊎◌, inl, inr, true, false, ◌&&◌, ◌||◌,
  not, List, [], ◌∷◌, ◌++◌, Option, none, some, Text, text_eq, text_eq_refl, arith,
}
use os_emulation.HostApi.Manifest.{
  FuncImport, ImportManifest, strip_prefix, without_prefix, underscore, names_symbol, any_names,
  find_intercept, resolve_intercept,
}
use os_emulation.Abi.Model.{AbiFunction, AbiSpec, lookup, accepts_function_pointers}
use os_emulation.Abi.Stubs.{
  is_bare, lists_symbol, any_lists, intercept_names, import_of, extend_one, extend_loop,
  extend_manifest,
}

none-some : {A : Type 0} {a : A} → ◌≢◌ {A = Option A} none (some a)
none-some h = cc

not_both : {b : Bool} → b ≡ false → b ≢ true
not_both h k = cc

-- Imports behind the one that intercepts a symbol do not matter.
find_intercept-append :
    (guest : Text) (imps more : List FuncImport) (found : FuncImport)
    → find_intercept guest imps ≡ some found
    → find_intercept guest (imps ++ more) ≡ some found
unfolding find_intercept
find_intercept-append guest [] more found e = cc
find_intercept-append guest (imp ∷ imps) more found e =
    elim (Bool-cases (any_names guest imp.intercepts)) [
      | inl here ↦ rw here (rw here at e)
      | inr there ↦ rw there (find_intercept-append guest imps more found (rw there at e))
    ]

module _ (has_stub : Text → Bool) (spec : AbiSpec) where
  extend_one-keeps :
      (imps : List FuncImport) (s : Text) (f : Option AbiFunction) (guest : Text)
      (found : FuncImport)
      → find_intercept guest imps ≡ some found
      → find_intercept guest (extend_one has_stub spec imps s f) ≡ some found
  unfolding extend_one
  extend_one-keeps imps s none guest found e = e
  extend_one-keeps imps s (some f) guest found e =
      elim (Bool-cases (accepts_function_pointers spec s && not (has_stub s))) [
        | inl skipped ↦ rw skipped e
        | inr wanted ↦ rw wanted (elim (Bool-cases (any_lists s imps)) [
          | inl listed ↦ rw listed e
          | inr new ↦ rw new (find_intercept-append guest imps (import_of s f ∷ []) found e)
        ])
      ]

  extend_loop-keeps :
      (imps : List FuncImport) (symbols : List Text) (guest : Text) (found : FuncImport)
      → find_intercept guest imps ≡ some found
      → find_intercept guest (extend_loop has_stub spec imps symbols) ≡ some found
  unfolding extend_loop
  extend_loop-keeps imps [] guest found e = e
  extend_loop-keeps imps (s ∷ symbols) guest found e =
      extend_loop-keeps (extend_one has_stub spec imps s (lookup spec s)) symbols guest found
        (extend_one-keeps imps s (lookup spec s) guest found e)

or_cases : (a b : Bool) → (a || b) ≡ true → (a ≡ true) ⊎ (b ≡ true)
or_cases true b h = inl refl
or_cases false b h = inr h

or_left : (a b : Bool) → a ≡ true → (a || b) ≡ true
or_left a b h = ground arith

or_right : (a b : Bool) → b ≡ true → (a || b) ≡ true
or_right a b h = ground arith

-- A name that is listed for a symbol without an underscore in front names it.
listed_names :
    (s t : Text) (bare : Option Text)
    → (text_eq t s || is_bare bare s) ≡ true
    → (text_eq t s || text_eq (elim bare [ some b ↦ b | none ↦ t ]) s) ≡ true
listed_names s t none h = elim (or_cases (text_eq t s) false h) [
  | inl e ↦ or_left (text_eq t s) _ e
  | inr e ↦ absurd (cc e)
]
listed_names s t (some b) h = h

module _ (s : Text) (plain : strip_prefix underscore s ≡ none) where
  whole_name : without_prefix underscore s ≡ s
  whole_name = rw plain refl

  names_listed :
      (t : Text)
      → (text_eq t s || is_bare (strip_prefix underscore t) s) ≡ true
      → names_symbol s t ≡ true
  names_listed t h = rw whole_name (listed_names s t (strip_prefix underscore t) h)

  any_names-lists_symbol : (ss : List Text) → lists_symbol s ss ≡ true → any_names s ss ≡ true
  unfolding lists_symbol any_names
  any_names-lists_symbol [] h = h
  any_names-lists_symbol (t ∷ ss) h =
      elim (or_cases (text_eq t s || is_bare (strip_prefix underscore t) s) (lists_symbol s ss) h) [
        | inl here ↦ or_left (names_symbol s t) (any_names s ss) (names_listed t here)
        | inr there ↦ or_right (names_symbol s t) (any_names s ss) (any_names-lists_symbol ss there)
      ]

  find_intercept-any_lists :
      (imps : List FuncImport)
      → any_lists s imps ≡ true
      → (found : FuncImport) × (find_intercept s imps ≡ some found)
  unfolding any_lists find_intercept
  find_intercept-any_lists [] h = cc
  find_intercept-any_lists (imp ∷ imps) h = elim (Bool-cases (any_names s imp.intercepts)) [
    | inl here ↦ (imp, rw here refl)
    | inr there ↦ elim (or_cases (lists_symbol s imp.intercepts) (any_lists s imps) h) [
      | inl listed ↦ absurd (not_both there (any_names-lists_symbol imp.intercepts listed))
      | inr later ↦ let (found, e) = find_intercept-any_lists imps later in (found, rw there e)
    ]
  ]

  -- A new import intercepts its own symbol.
  find_intercept-import_of :
      (imps : List FuncImport) (f : AbiFunction)
      → (found : FuncImport) × (find_intercept s (imps ++ (import_of s f ∷ [])) ≡ some found)
  unfolding find_intercept import_of intercept_names any_names
  find_intercept-import_of [] f = (import_of s f, rw plain (rw (text_eq_refl s) refl))
  find_intercept-import_of (imp ∷ imps) f = elim (Bool-cases (any_names s imp.intercepts)) [
    | inl here ↦ (imp, rw here refl)
    | inr there ↦ let (found, e) = find_intercept-import_of imps f in (found, rw there e)
  ]

  module _ (has_stub : Text → Bool) (spec : AbiSpec) (f : AbiFunction)
      (known : lookup spec s ≡ some f)
      (wanted : (accepts_function_pointers spec s && not (has_stub s)) ≡ false) where
    extend_one-intercepts :
        (imps : List FuncImport)
        → (found : FuncImport) × (find_intercept s (extend_one has_stub spec imps s (lookup spec s))
            ≡ some found)
    unfolding extend_one
    extend_one-intercepts imps = rw known (
        rw wanted (elim (Bool-cases (any_lists s imps)) [
          | inl listed ↦ rw listed (find_intercept-any_lists imps listed)
          | inr new ↦ rw new (find_intercept-import_of imps f)
        ]))

    extend_loop-intercepts :
        (before after : List Text) (imps : List FuncImport)
        → (found : FuncImport) × (find_intercept s
              (extend_loop has_stub spec imps (before ++ (s ∷ after)))
            ≡ some found)
    unfolding extend_loop
    extend_loop-intercepts [] after imps =
        let (found, e) = extend_one-intercepts imps in
        (found, extend_loop-keeps has_stub spec _ after s found e)
    extend_loop-intercepts (t ∷ before) after imps =
        extend_loop-intercepts before after (extend_one has_stub spec imps t (lookup spec t))

resolve_intercept-some :
    (m : ImportManifest) (guest : Text) (found : FuncImport)
    → find_intercept guest m.func_imports ≡ some found
    → resolve_intercept m guest ≡ some (found.module_name, found.name)
unfolding resolve_intercept
resolve_intercept-some m guest found e = rw (e, resolve_intercept)

resolve_intercept-none :
    (m : ImportManifest) (guest : Text)
    → find_intercept guest m.func_imports ≡ none
    → resolve_intercept m guest ≡ none
unfolding resolve_intercept
resolve_intercept-none m guest e = rw (e, resolve_intercept)

-- A manifest that is extended resolves every symbol that it resolved before to the same import.
pub extend_manifest-keeps :
    (has_stub : Text → Bool) (spec : AbiSpec) (base : ImportManifest) (symbols : List Text)
    (guest module_name name : Text)
    → resolve_intercept base guest ≡ some (module_name, name)
    → resolve_intercept (extend_manifest has_stub spec base symbols) guest
      ≡ some (module_name, name)
unfolding extend_manifest
extend_manifest-keeps has_stub spec base symbols guest module_name name h =
    elim (Option-cases (find_intercept guest base.func_imports)) [
      | inl lost ↦ absurd (none-some (sym (resolve_intercept-none base guest lost) ∙ h))
      | inr (found, e) ↦
          resolve_intercept-some (extend_manifest has_stub spec base symbols) guest found
            (extend_loop-keeps has_stub spec base.func_imports symbols guest found e)
          ∙ (sym (resolve_intercept-some base guest found e) ∙ h)
    ]

-- A symbol that the ABI describes, that starts with no underscore, and whose function pointers a stub
-- rewrites where it takes any, is resolved by a manifest that is extended by it.
pub extend_manifest-resolves :
    (has_stub : Text → Bool) (spec : AbiSpec) (base : ImportManifest) (before after : List Text)
    (s : Text) (f : AbiFunction)
    → strip_prefix underscore s ≡ none
    → lookup spec s ≡ some f
    → (accepts_function_pointers spec s && not (has_stub s)) ≡ false
    → (import : Text × Text) × (resolve_intercept
          (extend_manifest has_stub spec base (before ++ (s ∷ after)))
          s
        ≡ some import)
unfolding extend_manifest
extend_manifest-resolves has_stub spec base before after s f plain known wanted =
    let (found, e) =
      extend_loop-intercepts s plain has_stub spec f known wanted before after base.func_imports in
    (
      (found.module_name, found.name),
      resolve_intercept-some (extend_manifest has_stub spec base (before ++ (s ∷ after))) s found e,
    )
