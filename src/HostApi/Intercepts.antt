-- ===== src/HostApi/Intercepts.antt =====
-- The two ways in which a manifest's `intercepts` lists become redirects, redirecting.rs and manifest.rs
-- of crates/runtime/os-host-api/src, and the index of an import.
use os_emulation.Base.{
  ℕ, suc, ◌≡◌, ◌==◌, ◌↔◌, ◌⊎◌, subst, text_eq_iff, refl, ap, ◌∙◌, if◌then◌else◌, Bool, Bool-cases,
  inl, inr, true, false, List, [], ◌∷◌, Option, none, some, some-injective, Text, All, get_elem?,
  take, arith,
}
use os_emulation.Daemon.Registry.{get, insert}
use os_emulation.Daemon.RegistryLaws.{get-insert}
use os_emulation.HostApi.Manifest.{
  FuncImport, ImportManifest, underscore, without_prefix, names_symbol, any_names, find_intercept,
  resolve_intercept, is_import, position, index_of,
}
use os_emulation.HostApi.Hosts.{
  PltRedirect, wasm_import, redirect_to, hook_symbols, hook_imports, derive_hooks_from_manifest,
  has_text,
}

-- The redirect of the last import whose `intercepts` list has the symbol, or `otherwise`.
abbrev pub last_redirect : List FuncImport → Text → Option PltRedirect → Option PltRedirect
last_redirect [] s otherwise = otherwise
last_redirect (imp ∷ imps) s otherwise =
    last_redirect imps s
      (if has_text imp.intercepts s then some (wasm_import imp.module_name imp.name) else otherwise)

hook_symbols-get :
    (r : PltRedirect) (ss : List Text) (hooks : List (Text × PltRedirect)) (s : Text)
    → get (hook_symbols r ss hooks) s ≡ (if has_text ss s then some r else get hooks s)
unfolding hook_symbols
hook_symbols-get r [] hooks s = refl
hook_symbols-get r (t ∷ ss) hooks s =
    hook_symbols-get r ss (insert t r hooks) s ∙ ground (arith, get-insert hooks t s r)

hook_imports-get :
    (imps : List FuncImport) (hooks : List (Text × PltRedirect)) (s : Text)
    → get (hook_imports imps hooks) s ≡ last_redirect imps s (get hooks s)
unfolding hook_imports
hook_imports-get [] hooks s = refl
hook_imports-get (imp ∷ imps) hooks s =
    hook_imports-get imps (hook_symbols (redirect_to imp) imp.intercepts hooks) s
    ∙ ap (last_redirect imps s) (hook_symbols-get (redirect_to imp) imp.intercepts hooks s)

-- The hooks that the redirecting host derives from a manifest redirect a symbol to the module and the
-- name of the last import that lists it, and no other symbol.
pub derive_hooks-get :
    (m : ImportManifest) (s : Text)
    → get (derive_hooks_from_manifest m) s ≡ last_redirect m.func_imports s none
unfolding derive_hooks_from_manifest
derive_hooks-get m s =
    hook_imports-get m.func_imports [] s ∙ ap (last_redirect m.func_imports s) (unfold get in refl)

-- An import at its position, with none of the same name before it.
abbrev pub FirstAt : (FuncImport → Bool) → List FuncImport → ℕ → Type 0
FirstAt test imps i =
    (imp : FuncImport) × (get_elem? imps i ≡ some imp)
    × (test imp ≡ true)
    × All (λ (e : FuncImport). test e ≡ false) (take i imps)

suc_position :
    (o : Option ℕ) (i : ℕ)
    → ◌≡◌ {A = Option ℕ} (elim o [ some j ↦ some (suc j) | none ↦ none ]) (some i)
    → (j : ℕ) × (o ≡ some j) × (i ≡ suc j)
suc_position none i e = absurd (cc e)
suc_position (some j) i e = (j, refl, ground arith)

position-FirstAt :
    (module_name name : Text) (imps : List FuncImport) (i : ℕ)
    → position module_name name imps ≡ some i
    → FirstAt (is_import module_name name) imps i
unfolding position
position-FirstAt module_name name [] i e = absurd (cc e)
position-FirstAt module_name name (imp ∷ imps) i e =
    elim (Bool-cases (is_import module_name name imp)) [
      | inl here ↦
          let z : 0 ≡ i = some-injective 0 i (rw here at e) in rw (← z) (imp, refl, here, tt)
      | inr there ↦
          let (j, q, k) = suc_position (position module_name name imps) i (rw there at e) in
          let (found, at_j, named, before) = position-FirstAt module_name name imps j q in
          rw k (found, at_j, named, (there, before))
    ]

-- The index of an import is the position of the first import of that module and name.
pub index_of-FirstAt :
    (m : ImportManifest) (module_name name : Text) (i : ℕ)
    → index_of m module_name name ≡ some i
    → FirstAt (is_import module_name name) m.func_imports i
unfolding index_of
index_of-FirstAt m module_name name i e = position-FirstAt module_name name m.func_imports i e

-- A symbol as C spells it: without the underscore that Mach-O puts in front.
abbrev pub c_name : Text → Text
c_name [] = []
c_name (c ∷ s) = if c == 95 then s else c ∷ s

-- A list of symbols has the symbol, one underscore in front of either aside.
abbrev pub Lists : Text → List Text → Type 0
Lists guest [] = ⊥
Lists guest (s ∷ ss) = (c_name s ≡ c_name guest) ⊎ Lists guest ss

without_prefix-eq-c_name : (s : Text) → without_prefix underscore s ≡ c_name s
without_prefix-eq-c_name [] = refl
without_prefix-eq-c_name (c ∷ s) = ground arith

names_symbol_iff : (guest s : Text) → (names_symbol guest s ≡ true) ↔ (c_name s ≡ c_name guest)
names_symbol_iff guest s =
    rw (without_prefix-eq-c_name s, without_prefix-eq-c_name guest)
      (ground (arith, text_eq_iff s guest, text_eq_iff (c_name s) (c_name guest)))

any_names-Lists : (guest : Text) (ss : List Text) → any_names guest ss ≡ true → Lists guest ss
unfolding any_names
any_names-Lists guest (s ∷ ss) e = elim (Bool-cases (names_symbol guest s)) [
  | inl here ↦ inl ((names_symbol_iff guest s).0 here)
  | inr there ↦ inr (any_names-Lists guest ss (rw there at e))
]
any_names-Lists guest [] e = absurd (cc e)

any_names-not-Lists :
    (guest : Text) (ss : List Text) → any_names guest ss ≡ false → ¬ (Lists guest ss)
unfolding any_names
any_names-not-Lists guest [] e h = h
any_names-not-Lists guest (s ∷ ss) e (inl same) = absurd (cc ((names_symbol_iff guest s).1 same, e))
any_names-not-Lists guest (s ∷ ss) e (inr h) = elim (Bool-cases (names_symbol guest s)) [
  | inl here ↦ absurd (cc (here, e))
  | inr there ↦ any_names-not-Lists guest ss (rw there at e) h
]

-- What a symbol resolves to: the module and the name of the first import that lists it, or nothing
-- where no import does.
abbrev pub Resolves : Text → List FuncImport → Option (Text × Text) → Type 0
Resolves guest imps none = All (λ (e : FuncImport). ¬ (Lists guest e.intercepts)) imps
Resolves guest imps (some (module_name, name)) =
    (i : ℕ) × (found : FuncImport) × (get_elem? imps i ≡ some found)
    × (found.module_name ≡ module_name)
    × (found.name ≡ name)
    × Lists guest found.intercepts
    × All (λ (e : FuncImport). ¬ (Lists guest e.intercepts)) (take i imps)

abbrev names_of : Option FuncImport → Option (Text × Text)
names_of none = none
names_of (some imp) = some (imp.module_name, imp.name)

Resolves-later :
    (guest : Text) (imp : FuncImport) (imps : List FuncImport) (o : Option (Text × Text))
    → ¬ (Lists guest imp.intercepts)
    → Resolves guest imps o
    → Resolves guest (imp ∷ imps) o
Resolves-later guest imp imps none not_here h = (not_here, h)
Resolves-later guest imp imps (some (x, y)) not_here (i, found, at_i, ex, ey, lists, before) =
    (suc i, found, at_i, ex, ey, lists, (not_here, before))

find_intercept-Resolves :
    (guest : Text) (imps : List FuncImport)
    → Resolves guest imps (names_of (find_intercept guest imps))
unfolding find_intercept
find_intercept-Resolves guest [] = tt
find_intercept-Resolves guest (imp ∷ imps) = elim (Bool-cases (any_names guest imp.intercepts)) [
  | inl here ↦ rw here (0, imp, refl, refl, refl, any_names-Lists guest imp.intercepts here, tt)
  | inr there ↦ rw there (
      Resolves-later guest imp imps (names_of (find_intercept guest imps))
        (any_names-not-Lists guest imp.intercepts there) (find_intercept-Resolves guest imps))
]

-- A manifest resolves a symbol to the module and the name of the first import that lists it among its
-- `intercepts`, where one leading underscore on either side does not count, and to nothing exactly
-- where no import lists it.
pub resolve_intercept-FirstAt :
    (m : ImportManifest) (guest : Text) → Resolves guest m.func_imports (resolve_intercept m guest)
unfolding resolve_intercept
resolve_intercept-FirstAt m guest =
    subst (Resolves guest m.func_imports) (names_of_lem (find_intercept guest m.func_imports))
      (find_intercept-Resolves guest m.func_imports)
  where
    names_of_lem :
        (o : Option FuncImport)
        → names_of o ≡ elim o [ some imp ↦ some (imp.module_name, imp.name) | none ↦ none ]
    names_of_lem none = refl
    names_of_lem (some imp) = refl
