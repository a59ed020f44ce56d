-- ===== src/HostApi/Manifest.antt =====
-- Import manifests, crates/runtime/os-host-api/src/manifest.rs.
use os_emulation.Base.{
  ℕ, suc, ◌==◌, if◌then◌else◌, Bool, false, ◌&&◌, ◌||◌, List, [], ◌∷◌, ◌++◌, Option, none, some,
  Text, ascii, text_eq,
}

pub data WasmValType : Type 0 where
  i32 i64 f32 f64 : WasmValType

pub record FuncImport : Type 0 where
  pub module_name : Text
  pub name : Text
  pub params : List WasmValType
  pub results : List WasmValType
  pub intercepts : List Text

pub record ImportManifest : Type 0 where
  pub func_imports : List FuncImport

-- `s.strip_prefix(p)`
abbrev pub strip_prefix : Text → Text → Option Text
strip_prefix [] s = some s
strip_prefix (c ∷ p) [] = none
strip_prefix (c ∷ p) (d ∷ s) = if c == d then strip_prefix p s else none

-- `s.strip_prefix(p).unwrap_or(s)`
abbrev pub without_prefix : Text → Text → Text
without_prefix p s = elim (strip_prefix p s) [ some t ↦ t | none ↦ s ]

abbrev pub hint_import : FuncImport
hint_import = record {
  module_name = ascii "env";
  name = ascii "__speet_hint";
  params = i32 ∷ [];
  results = [];
  intercepts = [];
}

abbrev pub exit_import : FuncImport
exit_import = record {
  module_name = ascii "env";
  name = ascii "exit";
  params = i32 ∷ [];
  results = [];
  intercepts = ascii "exit" ∷ ascii "_exit" ∷ ascii "_Exit" ∷ [];
}

abbrev pub write_import : FuncImport
write_import = record {
  module_name = ascii "env";
  name = ascii "write";
  params = i32 ∷ i32 ∷ i32 ∷ [];
  results = i32 ∷ [];
  intercepts = ascii "write" ∷ ascii "_write" ∷ [];
}

unfoldable pub native_syscall : ImportManifest
native_syscall = record { func_imports = hint_import ∷ exit_import ∷ write_import ∷ [] }

-- What `integrated_native` pushes behind `native_syscall`.
abbrev pub integrated_imports : List FuncImport
integrated_imports =
    record {
      module_name = ascii "env";
      name = ascii "__speet_log_unreachable";
      params = i32 ∷ [];
      results = [];
      intercepts = [];
    }
    ∷ record {
      module_name = ascii "env";
      name = ascii "__speet_execve";
      params = i64 ∷ i64 ∷ i64 ∷ [];
      results = i32 ∷ [];
      intercepts = ascii "execve" ∷ ascii "_execve" ∷ [];
    }
    ∷ record {
      module_name = ascii "env";
      name = ascii "__speet_stub_for_pc";
      params = i64 ∷ [];
      results = i64 ∷ [];
      intercepts = [];
    }
    ∷ record {
      module_name = ascii "env";
      name = ascii "printf";
      params = i64 ∷ i64 ∷ [];
      results = i32 ∷ [];
      intercepts = ascii "printf" ∷ [];
    }
    ∷ []

unfoldable pub integrated_native : ImportManifest
unfolding native_syscall
integrated_native = record { func_imports = native_syscall.func_imports ++ integrated_imports }

unfoldable pub corpus_harness : ImportManifest
corpus_harness = record {
  func_imports =
      hint_import
      ∷ write_import
      ∷ exit_import
      ∷ record {
        module_name = ascii "env";
        name = ascii "__speet_unreachable_trap";
        params = i32 ∷ [];
        results = [];
        intercepts = [];
      }
      ∷ [];
}

unfoldable pub rv64_syscall : ImportManifest
rv64_syscall = record { func_imports = exit_import ∷ write_import ∷ [] }

abbrev pub underscore : Text
underscore = ascii "_"

-- `s == guest_symbol || s_bare == bare`
abbrev pub names_symbol : Text → Text → Bool
names_symbol guest s =
    text_eq s guest || text_eq (without_prefix underscore s) (without_prefix underscore guest)

-- `intercepts.iter().any(…)`
unfoldable pub any_names : Text → List Text → Bool
any_names guest [] = false
any_names guest (s ∷ ss) = names_symbol guest s || any_names guest ss

-- `func_imports.iter().find(…)`
unfoldable pub find_intercept : Text → List FuncImport → Option FuncImport
unfolding any_names
find_intercept guest [] = none
find_intercept guest (imp ∷ imps) =
    if any_names guest imp.intercepts then some imp else find_intercept guest imps

unfoldable pub resolve_intercept : ImportManifest → Text → Option (Text × Text)
unfolding find_intercept
resolve_intercept m guest = elim (find_intercept guest m.func_imports) [
  | some imp ↦ some (imp.module_name, imp.name)
  | none ↦ none
]

-- `imp.module == module && imp.name == name`
abbrev pub is_import : Text → Text → FuncImport → Bool
is_import module_name name imp = text_eq imp.module_name module_name && text_eq imp.name name

-- `position(…)`; a manifest has fewer than 2^32 imports.
unfoldable pub position : Text → Text → List FuncImport → Option ℕ
position module_name name [] = none
position module_name name (imp ∷ imps) =
    let rest = position module_name name imps in
    if is_import module_name name imp
    then some 0
    else elim rest [ some i ↦ some (suc i) | none ↦ none ]

unfoldable pub index_of : ImportManifest → Text → Text → Option ℕ
unfolding position
index_of m module_name name = position module_name name m.func_imports
