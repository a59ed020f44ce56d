-- ===== src/Abi/Stubs.antt =====
-- The redirects of crates/abi/os-abi-stubs/src/lib.rs. The registry that is generated, `has_stub` and
-- `calling_convention`, is a parameter.
use os_emulation.Base.{
  ℕ, zero, suc, Bool, true, false, ◌&&◌, ◌||◌, not, List, [], ◌∷◌, ◌++◌, Option, none, some, Text,
  ascii, text_eq, length, take, map, if◌then◌else◌,
}
use os_emulation.HostApi.Manifest.{
  WasmValType, i32, i64, FuncImport, ImportManifest, strip_prefix, underscore, resolve_intercept,
}
use os_emulation.Abi.Model.{
  AbiArg, AbiValueKind, void, AbiFunction, AbiSpec, lookup, accepts_function_pointers,
  CallingConvention,
}

-- The architectures of the package binary_io.
pub data BinArch : Type 0 where
  x86_64 aarch64 : BinArch

-- `s.strip_prefix('_') == Some(sym)`
abbrev pub is_bare : Option Text → Text → Bool
is_bare none sym = false
is_bare (some t) sym = text_eq t sym

-- `imp.intercepts.iter().any(…)`
unfoldable pub lists_symbol : Text → List Text → Bool
lists_symbol sym [] = false
lists_symbol sym (s ∷ ss) =
    (text_eq s sym || is_bare (strip_prefix underscore s) sym) || lists_symbol sym ss

unfoldable pub any_lists : Text → List FuncImport → Bool
unfolding lists_symbol
any_lists sym [] = false
any_lists sym (imp ∷ imps) = lists_symbol sym imp.intercepts || any_lists sym imps

unfoldable pub intercept_names : Text → List Text
intercept_names sym = elim (strip_prefix underscore sym) [
  | some bare ↦ sym ∷ []
  | none ↦ sym ∷ (ascii "_" ++ sym) ∷ []
]

-- `Some("q" | "Q" | "d" | "D") => I64, _ => I32`
abbrev pub wasm_type : Option Text → WasmValType
wasm_type none = i32
wasm_type (some t) =
    if text_eq t (ascii "q")
      || text_eq t (ascii "Q")
      || text_eq t (ascii "d")
      || text_eq t (ascii "D")
    then i64
    else i32

abbrev pub wasm_results : AbiValueKind → Option Text → List WasmValType
wasm_results void t = []
wasm_results other t = wasm_type t ∷ []

-- `bridgesupport_wasm_types`, and the import that is pushed with them.
unfoldable pub import_of : Text → AbiFunction → FuncImport
unfolding intercept_names
import_of sym f = record {
  module_name = ascii "env";
  name = sym;
  params = map (λ (a : AbiArg). wasm_type a.bridgesupport_type) f.args;
  results = wasm_results f.retval.kind f.retval.bridgesupport_type;
  intercepts = intercept_names sym;
}

module _ (has_stub : Text → Bool) (spec : AbiSpec) where
  -- A round of the loop; a function whose pointers no stub rewrites is passed over.
  unfoldable pub extend_one : List FuncImport → Text → Option AbiFunction → List FuncImport
  unfolding any_lists import_of
  extend_one imps sym none = imps
  extend_one imps sym (some f) =
      if accepts_function_pointers spec sym && not (has_stub sym)
      then imps
      else if any_lists sym imps
      then imps
      else imps ++ (import_of sym f ∷ [])

  unfoldable pub extend_loop : List FuncImport → (symbols : List Text) → List FuncImport
  unfolding extend_one
  extend_loop imps [] = imps
  extend_loop imps (sym ∷ symbols) = extend_loop (extend_one imps sym (lookup spec sym)) symbols

  unfoldable pub extend_manifest : ImportManifest → (symbols : List Text) → ImportManifest
  unfolding extend_loop
  extend_manifest base symbols = record { func_imports = extend_loop base.func_imports symbols }

-- `(0..n as u32).collect()` from `i`
unfoldable pub counted_from : ℕ → ℕ → List ℕ
counted_from zero i = []
counted_from (suc n) i = i ∷ counted_from n (suc i)

unfoldable pub x86_64_arg_locals : ℕ → List ℕ
x86_64_arg_locals n = take n (7 ∷ 6 ∷ 2 ∷ 3 ∷ 8 ∷ 9 ∷ [])

abbrev pub is_i32 : WasmValType → Bool
is_i32 i32 = true
is_i32 other = false

abbrev pub arg_slots : BinArch → ℕ → List ℕ
arg_slots x86_64 n = x86_64_arg_locals n
arg_slots aarch64 n = counted_from n 0

abbrev pub result_slot : List WasmValType → Option ℕ
result_slot [] = none
result_slot (t ∷ ts) = some 0

abbrev pub result_widens : List WasmValType → Bool
result_widens [] = false
result_widens (t ∷ ts) = is_i32 t

unfoldable pub import_to_calling_convention : BinArch → FuncImport → CallingConvention
unfolding x86_64_arg_locals counted_from
import_to_calling_convention arch imp = record {
  arg_locals = arg_slots arch (length imp.params);
  arg_wrap_i32 = map is_i32 imp.params;
  result_local = result_slot imp.results;
  result_extend_i32 = result_widens imp.results;
}

-- `func_imports.iter().find(|i| i.name == import_name)`
unfoldable pub find_named : List FuncImport → Text → Option FuncImport
find_named [] name = none
find_named (imp ∷ imps) name = if text_eq imp.name name then some imp else find_named imps name

unfoldable pub hook_calling_convention_from_manifest :
    ImportManifest → BinArch → Text → Option CallingConvention
unfolding find_named import_to_calling_convention resolve_intercept
hook_calling_convention_from_manifest manifest arch guest_symbol =
    elim (resolve_intercept manifest guest_symbol) [
      | none ↦ none
      | some (module_name, import_name) ↦ elim (find_named manifest.func_imports import_name) [
        | none ↦ none
        | some imp ↦ some (import_to_calling_convention arch imp)
      ]
    ]

abbrev default_convention : CallingConvention
default_convention = record {
  arg_locals = [];
  arg_wrap_i32 = [];
  result_local = none;
  result_extend_i32 = false;
}

unfoldable pub plt_calling_convention :
    (calling_convention : BinArch → Text → Option CallingConvention)
    → ImportManifest
    → BinArch
    → Text
    → CallingConvention
unfolding hook_calling_convention_from_manifest
plt_calling_convention calling_convention manifest arch guest_symbol =
    elim (calling_convention arch guest_symbol) [
      | some c ↦ c
      | none ↦ elim (hook_calling_convention_from_manifest manifest arch guest_symbol) [
        | some c ↦ c
        | none ↦ default_convention
      ]
    ]
