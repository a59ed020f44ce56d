-- ===== src/Abi/Model.antt =====
-- The model of crates/abi/os-abi-spec/src: model.rs and convention.rs.
use os_emulation.Base.{
  ℕ, Bool, true, false, ◌||◌, List, [], ◌∷◌, Option, none, some, Text, text_eq, get_or,
  if◌then◌else◌, map,
}
use os_emulation.Daemon.Registry.{sort}

pub data AbiValueKind : Type 0 where
  void scalar pointer function_pointer object : AbiValueKind
  unknown : Text → AbiValueKind

pub record AbiArg : Type 0 where
  pub kind : AbiValueKind
  pub bridgesupport_type : Option Text
  pub is_function_pointer : Bool
  pub is_pointer : Bool

abbrev pub void_arg : AbiArg
void_arg = record {
  kind = void;
  bridgesupport_type = none;
  is_function_pointer = false;
  is_pointer = false;
}

pub record AbiFunction : Type 0 where
  pub name : Text
  pub args : List AbiArg
  pub retval : AbiArg
  pub variadic : Bool

pub record AbiSpec : Type 0 where
  pub functions : List AbiFunction

-- `names.dedup()`
unfoldable pub dedup : List Text → List Text
dedup [] = []
dedup (a ∷ []) = a ∷ []
dedup (a ∷ b ∷ names) = let rest = dedup (b ∷ names) in if text_eq a b then rest else a ∷ rest

unfoldable pub symbol_names : AbiSpec → List Text
unfolding dedup sort
symbol_names spec = dedup (sort (map (λ (f : AbiFunction). f.name) spec.functions))

-- `functions.iter().find(|f| f.name == name)`
unfoldable pub find_function : List AbiFunction → Text → Option AbiFunction
find_function [] name = none
find_function (f ∷ fs) name = if text_eq f.name name then some f else find_function fs name

unfoldable pub lookup : AbiSpec → Text → Option AbiFunction
unfolding find_function
lookup spec name = find_function spec.functions name

abbrev is_fn_ptr_kind : AbiValueKind → Bool
is_fn_ptr_kind function_pointer = true
is_fn_ptr_kind other = false

-- `f.args.iter().any(…)`
unfoldable pub any_fn_ptr : List AbiArg → Bool
any_fn_ptr [] = false
any_fn_ptr (a ∷ args) = (a.is_function_pointer || is_fn_ptr_kind a.kind) || any_fn_ptr args

abbrev pub takes_fn_ptr : Option AbiFunction → Bool
takes_fn_ptr none = false
takes_fn_ptr (some f) = any_fn_ptr f.args

unfoldable pub accepts_function_pointers : AbiSpec → Text → Bool
unfolding lookup any_fn_ptr
accepts_function_pointers spec name = takes_fn_ptr (lookup spec name)

-- `functions.iter().filter(…).map(…)`
unfoldable pub fn_ptr_names : List AbiFunction → List Text
unfolding any_fn_ptr
fn_ptr_names [] = []
fn_ptr_names (f ∷ fs) =
    let rest = fn_ptr_names fs in if any_fn_ptr f.args then f.name ∷ rest else rest

unfoldable pub fn_ptr_symbols : AbiSpec → List Text
unfolding fn_ptr_names
fn_ptr_symbols spec = fn_ptr_names spec.functions

pub record CallingConvention : Type 0 where
  pub arg_locals : List ℕ
  pub arg_wrap_i32 : List Bool
  pub result_local : Option ℕ
  pub result_extend_i32 : Bool

unfoldable pub wraps_i32 : CallingConvention → ℕ → Bool
wraps_i32 cc' i = get_or cc'.arg_wrap_i32 i false
