-- ===== src/Abi/Examples.antt =====
-- Runs of crates/abi/os-abi-stubs/src/lib.rs and crates/abi/os-abi-spec/src/model.rs, the ones of their
-- tests among them.
use os_emulation.Base.{
  ◌≡◌, refl, Bool, true, false, List, [], ◌∷◌, Option, none, some, Text, ascii, text_eq, text_le,
  length,
}
use os_emulation.Daemon.Registry.{sort, insert_sorted}
use os_emulation.HostApi.Manifest.{
  i64, FuncImport, native_syscall, integrated_native, resolve_intercept, find_intercept, any_names,
}
use os_emulation.Abi.Model.{
  AbiArg, AbiFunction, AbiSpec, scalar, function_pointer, lookup, find_function, symbol_names,
  dedup, accepts_function_pointers, any_fn_ptr, fn_ptr_symbols, fn_ptr_names, CallingConvention,
}
use os_emulation.Abi.Stubs.{
  x86_64, BinArch, extend_manifest, extend_loop, extend_one, any_lists, lists_symbol, import_of,
  intercept_names, import_to_calling_convention, x86_64_arg_locals, find_named,
  hook_calling_convention_from_manifest, plt_calling_convention,
}
use os_emulation.Abi.Extending.{extend_manifest-keeps, extend_manifest-resolves}

abbrev int_arg : AbiArg
int_arg = record {
  kind = scalar;
  bridgesupport_type = some (ascii "i");
  is_function_pointer = false;
  is_pointer = false;
}

abbrev callback_arg : AbiArg
callback_arg = record {
  kind = function_pointer;
  bridgesupport_type = some (ascii "^?");
  is_function_pointer = true;
  is_pointer = true;
}

abbrev a_function : Text → List AbiArg → AbiFunction
a_function name args = record { name = name; args = args; retval = int_arg; variadic = false }

abbrev a_spec : AbiSpec
a_spec = record {
  functions =
      a_function (ascii "qsort") (callback_arg ∷ [])
      ∷ a_function (ascii "puts") (int_arg ∷ [])
      ∷ a_function (ascii "write") (int_arg ∷ int_arg ∷ int_arg ∷ [])
      ∷ a_function (ascii "puts") []
      ∷ [];
}

abbrev no_stub : Text → Bool
no_stub s = false

abbrev wanted_symbols : List Text
wanted_symbols = ascii "write" ∷ ascii "qsort" ∷ ascii "puts" ∷ []

sorted_names : symbol_names a_spec ≡ ascii "puts" ∷ ascii "qsort" ∷ ascii "write" ∷ []
unfolding symbol_names sort insert_sorted dedup text_le text_eq
sorted_names = refl

callbacks : fn_ptr_symbols a_spec ≡ ascii "qsort" ∷ []
unfolding fn_ptr_symbols fn_ptr_names any_fn_ptr
callbacks = refl

-- Only "puts" is new: "write" is there, and no stub rewrites the callback of "qsort".
extended_length :
    length (extend_manifest no_stub a_spec native_syscall wanted_symbols).func_imports ≡ 4
unfolding extend_manifest extend_loop extend_one native_syscall lookup find_function
    accepts_function_pointers any_fn_ptr any_lists lists_symbol import_of intercept_names text_eq
extended_length = refl

write_resolves :
    resolve_intercept native_syscall (ascii "_write") ≡ some (ascii "env", ascii "write")
unfolding resolve_intercept find_intercept any_names native_syscall text_eq
write_resolves = refl

extend_manifest-keeps_example :
    resolve_intercept
      (extend_manifest no_stub a_spec native_syscall wanted_symbols)
      (ascii "_write")
    ≡ some (ascii "env", ascii "write")
extend_manifest-keeps_example =
    extend_manifest-keeps no_stub a_spec native_syscall wanted_symbols (ascii "_write")
      (ascii "env") (ascii "write") write_resolves

extend_manifest-resolves_example :
    (import : Text × Text) × (resolve_intercept
        (extend_manifest no_stub a_spec native_syscall wanted_symbols)
        (ascii "puts")
      ≡ some import)
extend_manifest-resolves_example =
    extend_manifest-resolves no_stub a_spec native_syscall (ascii "write" ∷ ascii "qsort" ∷ []) []
      (ascii "puts") (a_function (ascii "puts") (int_arg ∷ [])) refl
      (unfold lookup find_function text_eq in refl)
      (unfold accepts_function_pointers lookup find_function any_fn_ptr text_eq in refl)

abbrev no_convention : BinArch → Text → Option CallingConvention
no_convention arch s = none

execve_convention :
    plt_calling_convention no_convention integrated_native x86_64 (ascii "execve") ≡ record {
      arg_locals = 7 ∷ 6 ∷ 2 ∷ [];
      arg_wrap_i32 = false ∷ false ∷ false ∷ [];
      result_local = some 0;
      result_extend_i32 = true;
    }
unfolding plt_calling_convention hook_calling_convention_from_manifest resolve_intercept
    find_intercept any_names find_named import_to_calling_convention x86_64_arg_locals
    integrated_native native_syscall text_eq
execve_convention = refl

-- A seventh parameter has no register on x86-64, and is left out of the slots without an error.
abbrev seven_params : FuncImport
seven_params = record {
  module_name = ascii "env";
  name = ascii "mmap7";
  params = i64 ∷ i64 ∷ i64 ∷ i64 ∷ i64 ∷ i64 ∷ i64 ∷ [];
  results = [];
  intercepts = [];
}

six_slots :
    (length (import_to_calling_convention x86_64 seven_params).arg_locals ≡ 6)
    × (length (import_to_calling_convention x86_64 seven_params).arg_wrap_i32 ≡ 7)
unfolding import_to_calling_convention x86_64_arg_locals
six_slots = (refl, refl)
