-- ===== src/HostApi/Examples.antt =====
-- Runs of the hosts over a host that counts its system calls.
use os_emulation.Base.{
  ℕ, suc, ◌≡◌, refl, true, List, [], ◌∷◌, none, some, Text, ascii, text_eq, All,
}
use os_emulation.Daemon.Registry.{get}
use os_emulation.HostApi.Manifest.{
  native_syscall, integrated_native, any_names, find_intercept, resolve_intercept, position,
  index_of,
}
use os_emulation.HostApi.Hosts.{
  HostApi, enosys, FilteredHostApi, from_policy, exit_write_only, filtered_ambient, filtered_api,
  integrated, redirecting_plt, redirecting_recipe, derive_hooks_from_manifest,
}
use os_emulation.HostApi.Intercepts.{
  Resolves, last_redirect, derive_hooks-get, resolve_intercept-FirstAt,
}
use os_emulation.HostApi.Policy.{Call, run_calls, filter_hides, kept_unhooked}

abbrev counting : HostApi (Unit {0}) Text ℕ
counting = record {
  import_manifest = λ h. integrated_native;
  resolve_ambient = λ h guest. some guest;
  link_recipe = λ h. record {
    target = tt;
    dylib_flags = ascii "-lc" ∷ [];
    ambient_aliases = (ascii "execve", ascii "execve") ∷ (ascii "puts", ascii "puts") ∷ [];
  };
  resolve_plt_redirect = λ h guest. none;
  supports_ambient_linking = λ h. true;
  syscall = λ h nr args. (h, suc h);
}

abbrev filtered : FilteredHostApi ℕ
filtered = from_policy 0 exit_write_only

abbrev calls : List Call
calls = (64, 1 ∷ []) ∷ (57, []) ∷ (93, 0 ∷ []) ∷ []

filter_hides_example :
    run_calls (filtered_api (ascii "__ambient_") counting) filtered calls
    ≡ (0 ∷ enosys ∷ 1 ∷ [], record filtered { inner = 2 })
filter_hides_example = filter_hides (ascii "__ambient_") counting filtered calls

exit_resolves :
    filtered_ambient (ascii "__ambient_") counting filtered (ascii "exit") ≡ some (ascii "exit")
unfolding filtered_ambient text_eq
exit_resolves = refl

kept_unhooked_example :
    All
      (λ (a : Text × Text). redirecting_plt counting (integrated counting 0) a.0 ≡ none)
      (redirecting_recipe counting (integrated counting 0)).ambient_aliases
kept_unhooked_example = kept_unhooked counting (integrated counting 0)

derive_hooks-get_example :
    get (derive_hooks_from_manifest integrated_native) (ascii "execve")
    ≡ last_redirect integrated_native.func_imports (ascii "execve") none
derive_hooks-get_example = derive_hooks-get integrated_native (ascii "execve")

write_index : index_of native_syscall (ascii "env") (ascii "write") ≡ some 2
unfolding index_of position native_syscall text_eq
write_index = refl

-- A Mach-O symbol of `_exit` has two underscores, and is not intercepted.
macho_exit_missed : resolve_intercept native_syscall (ascii "__exit") ≡ none
unfolding resolve_intercept find_intercept any_names native_syscall text_eq
macho_exit_missed = refl

exit_intercepted :
    resolve_intercept native_syscall (ascii "_exit") ≡ some (ascii "env", ascii "exit")
unfolding resolve_intercept find_intercept any_names native_syscall text_eq
exit_intercepted = refl

resolve_intercept-FirstAt_example :
    Resolves
      (ascii "_exit")
      native_syscall.func_imports
      (resolve_intercept native_syscall (ascii "_exit"))
resolve_intercept-FirstAt_example = resolve_intercept-FirstAt native_syscall (ascii "_exit")
