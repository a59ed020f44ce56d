-- ===== src/HostApi/Hosts.antt =====
-- The hosts of crates/runtime/os-host-api/src: `HostApi` (lib.rs), the filtering host (filtered.rs), the
-- redirecting host (redirecting.rs), the tunnelling host (tunneled.rs) and the registry (registry.rs).
-- `R` is what a tunnel resolves a symbol to, and a tunnel is a parameter.
use os_emulation.Base.{
  ℕ, ◌-◌, ◌==◌, if◌then◌else◌, Bool, true, false, not, ◌||◌, List, [], ◌∷◌, Option, none, some,
  Text, ascii, text_eq,
}
use os_emulation.Base.Words.{u64_mod}
use os_emulation.Daemon.Registry.{get, insert}
use os_emulation.HostApi.Manifest.{
  FuncImport, ImportManifest, native_syscall, without_prefix, underscore, resolve_intercept,
}

pub data PltRedirect : Type 0 where
  wasm_import : Text → Text → PltRedirect
  ambient : PltRedirect
  native_shim : Text → PltRedirect

-- `LinkRecipe`, for the target `T`.
pub record LinkRecipe (T : Type 0) : Type 0 where
  pub target : T
  pub dylib_flags : List Text
  pub ambient_aliases : List (Text × Text)

-- -1 as an `i64`
abbrev pub enosys : ℕ
enosys = u64_mod - 1

-- `HostApi` for the hosts `H`. `syscall` takes `&mut self`, so it returns the host that it leaves.
pub record HostApi (T R H : Type 0) : Type 0 where
  pub import_manifest : H → ImportManifest
  pub resolve_ambient : H → Text → Option R
  pub link_recipe : H → LinkRecipe T
  pub resolve_plt_redirect : H → Text → Option PltRedirect
  pub supports_ambient_linking : H → Bool
  pub syscall : H → ℕ → List ℕ → ℕ × H

-- A set of texts or of numbers, as a list.
abbrev pub has_text : List Text → Text → Bool
has_text [] s = false
has_text (t ∷ ts) s = text_eq t s || has_text ts s

abbrev pub has_number : List ℕ → ℕ → Bool
has_number [] n = false
has_number (m ∷ ms) n = (m == n) || has_number ms n

pub record HostPolicy : Type 0 where
  pub allowed_ambient : List Text
  pub allowed_syscalls : List ℕ

abbrev pub exit_write_only : HostPolicy
exit_write_only = record {
  allowed_ambient = ascii "write" ∷ ascii "exit" ∷ ascii "_exit" ∷ [];
  allowed_syscalls = 93 ∷ 64 ∷ [];
}

pub record FilteredHostApi (H : Type 0) : Type 0 where
  pub inner : H
  pub allowed_ambient : List Text
  pub allowed_syscalls : List ℕ

abbrev pub from_policy : {H : Type 0} → H → HostPolicy → FilteredHostApi H
from_policy inner policy = record {
  inner = inner;
  allowed_ambient = policy.allowed_ambient;
  allowed_syscalls = policy.allowed_syscalls;
}

-- `retain`
abbrev pub retain : (Text × Text → Bool) → List (Text × Text) → List (Text × Text)
retain keep [] = []
retain keep (a ∷ more) = if keep a then a ∷ retain keep more else retain keep more

-- `ambient_prefix` is `tunnel::AMBIENT_PREFIX`.
module _ {T R H : Type 0} (ambient_prefix : Text) (api : HostApi T R H) where
  unfoldable pub filtered_ambient : FilteredHostApi H → Text → Option R
  filtered_ambient f guest =
      if not (has_text f.allowed_ambient (without_prefix ambient_prefix guest))
      then none
      else api.resolve_ambient f.inner guest

  abbrev pub keeps_alias : FilteredHostApi H → Text × Text → Bool
  keeps_alias f a =
      has_text f.allowed_ambient (without_prefix ambient_prefix a.0)
      || has_text f.allowed_ambient a.1

  unfoldable pub filtered_recipe : FilteredHostApi H → LinkRecipe T
  filtered_recipe f =
      let recipe = api.link_recipe f.inner in
      record recipe { ambient_aliases = retain (keeps_alias f) recipe.ambient_aliases }

  unfoldable pub filtered_syscall : FilteredHostApi H → ℕ → List ℕ → ℕ × FilteredHostApi H
  filtered_syscall f nr args =
      if not (has_number f.allowed_syscalls nr)
      then (enosys, f)
      else (let (r, inner) = api.syscall f.inner nr args in (r, record f { inner = inner }))

  abbrev pub filtered_api : HostApi T R (FilteredHostApi H)
  filtered_api = record {
    import_manifest = λ f. api.import_manifest f.inner;
    resolve_ambient = filtered_ambient;
    link_recipe = filtered_recipe;
    resolve_plt_redirect = λ f guest. api.resolve_plt_redirect f.inner guest;
    supports_ambient_linking = λ f. api.supports_ambient_linking f.inner;
    syscall = filtered_syscall;
  }

pub record RedirectingHostApi (H : Type 0) : Type 0 where
  pub inner : H
  pub hooks : List (Text × PltRedirect)

abbrev pub redirect_to : FuncImport → PltRedirect
redirect_to imp = wasm_import imp.module_name imp.name

-- `for sym in &imp.intercepts { hooks.insert(sym, …) }`
unfoldable pub hook_symbols :
    PltRedirect → List Text → List (Text × PltRedirect) → List (Text × PltRedirect)
hook_symbols r [] hooks = hooks
hook_symbols r (s ∷ ss) hooks = hook_symbols r ss (insert s r hooks)

unfoldable pub hook_imports :
    List FuncImport → List (Text × PltRedirect) → List (Text × PltRedirect)
unfolding hook_symbols
hook_imports [] hooks = hooks
hook_imports (imp ∷ imps) hooks =
    hook_imports imps (hook_symbols (redirect_to imp) imp.intercepts hooks)

unfoldable pub derive_hooks_from_manifest : ImportManifest → List (Text × PltRedirect)
unfolding hook_imports
derive_hooks_from_manifest m = hook_imports m.func_imports []

abbrev pub is_some : {A : Type 0} → Option A → Bool
is_some (some a) = true
is_some none = false

module _ {T R H : Type 0} (api : HostApi T R H) where
  unfoldable pub integrated : H → RedirectingHostApi H
  unfolding derive_hooks_from_manifest
  integrated inner = record {
    inner = inner;
    hooks = derive_hooks_from_manifest (api.import_manifest inner);
  }

  abbrev pub is_hooked : RedirectingHostApi H → Text → Bool
  is_hooked r guest =
      is_some (get r.hooks guest) || is_some (get r.hooks (without_prefix underscore guest))

  unfoldable pub redirecting_plt : RedirectingHostApi H → Text → Option PltRedirect
  redirecting_plt r guest = elim (get r.hooks guest) [
    | some p ↦ some p
    | none ↦ elim (get r.hooks (without_prefix underscore guest)) [
      | some p ↦ some p
      | none ↦ api.resolve_plt_redirect r.inner guest
    ]
  ]

  unfoldable pub redirecting_recipe : RedirectingHostApi H → LinkRecipe T
  redirecting_recipe r =
      let recipe = api.link_recipe r.inner in
      record recipe { ambient_aliases = retain (λ a. not (is_hooked r a.0)) recipe.ambient_aliases }

  abbrev pub redirecting_api : HostApi T R (RedirectingHostApi H)
  redirecting_api = record {
    import_manifest = λ r. api.import_manifest r.inner;
    resolve_ambient = λ r guest. api.resolve_ambient r.inner guest;
    link_recipe = redirecting_recipe;
    resolve_plt_redirect = redirecting_plt;
    supports_ambient_linking = λ r. api.supports_ambient_linking r.inner;
    syscall = λ r nr args.
        (let (x, inner) = api.syscall r.inner nr args in (x, record r { inner = inner }));
  }

-- `Tunnel` for the tunnels `N`, with the flags of its dylibs.
pub record Tunnel (R N : Type 0) : Type 0 where
  pub resolve : N → Text → Option R
  pub dylib_flags : N → List Text
  pub aliases : N → List (Text × Text)

pub record TunneledHostApi (T N : Type 0) : Type 0 where
  pub tunnel : N
  pub target : T
  pub manifest : ImportManifest

module _ {T R N : Type 0} (tunnels : Tunnel R N) where
  abbrev pub new_tunneled : N → T → TunneledHostApi T N
  new_tunneled tunnel target = record {
    tunnel = tunnel;
    target = target;
    manifest = native_syscall;
  }

  abbrev pub with_manifest : TunneledHostApi T N → ImportManifest → TunneledHostApi T N
  with_manifest h manifest = record h { manifest = manifest }

  unfoldable pub tunneled_plt : TunneledHostApi T N → Text → Option PltRedirect
  tunneled_plt h guest = elim (resolve_intercept h.manifest guest) [
    | some (module_name, name) ↦ some (wasm_import module_name name)
    | none ↦ none
  ]

  abbrev pub tunneled_api : HostApi T R (TunneledHostApi T N)
  tunneled_api = record {
    import_manifest = λ h. h.manifest;
    resolve_ambient = λ h guest. tunnels.resolve h.tunnel guest;
    link_recipe = λ h. record {
      target = h.target;
      dylib_flags = tunnels.dylib_flags h.tunnel;
      ambient_aliases = tunnels.aliases h.tunnel;
    };
    resolve_plt_redirect = tunneled_plt;
    supports_ambient_linking = λ h. true;
    syscall = λ h nr args. (enosys, h);
  }
