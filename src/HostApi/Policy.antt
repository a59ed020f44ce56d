-- ===== src/HostApi/Policy.antt =====
-- What the filtering and the redirecting host let through.
use os_emulation.Base.{
  ℕ, ◌≡◌, ◌≢◌, refl, if◌then◌else◌, Bool, Bool-cases, inl, inr, true, false, not, List, [], ◌∷◌,
  Option, none, some, Text, All, arith,
}
use os_emulation.HostApi.Manifest.{without_prefix}
use os_emulation.HostApi.Hosts.{
  HostApi, enosys, has_text, has_number, FilteredHostApi, retain, filtered_ambient,
  filtered_syscall, filtered_api, RedirectingHostApi, is_hooked, redirecting_plt,
  redirecting_recipe,
}

-- A system call by its number and arguments.
abbrev pub Call : Type 0
Call = ℕ × List ℕ

-- The answers of a host to a sequence of calls, and the host at the end.
abbrev pub run_calls : {T R H : Type 0} → HostApi T R H → H → List Call → List ℕ × H
run_calls api h [] = ([], h)
run_calls api h ((nr, args) ∷ calls) =
    let (r, h') = api.syscall h nr args in let (rs, h'') = run_calls api h' calls in (r ∷ rs, h'')

abbrev pub allowed_calls : List ℕ → List Call → List Call
allowed_calls allowed [] = []
allowed_calls allowed ((nr, args) ∷ calls) =
    if has_number allowed nr
    then (nr, args) ∷ allowed_calls allowed calls
    else allowed_calls allowed calls

-- `ENOSYS` for the calls that are not allowed, and the given answers for the others.
abbrev pub fill : List ℕ → List Call → List ℕ → List ℕ
fill allowed [] rs = []
fill allowed ((nr, args) ∷ calls) [] =
    if has_number allowed nr then [] else enosys ∷ fill allowed calls []
fill allowed ((nr, args) ∷ calls) (r ∷ rs) =
    if has_number allowed nr
    then r ∷ fill allowed calls rs
    else enosys ∷ fill allowed calls (r ∷ rs)

none-not-some : {A : Type 0} {a : A} → ◌≢◌ {A = Option A} none (some a)
none-not-some h = cc

module _ {T R H : Type 0} (ambient_prefix : Text) (api : HostApi T R H) where
  denied_fill :
      (allowed : List ℕ) (nr : ℕ) (args : List ℕ) (calls : List Call) (rs : List ℕ)
      → has_number allowed nr ≡ false
      → fill allowed ((nr, args) ∷ calls) rs ≡ enosys ∷ fill allowed calls rs
  denied_fill allowed nr args calls [] e = rw e refl
  denied_fill allowed nr args calls (r ∷ rs) e = rw e refl

  denied_call :
      (f : FilteredHostApi H) (nr : ℕ) (args : List ℕ)
      → has_number f.allowed_syscalls nr ≡ false
      → filtered_syscall ambient_prefix api f nr args ≡ (enosys, f)
  unfolding filtered_syscall
  denied_call f nr args e = rw e refl

  allowed_call :
      (f : FilteredHostApi H) (nr : ℕ) (args : List ℕ)
      → has_number f.allowed_syscalls nr ≡ true
      → filtered_syscall ambient_prefix api f nr args
        ≡ ((api.syscall f.inner nr args).0, record f { inner = (api.syscall f.inner nr args).1 })
  unfolding filtered_syscall
  allowed_call f nr args e = rw e refl

  -- Over any sequence of system calls, the host behind the filter sees the allowed calls and no others,
  -- in order. The program gets its answers to them, and ENOSYS to every other call, and the allow lists
  -- stay as they are.
  pub filter_hides :
      (f : FilteredHostApi H) (calls : List Call)
      → run_calls (filtered_api ambient_prefix api) f calls ≡ (
        fill f.allowed_syscalls calls
            (run_calls api f.inner (allowed_calls f.allowed_syscalls calls)).0,
        record f { inner = (run_calls api f.inner (allowed_calls f.allowed_syscalls calls)).1 },
      )
  filter_hides f [] = refl
  filter_hides f ((nr, args) ∷ calls) = elim (Bool-cases (has_number f.allowed_syscalls nr)) [
    | inl yes_it_is ↦
        rw (allowed_call f nr args yes_it_is, yes_it_is)
          (rw (filter_hides (record f { inner = (api.syscall f.inner nr args).1 }) calls, yes_it_is)
            refl)
    | inr no_it_is ↦
        rw (denied_call f nr args no_it_is, no_it_is)
          (rw (filter_hides f calls, denied_fill f.allowed_syscalls nr args calls _ no_it_is) refl)
  ]

  -- The filtering host resolves a symbol only if it is allowed without the tunnel's prefix, and then as
  -- the host behind it does.
  pub filter_resolves :
      (f : FilteredHostApi H) (guest : Text) (r : R)
      → filtered_ambient ambient_prefix api f guest ≡ some r
      → (has_text f.allowed_ambient (without_prefix ambient_prefix guest) ≡ true)
        × (api.resolve_ambient f.inner guest ≡ some r)
  unfolding filtered_ambient
  filter_resolves f guest r e =
      elim (Bool-cases (has_text f.allowed_ambient (without_prefix ambient_prefix guest))) [
        | inl allowed ↦ (allowed, rw allowed at e)
        | inr denied ↦ absurd (none-not-some (rw denied at e))
      ]

retain-All :
    (keep : Text × Text → Bool) (xs : List (Text × Text))
    → All (λ a. keep a ≡ true) (retain keep xs)
retain-All keep [] = tt
retain-All keep (x ∷ xs) = elim (Bool-cases (keep x)) [
  | inl kept ↦ rw kept (kept, retain-All keep xs)
  | inr dropped ↦ rw dropped (retain-All keep xs)
]

All-weaken :
    {A : Type 0} (P Q : A → Type 0) (xs : List A) → ((a : A) → P a → Q a) → All P xs → All Q xs
All-weaken P Q [] h k = tt
All-weaken P Q (x ∷ xs) h (kx, k) = (h x kx, All-weaken P Q xs h k)

module _ {T R H : Type 0} (api : HostApi T R H) where
  unhooked_falls :
      (r : RedirectingHostApi H) (guest : Text)
      → not (is_hooked api r guest) ≡ true
      → redirecting_plt api r guest ≡ api.resolve_plt_redirect r.inner guest
  unfolding redirecting_plt
  unhooked_falls r guest h = ground arith

  -- No symbol is both linked to the host and hooked: each alias that the redirecting host leaves in the
  -- link recipe is redirected as the host behind it says, and not by a hook.
  pub kept_unhooked :
      (r : RedirectingHostApi H)
      → All
          (λ (a : Text × Text). redirecting_plt api r a.0 ≡ api.resolve_plt_redirect r.inner a.0)
          (redirecting_recipe api r).ambient_aliases
  unfolding redirecting_recipe
  kept_unhooked r =
      All-weaken (λ a. not (is_hooked api r a.0) ≡ true) _ _ (λ a. unhooked_falls r a.0)
        (retain-All (λ a. not (is_hooked api r a.0)) (api.link_recipe r.inner).ambient_aliases)
