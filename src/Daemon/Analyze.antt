-- ===== src/Daemon/Analyze.antt =====
-- `handle_analyze` when the client names no backend.
use os_emulation.Base.{
  ◌≡◌, refl, ap, ◌≢◌, ◌⊎◌, inl, inr, Bool-cases, true, false, ok, List, [], ◌∷◌, Option, none, some,
  Option-cases, sym, ◌∙◌, Text, text_le, text_le_refl, All, subst, arith,
}
use os_emulation.Transform.{Suitability, TransformBackend}
use os_emulation.Protocol.Message.{Response, suitable}
use os_emulation.Daemon.{
  Daemon, is_suitable, nothing_registered, analyze_one, analyze_loop, handle_analyze,
}
use os_emulation.Daemon.Registry.{get, keys, sort}
use os_emulation.Daemon.RegistryLaws.{
  Sorted, All-keys, keys-registered, All-sort, sort-All, sort-Sorted,
}

module _ {B : Type 0} (ops : TransformBackend B) (path : Text) where
  -- The backend's analysis says that it can transform the path.
  abbrev pub Suits : B → Type 0
  Suits b = (s : Suitability) × (ops.analyze b path ≡ ok s) × (s.suitable ≡ true)

  -- No backend at `j` that suits, or `id` comes first.
  abbrev pub NotBefore : List (Text × B) → Text → Text → Type 0
  NotBefore m id j = (c : B) → get m j ≡ some c → Suits c → text_le id j ≡ true

  abbrev pub NoneSuits : List (Text × B) → Text → Type 0
  NoneSuits m j = (c : B) → get m j ≡ some c → ¬ Suits c

  -- `r` is `suitable` with the least id whose backend suits, or a refusal where none suits.
  abbrev pub PicksLeast : List (Text × B) → Option Response → Type 0
  PicksLeast m r =
      ((id : Text) × (b : B) × (get m id ≡ some b)
        × Suits b
        × (r ≡ some (suitable id))
        × ((j : Text) → NotBefore m id j))
      ⊎ ((a : Response) × (r ≡ some a) × (is_suitable a ≡ false) × ((j : Text) → NoneSuits m j))

  suitable_answer :
      (id : Text) (b : B)
      → is_suitable (analyze_one ops id b path) ≡ true
      → Suits b × (analyze_one ops id b path ≡ suitable id)
  unfolding analyze_one is_suitable
  suitable_answer id b h = ground arith

  unsuitable_answer :
      (id : Text) (b : B) → is_suitable (analyze_one ops id b path) ≡ false → ¬ Suits b
  unfolding analyze_one is_suitable
  unsuitable_answer id b h (s, e, k) = ground arith

  -- What the loop answers over the ids `ids`: the first backend that suits, or a refusal.
  abbrev Answered : List (Text × B) → List Text → Option Response → Type 0
  Answered m ids r =
      ((id : Text) × (b : B) × (get m id ≡ some b)
        × Suits b
        × (r ≡ some (suitable id))
        × All (NotBefore m id) ids)
      ⊎ ((a : Response) × (r ≡ some a) × (is_suitable a ≡ false) × All (NoneSuits m) ids)

  NotBefore-All :
      (m : List (Text × B)) (id : Text) (ids : List Text)
      → All (λ j. text_le id j ≡ true) ids
      → All (NotBefore m id) ids
  NotBefore-All m id [] h = tt
  NotBefore-All m id (j ∷ ids) (hj, h) = (λ c e s. hj, NotBefore-All m id ids h)

  some_same : {b c : B} → some b ≡ some c → b ≡ c
  some_same e = cc

  loop_found :
      (m : List (Text × B)) (id : Text) (ids : List Text) (last : Response) (b : B)
      → get m id ≡ some b
      → is_suitable (analyze_one ops id b path) ≡ true
      → analyze_loop ops m path (id ∷ ids) last ≡ some (analyze_one ops id b path)
  unfolding analyze_loop
  loop_found m id ids last b e h = ground arith

  loop_skips :
      (m : List (Text × B)) (id : Text) (ids : List Text) (last : Response) (b : B)
      → get m id ≡ some b
      → is_suitable (analyze_one ops id b path) ≡ false
      → analyze_loop ops m path (id ∷ ids) last
        ≡ analyze_loop ops m path ids (analyze_one ops id b path)
  unfolding analyze_loop
  loop_skips m id ids last b e h = ground arith

  found_first :
      (m : List (Text × B)) (id : Text) (ids : List Text) (last : Response) (b : B)
      → Sorted (id ∷ ids)
      → get m id ≡ some b
      → is_suitable (analyze_one ops id b path) ≡ true
      → Answered m (id ∷ ids) (analyze_loop ops m path (id ∷ ids) last)
  found_first m id ids last b (before, sorted) e yes_it_is =
      let (s, a) = suitable_answer id b yes_it_is in
      inl (
        id,
        b,
        e,
        s,
        loop_found m id ids last b e yes_it_is ∙ ap some a,
        (λ c q t. text_le_refl id, NotBefore-All m id ids before),
      )

  -- A backend that does not suit is skipped.
  skip_first :
      (m : List (Text × B)) (id : Text) (ids : List Text) (b : B) (r : Option Response)
      → get m id ≡ some b
      → ¬ Suits b
      → Answered m ids r
      → Answered m (id ∷ ids) r
  skip_first m id ids b r e none_it_is (inl (j, c, q, s, a, rest)) =
      inl (
        j,
        c,
        q,
        s,
        a,
        (λ x p t. absurd (none_it_is (subst Suits (some_same (sym p ∙ e)) t)), rest),
      )
  skip_first m id ids b r e none_it_is (inr (a, q, f, rest)) =
      inr (a, q, f, (λ x p t. none_it_is (subst Suits (some_same (sym p ∙ e)) t), rest))

  loop_answers :
      (m : List (Text × B)) (ids : List Text) (last : Response)
      → Sorted ids
      → All (λ k. get m k ≢ none) ids
      → is_suitable last ≡ false
      → Answered m ids (analyze_loop ops m path ids last)
  loop_answers m [] last sorted reg h = unfold analyze_loop in inr (last, refl, h, tt)
  loop_answers m (id ∷ ids) last (before, sorted) (here, reg) h = elim (Option-cases (get m id)) [
    | inl e ↦ absurd (here e)
    | inr (b, e) ↦ elim (Bool-cases (is_suitable (analyze_one ops id b path))) [
      | inl y ↦ found_first m id ids last b (before, sorted) e y
      | inr n ↦ rw (loop_skips m id ids last b e n) (
          skip_first m id ids b _ e (unsuitable_answer id b n)
            (loop_answers m ids (analyze_one ops id b path) sorted reg n))
    ]
  ]

  -- A request that names no backend never panics. Its answer is `suitable` with the least of the
  -- registered ids whose backend suits the path, and a refusal exactly when no registered backend
  -- suits it.
  pub handle_analyze_default :
      (d : Daemon B) → PicksLeast d.registry (handle_analyze ops d path none)
  unfolding handle_analyze
  handle_analyze_default d =
      let m = d.registry in
      elim (loop_answers m (sort (keys m)) nothing_registered (sort-Sorted (keys m))
        (All-sort (λ k. get m k ≢ none) (keys m) (keys-registered m))
        (unfold is_suitable nothing_registered in refl)) [
          | inl (id, b, e, s, a, rest) ↦ inl (
            id,
            b,
            e,
            s,
            a,
            λ j c q.
                All-keys (NotBefore m id) m j c (sort-All (NotBefore m id) (keys m) rest) q c q,
          )
          | inr (a, q, f, rest) ↦ inr (
            a,
            q,
            f,
            λ j c p. All-keys (NoneSuits m) m j c (sort-All (NoneSuits m) (keys m) rest) p c p,
          )
        ]
