-- ===== src/Daemon/RegistryLaws.antt =====
-- Laws of the registry of backends and of the sorted list of its keys.
use os_emulation.Base.{
  ◌≡◌, refl, sym, ap, Bool-cases, inl, inr, true, if◌then◌else◌, List, [], ◌∷◌, none, some, Text,
  text_eq, text_le, text_eq_iff, text_le_total, text_le_trans, text_eq_sound, text_eq_refl, subst,
  All, ◌≢◌, arith,
}
use mathlib.Core.List.{Perm}
use mathlib.Core.List.Perm
use os_emulation.Daemon.Registry.{get, insert, keys, insert_sorted, sort}

abbrev pub Sorted : List Text → Type 0
Sorted [] = Unit
Sorted (k ∷ ks) = All (λ j. text_le k j ≡ true) ks × Sorted ks

module _ {B : Type 0} where
  -- What is registered after a registration: the new backend under its key, the old ones elsewhere.
  pub get-insert :
      (m : List (Text × B)) (k j : Text) (v : B)
      → get (insert k v m) j ≡ (if text_eq k j then some v else get m j)
  unfolding get insert
  get-insert [] k j v = refl
  get-insert ((i, b) ∷ m) k j v =
      ground (arith, text_eq_iff i k, text_eq_iff i j, text_eq_iff k j, get-insert m k j v)

  -- A new value under a key that finds one leaves the keys as they are.
  pub keys-insert :
      (m : List (Text × B)) (k : Text) (b v : B) → get m k ≡ some b → keys (insert k v m) ≡ keys m
  unfolding get insert keys
  keys-insert [] k b v e = absurd (cc e)
  keys-insert ((j, c) ∷ m) k b v e = elim (Bool-cases (text_eq j k)) [
    | inl same ↦ rw same (ap (λ (i : Text). i ∷ keys m) (sym (text_eq_sound j k same)))
    | inr other ↦ rw other (ap (λ (ks : List Text). j ∷ ks) (keys-insert m k b v (rw other at e)))
  ]

  -- A property of every key holds of every key that finds a backend.
  pub All-keys :
      (P : Text → Type 0) (m : List (Text × B)) (j : Text) (b : B)
      → All P (keys m)
      → get m j ≡ some b
      → P j
  unfolding get keys
  All-keys P [] j b h e = absurd (cc e)
  All-keys P ((i, c) ∷ m) j b (hi, h) e = elim (Bool-cases (text_eq i j)) [
    | inl same ↦ subst P (text_eq_sound i j same) hi
    | inr other ↦ All-keys P m j b h (rw other at e)
  ]

  get-cons_ne_none :
      (m : List (Text × B)) (i : Text) (b : B) (j : Text)
      → get m j ≢ none
      → get ((i, b) ∷ m) j ≢ none
  unfolding get
  get-cons_ne_none m i b j h e = ground arith

  All-weaken :
      (m : List (Text × B)) (i : Text) (b : B) (ks : List Text)
      → All (λ k. get m k ≢ none) ks
      → All (λ k. get ((i, b) ∷ m) k ≢ none) ks
  All-weaken m i b [] h = tt
  All-weaken m i b (k ∷ ks) (hk, h) = (get-cons_ne_none m i b k hk, All-weaken m i b ks h)

  -- Every key finds a backend.
  pub keys-registered : (m : List (Text × B)) → All (λ k. get m k ≢ none) (keys m)
  unfolding keys
  keys-registered [] = tt
  keys-registered ((i, b) ∷ m) =
      (unfold get in ground (arith, text_eq_refl i), All-weaken m i b (keys m) (keys-registered m))

insert_sorted-perm : (k : Text) (ks : List Text) → Perm (insert_sorted k ks) (k ∷ ks)
unfolding insert_sorted
insert_sorted-perm k [] = Perm.refl (k ∷ [])
insert_sorted-perm k (j ∷ ks) = elim (Bool-cases (text_le k j)) [
  | inl le ↦ rw le (Perm.refl (k ∷ j ∷ ks))
  | inr gt ↦ rw gt (Perm.trans (Perm.cons j (insert_sorted-perm k ks)) (Perm.swap k j ks))
]

-- Sorting neither drops nor invents a key.
pub sort-perm : (ks : List Text) → Perm (sort ks) ks
unfolding sort
sort-perm [] = Perm.refl []
sort-perm (k ∷ ks) = Perm.trans (insert_sorted-perm k (sort ks)) (Perm.cons k (sort-perm ks))

module _ (P : Text → Type 0) where
  All-insert_sorted : (k : Text) (ks : List Text) → P k → All P ks → All P (insert_sorted k ks)
  unfolding insert_sorted
  All-insert_sorted k [] hk h = (hk, h)
  All-insert_sorted k (j ∷ ks) hk (hj, h) = elim (Bool-cases (text_le k j)) [
    | inl le ↦ rw le (hk, (hj, h))
    | inr gt ↦ rw gt (hj, All-insert_sorted k ks hk h)
  ]

  pub All-sort : (ks : List Text) → All P ks → All P (sort ks)
  unfolding sort
  All-sort [] h = tt
  All-sort (k ∷ ks) (hk, h) = All-insert_sorted k (sort ks) hk (All-sort ks h)

  insert_sorted-All : (k : Text) (ks : List Text) → All P (insert_sorted k ks) → P k × All P ks
  unfolding insert_sorted
  insert_sorted-All k [] (hk, h) = (hk, h)
  insert_sorted-All k (j ∷ ks) h = elim (Bool-cases (text_le k j)) [
    | inl le ↦ rw le at h
    | inr gt ↦
        let (hj, rest) = rw gt at h in
        let (hk, hks) = insert_sorted-All k ks rest in (hk, (hj, hks))
  ]

  pub sort-All : (ks : List Text) → All P (sort ks) → All P ks
  unfolding sort
  sort-All [] h = tt
  sort-All (k ∷ ks) h = let (hk, r) = insert_sorted-All k (sort ks) h in (hk, sort-All ks r)

below-All :
    (k j : Text) (ks : List Text)
    → text_le k j ≡ true
    → All (λ i. text_le j i ≡ true) ks
    → All (λ i. text_le k i ≡ true) ks
below-All k j [] le h = tt
below-All k j (i ∷ ks) le (hi, h) = (text_le_trans k j i le hi, below-All k j ks le h)

insert_sorted-Sorted : (k : Text) (ks : List Text) → Sorted ks → Sorted (insert_sorted k ks)
unfolding insert_sorted
insert_sorted-Sorted k [] h = (tt, tt)
insert_sorted-Sorted k (j ∷ ks) (hj, h) = elim (Bool-cases (text_le k j)) [
  | inl le ↦ rw le ((le, below-All k j ks le hj), (hj, h))
  | inr gt ↦ rw gt (
    All-insert_sorted (λ i. text_le j i ≡ true) k ks (text_le_total k j gt) hj,
    insert_sorted-Sorted k ks h,
  )
]

pub sort-Sorted : (ks : List Text) → Sorted (sort ks)
unfolding sort
sort-Sorted [] = tt
sort-Sorted (k ∷ ks) = insert_sorted-Sorted k (sort ks) (sort-Sorted ks)
