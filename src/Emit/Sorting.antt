-- ===== src/Emit/Sorting.antt =====
-- `SyscallTable::new` of crates/emit/os-syscall-emit/src/lib.rs sorts.
use os_emulation.Base.{ℕ, ◌≤◌, leb, Bool-cases, inl, inr, List, [], ◌∷◌, All, arith}
use mathlib.Core.List.{Perm}
use mathlib.Core.List.Perm
use os_emulation.Emit.{Entry, insert_entry, sort_entries, new}

abbrev pub AscendingEntries : List Entry → Type 0
AscendingEntries [] = Unit
AscendingEntries (e ∷ es) = All (λ (f : Entry). e.0 ≤ f.0) es × AscendingEntries es

insert-perm : (e : Entry) (es : List Entry) → Perm (insert_entry e es) (e ∷ es)
unfolding insert_entry
insert-perm e [] = Perm.refl (e ∷ [])
insert-perm e (f ∷ es) = elim (Bool-cases (leb e.0 f.0)) [
  | inl le ↦ rw le (Perm.refl (e ∷ f ∷ es))
  | inr gt ↦ rw gt (Perm.trans (Perm.cons f (insert-perm e es)) (Perm.swap e f es))
]

sort-perm_entries : (es : List Entry) → Perm (sort_entries es) es
unfolding sort_entries
sort-perm_entries [] = Perm.refl []
sort-perm_entries (e ∷ es) =
    Perm.trans (insert-perm e (sort_entries es)) (Perm.cons e (sort-perm_entries es))

insert-All :
    (n : ℕ) (e : Entry) (es : List Entry)
    → n ≤ e.0
    → All (λ (f : Entry). n ≤ f.0) es
    → All (λ (f : Entry). n ≤ f.0) (insert_entry e es)
unfolding insert_entry
insert-All n e [] le h = (le, tt)
insert-All n e (f ∷ es) le (hf, h) = elim (Bool-cases (leb e.0 f.0)) [
  | inl lo ↦ rw lo ((le, (hf, h)))
  | inr hi ↦ rw hi ((hf, insert-All n e es le h))
]

weaken-All :
    (m n : ℕ) (es : List Entry)
    → m ≤ n
    → All (λ (f : Entry). n ≤ f.0) es
    → All (λ (f : Entry). m ≤ f.0) es
weaken-All m n [] le h = tt
weaken-All m n (f ∷ es) le (hf, h) = (omega arith, weaken-All m n es le h)

insert-AscendingEntries :
    (e : Entry) (es : List Entry) → AscendingEntries es → AscendingEntries (insert_entry e es)
unfolding insert_entry
insert-AscendingEntries e [] h = (tt, tt)
insert-AscendingEntries e (f ∷ es) (hf, h) = elim (Bool-cases (leb e.0 f.0)) [
  | inl lo ↦ rw lo ((ground arith, weaken-All e.0 f.0 es (ground arith) hf), (hf, h))
  | inr hi ↦ rw hi ((insert-All f.0 e es (ground arith) hf, insert-AscendingEntries e es h))
]

ascending : (es : List Entry) → AscendingEntries (sort_entries es)
unfolding sort_entries
ascending [] = tt
ascending (e ∷ es) = insert-AscendingEntries e (sort_entries es) (ascending es)

-- A table holds the entries that it was made of, in ascending order of their numbers.
pub new-sorts : (es : List Entry) → AscendingEntries (new es).entries × Perm (new es).entries es
unfolding new
new-sorts es = (ascending es, sort-perm_entries es)
