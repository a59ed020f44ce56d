-- ===== src/Rewrite/Elf/Layout.antt =====
-- The dynamic array as a dynamic linker reads it.
use os_emulation.Base.{
  ℕ, zero, suc, ◌+◌, ◌*◌, ◌≤◌, ◌≡◌, ◌≢◌, refl, List, [], ◌∷◌, ◌++◌, All, Bytes, ◌==◌, if◌then◌else◌,
  Bool-cases, inl, inr, arith,
}
use native.Mathlib.Nat.{zero-add, suc-add}
use os_emulation.Rewrite.Buffer.{le_at}
use os_emulation.Rewrite.BufferLaws.{SameBytes, le_at-SameBytes}
use os_emulation.Rewrite.Elf.{dt_strsz}

-- The tags and values of `k` entries from an offset on.
unfoldable pub entries_at : ℕ → Bytes → ℕ → List (ℕ × ℕ)
entries_at zero buf off = []
entries_at (suc k) buf off = (le_at 8 buf off, le_at 8 buf (off + 8)) ∷ entries_at k buf (off + 16)

-- No entry ends the array.
abbrev pub NoNull : List (ℕ × ℕ) → Type 0
NoNull = All (λ (e : ℕ × ℕ). e.0 ≢ 0)

-- The value of the first `DT_STRSZ` is replaced.
unfoldable pub grow : ℕ → List (ℕ × ℕ) → List (ℕ × ℕ)
grow size [] = []
grow size ((tag, val) ∷ es) =
    if tag == dt_strsz then (tag, size) ∷ es else (tag, val) ∷ grow size es

pub cons_entries :
    {a b c d : ℕ} {xs ys : List (ℕ × ℕ)}
    → a ≡ c
    → b ≡ d
    → xs ≡ ys
    → ◌≡◌ {A = List (ℕ × ℕ)} ((a, b) ∷ xs) ((c, d) ∷ ys)
cons_entries p q r = cc

pub entries_at-SameBytes :
    (k : ℕ) (a b : Bytes) (off hi : ℕ)
    → off + 16 * k ≤ hi
    → SameBytes a b off hi
    → entries_at k a off ≡ entries_at k b off
unfolding entries_at
entries_at-SameBytes zero a b off hi h same = refl
entries_at-SameBytes (suc k) a b off hi h same =
    cons_entries (le_at-SameBytes 8 a b off hi (omega arith) same)
      (le_at-SameBytes 8 a b (off + 8) hi (omega arith) (λ i p q. same i (omega arith) q))
      (entries_at-SameBytes k a b (off + 16) hi (omega arith) (λ i p q. same i (omega arith) q))

-- Entries behind the first `j`.
pub entries_at-append :
    (j k : ℕ) (buf : Bytes) (off mid : ℕ)
    → mid ≡ off + 16 * j
    → entries_at (j + k) buf off ≡ entries_at j buf off ++ entries_at k buf mid
unfolding entries_at
entries_at-append zero k buf off mid e =
    let same : mid ≡ off = omega arith in rw (zero-add k) (rw same refl)
entries_at-append (suc j) k buf off mid e =
    rw (suc-add j k)
      (cons_entries refl refl (entries_at-append j k buf (off + 16) mid (omega arith)))

pub grow-NoNull : (size : ℕ) (es : List (ℕ × ℕ)) → NoNull es → NoNull (grow size es)
unfolding grow
grow-NoNull size [] h = tt
grow-NoNull size ((tag, val) ∷ es) (first, h) = elim (Bool-cases (tag == dt_strsz)) [
  | inl found ↦ rw found (first, h)
  | inr other ↦ rw other (first, grow-NoNull size es h)
]
