-- ===== src/Rewrite/MachO/Commands.antt =====
-- The load commands of a Mach-O file as a loader reads them.
use native.Mathlib.Nat.{zero-add, suc-add}
use os_emulation.Base.{
  ℕ, zero, suc, ◌+◌, ◌*◌, ◌≤◌, ◌<◌, ◌≡◌, refl, ap, ap₂, List, [], ◌∷◌, ◌++◌, Bytes, Text, length,
  get_or, arith,
}
use os_emulation.Rewrite.Buffer.{le_at}
use os_emulation.Rewrite.MachO.{lc_load_dylib, dylib_command_header_size}

-- The size that a command at an offset has.
abbrev pub size_at : Bytes → ℕ → ℕ
size_at buf off = le_at 4 buf (off + 4)

-- Where the `k` commands from an offset on end.
unfoldable pub walk : ℕ → Bytes → ℕ → ℕ
walk zero buf off = off
walk (suc k) buf off = walk k buf (off + size_at buf off)

unfoldable pub bytes_at : ℕ → Bytes → ℕ → Bytes
bytes_at zero buf off = []
bytes_at (suc n) buf off = get_or buf off 0 ∷ bytes_at n buf (suc off)

-- The `k` commands from an offset on, each as its bytes.
unfoldable pub commands : ℕ → Bytes → ℕ → List Bytes
unfolding bytes_at
commands zero buf off = []
commands (suc k) buf off =
    bytes_at (size_at buf off) buf off ∷ commands k buf (off + size_at buf off)

-- They fill the bytes up to `end`, and each has room for its tag and size.
abbrev pub Table : ℕ → Bytes → ℕ → ℕ → Type 0
Table zero buf off end = off ≡ end
Table (suc k) buf off end = (8 ≤ size_at buf off) × Table k buf (off + size_at buf off) end

pub Table-le : (k : ℕ) (buf : Bytes) (off end : ℕ) → Table k buf off end → off + 8 * k ≤ end
Table-le zero buf off end t = omega arith
Table-le (suc k) buf off end (big, t) = omega (arith, Table-le k buf (off + size_at buf off) end t)

pub Table-append :
    (j k : ℕ) (buf : Bytes) (off end : ℕ)
    → Table j buf off (walk j buf off)
    → Table k buf (walk j buf off) end
    → Table (j + k) buf off end
unfolding walk
Table-append zero k buf off end s t = rw (zero-add k) t
Table-append (suc j) k buf off end (big, s) t =
    rw (suc-add j k) (big, Table-append j k buf (off + size_at buf off) end s t)

pub Table-split :
    (j k : ℕ) (buf : Bytes) (off end : ℕ)
    → Table (j + k) buf off end
    → Table j buf off (walk j buf off) × Table k buf (walk j buf off) end
unfolding walk
Table-split zero k buf off end t = (refl, rw (zero-add k) at t)
Table-split (suc j) k buf off end t =
    let t' = rw (suc-add j k) at t in
    let (s, r) = Table-split j k buf (off + size_at buf off) end t'.1 in ((t'.0, s), r)

pub Table-walk : (k : ℕ) (buf : Bytes) (off end : ℕ) → Table k buf off end → walk k buf off ≡ end
unfolding walk
Table-walk zero buf off end t = t
Table-walk (suc k) buf off end (big, t) = Table-walk k buf (off + size_at buf off) end t

pub commands-append :
    (j k : ℕ) (buf : Bytes) (off : ℕ)
    → commands (j + k) buf off ≡ commands j buf off ++ commands k buf (walk j buf off)
unfolding commands walk
commands-append zero k buf off = rw (zero-add k) refl
commands-append (suc j) k buf off = rw (suc-add j k) (
    ap (λ (cs : List Bytes). bytes_at (size_at buf off) buf off ∷ cs)
      (commands-append j k buf (off + size_at buf off)))

-- The bytes of `a` from `p` up to `end` stand in `b` from `q` on.
abbrev pub Moved : Bytes → Bytes → ℕ → ℕ → ℕ → Type 0
Moved a b p q end = (i j : ℕ) → p ≤ i → i < end → j + p ≡ i + q → get_or b j 0 ≡ get_or a i 0

pub Moved-later : (a b : Bytes) (p q end s : ℕ) → Moved a b p q end → Moved a b (p + s) (q + s) end
Moved-later a b p q end s m i j lo hi e = m i j (omega arith) hi (omega arith)

pub le_at-Moved :
    (n : ℕ) (a b : Bytes) (p q end o o' : ℕ)
    → Moved a b p q end
    → p ≤ o
    → o + n ≤ end
    → o' + p ≡ o + q
    → le_at n b o' ≡ le_at n a o
unfolding le_at
le_at-Moved zero a b p q end o o' m lo hi e = refl
le_at-Moved (suc n) a b p q end o o' m lo hi e = omega (
  arith,
  m o o' lo (omega arith) e,
  le_at-Moved n a b p q end (suc o) (suc o') m (omega arith) (omega arith) (omega arith),
)

bytes_at-Moved :
    (n : ℕ) (a b : Bytes) (p q end o o' : ℕ)
    → Moved a b p q end
    → p ≤ o
    → o + n ≤ end
    → o' + p ≡ o + q
    → bytes_at n b o' ≡ bytes_at n a o
unfolding bytes_at
bytes_at-Moved zero a b p q end o o' m lo hi e = refl
bytes_at-Moved (suc n) a b p q end o o' m lo hi e =
    ap₂ (λ (x : ℕ) (xs : Bytes). x ∷ xs) (m o o' lo (omega arith) e)
      (bytes_at-Moved n a b p q end (suc o) (suc o') m (omega arith) (omega arith) (omega arith))

-- Commands that were moved whole are the same commands.
pub commands-Moved :
    (k : ℕ) (a b : Bytes) (p q end end' : ℕ)
    → Moved a b p q end
    → Table k a p end
    → end' + p ≡ end + q
    → (commands k b q ≡ commands k a p) × Table k b q end'
unfolding commands
commands-Moved zero a b p q end end' m t e = (refl, omega arith)
commands-Moved (suc k) a b p q end end' m (big, t) e =
    let fits = Table-le k a (p + size_at a p) end t in
    let same : size_at b q ≡ size_at a p =
      le_at-Moved 4 a b p q end (p + 4) (q + 4) m (omega arith) (omega arith) (omega arith) in
    let (cs, t') =
      commands-Moved k a b (p + size_at a p) (q + size_at a p) end end'
        (Moved-later a b p q end (size_at a p) m) t (omega arith) in
    rw same (
      ap₂ (λ (x : Bytes) (xs : List Bytes). x ∷ xs)
          (bytes_at-Moved (size_at a p) a b p q end p q m (omega arith) (omega arith) (omega arith))
          cs,
      (big, t'),
    )

-- The command at an offset loads the library of that path: the fields of a `dylib_command`, the path
-- and zeros up to its end.
pub record LoadsDylib (buf : Bytes) (off new_size : ℕ) (path : Text) : Type 0 where
  pub cmd : le_at 4 buf off ≡ lc_load_dylib
  pub cmdsize : le_at 4 buf (off + 4) ≡ new_size
  pub name_offset : le_at 4 buf (off + 8) ≡ dylib_command_header_size
  pub timestamp : le_at 4 buf (off + 12) ≡ 2
  pub current_version : le_at 4 buf (off + 16) ≡ 0x10000
  pub compatibility_version : le_at 4 buf (off + 20) ≡ 0x10000
  pub name : (i j : ℕ) → i < length path → j ≡ off + 24 + i → get_or buf j 0 ≡ get_or path i 0
  pub zeros : (j : ℕ) → off + 24 + length path ≤ j → j < off + new_size → get_or buf j 0 ≡ 0
