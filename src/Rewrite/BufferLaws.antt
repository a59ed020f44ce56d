-- ===== src/Rewrite/BufferLaws.antt =====
-- What the reads and writes of Buffer do to each byte of a file.
use os_emulation.Base.{
  ℕ, zero, suc, ◌+◌, ◌/◌, ◌%◌, ◌^◌, ◌≤◌, ◌<◌, ◌≡◌, ◌⊎◌, inl, inr, refl, ◌∙◌, Result, ok, [], ◌∷◌,
  Bytes, IsByte, All, length, get_or, length-set, get_or-set_self, get_or-set_ne, arith,
}
use os_emulation.Base.Words.{u64_mod}
use native.Mathlib.Nat.{pow-suc}
use os_emulation.Rewrite.Buffer.{Fault, le_at, read_le, to_le, overwrite, copy_from_slice, write_le}

-- A `Vec<u8>` has `isize::MAX` bytes at most.
pub record IsFile (buf : Bytes) : Type 0 where
  pub fits : length buf < 2 ^ 63
  pub holds : (i : ℕ) → get_or buf i 0 < 256

pub length-overwrite :
    (buf : Bytes) (off : ℕ) (bs : Bytes) → length (overwrite buf off bs) ≡ length buf
unfolding overwrite
length-overwrite buf off [] = refl
length-overwrite buf off (b ∷ bs) =
    length-set (overwrite buf (suc off) bs) off b ∙ length-overwrite buf (suc off) bs

pub overwrite_outside :
    (buf : Bytes) (off : ℕ) (bs : Bytes) (i : ℕ)
    → (i < off) ⊎ (off + length bs ≤ i)
    → get_or (overwrite buf off bs) i 0 ≡ get_or buf i 0
unfolding overwrite
overwrite_outside buf off [] i h = refl
overwrite_outside buf off (b ∷ bs) i (inl h) =
    get_or-set_ne (overwrite buf (suc off) bs) off i b 0 (omega arith)
    ∙ overwrite_outside buf (suc off) bs i (inl (omega arith))
overwrite_outside buf off (b ∷ bs) i (inr h) =
    get_or-set_ne (overwrite buf (suc off) bs) off i b 0 (omega arith)
    ∙ overwrite_outside buf (suc off) bs i (inr (omega arith))

pub overwrite_inside :
    (buf : Bytes) (off : ℕ) (bs : Bytes) (j i : ℕ)
    → j ≡ off + i
    → off + length bs ≤ length buf
    → i < length bs
    → get_or (overwrite buf off bs) j 0 ≡ get_or bs i 0
unfolding overwrite
overwrite_inside buf off [] j i e h k = absurd (omega arith)
overwrite_inside buf off (b ∷ bs) j zero e h k =
    let same : j ≡ off = omega arith in
    rw same (
      get_or-set_self (overwrite buf (suc off) bs) off b 0
        (omega (arith, length-overwrite buf (suc off) bs)))
overwrite_inside buf off (b ∷ bs) j (suc i) e h k =
    get_or-set_ne (overwrite buf (suc off) bs) off j b 0 (omega arith)
    ∙ overwrite_inside buf (suc off) bs j i (omega arith) (omega arith) (omega arith)

-- Two files have the same bytes from `lo` up to `hi`.
abbrev pub SameBytes : Bytes → Bytes → ℕ → ℕ → Type 0
SameBytes a b lo hi = (i : ℕ) → lo ≤ i → i < hi → get_or a i 0 ≡ get_or b i 0

pub le_at-SameBytes :
    (n : ℕ) (a b : Bytes) (o hi : ℕ) → o + n ≤ hi → SameBytes a b o hi → le_at n a o ≡ le_at n b o
unfolding le_at
le_at-SameBytes zero a b o hi k h = refl
le_at-SameBytes (suc n) a b o hi k h = omega (
  arith,
  h o (omega arith) (omega arith),
  le_at-SameBytes n a b (suc o) hi (omega arith) (λ i p q. h i (omega arith) q),
)

le_at-overwrite :
    (n : ℕ) (buf : Bytes) (off : ℕ) (bs : Bytes) (j k : ℕ)
    → j ≡ off + k
    → off + length bs ≤ length buf
    → k + n ≤ length bs
    → le_at n (overwrite buf off bs) j ≡ le_at n bs k
unfolding le_at
le_at-overwrite zero buf off bs j k e h l = refl
le_at-overwrite (suc n) buf off bs j k e h l = omega (
  arith,
  overwrite_inside buf off bs j k e h (omega arith),
  le_at-overwrite n buf off bs (suc j) (suc k) (omega arith) h (omega arith),
)

le_at-shift : (n : ℕ) (b : ℕ) (bs : Bytes) (off : ℕ) → le_at n (b ∷ bs) (suc off) ≡ le_at n bs off
unfolding le_at
le_at-shift zero b bs off = refl
le_at-shift (suc n) b bs off = omega (arith, le_at-shift n b bs (suc off))

pub le_at-to_le : (n v : ℕ) → v < 256 ^ n → le_at n (to_le n v) 0 ≡ v
unfolding le_at to_le
le_at-to_le zero v h = omega arith
le_at-to_le (suc n) v h = omega (
  arith,
  le_at-shift n (v % 256) (to_le n (v / 256)) 0,
  le_at-to_le n (v / 256) (omega (arith, pow-suc 256 n)),
)

pub length-to_le : (n v : ℕ) → length (to_le n v) ≡ n
unfolding to_le
length-to_le zero v = refl
length-to_le (suc n) v = omega (arith, length-to_le n (v / 256))

-- A read succeeds exactly inside the file.
pub read_le-inside :
    {E : Type 0} (e : E) (n : ℕ) (buf : Bytes) (off : ℕ)
    → length buf < 2 ^ 63
    → off + n ≤ length buf
    → read_le e n buf off ≡ ok (le_at n buf off)
unfolding read_le
read_le-inside e n buf off h k = ground arith

pub read_le-ok :
    {E : Type 0} (e : E) (n : ℕ) (buf : Bytes) (off v : ℕ)
    → n ≤ 8
    → off < u64_mod
    → length buf < 2 ^ 63
    → read_le e n buf off ≡ ok v
    → (off + n ≤ length buf) × (v ≡ le_at n buf off)
unfolding read_le
read_le-ok e n buf off v k l h r = ground arith

pub write_le-inside :
    {E : Type 0} (n : ℕ) (buf : Bytes) (off v : ℕ)
    → length buf < 2 ^ 63
    → off + n ≤ length buf
    → ◌≡◌ {A = Result (Fault E) Bytes} (write_le n buf off v) (ok (overwrite buf off (to_le n v)))
unfolding write_le copy_from_slice
write_le-inside n buf off v h k = ground (arith, length-to_le n v)

pub overwrite-to_le_self :
    (n : ℕ) (buf : Bytes) (off v : ℕ)
    → off + n ≤ length buf
    → v < 256 ^ n
    → le_at n (overwrite buf off (to_le n v)) off ≡ v
overwrite-to_le_self n buf off v h k =
    le_at-overwrite n buf off (to_le n v) off 0 (omega arith) (omega (arith, length-to_le n v))
      (omega (arith, length-to_le n v))
    ∙ le_at-to_le n v k

pub le_at-lt :
    (n : ℕ) (buf : Bytes) (off : ℕ) → ((i : ℕ) → get_or buf i 0 < 256) → le_at n buf off < 256 ^ n
unfolding le_at
le_at-lt zero buf off h = omega arith
le_at-lt (suc n) buf off h = omega (arith, pow-suc 256 n, h off, le_at-lt n buf (suc off) h)

-- A number that was read fits its bytes.
pub read_le-lt :
    {E : Type 0} (e : E) (n : ℕ) (buf : Bytes) (off v : ℕ)
    → IsFile buf
    → read_le e n buf off ≡ ok v
    → v < 256 ^ n
unfolding read_le
read_le-lt e n buf off v f r = ground (arith, le_at-lt n buf off f.holds)

-- A list of bytes is a file.
pub All-IsFile : (buf : Bytes) → length buf < 2 ^ 63 → All IsByte buf → IsFile buf
All-IsFile buf fits h = record { fits = fits; holds = byte buf h }
  where
    byte : (xs : Bytes) → All IsByte xs → (i : ℕ) → get_or xs i 0 < 256
    byte [] h i = omega arith
    byte (x ∷ xs) (hx, h) zero = hx
    byte (x ∷ xs) (hx, h) (suc i) = byte xs h i
