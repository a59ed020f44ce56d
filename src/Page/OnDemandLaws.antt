-- ===== src/Page/OnDemandLaws.antt =====
-- `LegacyOnDemand` is a byte-addressed memory: a write changes the bytes that it names and no others,
-- and a read is the little-endian word of the bytes at its addresses.
use Prim.Native.Nat.{bit_and}
use os_emulation.Base.{
  ℕ, zero, suc, ◌*◌, ◌/◌, ◌%◌, ◌^◌, ◌≤◌, ◌<◌, ◌≡◌, ◌≢◌, refl, ap, sym, ◌∙◌, subst, ◌>>=◌, ◌==◌,
  eq_refl, ne→==, if◌then◌else◌, Option, none, some, ok, arith,
}
use native.Mathlib.Nat.{zero-mul}
use native.Mathlib.Decide.{ℕ_discrete}
use os_emulation.Base.Words.{byte_of}
use os_emulation.Base.Bits.{bit_and-mask}
use os_emulation.Page.Types.{AccessWidth, w8, bytes}
use os_emulation.Page.Words.{low_byte, le_word, le_word-bytes, or_byte}
use os_emulation.Page.OnDemand.{
  Page, LegacyOnDemand, new, byte_at, store_byte, read_bytes_at, write_bytes_at, wrapping_add, read,
  write,
}

abbrev pub Pages : Type 0
Pages = ℕ → Option Page

pub byte_at-store_byte :
    (pages : Pages) (a v b : ℕ)
    → byte_at (store_byte pages a v) b ≡ (if a == b then v else byte_at pages b)
unfolding byte_at store_byte
byte_at-store_byte pages a v b = ground (arith, bit_and-mask 16 a, bit_and-mask 16 b)

-- Every byte of the memory is a byte.
abbrev pub HoldsBytes : Pages → Type 0
HoldsBytes pages = (a : ℕ) → byte_at pages a < 256

pub read_bytes_at-le_word :
    (pages : Pages) (addr n : ℕ)
    → n ≤ 8
    → HoldsBytes pages
    → read_bytes_at pages addr n ≡ le_word (λ i. byte_at pages (wrapping_add addr i)) n
unfolding read_bytes_at
read_bytes_at-le_word pages addr zero h k = unfold le_word in refl
read_bytes_at-le_word pages addr (suc n) h k =
    rw (read_bytes_at-le_word pages addr n (omega arith) k)
      (or_byte (λ i. byte_at pages (wrapping_add addr i)) n h (λ i p. k (wrapping_add addr i)))

-- Addresses less than eight apart do not meet modulo 2^64.
pub wrapping_add-ne :
    (addr i j : ℕ) → i ≢ j → i < 8 → j < 8 → wrapping_add addr i ≢ wrapping_add addr j
wrapping_add-ne addr i j h k l = omega arith

pub byte_at-write_other :
    (pages : Pages) (addr n value b : ℕ)
    → ((i : ℕ) → i < n → wrapping_add addr i ≢ b)
    → byte_at (write_bytes_at pages addr n value) b ≡ byte_at pages b
unfolding write_bytes_at
byte_at-write_other pages addr zero value b h = refl
byte_at-write_other pages addr (suc n) value b h =
    byte_at-store_byte (write_bytes_at pages addr n value) (wrapping_add addr n) _ b
    ∙ rw (ne→== (wrapping_add addr n) b (h n (omega arith)))
        (byte_at-write_other pages addr n value b (λ i p. h i (omega arith)))

pub byte_at-write_bytes_at :
    (pages : Pages) (addr n value i : ℕ)
    → n ≤ 8
    → i < n
    → byte_at (write_bytes_at pages addr n value) (wrapping_add addr i) ≡ byte_of value i
unfolding write_bytes_at
byte_at-write_bytes_at pages addr zero value i h k = absurd (omega arith)
byte_at-write_bytes_at pages addr (suc n) value i h k =
    byte_at-store_byte (write_bytes_at pages addr n value) (wrapping_add addr n) _
      (wrapping_add addr i)
    ∙ (elim (ℕ_discrete n i) [
      | yes e ↦ rw (e, eq_refl (wrapping_add addr i)) (low_byte value i)
      | no e ↦
          rw
            (ne→== (wrapping_add addr n) (wrapping_add addr i)
              (wrapping_add-ne addr n i e (omega arith) (omega arith)))
            (byte_at-write_bytes_at pages addr n value i (omega arith) (omega arith))
    ])

pub HoldsBytes-write :
    (pages : Pages) (addr n value : ℕ)
    → HoldsBytes pages
    → HoldsBytes (write_bytes_at pages addr n value)
unfolding write_bytes_at
HoldsBytes-write pages addr zero value h b = h b
HoldsBytes-write pages addr (suc n) value h b = ground (
  arith,
  byte_at-store_byte (write_bytes_at pages addr n value) (wrapping_add addr n)
      (bit_and (value / 2 ^ (8 * n)) 0xff) b,
  low_byte value n,
  HoldsBytes-write pages addr n value h b,
)

written_word :
    (pages : Pages) (addr n value : ℕ)
    → n ≤ 8
    → HoldsBytes pages
    → read_bytes_at (write_bytes_at pages addr n value) addr n ≡ value % 2 ^ (8 * n)
written_word pages addr n value h k =
    read_bytes_at-le_word (write_bytes_at pages addr n value) addr n h
      (HoldsBytes-write pages addr n value k)
    ∙ le_word-bytes _ value n h (λ i p. byte_at-write_bytes_at pages addr n value i h p)

-- Two accesses that share no byte, also where one wraps around the address space.
abbrev pub IsApart : ℕ → ℕ → ℕ → ℕ → Type 0
IsApart a n b m = (i j : ℕ) → i < n → j < m → wrapping_add a i ≢ wrapping_add b j

read_bytes_at-ext :
    (p q : Pages) (addr n : ℕ)
    → ((i : ℕ) → i < n → byte_at p (wrapping_add addr i) ≡ byte_at q (wrapping_add addr i))
    → read_bytes_at p addr n ≡ read_bytes_at q addr n
unfolding read_bytes_at
read_bytes_at-ext p q addr zero h = refl
read_bytes_at-ext p q addr (suc n) h =
    rw (read_bytes_at-ext p q addr n (λ i k. h i (omega arith)), h n (omega arith))

pub bytes_le : (width : AccessWidth) (n : ℕ) → bytes width ≡ some n → n ≤ 8
unfolding bytes
bytes_le w8 n e = ground arith
bytes_le width n e = ground arith

pub read_lem :
    (m : LegacyOnDemand) (addr n : ℕ) (width : AccessWidth)
    → bytes width ≡ some n
    → read m addr width ≡ ok (read_bytes_at m.pages addr n)
unfolding read
read_lem m addr n width e = rw (e, read)

pub write_lem :
    (m : LegacyOnDemand) (addr n value : ℕ) (width : AccessWidth)
    → bytes width ≡ some n
    → write m addr width value ≡ ok (record { pages = write_bytes_at m.pages addr n value })
unfolding write
write_lem m addr n value width e = rw (e, write)

written_pages :
    (m m' : LegacyOnDemand) (addr n value : ℕ) (width : AccessWidth)
    → bytes width ≡ some n
    → write m addr width value ≡ ok m'
    → m'.pages ≡ write_bytes_at m.pages addr n value
written_pages m m' addr n value width e w = cc (write_lem m addr n value width e)

-- Where every cell holds a byte, reading at once what was written gives the value, cut to the
-- width, for each width of at most 8 bytes and each address, also where the access wraps around the
-- address space.
pub read-write_self :
    (m : LegacyOnDemand) (addr value n : ℕ) (width : AccessWidth)
    → HoldsBytes m.pages
    → bytes width ≡ some n
    → (write m addr width value >>= λ m'. read m' addr width) ≡ ok (value % 2 ^ (8 * n))
read-write_self m addr value n width h e =
    rw (write_lem m addr n value width e)
      (read_lem _ addr n width e ∙ ap ok (written_word m.pages addr n value (bytes_le width n e) h))

-- Where every cell holds a byte, a write of at most 8 bytes leaves alone what an access of at most
-- 8 bytes reads from other cells, and every cell still holds a byte.
pub read-write_apart :
    (m m' : LegacyOnDemand) (addr b value n k : ℕ) (width other : AccessWidth)
    → HoldsBytes m.pages
    → bytes width ≡ some n
    → bytes other ≡ some k
    → IsApart addr n b k
    → write m addr width value ≡ ok m'
    → (read m' b other ≡ read m b other) × HoldsBytes m'.pages
read-write_apart m m' addr b value n k width other h e f apart w =
    let q = written_pages m m' addr n value width e w in
    (
      read_lem m' b k other f
          ∙ ap ok (
              rw q (
                read_bytes_at-ext (write_bytes_at m.pages addr n value) m.pages b k (λ j l.
                  byte_at-write_other m.pages addr n value (wrapping_add b j)
                    (λ i p. apart i j p l))))
          ∙ sym (read_lem m b k other f),
      subst HoldsBytes (sym q) (HoldsBytes-write m.pages addr n value h),
    )

read_empty : (addr n : ℕ) → read_bytes_at (λ k. none) addr n ≡ 0
unfolding read_bytes_at byte_at
read_empty addr zero = refl
read_empty addr (suc n) = rw (read_empty addr n, zero-mul (2 ^ (8 * n)))

-- A fresh memory reads as zero everywhere, in every width that a `u64` holds.
pub read-new :
    (addr n : ℕ) (width : AccessWidth) → bytes width ≡ some n → read new addr width ≡ ok 0
unfolding new
read-new addr n width e = read_lem new addr n width e ∙ ap ok (read_empty addr n)
