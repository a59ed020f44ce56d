-- ===== src/Page/Agreement.antt =====
-- `LinearHost` and `LegacyOnDemand` agree on the range that the host holds.
use os_emulation.Base.{
  ℕ, ◌+◌, ◌-◌, ◌^◌, ◌≤◌, ◌<◌, ◌≡◌, ◌≢◌, ap, sym, ◌∙◌, subst, Option, some, ok, length, get_or,
  arith,
}
use native.Mathlib.Decide.{dec_lt}
use os_emulation.Page.Types.{AccessWidth, bytes}
use os_emulation.Page.Words.{le_word-ext}
use os_emulation.Page.OnDemand
use os_emulation.Page.OnDemand.{LegacyOnDemand, byte_at, wrapping_add, write_bytes_at}
use os_emulation.Page.OnDemandLaws.{
  bytes_le, HoldsBytes, read_lem, write_lem, read_bytes_at-le_word, byte_at-write_bytes_at,
  byte_at-write_other,
}
use os_emulation.Page.LinearLaws.{
  IsHost, InRange, read_linear_loop-le_word, written_byte, other_byte, length-write_linear_loop,
}
use os_emulation.Page.Linear.{LinearHost, write_linear_loop, read, write}
use os_emulation.Page.LinearAccess.{read-InRange, write-InRange}

-- `LegacyOnDemand` holds at the guest addresses of the host what the host holds.
abbrev pub Agrees : LinearHost → (ℕ → Option OnDemand.Page) → Type 0
Agrees m pages =
    (a : ℕ) → a < length m.memory → byte_at pages (wrapping_add m.base a) ≡ get_or m.memory a 0

host_address :
    (m : LinearHost) (addr n i : ℕ)
    → InRange m addr n
    → wrapping_add addr i ≡ wrapping_add m.base (addr - m.base + i)
host_address m addr n i r = ground arith

agree_read :
    (m : LinearHost) (pages : ℕ → Option OnDemand.Page) (addr n : ℕ)
    → Agrees m pages
    → InRange m addr n
    → (i : ℕ) → i < n
    → byte_at pages (wrapping_add addr i) ≡ get_or m.memory (addr - m.base + i) 0
agree_read m pages addr n h r i p =
    ap (byte_at pages) (host_address m addr n i r) ∙ h (addr - m.base + i) (omega arith)

module _ (m : LinearHost) (pages : ℕ → Option OnDemand.Page) (addr n value : ℕ) (small : n ≤ 8)
    (fits : length m.memory < 2 ^ 63) (r : InRange m addr n) where
  agree_inside :
      (i : ℕ)
      → i < n
      → byte_at (write_bytes_at pages addr n value) (wrapping_add m.base (addr - m.base + i))
        ≡ get_or (write_linear_loop m.memory (addr - m.base) n value) (addr - m.base + i) 0
  agree_inside i p =
      ap (byte_at (write_bytes_at pages addr n value)) (sym (host_address m addr n i r))
      ∙ byte_at-write_bytes_at pages addr n value i small p
      ∙ sym (written_byte m.memory (addr - m.base) n value i (omega arith) p)

  agree_outside :
      (a : ℕ)
      → Agrees m pages
      → a < length m.memory
      → ((i : ℕ) → i < n → addr - m.base + i ≢ a)
      → byte_at (write_bytes_at pages addr n value) (wrapping_add m.base a)
        ≡ get_or (write_linear_loop m.memory (addr - m.base) n value) a 0
  agree_outside a h p away =
      byte_at-write_other pages addr n value (wrapping_add m.base a)
        (λ i q. apart (addr - m.base + i) a (away i q) (omega arith) p (host_address m addr n i r))
      ∙ h a p
      ∙ sym (other_byte m.memory (addr - m.base) n value a away)
    where
      apart :
          (x y : ℕ)
          → x ≢ y
          → x < length m.memory
          → y < length m.memory
          → {z : ℕ} → z ≡ wrapping_add m.base x
          → z ≢ wrapping_add m.base y
      apart x y ne hx hy e f = omega arith

  agree_write :
      Agrees m pages
      → Agrees
          (record m { memory = write_linear_loop m.memory (addr - m.base) n value })
          (write_bytes_at pages addr n value)
  agree_write h a p =
      let q : a < length m.memory =
        omega (arith, length-write_linear_loop m.memory (addr - m.base) n value) in
      elim (dec_lt a (addr - m.base)) [
        | yes below ↦ agree_outside a h q (λ i k. omega arith)
        | no above ↦ elim (dec_lt a (addr - m.base + n)) [
          | no past ↦ agree_outside a h q (λ i k. omega arith)
          | yes inside ↦
              let e : addr - m.base + (a - (addr - m.base)) ≡ a = omega arith in
              subst
                (λ (x : ℕ).
                  byte_at (write_bytes_at pages addr n value) (wrapping_add m.base x)
                  ≡ get_or (write_linear_loop m.memory (addr - m.base) n value) x 0)
                e (agree_inside (a - (addr - m.base)) (omega arith))
        ]
      ]

-- Where both hold the same bytes, an access of at most 8 bytes that is in range reads the same
-- through either memory, and after the same write they hold the same bytes again. The host memory
-- is one of bytes and shorter than 2^63, and every cell of the other memory holds a byte.
pub agreement :
    (m : LinearHost) (od : LegacyOnDemand) (addr n value : ℕ) (width : AccessWidth)
    → bytes width ≡ some n
    → IsHost m
    → HoldsBytes od.pages
    → Agrees m od.pages
    → InRange m addr n
    → (read m addr width ≡ OnDemand.read od addr width)
      × ((m' : LinearHost) × (od' : LegacyOnDemand) × (write m addr width value ≡ ok m')
          × (OnDemand.write od addr width value ≡ ok od')
          × Agrees m' od'.pages)
agreement m od addr n value width e host holds agrees r = (
  read-InRange m addr n width e host.fits r
      ∙ ap ok (
          read_linear_loop-le_word m.memory (addr - m.base) n (bytes_le width n e) host.holds
          ∙ le_word-ext _ _ n (λ i p. sym (agree_read m od.pages addr n agrees r i p))
          ∙ sym (read_bytes_at-le_word od.pages addr n (bytes_le width n e) holds))
      ∙ sym (read_lem od addr n width e),
  (
    record m { memory = write_linear_loop m.memory (addr - m.base) n value },
    record { pages = write_bytes_at od.pages addr n value },
    write-InRange m addr n width e value host.fits r,
    write_lem od addr n value width e,
    agree_write m od.pages addr n value (bytes_le width n e) host.fits r agrees,
  ),
)
