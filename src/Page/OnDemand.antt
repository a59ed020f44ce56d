-- ===== src/Page/OnDemand.antt =====
-- `LegacyOnDemand` of crates/page/os-page/src/backends.rs. The map of pages is a function from page
-- numbers, and a page is a function from offsets below 64 KiB.
use Prim.Native.Nat.{bit_and, bit_or}
use os_emulation.Base.{
  ℕ, zero, suc, ◌+◌, ◌*◌, ◌/◌, ◌%◌, ◌^◌, ◌==◌, if◌then◌else◌, Option, none, some, Result, ok, err,
}
use os_emulation.Base.Words.{u64_mod}
use os_emulation.Page.Types.{AccessWidth, bytes, GuestFault, out_of_bounds, GuestMemory, PageTable}

abbrev pub default_page_size : ℕ
default_page_size = 65536

abbrev pub Page : Type 0
Page = ℕ → ℕ

pub record LegacyOnDemand : Type 0 where
  pub pages : ℕ → Option Page

-- `[0u8; DEFAULT_PAGE_SIZE]`
abbrev pub zero_page : Page
zero_page offset = 0

abbrev pub update {ℓ} : {A : Type ℓ} → (ℕ → A) → ℕ → A → ℕ → A
update f k v j = if k == j then v else f j

unfoldable pub new : LegacyOnDemand
new = record { pages = λ n. none }

-- `addr.wrapping_add(i)`
abbrev pub wrapping_add : ℕ → ℕ → ℕ
wrapping_add a b = (a + b) % u64_mod

-- The byte that `read_bytes_at` finds: zero where no page is mapped.
unfoldable pub byte_at : (ℕ → Option Page) → ℕ → ℕ
byte_at pages a = elim (pages (a / 2 ^ 16)) [ none ↦ 0 | some p ↦ p (bit_and a 0xffff) ]

-- `for i in 0..n`, the last round last. `i` is at most 7, so `<<` loses no bit.
unfoldable pub read_bytes_at : (ℕ → Option Page) → ℕ → ℕ → ℕ
read_bytes_at pages addr zero = 0
read_bytes_at pages addr (suc i) =
    bit_or (read_bytes_at pages addr i) (byte_at pages (wrapping_add addr i) * 2 ^ (8 * i))

-- `entry(page_num).or_insert_with(zero page)`
unfoldable pub page_or_zero : Option Page → Page
page_or_zero none = zero_page
page_or_zero (some p) = p

unfoldable pub store_byte : (ℕ → Option Page) → ℕ → ℕ → ℕ → Option Page
unfolding page_or_zero
store_byte pages a v =
    update pages (a / 2 ^ 16)
      (some (update (page_or_zero (pages (a / 2 ^ 16))) (bit_and a 0xffff) v))

unfoldable pub write_bytes_at : (ℕ → Option Page) → ℕ → ℕ → ℕ → ℕ → Option Page
write_bytes_at pages addr zero value = pages
write_bytes_at pages addr (suc i) value =
    store_byte (write_bytes_at pages addr i value) (wrapping_add addr i)
      (bit_and (value / 2 ^ (8 * i)) 0xff)

-- `get_page`: the page, and the memory in which it is mapped.
unfoldable pub get_page : LegacyOnDemand → ℕ → Page × LegacyOnDemand
unfolding page_or_zero
get_page m n =
    let p = page_or_zero (m.pages n) in (p, record m { pages = update m.pages n (some p) })

unfoldable pub translate : LegacyOnDemand → ℕ → Result GuestFault ℕ
translate m vaddr = ok vaddr

unfoldable pub read : LegacyOnDemand → ℕ → AccessWidth → Result GuestFault ℕ
unfolding bytes
read m addr width = elim (bytes width) [
  | some n ↦ ok (read_bytes_at m.pages addr n)
  | none ↦ err out_of_bounds
]

unfoldable pub write : LegacyOnDemand → ℕ → AccessWidth → ℕ → Result GuestFault LegacyOnDemand
unfolding bytes
write m addr width value = elim (bytes width) [
  | some n ↦ ok (record { pages = write_bytes_at m.pages addr n value })
  | none ↦ err out_of_bounds
]

abbrev pub on_demand_memory : GuestMemory LegacyOnDemand
on_demand_memory = record { read = read; write = write }

abbrev pub on_demand_table : PageTable LegacyOnDemand
on_demand_table = record { translate = translate }
