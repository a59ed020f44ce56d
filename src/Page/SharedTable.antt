-- ===== src/Page/SharedTable.antt =====
-- `SharedPageTable` of crates/page/os-page/src/backends.rs. The memory that holds the tables is its
-- `read`; `+`, `*` and `<<` wrap, as in a release build.
use Prim.Native.Nat.{bit_and, bit_or}
use os_emulation.Base.{ℕ, ◌+◌, ◌-◌, ◌*◌, ◌/◌, ◌%◌, ◌^◌, ◌==◌, if◌then◌else◌, Result, ok, err, ◌>>=◌}
use os_emulation.Base.Words.{u64_mod}
use os_emulation.Page.Types.{AccessWidth, w32, w64, GuestFault, unmapped, PageTable, shifted_one}
use os_emulation.Page.OnDemand.{wrapping_add}

pub record SharedPageTable : Type 0 where
  pub mem : ℕ → AccessWidth → Result GuestFault ℕ
  pub page_table_vaddr : ℕ
  pub security_dir_vaddr : ℕ
  pub page_size_log2 : ℕ
  pub levels : ℕ
  pub pte_width_bits : ℕ

unfoldable pub new : (ℕ → AccessWidth → Result GuestFault ℕ) → ℕ → ℕ → SharedPageTable
new mem page_table_vaddr security_dir_vaddr = record {
  mem = mem;
  page_table_vaddr = page_table_vaddr;
  security_dir_vaddr = security_dir_vaddr;
  page_size_log2 = 16;
  levels = 2;
  pte_width_bits = 64;
}

unfoldable pub page_size : SharedPageTable → ℕ
unfolding shifted_one
page_size t = shifted_one t.page_size_log2

-- `x << self.page_size_log2` and `x >> self.page_size_log2`
unfoldable pub shl_page : SharedPageTable → ℕ → ℕ
shl_page t x = x * 2 ^ (t.page_size_log2 % 64) % u64_mod

unfoldable pub shr_page : SharedPageTable → ℕ → ℕ
shr_page t x = x / 2 ^ (t.page_size_log2 % 64)

unfoldable pub read_pte : SharedPageTable → ℕ → Result GuestFault ℕ
read_pte t addr = if t.pte_width_bits == 64 then t.mem addr w64 else t.mem addr w32

-- Where the security entry of index `sec_idx` is read.
unfoldable pub security_entry : SharedPageTable → ℕ → Result GuestFault ℕ
security_entry t sec_idx = t.mem (wrapping_add t.security_dir_vaddr (sec_idx * 4)) w32

-- `(top << shift) | low`, then the page's base and the offset.
unfoldable pub physical : SharedPageTable → ℕ → ℕ → ℕ → ℕ → ℕ
unfolding shl_page
physical t top shift low page_offset =
    (shl_page t (bit_or (top * 2 ^ shift % u64_mod) low) + page_offset) % u64_mod

-- The end of both walks: from a page pointer to the physical address.
unfoldable pub resolve : SharedPageTable → ℕ → ℕ → Result GuestFault ℕ
resolve t page_pointer page_offset =
    if t.pte_width_bits == 64
    then (do
      sec_entry ← security_entry t (bit_and page_pointer 0xffff)
      ok (physical t (sec_entry / 2 ^ 48) 48 (page_pointer / 2 ^ 16) page_offset))
    else (do
      sec_entry ← security_entry t (bit_and page_pointer 0xff)
      ok (physical t (sec_entry / 2 ^ 24) 24 (page_pointer / 2 ^ 8) page_offset))

unfoldable pub page_offset : SharedPageTable → ℕ → ℕ
unfolding page_size
page_offset t vaddr = bit_and vaddr (page_size t - 1)

-- `base.wrapping_add(index * entry_size)`
unfoldable pub entry_addr : SharedPageTable → ℕ → ℕ → ℕ
entry_addr t base index = wrapping_add base (index * (t.pte_width_bits / 8) % u64_mod)

unfoldable pub translate_2level : SharedPageTable → ℕ → Result GuestFault ℕ
translate_2level t vaddr = do
  page_pointer ← read_pte t (entry_addr t t.page_table_vaddr (shr_page t vaddr))
  resolve t page_pointer (page_offset t vaddr)

-- `(vaddr >> shift) & 0xFFFF`
unfoldable pub index_at : ℕ → ℕ → ℕ
index_at vaddr shift = bit_and (vaddr / 2 ^ shift) 0xffff

unfoldable pub translate_3level : SharedPageTable → ℕ → Result GuestFault ℕ
translate_3level t vaddr = do
  l2_table_vaddr ← read_pte t (entry_addr t t.page_table_vaddr (index_at vaddr 48))
  l1_table_vaddr ← read_pte t (entry_addr t l2_table_vaddr (index_at vaddr 32))
  page_pointer ← read_pte t (entry_addr t l1_table_vaddr (index_at vaddr 16))
  resolve t page_pointer (page_offset t vaddr)

unfoldable pub translate : SharedPageTable → ℕ → Result GuestFault ℕ
translate t vaddr =
    if t.levels == 2
    then translate_2level t vaddr
    else if t.levels == 3
    then translate_3level t vaddr
    else err unmapped

abbrev pub shared_table : PageTable SharedPageTable
shared_table = record { translate = translate }
