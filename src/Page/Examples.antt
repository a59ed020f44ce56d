-- ===== src/Page/Examples.antt =====
-- Runs of the memories and translations of crates/page/os-page/src/backends.rs.
use os_emulation.Base.{
  ℕ, zero, suc, ◌+◌, ◌-◌, ◌*◌, ◌/◌, ◌%◌, ◌^◌, ◌<◌, ◌≡◌, refl, ok, err, ◌>>=◌, [], ◌∷◌, get_or,
  arith,
}
use os_emulation.Base.Words.{u64_mod}
use os_emulation.Page.Types.{w16, w32, w64, bytes, out_of_bounds, shifted_one}
use os_emulation.Page.OnDemand
use os_emulation.Page.OnDemand.{LegacyOnDemand, byte_at, store_byte, write_bytes_at, wrapping_add}
use os_emulation.Page.OnDemandLaws.{
  HoldsBytes, read-write_self, read-write_apart, read-new, HoldsBytes-write,
}
use os_emulation.Page.Linear
use os_emulation.Page.Linear.{LinearHost}
use os_emulation.Page.LinearLaws.{IsHost}
use os_emulation.Page.LinearAccess.{access_outside}
use os_emulation.Page.Agreement.{Agrees, agreement}
use os_emulation.Page.SharedTable
use os_emulation.Page.SharedTable.{
  SharedPageTable, read_pte, entry_addr, shr_page, shl_page, page_offset,
}
use os_emulation.Page.SharedTableLaws.{translate_by_page}
use os_emulation.Page.SecurityDirectory.{security_directory_unused}

empty-HoldsBytes : HoldsBytes (OnDemand.new).pages
unfolding OnDemand.new byte_at
empty-HoldsBytes a = omega arith

read-write_self_example :
    (OnDemand.write OnDemand.new (2 ^ 64 - 2) w32 0x1_2345_6789 >>= λ m.
    OnDemand.read m (2 ^ 64 - 2) w32)
    ≡ ok (0x1_2345_6789 % 2 ^ (8 * 4))
read-write_self_example =
    read-write_self OnDemand.new (2 ^ 64 - 2) 0x1_2345_6789 4 w32 empty-HoldsBytes
      (unfold bytes in refl)

abbrev a_written : LegacyOnDemand
a_written = record { pages = write_bytes_at (OnDemand.new).pages 65535 2 0xabcd }

read-write_apart_example :
    (OnDemand.read a_written 65537 w16 ≡ OnDemand.read OnDemand.new 65537 w16)
    × HoldsBytes a_written.pages
read-write_apart_example =
    read-write_apart OnDemand.new a_written 65535 65537 0xabcd 2 2 w16 w16 empty-HoldsBytes
      (unfold bytes in refl) (unfold bytes in refl) (λ i j p q. omega arith)
      (unfold OnDemand.write bytes in refl)

read-new_example : OnDemand.read OnDemand.new 12345 w64 ≡ ok 0
read-new_example = read-new 12345 8 w64 (unfold bytes in refl)

abbrev a_host : LinearHost
a_host = record { memory = 1 ∷ 2 ∷ 3 ∷ 4 ∷ 5 ∷ []; base = 4096 }

a_byte : (i : ℕ) → get_or (1 ∷ 2 ∷ 3 ∷ 4 ∷ 5 ∷ []) i 0 < 256
a_byte zero = omega arith
a_byte (suc zero) = omega arith
a_byte (suc (suc zero)) = omega arith
a_byte (suc (suc (suc zero))) = omega arith
a_byte (suc (suc (suc (suc zero)))) = omega arith
a_byte (suc (suc (suc (suc (suc i))))) = omega arith

a_host-IsHost : IsHost a_host
a_host-IsHost = record { fits = omega arith; holds = a_byte }

access_outside_example :
    (Linear.read a_host 4098 w32 ≡ err out_of_bounds)
    × (Linear.write a_host 4098 w32 7 ≡ err out_of_bounds)
access_outside_example =
    access_outside a_host 4098 4 w32 (unfold bytes in refl) 7 (omega arith)
      (λ r. omega (arith, r.1))

abbrev zero_host : LinearHost
zero_host = record { memory = 0 ∷ 0 ∷ 0 ∷ 0 ∷ []; base = 4096 }

zero_byte : (i : ℕ) → ◌≡◌ {A = ℕ} 0 (get_or (0 ∷ 0 ∷ 0 ∷ 0 ∷ []) i 0)
zero_byte zero = refl
zero_byte (suc zero) = refl
zero_byte (suc (suc zero)) = refl
zero_byte (suc (suc (suc zero))) = refl
zero_byte (suc (suc (suc (suc i)))) = refl

zero_host-IsHost : IsHost zero_host
zero_host-IsHost = record { fits = omega arith; holds = λ i. omega (arith, zero_byte i) }

zero_host-Agrees : Agrees zero_host (OnDemand.new).pages
unfolding OnDemand.new byte_at
zero_host-Agrees a h = zero_byte a

agreement_example :
    (Linear.read zero_host 4098 w16 ≡ OnDemand.read OnDemand.new 4098 w16)
    × ((m' : LinearHost) × (od' : LegacyOnDemand) × (Linear.write zero_host 4098 w16 0x1234 ≡ ok m')
        × (OnDemand.write OnDemand.new 4098 w16 0x1234 ≡ ok od')
        × Agrees m' od'.pages)
agreement_example =
    agreement zero_host OnDemand.new 4098 2 0x1234 w16 (unfold bytes in refl) zero_host-IsHost
      empty-HoldsBytes zero_host-Agrees (omega arith)

-- A page table at address 0 that maps page 1 to frame 5.
abbrev table_memory : LegacyOnDemand
table_memory = record { pages = write_bytes_at (OnDemand.new).pages 8 8 (5 * 2 ^ 16) }

abbrev a_table : SharedPageTable
a_table = record {
  mem = OnDemand.read table_memory;
  page_table_vaddr = 0;
  security_dir_vaddr = 4096;
  page_size_log2 = 16;
  levels = 2;
  pte_width_bits = 64;
}

table_memory-HoldsBytes : HoldsBytes table_memory.pages
table_memory-HoldsBytes = HoldsBytes-write (OnDemand.new).pages 8 8 (5 * 2 ^ 16) empty-HoldsBytes

a_table-translates : SharedTable.translate a_table 0x1_0042 ≡ ok 0x5_0042
unfolding SharedTable.translate SharedTable.translate_2level read_pte entry_addr shr_page
    page_offset SharedTable.page_size OnDemand.read bytes OnDemand.read_bytes_at byte_at
    write_bytes_at store_byte OnDemand.page_or_zero OnDemand.new SharedTable.resolve
    SharedTable.physical SharedTable.security_entry SharedTable.shl_page shifted_one
a_table-translates = refl

translate_by_page_example :
    (0x5_0042 % 2 ^ 16 ≡ 0x1_0042 % 2 ^ 16)
    × (SharedTable.translate a_table 0x1_ffff ≡ ok (0x5_0042 / 2 ^ 16 * 2 ^ 16 + 0x1_ffff % 2 ^ 16))
translate_by_page_example =
    translate_by_page a_table 0x1_0042 0x1_ffff 0x5_0042 refl a_table-translates (omega arith)

security_directory_unused_example : SharedTable.translate a_table 0x1_0042 ≡ (
    read_pte a_table (entry_addr a_table 0 (shr_page a_table 0x1_0042)) >>= λ x.
    ok ((shl_page a_table (x / 2 ^ 16) + page_offset a_table 0x1_0042) % u64_mod))
security_directory_unused_example =
    security_directory_unused table_memory a_table 0x1_0042 table_memory-HoldsBytes refl refl refl
