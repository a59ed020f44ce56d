-- ===== src/Page/Types.antt =====
-- The shared types of crates/page/os-page/src/lib.rs, and `AccessWidth::bytes` of its backends.rs.
use os_emulation.Base.{ℕ, ◌%◌, ◌^◌, Option, none, some, Result}
use os_emulation.Base.Words.{u64_mod}

pub record MemorySpec : Type 0 where
  pub page_size_log2 : ℕ
  pub levels : ℕ
  pub physical_address_bits : ℕ

abbrev pub wasm_64k : MemorySpec
wasm_64k = record { page_size_log2 = 16; levels = 2; physical_address_bits = 56 }

-- `1u64 << log2`; the shift count is taken modulo 64, as in a release build.
unfoldable pub shifted_one : ℕ → ℕ
shifted_one log2 = 2 ^ (log2 % 64) % u64_mod

unfoldable pub page_size : MemorySpec → ℕ
unfolding shifted_one
page_size spec = shifted_one spec.page_size_log2

pub data AccessWidth : Type 0 where
  w8 w16 w32 w64 w128 : AccessWidth

pub data GuestFault : Type 0 where
  out_of_bounds permission_denied unmapped : GuestFault

unfoldable pub bytes : AccessWidth → Option ℕ
bytes w8 = some 1
bytes w16 = some 2
bytes w32 = some 4
bytes w64 = some 8
bytes w128 = none

-- `GuestMemory`: the memory is a value, and a write returns the memory that it leaves.
pub record GuestMemory (M : Type 0) : Type 0 where
  pub read : M → ℕ → AccessWidth → Result GuestFault ℕ
  pub write : M → ℕ → AccessWidth → ℕ → Result GuestFault M

-- `PageTable`
pub record PageTable (T : Type 0) : Type 0 where
  pub translate : T → ℕ → Result GuestFault ℕ
