-- ===== src/Emit.antt =====
-- System call tables: crates/emit/os-syscall-emit/src/lib.rs, and the table that maps RV64 Linux to
-- WASI, crates/emit/os-linux-wasi/src/lib.rs.
pub mod Sorting
pub mod LinuxToWasi
pub mod Dispatching
pub mod Transfers
mod Examples
use os_emulation.Base.{ℕ, leb, if◌then◌else◌, Bool, List, [], ◌∷◌, Option}

-- Constants are the bits of an `i32` or an `i64`.
pub data ParamSource : Type 0 where
  local_i64_as_i32 local_i32 const_i32 const_i64 : ℕ → ParamSource

pub record SavePair : Type 0 where
  pub local_idx : ℕ
  pub global_idx : ℕ

pub record MemoryStore : Type 0 where
  pub addr : ℕ
  pub value_local : ℕ
  pub value_is_i64 : Bool

pub record SyscallEntry : Type 0 where
  pub func_idx : ℕ
  pub param_map : List ParamSource
  pub saves : List SavePair
  pub result_local : Option ℕ
  pub negate_nonzero_result : Bool
  pub has_return : Bool
  pub terminates : Bool
  pub memory_stores : List MemoryStore
  pub load_mem_on_success : Option ℕ

abbrev pub Entry : Type 0
Entry = ℕ × SyscallEntry

pub record SyscallTable : Type 0 where
  pub entries : List Entry

-- `sort_unstable_by_key(|(n, _)| *n)`. Where a number occurs twice the library's order is not
-- specified, and here the earlier entry stays first.
unfoldable pub insert_entry : Entry → List Entry → List Entry
insert_entry e [] = e ∷ []
insert_entry e (f ∷ es) = if leb e.0 f.0 then e ∷ f ∷ es else f ∷ insert_entry e es

unfoldable pub sort_entries : List Entry → List Entry
unfolding insert_entry
sort_entries [] = []
sort_entries (e ∷ es) = insert_entry e (sort_entries es)

unfoldable pub new : List Entry → SyscallTable
unfolding sort_entries
new entries = record { entries = sort_entries entries }
