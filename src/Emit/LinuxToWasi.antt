-- ===== src/Emit/LinuxToWasi.antt =====
-- `LinuxToWasi` of crates/emit/os-linux-wasi/src/lib.rs: the table, and what its entries say.
use os_emulation.Base.{ℕ, ◌+◌, ◌%◌, true, false, List, [], ◌∷◌, none, some}
use os_emulation.Base.Words.{u32_mod}
use os_emulation.Emit.{local_i64_as_i32, const_i32, SyscallEntry, Entry, SyscallTable, new}

pub record WasiImports : Type 0 where
  pub fd_write : ℕ
  pub fd_read : ℕ
  pub fd_close : ℕ
  pub proc_exit : ℕ

pub record Builder : Type 0 where
  pub imports : WasiImports
  pub iovec_scratch_offset : ℕ

abbrev pub iovec_scratch_offset : ℕ
iovec_scratch_offset = 0x200

abbrev pub builder : WasiImports → Builder
builder imports = record { imports = imports; iovec_scratch_offset = iovec_scratch_offset }

-- `u32` addition, as in a release build
abbrev pub add_u32 : ℕ → ℕ → ℕ
add_u32 a b = (a + b) % u32_mod

-- The entry of a transfer: `read` with `fd_read`, `write` with `fd_write`.
abbrev pub transfer_entry : Builder → ℕ → ℕ → ℕ → ℕ → SyscallEntry
transfer_entry b func_idx a0 a1 a2 = record {
  func_idx = func_idx;
  param_map =
      local_i64_as_i32 a0
      ∷ const_i32 b.iovec_scratch_offset
      ∷ const_i32 1
      ∷ const_i32 (add_u32 b.iovec_scratch_offset 8)
      ∷ [];
  saves = [];
  result_local = some a0;
  negate_nonzero_result = true;
  has_return = true;
  terminates = false;
  memory_stores =
      record { addr = b.iovec_scratch_offset; value_local = a1; value_is_i64 = true }
      ∷ record { addr = add_u32 b.iovec_scratch_offset 4; value_local = a2; value_is_i64 = true }
      ∷ [];
  load_mem_on_success = some (add_u32 b.iovec_scratch_offset 8);
}

abbrev pub close_entry : Builder → ℕ → SyscallEntry
close_entry b a0 = record {
  func_idx = b.imports.fd_close;
  param_map = local_i64_as_i32 a0 ∷ [];
  saves = [];
  result_local = some a0;
  negate_nonzero_result = true;
  has_return = true;
  terminates = false;
  memory_stores = [];
  load_mem_on_success = none;
}

abbrev pub exit_entry : Builder → ℕ → SyscallEntry
exit_entry b a0 = record {
  func_idx = b.imports.proc_exit;
  param_map = local_i64_as_i32 a0 ∷ [];
  saves = [];
  result_local = none;
  negate_nonzero_result = false;
  has_return = false;
  terminates = true;
  memory_stores = [];
  load_mem_on_success = none;
}

-- The entries in the order in which `build_table` pushes them.
unfoldable pub pushed_entries : Builder → (ℕ → ℕ) → List Entry
pushed_entries b xn_local =
    (63, transfer_entry b b.imports.fd_read (xn_local 10) (xn_local 11) (xn_local 12))
    ∷ (64, transfer_entry b b.imports.fd_write (xn_local 10) (xn_local 11) (xn_local 12))
    ∷ (57, close_entry b (xn_local 10))
    ∷ (93, exit_entry b (xn_local 10))
    ∷ (94, exit_entry b (xn_local 10))
    ∷ []

unfoldable pub build_table : Builder → (ℕ → ℕ) → SyscallTable
unfolding pushed_entries
build_table b xn_local = new (pushed_entries b xn_local)
