-- ===== src/Page/Linear.antt =====
-- `LinearHost` of crates/page/os-page/src/backends.rs.
use Prim.Native.Nat.{bit_and, bit_or}
use os_emulation.Base.{
  ℕ, zero, suc, ◌+◌, ◌-◌, ◌*◌, ◌/◌, ◌^◌, ltb, if◌then◌else◌, ◌||◌, Bool, Result, ok, err, ◌>>=◌,
  Option, none, some, length, get_or, set, replicate, Bytes,
}
use os_emulation.Base.Words.{u64_mod}
use os_emulation.Page.Types.{AccessWidth, bytes, GuestFault, out_of_bounds, GuestMemory, PageTable}

pub record LinearHost : Type 0 where
  pub memory : Bytes
  pub base : ℕ

unfoldable pub with_base : ℕ → ℕ → LinearHost
with_base size base = record { memory = replicate size 0; base = base }

unfoldable pub new : ℕ → LinearHost
unfolding with_base
new size = with_base size 0

-- `base.saturating_add(n)` on `usize`
unfoldable pub saturating_add : ℕ → ℕ → ℕ
saturating_add a b = if ltb (a + b) u64_mod then a + b else u64_mod - 1

-- `end > mem.len() || end < base`
unfoldable pub out_of_range : Bytes → ℕ → ℕ → Bool
unfolding saturating_add
out_of_range mem base n = let end = saturating_add base n in ltb (length mem) end || ltb end base

-- The loop of `read_bytes_linear`; `get_or` is only reached in range.
unfoldable pub read_linear_loop : Bytes → ℕ → ℕ → ℕ
read_linear_loop mem base zero = 0
read_linear_loop mem base (suc i) =
    bit_or (read_linear_loop mem base i) (get_or mem (base + i) 0 * 2 ^ (8 * i))

unfoldable pub read_bytes_linear : Bytes → ℕ → ℕ → Result GuestFault ℕ
unfolding out_of_range
read_bytes_linear mem addr n =
    if out_of_range mem addr n then err out_of_bounds else ok (read_linear_loop mem addr n)

unfoldable pub write_linear_loop : Bytes → ℕ → ℕ → ℕ → Bytes
write_linear_loop mem base zero value = mem
write_linear_loop mem base (suc i) value =
    set (write_linear_loop mem base i value) (base + i) (bit_and (value / 2 ^ (8 * i)) 0xff)

unfoldable pub write_bytes_linear : Bytes → ℕ → ℕ → ℕ → Result GuestFault Bytes
unfolding out_of_range
write_bytes_linear mem addr n value =
    if out_of_range mem addr n then err out_of_bounds else ok (write_linear_loop mem addr n value)

-- `addr.checked_sub(self.base)`
unfoldable pub offset : LinearHost → ℕ → Result GuestFault ℕ
offset m addr = if ltb addr m.base then err out_of_bounds else ok (addr - m.base)

unfoldable pub translate : LinearHost → ℕ → Result GuestFault ℕ
unfolding offset
translate m vaddr = offset m vaddr

unfoldable pub read_width : Bytes → ℕ → Option ℕ → Result GuestFault ℕ
read_width mem off (some n) = read_bytes_linear mem off n
read_width mem off none = err out_of_bounds

unfoldable pub read : LinearHost → ℕ → AccessWidth → Result GuestFault ℕ
unfolding offset bytes read_width
read m addr width = do off ← offset m addr; read_width m.memory off (bytes width)

unfoldable pub write_width : Bytes → ℕ → Option ℕ → ℕ → Result GuestFault Bytes
write_width mem off (some n) value = write_bytes_linear mem off n value
write_width mem off none value = err out_of_bounds

unfoldable pub write : LinearHost → ℕ → AccessWidth → ℕ → Result GuestFault LinearHost
unfolding offset bytes write_width
write m addr width value = do
  off ← offset m addr
  mem ← write_width m.memory off (bytes width) value
  ok (record m { memory = mem })

abbrev pub linear_memory : GuestMemory LinearHost
linear_memory = record { read = read; write = write }

abbrev pub linear_table : PageTable LinearHost
linear_table = record { translate = translate }
