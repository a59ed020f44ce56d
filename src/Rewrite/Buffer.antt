-- ===== src/Rewrite/Buffer.antt =====
-- Reads and writes of little-endian numbers in a file, as os-rewrite-elf and os-rewrite-macho make
-- them: a read out of bounds is an error, a write out of bounds a panic. `usize` has 64 bits.
use os_emulation.Base.{
  ℕ, zero, suc, ◌+◌, ◌*◌, ◌/◌, ◌%◌, Bool, true, ◌&&◌, Result, ok, err, [], ◌∷◌, Bytes, length,
  get_or, set, leb, ◌==◌, if◌then◌else◌,
}
use os_emulation.Base.Words.{u64_mod}

-- Why a rewriter gives no file. `out_of_fuel` is no behaviour of the program.
pub data Fault (E : Type 0) : Type 0 where
  refused : E → Fault E
  panicked : Fault E
  out_of_fuel : Fault E

-- The slice `start..end` of a buffer exists.
abbrev pub is_slice : Bytes → ℕ → ℕ → Bool
is_slice buf start end = leb start end && leb end (length buf)

-- The number whose bytes stand at an offset, lowest first.
unfoldable pub le_at : ℕ → Bytes → ℕ → ℕ
le_at zero buf off = 0
le_at (suc n) buf off = get_or buf off 0 + 256 * le_at n buf (suc off)

-- `buf.get(off..off + n)`, then `from_le_bytes`, or the error.
unfoldable pub read_le : {E : Type 0} → E → ℕ → Bytes → ℕ → Result (Fault E) ℕ
unfolding le_at
read_le truncated n buf off =
    if is_slice buf off ((off + n) % u64_mod) then ok (le_at n buf off) else err (refused truncated)

-- `v.to_le_bytes()` of an integer of `n` bytes.
unfoldable pub to_le : ℕ → ℕ → Bytes
to_le zero v = []
to_le (suc n) v = (v % 256) ∷ to_le n (v / 256)

-- The bytes from an offset on are replaced.
unfoldable pub overwrite : Bytes → ℕ → Bytes → Bytes
overwrite buf off [] = buf
overwrite buf off (b ∷ bs) = set (overwrite buf (suc off) bs) off b

-- `buf[start..end].copy_from_slice(bytes)`
unfoldable pub copy_from_slice : {E : Type 0} → Bytes → ℕ → ℕ → Bytes → Result (Fault E) Bytes
unfolding overwrite
copy_from_slice buf start end bytes =
    if is_slice buf start end && start + length bytes == end
    then ok (overwrite buf start bytes)
    else err panicked

-- `buf[off..off + n].copy_from_slice(&v.to_le_bytes())`
unfoldable pub write_le : {E : Type 0} → ℕ → Bytes → ℕ → ℕ → Result (Fault E) Bytes
unfolding copy_from_slice to_le
write_le n buf off v = copy_from_slice buf off ((off + n) % u64_mod) (to_le n v)

-- `buf[start..end].iter().any(|&b| b != 0)`, for the `n` bytes from `start` on.
unfoldable pub all_zero : ℕ → Bytes → ℕ → Bool
all_zero zero buf start = true
all_zero (suc n) buf start = get_or buf start 0 == 0 && all_zero n buf (suc start)
