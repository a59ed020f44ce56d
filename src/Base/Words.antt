-- ===== src/Base/Words.antt =====
-- Machine words: `u32::to_le_bytes` and `u32::from_le_bytes`.
use Prim.Native.Nat.{ℕ, ◌+◌, ◌*◌, ◌/◌, ◌%◌, ◌^◌, ◌<◌}
use mathlib.Core.Path.{◌≡◌}
use mathlib.Core.List.{[], ◌∷◌}
use native.Mathlib.Omega.{arith}
use os_emulation.Base.Lists.{All}
use os_emulation.Base.Strings.{Bytes, IsByte}

abbrev pub u32_mod : ℕ
u32_mod = 2 ^ 32

abbrev pub u64_mod : ℕ
u64_mod = 2 ^ 64

-- The `k`-th byte of a word, `(v >> (8 * k)) as u8`.
abbrev pub byte_of : ℕ → ℕ → ℕ
byte_of v k = v / 2 ^ (8 * k) % 256

unfoldable pub u32_to_le : ℕ → Bytes
u32_to_le v = byte_of v 0 ∷ byte_of v 1 ∷ byte_of v 2 ∷ byte_of v 3 ∷ []

unfoldable pub u32_from_le : ℕ → ℕ → ℕ → ℕ → ℕ
u32_from_le a b c d = a + b * 2 ^ 8 + c * 2 ^ 16 + d * 2 ^ 24

pub u32_from_le-to_le :
    (v : ℕ) → v < u32_mod → u32_from_le (byte_of v 0) (byte_of v 1) (byte_of v 2) (byte_of v 3) ≡ v
unfolding u32_from_le
u32_from_le-to_le v h = omega arith

pub u32_to_le-from_le :
    (a b c d : ℕ)
    → IsByte a
    → IsByte b
    → IsByte c
    → IsByte d
    → u32_to_le (u32_from_le a b c d) ≡ a ∷ b ∷ c ∷ d ∷ []
unfolding u32_from_le u32_to_le
u32_to_le-from_le a b c d ha hb hc hd = ground arith

pub u32_from_le-lt :
    (a b c d : ℕ) → IsByte a → IsByte b → IsByte c → IsByte d → u32_from_le a b c d < u32_mod
unfolding u32_from_le
u32_from_le-lt a b c d ha hb hc hd = omega arith

pub u32_to_le-IsByte : (v : ℕ) → All IsByte (u32_to_le v)
unfolding u32_to_le
u32_to_le-IsByte v = omega arith
