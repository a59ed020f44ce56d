-- ===== src/Base/Bits.antt =====
-- `|` of fields that do not overlap and `&` with a mask of low bits, as arithmetic.
use Prim.Native.Nat.{
  ℕ, zero, suc, ◌+◌, ◌-◌, ◌*◌, ◌/◌, ◌%◌, ◌^◌, ◌≤◌, ◌<◌, min, max, bit_and, bit_or, digits,
  bit_and-bitwise, bit_or-bitwise,
}
use mathlib.Core.Path.{◌≡◌, refl, ap}
use native.Mathlib.Nat.{pow-suc, one-le-pow}
use native.Mathlib.Omega.{arith}

-- What `digits` computes does not depend on fuel beyond the first number.
module _ (rest : ℕ → ℕ) (op : ℕ → ℕ → ℕ) where
  enough_fuel : (n m a b : ℕ) → a ≤ n → a ≤ m → digits rest op n a b ≡ digits rest op m a b
  enough_fuel zero zero zero b p q = refl
  enough_fuel zero (suc m) zero b p q = refl
  enough_fuel (suc n) zero zero b p q = refl
  enough_fuel (suc n) (suc m) zero b p q = refl
  enough_fuel zero m (suc a) b p q = absurd (omega arith)
  enough_fuel (suc n) zero (suc a) b p q = absurd (omega arith)
  enough_fuel (suc n) (suc m) (suc a) b p q =
      omega (arith, enough_fuel n m (suc a / 2) (b / 2) (omega arith) (omega arith))

  lowest_digit :
      (a b : ℕ)
      → digits rest op (suc a) (suc a) b
        ≡ digits rest op (suc a / 2) (suc a / 2) (b / 2) * 2 + op (suc a % 2) (b % 2)
  lowest_digit a b =
      omega (arith, enough_fuel a (suc a / 2) (suc a / 2) (b / 2) (omega arith) (omega arith))

or_digit : (a b : ℕ) → bit_or a b ≡ bit_or (a / 2) (b / 2) * 2 + max (a % 2) (b % 2)
or_digit zero b = simp bit_or-bitwise (omega arith)
or_digit (suc a) b = simp bit_or-bitwise (lowest_digit (λ d. d) max a b)

and_digit : (a b : ℕ) → bit_and a b ≡ bit_and (a / 2) (b / 2) * 2 + min (a % 2) (b % 2)
and_digit zero b = simp bit_and-bitwise (omega arith)
and_digit (suc a) b = simp bit_and-bitwise (lowest_digit (λ d. 0) min a b)

-- Doubling the width of the lower field.
double : (q k : ℕ) → q * 2 ^ suc k ≡ q * 2 ^ k * 2
double q k = omega (arith, ap (λ (t : ℕ). q * t) (pow-suc 2 k))

pub zero_or : (b : ℕ) → bit_or 0 b ≡ b
zero_or b = bit_or-bitwise 0 b

or_zero_below : (k a : ℕ) → a ≤ k → bit_or a 0 ≡ a
or_zero_below k zero h = refl
or_zero_below zero (suc a) h = absurd (omega arith)
or_zero_below (suc k) (suc a) h =
    omega (arith, or_digit (suc a) 0, or_zero_below k (suc a / 2) (omega arith))

or_zero : (a : ℕ) → bit_or a 0 ≡ a
or_zero a = or_zero_below a a (omega arith)

-- `low | (high << k)` is a sum when `low` has `k` bits.
pub bit_or-add : (k low high : ℕ) → low < 2 ^ k → bit_or low (high * 2 ^ k) ≡ low + high * 2 ^ k
bit_or-add zero zero high h = rw zero_or (omega arith)
bit_or-add zero (suc low) high h = absurd (omega arith)
bit_or-add (suc k) low high h = ground (
  arith,
  or_digit low (high * 2 ^ suc k),
  double high k,
  pow-suc 2 k,
  bit_or-add k (low / 2) high,
)

zero_and : (b : ℕ) → bit_and 0 b ≡ 0
zero_and b = bit_and-bitwise 0 b

and_zero : (k a : ℕ) → a ≤ k → bit_and a 0 ≡ 0
and_zero k zero h = refl
and_zero zero (suc a) h = absurd (omega arith)
and_zero (suc k) (suc a) h =
    omega (arith, and_digit (suc a) 0, and_zero k (suc a / 2) (omega arith))

and_fields : (k low high : ℕ) → low < 2 ^ k → bit_and (low + high * 2 ^ k) (2 ^ k - 1) ≡ low
and_fields zero low high h = omega (arith, and_zero (low + high * 1) (low + high * 1) (omega arith))
and_fields (suc k) low high h = ground (
  arith,
  and_digit (low + high * 2 ^ suc k) (2 ^ suc k - 1),
  double high k,
  pow-suc 2 k,
  one-le-pow k 2,
  and_fields k (low / 2) high,
)

-- `x & ((1 << k) - 1)` is the remainder.
pub bit_and-mask : (k x : ℕ) → bit_and x (2 ^ k - 1) ≡ x % 2 ^ k
bit_and-mask k x = ground (arith, one-le-pow k 2, and_fields k (x % 2 ^ k) (x / 2 ^ k))

-- The same with the fields in the other order.
pub add-bit_or : (k low high : ℕ) → low < 2 ^ k → bit_or (high * 2 ^ k) low ≡ low + high * 2 ^ k
add-bit_or zero zero high h = ground (arith, or_zero high)
add-bit_or zero (suc low) high h = absurd (omega arith)
add-bit_or (suc k) low high h = ground (
  arith,
  or_digit (high * 2 ^ suc k) low,
  double high k,
  pow-suc 2 k,
  add-bit_or k (low / 2) high,
)
