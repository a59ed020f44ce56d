-- ===== src/Page/Words.antt =====
-- Little-endian words of up to eight bytes: a word is its lower bytes and the next byte above them.
use Prim.Native.Nat.{bit_and, bit_or}
use os_emulation.Base.{ℕ, zero, suc, ◌+◌, ◌*◌, ◌/◌, ◌%◌, ◌^◌, ◌≤◌, ◌<◌, ◌≡◌, refl, ap, arith}
use os_emulation.Base.Words.{byte_of}
use os_emulation.Base.Bits.{bit_or-add, bit_and-mask}

-- `(value >> (8 * i)) & 0xff`
pub low_byte : (v i : ℕ) → bit_and (v / 2 ^ (8 * i)) 0xff ≡ byte_of v i
low_byte v i = bit_and-mask 8 (v / 2 ^ (8 * i))

pub word_step :
    (n v : ℕ) → n < 8 → v % 2 ^ (8 * suc n) ≡ v % 2 ^ (8 * n) + byte_of v n * 2 ^ (8 * n)
word_step zero v h = omega arith
word_step (suc zero) v h = omega arith
word_step (suc (suc zero)) v h = omega arith
word_step (suc (suc (suc zero))) v h = omega arith
word_step (suc (suc (suc (suc zero)))) v h = omega arith
word_step (suc (suc (suc (suc (suc zero))))) v h = omega arith
word_step (suc (suc (suc (suc (suc (suc zero)))))) v h = omega arith
word_step (suc (suc (suc (suc (suc (suc (suc zero))))))) v h = omega arith
word_step (suc (suc (suc (suc (suc (suc (suc (suc n)))))))) v h = absurd (omega arith)

pub word_bound :
    (n low b : ℕ) → n < 8 → low < 2 ^ (8 * n) → b < 256 → low + b * 2 ^ (8 * n) < 2 ^ (8 * suc n)
word_bound zero low b h k l = omega arith
word_bound (suc zero) low b h k l = omega arith
word_bound (suc (suc zero)) low b h k l = omega arith
word_bound (suc (suc (suc zero))) low b h k l = omega arith
word_bound (suc (suc (suc (suc zero)))) low b h k l = omega arith
word_bound (suc (suc (suc (suc (suc zero))))) low b h k l = omega arith
word_bound (suc (suc (suc (suc (suc (suc zero)))))) low b h k l = omega arith
word_bound (suc (suc (suc (suc (suc (suc (suc zero))))))) low b h k l = omega arith
word_bound (suc (suc (suc (suc (suc (suc (suc (suc n)))))))) low b h k l = absurd (omega arith)

-- The word that the bytes `f 0`, `f 1`, … make up, lowest first.
unfoldable pub le_word : (ℕ → ℕ) → ℕ → ℕ
le_word f zero = 0
le_word f (suc i) = le_word f i + f i * 2 ^ (8 * i)

pub le_word-lt :
    (f : ℕ → ℕ) (n : ℕ) → n ≤ 8 → ((i : ℕ) → i < n → f i < 256) → le_word f n < 2 ^ (8 * n)
unfolding le_word
le_word-lt f zero h k = omega arith
le_word-lt f (suc n) h k =
    word_bound n (le_word f n) (f n) h (le_word-lt f n (omega arith) (λ i p. k i (omega arith)))
      (k n (omega arith))

pub le_word-bytes :
    (f : ℕ → ℕ) (v n : ℕ)
    → n ≤ 8
    → ((i : ℕ) → i < n → f i ≡ byte_of v i)
    → le_word f n ≡ v % 2 ^ (8 * n)
unfolding le_word
le_word-bytes f v zero h k = omega arith
le_word-bytes f v (suc n) h k = omega (
  arith,
  le_word-bytes f v n (omega arith) (λ i p. k i (omega arith)),
  ap (λ (b : ℕ). b * 2 ^ (8 * n)) (k n (omega arith)),
  word_step n v h,
)

-- One more byte set by `|` is one more byte of the sum.
pub or_byte :
    (f : ℕ → ℕ) (n : ℕ)
    → n < 8
    → ((i : ℕ) → i < n → f i < 256)
    → bit_or (le_word f n) (f n * 2 ^ (8 * n)) ≡ le_word f (suc n)
unfolding le_word
or_byte f n h k = bit_or-add (8 * n) (le_word f n) (f n) (le_word-lt f n (omega arith) k)

pub le_word-ext : (f g : ℕ → ℕ) (n : ℕ) → ((i : ℕ) → i < n → f i ≡ g i) → le_word f n ≡ le_word g n
unfolding le_word
le_word-ext f g zero h = refl
le_word-ext f g (suc n) h = rw (le_word-ext f g n (λ i p. h i (omega arith)), h n (omega arith))
