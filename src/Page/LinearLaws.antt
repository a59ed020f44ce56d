-- ===== src/Page/LinearLaws.antt =====
-- `LinearHost`: which accesses are in range, and what an access in range reads and writes.
use native.Mathlib.Decide.{ℕ_discrete}
use os_emulation.Base.{
  ℕ, zero, suc, ◌+◌, ◌-◌, ◌^◌, ◌≤◌, ◌<◌, ◌≡◌, ◌≢◌, refl, ◌∙◌, false, [], ◌∷◌, length, get_or, set,
  length-set, get_or-set_self, get_or-set_ne, Bytes, arith,
}
use os_emulation.Base.Words.{byte_of}
use os_emulation.Page.Words.{low_byte, le_word, or_byte}
use os_emulation.Page.Linear.{LinearHost, out_of_range, read_linear_loop, write_linear_loop}

-- A `Vec<u8>` holds bytes, and `isize::MAX` of them at most.
pub record IsHost (m : LinearHost) : Type 0 where
  pub fits : length m.memory < 2 ^ 63
  pub holds : (i : ℕ) → get_or m.memory i 0 < 256

-- The `n` bytes from the guest address `addr` on lie in the memory.
abbrev pub InRange : LinearHost → ℕ → ℕ → Type 0
InRange m addr n = (m.base ≤ addr) × (addr + n ≤ m.base + length m.memory)

pub length-write_linear_loop :
    (mem : Bytes) (off n value : ℕ) → length (write_linear_loop mem off n value) ≡ length mem
unfolding write_linear_loop
length-write_linear_loop mem off zero value = refl
length-write_linear_loop mem off (suc n) value =
    length-set (write_linear_loop mem off n value) (off + n) _
    ∙ length-write_linear_loop mem off n value

pub written_byte :
    (mem : Bytes) (off n value i : ℕ)
    → off + n ≤ length mem
    → i < n
    → get_or (write_linear_loop mem off n value) (off + i) 0 ≡ byte_of value i
unfolding write_linear_loop
written_byte mem off zero value i h k = absurd (omega arith)
written_byte mem off (suc n) value i h k = elim (ℕ_discrete n i) [
  | yes e ↦ rw (← e) (
      get_or-set_self (write_linear_loop mem off n value) (off + n) _ 0
        (omega (arith, length-write_linear_loop mem off n value))
      ∙ low_byte value n)
  | no e ↦
      get_or-set_ne (write_linear_loop mem off n value) (off + n) (off + i) _ 0 (omega arith)
      ∙ written_byte mem off n value i (omega arith) (omega arith)
]

pub other_byte :
    (mem : Bytes) (off n value j : ℕ)
    → ((i : ℕ) → i < n → off + i ≢ j)
    → get_or (write_linear_loop mem off n value) j 0 ≡ get_or mem j 0
unfolding write_linear_loop
other_byte mem off zero value j h = refl
other_byte mem off (suc n) value j h =
    get_or-set_ne (write_linear_loop mem off n value) (off + n) j _ 0 (h n (omega arith))
    ∙ other_byte mem off n value j (λ i p. h i (omega arith))

pub read_linear_loop-le_word :
    (mem : Bytes) (off n : ℕ)
    → n ≤ 8
    → ((i : ℕ) → get_or mem i 0 < 256)
    → read_linear_loop mem off n ≡ le_word (λ i. get_or mem (off + i) 0) n
unfolding read_linear_loop
read_linear_loop-le_word mem off zero h k = unfold le_word in refl
read_linear_loop-le_word mem off (suc n) h k =
    rw (read_linear_loop-le_word mem off n (omega arith) k)
      (or_byte (λ i. get_or mem (off + i) 0) n h (λ i p. k (off + i)))

set_holds :
    (xs : Bytes) (i v j : ℕ)
    → v < 256
    → ((k : ℕ) → get_or xs k 0 < 256)
    → get_or (set xs i v) j 0 < 256
set_holds [] i v j h k = k j
set_holds (x ∷ xs) zero v zero h k = h
set_holds (x ∷ xs) zero v (suc j) h k = k (suc j)
set_holds (x ∷ xs) (suc i) v zero h k = k 0
set_holds (x ∷ xs) (suc i) v (suc j) h k = set_holds xs i v j h (λ l. k (suc l))

pub write_linear_loop-holds :
    (mem : Bytes) (off n value : ℕ)
    → ((k : ℕ) → get_or mem k 0 < 256)
    → (j : ℕ) → get_or (write_linear_loop mem off n value) j 0 < 256
unfolding write_linear_loop
write_linear_loop-holds mem off zero value h j = h j
write_linear_loop-holds mem off (suc n) value h j =
    set_holds (write_linear_loop mem off n value) (off + n) _ j (omega (arith, low_byte value n))
      (write_linear_loop-holds mem off n value h)

pub in_range :
    (m : LinearHost) (addr n : ℕ)
    → length m.memory < 2 ^ 63
    → InRange m addr n
    → out_of_range m.memory (addr - m.base) n ≡ false
unfolding out_of_range
in_range m addr n h (lo, hi) = ground arith

pub not-InRange :
    (m : LinearHost) (addr n : ℕ)
    → length m.memory < 2 ^ 63
    → m.base ≤ addr
    → out_of_range m.memory (addr - m.base) n ≡ false
    → InRange m addr n
unfolding out_of_range
not-InRange m addr n h lo e = ground arith
