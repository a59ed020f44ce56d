-- ===== src/Target/HostStack.antt =====
-- The stack of the machine as a list: pushing and popping a register.
use os_emulation.Base.{
  ℕ, suc, ◌+◌, ◌*◌, ◌%◌, ◌^◌, ◌<◌, ◌≡◌, ◌≢◌, refl, sym, ap, ◌∙◌, eq_refl, ne→==, List, [], ◌∷◌,
  length, arith,
}
use os_emulation.Base.Words.{u64_mod}
use os_emulation.Target.Host.{neg, put}

-- The cells from the address `a` upwards hold the list.
abbrev pub Stack : (ℕ → ℕ) → ℕ → List ℕ → Type 0
Stack cells a [] = Unit
Stack cells a (x ∷ xs) = (cells (a % u64_mod) ≡ x) × Stack cells (a + 8) xs

pub Stack-same :
    (cells : ℕ → ℕ) (a b : ℕ) (xs : List ℕ)
    → a % u64_mod ≡ b % u64_mod
    → Stack cells a xs
    → Stack cells b xs
Stack-same cells a b [] e h = tt
Stack-same cells a b (x ∷ xs) e (hx, h) =
    (ap cells (sym e) ∙ hx, Stack-same cells (a + 8) (b + 8) xs (omega arith) h)

put_other : (f : ℕ → ℕ) (k v j : ℕ) → k ≢ j → put f k v j ≡ f j
put_other f k v j h = rw (ne→== k j h)

Stack-put :
    (cells : ℕ → ℕ) (a b v : ℕ) (xs : List ℕ)
    → ((i : ℕ) → i < length xs → b ≢ (a + 8 * i) % u64_mod)
    → Stack cells a xs
    → Stack (put cells b v) a xs
Stack-put cells a b v [] h k = tt
Stack-put cells a b v (x ∷ xs) h (kx, k) = (
  put_other cells b v (a % u64_mod) (λ e. h 0 (omega arith) (e ∙ omega arith)) ∙ kx,
  Stack-put cells (a + 8) b v xs (λ i p e. h (suc i) (omega arith) (e ∙ omega arith)) k,
)

-- A stack that is smaller than the address space, with its top moved down by one cell.
pub Stack-push :
    (cells : ℕ → ℕ) (a v : ℕ) (xs : List ℕ)
    → length xs < 2 ^ 60
    → Stack cells a xs
    → Stack (put cells ((a + neg 8) % u64_mod) v) ((a + neg 8) % u64_mod) (v ∷ xs)
Stack-push cells a v xs h k =
    let b : ℕ = (a + neg 8) % u64_mod in
    let same : b % u64_mod ≡ b = omega arith in
    (
      rw (same, eq_refl b) refl,
      Stack-put cells (b + 8) b v xs (λ i p. omega arith)
          (Stack-same cells a (b + 8) xs (omega arith) k),
    )

-- Two cells stored in order, as a frame record.
pub two_cells :
    (cells : ℕ → ℕ) (b x y : ℕ)
    → Stack (put (put cells ((b + 0) % u64_mod) x) ((b + 8) % u64_mod) y) b (x ∷ y ∷ [])
two_cells cells b x y =
    let first : ℕ → ℕ = put cells ((b + 0) % u64_mod) x in
    let k : ℕ = (b + 0) % u64_mod in
    let same : b % u64_mod ≡ k = omega arith in
    (
      put_other first ((b + 8) % u64_mod) y (b % u64_mod) (omega arith)
          ∙ ap first same
          ∙ rw (eq_refl k) refl,
      (rw (eq_refl ((b + 8) % u64_mod)) refl, tt),
    )
