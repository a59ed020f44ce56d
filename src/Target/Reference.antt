-- ===== src/Target/Reference.antt =====
-- What the operations mean, by the comments of crates/target/os-target-core/src/lib.rs: a stack of
-- 64-bit values, its top first, and a guest memory `M`.
use os_emulation.Base.{ℕ, Bool, List, [], ◌∷◌, Option, none, some}
use os_emulation.Target.Ops.{MemWidth, OsOp, push_u64, push_u32, pop, load, store, ecall}

pub record Env (M : Type 0) : Type 0 where
  pub load_word : M → ℕ → MemWidth → Bool → ℕ
  pub store_word : M → ℕ → MemWidth → ℕ → M
  pub host_call : M → M

module _ {M : Type 0} (env : Env M) where
  -- `none` where the stack is too short, and for the operations that leave the code.
  unfoldable pub step : OsOp → List ℕ → M → Option (List ℕ × M)
  step (push_u64 v) xs mem = some (v ∷ xs, mem)
  step (push_u32 v) xs mem = some (v ∷ xs, mem)
  step pop (x ∷ xs) mem = some (xs, mem)
  step (load width signed) (a ∷ xs) mem = some (env.load_word mem a width signed ∷ xs, mem)
  step (store width) (a ∷ v ∷ xs) mem = some (xs, env.store_word mem a width v)
  step (ecall may_await) xs mem = some (xs, env.host_call mem)
  step _ xs mem = none

  unfoldable pub steps : List OsOp → List ℕ → M → Option (List ℕ × M)
  steps [] xs mem = some (xs, mem)
  steps (op ∷ ops) xs mem = elim (step op xs mem) [
    | none ↦ none
    | some (ys, mem') ↦ steps ops ys mem'
  ]
