-- ===== src/Target/Frame.antt =====
-- What lies below the operands of a program stays there: the frame record that a prologue saves.
use os_emulation.Base.{
  ℕ, suc, ◌+◌, ◌*◌, ◌%◌, ◌≡◌, refl, ap, subst, List, [], ◌∷◌, ◌++◌, length, length-append, Option,
  none, some, some-injective, arith,
}
use os_emulation.Base.Words.{u64_mod}
use os_emulation.Target.Ops.{
  OsOp, push_u64, push_u32, pop, load, store, ecall, jump, trap, tail_call,
}
use os_emulation.Target.Reference.{Env, step, steps}
use os_emulation.Target.Host.{Machine, Abi}
use os_emulation.Target.HostStack.{Stack, Stack-same}
use os_emulation.Target.Refines.{Represents}
use os_emulation.Target.Program.{steps_parts}

module _ {M : Type 0} (env : Env M) (saved : List ℕ) where
  -- The operation above `saved` does what it does without, and leaves `saved` alone.
  abbrev Above : Option (List ℕ × M) → Option (List ℕ × M) → Type 0
  Above none r = Unit
  Above (some (ys, mem)) r = r ≡ some (ys ++ saved, mem)

  above :
      (op : OsOp) (xs : List ℕ) (mem : M)
      → Above (step env op xs mem) (step env op (xs ++ saved) mem)
  unfolding step
  above (push_u64 v) xs mem = refl
  above (push_u32 v) xs mem = refl
  above pop [] mem = tt
  above pop (x ∷ xs) mem = refl
  above (load width signed) [] mem = tt
  above (load width signed) (a ∷ xs) mem = refl
  above (store width) [] mem = tt
  above (store width) (a ∷ []) mem = tt
  above (store width) (a ∷ v ∷ xs) mem = refl
  above (ecall may_await) xs mem = refl
  above (jump target) xs mem = tt
  above trap xs mem = tt
  above (tail_call helper) xs mem = tt

  pub steps_above :
      (ops : List OsOp) (xs zs : List ℕ) (mem mem' : M)
      → steps env ops xs mem ≡ some (zs, mem')
      → steps env ops (xs ++ saved) mem ≡ some (zs ++ saved, mem')
  unfolding steps
  steps_above [] xs zs mem mem' e =
      ap (λ (p : List ℕ × M). some (p.0 ++ saved, p.1))
        (some-injective {A = List ℕ × M} (xs, mem) (zs, mem') e)
  steps_above (op ∷ ops) xs zs mem mem' e =
      let (ys, mid, q, k, grows) = steps_parts env op ops xs zs mem mem' e in
      let here : step env op (xs ++ saved) mem ≡ some (ys ++ saved, mid) =
        subst (λ r. Above r (step env op (xs ++ saved) mem)) q (above op xs mem) in
      rw (here, steps) (steps_above ops ys zs mid mem' k)

Stack-drop :
    (cells : ℕ → ℕ) (a : ℕ) (xs ys : List ℕ)
    → Stack cells a (xs ++ ys)
    → Stack cells (a + 8 * length xs) ys
Stack-drop cells a [] ys h = Stack-same cells a (a + 8 * 0) ys (omega arith) h
Stack-drop cells a (x ∷ xs) ys (hx, h) =
    Stack-same cells (a + 8 + 8 * length xs) (a + 8 * suc (length xs)) ys (omega arith)
      (Stack-drop cells (a + 8) xs ys h)

-- Two saved words are where the frame pointer points.
pub frame_survives :
    {M : Type 0} (abi : Abi) (top frame : ℕ) (m : Machine M) (zs : List ℕ) (x y : ℕ) (mem : M)
    → top % u64_mod ≡ (frame + 16) % u64_mod
    → Represents abi top frame m (zs ++ (x ∷ y ∷ [])) mem
    → (m.cells (frame % u64_mod) ≡ x) × (m.cells ((frame + 8) % u64_mod) ≡ y)
frame_survives abi top frame m zs x y mem e h =
    let n = length-append zs (x ∷ y ∷ []) in
    let d : (m.regs abi.sp + 8 * length (zs ++ (x ∷ y ∷ []))) % u64_mod ≡ top % u64_mod = h.depth in
    let (hx, (hy, t)) =
      Stack-same m.cells (m.regs abi.sp + 8 * length zs) frame (x ∷ y ∷ []) (omega arith)
        (Stack-drop m.cells (m.regs abi.sp) zs (x ∷ y ∷ []) h.stack) in
    (hx, hy)
