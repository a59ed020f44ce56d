-- ===== src/Target/Program.antt =====
-- From single operations to whole programs, for any of the native backends: `lower` is the code of an
-- operation and `run_one` an instruction's effect.
use os_emulation.Base.{
  ℕ, suc, ◌+◌, ◌^◌, ◌<◌, ◌≤◌, ◌≡◌, ◌≢◌, some-injective, refl, sym, ◌∙◌, subst, List, [], ◌∷◌, ◌++◌,
  length, Option, none, some, Option-cases, inl, inr, All, arith,
}
use os_emulation.Target.Ops.{
  OsOp, push_u64, push_u32, pop, load, store, ecall, jump, trap, tail_call,
}
use os_emulation.Target.Reference.{Env, step, steps}
use os_emulation.Target.Host.{
  Machine, Shim, Abi, Labels, Exit, running, trapped, jumped, jumped_label, continue, exec,
}
use os_emulation.Target.Refines.{IsAbi, ShimLaws, Represents, exec_refines, IsNarrow}

continue_past :
    {M : Type 0} (e : Exit M) (whole first second : Machine M → Exit M)
    → ((m : Machine M) → whole m ≡ continue (first m) second)
    → continue e whole ≡ continue (continue e first) second
continue_past (running m) whole first second h = h m
continue_past (trapped m) whole first second h = refl
continue_past (jumped a m) whole first second h = refl
continue_past (jumped_label l m) whole first second h = refl

-- The code of a list of operations, in order.
abbrev pub lower_all : {I : Type 0} → (OsOp → List I) → List OsOp → List I
lower_all lower [] = []
lower_all lower (op ∷ ops) = lower op ++ lower_all lower ops

-- One operation grows the stack by one value at most.
module _ {M : Type 0} (env : Env M) where
  abbrev Grown : List ℕ → Option (List ℕ × M) → Type 0
  Grown xs none = Unit
  Grown xs (some (ys, mem)) = length ys ≤ suc (length xs)

  grown : (op : OsOp) (xs : List ℕ) (mem : M) → Grown xs (step env op xs mem)
  unfolding step
  grown (push_u64 v) xs mem = omega arith
  grown (push_u32 v) xs mem = omega arith
  grown pop [] mem = tt
  grown pop (x ∷ xs) mem = omega arith
  grown (load width signed) [] mem = tt
  grown (load width signed) (a ∷ xs) mem = omega arith
  grown (store width) [] mem = tt
  grown (store width) (a ∷ []) mem = tt
  grown (store width) (a ∷ v ∷ xs) mem = omega arith
  grown (ecall may_await) xs mem = omega arith
  grown (jump target) xs mem = tt
  grown trap xs mem = tt
  grown (tail_call helper) xs mem = tt

  pub steps_parts :
      (op : OsOp) (ops : List OsOp) (xs zs : List ℕ) (mem mem' : M)
      → steps env (op ∷ ops) xs mem ≡ some (zs, mem')
      → (ys : List ℕ) × (mid : M) × (step env op xs mem ≡ some (ys, mid))
        × (steps env ops ys mid ≡ some (zs, mem'))
        × (length ys ≤ suc (length xs))
  unfolding steps
  steps_parts op ops xs zs mem mem' e = elim (Option-cases (step env op xs mem)) [
    | inl stuck ↦ absurd (none_some (sym (rw (stuck, steps)) ∙ e))
    | inr ((ys, mid), q) ↦
        (ys, mid, q, sym (rw (q, steps)) ∙ e, subst (Grown xs) q (grown op xs mem))
  ]
    where
      none_some : {r : List ℕ × M} → ◌≢◌ {A = Option (List ℕ × M)} none (some r)
      none_some h = cc

module _ {M I : Type 0} (run_one : I → Machine M → Exit M) where
  unfoldable pub run : List I → Machine M → Exit M
  run [] m = running m
  run (i ∷ is) m = continue (run_one i m) (run is)

  pub run-append :
      (is js : List I) (m : Machine M) → run (is ++ js) m ≡ continue (run is m) (run js)
  unfolding run
  run-append [] js m = refl
  run-append (i ∷ is) js m =
      continue_past (run_one i m) (run (is ++ js)) (run is) (run js) (run-append is js)

  -- A program's code, on a machine that represents the operands, runs past its end and represents what
  -- the program means.
  module _ (abi : Abi) (ok_abi : IsAbi abi) (top frame : ℕ) (env : Env M) (labels : Labels)
      (shim : Shim M) (laws : ShimLaws abi env labels shim) (lower : OsOp → List I)
      (lower_exec : (op : OsOp) (m m' : Machine M)
        → exec abi labels shim op m ≡ some m'
        → run (lower op) m ≡ running m') where
    pub program_refines :
        (ops : List OsOp) (m : Machine M) (xs zs : List ℕ) (mem mem' : M)
        → length xs + length ops < 2 ^ 60
        → All (IsNarrow labels) ops
        → Represents abi top frame m xs mem
        → steps env ops xs mem ≡ some (zs, mem')
        → (m' : Machine M) × (run (lower_all lower ops) m ≡ running m')
          × Represents abi top frame m' zs mem'
    program_refines [] m xs zs mem mem' small narrow h e =
        let r : (xs, mem) ≡ (zs, mem') =
          some-injective {A = List ℕ × M} (xs, mem) (zs, mem') (unfold steps in e) in
        (m, unfold run in refl, subst (λ (p : List ℕ × M). Represents abi top frame m p.0 p.1) r h)
    program_refines (op ∷ ops) m xs zs mem mem' small (n, narrow) h e =
        let (ys, mid, q, k, grows) = steps_parts env op ops xs zs mem mem' e in
        let (m', done, r) =
          exec_refines abi ok_abi top frame env labels shim laws op m xs ys mem mid (omega arith) n
            h q in
        let (m'', rest, r') = program_refines ops m' ys zs mid mem' (omega arith) narrow r k in
        (m'', run-append (lower op) (lower_all lower ops) m ∙ rw (lower_exec op m m' done) rest, r')
