-- ===== src/Target/Refines.antt =====
-- The lowering of an operation refines its meaning: the machine's stack holds the operands and its
-- guest memory is the memory.
use os_emulation.Base.{
  ℕ, suc, ◌+◌, ◌*◌, ◌%◌, ◌^◌, ◌<◌, ◌≡◌, ◌≢◌, refl, sym, ap, ◌∙◌, subst, eq_refl, ne→==, Bool, List,
  [], ◌∷◌, length, Option, none, some, Text, arith,
}
use os_emulation.Base.Words.{u64_mod}
use os_emulation.Target.Ops.{
  MemWidth, OsOp, push_u64, push_u32, pop, load, store, ecall, jump, trap, tail_call,
}
use os_emulation.Target.Reference.{Env, step}
use os_emulation.Target.Host.{
  Machine, Shim, Abi, Labels, neg, put, address, set_reg, push_reg, pop_reg, exec,
}
use os_emulation.Target.HostStack.{Stack, Stack-same, Stack-push}

-- The registers that matter are different registers.
pub record IsAbi (abi : Abi) : Type 0 where
  pub sp_fp : abi.sp ≢ abi.fp
  pub sp_arg0 : abi.arg0 ≢ abi.sp
  pub sp_arg1 : abi.arg1 ≢ abi.sp
  pub sp_result : abi.result ≢ abi.sp
  pub fp_arg0 : abi.arg0 ≢ abi.fp
  pub fp_arg1 : abi.arg1 ≢ abi.fp
  pub fp_result : abi.result ≢ abi.fp
  pub arg_arg : abi.arg1 ≢ abi.arg0

-- What the runtime's helpers promise under the calling convention: the stack and the frame pointer
-- are kept, a load helper returns the word and a store helper writes it.
pub record ShimLaws {M : Type 0} (abi : Abi) (env : Env M) (labels : Labels) (shim : Shim M)
    : Type 0 where
  pub keeps_sp : (l : Text) (m : Machine M) → (shim l m).regs abi.sp ≡ m.regs abi.sp
  pub keeps_fp : (l : Text) (m : Machine M) → (shim l m).regs abi.fp ≡ m.regs abi.fp
  pub keeps_stack :
      (l : Text) (m : Machine M) (xs : List ℕ)
      → length xs < 2 ^ 60
      → Stack m.cells (m.regs abi.sp) xs
      → Stack (shim l m).cells (m.regs abi.sp) xs
  pub loads :
      (width : MemWidth) (signed : Bool) (m : Machine M)
      → (shim (labels.load_label width signed) m).regs abi.result
        ≡ env.load_word m.mem (m.regs abi.arg0) width signed
  pub load_keeps :
      (width : MemWidth) (signed : Bool) (m : Machine M)
      → (shim (labels.load_label width signed) m).mem ≡ m.mem
  pub stores :
      (width : MemWidth) (m : Machine M)
      → (shim (labels.store_label width) m).mem
        ≡ env.store_word m.mem (m.regs abi.arg0) width (m.regs abi.arg1)
  pub calls : (m : Machine M) → (shim labels.ecall_label m).mem ≡ env.host_call m.mem

-- The machine holds the operands `xs` below the address `top`, the frame pointer at `frame` and the
-- guest memory `mem`.
pub record Represents {M : Type 0} (abi : Abi) (top frame : ℕ) (m : Machine M) (xs : List ℕ)
    (mem : M) : Type 0 where
  pub stack : Stack m.cells (m.regs abi.sp) xs
  pub depth : (m.regs abi.sp + 8 * length xs) % u64_mod ≡ top % u64_mod
  pub framed : m.regs abi.fp ≡ frame
  pub guest : m.mem ≡ mem

-- `PushU32` pushes its operand where the backend's widening leaves it alone.
abbrev pub IsNarrow : Labels → OsOp → Type 0
IsNarrow labels (push_u32 v) = labels.extend v ≡ v
IsNarrow labels _ = Unit

put_same : (f : ℕ → ℕ) (k v : ℕ) → put f k v k ≡ v
put_same f k v = rw (eq_refl k)

put_apart : (f : ℕ → ℕ) (k v j : ℕ) → k ≢ j → put f k v j ≡ f j
put_apart f k v j h = rw (ne→== k j h)

module _ {M : Type 0} (abi : Abi) (ok_abi : IsAbi abi) (top frame : ℕ) where
  set-Represents :
      (m : Machine M) (r v : ℕ) (xs : List ℕ) (mem : M)
      → r ≢ abi.sp
      → r ≢ abi.fp
      → Represents abi top frame m xs mem
      → Represents abi top frame (set_reg m r v) xs mem
  set-Represents m r v xs mem s f h =
      let e : put m.regs r v abi.sp ≡ m.regs abi.sp = put_apart m.regs r v abi.sp s in
      record {
        stack = rw e (h.stack);
        depth = rw e (h.depth);
        framed = put_apart m.regs r v abi.fp f ∙ h.framed;
        guest = h.guest;
      }

  push-Represents :
      (m : Machine M) (r : ℕ) (xs : List ℕ) (mem : M)
      → length xs < 2 ^ 60
      → Represents abi top frame m xs mem
      → Represents abi top frame (push_reg abi m r) (m.regs r ∷ xs) mem
  push-Represents m r xs mem small h =
      let a : ℕ = address m abi.sp (neg 8) in
      let e : put m.regs abi.sp a abi.sp ≡ a = put_same m.regs abi.sp a in
      record {
        stack = rw e (Stack-push m.cells (m.regs abi.sp) (m.regs r) xs small h.stack);
        depth = ap (λ (x : ℕ). (x + 8 * suc (length xs)) % u64_mod) e ∙ omega (arith, h.depth);
        framed = put_apart m.regs abi.sp a abi.fp ok_abi.sp_fp ∙ h.framed;
        guest = h.guest;
      }

  pop-Represents :
      (m : Machine M) (r x : ℕ) (xs : List ℕ) (mem : M)
      → r ≢ abi.sp
      → r ≢ abi.fp
      → Represents abi top frame m (x ∷ xs) mem
      → Represents abi top frame (pop_reg abi m r) xs mem × ((pop_reg abi m r).regs r ≡ x)
  pop-Represents m r x xs mem s f h =
      let v : ℕ = m.cells (address m abi.sp 0) in
      let regs : ℕ → ℕ = put m.regs r v in
      let b : ℕ = address (set_reg m r v) abi.sp 8 in
      let e : put regs abi.sp (address m abi.sp 8) abi.sp ≡ address m abi.sp 8 =
        put_same regs abi.sp _ in
      (
        record {
          stack = rw e (
              Stack-same m.cells (m.regs abi.sp + 8) (address m abi.sp 8) xs (omega arith)
                h.stack.1);
          depth = ap (λ (y : ℕ). (y + 8 * length xs) % u64_mod) e ∙ omega (arith, h.depth);
          framed =
              put_apart regs abi.sp _ abi.fp ok_abi.sp_fp
              ∙ put_apart m.regs r v abi.fp f
              ∙ h.framed;
          guest = h.guest;
        },
        put_apart regs abi.sp _ r (λ q. s (sym q))
            ∙ put_same m.regs r v
            ∙ ap m.cells (omega arith)
            ∙ h.stack.0,
      )

  module _ (env : Env M) (labels : Labels) (shim : Shim M)
      (laws : ShimLaws abi env labels shim) where
    call-Represents :
        (l : Text) (m : Machine M) (xs : List ℕ) (mem mem' : M)
        → length xs < 2 ^ 60
        → Represents abi top frame m xs mem
        → (shim l m).mem ≡ mem'
        → Represents abi top frame (shim l m) xs mem'
    call-Represents l m xs mem mem' small h e =
        let s : (shim l m).regs abi.sp ≡ m.regs abi.sp = laws.keeps_sp l m in
        record {
          stack = rw s (laws.keeps_stack l m xs small h.stack);
          depth = rw s (h.depth);
          framed = laws.keeps_fp l m ∙ h.framed;
          guest = e;
        }

    -- The machine after the operation represents what the operation's meaning gives.
    abbrev Reached : OsOp → Machine M → Option (List ℕ × M) → Type 0
    Reached op m none = Unit
    Reached op m (some (ys, mem)) =
        (m' : Machine M) × (exec abi labels shim op m ≡ some m')
        × Represents abi top frame m' ys mem

    push_const :
        (m : Machine M) (v : ℕ) (xs : List ℕ) (mem : M)
        → length xs < 2 ^ 60
        → Represents abi top frame m xs mem
        → Represents abi top frame (push_reg abi (set_reg m abi.result v) abi.result) (v ∷ xs) mem
    push_const m v xs mem small h =
        subst
          (λ (x : ℕ).
            Represents abi top frame (push_reg abi (set_reg m abi.result v) abi.result) (x ∷ xs)
              mem)
          (put_same m.regs abi.result v)
          (push-Represents (set_reg m abi.result v) abi.result xs mem small
            (set-Represents m abi.result v xs mem ok_abi.sp_result ok_abi.fp_result h))

    load_reached :
        (m : Machine M) (width : MemWidth) (signed : Bool) (a : ℕ) (xs : List ℕ) (mem : M)
        → length xs < 2 ^ 60
        → Represents abi top frame m (a ∷ xs) mem
        → Represents abi top frame
            (push_reg abi
              (shim (labels.load_label width signed) (pop_reg abi m abi.arg0))
              abi.result)
            (env.load_word mem a width signed ∷ xs)
            mem
    load_reached m width signed a xs mem small h =
        let (popped, at) = pop-Represents m abi.arg0 a xs mem ok_abi.sp_arg0 ok_abi.fp_arg0 h in
        let p : Machine M = pop_reg abi m abi.arg0 in
        let l : Text = labels.load_label width signed in
        let called =
          call-Represents l p xs mem mem small popped
            (laws.load_keeps width signed p ∙ popped.guest) in
        subst
          (λ (x : ℕ). Represents abi top frame (push_reg abi (shim l p) abi.result) (x ∷ xs) mem)
          (laws.loads width signed p ∙ rw (at, popped.guest) refl)
          (push-Represents (shim l p) abi.result xs mem small called)

    store_reached :
        (m : Machine M) (width : MemWidth) (a v : ℕ) (xs : List ℕ) (mem : M)
        → length xs < 2 ^ 60
        → Represents abi top frame m (a ∷ v ∷ xs) mem
        → Represents abi top frame
            (shim (labels.store_label width) (pop_reg abi (pop_reg abi m abi.arg0) abi.arg1))
            xs
            (env.store_word mem a width v)
    store_reached m width a v xs mem small h =
        let (first, at) =
          pop-Represents m abi.arg0 a (v ∷ xs) mem ok_abi.sp_arg0 ok_abi.fp_arg0 h in
        let p : Machine M = pop_reg abi m abi.arg0 in
        let (second, bt) = pop-Represents p abi.arg1 v xs mem ok_abi.sp_arg1 ok_abi.fp_arg1 first in
        let q : Machine M = pop_reg abi p abi.arg1 in
        let kept : q.regs abi.arg0 ≡ a =
          put_apart (put p.regs abi.arg1 (p.cells (address p abi.sp 0))) abi.sp (address p abi.sp 8)
            abi.arg0 (λ e. ok_abi.sp_arg0 (sym e))
          ∙ put_apart p.regs abi.arg1 (p.cells (address p abi.sp 0)) abi.arg0 ok_abi.arg_arg
          ∙ at in
        call-Represents (labels.store_label width) q xs mem _ small second
          (laws.stores width q ∙ rw (kept, bt, second.guest) refl)

    reached :
        (op : OsOp) (m : Machine M) (xs : List ℕ) (mem : M)
        → length xs < 2 ^ 60
        → IsNarrow labels op
        → Represents abi top frame m xs mem
        → Reached op m (step env op xs mem)
    unfolding step exec
    reached (push_u64 v) m xs mem small n h = (_, refl, push_const m v xs mem small h)
    reached (push_u32 v) m xs mem small n h = (
      _,
      refl,
      subst
          (λ (x : ℕ).
            Represents abi top frame
              (push_reg abi (set_reg m abi.result (labels.extend v)) abi.result) (x ∷ xs) mem)
          n (push_const m (labels.extend v) xs mem small h),
    )
    reached pop m [] mem small n h = tt
    reached pop m (x ∷ xs) mem small n h =
        (_, refl, (pop-Represents m abi.result x xs mem ok_abi.sp_result ok_abi.fp_result h).0)
    reached (load width signed) m [] mem small n h = tt
    reached (load width signed) m (a ∷ xs) mem small n h =
        (_, refl, load_reached m width signed a xs mem (omega arith) h)
    reached (store width) m [] mem small n h = tt
    reached (store width) m (a ∷ []) mem small n h = tt
    reached (store width) m (a ∷ v ∷ xs) mem small n h =
        (_, refl, store_reached m width a v xs mem (omega arith) h)
    reached (ecall may_await) m xs mem small n h = (
      _,
      refl,
      call-Represents labels.ecall_label m xs mem _ small h (laws.calls m ∙ rw (h.guest) refl),
    )
    reached (jump target) m xs mem small n h = tt
    reached trap m xs mem small n h = tt
    reached (tail_call helper) m xs mem small n h = tt

    pub exec_refines :
        (op : OsOp) (m : Machine M) (xs ys : List ℕ) (mem mem' : M)
        → length xs < 2 ^ 60
        → IsNarrow labels op
        → Represents abi top frame m xs mem
        → step env op xs mem ≡ some (ys, mem')
        → (m' : Machine M) × (exec abi labels shim op m ≡ some m')
          × Represents abi top frame m' ys mem'
    exec_refines op m xs ys mem mem' small n h e =
        subst (Reached op m) e (reached op m xs mem small n h)
