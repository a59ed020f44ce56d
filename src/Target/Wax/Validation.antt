-- ===== src/Target/Wax/Validation.antt =====
-- Which code of the WebAssembly backend validates, by the typing rules of the WebAssembly standard.
use os_emulation.Base.{
  ℕ, ◌≡◌, leb, get_elem?, refl, sym, ap, ◌∙◌, ◌≢◌, subst, All, append-nil, append_assoc, arith,
  Bool, true, false, if◌then◌else◌, List, [], ◌∷◌, ◌++◌, Option, none, some, some-injective,
}
use os_emulation.Target.Ops.{
  MemWidth, w8, w16, w32, w64, w128, OsOp, push_u64, push_u32, pop, load, store, ecall, jump, trap,
  tail_call,
}
use os_emulation.Target.Reference.{Env, step, steps}
use os_emulation.Target.Program.{lower_all, steps_parts}
use os_emulation.Target.Wax.{
  ValType, i32, i64, MemArg, Instr, Function, i64_const, drop_value, i32_wrap_i64, i64_extend_i32_s,
  i64_extend_i32_u, i64_load8_s, i64_load8_u, i64_load16_s, i64_load16_u, i32_load, i64_load,
  i64_store8, i64_store16, i32_store, i64_store, local_set, local_get, WaxConfig, WaxScratchLocals,
  lower, new, finish, emit, op, render_to_function, WaxBackend,
}

-- What a module declares around the code: its memories, each 64-bit or not, and the types of the
-- function's locals.
pub record Context : Type 0 where
  pub memories : List Bool
  pub locals : List ValType

-- The memory of an access, where it is declared and the alignment, the exponent of a power of 2, is at
-- most that of the access's own width.
abbrev pub memory_of : Context → MemArg → ℕ → Option Bool
memory_of ctx arg width_log =
    if leb arg.align width_log then get_elem? ctx.memories arg.memory_index else none

-- An address on top, of the type of the memory's addresses, becomes a value.
abbrev loads : Option Bool → ValType → List ValType → Option (List ValType)
loads (some true) t (i64 ∷ ts) = some (t ∷ ts)
loads (some false) t (i32 ∷ ts) = some (t ∷ ts)
loads _ t _ = none

abbrev stores_at : Option Bool → List ValType → Option (List ValType)
stores_at (some true) (i64 ∷ ts) = some ts
stores_at (some false) (i32 ∷ ts) = some ts
stores_at _ _ = none

-- A value on top of an address.
abbrev stores : Option Bool → ValType → List ValType → Option (List ValType)
stores m i32 (i32 ∷ ts) = stores_at m ts
stores m i64 (i64 ∷ ts) = stores_at m ts
stores m _ _ = none

abbrev sets : Option ValType → List ValType → Option (List ValType)
sets (some i32) (i32 ∷ ts) = some ts
sets (some i64) (i64 ∷ ts) = some ts
sets _ _ = none

abbrev gets : Option ValType → List ValType → Option (List ValType)
gets (some t) ts = some (t ∷ ts)
gets none ts = none

-- The types on the stack after an instruction, the top first. `none` is an invalid instruction, and
-- also `unreachable` and calls, which are not looked at here.
abbrev pub check_one : Context → Instr → List ValType → Option (List ValType)
check_one ctx (i64_const v) ts = some (i64 ∷ ts)
check_one ctx drop_value (t ∷ ts) = some ts
check_one ctx i32_wrap_i64 (i64 ∷ ts) = some (i32 ∷ ts)
check_one ctx i64_extend_i32_s (i32 ∷ ts) = some (i64 ∷ ts)
check_one ctx i64_extend_i32_u (i32 ∷ ts) = some (i64 ∷ ts)
check_one ctx (i64_load8_s arg) ts = loads (memory_of ctx arg 0) i64 ts
check_one ctx (i64_load8_u arg) ts = loads (memory_of ctx arg 0) i64 ts
check_one ctx (i64_load16_s arg) ts = loads (memory_of ctx arg 1) i64 ts
check_one ctx (i64_load16_u arg) ts = loads (memory_of ctx arg 1) i64 ts
check_one ctx (i32_load arg) ts = loads (memory_of ctx arg 2) i32 ts
check_one ctx (i64_load arg) ts = loads (memory_of ctx arg 3) i64 ts
check_one ctx (i64_store8 arg) ts = stores (memory_of ctx arg 0) i64 ts
check_one ctx (i64_store16 arg) ts = stores (memory_of ctx arg 1) i64 ts
check_one ctx (i32_store arg) ts = stores (memory_of ctx arg 2) i32 ts
check_one ctx (i64_store arg) ts = stores (memory_of ctx arg 3) i64 ts
check_one ctx (local_set index) ts = sets (get_elem? ctx.locals index) ts
check_one ctx (local_get index) ts = gets (get_elem? ctx.locals index) ts
check_one ctx _ _ = none

abbrev then_check :
    Option (List ValType) → (List ValType → Option (List ValType)) → Option (List ValType)
then_check none k = none
then_check (some ts) k = k ts

unfoldable pub check : Context → List Instr → List ValType → Option (List ValType)
check ctx [] ts = some ts
check ctx (i ∷ is) ts = then_check (check_one ctx i ts) (check ctx is)

then_past :
    (o : Option (List ValType)) (whole first second : List ValType → Option (List ValType))
    → ((ts : List ValType) → whole ts ≡ then_check (first ts) second)
    → then_check o whole ≡ then_check (then_check o first) second
then_past none whole first second h = refl
then_past (some ts) whole first second h = h ts

check-append :
    (ctx : Context) (is js : List Instr) (ts : List ValType)
    → check ctx (is ++ js) ts ≡ then_check (check ctx is ts) (check ctx js)
unfolding check
check-append ctx [] js ts = refl
check-append ctx (i ∷ is) js ts =
    then_past (check_one ctx i ts) (check ctx (is ++ js)) (check ctx is) (check ctx js)
      (check-append ctx is js)

-- The operands of the operations are `i64` on the WebAssembly stack.
abbrev pub i64s : List ℕ → List ValType
i64s [] = []
i64s (x ∷ xs) = i64 ∷ i64s xs

-- Operations whose code is complete here: no stores, no calls and no 128-bit loads.
abbrev pub IsPlain : OsOp → Type 0
IsPlain (push_u64 v) = Unit
IsPlain (push_u32 v) = Unit
IsPlain pop = Unit
IsPlain (load w128 signed) = ⊥
IsPlain (load width signed) = Unit
IsPlain _ = ⊥

module _ {M : Type 0} (env : Env M) (config : WaxConfig) (scratch : Option WaxScratchLocals)
    (ctx : Context)
    (declared : get_elem? ctx.memories config.memory_index ≡ some config.memory64) where
  abbrev Typed : OsOp → List ℕ → Option (List ℕ × M) → Type 0
  Typed o xs none = Unit
  Typed o xs (some (ys, mem)) = check ctx (lower config scratch o) (i64s xs) ≡ some (i64s ys)

  load_typed :
      (m signed : Bool) (width : MemWidth) (ts : List ValType)
      → config.memory64 ≡ m
      → get_elem? ctx.memories config.memory_index ≡ some m
      → IsPlain (load width signed)
      → check ctx (lower config scratch (load width signed)) (i64 ∷ ts) ≡ some (i64 ∷ ts)
  unfolding check lower
  load_typed true true w8 ts e at_m plain = rw (e, at_m) refl
  load_typed true false w8 ts e at_m plain = rw (e, at_m) refl
  load_typed true true w16 ts e at_m plain = rw (e, at_m) refl
  load_typed true false w16 ts e at_m plain = rw (e, at_m) refl
  load_typed true true w32 ts e at_m plain = rw (e, at_m) refl
  load_typed true false w32 ts e at_m plain = rw (e, at_m) refl
  load_typed true signed w64 ts e at_m plain = rw (e, at_m) refl
  load_typed false true w8 ts e at_m plain = rw (e, at_m) refl
  load_typed false false w8 ts e at_m plain = rw (e, at_m) refl
  load_typed false true w16 ts e at_m plain = rw (e, at_m) refl
  load_typed false false w16 ts e at_m plain = rw (e, at_m) refl
  load_typed false true w32 ts e at_m plain = rw (e, at_m) refl
  load_typed false false w32 ts e at_m plain = rw (e, at_m) refl
  load_typed false signed w64 ts e at_m plain = rw (e, at_m) refl
  load_typed m signed w128 ts e at_m plain = absurd plain

  typed : (o : OsOp) (xs : List ℕ) (mem : M) → IsPlain o → Typed o xs (step env o xs mem)
  unfolding step check lower
  typed (push_u64 v) xs mem plain = refl
  typed (push_u32 v) xs mem plain = refl
  typed pop [] mem plain = tt
  typed pop (x ∷ xs) mem plain = refl
  typed (load width signed) [] mem plain = tt
  typed (load width signed) (a ∷ xs) mem plain =
      load_typed config.memory64 signed width (i64s xs) refl declared plain
  typed (store width) xs mem plain = absurd plain
  typed (ecall may_await) xs mem plain = absurd plain
  typed (jump target) xs mem plain = absurd plain
  typed trap xs mem plain = absurd plain
  typed (tail_call helper) xs mem plain = absurd plain

  pub program_typed :
      (ops : List OsOp) (xs zs : List ℕ) (mem mem' : M)
      → All IsPlain ops
      → steps env ops xs mem ≡ some (zs, mem')
      → check ctx (lower_all (lower config scratch) ops) (i64s xs) ≡ some (i64s zs)
  unfolding check
  program_typed [] xs zs mem mem' plain e =
      ap (λ (r : List ℕ × M). some (i64s r.0))
        (some-injective {A = List ℕ × M} (xs, mem) (zs, mem') (unfold steps in e))
  program_typed (o ∷ ops) xs zs mem mem' (p, plain) e =
      let (ys, mid, q, k, grows) = steps_parts env o ops xs zs mem mem' e in
      let here : check ctx (lower config scratch o) (i64s xs) ≡ some (i64s ys) =
        subst (Typed o xs) q (typed o xs mem p) in
      check-append ctx (lower config scratch o) (lower_all (lower config scratch) ops) (i64s xs)
      ∙ rw here (program_typed ops ys zs mid mem' plain k)

emit_lem :
    (b : WaxBackend) (ops : List OsOp)
    → (emit b ops).sink ≡ b.sink ++ lower_all (lower b.config b.scratch) ops
unfolding emit op
emit_lem b [] = sym (append-nil b.sink)
emit_lem b (o ∷ ops) =
    emit_lem (op b o) ops
    ∙ append_assoc b.sink (lower b.config b.scratch o) (lower_all (lower b.config b.scratch) ops)

-- Of operations that push, pop and load up to 64 bits, and do not run short of operands,
-- `render_to_function` makes a finished function whose instructions are valid, with the locals it
-- declares, in any module that declares the configured memory with the configured width of addresses:
-- every operand has its type, every access has a declared memory and an alignment of at most its width,
-- and one `i64` is left for each value that the operations leave.
pub render_validates :
    {M : Type 0} (env : Env M) (config : WaxConfig) (memories : List Bool) (ops : List OsOp)
    (zs : List ℕ) (mem mem' : M)
    → get_elem? memories config.memory_index ≡ some config.memory64
    → All IsPlain ops
    → steps env ops [] mem ≡ some (zs, mem')
    → (f : Function) × (render_to_function ops config ≡ some f)
      × (f.finished ≡ true)
      × (check (record { memories = memories; locals = f.local_types }) f.body [] ≡ some (i64s zs))
unfolding render_to_function finish
render_validates env config memories ops zs mem mem' declared plain e = (
  record { local_types = []; body = (emit (new [] config) ops).sink; finished = true },
  refl,
  refl,
  rw (emit_lem (new [] config) ops) (
      program_typed env config none (record { memories = memories; locals = [] }) declared ops [] zs
        mem mem' plain e),
)

-- The widths whose stores have the types right: 32 bits in a 32-bit memory, 64 in a 64-bit one.
abbrev pub fits_store : Bool → MemWidth → Bool
fits_store false w32 = true
fits_store true w64 = true
fits_store _ _ = false

store_typed_at :
    (m : Bool) (config : WaxConfig) (scratch : WaxScratchLocals) (ctx : Context) (width : MemWidth)
    (ts : List ValType)
    → config.memory64 ≡ m
    → get_elem? ctx.memories config.memory_index ≡ some m
    → get_elem? ctx.locals scratch.addr ≡ some i64
    → get_elem? ctx.locals scratch.value ≡ some i64
    → width ≢ w128
    → check ctx (lower config (some scratch) (store width)) (i64 ∷ i64 ∷ ts)
      ≡ (if fits_store m width then some ts else none)
unfolding check lower
store_typed_at true config scratch ctx w8 ts e at_m at_a at_v h = ground arith
store_typed_at true config scratch ctx w16 ts e at_m at_a at_v h = ground arith
store_typed_at true config scratch ctx w32 ts e at_m at_a at_v h = ground arith
store_typed_at true config scratch ctx w64 ts e at_m at_a at_v h = ground arith
store_typed_at false config scratch ctx w8 ts e at_m at_a at_v h = ground arith
store_typed_at false config scratch ctx w16 ts e at_m at_a at_v h = ground arith
store_typed_at false config scratch ctx w32 ts e at_m at_a at_v h = ground arith
store_typed_at false config scratch ctx w64 ts e at_m at_a at_v h = ground arith
store_typed_at m config scratch ctx w128 ts e at_m at_a at_v h = absurd (h refl)

-- In a module that declares the configured memory with the configured width of addresses, and both
-- scratch locals as `i64`, the code of a store of up to 64 bits is valid for 32 bits in a 32-bit memory
-- and for 64 bits in a 64-bit memory, its alignment and its memory included, and is invalid in every
-- other combination.
pub store_validates :
    (config : WaxConfig) (scratch : WaxScratchLocals) (ctx : Context) (width : MemWidth)
    (ts : List ValType)
    → get_elem? ctx.memories config.memory_index ≡ some config.memory64
    → get_elem? ctx.locals scratch.addr ≡ some i64
    → get_elem? ctx.locals scratch.value ≡ some i64
    → width ≢ w128
    → check ctx (lower config (some scratch) (store width)) (i64 ∷ i64 ∷ ts)
      ≡ (if fits_store config.memory64 width then some ts else none)
store_validates config scratch ctx width ts at_m at_a at_v h =
    store_typed_at config.memory64 config scratch ctx width ts refl at_m at_a at_v h
