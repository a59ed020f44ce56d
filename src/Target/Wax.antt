-- ===== src/Target/Wax.antt =====
-- The WebAssembly backend, crates/target/os-target-wax/src/lib.rs: the instructions that it gives to
-- its sink, in order, and whether it has finished it. What the sink answers is dropped (`.ok()`).
pub mod Validation
pub mod Stores
mod Examples
use os_emulation.Base.{ℕ, Bool, true, false, if◌then◌else◌, List, [], ◌∷◌, ◌++◌, Option, none, some}
use os_emulation.Target.Ops.{
  MemWidth, w8, w16, w32, w64, w128, OsOp, push_u64, push_u32, pop, load, store, ecall, jump, trap,
  tail_call,
}

-- `wasm_encoder::ValType`, of what is used here
pub data ValType : Type 0 where
  i32 i64 : ValType

-- `memory_index` is `MemArg`'s field; its `offset` is 0.
pub record MemArg : Type 0 where
  pub align : ℕ
  pub memory_index : ℕ

-- The instructions of `wasm_encoder` that the backend emits. A constant is its 64 bits.
pub data Instr : Type 0 where
  i64_const : ℕ → Instr
  drop_value : Instr
  i32_wrap_i64 i64_extend_i32_s i64_extend_i32_u : Instr
  i64_load8_s i64_load8_u i64_load16_s i64_load16_u i32_load i64_load : MemArg → Instr
  i64_store8 i64_store16 i32_store i64_store : MemArg → Instr
  local_set local_get : ℕ → Instr
  call : ℕ → Instr
  unreachable : Instr

pub record WaxConfig : Type 0 where
  pub memory_index : ℕ
  pub memory64 : Bool
  pub ecall_import : Option ℕ

abbrev pub default_config : WaxConfig
default_config = record { memory_index = 0; memory64 = false; ecall_import = none }

pub record WaxScratchLocals : Type 0 where
  pub addr : ℕ
  pub value : ℕ

-- The backend: what its sink has been given, whether it was told to finish, and the configuration.
pub record WaxBackend : Type 0 where
  pub sink : List Instr
  pub finished : Bool
  pub config : WaxConfig
  pub scratch : Option WaxScratchLocals

abbrev pub new : List Instr → WaxConfig → WaxBackend
new sink config = record { sink = sink; finished = false; config = config; scratch = none }

abbrev pub with_scratch : List Instr → WaxConfig → WaxScratchLocals → WaxBackend
with_scratch sink config scratch = record {
  sink = sink;
  finished = false;
  config = config;
  scratch = some scratch;
}

abbrev pub emit_addr : WaxConfig → List Instr
emit_addr config = if config.memory64 then [] else i32_wrap_i64 ∷ []

abbrev pub alignment : MemWidth → ℕ
alignment w8 = 0
alignment w16 = 1
alignment w32 = 2
alignment w64 = 3
alignment w128 = 4

abbrev pub memarg : WaxConfig → MemWidth → MemArg
memarg config width = record { align = alignment width; memory_index = config.memory_index }

abbrev pub emit_load_extend : WaxConfig → MemWidth → Bool → List Instr
emit_load_extend config w8 true = i64_load8_s (memarg config w8) ∷ []
emit_load_extend config w8 false = i64_load8_u (memarg config w8) ∷ []
emit_load_extend config w16 true = i64_load16_s (memarg config w16) ∷ []
emit_load_extend config w16 false = i64_load16_u (memarg config w16) ∷ []
emit_load_extend config w32 true = i32_load (memarg config w32) ∷ i64_extend_i32_s ∷ []
emit_load_extend config w32 false = i32_load (memarg config w32) ∷ i64_extend_i32_u ∷ []
emit_load_extend config w64 signed = i64_load (memarg config w64) ∷ []
emit_load_extend config w128 signed = unreachable ∷ []

abbrev pub emit_store_wrap : WaxConfig → MemWidth → List Instr
emit_store_wrap config w8 = i64_store8 (memarg config w8) ∷ []
emit_store_wrap config w16 = i64_store16 (memarg config w16) ∷ []
emit_store_wrap config w32 = i32_store (memarg config w32) ∷ []
emit_store_wrap config w64 = i64_store (memarg config w64) ∷ []
emit_store_wrap config w128 = unreachable ∷ []

-- `width == W32 || width == W8 || width == W16`
abbrev pub wraps_value : MemWidth → Bool
wraps_value w32 = true
wraps_value w8 = true
wraps_value w16 = true
wraps_value _ = false

-- The instructions that `op` emits.
unfoldable pub lower : WaxConfig → Option WaxScratchLocals → OsOp → List Instr
lower config scratch (push_u64 v) = i64_const v ∷ []
lower config scratch (push_u32 v) = i64_const v ∷ []
lower config scratch pop = drop_value ∷ []
lower config scratch (load width signed) = emit_addr config ++ emit_load_extend config width signed
lower config none (store width) = unreachable ∷ []
lower config (some scratch) (store width) =
    local_set scratch.addr
    ∷ local_set scratch.value
    ∷ local_get scratch.value
    ∷ ((if wraps_value width then i32_wrap_i64 ∷ [] else [])
        ++ (local_get scratch.addr ∷ (emit_addr config ++ emit_store_wrap config width)))
lower config scratch (ecall may_await) = elim config.ecall_import [
  | some index ↦ call index ∷ []
  | none ↦ unreachable ∷ []
]
lower config scratch (jump target) = unreachable ∷ []
lower config scratch (tail_call helper) = unreachable ∷ []
lower config scratch trap = unreachable ∷ []

unfoldable pub op : WaxBackend → OsOp → WaxBackend
unfolding lower
op b o = record b { sink = b.sink ++ lower b.config b.scratch o }

-- `for op in ops { backend.op(op.clone()) }`
unfoldable pub emit : WaxBackend → List OsOp → WaxBackend
unfolding op
emit b [] = b
emit b (o ∷ ops) = emit (op b o) ops

-- `sink.finish()`
unfoldable pub finish : WaxBackend → WaxBackend
finish b = record b { finished = true }

-- `wasm_encoder::Function`: the types of its locals, its instructions, and whether `finish` was called.
pub record Function : Type 0 where
  pub local_types : List ValType
  pub body : List Instr
  pub finished : Bool

unfoldable pub render_to_function : List OsOp → WaxConfig → Option Function
unfolding emit finish
render_to_function ops config =
    let backend = finish (emit (new [] config) ops) in
    some (record { local_types = []; body = backend.sink; finished = backend.finished })
