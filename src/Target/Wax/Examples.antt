-- ===== src/Target/Wax/Examples.antt =====
-- Runs of the WebAssembly backend.
use os_emulation.Base.{ℕ, ◌≡◌, refl, true, false, List, [], ◌∷◌, none, some, arith}
use os_emulation.Target.Ops.{OsOp, w32, push_u64, push_u32, load, store}
use os_emulation.Target.Reference.{step, steps}
use os_emulation.Target.Host.{put}
use os_emulation.Target.Runtime.{test_env}
use os_emulation.Target.Wax.{
  i64, Function, WaxConfig, WaxScratchLocals, default_config, lower, render_to_function,
}
use os_emulation.Target.Wax.Validation.{Context, check, render_validates, store_validates}
use os_emulation.Target.Wax.Stores.{Frame, exec, store_swaps}

abbrev program : List OsOp
program = push_u32 7 ∷ push_u64 256 ∷ load w32 true ∷ []

program_means : steps test_env program [] (λ a. 9) ≡ some (9 ∷ 7 ∷ [], λ a. 9)
unfolding steps step
program_means = refl

-- A 64-bit memory before the configured one, which has 32-bit addresses, and two locals.
abbrev two_memories : Context
two_memories = record { memories = true ∷ false ∷ []; locals = i64 ∷ i64 ∷ [] }

abbrev second_memory : WaxConfig
second_memory = record { memory_index = 1; memory64 = false; ecall_import = none }

render_validates_example :
    (f : Function) × (render_to_function program second_memory ≡ some f)
    × (f.finished ≡ true)
    × (check (record { memories = true ∷ false ∷ []; locals = f.local_types }) f.body []
        ≡ some (i64 ∷ i64 ∷ []))
render_validates_example =
    render_validates test_env second_memory (true ∷ false ∷ []) program (9 ∷ 7 ∷ []) (λ a. 9)
      (λ a. 9) refl (tt, (tt, (tt, tt))) program_means

abbrev two_locals : WaxScratchLocals
two_locals = record { addr = 0; value = 1 }

store_validates_example :
    check two_memories (lower second_memory (some two_locals) (store w32)) (i64 ∷ i64 ∷ [])
    ≡ some []
store_validates_example =
    store_validates second_memory two_locals two_memories w32 [] refl refl refl (λ e. cc e)

store_swaps_example :
    (f : Frame (ℕ → ℕ)) × (exec
        (λ mem addr bits value. put mem addr value)
        (lower default_config (some two_locals) (store w32))
        (record { stack = 256 ∷ 7 ∷ []; locals = λ i. 0; mem = λ a. 0 })
      ≡ some f)
    × (f.mem ≡ put (λ a. 0) 7 256)
    × (f.stack ≡ [])
store_swaps_example =
    store_swaps (λ mem addr bits value. put mem addr value) default_config two_locals 256 7 []
      (λ i. 0) (λ a. 0) (omega arith) w32 refl refl
