-- ===== src/Emit/Examples.antt =====
-- The table for four imports and registers at locals of their own number, with handlers that answer
-- with error 8 for the descriptor 9, and else with the length of the vector.
use os_emulation.Base.{ℕ, ◌+◌, ◌==◌, ◌≡◌, ◌%◌, if◌then◌else◌, List, [], ◌∷◌, some, map, arith}
use os_emulation.Base.Words.{u32_mod}
use os_emulation.Emit.{Entry}
use os_emulation.Emit.LinuxToWasi.{WasiImports, builder, iovec_scratch_offset, build_table}
use os_emulation.Emit.Dispatching.{Memory, store32, load32, State, Handlers, returned, ended, serve}
use os_emulation.Emit.Transfers.{after, Transferred, build_table-serves}

abbrev imports : WasiImports
imports = record { fd_write = 3; fd_read = 2; fd_close = 1; proc_exit = 0 }

abbrev answer : List ℕ → Memory → ℕ × Memory
answer (fd ∷ p ∷ _ ∷ count ∷ []) m =
    if fd == 9 then (8, m) else (0, store32 m count (load32 m (p + 4)))
answer _ m = (0, m)

abbrev handlers : Handlers
handlers func params m = answer params m

abbrev guest : State
guest = record { locals = λ r. 100 + r; globals = λ g. 0; mem = λ a. 0 }

build_table-serves_example :
    Transferred handlers 2 iovec_scratch_offset 10 11 12 guest
      (serve handlers (build_table (builder imports) (λ r. r)) 63 guest)
    × Transferred handlers 3 iovec_scratch_offset 10 11 12 guest
        (serve handlers (build_table (builder imports) (λ r. r)) 64 guest)
    × (serve handlers (build_table (builder imports) (λ r. r)) 57 guest
        ≡ some (returned (after 10 (λ m. 0) guest (handlers 1 (110 % u32_mod ∷ []) guest.mem))))
    × (serve handlers (build_table (builder imports) (λ r. r)) 93 guest
        ≡ some (ended 0 (110 % u32_mod ∷ [])))
    × (serve handlers (build_table (builder imports) (λ r. r)) 94 guest
        ≡ some (ended 0 (110 % u32_mod ∷ [])))
    × (map {B = ℕ} (λ (e : Entry). e.0) (build_table (builder imports) (λ r. r)).entries
        ≡ 57 ∷ 63 ∷ 64 ∷ 93 ∷ 94 ∷ [])
build_table-serves_example =
    build_table-serves (builder imports) (λ r. r) handlers guest (omega arith)
