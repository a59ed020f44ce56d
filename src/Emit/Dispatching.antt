-- ===== src/Emit/Dispatching.antt =====
-- What a dispatcher does with an entry of a system call table, by the comments on the fields of
-- `SyscallEntry` in crates/emit/os-syscall-emit/src/lib.rs. The dispatchers themselves are other packages.
use os_emulation.Base.{
  ℕ, ◌+◌, ◌-◌, ◌*◌, ◌/◌, ◌%◌, ◌≡◌, ◌==◌, ◌||◌, leb, ltb, if◌then◌else◌, true, List, [], ◌∷◌, map,
  Option, none, some, arith,
}
use os_emulation.Base.Words.{u32_mod, u64_mod}
use os_emulation.Emit.{
  ParamSource, local_i64_as_i32, local_i32, const_i32, const_i64, SavePair, MemoryStore,
  SyscallEntry, Entry, SyscallTable,
}

abbrev pub put : (ℕ → ℕ) → ℕ → ℕ → ℕ → ℕ
put f k v j = if k == j then v else f j

-- A memory of bytes, and its 32-bit words, the lowest byte first.
abbrev pub Memory : Type 0
Memory = ℕ → ℕ

unfoldable pub store32 : Memory → ℕ → ℕ → Memory
store32 m a v =
    put (put (put (put m a (v % 256)) (a + 1) (v / 256 % 256)) (a + 2) (v / 65536 % 256)) (a + 3)
      (v / 16777216 % 256)

unfoldable pub load32 : Memory → ℕ → ℕ
load32 m a = m a + 256 * m (a + 1) + 65536 * m (a + 2) + 16777216 * m (a + 3)

pub load32-store32 : (m : Memory) (a v : ℕ) → load32 (store32 m a v) a ≡ v % u32_mod
unfolding load32 store32
load32-store32 m a v = ground arith

store32-apart_byte :
    (m : Memory) (a v j : ℕ) → (ltb j a || leb (a + 4) j) ≡ true → store32 m a v j ≡ m j
unfolding store32
store32-apart_byte m a v j e = ground arith

pub load32-store32_apart : (m : Memory) (a v : ℕ) → load32 (store32 m (a + 4) v) a ≡ load32 m a
unfolding load32 store32
load32-store32_apart m a v = ground arith

pub store32-pair_outside :
    (m : Memory) (a v w j : ℕ)
    → store32 (store32 m a v) (a + 4) w j
      ≡ (if ltb j a || leb (a + 8) j then m j else store32 (store32 m a v) (a + 4) w j)
unfolding store32
store32-pair_outside m a v w j = ground arith

-- The guest's locals, the globals and the memory.
pub record State : Type 0 where
  pub locals : ℕ → ℕ
  pub globals : ℕ → ℕ
  pub mem : Memory

-- A handler, which gets its index, its parameters and the memory, and answers with a number, 0 for
-- success, and the memory that it leaves.
abbrev pub Handlers : Type 0
Handlers = ℕ → List ℕ → Memory → ℕ × Memory

-- The call returns to the guest, or ends the program in a handler that got these parameters.
pub data Outcome : Type 0 where
  returned : State → Outcome
  ended : ℕ → List ℕ → Outcome

abbrev pub param : (ℕ → ℕ) → ParamSource → ℕ
param locals (local_i64_as_i32 l) = locals l % u32_mod
param locals (local_i32 l) = locals l
param locals (const_i32 v) = v
param locals (const_i64 v) = v

unfoldable pub save_all : List SavePair → State → State
save_all [] s = s
save_all (p ∷ ps) s =
    save_all ps (record s { globals = put s.globals p.global_idx (s.locals p.local_idx) })

unfoldable pub store_all : (ℕ → ℕ) → List MemoryStore → Memory → Memory
store_all locals [] m = m
store_all locals (w ∷ ws) m = store_all locals ws (store32 m w.addr (locals w.value_local))

-- What goes to the guest of a handler's answer: on success the 32-bit word that is loaded, taken as
-- unsigned, or 0 where none is loaded.
abbrev pub result_of : SyscallEntry → ℕ → Memory → ℕ
result_of e errno m =
    if errno == 0
    then elim e.load_mem_on_success [ none ↦ 0 | some a ↦ load32 m a ]
    else (if e.negate_nonzero_result then u64_mod - errno else errno)

abbrev pub stash : SyscallEntry → ℕ → Memory → (ℕ → ℕ) → ℕ → ℕ
stash e errno m locals =
    if e.has_return
    then elim e.result_local [ none ↦ locals | some l ↦ put locals l (result_of e errno m) ]
    else locals

unfoldable pub run_entry : Handlers → SyscallEntry → State → Outcome
run_entry handlers e s =
    let saved = save_all e.saves s in
    let params = map (param saved.locals) e.param_map in
    let (errno, m) =
      handlers e.func_idx params (store_all saved.locals e.memory_stores saved.mem) in
    if e.terminates
    then ended e.func_idx params
    else returned (record saved { mem = m; locals = stash e errno m saved.locals })

unfoldable pub find_entry : ℕ → List Entry → Option SyscallEntry
find_entry n [] = none
find_entry n (e ∷ es) = if e.0 == n then some e.1 else find_entry n es

unfoldable pub serve : Handlers → SyscallTable → ℕ → State → Option Outcome
serve handlers table n s = elim (find_entry n table.entries) [
  | none ↦ none
  | some e ↦ some (run_entry handlers e s)
]
