-- ===== src/Emit/Transfers.antt =====
-- What the table of crates/emit/os-linux-wasi/src/lib.rs makes of the system calls of Linux.
use os_emulation.Base.{
  ℕ, ◌+◌, ◌-◌, ◌%◌, ◌≤◌, ◌≡◌, ◌==◌, ◌||◌, leb, ltb, refl, ◌∙◌, if◌then◌else◌, Option, some, [], ◌∷◌,
  map, arith,
}
use os_emulation.Base.Words.{u32_mod, u64_mod}
use os_emulation.Emit.{Entry, new, sort_entries, insert_entry}
use os_emulation.Emit.LinuxToWasi.{Builder, add_u32, transfer_entry, pushed_entries, build_table}
use os_emulation.Emit.Dispatching.{
  put, Memory, store32, load32, load32-store32, load32-store32_apart, store32-pair_outside, State,
  Handlers, Outcome, returned, ended, save_all, store_all, run_entry, find_entry, serve,
}

-- The guest after a handler's answer: in the local the value on success, the negated error otherwise.
abbrev pub after : ℕ → (Memory → ℕ) → State → ℕ × Memory → State
after l value s (errno, m) = record s {
  mem = m;
  locals = put s.locals l (if errno == 0 then value m else u64_mod - errno);
}

-- `read(fd, buf, len)` or `write(fd, buf, len)` by the WASI function `func`, of one vector at `p`:
-- the function sees the buffer and the length there, the rest of the memory as it was, and leaves the
-- number of bytes behind the vector.
abbrev pub Transferred : Handlers → ℕ → ℕ → ℕ → ℕ → ℕ → State → Option Outcome → Type 0
Transferred handlers func p fd buf len s outcome =
    (seen : Memory) × (load32 seen p ≡ s.locals buf % u32_mod)
    × (load32 seen (p + 4) ≡ s.locals len % u32_mod)
    × ((j : ℕ) → seen j ≡ (if ltb j p || leb (p + 8) j then s.mem j else seen j))
    × (outcome
        ≡ some (
            returned (
              after fd (λ m. load32 m (p + 8)) s
                (handlers func (s.locals fd % u32_mod ∷ p ∷ 1 ∷ (p + 8) ∷ []) seen))))

transfer_entry-Transferred :
    (b : Builder) (handlers : Handlers) (func a0 a1 a2 : ℕ) (s : State)
    → b.iovec_scratch_offset + 12 ≤ u32_mod
    → Transferred handlers func b.iovec_scratch_offset a0 a1 a2 s
        (some (run_entry handlers (transfer_entry b func a0 a1 a2) s))
unfolding run_entry save_all store_all
transfer_entry-Transferred b handlers func a0 a1 a2 s fits =
    let p : ℕ = b.iovec_scratch_offset in
    let behind_4 : add_u32 p 4 ≡ p + 4 = omega arith in
    let behind_8 : add_u32 p 8 ≡ p + 8 = omega arith in
    let first : Memory = store32 s.mem p (s.locals a1) in
    (
      store32 first (p + 4) (s.locals a2),
      load32-store32_apart first p (s.locals a2) ∙ load32-store32 s.mem p (s.locals a1),
      load32-store32 first (p + 4) (s.locals a2),
      store32-pair_outside s.mem p (s.locals a1) (s.locals a2),
      rw (behind_4, behind_8) refl,
    )

-- Where the scratch area ends below 2^32, the table, by a dispatcher that does what the fields of its
-- entries say, serves exactly five system calls: 63 and 64 transfer one vector of the buffer and the
-- length in a1 and a2 by `fd_read` and `fd_write`, whose count of bytes goes to a0, and 57 closes the
-- descriptor; each has the descriptor in a0, and an error negated there afterwards. 93 and 94 end the
-- program by `proc_exit` with a0.
pub build_table-serves :
    (b : Builder) (xn_local : ℕ → ℕ) (handlers : Handlers) (s : State)
    → b.iovec_scratch_offset + 12 ≤ u32_mod
    → Transferred handlers b.imports.fd_read b.iovec_scratch_offset
        (xn_local 10)
        (xn_local 11)
        (xn_local 12)
        s
        (serve handlers (build_table b xn_local) 63 s)
      × Transferred handlers b.imports.fd_write b.iovec_scratch_offset
          (xn_local 10)
          (xn_local 11)
          (xn_local 12)
          s
          (serve handlers (build_table b xn_local) 64 s)
      × (serve handlers (build_table b xn_local) 57 s
          ≡ some (
              returned (
                after
                  (xn_local 10)
                  (λ m. 0)
                  s
                  (handlers b.imports.fd_close (s.locals (xn_local 10) % u32_mod ∷ []) s.mem))))
      × (serve handlers (build_table b xn_local) 93 s
          ≡ some (ended b.imports.proc_exit (s.locals (xn_local 10) % u32_mod ∷ [])))
      × (serve handlers (build_table b xn_local) 94 s
          ≡ some (ended b.imports.proc_exit (s.locals (xn_local 10) % u32_mod ∷ [])))
      × (map {B = ℕ} (λ (e : Entry). e.0) (build_table b xn_local).entries
          ≡ 57 ∷ 63 ∷ 64 ∷ 93 ∷ 94 ∷ [])
unfolding build_table pushed_entries new sort_entries insert_entry serve find_entry run_entry
    save_all store_all
build_table-serves b xn_local handlers s fits = (
  transfer_entry-Transferred b handlers b.imports.fd_read (xn_local 10) (xn_local 11) (xn_local 12)
      s fits,
  transfer_entry-Transferred b handlers b.imports.fd_write (xn_local 10) (xn_local 11) (xn_local 12)
      s fits,
  refl,
  refl,
  refl,
  refl,
)
