-- ===== src/Target/Wax/Stores.antt =====
-- What the code of a store in the WebAssembly backend writes, and where. The memory's own writes are a
-- parameter.
use os_emulation.Base.{
  ℕ, ◌%◌, ◌^◌, ◌≡◌, ◌≢◌, refl, ap, sym, eq_refl, ne→==, Bool, true, false, List, [], ◌∷◌, Option,
  none, some, arith,
}
use os_emulation.Target.Ops.{MemWidth, w8, w16, w32, w64, w128, store}
use os_emulation.Target.Host.{put}
use os_emulation.Target.Wax.{
  Instr, i32_wrap_i64, i32_store, i64_store, i64_store8, i64_store16, local_set, local_get,
  WaxConfig, WaxScratchLocals, lower,
}
use os_emulation.Target.Wax.Validation.{fits_store}

-- The stack, the locals and the memory.
pub record Frame (M : Type 0) : Type 0 where
  pub stack : List ℕ
  pub locals : ℕ → ℕ
  pub mem : M

-- `write mem addr bits value`
abbrev Write : Type 0 → Type 0
Write M = M → ℕ → ℕ → ℕ → M

-- The width whose stores validate.
abbrev pub bits_of : Bool → ℕ
bits_of true = 64
bits_of false = 32

module _ {M : Type 0} (write : Write M) where
  -- A store takes the value from the top and the address from below it.
  abbrev write_top : ℕ → Frame M → Option (Frame M)
  write_top bits f = elim f.stack [
    | value ∷ addr ∷ xs ↦
        some (record f { stack = xs; mem = write f.mem addr bits (value % 2 ^ bits) })
    | _ ↦ none
  ]

  -- The instructions that stores are made of.
  abbrev exec_one : Instr → Frame M → Option (Frame M)
  exec_one i32_wrap_i64 f = elim f.stack [
    | x ∷ xs ↦ some (record f { stack = x % 2 ^ 32 ∷ xs })
    | [] ↦ none
  ]
  exec_one (local_set i) f = elim f.stack [
    | x ∷ xs ↦ some (record f { stack = xs; locals = put f.locals i x })
    | [] ↦ none
  ]
  exec_one (local_get i) f = some (record f { stack = f.locals i ∷ f.stack })
  exec_one (i64_store8 arg) f = write_top 8 f
  exec_one (i64_store16 arg) f = write_top 16 f
  exec_one (i32_store arg) f = write_top 32 f
  exec_one (i64_store arg) f = write_top 64 f
  exec_one _ f = none

  unfoldable pub exec : List Instr → Frame M → Option (Frame M)
  exec [] f = some f
  exec (i ∷ is) f = elim (exec_one i f) [ none ↦ none | some g ↦ exec is g ]

  module _ (config : WaxConfig) (scratch : WaxScratchLocals) (a v : ℕ) (xs : List ℕ)
      (locals : ℕ → ℕ) (mem : M) (apart : scratch.addr ≢ scratch.value) where
    abbrev captured : ℕ → ℕ
    captured = put (put locals scratch.addr a) scratch.value v

    captured_value : captured scratch.value ≡ v
    captured_value = rw (eq_refl scratch.value) refl

    captured_addr : captured scratch.addr ≡ a
    captured_addr =
        rw (ne→== scratch.value scratch.addr (λ e. apart (sym e)), eq_refl scratch.addr) refl

    abbrev pub before : Frame M
    before = record { stack = a ∷ v ∷ xs; locals = locals; mem = mem }

    abbrev written : ℕ → Frame M
    written bits = record {
      stack = xs;
      locals = captured;
      mem = write mem (v % 2 ^ bits) bits (a % 2 ^ bits);
    }

    wide_swap :
        config.memory64 ≡ true
        → v % 2 ^ 64 ≡ v
        → exec (lower config (some scratch) (store w64)) before ≡ some (written 64)
    unfolding exec lower
    wide_swap wide word = rw (wide, captured_addr, captured_value, word) refl

    narrow_swap :
        config.memory64 ≡ false
        → exec (lower config (some scratch) (store w32)) before ≡ some (written 32)
    unfolding exec lower
    narrow_swap narrow =
        rw (narrow, captured_addr, captured_value)
          (ap
            (λ (y : ℕ).
              some (record { stack = xs; locals = captured; mem = write mem (v % 2 ^ 32) 32 y }))
            (omega arith))

    -- Where the code of a store validates, it writes the operands the wrong way round: from `a` on
    -- top and a 64-bit word `v` below it, the operation means to write `v` at the address `a`, and
    -- the code writes `a` at the address `v`, both cut to the width. The scratch locals are two
    -- locals.
    pub store_swaps :
        (width : MemWidth)
        → fits_store config.memory64 width ≡ true
        → v % 2 ^ 64 ≡ v
        → (f : Frame M) × (exec (lower config (some scratch) (store width)) before ≡ some f)
          × (f.mem
              ≡ write mem
                  (v % 2 ^ bits_of config.memory64)
                  (bits_of config.memory64)
                  (a % 2 ^ bits_of config.memory64))
          × (f.stack ≡ xs)
    store_swaps width fits word = swapped config.memory64 width refl fits
      where
        swapped :
            (m : Bool) (width : MemWidth)
            → config.memory64 ≡ m
            → fits_store m width ≡ true
            → (f : Frame M) × (exec (lower config (some scratch) (store width)) before ≡ some f)
              × (f.mem ≡ write mem (v % 2 ^ bits_of m) (bits_of m) (a % 2 ^ bits_of m))
              × (f.stack ≡ xs)
        swapped true w64 e h = (written 64, wide_swap e word, refl, refl)
        swapped false w32 e h = (written 32, narrow_swap e, refl, refl)
        swapped true w8 e h = absurd (cc h)
        swapped true w16 e h = absurd (cc h)
        swapped true w32 e h = absurd (cc h)
        swapped true w128 e h = absurd (cc h)
        swapped false w8 e h = absurd (cc h)
        swapped false w16 e h = absurd (cc h)
        swapped false w64 e h = absurd (cc h)
        swapped false w128 e h = absurd (cc h)
