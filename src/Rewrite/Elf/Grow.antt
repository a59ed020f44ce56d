-- ===== src/Rewrite/Elf/Grow.antt =====
-- What the last loop of `rewrite_elf` does to the dynamic array.
use os_emulation.Base.{
  ℕ, zero, suc, ◌+◌, ◌*◌, ◌%◌, ◌^◌, ◌≤◌, ◌<◌, ◌≡◌, ◌≢◌, ◌⊎◌, refl, ap, ◌∙◌, ok, Bytes, length,
  get_or, ◌==◌, Bool-cases, inl, inr, ==_iff, ne→==, arith,
}
use os_emulation.Base.Words.{u64_mod}
use os_emulation.Rewrite.Buffer.{le_at, to_le, overwrite}
use os_emulation.Rewrite.BufferLaws.{
  read_le-inside, write_le-inside, overwrite_outside, length-overwrite, length-to_le,
  overwrite-to_le_self, le_at-SameBytes,
}
use os_emulation.Rewrite.Elf.{grow_loop, read_u64_le, write_u64_le, truncated, dt_strsz, dt_null}
use os_emulation.Rewrite.Elf.Layout.{entries_at, NoNull, grow, cons_entries, entries_at-SameBytes}

-- The file after the loop: the array has grown, and all else is as before.
pub record Grown (k : ℕ) (out : Bytes) (off size : ℕ) (out' : Bytes) : Type 0 where
  pub same_length : length out' ≡ length out
  pub array : entries_at k out' off ≡ grow size (entries_at k out off)
  pub elsewhere : (i : ℕ) → (i < off) ⊎ (off + 16 * k ≤ i) → get_or out' i 0 ≡ get_or out i 0

module _ (size : ℕ) (small : size < u64_mod) where
  at_strsz :
      (k : ℕ) (out : Bytes) (off : ℕ)
      → off + 16 * suc k ≤ length out
      → le_at 8 out off ≡ dt_strsz
      → Grown (suc k) out off size (overwrite out (off + 8) (to_le 8 size))
  unfolding entries_at grow
  at_strsz k out off h e = record {
    same_length = length-overwrite out (off + 8) (to_le 8 size);
    array = rw e (
        cons_entries
          (le_at-SameBytes 8 out' out off (off + 8) (omega arith)
              (λ i p q. overwrite_outside out (off + 8) (to_le 8 size) i (inl q))
            ∙ e)
          (overwrite-to_le_self 8 out (off + 8) size (omega arith) small)
          (entries_at-SameBytes k out' out (off + 16) (off + 16 + 16 * k) (omega arith)
            (λ i p q. behind i p)));
    elsewhere = λ i p. elim p [
      | inl q ↦ overwrite_outside out (off + 8) (to_le 8 size) i (inl (omega arith))
      | inr q ↦ behind i (omega arith)
    ];
  }
    where
      out' : Bytes
      out' = overwrite out (off + 8) (to_le 8 size)

      behind : (i : ℕ) → off + 16 ≤ i → get_or out' i 0 ≡ get_or out i 0
      behind i p =
          overwrite_outside out (off + 8) (to_le 8 size) i
            (inr (omega (arith, length-to_le 8 size)))

  passed :
      (k : ℕ) (out out' : Bytes) (off : ℕ)
      → le_at 8 out off ≢ dt_strsz
      → Grown k out (off + 16) size out'
      → Grown (suc k) out off size out'
  unfolding entries_at grow
  passed k out out' off ne g = record {
    same_length = g.same_length;
    array = rw (ne→== (le_at 8 out off) dt_strsz ne) (
        cons_entries
          (le_at-SameBytes 8 out' out off (off + 16) (omega arith)
            (λ i p q. g.elsewhere i (inl (omega arith))))
          (le_at-SameBytes 8 out' out (off + 8) (off + 16) (omega arith)
            (λ i p q. g.elsewhere i (inl (omega arith))))
          g.array);
    elsewhere = λ i p. elim p [
      | inl q ↦ g.elsewhere i (inl (omega arith))
      | inr q ↦ g.elsewhere i (inr (omega arith))
    ];
  }

  -- Over an array of `k` entries that ends, with fuel for it, the loop succeeds.
  pub grow_loop-Grown :
      (k fuel : ℕ) (out : Bytes) (off : ℕ)
      → length out < 2 ^ 63
      → off + 16 * k + 16 ≤ length out
      → NoNull (entries_at k out off)
      → le_at 8 out (off + 16 * k) ≡ dt_null
      → k < fuel
      → (out' : Bytes) × (grow_loop fuel out off size ≡ ok out') × Grown k out off size out'
  unfolding grow_loop read_u64_le write_u64_le entries_at grow
  grow_loop-Grown k zero out off f h before end lt = absurd (omega arith)
  grow_loop-Grown zero (suc fuel) out off f h before end lt =
      let here : le_at 8 out off ≡ 0 = ap (le_at 8 out) (omega arith) ∙ end in
      (
        out,
        rw (read_le-inside truncated 8 out off f (omega arith)) (rw here refl),
        record { same_length = refl; array = refl; elsewhere = λ i p. refl },
      )
  grow_loop-Grown (suc k) (suc fuel) out off f h (first, before) end lt =
      elim (Bool-cases (le_at 8 out off == dt_strsz)) [
        | inl found ↦ (
          overwrite out (off + 8) (to_le 8 size),
          rw (read_le-inside truncated 8 out off f (omega arith)) (
              rw found (
                rw (in_file 8 (omega arith))
                  (write_le-inside 8 out (off + 8) size f (omega arith)))),
          at_strsz k out off (omega arith) ((==_iff (le_at 8 out off) dt_strsz).0 found),
        )
        | inr other ↦
            let (out', runs, g) =
              grow_loop-Grown k fuel out (off + 16) f (omega arith) before
                (ap (le_at 8 out) (omega arith) ∙ end) (omega arith) in
            (
              out',
              rw (read_le-inside truncated 8 out off f (omega arith)) (
                  rw other
                    (rw (ne→== (le_at 8 out off) 0 first) (rw (in_file 16 (omega arith)) runs))),
              passed k out out' off (ground arith) g,
            )
      ]
    where
      in_file : (n : ℕ) → off + n ≤ length out → (off + n) % u64_mod ≡ off + n
      in_file n p = omega (arith, f)
