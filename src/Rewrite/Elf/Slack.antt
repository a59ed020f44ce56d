-- ===== src/Rewrite/Elf/Slack.antt =====
-- When `rewrite_elf` has the room that it needs: empty slots and zero bytes behind the strings.
use os_emulation.Base.{
  ℕ, zero, suc, ◌+◌, ◌-◌, ◌*◌, ◌%◌, ◌≤◌, ◌<◌, ◌≡◌, ◌⊎◌, refl, sym, ap, ◌∙◌, true, false, ok, err,
  Bool, err-not-ok, guard, ◌>>◌, Result-cases, ◌>>=◌, Bytes, length, leb, eq_refl, leb→le, le→leb,
  ◌==◌, inl, inr, ==_iff, arith,
}
use os_emulation.Base.Words.{u64_mod}
use os_emulation.Rewrite.Buffer.{refused, le_at, overwrite, copy_from_slice, all_zero}
use os_emulation.Rewrite.BufferLaws.{IsFile, read_le-inside, read_le-ok}
use os_emulation.Rewrite.Elf.{
  DynamicSection, RewriteError, no_free_string_table_space, truncated, read_u64_le, slots_loop,
  stage_strings, Rewritten,
}
use os_emulation.Rewrite.Elf.Scan.{read_u64_le-refused}

-- The `j`-th slot behind the terminator at `t` lies in the file and is empty.
pub record EmptySlot (original : Bytes) (t j : ℕ) : Type 0 where
  pub inside : t + 16 * j + 16 ≤ length original
  pub tag : le_at 8 original (t + 16 * j) ≡ 0
  pub val : le_at 8 original (t + 16 * j + 8) ≡ 0

-- So are `left` slots from the `i`-th on.
abbrev pub EmptySlots : Bytes → ℕ → ℕ → ℕ → Type 0
EmptySlots original t zero i = Unit {0}
EmptySlots original t (suc left) i = EmptySlot original t i × EmptySlots original t left (suc i)

-- A run ends well, with what it promises, or is refused for want of what it needs.
abbrev pub Decides : {A : Type 0} → Type 0 → Rewritten A → (A → Type 0) → Type 0
Decides {A} Needs run Gives =
    (Needs × ((a : A) × (run ≡ ok a) × Gives a))
    ⊎ ((Needs → ⊥) × ((e : RewriteError) × (run ≡ err (refused e))))

-- The same, where what is needed is said otherwise.
pub Decides-needs :
    {A N N' : Type 0} (run : Rewritten A) (Gives : A → Type 0)
    → (N → N')
    → (N' → N)
    → Decides N run Gives
    → Decides N' run Gives
Decides-needs run Gives to from (inl (needs, gives)) = inl (to needs, gives)
Decides-needs run Gives to from (inr (lacks, refuses)) = inr (λ needs. lacks (from needs), refuses)

-- What is needed on top of it is there.
more_needed :
    {A More N : Type 0} (run : Rewritten A) (Gives : A → Type 0)
    → More
    → Decides N run Gives
    → Decides (More × N) run Gives
more_needed run Gives more d = Decides-needs run Gives (λ n. (more, n)) (λ p. p.1) d

-- A guard in front.
pub guard_then :
    {A N : Type 0} (holds : Bool) (e : RewriteError) (rest : Rewritten A) (Gives : A → Type 0)
    → (holds ≡ true → Decides N rest Gives)
    → Decides ((holds ≡ true) × N) (guard holds (refused e) >> rest) Gives
guard_then true e rest Gives d = more_needed rest Gives refl (d refl)
guard_then false e rest Gives d = inr (λ p. (cc p.0), (e, refl))

-- The eight bytes at an offset lie in the file and are zero.
abbrev ZeroWord : Bytes → ℕ → Type 0
ZeroWord original off = (off + 8 ≤ length original) × (le_at 8 original off ≡ 0)

-- A read of such bytes in front.
zero_then :
    {A N : Type 0} (original : Bytes) (off : ℕ)
    → IsFile original
    → off < u64_mod
    → (rest : Rewritten A) (Gives : A → Type 0) → Decides N rest Gives
    → Decides
        (ZeroWord original off × N)
        (read_u64_le original off >>= λ tag.
          guard (tag == 0) (refused no_free_string_table_space) >> rest)
        Gives
unfolding read_u64_le
zero_then {A} {N} original off f small rest Gives d =
    elim (Result-cases (read_u64_le original off)) [
      | inr (e, p) ↦ inr (
        λ needs.
            absurd (err-not-ok (sym p ∙ read_le-inside truncated 8 original off f.fits needs.0.0)),
        (truncated, rw p (ap err (read_u64_le-refused original off e p))),
      )
      | inl (tag, p) ↦
          let (inside, is_tag) =
            read_le-ok truncated 8 original off tag (omega arith) small f.fits p in
          rw p (
            Decides-needs (guard (tag == 0) (refused no_free_string_table_space) >> rest) Gives
              (λ q. ((inside, sym is_tag ∙ (==_iff tag 0).0 q.0), q.1))
              (λ q. ((==_iff tag 0).1 (is_tag ∙ q.0.1), q.1))
              (guard_then (tag == 0) no_free_string_table_space rest Gives (λ is_zero. d)))
    ]

pub slots_loop-EmptySlots :
    (left i : ℕ) (original : Bytes) (t : ℕ)
    → IsFile original
    → t + 16 * (i + left) + 16 < u64_mod
    → Decides (EmptySlots original t left i) (slots_loop left i original t) (λ u. Unit {0})
unfolding slots_loop
slots_loop-EmptySlots zero i original t f small = inl (tt, (tt, refl, tt))
slots_loop-EmptySlots (suc left) i original t f small =
    let here : (t + 16 * i) % u64_mod ≡ t + 16 * i = omega arith in
    let there : (t + 16 * i + 8) % u64_mod ≡ t + 16 * i + 8 = omega arith in
    let rest = slots_loop left (suc i) original t in
    rw here (
      rw there (
        Decides-needs _ _
          (λ q. (record { inside = omega arith; tag = q.0.1; val = q.1.0.1 }, q.1.1))
          (λ q. ((omega (arith, q.0.inside), q.0.tag), ((omega (arith, q.0.inside), q.0.val), q.1)))
          (zero_then original (t + 16 * i) f (omega arith) _ _ (
            zero_then original (t + 16 * i + 8) f (omega arith) rest _
              (slots_loop-EmptySlots left (suc i) original t f (omega arith))))))

-- The strings of `n` bytes fit into zero bytes from `start` on.
pub record Padding (original : Bytes) (start n : ℕ) : Type 0 where
  pub inside : start + n ≤ length original
  pub zeros : all_zero n original start ≡ true

abbrev pub strings_start : DynamicSection → ℕ
strings_start section = section.strtab_file_offset + section.strsz

pub stage_strings-Padding :
    (original : Bytes) (section : DynamicSection) (strings : Bytes)
    → strings_start section + length strings < u64_mod
    → Decides
        (Padding original (strings_start section) (length strings))
        (stage_strings original section strings)
        (λ out. out ≡ overwrite original (strings_start section) strings)
unfolding stage_strings copy_from_slice
stage_strings-Padding original section strings small =
    let start = strings_start section in
    let here : (section.strtab_file_offset + section.strsz) % u64_mod ≡ start = omega arith in
    let there : (start + length strings) % u64_mod ≡ start + length strings = omega arith in
    let gap : start + length strings - start ≡ length strings = omega arith in
    rw here (
      rw there (
        rw gap (
          Decides-needs _ _
            (λ q. record {
              inside = leb→le (start + length strings) (length original) q.0;
              zeros = q.1.0;
            })
            (λ q. (le→leb (start + length strings) (length original) q.inside, (q.zeros, tt)))
            (guard_then {N = (all_zero (length strings) original start ≡ true) × Unit {0}}
              (leb (start + length strings) (length original)) no_free_string_table_space _ _
              (λ fits. rw (le→leb start (start + length strings) (omega arith)) (
                guard_then {N = Unit {0}} (all_zero (length strings) original start)
                  no_free_string_table_space _ _
                  (λ zeros. inl (
                    tt,
                    (
                      overwrite original start strings,
                      rw fits (rw (eq_refl (start + length strings)) refl),
                      refl,
                    ),
                  ))))))))

pub Decides-bind :
    {A B N N' : Type 0} (run : Rewritten A) (next : A → Rewritten B) (Gives : A → Type 0)
    (Gives' : B → Type 0)
    → Decides N run Gives
    → (N → (a : A) → Gives a → Decides N' (next a) Gives')
    → Decides (N × N') (run >>= next) Gives'
Decides-bind run next Gives Gives' (inl (needs, (a, p, g))) d =
    rw p (more_needed (next a) Gives' needs (d needs a g))
Decides-bind run next Gives Gives' (inr (lacks, (e, p))) d = inr (λ q. lacks q.0, (e, rw p refl))
