-- ===== src/Rewrite/Elf/Scan.antt =====
-- What `find_dynamic_section` finds: the end of the array, with no end before it.
use os_emulation.Base.{
  ℕ, zero, suc, ◌+◌, ◌*◌, ◌%◌, ◌≤◌, ◌<◌, ◌≡◌, ◌≢◌, ◌⊎◌, sym, subst, ap, ◌∙◌, none, some, Result, ok,
  err, ok-injective, >>=-eq-ok, Result-cases, Bytes, length, leb, ◌==◌, Bool-cases, inl, inr,
  ==_iff, arith,
}
use os_emulation.Base.Words.{u64_mod}
use os_emulation.Rewrite.Buffer.{Fault, refused, out_of_fuel, le_at, read_le}
use os_emulation.Rewrite.BufferLaws.{IsFile, read_le-ok}
use os_emulation.Rewrite.Elf.{Found, note_entry, dynamic_loop, read_u64_le, truncated, RewriteError}
use os_emulation.Rewrite.Elf.Layout.{entries_at, NoNull}

-- The array from `off` on ends at `t`, inside the segment and the file.
pub record EndsAt (input : Bytes) (off t : ℕ) : Type 0 where
  pub count : ℕ
  pub place : t ≡ off + 16 * count
  pub inside : t + 16 ≤ length input
  pub before : NoNull (entries_at count input off)
  pub null : le_at 8 input t ≡ 0

-- A round of the loop that read its entry.
record Round (input : Bytes) (off tag val : ℕ) : Type 0 where
  inside : off + 16 ≤ length input
  is_tag : tag ≡ le_at 8 input off
  is_val : val ≡ le_at 8 input (off + 8)

dynamic_loop_reads :
    (input : Bytes) (off tag val : ℕ)
    → IsFile input
    → off < u64_mod
    → read_u64_le input off ≡ ok tag
    → read_u64_le input ((off + 8) % u64_mod) ≡ ok val
    → Round input off tag val
unfolding read_u64_le
dynamic_loop_reads input off tag val f lo p q =
    let (first, is_tag) = read_le-ok truncated 8 input off tag (omega arith) lo f.fits p in
    let here : (off + 8) % u64_mod ≡ off + 8 = omega (arith, f.fits) in
    let (second, is_val) =
      read_le-ok truncated 8 input (off + 8) val (omega arith) (omega (arith, f.fits)) f.fits
        (ap (read_le truncated 8 input) (sym here) ∙ q) in
    record { inside = omega arith; is_tag = is_tag; is_val = is_val }

note_entry_end :
    (tag val : ℕ) (f : Found) → (note_entry tag val f).terminator_offset ≡ f.terminator_offset
unfolding note_entry
note_entry_end tag val f = ground arith

last_entry :
    (input : Bytes) (off t : ℕ) {tag : ℕ}
    → off + 16 ≤ length input
    → tag ≡ le_at 8 input off
    → tag ≡ 0
    → off ≡ t
    → EndsAt input off t
unfolding entries_at
last_entry input off t inside is_tag z same = record {
  count = 0;
  place = omega arith;
  inside = omega arith;
  before = tt;
  null = ap (λ (o : ℕ). le_at 8 input o) (sym same) ∙ sym is_tag ∙ z;
}

further :
    (input : Bytes) (off t tag : ℕ)
    → tag ≢ 0
    → tag ≡ le_at 8 input off
    → EndsAt input (off + 16) t
    → EndsAt input off t
unfolding entries_at
further input off t tag nonzero is_tag e = record {
  count = suc e.count;
  place = omega (arith, e.place);
  inside = e.inside;
  before = (λ z. nonzero (is_tag ∙ z), e.before);
  null = e.null;
}

-- How a round that gave a result went on.
abbrev Went : ℕ → Bytes → ℕ → ℕ → Found → Found → Type 0
Went fuel input seg_end off before after =
    (after ≡ before)
    ⊎ ((tag : ℕ) × (val : ℕ) × (read_u64_le input off ≡ ok tag)
        × (read_u64_le input ((off + 8) % u64_mod) ≡ ok val)
        × (((tag ≡ 0) × (after ≡ record before { terminator_offset = some off }))
            ⊎ ((tag ≢ 0)
                × (dynamic_loop fuel input seg_end ((off + 16) % u64_mod)
                      (note_entry tag val before)
                    ≡ ok after))))

dynamic_loop_goes :
    (fuel : ℕ) (input : Bytes) (seg_end off : ℕ) (before after : Found)
    → dynamic_loop (suc fuel) input seg_end off before ≡ ok after
    → Went fuel input seg_end off before after
unfolding dynamic_loop
dynamic_loop_goes fuel input seg_end off before after h =
    elim (Bool-cases (leb ((off + 16) % u64_mod) seg_end)) [
      | inr over ↦ inl (sym (ok-injective (rw over at h)))
      | inl more ↦
          let h' = rw more at h in
          let (tag, p, h1) = >>=-eq-ok (read_u64_le input off) _ h' in
          let (val, q, h2) = >>=-eq-ok (read_u64_le input ((off + 8) % u64_mod)) _ h1 in
          inr (
            tag,
            val,
            p,
            q,
            elim (Bool-cases (tag == 0)) [
              | inl last ↦ inl ((==_iff tag 0).0 last, sym (ok-injective (rw last at h2)))
              | inr other ↦ inr (ground arith, rw other at h2)
            ],
          )
    ]

pub dynamic_loop-EndsAt :
    (fuel : ℕ) (input : Bytes) (seg_end off t : ℕ) (before after : Found)
    → IsFile input
    → off < u64_mod
    → before.terminator_offset ≡ none
    → dynamic_loop fuel input seg_end off before ≡ ok after
    → after.terminator_offset ≡ some t
    → EndsAt input off t
dynamic_loop-EndsAt zero input seg_end off t before after f lo b h e = unfold dynamic_loop in cc h
dynamic_loop-EndsAt (suc fuel) input seg_end off t before after f lo b h e =
    elim (dynamic_loop_goes fuel input seg_end off before after h) [
      | inl same ↦ cc
      | inr (tag, val, p, q, inl (zero_tag, found)) ↦
          let r = dynamic_loop_reads input off tag val f lo p q in
          let same : some off ≡ some t = sym (ap (λ (x : Found). x.terminator_offset) found) ∙ e in
          last_entry input off t r.inside r.is_tag zero_tag (cc same)
      | inr (tag, val, p, q, inr (nonzero, rest)) ↦
          let r = dynamic_loop_reads input off tag val f lo p q in
          let here : (off + 16) % u64_mod ≡ off + 16 = omega (arith, f.fits, r.inside) in
          let found =
            dynamic_loop-EndsAt fuel input seg_end ((off + 16) % u64_mod) t
              (note_entry tag val before) after f (omega arith) (note_entry_end tag val before ∙ b)
              rest e in
          further input off t (tag) nonzero r.is_tag
            (subst (λ (o : ℕ). EndsAt input o t) here found)
    ]

-- A read never runs out of fuel.
pub read_u64_le-refused :
    (buf : Bytes) (off : ℕ) (e : Fault RewriteError)
    → read_u64_le buf off ≡ err e
    → e ≡ refused truncated
unfolding read_u64_le read_le
read_u64_le-refused buf off e h = ground arith

refused-ne-fuel :
    {A : Type 0} {x : RewriteError} {e : Fault RewriteError}
    → e ≡ refused x
    → ◌≢◌ {A = Result (Fault RewriteError) A} (err e) (err out_of_fuel)
refused-ne-fuel p h = cc

-- With fuel for the rest of the file the loop ends: each round leaves an entry of the file behind.
pub dynamic_loop-ends :
    (fuel : ℕ) (input : Bytes) (seg_end off : ℕ) (before : Found)
    → IsFile input
    → off < u64_mod
    → 0 < fuel
    → length input < off + fuel
    → dynamic_loop fuel input seg_end off before ≢ err out_of_fuel
unfolding dynamic_loop
dynamic_loop-ends zero input seg_end off before f lo k h = absurd (omega arith)
dynamic_loop-ends (suc fuel) input seg_end off before f lo k h =
    elim (Bool-cases (leb ((off + 16) % u64_mod) seg_end)) [
      | inr over ↦ rw over (λ x. cc)
      | inl more ↦ rw more (elim (Result-cases (read_u64_le input off)) [
        | inr (e, p) ↦ rw p (refused-ne-fuel (read_u64_le-refused input off e p))
        | inl (tag, p) ↦ rw p (elim (Result-cases (read_u64_le input ((off + 8) % u64_mod))) [
          | inr (e, q) ↦ rw q (refused-ne-fuel (read_u64_le-refused input _ e q))
          | inl (val, q) ↦ rw q (
              let r = dynamic_loop_reads input off tag val f lo p q in
              elim (Bool-cases (tag == 0)) [
                | inl last ↦ rw last (λ x. cc)
                | inr other ↦ rw other (
                    dynamic_loop-ends fuel input seg_end ((off + 16) % u64_mod)
                      (note_entry tag val before) f (omega arith) (omega (arith, f.fits, r.inside))
                      (omega (arith, f.fits, r.inside)))
              ])
        ])
      ])
    ]
