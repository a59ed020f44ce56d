-- ===== src/Rewrite/MachO/Anchors.antt =====
-- What `find_anchor` finds: commands of the table that hold the code signature.
use os_emulation.Base.{
  ℕ, zero, suc, ◌+◌, ◌-◌, ◌%◌, ◌^◌, ◌≤◌, ◌<◌, ◌≡◌, ◌⊎◌, inl, inr, refl, sym, ap, subst, ◌∙◌, ◌&&◌,
  and_split, Option, none, some, ok, ok-injective, guard, guard-eq-ok, >>=-eq-ok, Bytes, length,
  leb, leb→le, ltb, ltb→lt, ◌==◌, ==_iff, Bool-cases, arith,
}
use os_emulation.Base.Words.{u64_mod}
use os_emulation.Rewrite.Buffer.{le_at, read_le}
use os_emulation.Rewrite.BufferLaws.{IsFile, read_le-ok, read_le-lt}
use os_emulation.Rewrite.MachO.{
  Anchor, read_u32_le, truncated, pair_anchor, try_pair, try_signature, anchor_loop, found_anchor,
  find_anchor, lc_code_signature, lc_data_in_code, is_none,
}
use os_emulation.Rewrite.MachO.Commands.{walk, size_at}

-- The signature at the end of the table, or the pair that it is the second command of.
abbrev pub HoldsSignature : Bytes → ℕ → Anchor → Type 0
HoldsSignature input table_end a =
    ((a.command_count ≡ 1)
      × (le_at 4 input a.offset ≡ lc_code_signature)
      × (a.offset + a.size ≡ table_end))
    ⊎ ((a.command_count ≡ 2)
        × (a.size ≡ 32)
        × (le_at 4 input a.offset ≡ lc_data_in_code)
        × (le_at 4 input (a.offset + 16) ≡ lc_code_signature))

-- The anchor is a run of commands of the table, behind `index` others and before `rest` others.
pub record IsAnchor (input : Bytes) (ncmds table_end : ℕ) (a : Anchor) : Type 0 where
  pub index : ℕ
  pub rest : ℕ
  pub counted : index + (a.command_count + rest) ≡ ncmds
  pub place : walk index input 32 ≡ a.offset
  pub size : walk a.command_count input a.offset ≡ a.offset + a.size
  pub signature : HoldsSignature input table_end a

abbrev Good : Bytes → ℕ → ℕ → Option Anchor → Type 0
Good input ncmds table_end none = Unit {0}
Good input ncmds table_end (some a) = IsAnchor input ncmds table_end a

walk_last :
    (i : ℕ) (buf : Bytes) (off : ℕ)
    → walk (suc i) buf off ≡ walk i buf off + size_at buf (walk i buf off)
unfolding walk
walk_last zero buf off = refl
walk_last (suc i) buf off = walk_last i buf (off + size_at buf off)

-- A round at a command that was read.
record Reads (input : Bytes) (i off cmd size : ℕ) : Type 0 where
  place : walk i input 32 ≡ off
  cmd_read : cmd ≡ le_at 4 input off
  size_read : size ≡ size_at input off
  inside : off + size ≤ length input

read_u32_le-lt :
    (input : Bytes) (off v : ℕ) → IsFile input → read_u32_le input off ≡ ok v → v < 256 ^ 4
unfolding read_u32_le
read_u32_le-lt input off v f e = read_le-lt truncated 4 input off v f e

next_place :
    (input : Bytes) (i off size : ℕ)
    → walk i input 32 ≡ off
    → size ≡ size_at input off
    → walk (suc i) input 32 ≡ off + size
next_place input i off size place size_read =
    walk_last i input 32
    ∙ ap (λ (o : ℕ). o + size_at input o) place
    ∙ ap (λ (s : ℕ). off + s) (sym size_read)

found_anchor-some :
    (found : Option Anchor) (a : Anchor) → found_anchor found ≡ ok a → found ≡ some a
unfolding found_anchor
found_anchor-some none a e = cc
found_anchor-some (some b) a e = cc

module _ (input : Bytes) (f : IsFile input) (ncmds table_end : ℕ) where
  read_at :
      (o off v : ℕ)
      → o ≡ off
      → off < u64_mod
      → read_u32_le input o ≡ ok v
      → (off + 4 ≤ length input) × (v ≡ le_at 4 input off)
  unfolding read_u32_le
  read_at o off v same lo e =
      read_le-ok truncated 4 input off v (omega arith) lo f.fits
        (ap (read_le truncated 4 input) (sym same) ∙ e)

  pair-IsAnchor :
      (i off cmd : ℕ)
      → Reads input i off cmd 16
      → cmd ≡ lc_data_in_code
      → i + 1 < ncmds
      → le_at 4 input (off + 16) ≡ lc_code_signature
      → le_at 4 input (off + 16 + 4) ≡ 16
      → IsAnchor input ncmds table_end (record { offset = off; size = 32; command_count = 2 })
  unfolding walk
  pair-IsAnchor i off cmd reads is_cmd more next_cmd next_size = record {
    index = i;
    rest = ncmds - i - 2;
    counted = omega arith;
    place = reads.place;
    size = rw (sym reads.size_read) (rw next_size (omega arith));
    signature = inr (refl, refl, sym reads.cmd_read ∙ is_cmd, next_cmd);
  }

  pair_anchor-Good :
      (i off cmd : ℕ) (r : Option Anchor)
      → Reads input i off cmd 16
      → cmd ≡ lc_data_in_code
      → i + 1 < ncmds
      → pair_anchor input off 16 ≡ ok r
      → Good input ncmds table_end r
  unfolding pair_anchor
  pair_anchor-Good i off cmd r reads is_cmd more e =
      let next_off = (off + 16) % u64_mod in
      let (next_size, p, e1) = >>=-eq-ok (read_u32_le input ((next_off + 4) % u64_mod)) _ e in
      let (next_cmd, q, e2) = >>=-eq-ok (read_u32_le input next_off) _ e1 in
      let next_size_read =
        read_at ((next_off + 4) % u64_mod) (off + 16 + 4) next_size
          (omega (arith, reads.inside, f.fits)) (omega (arith, reads.inside, f.fits)) p in
      let next_cmd_read =
        read_at next_off (off + 16) next_cmd (omega (arith, reads.inside, f.fits))
          (omega (arith, reads.inside, f.fits)) q in
      elim (Bool-cases (next_cmd == lc_code_signature && next_size == 16)) [
        | inl both ↦
            let (is_signature, is_16) =
              and_split (next_cmd == lc_code_signature) (next_size == 16) both in
            let size_16 : next_size ≡ 16 = (==_iff next_size 16).0 is_16 in
            subst (Good input ncmds table_end)
              (ap (λ (s : ℕ). some (record { offset = off; size = s; command_count = 2 }))
                  (omega arith)
                ∙ ok-injective (rw both at e2))
              (pair-IsAnchor i off cmd reads is_cmd more
                (sym next_cmd_read.1 ∙ (==_iff next_cmd lc_code_signature).0 is_signature)
                (sym next_size_read.1 ∙ size_16))
        | inr neither ↦ subst (Good input ncmds table_end) (ok-injective (rw neither at e2)) tt
      ]

  try_pair-Good :
      (i off cmd size : ℕ) (anchor r : Option Anchor)
      → Reads input i off cmd size
      → Good input ncmds table_end anchor
      → try_pair input ncmds i off cmd size anchor ≡ ok r
      → Good input ncmds table_end r
  unfolding try_pair
  try_pair-Good i off cmd size anchor r reads good e =
      elim (Bool-cases
        (is_none anchor && cmd == lc_data_in_code && size == 16 && ltb (i + 1) ncmds)) [
          | inl pair ↦
              let (rest, more) =
                and_split (is_none anchor && cmd == lc_data_in_code && size == 16)
                  (ltb (i + 1) ncmds) pair in
              let (rest', is_16) =
                and_split (is_none anchor && cmd == lc_data_in_code) (size == 16) rest in
              let (rest'', is_cmd) = and_split (is_none anchor) (cmd == lc_data_in_code) rest' in
              let size_16 : size ≡ 16 = (==_iff size 16).0 is_16 in
              pair_anchor-Good i off cmd r (subst (Reads input i off cmd) size_16 reads)
                ((==_iff cmd lc_data_in_code).0 is_cmd) (ltb→lt (i + 1) ncmds more)
                (ap (pair_anchor input off) (sym size_16) ∙ rw pair at e)
          | inr other ↦ subst (Good input ncmds table_end) (ok-injective (rw other at e)) good
        ]

  signature-IsAnchor :
      (i off cmd size : ℕ)
      → Reads input i off cmd size
      → cmd ≡ lc_code_signature
      → off + size ≡ table_end
      → i < ncmds
      → IsAnchor input ncmds table_end (record { offset = off; size = size; command_count = 1 })
  unfolding walk
  signature-IsAnchor i off cmd size reads is_cmd last more = record {
    index = i;
    rest = ncmds - i - 1;
    counted = omega arith;
    place = reads.place;
    size = ap (λ (s : ℕ). off + s) (sym reads.size_read);
    signature = inl (refl, sym reads.cmd_read ∙ is_cmd, last);
  }

  try_signature-Good :
      (i off cmd size : ℕ) (anchor : Option Anchor)
      → Reads input i off cmd size
      → i < ncmds
      → Good input ncmds table_end anchor
      → Good input ncmds table_end (try_signature table_end off cmd size anchor)
  unfolding try_signature
  try_signature-Good i off cmd size (some a) reads more good = good
  try_signature-Good i off cmd size none reads more good =
      elim (Bool-cases (cmd == lc_code_signature && off + size == table_end)) [
        | inl both ↦
            let (is_cmd, last) =
              and_split (cmd == lc_code_signature) (off + size == table_end) both in
            rw both (
              signature-IsAnchor i off cmd size reads ((==_iff cmd lc_code_signature).0 is_cmd)
                ((==_iff (off + size) table_end).0 last) more)
        | inr other ↦ rw other tt
      ]

  anchor_loop-Good :
      (left i off : ℕ) (anchor r : Option Anchor)
      → i + left ≡ ncmds
      → walk i input 32 ≡ off
      → off ≤ length input
      → Good input ncmds table_end anchor
      → anchor_loop left input ncmds table_end i off anchor ≡ ok r
      → Good input ncmds table_end r
  unfolding anchor_loop
  anchor_loop-Good zero i off anchor r count place inside good e =
      subst (Good input ncmds table_end) (ok-injective e) good
  anchor_loop-Good (suc left) i off anchor r count place inside good e =
      let (u, g, e1) = >>=-eq-ok (guard (leb ((off + 8) % u64_mod) (length input)) _) _ e in
      let (cmd, p, e2) = >>=-eq-ok (read_u32_le input off) _ e1 in
      let (size, q, e3) = >>=-eq-ok (read_u32_le input ((off + 4) % u64_mod)) _ e2 in
      let (v, h, e4) =
        >>=-eq-ok (guard (leb 8 size && leb ((off + size) % u64_mod) (length input)) _) _ e3 in
      let (paired, s, e5) = >>=-eq-ok (try_pair input ncmds i off cmd size anchor) _ e4 in
      let fits =
        leb→le ((off + size) % u64_mod) (length input)
          (and_split (leb 8 size) (leb ((off + size) % u64_mod) (length input))
            (guard-eq-ok _ _ h)).1 in
      let cmd_read = read_at off off cmd refl (omega (arith, f.fits)) p in
      let size_read =
        read_at ((off + 4) % u64_mod) (off + 4) size (omega (arith, f.fits)) (omega (arith, f.fits))
          q in
      let small = read_u32_le-lt input _ size f q in
      let whole : (off + size) % u64_mod ≡ off + size = omega (arith, f.fits) in
      let reads : Reads input i off cmd size = record {
        place = place;
        cmd_read = cmd_read.1;
        size_read = size_read.1;
        inside = omega arith;
      } in
      anchor_loop-Good left (suc i) ((off + size) % u64_mod)
        (try_signature table_end off cmd size paired) r (omega arith)
        (next_place input i off size place size_read.1 ∙ sym whole) (omega arith)
        (try_signature-Good i off cmd size paired reads (omega arith)
          (try_pair-Good i off cmd size anchor paired reads good s))
        e5

pub find_anchor-IsAnchor :
    (input : Bytes) (ncmds sizeofcmds : ℕ) (a : Anchor)
    → IsFile input
    → find_anchor input ncmds sizeofcmds ≡ ok a
    → (32 + sizeofcmds ≤ length input) × IsAnchor input ncmds (32 + sizeofcmds) a
unfolding find_anchor
find_anchor-IsAnchor input ncmds sizeofcmds a f e =
    let (u, g, e1) = >>=-eq-ok (guard (leb (32 + sizeofcmds) (length input)) _) _ e in
    let (found, p, e2) =
      >>=-eq-ok (anchor_loop ncmds input ncmds (32 + sizeofcmds) 0 32 none) _ e1 in
    let fits = leb→le (32 + sizeofcmds) (length input) (guard-eq-ok _ _ g) in
    (
      fits,
      subst (Good input ncmds (32 + sizeofcmds)) (found_anchor-some found a e2) (
          anchor_loop-Good input f ncmds (32 + sizeofcmds) ncmds 0 32 none found (omega arith)
            (unfold walk in refl) (omega arith) tt p),
    )
