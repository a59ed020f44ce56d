-- ===== src/Rewrite/MachO/Replacing.antt =====
-- The whole of `rewrite_macho`: when it succeeds, and what it then gives.
use os_emulation.Base.{
  ℕ, suc, ◌+◌, ◌-◌, ◌≤◌, ◌<◌, ◌≡◌, ◌⊎◌, inl, inr, refl, sym, subst, ◌∙◌, true, ok, err,
  ok-injective, err-not-ok, guard, guard-eq-ok, ◌>>=◌, >>=-eq-ok, Bytes, length, ltb, leb, leb→le,
  ltb→lt, ltb→le, ◌==◌, Bool-cases, arith,
}
use os_emulation.Base.Words.{u32_mod}
use os_emulation.Rewrite.Buffer.{refused, le_at, all_zero}
use os_emulation.Rewrite.BufferLaws.{IsFile, read_le-inside, le_at-lt}
use os_emulation.Rewrite.MachO.{
  Anchor, MachORewriteInput, Rewritten, new_cmd_size, check_padding, move_tail, clear_slot,
  write_command, write_counts, replace_anchor, rewrite_macho, find_anchor, read_u32_le, truncated,
  no_padding_to_grow, mh_magic_64,
}
use os_emulation.Rewrite.MachO.Commands.{Table}
use os_emulation.Rewrite.MachO.Anchors.{IsAnchor, HoldsSignature, find_anchor-IsAnchor}
use os_emulation.Rewrite.MachO.Moves.{move_tail-Tail, clear_slot-zero, length-clear_slot}
use os_emulation.Rewrite.MachO.Writes.{write_command-Commanded, write_counts-Counted}
use os_emulation.Rewrite.MachO.Loaded.{Loaded, new_cmd_size-ge, anchor_inside, out-Loaded}

-- The bytes that a command larger than the anchor needs behind the table.
pub record Room (input : MachORewriteInput) (sizeofcmds : ℕ) (a : Anchor) : Type 0 where
  pub inside : 32 + sizeofcmds + new_cmd_size input.dylib_load_path ≤ length input.original + a.size
  pub zeros :
      a.size < new_cmd_size input.dylib_load_path
      → all_zero (new_cmd_size input.dylib_load_path - a.size) input.original (32 + sizeofcmds)
        ≡ true

-- There is room, and the run gives a loaded file, or there is none, and the run is refused.
abbrev pub Replaces : MachORewriteInput → ℕ → ℕ → Anchor → Rewritten Bytes → Type 0
Replaces input ncmds sizeofcmds a run =
    (Room input sizeofcmds a
      × ((out : Bytes) × (run ≡ ok out) × Loaded input ncmds sizeofcmds a out))
    ⊎ ((Room input sizeofcmds a → ⊥) × (run ≡ err (refused no_padding_to_grow)))

module _ (original : Bytes) (table_end size new_size : ℕ) (fits : table_end ≤ length original) where
  -- There is room, and the check passes, or there is none and it refuses.
  check_padding-cases :
      ((table_end + new_size ≤ length original + size)
        × ((size < new_size → all_zero (new_size - size) original table_end ≡ true)
            × (check_padding original table_end size new_size ≡ ok tt)))
      ⊎ (((table_end + new_size ≤ length original + size)
            → (size < new_size → all_zero (new_size - size) original table_end ≡ true)
            → ⊥)
          × (check_padding original table_end size new_size ≡ err (refused no_padding_to_grow)))
  unfolding check_padding
  check_padding-cases = elim (Bool-cases (ltb size new_size)) [
    | inr smaller ↦
        let le = ltb→le size new_size smaller in
        inl (omega arith, (λ lt. absurd (omega arith), rw smaller refl))
    | inl larger ↦
        let lt = ltb→lt size new_size larger in
        elim (Bool-cases (leb (table_end + (new_size - size)) (length original))) [
          | inr outside ↦ inr (λ p q. ground arith, rw larger (rw outside refl))
          | inl inside ↦ elim (Bool-cases (all_zero (new_size - size) original table_end)) [
            | inl zeros ↦ inl (
              (omega (arith, leb→le (table_end + (new_size - size)) (length original) inside)),
              (λ l. zeros, rw larger (rw inside (rw zeros refl))),
            )
            | inr used ↦ inr (λ p q. cc (sym used ∙ q lt), rw larger (rw inside (rw used refl)))
          ]
        ]
  ]

count_pos :
    (input : Bytes) (table_end : ℕ) (a : Anchor)
    → HoldsSignature input table_end a
    → (1 ≤ a.command_count) × (a.command_count ≤ 2)
count_pos input table_end a (inl s) = omega (arith, s.0)
count_pos input table_end a (inr s) = omega (arith, s.0)

module _ (input : MachORewriteInput) (ncmds sizeofcmds : ℕ) (a : Anchor) (f : IsFile input.original)
    (anchor : IsAnchor input.original ncmds (32 + sizeofcmds) a)
    (table : Table ncmds input.original 32 (32 + sizeofcmds))
    (fits : 32 + sizeofcmds ≤ length input.original) (few : ncmds < u32_mod)
    (short : new_cmd_size input.dylib_load_path + sizeofcmds < u32_mod) where
  abbrev new_size : ℕ
  new_size = new_cmd_size input.dylib_load_path

  written_out :
      32 + sizeofcmds + new_size ≤ length input.original + a.size
      → (out : Bytes) × ((do
        out' ←
            write_command
              (clear_slot (move_tail input.original a (32 + sizeofcmds) new_size) a.offset new_size)
              a.offset
              new_size
              input.dylib_load_path
        write_counts out' ncmds sizeofcmds a new_size)
          ≡ ok out)
        × Loaded input ncmds sizeofcmds a out
  written_out grows =
      let (low, high) = anchor_inside input ncmds sizeofcmds a anchor table in
      let (one, two) = count_pos input.original (32 + sizeofcmds) a anchor.signature in
      let room = new_cmd_size-ge input.dylib_load_path in
      let moved = move_tail input.original a (32 + sizeofcmds) new_size in
      let cleared = clear_slot moved a.offset new_size in
      let t = move_tail-Tail input.original a (32 + sizeofcmds) new_size high fits grows in
      let same = length-clear_slot moved a.offset new_size ∙ t.same_length in
      let (written, w, c) =
        write_command-Commanded cleared a.offset new_size input.dylib_load_path
          (omega (arith, same, f.fits)) (omega (arith, same)) (omega arith)
          (λ j p q. clear_slot-zero moved a.offset new_size j (omega (arith, t.same_length)) p q)
          (omega arith) in
      let same' = c.same_length ∙ same in
      let (out, w', n) =
        write_counts-Counted written ncmds sizeofcmds a new_size (anchor.index + suc anchor.rest)
          (32 + sizeofcmds + new_size - a.size - 32) (omega (arith, same', f.fits))
          (omega (arith, same')) (omega (arith, anchor.counted)) (omega arith) (omega arith)
          (omega (arith, f.fits)) (omega (arith, anchor.counted)) (omega arith) in
      (
        out,
        rw w w',
        out-Loaded input ncmds sizeofcmds a anchor table f moved written out fits t c n,
      )

  -- For a table of whole commands in a file of bytes, few and short enough for the header's counts,
  -- and an anchor in it, the replacement succeeds exactly if there is room, and then gives a loaded
  -- file. Otherwise it is refused for want of padding. It never panics.
  pub replace_anchor-cases :
      Replaces input ncmds sizeofcmds a (replace_anchor input ncmds sizeofcmds a)
  unfolding replace_anchor
  replace_anchor-cases =
      elim (check_padding-cases input.original (32 + sizeofcmds) a.size new_size fits) [
        | inl (grows, (zeros, passes)) ↦
            let (out, runs, loaded) = written_out grows in
            inl (record { inside = grows; zeros = zeros }, (out, rw passes runs, loaded))
        | inr (lacks, refuses) ↦ inr (λ r. lacks r.inside r.zeros, rw refuses refl)
      ]

-- The counts in the header.
abbrev pub ncmds_of : Bytes → ℕ
ncmds_of buf = le_at 4 buf 16

abbrev pub sizeofcmds_of : Bytes → ℕ
sizeofcmds_of buf = le_at 4 buf 20

-- Where `rewrite_macho` succeeds on a file of bytes whose table has as many whole commands as its
-- header says, and the new table's size fits the header, it has replaced the command of the code
-- signature, alone or with that of the data in code before it, by one that loads the library, there was
-- room for it, and a loader reads the other commands as before.
pub rewrite_macho-Loaded :
    (input : MachORewriteInput) (out : Bytes)
    → IsFile input.original
    → Table (ncmds_of input.original) input.original 32 (32 + sizeofcmds_of input.original)
    → new_cmd_size input.dylib_load_path + sizeofcmds_of input.original < u32_mod
    → rewrite_macho input ≡ ok out
    → (a : Anchor) × HoldsSignature input.original (32 + sizeofcmds_of input.original) a
      × Room input (sizeofcmds_of input.original) a
      × Loaded input (ncmds_of input.original) (sizeofcmds_of input.original) a out
unfolding rewrite_macho read_u32_le
rewrite_macho-Loaded input out f table short e =
    let original = input.original in
    let (u, p, e1) = >>=-eq-ok (guard (leb 32 (length original)) _) _ e in
    let header = leb→le 32 (length original) (guard-eq-ok _ _ p) in
    let e2 = rw (read_le-inside truncated 4 original 0 f.fits (omega arith)) at e1 in
    let (v, q, e3) = >>=-eq-ok (guard (le_at 4 original 0 == mh_magic_64) _) _ e2 in
    let e4 = rw (read_le-inside truncated 4 original 16 f.fits (omega arith)) at e3 in
    let e5 = rw (read_le-inside truncated 4 original 20 f.fits (omega arith)) at e4 in
    let (a, r, runs) =
      >>=-eq-ok (find_anchor original (ncmds_of original) (sizeofcmds_of original)) _ e5 in
    let (fits, anchor) =
      find_anchor-IsAnchor original (ncmds_of original) (sizeofcmds_of original) a f r in
    elim (replace_anchor-cases input (ncmds_of original) (sizeofcmds_of original) a f anchor table
      fits (le_at-lt 4 original 16 f.holds) short) [
        | inl (room, (out', runs', loaded)) ↦ (
          a,
          anchor.signature,
          room,
          subst (Loaded input (ncmds_of original) (sizeofcmds_of original) a)
              (ok-injective (sym runs' ∙ runs)) loaded,
        )
        | inr (lacks, refuses) ↦ absurd (err-not-ok (sym refuses ∙ runs))
      ]
