-- ===== src/Rewrite/MachO/Writes.antt =====
-- What `rewrite_macho` writes: the new command and the two counts.
use os_emulation.Base.{
  ℕ, ◌+◌, ◌%◌, ◌^◌, ◌≤◌, ◌<◌, ◌≡◌, ◌⊎◌, inl, inr, ◌-◌, refl, subst, ap, ◌∙◌, ok, ◌>>=◌, Bytes, Text,
  length, get_or, arith,
}
use os_emulation.Base.Words.{u32_mod, u64_mod}
use os_emulation.Rewrite.Buffer.{le_at, to_le, overwrite, copy_from_slice}
use os_emulation.Rewrite.BufferLaws.{
  write_le-inside, overwrite_outside, overwrite_inside, length-overwrite, length-to_le,
  overwrite-to_le_self, le_at-SameBytes,
}
use os_emulation.Rewrite.MachO.{
  Anchor, Rewritten, write_u32_le, write_command, write_counts, lc_load_dylib,
  dylib_command_header_size,
}
use os_emulation.Rewrite.MachO.Commands.{LoadsDylib}

-- The file with one more number of 32 bits.
record Put (out : Bytes) (off v : ℕ) (out' : Bytes) : Type 0 where
  same_length : length out' ≡ length out
  word : le_at 4 out' off ≡ v
  elsewhere : (i : ℕ) → (i < off) ⊎ (off + 4 ≤ i) → get_or out' i 0 ≡ get_or out i 0

write_u32_le-Put :
    (out : Bytes) (o off v : ℕ)
    → o ≡ off
    → length out < 2 ^ 63
    → off + 4 ≤ length out
    → v < u32_mod
    → (out' : Bytes) × (write_u32_le out o v ≡ ok out') × Put out off v out'
unfolding write_u32_le
write_u32_le-Put out o off v same fits inside small = (
  overwrite out off (to_le 4 v),
  rw same (write_le-inside 4 out off v fits inside),
  record {
    same_length = length-overwrite out off (to_le 4 v);
    word = overwrite-to_le_self 4 out off v inside small;
    elsewhere = λ i h.
        overwrite_outside out off (to_le 4 v) i
          (elim h [ inl below ↦ inl below | inr above ↦ inr (omega (arith, length-to_le 4 v)) ]);
  },
)

copy_from_slice-inside :
    (out : Bytes) (o end off : ℕ) (bs : Bytes)
    → o ≡ off
    → end ≡ off + length bs
    → off + length bs ≤ length out
    → ◌≡◌ {A = Rewritten Bytes} (copy_from_slice out o end bs) (ok (overwrite out off bs))
unfolding copy_from_slice
copy_from_slice-inside out o end off bs p q inside = rw p (rw q (ground arith))

-- The file with three more numbers in a row.
record PutThree (out : Bytes) (off u v w : ℕ) (out' : Bytes) : Type 0 where
  same_length : length out' ≡ length out
  first : le_at 4 out' off ≡ u
  second : le_at 4 out' (off + 4) ≡ v
  third : le_at 4 out' (off + 8) ≡ w
  elsewhere : (i : ℕ) → (i < off) ⊎ (off + 12 ≤ i) → get_or out' i 0 ≡ get_or out i 0

Put-PutThree :
    (out out1 out2 out3 : Bytes) (off u v w : ℕ)
    → Put out off u out1
    → Put out1 (off + 4) v out2
    → Put out2 (off + 8) w out3
    → PutThree out off u v w out3
Put-PutThree out out1 out2 out3 off u v w p1 p2 p3 = record {
  same_length = p3.same_length ∙ p2.same_length ∙ p1.same_length;
  first =
      le_at-SameBytes 4 out3 out1 off (off + 4) (omega arith)
        (λ i p q. p3.elsewhere i (inl (omega arith)) ∙ p2.elsewhere i (inl q))
      ∙ p1.word;
  second =
      le_at-SameBytes 4 out3 out2 (off + 4) (off + 8) (omega arith)
        (λ i p q. p3.elsewhere i (inl q))
      ∙ p2.word;
  third = p3.word;
  elsewhere = λ i h. elim h [
    | inl below ↦
        p3.elsewhere i (inl (omega arith))
        ∙ p2.elsewhere i (inl (omega arith))
        ∙ p1.elsewhere i (inl below)
    | inr above ↦
        p3.elsewhere i (inr (omega arith))
        ∙ p2.elsewhere i (inr (omega arith))
        ∙ p1.elsewhere i (inr (omega arith))
  ];
}

write_three :
    (out : Bytes) (o o' o'' off u v w : ℕ)
    → o ≡ off
    → o' ≡ off + 4
    → o'' ≡ off + 8
    → length out < 2 ^ 63
    → off + 12 ≤ length out
    → u < u32_mod
    → v < u32_mod
    → w < u32_mod
    → (out' : Bytes) × ((next : Bytes → Rewritten Bytes)
        → (write_u32_le out o u >>= λ out1.
            write_u32_le out1 o' v >>= λ out2. write_u32_le out2 o'' w >>= next)
          ≡ next out')
      × PutThree out off u v w out'
write_three out o o' o'' off u v w e e' e'' fits inside hu hv hw =
    let (out1, w1, p1) = write_u32_le-Put out o off u e fits (omega arith) hu in
    let l1 = p1.same_length in
    let (out2, w2, p2) =
      write_u32_le-Put out1 o' (off + 4) v e' (omega (arith, l1)) (omega (arith, l1)) hv in
    let l2 = p2.same_length ∙ l1 in
    let (out3, w3, p3) =
      write_u32_le-Put out2 o'' (off + 8) w e'' (omega (arith, l2)) (omega (arith, l2)) hw in
    (out3, λ next. rw w1 (rw w2 (rw w3 refl)), Put-PutThree out out1 out2 out3 off u v w p1 p2 p3)

-- The slot with the new command.
pub record Commanded (out : Bytes) (off new_size : ℕ) (path : Text) (out' : Bytes) : Type 0 where
  pub same_length : length out' ≡ length out
  pub loads : LoadsDylib out' off new_size path
  pub elsewhere : (i : ℕ) → (i < off) ⊎ (off + new_size ≤ i) → get_or out' i 0 ≡ get_or out i 0

module _ (out : Bytes) (off new_size : ℕ) (path : Text) (fits : length out < 2 ^ 63)
    (inside : off + new_size ≤ length out) (room : 24 + length path ≤ new_size)
    (clear : (j : ℕ) → off ≤ j → j < off + new_size → get_or out j 0 ≡ 0) where
  fields-Commanded :
      (out3 out6 : Bytes)
      → PutThree out off lc_load_dylib new_size dylib_command_header_size out3
      → PutThree out3 (off + 12) 2 0x10000 0x10000 out6
      → Commanded out off new_size path (overwrite out6 (off + 24) path)
  fields-Commanded out3 out6 p q =
      let out7 = overwrite out6 (off + 24) path in
      let fits6 : off + 24 + length path ≤ length out6 =
        omega (arith, p.same_length, q.same_length) in
      let late : (i : ℕ) → i < off + 24 → get_or out7 i 0 ≡ get_or out6 i 0 =
        λ i h. overwrite_outside out6 (off + 24) path i (inl h) in
      let early : (i : ℕ) → i < off + 12 → get_or out7 i 0 ≡ get_or out3 i 0 =
        λ i h. late i (omega arith) ∙ q.elsewhere i (inl h) in
      record {
        same_length = length-overwrite out6 (off + 24) path ∙ q.same_length ∙ p.same_length;
        loads = record {
          cmd =
              le_at-SameBytes 4 out7 out3 off (off + 12) (omega arith) (λ i a b. early i b)
              ∙ p.first;
          cmdsize =
              le_at-SameBytes 4 out7 out3 (off + 4) (off + 12) (omega arith) (λ i a b. early i b)
              ∙ p.second;
          name_offset =
              le_at-SameBytes 4 out7 out3 (off + 8) (off + 12) (omega arith) (λ i a b. early i b)
              ∙ p.third;
          timestamp =
              le_at-SameBytes 4 out7 out6 (off + 12) (off + 24) (omega arith) (λ i a b. late i b)
              ∙ q.first;
          current_version =
              le_at-SameBytes 4 out7 out6 (off + 16) (off + 24) (omega arith) (λ i a b. late i b)
              ∙ ap (le_at 4 out6) (omega arith)
              ∙ q.second;
          compatibility_version =
              le_at-SameBytes 4 out7 out6 (off + 20) (off + 24) (omega arith) (λ i a b. late i b)
              ∙ ap (le_at 4 out6) (omega arith)
              ∙ q.third;
          name = λ i j h e. overwrite_inside out6 (off + 24) path j i e fits6 h;
          zeros = λ j a b.
              overwrite_outside out6 (off + 24) path j (inr a)
              ∙ q.elsewhere j (inr (omega arith))
              ∙ p.elsewhere j (inr (omega arith))
              ∙ clear j (omega arith) b;
        };
        elsewhere = λ i h. elim h [
          | inl below ↦ early i (omega arith) ∙ p.elsewhere i (inl below)
          | inr above ↦
              overwrite_outside out6 (off + 24) path i (inr (omega arith))
              ∙ q.elsewhere i (inr (omega arith))
              ∙ p.elsewhere i (inr (omega arith))
        ];
      }

  pub write_command-Commanded :
      new_size < u32_mod
      → (out' : Bytes) × (write_command out off new_size path ≡ ok out')
        × Commanded out off new_size path out'
  unfolding write_command
  write_command-Commanded small =
      let (out3, run, p) =
        write_three out off ((off + 4) % u64_mod) ((off + 8) % u64_mod) off lc_load_dylib
          (new_size % u32_mod) dylib_command_header_size refl (omega arith) (omega arith) fits
          (omega arith) (omega arith) (omega arith) (omega arith) in
      let l3 = p.same_length in
      let (out6, run', q) =
        write_three out3 ((off + 12) % u64_mod) ((off + 16) % u64_mod) ((off + 20) % u64_mod)
          (off + 12) 2 0x10000 0x10000 (omega arith) (omega arith) (omega arith) (omega (arith, l3))
          (omega (arith, l3)) (omega arith) (omega arith) (omega arith) in
      let name_off : (off + 24) % u64_mod ≡ off + 24 = omega arith in
      (
        overwrite out6 (off + 24) path,
        run _
            ∙ run' _
            ∙ copy_from_slice-inside out6 ((off + 24) % u64_mod)
                (((off + 24) % u64_mod + length path) % u64_mod) (off + 24) path name_off
                (omega arith) (omega (arith, l3, q.same_length)),
        fields-Commanded out3 out6
            (subst (λ (v : ℕ). PutThree out off lc_load_dylib v dylib_command_header_size out3)
              (omega arith) p)
            q,
      )

-- The header with the new counts.
pub record Counted (out : Bytes) (ncmds sizeofcmds : ℕ) (out' : Bytes) : Type 0 where
  pub same_length : length out' ≡ length out
  pub has_ncmds : le_at 4 out' 16 ≡ ncmds
  pub has_sizeofcmds : le_at 4 out' 20 ≡ sizeofcmds
  pub elsewhere : (i : ℕ) → (i < 16) ⊎ (24 ≤ i) → get_or out' i 0 ≡ get_or out i 0

pub write_counts-Counted :
    (out : Bytes) (ncmds sizeofcmds : ℕ) (anchor : Anchor) (new_size n s : ℕ)
    → length out < 2 ^ 63
    → 32 ≤ length out
    → n < u32_mod
    → s < u32_mod
    → anchor.command_count ≤ u32_mod
    → anchor.size ≤ u64_mod
    → n + anchor.command_count ≡ ncmds + 1
    → s + anchor.size ≡ sizeofcmds + new_size
    → (out' : Bytes) × (write_counts out ncmds sizeofcmds anchor new_size ≡ ok out')
      × Counted out n s out'
unfolding write_counts
write_counts-Counted out ncmds sizeofcmds anchor new_size n s fits inside hn hs hc hz e e' =
    let (once, w1, p) =
      write_u32_le-Put out 20 20 ((sizeofcmds + new_size + (u64_mod - anchor.size)) % u32_mod) refl
        fits (omega arith) (omega arith) in
    let l = p.same_length in
    let (twice, w2, q) =
      write_u32_le-Put once 16 16 ((ncmds + (u32_mod - anchor.command_count) + 1) % u32_mod) refl
        (omega (arith, l)) (omega (arith, l)) (omega arith) in
    (
      twice,
      rw w1 w2,
      record {
        same_length = q.same_length ∙ l;
        has_ncmds = q.word ∙ omega arith;
        has_sizeofcmds =
            le_at-SameBytes 4 twice once 20 24 (omega arith) (λ i a b. q.elsewhere i (inr a))
            ∙ p.word
            ∙ omega arith;
        elsewhere = λ i h. elim h [
          | inl below ↦ q.elsewhere i (inl below) ∙ p.elsewhere i (inl (omega arith))
          | inr above ↦ q.elsewhere i (inr (omega arith)) ∙ p.elsewhere i (inr above)
        ];
      },
    )
