-- ===== src/Rewrite/MachO/Loaded.antt =====
-- What a loader reads in the file that `rewrite_macho` gives.
use os_emulation.Base.{
  ℕ, suc, ◌+◌, ◌-◌, ◌≤◌, ◌<◌, ◌≡◌, ◌⊎◌, inl, inr, refl, sym, subst, ap, ap₂, ◌∙◌, List, ◌∷◌, ◌++◌,
  Bytes, Text, length, get_or, arith,
}
use os_emulation.Rewrite.Buffer.{le_at}
use os_emulation.Rewrite.BufferLaws.{IsFile, le_at-SameBytes}
use os_emulation.Rewrite.MachO.{Anchor, MachORewriteInput, new_cmd_size, clear_slot}
use os_emulation.Rewrite.MachO.Commands.{
  Table, Table-le, Table-split, Table-append, Table-walk, commands, commands-append, commands-Moved,
  Moved, LoadsDylib, bytes_at, walk,
}
use os_emulation.Rewrite.MachO.Anchors.{IsAnchor}
use os_emulation.Rewrite.MachO.Moves.{Tail, clear_slot-outside, length-clear_slot}
use os_emulation.Rewrite.MachO.Writes.{Commanded, Counted}

-- The new file: its counts are those of its table, whose commands are the old ones with the new one
-- in the place of the anchor's. What follows both tables is as before, and so is the rest of the
-- header.
pub record Loaded (input : MachORewriteInput) (ncmds sizeofcmds : ℕ) (a : Anchor) (out : Bytes)
    : Type 0 where
  pub same_length : length out ≡ length input.original
  pub index : ℕ
  pub rest : ℕ
  pub old_commands :
      commands ncmds input.original 32
      ≡ commands index input.original 32
        ++ (commands a.command_count input.original a.offset
            ++ commands rest input.original (a.offset + a.size))
  pub new_ncmds : le_at 4 out 16 ≡ index + suc rest
  pub new_sizeofcmds : le_at 4 out 20 + a.size ≡ sizeofcmds + new_cmd_size input.dylib_load_path
  pub table : Table (index + suc rest) out 32 (32 + le_at 4 out 20)
  pub new_commands :
      commands (index + suc rest) out 32
      ≡ commands index input.original 32
        ++ bytes_at (new_cmd_size input.dylib_load_path) out a.offset
          ∷ commands rest input.original (a.offset + a.size)
  pub loads : LoadsDylib out a.offset (new_cmd_size input.dylib_load_path) input.dylib_load_path
  pub elsewhere :
      (i : ℕ)
      → (i < 16)
        ⊎ ((24 ≤ i)
            × ((i < 32)
                ⊎ ((32 + sizeofcmds ≤ i)
                    × (32 + sizeofcmds + new_cmd_size input.dylib_load_path ≤ i + a.size))))
      → get_or out i 0 ≡ get_or input.original i 0

pub new_cmd_size-ge : (path : Text) → 25 + length path ≤ new_cmd_size path
unfolding new_cmd_size
new_cmd_size-ge path = omega arith

LoadsDylib-kept :
    (a b : Bytes) (off new_size : ℕ) (path : Text)
    → ((i : ℕ) → off ≤ i → get_or b i 0 ≡ get_or a i 0)
    → LoadsDylib a off new_size path
    → LoadsDylib b off new_size path
LoadsDylib-kept a b off new_size path same l = record {
  cmd = word off (omega arith) ∙ l.cmd;
  cmdsize = word (off + 4) (omega arith) ∙ l.cmdsize;
  name_offset = word (off + 8) (omega arith) ∙ l.name_offset;
  timestamp = word (off + 12) (omega arith) ∙ l.timestamp;
  current_version = word (off + 16) (omega arith) ∙ l.current_version;
  compatibility_version = word (off + 20) (omega arith) ∙ l.compatibility_version;
  name = λ i j h e. same j (omega arith) ∙ l.name i j h e;
  zeros = λ j p q. same j (omega arith) ∙ l.zeros j p q;
}
  where
    word : (o : ℕ) → off ≤ o → le_at 4 b o ≡ le_at 4 a o
    word o h = le_at-SameBytes 4 b a o (o + 4) (omega arith) (λ i p q. same i (omega arith))

module _ (input : MachORewriteInput) (ncmds sizeofcmds : ℕ) (a : Anchor)
    (anchor : IsAnchor input.original ncmds (32 + sizeofcmds) a)
    (table : Table ncmds input.original 32 (32 + sizeofcmds)) where
  abbrev table_end : ℕ
  table_end = 32 + sizeofcmds

  abbrev new_size : ℕ
  new_size = new_cmd_size input.dylib_load_path

  split_table :
      Table anchor.index input.original 32 a.offset
      × (Table a.command_count input.original a.offset (a.offset + a.size)
          × Table anchor.rest input.original (a.offset + a.size) table_end)
  split_table =
      let t = subst (λ (k : ℕ). Table k input.original 32 table_end) (sym anchor.counted) table in
      let (first, others) =
        Table-split anchor.index (a.command_count + anchor.rest) input.original 32 table_end t in
      let others' =
        subst (λ (o : ℕ). Table (a.command_count + anchor.rest) input.original o table_end)
          anchor.place others in
      let (second, third) =
        Table-split a.command_count anchor.rest input.original a.offset table_end others' in
      (
        subst (Table anchor.index input.original 32) anchor.place first,
        (
          subst (Table a.command_count input.original a.offset) anchor.size second,
          subst (λ (o : ℕ). Table anchor.rest input.original o table_end) anchor.size third,
        ),
      )

  split_commands :
      commands ncmds input.original 32
      ≡ commands anchor.index input.original 32
        ++ (commands a.command_count input.original a.offset
            ++ commands anchor.rest input.original (a.offset + a.size))
  split_commands =
      ap (λ (k : ℕ). commands k input.original 32) (sym anchor.counted)
      ∙ commands-append anchor.index (a.command_count + anchor.rest) input.original 32
      ∙ ap
          (λ (o : ℕ).
            commands anchor.index input.original 32
            ++ commands (a.command_count + anchor.rest) input.original o)
          anchor.place
      ∙ ap (λ (cs : List Bytes). commands anchor.index input.original 32 ++ cs)
          (commands-append a.command_count anchor.rest input.original a.offset
            ∙ ap
                (λ (o : ℕ).
                  commands a.command_count input.original a.offset
                  ++ commands anchor.rest input.original o)
                anchor.size)

  pub anchor_inside : (32 ≤ a.offset) × (a.offset + a.size ≤ table_end)
  anchor_inside =
      let (first, (second, third)) = split_table in
      (
        omega (arith, Table-le anchor.index input.original 32 a.offset first),
        omega (arith, Table-le anchor.rest input.original (a.offset + a.size) table_end third),
      )

  -- The table from the new command on.
  slot_table :
      (out : Bytes) (end : ℕ)
      → LoadsDylib out a.offset new_size input.dylib_load_path
      → Table anchor.rest out (a.offset + new_size) end
      → Table (suc anchor.rest) out a.offset end
  slot_table out end l t = (
    omega (arith, l.cmdsize, new_cmd_size-ge input.dylib_load_path),
    subst (λ (s : ℕ). Table anchor.rest out (a.offset + s) end) (sym l.cmdsize) t,
  )

  slot_commands :
      (out : Bytes)
      → LoadsDylib out a.offset new_size input.dylib_load_path
      → commands (suc anchor.rest) out a.offset
        ≡ bytes_at new_size out a.offset ∷ commands anchor.rest out (a.offset + new_size)
  unfolding commands
  slot_commands out l =
      ap (λ (s : ℕ). bytes_at s out a.offset ∷ commands anchor.rest out (a.offset + s)) l.cmdsize

  -- The bytes of the new file, where the moves, the new command and the counts are known.
  module _ (f : IsFile input.original) (moved written out : Bytes)
      (fits : table_end ≤ length input.original)
      (t : Tail input.original a table_end new_size moved)
      (c : Commanded
        (clear_slot moved a.offset new_size)
        a.offset
        new_size
        input.dylib_load_path
        written)
      (n : Counted written
        (anchor.index + suc anchor.rest)
        (table_end + new_size - a.size - 32)
        out) where
    -- Behind the slot.
    behind_slot : (i : ℕ) → a.offset + new_size ≤ i → get_or out i 0 ≡ get_or moved i 0
    behind_slot i h =
        n.elsewhere i (inr (omega (arith, anchor_inside.0)))
        ∙ c.elsewhere i (inr h)
        ∙ clear_slot-outside moved a.offset new_size i (inr h)

    -- Before it, but for the counts.
    before_slot :
        (i : ℕ) → (i < 16) ⊎ (24 ≤ i) → i < a.offset → get_or out i 0 ≡ get_or input.original i 0
    before_slot i h lt =
        n.elsewhere i h
        ∙ c.elsewhere i (inl lt)
        ∙ clear_slot-outside moved a.offset new_size i (inl lt)
        ∙ t.kept i (inl (omega arith))

    before_Moved : Moved input.original out 32 32 a.offset
    before_Moved i j lo hi e =
        ap (λ (k : ℕ). get_or out k 0) (omega arith) ∙ before_slot i (inr (omega arith)) hi

    after_Moved : Moved input.original out (a.offset + a.size) (a.offset + new_size) table_end
    after_Moved i j lo hi e = behind_slot j (omega arith) ∙ t.moved i j lo hi (omega arith)

    loads_new : LoadsDylib out a.offset new_size input.dylib_load_path
    loads_new =
        LoadsDylib-kept written out a.offset new_size input.dylib_load_path
          (λ i h. n.elsewhere i (inr (omega (arith, anchor_inside.0)))) c.loads

    pub out-Loaded : Loaded input ncmds sizeofcmds a out
    out-Loaded =
        let (first, (second, third)) = split_table in
        let new_end = table_end + new_size - a.size in
        let new_end_fits : new_end + a.size ≡ table_end + new_size =
          omega (arith, anchor_inside.1) in
        let room = new_cmd_size-ge input.dylib_load_path in
        let (cs, before) =
          commands-Moved anchor.index input.original out 32 32 a.offset a.offset before_Moved first
            refl in
        let (cs', after) =
          commands-Moved anchor.rest input.original out (a.offset + a.size) (a.offset + new_size)
            table_end new_end after_Moved third (omega arith) in
        let here : walk anchor.index out 32 ≡ a.offset =
          Table-walk anchor.index out 32 a.offset before in
        let end : 32 + le_at 4 out 20 ≡ new_end =
          omega (arith, n.has_sizeofcmds, anchor_inside.0, anchor_inside.1) in
        record {
          same_length =
              n.same_length
              ∙ c.same_length
              ∙ length-clear_slot moved a.offset new_size
              ∙ t.same_length;
          index = anchor.index;
          rest = anchor.rest;
          old_commands = split_commands;
          new_ncmds = n.has_ncmds;
          new_sizeofcmds = omega (arith, end, new_end_fits);
          table =
              Table-append anchor.index (suc anchor.rest) out 32 (32 + le_at 4 out 20)
                (rw here before)
                (rw here (
                  slot_table out (32 + le_at 4 out 20) loads_new
                    (subst (Table anchor.rest out (a.offset + new_size)) (sym end) after)));
          new_commands =
              commands-append anchor.index (suc anchor.rest) out 32
              ∙ ap₂ (λ (xs ys : List Bytes). xs ++ ys) cs
                  (ap (commands (suc anchor.rest) out) here
                    ∙ slot_commands out loads_new
                    ∙ ap (λ (ys : List Bytes). bytes_at new_size out a.offset ∷ ys) cs');
          loads = loads_new;
          elsewhere = λ i h. elim h [
            | inl magic ↦ before_slot i (inl magic) (omega (arith, anchor_inside.0))
            | inr (lo, inl flags) ↦ before_slot i (inr lo) (omega (arith, anchor_inside.0))
            | inr (lo, inr (old_end, new_end')) ↦
                behind_slot i (omega (arith, anchor_inside.1)) ∙ t.kept i (inr (omega arith))
          ];
        }
