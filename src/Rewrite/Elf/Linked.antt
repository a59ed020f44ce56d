-- ===== src/Rewrite/Elf/Linked.antt =====
-- What a dynamic linker reads in the file that `rewrite_elf` gives.
use os_emulation.Base.{
  ℕ, suc, ◌+◌, ◌*◌, ◌≤◌, ◌<◌, ◌≡◌, ◌⊎◌, refl, sym, ap, ap₂, ◌∙◌, Option, none, some, ok, ◌>>=◌,
  List, ◌++◌, All-append, Bytes, Text, length, length-append, get_or, inl, inr, arith,
}
use os_emulation.Base.Words.{u64_mod}
use os_emulation.Rewrite.Buffer.{le_at, overwrite}
use os_emulation.Rewrite.BufferLaws.{
  IsFile, le_at-SameBytes, overwrite_outside, overwrite_inside, length-overwrite,
}
use os_emulation.Rewrite.Elf.{
  ElfRewriteInput, DynamicSection, write_entries, entries_needed, staged, staged_rpath, new_strings,
  grow_loop,
}
use os_emulation.Rewrite.Elf.Layout.{
  entries_at, NoNull, grow, grow-NoNull, entries_at-SameBytes, entries_at-append,
}
use os_emulation.Rewrite.Elf.Scan.{EndsAt}
use os_emulation.Rewrite.Elf.Grow.{Grown, grow_loop-Grown}
use os_emulation.Rewrite.Elf.Entries.{added, HasEntries, write_entries-HasEntries}
use os_emulation.Rewrite.Elf.Slack.{EmptySlot, EmptySlots, Padding, strings_start}

-- The bytes from `lo` up to `hi` do not hold `i`.
abbrev pub Misses : ℕ → ℕ → ℕ → Type 0
Misses lo hi i = (i < lo) ⊎ (hi ≤ i)

-- Where the old array ends, and how many entries come to it.
abbrev pub slots_end : ElfRewriteInput → DynamicSection → ℕ
slots_end input section = section.terminator_offset + 16 * entries_needed input.rpath_entry

abbrev pub strings_end : ElfRewriteInput → DynamicSection → ℕ
strings_end input section = strings_start section + length (new_strings input)

-- The strings go elsewhere than the array and the empty slots behind it.
abbrev pub Apart : ElfRewriteInput → DynamicSection → Type 0
Apart input section =
    (strings_end input section ≤ section.offset)
    ⊎ (slots_end input section + 16 ≤ strings_start section)

-- The array that a dynamic linker is to read in the place of `old`.
unfoldable pub linked_array : ElfRewriteInput → DynamicSection → List (ℕ × ℕ) → List (ℕ × ℕ)
linked_array input section old = grow (section.strsz + length (new_strings input)) (
    old
    ++ added input.rpath_entry section.strsz (section.strsz + length (staged input.needed_name)))

-- The new file: the array has the new entries and ends behind them, the string table has the strings
-- that they name, and every other byte is as before.
pub record Linked (input : ElfRewriteInput) (section : DynamicSection) (out : Bytes) : Type 0 where
  pub same_length : length out ≡ length input.original
  pub old_count : ℕ
  pub old_ends : section.terminator_offset ≡ section.offset + 16 * old_count
  pub array :
      entries_at (old_count + entries_needed input.rpath_entry) out section.offset
      ≡ linked_array input section (entries_at old_count input.original section.offset)
  pub ends : EndsAt out section.offset (slots_end input section)
  pub strings :
      (i : ℕ)
      → i < length (new_strings input)
      → get_or out (strings_start section + i) 0 ≡ get_or (new_strings input) i 0
  pub elsewhere :
      (i : ℕ)
      → Misses (strings_start section) (strings_end input section) i
      → Misses section.offset (slots_end input section) i
      → get_or out i 0 ≡ get_or input.original i 0

slot_behind :
    (original : Bytes) (t : ℕ) (rpath : Option Text)
    → EmptySlots original t (entries_needed rpath) 1
    → EmptySlot original t (entries_needed rpath)
unfolding entries_needed
slot_behind original t none slots = slots.0
slot_behind original t (some rpath) slots = slots.1.0

added-NoNull : (rpath : Option Text) (name path : ℕ) → NoNull (added rpath name path)
unfolding added
added-NoNull none name path = (λ z. absurd (omega arith), tt)
added-NoNull (some rpath) name path = (λ z. absurd (omega arith), (λ z. absurd (omega arith), tt))

staged-le-new_strings :
    (input : ElfRewriteInput) → length (staged input.needed_name) ≤ length (new_strings input)
unfolding new_strings
staged-le-new_strings input =
    omega (arith, length-append (staged input.needed_name) (staged_rpath input.rpath_entry))

module _ (input : ElfRewriteInput) (section : DynamicSection) (f : IsFile input.original)
    (ends : EndsAt input.original section.offset section.terminator_offset)
    (small : strings_end input section < u64_mod) (apart : Apart input section)
    (slots : EmptySlots input.original section.terminator_offset
      (entries_needed input.rpath_entry)
      1)
    (padding : Padding input.original (strings_start section) (length (new_strings input))) where
  -- The file with the strings.
  abbrev with_strings : Bytes
  with_strings = overwrite input.original (strings_start section) (new_strings input)

  array_kept :
      (i : ℕ)
      → section.offset ≤ i
      → i < slots_end input section + 16
      → get_or with_strings i 0 ≡ get_or input.original i 0
  array_kept i p q =
      overwrite_outside input.original (strings_start section) (new_strings input) i
        (elim apart [ inl before ↦ inr (omega arith) | inr behind ↦ inl (omega arith) ])

  abbrev kept : ℕ
  kept = ends.count

  last_slot : EmptySlot input.original section.terminator_offset (entries_needed input.rpath_entry)
  last_slot = slot_behind input.original section.terminator_offset input.rpath_entry slots

  same_length : length with_strings ≡ length input.original
  same_length = length-overwrite input.original (strings_start section) (new_strings input)

  -- The file with the strings and the entries, before `DT_STRSZ` grows.
  module _ (out : Bytes)
      (has : HasEntries input.rpath_entry section.strsz
        (section.strsz + length (staged input.needed_name))
        with_strings
        section.terminator_offset
        out) where
    entered_array :
        entries_at (kept + entries_needed input.rpath_entry) out section.offset
        ≡ entries_at kept input.original section.offset
          ++ added input.rpath_entry section.strsz
              (section.strsz + length (staged input.needed_name))
    entered_array =
        entries_at-append kept (entries_needed input.rpath_entry) out section.offset
          section.terminator_offset ends.place
        ∙ ap₂ (λ (xs ys : List (ℕ × ℕ)). xs ++ ys)
            (entries_at-SameBytes kept out input.original section.offset section.terminator_offset
              (omega (arith, ends.place))
              (λ i p q. has.elsewhere i (inl q) ∙ array_kept i p (omega arith)))
            has.slots

    entered_NoNull :
        NoNull (entries_at (kept + entries_needed input.rpath_entry) out section.offset)
    entered_NoNull = rw entered_array (
        All-append _ _ _ ends.before (
          added-NoNull input.rpath_entry section.strsz
            (section.strsz + length (staged input.needed_name))))

    entered_null : le_at 8 out (slots_end input section) ≡ 0
    entered_null =
        le_at-SameBytes 8 out input.original (slots_end input section)
          (slots_end input section + 16) (omega arith)
          (λ i p q. has.elsewhere i (inr p) ∙ array_kept i (omega (arith, ends.place)) q)
        ∙ last_slot.tag

    abbrev count : ℕ
    count = kept + entries_needed input.rpath_entry

    count_place : section.offset + 16 * count ≡ slots_end input section
    count_place = omega (arith, ends.place)

    -- The strings are left alone by what is written after them.
    string_kept :
        (i : ℕ)
        → i < length (new_strings input)
        → get_or out (strings_start section + i) 0 ≡ get_or (new_strings input) i 0
    string_kept i p =
        has.elsewhere (strings_start section + i) (elim apart [
          | inl before ↦ inl (omega (arith, ends.place))
          | inr behind ↦ inr (omega arith)
        ])
        ∙ overwrite_inside input.original (strings_start section) (new_strings input)
            (strings_start section + i) i refl padding.inside p

    linked :
        (out' : Bytes)
        → Grown count out section.offset (section.strsz + length (new_strings input)) out'
        → Linked input section out'
    unfolding linked_array
    linked out' g = record {
      same_length = g.same_length ∙ has.same_length ∙ same_length;
      old_count = kept;
      old_ends = ends.place;
      array = g.array ∙ ap (grow (section.strsz + length (new_strings input))) entered_array;
      ends = record {
        count = count;
        place = sym count_place;
        inside = omega (arith, g.same_length, has.same_length, same_length, last_slot.inside);
        before = rw g.array (
            grow-NoNull (section.strsz + length (new_strings input))
              (entries_at count out section.offset) entered_NoNull);
        null =
            le_at-SameBytes 8 out' out (slots_end input section) (slots_end input section + 16)
              (omega arith) (λ i p q. g.elsewhere i (inr (omega (arith, count_place))))
            ∙ entered_null;
      };
      strings = λ i p.
          g.elsewhere (strings_start section + i) (elim apart [
            | inl before ↦ inl (omega arith)
            | inr behind ↦ inr (omega (arith, count_place))
          ])
          ∙ string_kept i p;
      elsewhere = λ i p q.
          g.elsewhere i
            (elim q [ inl before ↦ inl before | inr behind ↦ inr (omega (arith, count_place)) ])
          ∙ has.elsewhere i
              (elim q [ inl before ↦ inl (omega (arith, ends.place)) | inr behind ↦ inr behind ])
          ∙ overwrite_outside input.original (strings_start section) (new_strings input) i p;
    }

    pub grown_file :
        (out' : Bytes) × (grow_loop
            (suc (length input.original))
            out
            section.offset
            (section.strsz + length (new_strings input))
          ≡ ok out')
        × Linked input section out'
    grown_file =
        let room : section.offset + 16 * count + 16 ≤ length out =
          omega (arith, has.same_length, same_length, last_slot.inside, count_place) in
        let (out', runs, g) =
          grow_loop-Grown (section.strsz + length (new_strings input)) (omega arith) count
            (suc (length input.original)) out section.offset
            (omega (arith, has.same_length, same_length, f.fits)) room entered_NoNull
            (ap (le_at 8 out) count_place ∙ entered_null)
            (omega (arith, last_slot.inside, count_place)) in
        (out', runs, linked out' g)

  -- All that is written.
  pub written_file :
      (out' : Bytes) × ((write_entries input section with_strings >>= λ out.
      grow_loop
        (suc (length input.original))
        out
        section.offset
        (section.strsz + length (new_strings input)))
        ≡ ok out')
      × Linked input section out'
  written_file =
      let (out, runs, has) =
        write_entries-HasEntries input section with_strings (omega (arith, same_length, f.fits))
          (omega (arith, same_length, last_slot.inside))
          (omega (arith, staged-le-new_strings input)) in
      let (out', runs', l) = grown_file out has in (out', rw runs runs', l)
