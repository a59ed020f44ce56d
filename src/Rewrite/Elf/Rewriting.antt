-- ===== src/Rewrite/Elf/Rewriting.antt =====
-- The whole of `rewrite_elf`: when it succeeds, and what it then gives.
use os_emulation.Base.{
  ◌+◌, ◌*◌, ◌%◌, ◌≤◌, ◌<◌, ◌≡◌, sym, subst, ◌∙◌, ok, ok-injective, err-not-ok, guard, >>=-eq-ok,
  List, Bytes, length, leb, leb→le, le→leb, ◌==◌, ◌||◌, inl, inr, arith,
}
use os_emulation.Base.Words.{u64_mod}
use os_emulation.Rewrite.BufferLaws.{IsFile}
use os_emulation.Rewrite.Elf.{
  ElfRewriteInput, DynamicSection, ProgramHeader, entries_needed, new_strings, rewrite_dynamic,
  rewrite_elf, find_dynamic_section, read_program_headers, has_elf_ident, read_u16_le, et_exec,
  et_dyn, no_free_string_table_space, dyn_entry_size,
}
use os_emulation.Rewrite.Elf.Scan.{EndsAt}
use os_emulation.Rewrite.Elf.Entries.{entries_needed_two}
use os_emulation.Rewrite.Elf.Slack.{
  EmptySlots, Padding, strings_start, Decides, Decides-needs, Decides-bind, guard_then,
  slots_loop-EmptySlots, stage_strings-Padding,
}
use os_emulation.Rewrite.Elf.Linked.{Linked, Apart, slots_end, strings_end, written_file}
use os_emulation.Rewrite.Elf.Headers.{read_program_headers-IsWord, find_dynamic_section-EndsAt}

-- The room for the new entries and strings: empty slots that end inside the segment, and zero bytes
-- behind the string table.
pub record Slack (input : ElfRewriteInput) (section : DynamicSection) : Type 0 where
  pub in_segment : slots_end input section + 16 ≤ section.segment_end
  pub slots :
      EmptySlots input.original section.terminator_offset (entries_needed input.rpath_entry) 1
  pub padding : Padding input.original (strings_start section) (length (new_strings input))

-- Over a dynamic section of a file of bytes, whose array ends at its terminator, with the new strings
-- apart from the array and ending below 2^64, the rewriting succeeds exactly if there is slack, and
-- then gives a linked file. Otherwise it is refused. It neither panics nor loops.
pub rewrite_dynamic-Decides :
    (input : ElfRewriteInput) (section : DynamicSection)
    → IsFile input.original
    → EndsAt input.original section.offset section.terminator_offset
    → strings_end input section < u64_mod
    → Apart input section
    → Decides (Slack input section) (rewrite_dynamic input section) (Linked input section)
unfolding rewrite_dynamic
rewrite_dynamic-Decides input section f ends small apart =
    let n = entries_needed input.rpath_entry in
    let t = section.terminator_offset in
    let strings = new_strings input in
    let room : (t + dyn_entry_size * (n + 1)) % u64_mod ≡ slots_end input section + 16 =
      omega (arith, ends.inside, f.fits, entries_needed_two input.rpath_entry) in
    let grown : (section.strsz + length strings) % u64_mod ≡ section.strsz + length strings =
      omega arith in
    rw room (
      rw grown (
        Decides-needs _ _
          (λ q. record {
            in_segment = leb→le (slots_end input section + 16) section.segment_end q.0;
            slots = q.1.0;
            padding = q.1.1.0;
          })
          (λ q. (
            le→leb (slots_end input section + 16) section.segment_end q.in_segment,
            (q.slots, (q.padding, tt)),
          ))
          (guard_then
            {N = EmptySlots input.original t n 1
              × (Padding input.original (strings_start section) (length strings) × Unit {0})}
            (leb (slots_end input section + 16) section.segment_end) no_free_string_table_space _ _
            (λ fits.
              Decides-bind _ _ _ _
                (slots_loop-EmptySlots n 1 input.original t f
                  (omega (arith, ends.inside, f.fits, entries_needed_two input.rpath_entry)))
                (λ slots u g.
                  Decides-bind _ _ _ _ (stage_strings-Padding input.original section strings small)
                    (λ padding out same.
                      rw same (
                        inl (tt, written_file input section f ends small apart slots padding))))))))

-- Where `rewrite_elf` succeeds on a file of bytes whose section was found, with the new strings apart
-- from the array and ending below 2^64, there was slack, and a dynamic linker reads the old entries
-- with the grown string table, then the new ones, whose strings are there; every other byte of the file
-- is as before.
pub rewrite_elf-Linked :
    (input : ElfRewriteInput) (headers : List ProgramHeader) (section : DynamicSection)
    (out : Bytes)
    → IsFile input.original
    → read_program_headers input.original ≡ ok headers
    → find_dynamic_section input.original headers ≡ ok section
    → strings_end input section < u64_mod
    → Apart input section
    → rewrite_elf input ≡ ok out
    → Slack input section × Linked input section out
unfolding rewrite_elf
rewrite_elf-Linked input headers section out f h s small apart e =
    let (u, p, e1) = >>=-eq-ok (guard (has_elf_ident input.original) _) _ e in
    let (e_type, q, e2) = >>=-eq-ok (read_u16_le input.original 16) _ e1 in
    let (v, r, e3) = >>=-eq-ok (guard (e_type == et_exec || e_type == et_dyn) _) _ e2 in
    let runs = rw s at (rw h at e3) in
    elim (rewrite_dynamic-Decides input section f
      (find_dynamic_section-EndsAt input.original headers section f
        (read_program_headers-IsWord input.original headers f h) s)
      small apart) [
        | inl (slack, (out', runs', l)) ↦
            (slack, subst (Linked input section) (ok-injective (sym runs' ∙ runs)) l)
        | inr (lacks, (x, refuses)) ↦ absurd (err-not-ok (sym refuses ∙ runs))
      ]
