-- ===== src/Rewrite/Elf.antt =====
-- crates/daemon/os-rewrite-elf/src/lib.rs: a `DT_NEEDED` entry, and a `DT_RUNPATH` one if there is a
-- path, are put into the spare slots of the dynamic array of an ELF64 file.
pub mod Layout
pub mod Scan
pub mod Grow
pub mod Entries
pub mod Slack
pub mod Linked
pub mod Headers
pub mod Ending
pub mod Rewriting
use os_emulation.Base.{
  ℕ, zero, suc, ◌+◌, ◌-◌, ◌*◌, ◌%◌, Bool, true, false, ◌&&◌, ◌||◌, not, Option, none, some, Result,
  ok, err, ◌>>=◌, ◌>>◌, guard, List, [], ◌∷◌, ◌++◌, Bytes, Text, ascii, length, get_or, leb, ltb,
  ◌==◌, if◌then◌else◌,
}
use os_emulation.Base.Words.{u64_mod}
use os_emulation.Rewrite.Buffer.{
  Fault, refused, panicked, out_of_fuel, is_slice, read_le, write_le, copy_from_slice, all_zero,
}

abbrev pub ei_class_offset : ℕ
ei_class_offset = 4

abbrev pub ei_data_offset : ℕ
ei_data_offset = 5

abbrev pub elfclass64 : ℕ
elfclass64 = 2

abbrev pub elfdata2lsb : ℕ
elfdata2lsb = 1

abbrev pub et_exec : ℕ
et_exec = 2

abbrev pub et_dyn : ℕ
et_dyn = 3

abbrev pub pt_load : ℕ
pt_load = 1

abbrev pub pt_dynamic : ℕ
pt_dynamic = 2

abbrev pub dt_null : ℕ
dt_null = 0

abbrev pub dt_needed : ℕ
dt_needed = 1

abbrev pub dt_strtab : ℕ
dt_strtab = 5

abbrev pub dt_strsz : ℕ
dt_strsz = 10

abbrev pub dt_runpath : ℕ
dt_runpath = 0x1d

abbrev pub ehdr_size : ℕ
ehdr_size = 64

abbrev pub phdr_size : ℕ
phdr_size = 56

abbrev pub dyn_entry_size : ℕ
dyn_entry_size = 16

pub record ElfRewriteInput : Type 0 where
  pub original : Bytes
  pub needed_name : Text
  pub rpath_entry : Option Text

pub data RewriteError : Type 0 where
  not_executable_or_pie : RewriteError
  no_dynamic_section : RewriteError
  no_free_string_table_space : RewriteError
  malformed : Text → RewriteError

abbrev pub Rewritten : Type 0 → Type 0
Rewritten = Result (Fault RewriteError)

abbrev pub truncated : RewriteError
truncated = malformed (ascii "truncated")

unfoldable pub read_u16_le : Bytes → ℕ → Rewritten ℕ
read_u16_le = read_le truncated 2

unfoldable pub read_u32_le : Bytes → ℕ → Rewritten ℕ
read_u32_le = read_le truncated 4

unfoldable pub read_u64_le : Bytes → ℕ → Rewritten ℕ
read_u64_le = read_le truncated 8

unfoldable pub write_u64_le : Bytes → ℕ → ℕ → Rewritten Bytes
write_u64_le = write_le 8

pub record ProgramHeader : Type 0 where
  pub p_type : ℕ
  pub p_offset : ℕ
  pub p_vaddr : ℕ
  pub p_filesz : ℕ

-- The body of the loop over the headers.
unfoldable pub read_program_header : Bytes → ℕ → Rewritten ProgramHeader
read_program_header input off = do
  p_type ← read_u32_le input off
  p_offset ← read_u64_le input ((off + 8) % u64_mod)
  p_vaddr ← read_u64_le input ((off + 16) % u64_mod)
  p_filesz ← read_u64_le input ((off + 32) % u64_mod)
  ok (record { p_type = p_type; p_offset = p_offset; p_vaddr = p_vaddr; p_filesz = p_filesz })

-- `for i in 0..e_phnum`, with the rounds left and `i`.
unfoldable pub program_headers_loop : ℕ → ℕ → Bytes → ℕ → ℕ → Rewritten (List ProgramHeader)
unfolding read_program_header
program_headers_loop zero i input e_phoff e_phentsize = ok []
program_headers_loop (suc left) i input e_phoff e_phentsize = do
  header ← read_program_header input ((e_phoff + i * e_phentsize) % u64_mod)
  headers ← program_headers_loop left (suc i) input e_phoff e_phentsize
  ok (header ∷ headers)

unfoldable pub read_program_headers : Bytes → Rewritten (List ProgramHeader)
unfolding program_headers_loop
read_program_headers input = do
  e_phoff ← read_u64_le input 32
  e_phentsize ← read_u16_le input 54
  e_phnum ← read_u16_le input 56
  guard (leb phdr_size e_phentsize) (refused (malformed (ascii "unexpected phentsize")))
  program_headers_loop e_phnum 0 input e_phoff e_phentsize

-- Whether a header is a `PT_LOAD` segment with the address.
unfoldable pub loads : ProgramHeader → ℕ → Bool
loads h vaddr =
    h.p_type == pt_load && leb h.p_vaddr vaddr && ltb vaddr ((h.p_vaddr + h.p_filesz) % u64_mod)

unfoldable pub vaddr_to_file_offset : List ProgramHeader → ℕ → Rewritten ℕ
unfolding loads
vaddr_to_file_offset [] vaddr =
    err (refused (malformed (ascii "DT_STRTAB vaddr not in any PT_LOAD segment")))
vaddr_to_file_offset (h ∷ headers) vaddr =
    if loads h vaddr
    then ok ((h.p_offset + (vaddr - h.p_vaddr)) % u64_mod)
    else vaddr_to_file_offset headers vaddr

pub record DynamicSection : Type 0 where
  pub offset : ℕ
  pub terminator_offset : ℕ
  pub segment_end : ℕ
  pub strtab_file_offset : ℕ
  pub strsz : ℕ

-- What the loop over the dynamic array has found.
pub record Found : Type 0 where
  pub strtab_vaddr : Option ℕ
  pub strsz : Option ℕ
  pub terminator_offset : Option ℕ

-- An entry that is not `DT_NULL`.
unfoldable pub note_entry : ℕ → ℕ → Found → Found
note_entry tag val found =
    if tag == dt_strtab
    then record found { strtab_vaddr = some val }
    else if tag == dt_strsz
    then record found { strsz = some val }
    else found

-- `while off + DYN_ENTRY_SIZE <= seg_end`
unfoldable pub dynamic_loop : ℕ → Bytes → ℕ → ℕ → Found → Rewritten Found
unfolding note_entry
dynamic_loop zero input seg_end off found = err out_of_fuel
dynamic_loop (suc fuel) input seg_end off found =
    let round = (do
      tag ← read_u64_le input off
      val ← read_u64_le input ((off + 8) % u64_mod)
      let rest =
          dynamic_loop fuel input seg_end ((off + dyn_entry_size) % u64_mod)
            (note_entry tag val found)
      if tag == dt_null then ok (record found { terminator_offset = some off }) else rest) in
    if leb ((off + dyn_entry_size) % u64_mod) seg_end then round else ok found

-- `headers.iter().find(|h| h.p_type == PT_DYNAMIC)`
unfoldable pub find_dynamic : List ProgramHeader → Rewritten ProgramHeader
find_dynamic [] = err (refused no_dynamic_section)
find_dynamic (h ∷ headers) = if h.p_type == pt_dynamic then ok h else find_dynamic headers

-- `found.ok_or(RewriteError::Malformed(what))?`
unfoldable pub ok_or : Option ℕ → Text → Rewritten ℕ
ok_or none what = err (refused (malformed what))
ok_or (some v) what = ok v

abbrev pub nothing_found : Found
nothing_found = record { strtab_vaddr = none; strsz = none; terminator_offset = none }

unfoldable pub find_dynamic_section : Bytes → List ProgramHeader → Rewritten DynamicSection
unfolding find_dynamic dynamic_loop ok_or
find_dynamic_section input headers = do
  dyn_seg ← find_dynamic headers
  let seg_end = (dyn_seg.p_offset + dyn_seg.p_filesz) % u64_mod
  found ← dynamic_loop (suc (length input)) input seg_end dyn_seg.p_offset nothing_found
  terminator_offset ←
      ok_or found.terminator_offset (ascii "dynamic array has no DT_NULL terminator")
  strtab_vaddr ← ok_or found.strtab_vaddr (ascii "no DT_STRTAB")
  strsz ← ok_or found.strsz (ascii "no DT_STRSZ")
  strtab_file_offset ← vaddr_to_file_offset headers strtab_vaddr
  ok (record {
    offset = dyn_seg.p_offset;
    terminator_offset = terminator_offset;
    segment_end = seg_end;
    strtab_file_offset = strtab_file_offset;
    strsz = strsz;
  })

-- `original[0..4]`, the class and the byte order.
unfoldable pub has_elf_ident : Bytes → Bool
has_elf_ident original =
    leb ehdr_size (length original)
    && get_or original 0 0 == 0x7f
    && get_or original 1 0 == 69
    && get_or original 2 0 == 76
    && get_or original 3 0 == 70
    && get_or original ei_class_offset 0 == elfclass64
    && get_or original ei_data_offset 0 == elfdata2lsb

-- `1 + input.rpath_entry.is_some() as u64`
unfoldable pub entries_needed : Option Text → ℕ
entries_needed none = 1
entries_needed (some rpath) = 2

-- `for i in 1..=entries_needed`, with the rounds left and `i`.
unfoldable pub slots_loop : ℕ → ℕ → Bytes → ℕ → Rewritten (Unit {0})
slots_loop zero i original terminator_offset = ok tt
slots_loop (suc left) i original terminator_offset = do
  let slot = (terminator_offset + dyn_entry_size * i) % u64_mod
  tag ← read_u64_le original slot
  guard (tag == 0) (refused no_free_string_table_space)
  val ← read_u64_le original ((slot + 8) % u64_mod)
  guard (val == 0) (refused no_free_string_table_space)
  slots_loop left (suc i) original terminator_offset

-- A string with its terminating zero.
unfoldable pub staged : Text → Bytes
staged s = s ++ 0 ∷ []

unfoldable pub staged_rpath : Option Text → Bytes
unfolding staged
staged_rpath none = []
staged_rpath (some rpath) = staged rpath

-- `new_strings`
unfoldable pub new_strings : ElfRewriteInput → Bytes
unfolding staged staged_rpath
new_strings input = staged input.needed_name ++ staged_rpath input.rpath_entry

-- The strings go into zero bytes behind the string table.
unfoldable pub stage_strings : Bytes → DynamicSection → Bytes → Rewritten Bytes
stage_strings original section strings = do
  let strings_start = (section.strtab_file_offset + section.strsz) % u64_mod
  let strings_end = (strings_start + length strings) % u64_mod
  guard (leb strings_end (length original)) (refused no_free_string_table_space)
  guard (leb strings_start strings_end) panicked
  guard (all_zero (strings_end - strings_start) original strings_start)
      (refused no_free_string_table_space)
  copy_from_slice original strings_start strings_end strings

-- The entry for the path, in the second slot.
unfoldable pub write_runpath : Option Text → Bytes → ℕ → ℕ → Rewritten Bytes
write_runpath none out slot rpath_str_off = ok out
write_runpath (some rpath) out slot rpath_str_off = do
  out' ← write_u64_le out slot dt_runpath
  write_u64_le out' ((slot + 8) % u64_mod) rpath_str_off

-- The new entries, from the old terminator on.
unfoldable pub write_entries : ElfRewriteInput → DynamicSection → Bytes → Rewritten Bytes
unfolding write_runpath staged
write_entries input section out = do
  out' ← write_u64_le out section.terminator_offset dt_needed
  out'' ← write_u64_le out' ((section.terminator_offset + 8) % u64_mod) section.strsz
  write_runpath input.rpath_entry out'' ((section.terminator_offset + dyn_entry_size) % u64_mod)
      ((section.strsz + length (staged input.needed_name)) % u64_mod)

-- The last loop: the first `DT_STRSZ` grows.
unfoldable pub grow_loop : ℕ → Bytes → ℕ → ℕ → Rewritten Bytes
grow_loop zero out off size = err out_of_fuel
grow_loop (suc fuel) out off size = do
  tag ← read_u64_le out off
  let rest = grow_loop fuel out ((off + dyn_entry_size) % u64_mod) size
  if tag == dt_strsz
      then write_u64_le out ((off + 8) % u64_mod) size
      else if tag == dt_null
      then ok out
      else rest

-- What follows the checks of the header.
unfoldable pub rewrite_dynamic : ElfRewriteInput → DynamicSection → Rewritten Bytes
unfolding entries_needed slots_loop stage_strings write_entries grow_loop new_strings
rewrite_dynamic input section = do
  let original = input.original
  let needed = entries_needed input.rpath_entry
  guard
      (leb ((section.terminator_offset + dyn_entry_size * (needed + 1)) % u64_mod)
        section.segment_end)
      (refused no_free_string_table_space)
  slots_loop needed 1 original section.terminator_offset
  let strings = new_strings input
  out ← stage_strings original section strings
  out' ← write_entries input section out
  grow_loop (suc (length original)) out' section.offset ((section.strsz + length strings) % u64_mod)

unfoldable pub rewrite_elf : ElfRewriteInput → Rewritten Bytes
unfolding has_elf_ident read_program_headers find_dynamic_section rewrite_dynamic
rewrite_elf input = do
  let original = input.original
  guard (has_elf_ident original) (refused not_executable_or_pie)
  e_type ← read_u16_le original 16
  guard (e_type == et_exec || e_type == et_dyn) (refused not_executable_or_pie)
  headers ← read_program_headers original
  section ← find_dynamic_section original headers
  rewrite_dynamic input section
