-- ===== src/Rewrite/Examples.antt =====
-- Runs of the rewriters of crates/daemon/os-rewrite-elf/src/lib.rs and
-- crates/daemon/os-rewrite-macho/src/lib.rs on small files.
use os_emulation.Base.{
  ◌+◌, ◌<◌, ◌≡◌, ◌≢◌, refl, inl, none, ok, err, List, [], ◌∷◌, ◌++◌, replicate, Bytes, ascii, arith,
}
use os_emulation.Base.Words.{u32_mod, u64_mod}
use os_emulation.Rewrite.Buffer.{
  le_at, read_le, write_le, to_le, copy_from_slice, all_zero, out_of_fuel, panicked,
}
use os_emulation.Rewrite.BufferLaws.{IsFile, All-IsFile}
use os_emulation.Rewrite.Elf
use os_emulation.Rewrite.MachO
use os_emulation.Rewrite.Elf.Linked.{Linked, Apart, strings_end}
use os_emulation.Rewrite.Elf.Slack.{Decides}
use os_emulation.Rewrite.Elf.Headers.{find_dynamic_section-EndsAt}
use os_emulation.Rewrite.Elf.Rewriting.{Slack, rewrite_dynamic-Decides, rewrite_elf-Linked}
use os_emulation.Rewrite.Elf.Ending.{rewrite_elf-Ends}
use os_emulation.Rewrite.MachO.Commands.{Table}
use os_emulation.Rewrite.MachO.Anchors.{HoldsSignature, find_anchor-IsAnchor}
use os_emulation.Rewrite.MachO.Loaded.{Loaded}
use os_emulation.Rewrite.MachO.Replacing.{
  Room, Replaces, ncmds_of, sizeofcmds_of, replace_anchor-cases, rewrite_macho-Loaded,
}

-- An executable with one segment that is loaded and a dynamic array of three entries and a spare slot.
abbrev an_elf : Bytes
an_elf =
    (127 ∷ 69 ∷ 76 ∷ 70 ∷ 2 ∷ 1 ∷ [])
    ++ (replicate 10 0
        ++ ((2 ∷ [])
            ++ (replicate 15 0
                ++ ((64 ∷ [])
                    ++ (replicate 21 0
                        ++ ((56 ∷ 0 ∷ 2 ∷ 0 ∷ 0 ∷ 0 ∷ 0 ∷ 0 ∷ 0 ∷ 0 ∷ 1 ∷ [])
                            ++ (replicate 31 0
                                ++ ((254 ∷ [])
                                    ++ (replicate 23 0
                                        ++ ((2 ∷ 0 ∷ 0 ∷ 0 ∷ 0 ∷ 0 ∷ 0 ∷ 0 ∷ 190 ∷ 0 ∷ 0 ∷ 0 ∷ 0 ∷ 0
                                              ∷ 0 ∷ 0 ∷ 190 ∷ [])
                                            ++ (replicate 15 0
                                                ++ ((64 ∷ [])
                                                    ++ (replicate 23 0
                                                        ++ ((97 ∷ 97 ∷ [])
                                                            ++ (replicate 12 0
                                                            ++ ((5 ∷ 0 ∷ 0 ∷ 0 ∷ 0 ∷ 0 ∷ 0 ∷ 0 ∷ 176
                                                            ∷ 0 ∷ 0 ∷ 0 ∷ 0 ∷ 0 ∷ 0 ∷ 0 ∷ 10 ∷ 0 ∷ 0
                                                            ∷ 0 ∷ 0 ∷ 0 ∷ 0 ∷ 0 ∷ 2 ∷ [])
                                                            ++ (replicate 39 0)))))))))))))))))

abbrev a_linked_elf : Bytes
a_linked_elf =
    (127 ∷ 69 ∷ 76 ∷ 70 ∷ 2 ∷ 1 ∷ [])
    ++ (replicate 10 0
        ++ ((2 ∷ [])
            ++ (replicate 15 0
                ++ ((64 ∷ [])
                    ++ (replicate 21 0
                        ++ ((56 ∷ 0 ∷ 2 ∷ 0 ∷ 0 ∷ 0 ∷ 0 ∷ 0 ∷ 0 ∷ 0 ∷ 1 ∷ [])
                            ++ (replicate 31 0
                                ++ ((254 ∷ [])
                                    ++ (replicate 23 0
                                        ++ ((2 ∷ 0 ∷ 0 ∷ 0 ∷ 0 ∷ 0 ∷ 0 ∷ 0 ∷ 190 ∷ 0 ∷ 0 ∷ 0 ∷ 0 ∷ 0
                                              ∷ 0 ∷ 0 ∷ 190 ∷ [])
                                            ++ (replicate 15 0
                                                ++ ((64 ∷ [])
                                                    ++ (replicate 23 0
                                                        ++ ((97 ∷ 97 ∷ 108 ∷ 105 ∷ 98 ∷ [])
                                                            ++ (replicate 9 0
                                                            ++ ((5 ∷ 0 ∷ 0 ∷ 0 ∷ 0 ∷ 0 ∷ 0 ∷ 0 ∷ 176
                                                            ∷ 0 ∷ 0 ∷ 0 ∷ 0 ∷ 0 ∷ 0 ∷ 0 ∷ 10 ∷ 0 ∷ 0
                                                            ∷ 0 ∷ 0 ∷ 0 ∷ 0 ∷ 0 ∷ 6 ∷ 0 ∷ 0 ∷ 0 ∷ 0
                                                            ∷ 0 ∷ 0 ∷ 0 ∷ 1 ∷ 0 ∷ 0 ∷ 0 ∷ 0 ∷ 0 ∷ 0
                                                            ∷ 0 ∷ 2 ∷ [])
                                                            ++ (replicate 23 0)))))))))))))))))

-- A file with two load commands, of which the second is the code signature.
abbrev a_macho : Bytes
a_macho =
    (207 ∷ 250 ∷ 237 ∷ 254 ∷ 7 ∷ 0 ∷ 0 ∷ 0 ∷ 3 ∷ 0 ∷ 0 ∷ 0 ∷ 2 ∷ 0 ∷ 0 ∷ 0 ∷ 2 ∷ 0 ∷ 0 ∷ 0 ∷ 24
      ∷ [])
    ++ (replicate 11 0
        ++ ((27 ∷ 0 ∷ 0 ∷ 0 ∷ 8 ∷ 0 ∷ 0 ∷ 0 ∷ 29 ∷ 0 ∷ 0 ∷ 0 ∷ 16 ∷ 0 ∷ 0 ∷ 0 ∷ 9 ∷ 0 ∷ 0 ∷ 0 ∷ 9
              ∷ [])
            ++ (replicate 19 0)))

abbrev a_loaded_macho : Bytes
a_loaded_macho =
    (207 ∷ 250 ∷ 237 ∷ 254 ∷ 7 ∷ 0 ∷ 0 ∷ 0 ∷ 3 ∷ 0 ∷ 0 ∷ 0 ∷ 2 ∷ 0 ∷ 0 ∷ 0 ∷ 2 ∷ 0 ∷ 0 ∷ 0 ∷ 40
      ∷ [])
    ++ (replicate 11 0
        ++ ((27 ∷ 0 ∷ 0 ∷ 0 ∷ 8 ∷ 0 ∷ 0 ∷ 0 ∷ 12 ∷ 0 ∷ 0 ∷ 0 ∷ 32 ∷ 0 ∷ 0 ∷ 0 ∷ 24 ∷ 0 ∷ 0 ∷ 0 ∷ 2
            ∷ 0 ∷ 0 ∷ 0 ∷ 0 ∷ 0 ∷ 1 ∷ 0 ∷ 0 ∷ 0 ∷ 1 ∷ 0 ∷ 97 ∷ 0 ∷ 0 ∷ 0 ∷ 0 ∷ 0 ∷ 0 ∷ 0 ∷ [])))

an_elf-IsFile : IsFile an_elf
an_elf-IsFile = All-IsFile an_elf (omega arith) (omega arith)

a_macho-IsFile : IsFile a_macho
a_macho-IsFile = All-IsFile a_macho (omega arith) (omega arith)

abbrev an_elf_input : Elf.ElfRewriteInput
an_elf_input = record { original = an_elf; needed_name = ascii "lib"; rpath_entry = none }

abbrev a_macho_input : MachO.MachORewriteInput
a_macho_input = record { original = a_macho; dylib_load_path = ascii "a" }

elf_runs : Elf.rewrite_elf an_elf_input ≡ ok a_linked_elf
unfolding Elf.rewrite_elf read_le write_le to_le copy_from_slice all_zero Elf.vaddr_to_file_offset
    Elf.read_u16_le Elf.read_u32_le Elf.read_u64_le Elf.write_u64_le
elf_runs = refl

-- The size of the string table wraps the end of the strings around, and the slice panics.
abbrev a_wrapping_elf : Bytes
a_wrapping_elf =
    (127 ∷ 69 ∷ 76 ∷ 70 ∷ 2 ∷ 1 ∷ [])
    ++ (replicate 10 0
        ++ ((2 ∷ [])
            ++ (replicate 15 0
                ++ ((64 ∷ [])
                    ++ (replicate 21 0
                        ++ ((56 ∷ 0 ∷ 2 ∷ 0 ∷ 0 ∷ 0 ∷ 0 ∷ 0 ∷ 0 ∷ 0 ∷ 1 ∷ [])
                            ++ (replicate 31 0
                                ++ ((254 ∷ [])
                                    ++ (replicate 23 0
                                        ++ ((2 ∷ 0 ∷ 0 ∷ 0 ∷ 0 ∷ 0 ∷ 0 ∷ 0 ∷ 190 ∷ 0 ∷ 0 ∷ 0 ∷ 0 ∷ 0
                                              ∷ 0 ∷ 0 ∷ 190 ∷ [])
                                            ++ (replicate 15 0
                                                ++ ((64 ∷ [])
                                                    ++ (replicate 23 0
                                                        ++ ((97 ∷ 97 ∷ [])
                                                            ++ (replicate 12 0
                                                            ++ ((5 ∷ 0 ∷ 0 ∷ 0 ∷ 0 ∷ 0 ∷ 0 ∷ 0 ∷ 176
                                                            ∷ 0 ∷ 0 ∷ 0 ∷ 0 ∷ 0 ∷ 0 ∷ 0 ∷ 10 ∷ 0 ∷ 0
                                                            ∷ 0 ∷ 0 ∷ 0 ∷ 0 ∷ 0 ∷ 78 ∷ 255 ∷ 255
                                                            ∷ 255 ∷ 255 ∷ 255 ∷ 255 ∷ 255 ∷ [])
                                                            ++ (replicate 32 0)))))))))))))))))

elf_panics :
    Elf.rewrite_elf
      (record { original = a_wrapping_elf; needed_name = ascii "lib"; rpath_entry = none })
    ≡ err panicked
unfolding Elf.rewrite_elf read_le write_le to_le copy_from_slice all_zero Elf.vaddr_to_file_offset
    Elf.read_u16_le Elf.read_u32_le Elf.read_u64_le Elf.write_u64_le
elf_panics = refl

macho_runs : MachO.rewrite_macho a_macho_input ≡ ok a_loaded_macho
unfolding MachO.rewrite_macho read_le write_le to_le copy_from_slice all_zero MachO.read_u32_le
    MachO.write_u32_le
macho_runs = refl

-- Two commands that a table of eight bytes cannot hold: the name is written behind the file.
abbrev an_overrun_macho : Bytes
an_overrun_macho =
    (207 ∷ 250 ∷ 237 ∷ 254 ∷ 7 ∷ 0 ∷ 0 ∷ 0 ∷ 3 ∷ 0 ∷ 0 ∷ 0 ∷ 2 ∷ 0 ∷ 0 ∷ 0 ∷ 2 ∷ 0 ∷ 0 ∷ 0 ∷ 8 ∷ [])
    ++ (replicate 11 0
        ++ ((41 ∷ 0 ∷ 0 ∷ 0 ∷ 16 ∷ [])
            ++ (replicate 11 0
                ++ ((29 ∷ 0 ∷ 0 ∷ 0 ∷ 16 ∷ 0 ∷ 0 ∷ 0 ∷ 1 ∷ 0 ∷ 0 ∷ 0 ∷ 1 ∷ 0 ∷ 0 ∷ 0 ∷ [])))))

macho_panics :
    MachO.rewrite_macho
      (record { original = an_overrun_macho; dylib_load_path = ascii "libshimxy" })
    ≡ err panicked
unfolding MachO.rewrite_macho read_le write_le to_le copy_from_slice all_zero MachO.read_u32_le
    MachO.write_u32_le
macho_panics = refl

abbrev the_headers : List Elf.ProgramHeader
the_headers =
    record { p_type = 1; p_offset = 0; p_vaddr = 0; p_filesz = 254 }
    ∷ record { p_type = 2; p_offset = 190; p_vaddr = 190; p_filesz = 64 }
    ∷ []

abbrev the_section : Elf.DynamicSection
the_section = record {
  offset = 190;
  terminator_offset = 222;
  segment_end = 254;
  strtab_file_offset = 176;
  strsz = 2;
}

headers_found : Elf.read_program_headers an_elf ≡ ok the_headers
unfolding Elf.read_program_headers read_le Elf.read_u16_le Elf.read_u32_le Elf.read_u64_le
headers_found = refl

section_found : Elf.find_dynamic_section an_elf the_headers ≡ ok the_section
unfolding Elf.find_dynamic_section read_le Elf.vaddr_to_file_offset Elf.read_u64_le
section_found = refl

needed_is_clear : (strings_end an_elf_input the_section < u64_mod) × Apart an_elf_input the_section
unfolding Elf.new_strings Elf.entries_needed
needed_is_clear = (omega arith, inl (omega arith))

rewrite_elf-Linked_example :
    Slack an_elf_input the_section × Linked an_elf_input the_section a_linked_elf
rewrite_elf-Linked_example =
    rewrite_elf-Linked an_elf_input the_headers the_section a_linked_elf an_elf-IsFile headers_found
      section_found needed_is_clear.0 needed_is_clear.1 elf_runs

rewrite_dynamic-Decides_example :
    Decides
      (Slack an_elf_input the_section)
      (Elf.rewrite_dynamic an_elf_input the_section)
      (Linked an_elf_input the_section)
rewrite_dynamic-Decides_example =
    rewrite_dynamic-Decides an_elf_input the_section an_elf-IsFile
      (find_dynamic_section-EndsAt an_elf the_headers the_section an_elf-IsFile (omega arith)
        section_found)
      needed_is_clear.0 needed_is_clear.1

rewrite_elf-Ends_example : Elf.rewrite_elf an_elf_input ≢ err out_of_fuel
rewrite_elf-Ends_example = rewrite_elf-Ends an_elf_input an_elf-IsFile

counted_table : Table (ncmds_of a_macho) a_macho 32 (32 + sizeofcmds_of a_macho)
unfolding le_at
counted_table = (omega arith, (omega arith, omega arith))

a_table : Table 2 a_macho 32 56
unfolding le_at
a_table = (omega arith, (omega arith, omega arith))

abbrev the_anchor : MachO.Anchor
the_anchor = record { offset = 40; size = 16; command_count = 1 }

anchor_found : MachO.find_anchor a_macho 2 24 ≡ ok the_anchor
unfolding MachO.find_anchor read_le MachO.read_u32_le
anchor_found = refl

path_fits : MachO.new_cmd_size (ascii "a") + sizeofcmds_of a_macho < u32_mod
unfolding MachO.new_cmd_size le_at
path_fits = omega arith

small_path_fits : MachO.new_cmd_size (ascii "a") + 24 < u32_mod
unfolding MachO.new_cmd_size
small_path_fits = omega arith

replace_anchor-cases_example :
    Replaces a_macho_input 2 24 the_anchor (MachO.replace_anchor a_macho_input 2 24 the_anchor)
replace_anchor-cases_example =
    replace_anchor-cases a_macho_input 2 24 the_anchor a_macho-IsFile
      (find_anchor-IsAnchor a_macho 2 24 the_anchor a_macho-IsFile anchor_found).1 a_table
      (omega arith) (omega arith) small_path_fits

rewrite_macho-Loaded_example :
    (a : MachO.Anchor) × HoldsSignature a_macho (32 + sizeofcmds_of a_macho) a
    × Room a_macho_input (sizeofcmds_of a_macho) a
    × Loaded a_macho_input (ncmds_of a_macho) (sizeofcmds_of a_macho) a a_loaded_macho
rewrite_macho-Loaded_example =
    rewrite_macho-Loaded a_macho_input a_loaded_macho a_macho-IsFile counted_table path_fits
      macho_runs
