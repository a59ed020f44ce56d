-- ===== src/Rewrite/Elf/Headers.antt =====
-- The dynamic section that `find_dynamic_section` of os-rewrite-elf gives, from the headers of the file.
use os_emulation.Base.{
  ℕ, zero, suc, ◌+◌, ◌*◌, ◌%◌, ◌<◌, ◌≡◌, refl, sym, subst, ap, ◌∙◌, Option, none, some, ok,
  >>=-eq-ok, ok-injective, guard, List, [], ◌∷◌, All, Bytes, Text, length, leb, ◌==◌, Bool-cases,
  inl, inr, arith,
}
use os_emulation.Base.Words.{u64_mod}
use os_emulation.Rewrite.BufferLaws.{IsFile, read_le-lt}
use os_emulation.Rewrite.Elf.{
  Found, ProgramHeader, read_program_header, program_headers_loop, read_program_headers,
  read_u32_le, read_u64_le, read_u16_le, truncated, DynamicSection, find_dynamic,
  find_dynamic_section, dynamic_loop, nothing_found, ok_or, vaddr_to_file_offset, pt_dynamic,
  phdr_size,
}
use os_emulation.Rewrite.Elf.Scan.{EndsAt, dynamic_loop-EndsAt}

-- The offset of a segment is a number of 64 bits.
abbrev pub IsWord : ProgramHeader → Type 0
IsWord h = h.p_offset < u64_mod

read_program_header-IsWord :
    (input : Bytes) (off : ℕ) (h : ProgramHeader)
    → IsFile input
    → read_program_header input off ≡ ok h
    → IsWord h
unfolding read_program_header read_u64_le
read_program_header-IsWord input off h f e =
    let (p_type, p, e1) = >>=-eq-ok (read_u32_le input off) _ e in
    let (p_offset, q, e2) = >>=-eq-ok (read_u64_le input ((off + 8) % u64_mod)) _ e1 in
    let (p_vaddr, r, e3) = >>=-eq-ok (read_u64_le input ((off + 16) % u64_mod)) _ e2 in
    let (p_filesz, s, e4) = >>=-eq-ok (read_u64_le input ((off + 32) % u64_mod)) _ e3 in
    let same : p_offset ≡ h.p_offset = ap (λ (x : ProgramHeader). x.p_offset) (ok-injective e4) in
    omega (arith, same, read_le-lt truncated 8 input ((off + 8) % u64_mod) p_offset f q)

program_headers_loop-IsWord :
    (left i : ℕ) (input : Bytes) (e_phoff e_phentsize : ℕ) (headers : List ProgramHeader)
    → IsFile input
    → program_headers_loop left i input e_phoff e_phentsize ≡ ok headers
    → All IsWord headers
unfolding program_headers_loop
program_headers_loop-IsWord zero i input e_phoff e_phentsize headers f e =
    subst (All IsWord) (ok-injective e) tt
program_headers_loop-IsWord (suc left) i input e_phoff e_phentsize headers f e =
    let (h, p, e1) =
      >>=-eq-ok (read_program_header input ((e_phoff + i * e_phentsize) % u64_mod)) _ e in
    let (hs, q, e2) =
      >>=-eq-ok (program_headers_loop left (suc i) input e_phoff e_phentsize) _ e1 in
    subst (All IsWord) (ok-injective e2) (
      read_program_header-IsWord input _ h f p,
      program_headers_loop-IsWord left (suc i) input e_phoff e_phentsize hs f q,
    )

pub read_program_headers-IsWord :
    (input : Bytes) (headers : List ProgramHeader)
    → IsFile input
    → read_program_headers input ≡ ok headers
    → All IsWord headers
unfolding read_program_headers
read_program_headers-IsWord input headers f e =
    let (e_phoff, p, e1) = >>=-eq-ok (read_u64_le input 32) _ e in
    let (e_phentsize, q, e2) = >>=-eq-ok (read_u16_le input 54) _ e1 in
    let (e_phnum, r, e3) = >>=-eq-ok (read_u16_le input 56) _ e2 in
    let (u, g, e4) = >>=-eq-ok (guard (leb phdr_size e_phentsize) _) _ e3 in
    program_headers_loop-IsWord e_phnum 0 input e_phoff e_phentsize headers f e4

pub find_dynamic-IsWord :
    (headers : List ProgramHeader) (h : ProgramHeader)
    → All IsWord headers
    → find_dynamic headers ≡ ok h
    → IsWord h
unfolding find_dynamic
find_dynamic-IsWord [] h words e = cc
find_dynamic-IsWord (x ∷ headers) h (word, words) e = elim (Bool-cases (x.p_type == pt_dynamic)) [
  | inl found ↦ subst IsWord (ok-injective (rw found at e)) word
  | inr other ↦ find_dynamic-IsWord headers h words (rw other at e)
]

ok_or-ok : (o : Option ℕ) (what : Text) (v : ℕ) → ok_or o what ≡ ok v → o ≡ some v
unfolding ok_or
ok_or-ok none what v e = cc
ok_or-ok (some w) what v e = cc

-- How a section was found.
record FoundAs (input : Bytes) (headers : List ProgramHeader) (section : DynamicSection)
    : Type 0 where
  seg : ProgramHeader
  found : Found
  finds : find_dynamic headers ≡ ok seg
  scans :
      dynamic_loop
        (suc (length input))
        input
        ((seg.p_offset + seg.p_filesz) % u64_mod)
        seg.p_offset
        nothing_found
      ≡ ok found
  offset : section.offset ≡ seg.p_offset
  terminator : found.terminator_offset ≡ some section.terminator_offset

find_dynamic_section-FoundAs :
    (input : Bytes) (headers : List ProgramHeader) (section : DynamicSection)
    → find_dynamic_section input headers ≡ ok section
    → FoundAs input headers section
unfolding find_dynamic_section
find_dynamic_section-FoundAs input headers section e =
    let (seg, p, e1) = >>=-eq-ok (find_dynamic headers) _ e in
    let seg_end = (seg.p_offset + seg.p_filesz) % u64_mod in
    let (found, q, e2) =
      >>=-eq-ok (dynamic_loop (suc (length input)) input seg_end seg.p_offset nothing_found) _ e1 in
    let (t, r, e3) = >>=-eq-ok (ok_or found.terminator_offset _) _ e2 in
    let (vaddr, r1, e4) = >>=-eq-ok (ok_or found.strtab_vaddr _) _ e3 in
    let (size, r2, e5) = >>=-eq-ok (ok_or found.strsz _) _ e4 in
    let (off, r3, e6) = >>=-eq-ok (vaddr_to_file_offset headers vaddr) _ e5 in
    let same = ok-injective e6 in
    record {
      seg = seg;
      found = found;
      finds = p;
      scans = q;
      offset = sym (ap (λ (s : DynamicSection). s.offset) same);
      terminator =
          ok_or-ok found.terminator_offset _ t r
          ∙ ap (λ (s : DynamicSection). some s.terminator_offset) same;
    }

pub find_dynamic_section-word :
    (input : Bytes) (headers : List ProgramHeader) (section : DynamicSection)
    → All IsWord headers
    → find_dynamic_section input headers ≡ ok section
    → section.offset < u64_mod
find_dynamic_section-word input headers section words e =
    let a = find_dynamic_section-FoundAs input headers section e in
    omega (arith, a.offset, find_dynamic-IsWord headers a.seg words a.finds)

-- The array of the section that was found ends at its terminator.
pub find_dynamic_section-EndsAt :
    (input : Bytes) (headers : List ProgramHeader) (section : DynamicSection)
    → IsFile input
    → All IsWord headers
    → find_dynamic_section input headers ≡ ok section
    → EndsAt input section.offset section.terminator_offset
find_dynamic_section-EndsAt input headers section f words e =
    let a = find_dynamic_section-FoundAs input headers section e in
    subst (λ (o : ℕ). EndsAt input o section.terminator_offset) (sym a.offset)
      (dynamic_loop-EndsAt (suc (length input)) input _ a.seg.p_offset section.terminator_offset
        nothing_found a.found f (find_dynamic-IsWord headers a.seg words a.finds) refl a.scans
        a.terminator)
