-- ===== src/Rewrite/Elf/Ending.antt =====
-- The loops of `rewrite_elf` of crates/daemon/os-rewrite-elf/src/lib.rs, and the fuel of the model.
use os_emulation.Base.{
  ℕ, zero, suc, ◌+◌, ◌*◌, ◌%◌, ◌^◌, ◌<◌, ◌≡◌, ◌≢◌, refl, sym, ap, ◌∙◌, Bool, true, false, Option,
  none, some, ok, err, ok-injective, ◌-◌, ◌||◌, ◌>>=◌, guard, >>=-eq-ok, List, [], ◌∷◌, All, Bytes,
  Text, length, leb, ◌==◌, Bool-cases, inl, inr, arith,
}
use os_emulation.Base.Words.{u64_mod}
use os_emulation.Rewrite.Buffer.{
  refused, panicked, out_of_fuel, read_le, write_le, copy_from_slice, to_le, all_zero,
}
use os_emulation.Rewrite.BufferLaws.{IsFile, length-overwrite, read_le-ok}
use os_emulation.Rewrite.Elf.{
  RewriteError, Rewritten, truncated, read_u16_le, read_u32_le, read_u64_le, write_u64_le,
  grow_loop, dt_strsz, dt_null, ElfRewriteInput, DynamicSection, rewrite_dynamic, rewrite_elf,
  slots_loop, stage_strings, write_entries, write_runpath, find_dynamic_section, find_dynamic,
  nothing_found, ok_or, vaddr_to_file_offset, read_program_headers, program_headers_loop,
  read_program_header, ProgramHeader, pt_dynamic, loads, has_elf_ident, et_exec, et_dyn,
  entries_needed, new_strings,
}
use os_emulation.Rewrite.Elf.Scan.{dynamic_loop-ends}
use os_emulation.Rewrite.Elf.Headers.{
  IsWord, find_dynamic_section-word, find_dynamic-IsWord, read_program_headers-IsWord,
}

-- A run that does not run out of fuel.
abbrev pub Ends : {A : Type 0} → Rewritten A → Type 0
Ends run = run ≢ err out_of_fuel

Ends-bind :
    {A B : Type 0} (run : Rewritten A) (next : A → Rewritten B)
    → Ends run
    → ((a : A) → run ≡ ok a → Ends (next a))
    → Ends (run >>= next)
Ends-bind (ok a) next h k = k a refl
Ends-bind (err e) next h k = λ x. h (cc x)

Ends-ok : {A : Type 0} (a : A) → Ends (ok a)
Ends-ok a = λ x. cc

Ends-guard : (holds : Bool) (e : RewriteError) → Ends (guard holds (refused e))
Ends-guard true e = λ x. cc
Ends-guard false e = λ x. cc

Ends-read : (n : ℕ) (buf : Bytes) (off : ℕ) → Ends (read_le truncated n buf off)
unfolding read_le
Ends-read n buf off = λ x. ground arith

Ends-write : (buf : Bytes) (off v : ℕ) → Ends (write_u64_le buf off v)
unfolding write_u64_le write_le copy_from_slice
Ends-write buf off v = λ x. ground arith

grow_loop-Ends :
    (fuel : ℕ) (out : Bytes) (off size : ℕ)
    → length out < 2 ^ 63
    → off < u64_mod
    → 0 < fuel
    → length out < off + fuel
    → Ends (grow_loop fuel out off size)
unfolding grow_loop read_u64_le
grow_loop-Ends zero out off size f lo k h = absurd (omega arith)
grow_loop-Ends (suc fuel) out off size f lo k h =
    Ends-bind (read_le truncated 8 out off) _ (Ends-read 8 out off) (λ tag p.
      let inside = (read_le-ok truncated 8 out off tag (omega arith) lo f p).0 in
      elim (Bool-cases (tag == dt_strsz)) [
        | inl found ↦ rw found (Ends-write out ((off + 8) % u64_mod) size)
        | inr other ↦ rw other (elim (Bool-cases (tag == dt_null)) [
          | inl last ↦ rw last (Ends-ok out)
          | inr more ↦ rw more (
              grow_loop-Ends fuel out ((off + 16) % u64_mod) size f (omega arith)
                (omega (arith, inside)) (omega (arith, inside)))
        ])
      ])

Ends-panic : (holds : Bool) → Ends {A = Unit {0}} (guard holds panicked)
Ends-panic true = λ x. cc
Ends-panic false = λ x. cc

Ends-copy : (buf : Bytes) (start end : ℕ) (bs : Bytes) → Ends (copy_from_slice buf start end bs)
unfolding copy_from_slice
Ends-copy buf start end bs = λ x. ground arith

runpath :
    (rpath : Option Text) (out : Bytes) (slot off : ℕ) → Ends (write_runpath rpath out slot off)
unfolding write_runpath
runpath none out slot off = Ends-ok out
runpath (some rpath) out slot off =
    Ends-bind _ _ (Ends-write out _ _) (λ out' p. Ends-write out' _ _)

slots_loop-Ends : (left i : ℕ) (original : Bytes) (t : ℕ) → Ends (slots_loop left i original t)
unfolding slots_loop read_u64_le
slots_loop-Ends zero i original t = Ends-ok tt
slots_loop-Ends (suc left) i original t = Ends-bind _ _ (Ends-read 8 original _) (λ tag p.
    Ends-bind _ _ (Ends-guard (tag == 0) _) (λ u q. Ends-bind _ _ (Ends-read 8 original _) (λ val r.
      Ends-bind _ _ (Ends-guard (val == 0) _) (λ v s. slots_loop-Ends left (suc i) original t))))

stage_strings-Ends :
    (original : Bytes) (section : DynamicSection) (strings : Bytes)
    → Ends (stage_strings original section strings)
unfolding stage_strings
stage_strings-Ends original section strings =
    let start = (section.strtab_file_offset + section.strsz) % u64_mod in
    let end = (start + length strings) % u64_mod in
    Ends-bind _ _ (Ends-guard (leb end (length original)) _) (λ u p.
      Ends-bind _ _ (Ends-panic (leb start end)) (λ v q.
        Ends-bind _ _ (Ends-guard (all_zero (end - start) original start) _)
          (λ w r. Ends-copy original start end strings)))

write_entries-Ends :
    (input : ElfRewriteInput) (section : DynamicSection) (out : Bytes)
    → Ends (write_entries input section out)
unfolding write_entries
write_entries-Ends input section out =
    Ends-bind _ _ (Ends-write out _ _) (λ out' p.
      Ends-bind _ _ (Ends-write out' _ _) (λ out'' q. runpath input.rpath_entry out'' _ _))

ok_or-Ends : (o : Option ℕ) (what : Text) → Ends (ok_or o what)
unfolding ok_or
ok_or-Ends none what = λ x. cc
ok_or-Ends (some v) what = λ x. cc

find_dynamic-Ends : (headers : List ProgramHeader) → Ends (find_dynamic headers)
unfolding find_dynamic
find_dynamic-Ends [] = λ x. cc
find_dynamic-Ends (h ∷ headers) = elim (Bool-cases (h.p_type == pt_dynamic)) [
  | inl found ↦ rw found (Ends-ok h)
  | inr other ↦ rw other (find_dynamic-Ends headers)
]

vaddr_to_file_offset-Ends :
    (headers : List ProgramHeader) (vaddr : ℕ) → Ends (vaddr_to_file_offset headers vaddr)
unfolding vaddr_to_file_offset
vaddr_to_file_offset-Ends [] vaddr = λ x. cc
vaddr_to_file_offset-Ends (h ∷ headers) vaddr = elim (Bool-cases (loads h vaddr)) [
  | inl found ↦ rw found (Ends-ok _)
  | inr other ↦ rw other (vaddr_to_file_offset-Ends headers vaddr)
]

find_dynamic_section-Ends :
    (input : Bytes) (headers : List ProgramHeader)
    → IsFile input
    → All IsWord headers
    → Ends (find_dynamic_section input headers)
unfolding find_dynamic_section
find_dynamic_section-Ends input headers f words =
    Ends-bind _ _ (find_dynamic-Ends headers) (λ seg p.
      Ends-bind _ _
        (dynamic_loop-ends (suc (length input)) input _ seg.p_offset nothing_found f
          (find_dynamic-IsWord headers seg words p) (omega arith) (omega arith))
        (λ found q. Ends-bind _ _ (ok_or-Ends found.terminator_offset _) (λ t r.
          Ends-bind _ _ (ok_or-Ends found.strtab_vaddr _) (λ vaddr s.
            Ends-bind _ _ (ok_or-Ends found.strsz _) (λ size r'.
              Ends-bind _ _ (vaddr_to_file_offset-Ends headers vaddr) (λ off s'. Ends-ok _))))))

program_headers_loop-Ends :
    (left i : ℕ) (input : Bytes) (e_phoff e_phentsize : ℕ)
    → Ends (program_headers_loop left i input e_phoff e_phentsize)
unfolding program_headers_loop read_program_header read_u64_le read_u32_le
program_headers_loop-Ends zero i input e_phoff e_phentsize = Ends-ok []
program_headers_loop-Ends (suc left) i input e_phoff e_phentsize =
    Ends-bind (read_program_header input ((e_phoff + i * e_phentsize) % u64_mod)) _
      (Ends-bind _ _ (Ends-read 4 input _) (λ a p. Ends-bind _ _ (Ends-read 8 input _) (λ b q.
        Ends-bind _ _ (Ends-read 8 input _)
          (λ c r. Ends-bind _ _ (Ends-read 8 input _) (λ d s. Ends-ok _)))))
      (λ h p.
        Ends-bind _ _ (program_headers_loop-Ends left (suc i) input e_phoff e_phentsize)
          (λ hs q. Ends-ok _))

read_program_headers-Ends : (input : Bytes) → Ends (read_program_headers input)
unfolding read_program_headers read_u64_le read_u16_le
read_program_headers-Ends input = Ends-bind _ _ (Ends-read 8 input 32) (λ phoff p.
    Ends-bind _ _ (Ends-read 2 input 54) (λ size q. Ends-bind _ _ (Ends-read 2 input 56) (λ phnum r.
      Ends-bind _ _ (Ends-guard _ _) (λ u s. program_headers_loop-Ends phnum 0 input phoff size))))

length-copy :
    (buf : Bytes) (start end : ℕ) (bs out : Bytes)
    → ◌≡◌ {A = Rewritten Bytes} (copy_from_slice buf start end bs) (ok out)
    → length out ≡ length buf
unfolding copy_from_slice
length-copy buf start end bs out h = ground (arith, length-overwrite buf start bs)

length-write :
    (buf : Bytes) (off v : ℕ) (out : Bytes)
    → write_u64_le buf off v ≡ ok out
    → length out ≡ length buf
unfolding write_u64_le write_le
length-write buf off v out h = length-copy buf off ((off + 8) % u64_mod) (to_le 8 v) out h

length-stage_strings :
    (original : Bytes) (section : DynamicSection) (strings out : Bytes)
    → stage_strings original section strings ≡ ok out
    → length out ≡ length original
unfolding stage_strings
length-stage_strings original section strings out h =
    let start = (section.strtab_file_offset + section.strsz) % u64_mod in
    let end = (start + length strings) % u64_mod in
    let (u, p, h1) = >>=-eq-ok (guard (leb end (length original)) _) _ h in
    let (v, q, h2) = >>=-eq-ok (guard (leb start end) panicked) _ h1 in
    let (w, r, h3) = >>=-eq-ok (guard (all_zero (end - start) original start) _) _ h2 in
    length-copy original start end strings out h3

length-write_runpath :
    (rpath : Option Text) (out : Bytes) (slot off : ℕ) (out' : Bytes)
    → write_runpath rpath out slot off ≡ ok out'
    → length out' ≡ length out
unfolding write_runpath
length-write_runpath none out slot off out' h = ap length (sym (ok-injective h))
length-write_runpath (some rpath) out slot off out' h =
    let (once, p, h1) = >>=-eq-ok (write_u64_le out slot _) _ h in
    length-write once _ _ out' h1 ∙ length-write out slot _ once p

length-write_entries :
    (input : ElfRewriteInput) (section : DynamicSection) (out out' : Bytes)
    → write_entries input section out ≡ ok out'
    → length out' ≡ length out
unfolding write_entries
length-write_entries input section out out' h =
    let (once, p, h1) = >>=-eq-ok (write_u64_le out section.terminator_offset _) _ h in
    let (twice, q, h2) = >>=-eq-ok (write_u64_le once _ _) _ h1 in
    length-write_runpath input.rpath_entry twice _ _ out' h2
    ∙ length-write once _ _ twice q
    ∙ length-write out section.terminator_offset _ once p

rewrite_dynamic-Ends :
    (input : ElfRewriteInput) (section : DynamicSection)
    → IsFile input.original
    → section.offset < u64_mod
    → Ends (rewrite_dynamic input section)
unfolding rewrite_dynamic
rewrite_dynamic-Ends input section f word =
    let n = entries_needed input.rpath_entry in
    let strings = new_strings input in
    Ends-bind _ _
      (Ends-guard (leb ((section.terminator_offset + 16 * (n + 1)) % u64_mod) section.segment_end)
        _)
      (λ u p. Ends-bind _ _ (slots_loop-Ends n 1 input.original section.terminator_offset) (λ v q.
        Ends-bind _ _ (stage_strings-Ends input.original section strings) (λ out r.
          Ends-bind _ _ (write_entries-Ends input section out) (λ out' s.
            let same : length out' ≡ length input.original =
              length-write_entries input section out out' s
              ∙ length-stage_strings input.original section strings out r in
            grow_loop-Ends (suc (length input.original)) out' section.offset _
              (omega (arith, f.fits, same)) word (omega arith) (omega (arith, same))))))

-- With the fuel that the model gives its loops, `rewrite_elf` ends on every file of bytes, well formed
-- or not.
pub rewrite_elf-Ends :
    (input : ElfRewriteInput) → IsFile input.original → rewrite_elf input ≢ err out_of_fuel
unfolding rewrite_elf read_u16_le
rewrite_elf-Ends input f = Ends-bind _ _ (Ends-guard (has_elf_ident input.original) _) (λ u p.
    Ends-bind _ _ (Ends-read 2 input.original 16) (λ e_type q.
      Ends-bind _ _ (Ends-guard (e_type == et_exec || e_type == et_dyn) _) (λ v r.
        Ends-bind _ _ (read_program_headers-Ends input.original) (λ headers h.
          let words = read_program_headers-IsWord input.original headers f h in
          Ends-bind _ _ (find_dynamic_section-Ends input.original headers f words) (λ section s.
            rewrite_dynamic-Ends input section f
              (find_dynamic_section-word input.original headers section words s))))))
