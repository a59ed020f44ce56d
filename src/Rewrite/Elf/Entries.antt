-- ===== src/Rewrite/Elf/Entries.antt =====
-- What `rewrite_elf` writes: the new entries and the strings that they name.
use os_emulation.Base.{
  ℕ, ◌+◌, ◌*◌, ◌%◌, ◌^◌, ◌≤◌, ◌<◌, ◌≡◌, ◌⊎◌, refl, ◌∙◌, Option, none, some, ok, List, [], ◌∷◌,
  Bytes, Text, length, get_or, inl, inr, arith,
}
use os_emulation.Base.Words.{u64_mod}
use os_emulation.Rewrite.Buffer.{le_at, to_le, overwrite}
use os_emulation.Rewrite.BufferLaws.{
  write_le-inside, overwrite_outside, length-overwrite, length-to_le, overwrite-to_le_self,
  le_at-SameBytes,
}
use os_emulation.Rewrite.Elf.{
  ElfRewriteInput, DynamicSection, write_u64_le, write_runpath, write_entries, entries_needed,
  staged, dt_needed, dt_runpath,
}
use os_emulation.Rewrite.Elf.Layout.{entries_at, cons_entries}

-- The file with one more entry.
record Entered (out : Bytes) (slot tag val : ℕ) (out' : Bytes) : Type 0 where
  same_length : length out' ≡ length out
  has_tag : le_at 8 out' slot ≡ tag
  has_val : le_at 8 out' (slot + 8) ≡ val
  elsewhere : (i : ℕ) → (i < slot) ⊎ (slot + 16 ≤ i) → get_or out' i 0 ≡ get_or out i 0

abbrev entered : Bytes → ℕ → ℕ → ℕ → Bytes
entered out slot tag val = overwrite (overwrite out slot (to_le 8 tag)) (slot + 8) (to_le 8 val)

module _ (out : Bytes) (slot tag val : ℕ) (fits : length out < 2 ^ 63)
    (inside : slot + 16 ≤ length out) where
  first_write : write_u64_le out slot tag ≡ ok (overwrite out slot (to_le 8 tag))
  unfolding write_u64_le
  first_write = write_le-inside 8 out slot tag fits (omega arith)

  second_write :
      write_u64_le (overwrite out slot (to_le 8 tag)) ((slot + 8) % u64_mod) val
      ≡ ok (entered out slot tag val)
  unfolding write_u64_le
  second_write =
      let here : (slot + 8) % u64_mod ≡ slot + 8 = omega arith in
      let same = length-overwrite out slot (to_le 8 tag) in
      rw here (
        write_le-inside 8 (overwrite out slot (to_le 8 tag)) (slot + 8) val (omega (arith, same))
          (omega (arith, same)))

  entered-Entered :
      tag < u64_mod → val < u64_mod → Entered out slot tag val (entered out slot tag val)
  entered-Entered small small' =
      let once = overwrite out slot (to_le 8 tag) in
      let same = length-overwrite out slot (to_le 8 tag) in
      record {
        same_length = length-overwrite once (slot + 8) (to_le 8 val) ∙ same;
        has_tag =
            le_at-SameBytes 8 (entered out slot tag val) once slot (slot + 8) (omega arith)
              (λ i p q. overwrite_outside once (slot + 8) (to_le 8 val) i (inl q))
            ∙ overwrite-to_le_self 8 out slot tag (omega arith) small;
        has_val = overwrite-to_le_self 8 once (slot + 8) val (omega (arith, same)) small';
        elsewhere = λ i p. elim p [
          | inl q ↦
              overwrite_outside once (slot + 8) (to_le 8 val) i (inl (omega arith))
              ∙ overwrite_outside out slot (to_le 8 tag) i (inl q)
          | inr q ↦
              overwrite_outside once (slot + 8) (to_le 8 val) i
                (inr (omega (arith, length-to_le 8 val)))
              ∙ overwrite_outside out slot (to_le 8 tag) i (inr (omega (arith, length-to_le 8 tag)))
        ];
      }

-- The new entries, where the first string stands at `name` and the second at `path`.
unfoldable pub added : Option Text → ℕ → ℕ → List (ℕ × ℕ)
added none name path = (dt_needed, name) ∷ []
added (some rpath) name path = (dt_needed, name) ∷ (dt_runpath, path) ∷ []

-- The file with the new entries in the slots from `t` on.
pub record HasEntries (rpath : Option Text) (name path : ℕ) (out : Bytes) (t : ℕ) (out' : Bytes)
    : Type 0 where
  pub same_length : length out' ≡ length out
  pub slots : entries_at (entries_needed rpath) out' t ≡ added rpath name path
  pub elsewhere :
      (i : ℕ) → (i < t) ⊎ (t + 16 * entries_needed rpath ≤ i) → get_or out' i 0 ≡ get_or out i 0

module _ (out : Bytes) (t name path : ℕ) (fits : length out < 2 ^ 63) (name_fits : name < u64_mod)
    (path_fits : path < u64_mod) where
  one_entry : t + 16 ≤ length out → HasEntries none name path out t (entered out t dt_needed name)
  unfolding entries_at entries_needed added
  one_entry h =
      let e = entered-Entered out t dt_needed name fits h (omega arith) name_fits in
      record {
        same_length = e.same_length;
        slots = cons_entries e.has_tag e.has_val refl;
        elsewhere = e.elsewhere;
      }

  two_entries :
      (rpath : Text)
      → t + 32 ≤ length out
      → HasEntries
          (some rpath)
          name
          path
          out
          t
          (entered (entered out t dt_needed name) (t + 16) dt_runpath path)
  unfolding entries_at entries_needed added
  two_entries rpath h =
      let once = entered out t dt_needed name in
      let e = entered-Entered out t dt_needed name fits (omega arith) (omega arith) name_fits in
      let e' =
        entered-Entered once (t + 16) dt_runpath path (omega (arith, e.same_length))
          (omega (arith, e.same_length)) (omega arith) path_fits in
      record {
        same_length = e'.same_length ∙ e.same_length;
        slots =
            cons_entries
              (le_at-SameBytes 8 (entered once (t + 16) dt_runpath path) once t (t + 16)
                  (omega arith) (λ i p q. e'.elsewhere i (inl q))
                ∙ e.has_tag)
              (le_at-SameBytes 8 (entered once (t + 16) dt_runpath path) once (t + 8) (t + 16)
                  (omega arith) (λ i p q. e'.elsewhere i (inl q))
                ∙ e.has_val)
              (cons_entries e'.has_tag e'.has_val refl);
        elsewhere = λ i p. elim p [
          | inl q ↦ e'.elsewhere i (inl (omega arith)) ∙ e.elsewhere i (inl q)
          | inr q ↦ e'.elsewhere i (inr (omega arith)) ∙ e.elsewhere i (inr (omega arith))
        ];
      }

  write_runpath-HasEntries :
      (rpath : Option Text) (slot val : ℕ)
      → slot ≡ t + 16
      → val ≡ path
      → t + 16 * entries_needed rpath ≤ length out
      → (out' : Bytes) × (write_runpath rpath (entered out t dt_needed name) slot val ≡ ok out')
        × HasEntries rpath name path out t out'
  unfolding write_runpath entries_needed
  write_runpath-HasEntries none slot val e e' h = (_, refl, one_entry (omega arith))
  write_runpath-HasEntries (some rpath) slot val e e' h =
      let once = entered out t dt_needed name in
      let same =
        (entered-Entered out t dt_needed name fits (omega arith) (omega arith) name_fits) in
      let small : length once < 2 ^ 63 = omega (arith, same.same_length) in
      let room : t + 16 + 16 ≤ length once = omega (arith, same.same_length) in
      (
        _,
        rw e (
            rw e' (
              rw (first_write once (t + 16) dt_runpath path small room)
                (second_write once (t + 16) dt_runpath path small room))),
        two_entries rpath (omega arith),
      )

pub entries_needed_pos : (rpath : Option Text) → 1 ≤ entries_needed rpath
unfolding entries_needed
entries_needed_pos none = omega arith
entries_needed_pos (some rpath) = omega arith

pub entries_needed_two : (rpath : Option Text) → entries_needed rpath ≤ 2
unfolding entries_needed
entries_needed_two none = omega arith
entries_needed_two (some rpath) = omega arith

pub write_entries-HasEntries :
    (input : ElfRewriteInput) (section : DynamicSection) (out : Bytes)
    → length out < 2 ^ 63
    → section.terminator_offset + 16 * entries_needed input.rpath_entry ≤ length out
    → section.strsz + length (staged input.needed_name) < u64_mod
    → (out' : Bytes) × (write_entries input section out ≡ ok out')
      × HasEntries input.rpath_entry section.strsz
          (section.strsz + length (staged input.needed_name))
          out
          section.terminator_offset
          out'
unfolding write_entries
write_entries-HasEntries input section out fits h small =
    let t = section.terminator_offset in
    let room : t + 16 ≤ length out = omega (arith, entries_needed_pos input.rpath_entry) in
    let (out', runs, has) =
      write_runpath-HasEntries out t section.strsz
        (section.strsz + length (staged input.needed_name)) fits (omega arith) small
        input.rpath_entry ((t + 16) % u64_mod)
        ((section.strsz + length (staged input.needed_name)) % u64_mod) (omega arith) (omega arith)
        h in
    (
      out',
      rw (first_write out t dt_needed section.strsz fits room)
          (rw (second_write out t dt_needed section.strsz fits room) runs),
      has,
    )
