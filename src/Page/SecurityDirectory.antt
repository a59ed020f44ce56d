-- ===== src/Page/SecurityDirectory.antt =====
-- What `SharedPageTable` of crates/page/os-page/src/backends.rs takes from its security directory.
use Prim.Native.Nat.{bit_and}
use os_emulation.Base.{
  ℕ, ◌+◌, ◌*◌, ◌/◌, ◌%◌, ◌^◌, ◌<◌, ◌≡◌, refl, ap, ◌==◌, Result, ok, err, ◌>>=◌, arith,
}
use os_emulation.Base.Words.{u64_mod}
use os_emulation.Base.Bits.{zero_or}
use os_emulation.Page.Types.{w32, bytes, GuestFault}
use os_emulation.Page.Words.{le_word-lt}
use os_emulation.Page.OnDemand
use os_emulation.Page.OnDemand.{LegacyOnDemand, read_bytes_at, wrapping_add, byte_at}
use os_emulation.Page.OnDemandLaws.{HoldsBytes, read_lem, read_bytes_at-le_word}
use os_emulation.Page.SharedTable.{
  SharedPageTable, shl_page, shr_page, read_pte, security_entry, physical, resolve, page_offset,
  entry_addr, translate_2level, translate,
}

low_word : (m : LegacyOnDemand) (a : ℕ) → HoldsBytes m.pages → read_bytes_at m.pages a 4 < 2 ^ 32
low_word m a h = rw (read_bytes_at-le_word m.pages a 4 (omega arith) h) (
    le_word-lt (λ i. byte_at m.pages (wrapping_add a i)) 4 (omega arith)
      (λ i p. h (wrapping_add a i)))

security_lem :
    (m : LegacyOnDemand) (t : SharedPageTable) (i : ℕ)
    → t.mem ≡ OnDemand.read m
    → security_entry t i ≡ ok (read_bytes_at m.pages (wrapping_add t.security_dir_vaddr (i * 4)) 4)
unfolding security_entry
security_lem m t i e =
    rw e (read_lem m (wrapping_add t.security_dir_vaddr (i * 4)) 4 w32 (unfold bytes in refl))

-- A security entry of 32 bits has nothing left at bit 48.
wide_resolve :
    (m : LegacyOnDemand) (t : SharedPageTable) (pointer offset : ℕ)
    → HoldsBytes m.pages
    → t.pte_width_bits ≡ 64
    → t.mem ≡ OnDemand.read m
    → resolve t pointer offset ≡ ok ((shl_page t (pointer / 2 ^ 16) + offset) % u64_mod)
unfolding resolve physical
wide_resolve m t pointer offset holds width reads =
    let s : ℕ =
      read_bytes_at m.pages (wrapping_add t.security_dir_vaddr (bit_and pointer 0xffff * 4)) 4 in
    let none_left : s / 2 ^ 48 ≡ 0 =
      omega (
        arith,
        low_word m (wrapping_add t.security_dir_vaddr (bit_and pointer 0xffff * 4)) holds,
      ) in
    rw
      (
        ap (λ (b : ℕ). b == 64) width,
        resolve,
        security_lem m t (bit_and pointer 0xffff) reads,
        none_left,
        zero_or (pointer / 2 ^ 16),
      )
      refl

-- The translation that takes nothing from the security directory.
abbrev frame_only : SharedPageTable → Result GuestFault ℕ → ℕ → Result GuestFault ℕ
frame_only t pointer v = pointer >>= λ x. ok ((shl_page t (x / 2 ^ 16) + page_offset t v) % u64_mod)

bind_resolve :
    (m : LegacyOnDemand) (t : SharedPageTable) (v : ℕ) (pointer : Result GuestFault ℕ)
    → HoldsBytes m.pages
    → t.pte_width_bits ≡ 64
    → t.mem ≡ OnDemand.read m
    → (pointer >>= λ x. resolve t x (page_offset t v)) ≡ frame_only t pointer v
bind_resolve m t v (ok x) holds width reads = wide_resolve m t x (page_offset t v) holds width reads
bind_resolve m t v (err e) holds width reads = refl

-- With entries of 64 bits, a two-level table in a `LegacyOnDemand` whose cells hold bytes never
-- takes a bit from the security directory: the page pointer, shifted down by 16, is the frame,
-- whatever the directory's address and contents.
pub security_directory_unused :
    (m : LegacyOnDemand) (t : SharedPageTable) (v : ℕ)
    → HoldsBytes m.pages
    → t.pte_width_bits ≡ 64
    → t.levels ≡ 2
    → t.mem ≡ OnDemand.read m
    → translate t v ≡ (
        read_pte t (entry_addr t t.page_table_vaddr (shr_page t v)) >>= λ x.
        ok ((shl_page t (x / 2 ^ 16) + page_offset t v) % u64_mod))
unfolding translate translate_2level
security_directory_unused m t v holds width levels reads = rw (ap (λ (b : ℕ). b == 2) levels) (
    bind_resolve m t v (read_pte t (entry_addr t t.page_table_vaddr (shr_page t v))) holds width
      reads)
