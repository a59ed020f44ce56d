-- ===== src/Page/SharedTableLaws.antt =====
-- What `SharedPageTable` of crates/page/os-page/src/backends.rs keeps of an address.
use Prim.Native.Nat.{bit_and, bit_or}
use os_emulation.Base.{
  ℕ, ◌+◌, ◌*◌, ◌/◌, ◌%◌, ◌^◌, ◌<◌, ◌≡◌, refl, sym, ap, ◌∙◌, ◌==◌, Result, ok, err, ◌>>=◌, arith,
  ◌⊎◌, inl, inr, Bool-cases, subst, fun_ext, ok-injective, err-not-ok,
}
use os_emulation.Base.Words.{u64_mod}
use os_emulation.Base.Bits.{bit_and-mask}
use os_emulation.Page.Types.{GuestFault, unmapped}
use os_emulation.Page.SharedTable.{
  SharedPageTable, page_size, shl_page, shr_page, read_pte, security_entry, physical, resolve,
  page_offset, entry_addr, translate_2level, index_at, translate_3level, translate,
}

page_offset_lem :
    (t : SharedPageTable) (v : ℕ) → t.page_size_log2 ≡ 16 → page_offset t v ≡ v % 2 ^ 16
unfolding page_offset page_size
page_offset_lem t v e = rw e (bit_and-mask 16 v)

shl_page_lem :
    (t : SharedPageTable) (x : ℕ) → t.page_size_log2 ≡ 16 → shl_page t x ≡ x * 2 ^ 16 % u64_mod
unfolding shl_page
shl_page_lem t x e = rw e refl

shr_page_lem : (t : SharedPageTable) (x : ℕ) → t.page_size_log2 ≡ 16 → shr_page t x ≡ x / 2 ^ 16
unfolding shr_page
shr_page_lem t x e = rw e refl

-- A physical address is the start of a frame and the page offset.
physical_frame :
    (t : SharedPageTable) (top shift low offset : ℕ)
    → t.page_size_log2 ≡ 16
    → (frame : ℕ) × ((w : ℕ) → w < 2 ^ 16 → physical t top shift low w ≡ frame * 2 ^ 16 + w)
unfolding physical
physical_frame t top shift low offset e =
    let n : ℕ = bit_or (top * 2 ^ shift % u64_mod) low in
    (n % 2 ^ 48, λ w h. rw (shl_page_lem t n e) (omega arith))

-- The outcome for every offset: one frame, or one fault.
abbrev FrameOrFault : (ℕ → Result GuestFault ℕ) → Type 0
FrameOrFault f =
    ((frame : ℕ) × ((w : ℕ) → w < 2 ^ 16 → f w ≡ ok (frame * 2 ^ 16 + w)))
    ⊎ ((e : GuestFault) × ((w : ℕ) → w < 2 ^ 16 → f w ≡ err e))

bind_frame :
    (m : Result GuestFault ℕ) (g : ℕ → ℕ → Result GuestFault ℕ)
    → ((x : ℕ) → FrameOrFault (g x))
    → FrameOrFault (λ w. m >>= λ x. g x w)
bind_frame (ok x) g h = h x
bind_frame (err e) g h = inr (e, λ w p. refl)

ok_frame :
    (t : SharedPageTable) (top shift low : ℕ)
    → t.page_size_log2 ≡ 16
    → FrameOrFault (λ w. ok (physical t top shift low w))
ok_frame t top shift low e =
    let (frame, h) = physical_frame t top shift low 0 e in inl (frame, λ w k. ap ok (h w k))

resolve_frame :
    (t : SharedPageTable) (pointer : ℕ) → t.page_size_log2 ≡ 16 → FrameOrFault (resolve t pointer)
unfolding resolve
resolve_frame t pointer e = elim (Bool-cases (t.pte_width_bits == 64)) [
  | inl h ↦ subst FrameOrFault (fun_ext (λ w. sym (rw (h, resolve)))) (
      bind_frame (security_entry t (bit_and pointer 0xffff)) _
        (λ s. ok_frame t (s / 2 ^ 48) 48 (pointer / 2 ^ 16) e))
  | inr h ↦ subst FrameOrFault (fun_ext (λ w. sym (rw (h, resolve)))) (
      bind_frame (security_entry t (bit_and pointer 0xff)) _
        (λ s. ok_frame t (s / 2 ^ 24) 24 (pointer / 2 ^ 8) e))
]

FrameOrFault-ext :
    (f g : ℕ → Result GuestFault ℕ)
    → ((w : ℕ) → w < 2 ^ 16 → f w ≡ g w)
    → FrameOrFault f
    → FrameOrFault g
FrameOrFault-ext f g h (inl (frame, k)) = inl (frame, λ w p. sym (h w p) ∙ k w p)
FrameOrFault-ext f g h (inr (e, k)) = inr (e, λ w p. sym (h w p) ∙ k w p)

module _ (t : SharedPageTable) (e : t.page_size_log2 ≡ 16) (n w : ℕ) (small : w < 2 ^ 16) where
  same_offset : page_offset t (n * 2 ^ 16 + w) ≡ w
  same_offset = page_offset_lem t (n * 2 ^ 16 + w) e ∙ omega arith

  same_page : shr_page t (n * 2 ^ 16 + w) ≡ n
  same_page = shr_page_lem t (n * 2 ^ 16 + w) e ∙ omega arith

  same_index_16 : index_at (n * 2 ^ 16 + w) 16 ≡ index_at (n * 2 ^ 16) 16
  same_index_16 = unfold index_at in ap (λ x. bit_and x 0xffff) (omega arith)

  same_index_32 : index_at (n * 2 ^ 16 + w) 32 ≡ index_at (n * 2 ^ 16) 32
  same_index_32 = unfold index_at in ap (λ x. bit_and x 0xffff) (omega arith)

  same_index_48 : index_at (n * 2 ^ 16 + w) 48 ≡ index_at (n * 2 ^ 16) 48
  same_index_48 = unfold index_at in ap (λ x. bit_and x 0xffff) (omega arith)

two_level_frame :
    (t : SharedPageTable) (n : ℕ)
    → t.page_size_log2 ≡ 16
    → FrameOrFault (λ w. translate_2level t (n * 2 ^ 16 + w))
unfolding translate_2level
two_level_frame t n e =
    FrameOrFault-ext (λ w. read_pte t (entry_addr t t.page_table_vaddr n) >>= λ x. resolve t x w) _
      (λ w p. sym (rw (same_offset t e n w p, same_page t e n w p) refl))
      (bind_frame (read_pte t (entry_addr t t.page_table_vaddr n)) (resolve t)
        (λ x. resolve_frame t x e))

three_level_frame :
    (t : SharedPageTable) (n : ℕ)
    → t.page_size_log2 ≡ 16
    → FrameOrFault (λ w. translate_3level t (n * 2 ^ 16 + w))
unfolding translate_3level
three_level_frame t n e =
    let at : ℕ → ℕ → Result GuestFault ℕ =
      λ base shift. read_pte t (entry_addr t base (index_at (n * 2 ^ 16) shift)) in
    FrameOrFault-ext
      (λ w. at t.page_table_vaddr 48 >>= λ x. at x 32 >>= λ y. at y 16 >>= λ z. resolve t z w) _
      (λ w p. sym (
        rw
          (
            same_offset t e n w p,
            same_index_16 t e n w p,
            same_index_32 t e n w p,
            same_index_48 t e n w p,
          )
          refl))
      (bind_frame (at t.page_table_vaddr 48) _ (λ x.
        bind_frame (at x 32) _ (λ y. bind_frame (at y 16) (resolve t) (λ z. resolve_frame t z e))))

translate_frame :
    (t : SharedPageTable) (n : ℕ)
    → t.page_size_log2 ≡ 16
    → FrameOrFault (λ w. translate t (n * 2 ^ 16 + w))
unfolding translate
translate_frame t n e = elim (Bool-cases (t.levels == 2)) [
  | inl h ↦ FrameOrFault-ext _ _ (λ w p. sym (rw (h, translate))) (two_level_frame t n e)
  | inr h ↦ elim (Bool-cases (t.levels == 3)) [
    | inl k ↦ FrameOrFault-ext _ _ (λ w p. sym (rw (h, translate, k))) (three_level_frame t n e)
    | inr k ↦ inr (unmapped, λ w p. rw (h, translate, k) refl)
  ]
]

-- With pages of 64 KiB, two or three levels and entries of either width, translation maps pages to
-- frames: where an address has a translation, it keeps the offset, and every address of the same page
-- has the translation that differs in the offset alone.
pub translate_by_page :
    (t : SharedPageTable) (v w p : ℕ)
    → t.page_size_log2 ≡ 16
    → translate t v ≡ ok p
    → v / 2 ^ 16 ≡ w / 2 ^ 16
    → (p % 2 ^ 16 ≡ v % 2 ^ 16) × (translate t w ≡ ok (p / 2 ^ 16 * 2 ^ 16 + w % 2 ^ 16))
translate_by_page t v w p e h same = elim (translate_frame t (v / 2 ^ 16) e) [
  | inl (frame, k) ↦
      let f : p ≡ frame * 2 ^ 16 + v % 2 ^ 16 =
        ok-injective (sym h ∙ ap (translate t) (omega arith) ∙ k (v % 2 ^ 16) (omega arith)) in
      (
        omega (arith, f),
        ap (translate t) (omega arith) ∙ k (w % 2 ^ 16) (omega arith) ∙ ap ok (omega (arith, f)),
      )
  | inr (fault, k) ↦
      absurd
        (err-not-ok (sym (k (v % 2 ^ 16) (omega arith)) ∙ sym (ap (translate t) (omega arith)) ∙ h))
]
