-- ===== src/Rewrite/MachO/Moves.antt =====
-- The loops that move what stands behind the anchor: where each byte goes.
use os_emulation.Base.{
  ℕ, zero, suc, ◌+◌, ◌-◌, ◌≤◌, ◌<◌, ◌≡◌, ◌⊎◌, inl, inr, refl, sym, ap, ◌∙◌, Bytes, length, get_or,
  set, length-set, replicate, length-replicate, get_or-set_self, get_or-set_ne, ltb, ltb→lt, ltb→le,
  Bool-cases, arith,
}
use native.Mathlib.Decide.{ℕ_discrete}
use os_emulation.Rewrite.MachO.{Anchor, move_right, move_left, move_tail, clear_slot}
use os_emulation.Rewrite.BufferLaws.{overwrite_inside, overwrite_outside, length-overwrite}

length-move_right : (n lo delta : ℕ) (out : Bytes) → length (move_right n lo delta out) ≡ length out
unfolding move_right
length-move_right zero lo delta out = refl
length-move_right (suc n) lo delta out =
    length-move_right n lo delta (set out (lo + n + delta) (get_or out (lo + n) 0))
    ∙ length-set out (lo + n + delta) (get_or out (lo + n) 0)

length-move_left : (n lo shrink : ℕ) (out : Bytes) → length (move_left n lo shrink out) ≡ length out
unfolding move_left
length-move_left zero lo shrink out = refl
length-move_left (suc n) lo shrink out =
    length-move_left n (suc lo) shrink (set out (lo - shrink) (get_or out lo 0))
    ∙ length-set out (lo - shrink) (get_or out lo 0)

move_right_outside :
    (n lo delta : ℕ) (out : Bytes) (j : ℕ)
    → (j < lo + delta) ⊎ (lo + n + delta ≤ j)
    → get_or (move_right n lo delta out) j 0 ≡ get_or out j 0
unfolding move_right
move_right_outside zero lo delta out j h = refl
move_right_outside (suc n) lo delta out j h =
    move_right_outside n lo delta (set out (lo + n + delta) (get_or out (lo + n) 0)) j
      (elim h [ inl below ↦ inl below | inr above ↦ inr (omega arith) ])
    ∙ get_or-set_ne out (lo + n + delta) j (get_or out (lo + n) 0) 0
        (elim h [ inl below ↦ λ e. omega arith | inr above ↦ λ e. omega arith ])

-- Backward, no byte is written over before it is read.
move_right_moved :
    (n lo delta : ℕ) (out : Bytes) (i j : ℕ)
    → lo + n + delta ≤ length out
    → lo ≤ i
    → i < lo + n
    → j ≡ i + delta
    → get_or (move_right n lo delta out) j 0 ≡ get_or out i 0
unfolding move_right
move_right_moved zero lo delta out i j fits low high e = absurd (omega arith)
move_right_moved (suc n) lo delta out i j fits low high e = elim (ℕ_discrete i (lo + n)) [
  | yes last ↦
      move_right_outside n lo delta (set out (lo + n + delta) (get_or out (lo + n) 0)) j
        (inr (omega arith))
      ∙ ap (λ (k : ℕ). get_or (set out (lo + n + delta) (get_or out (lo + n) 0)) k 0) (omega arith)
      ∙ get_or-set_self out (lo + n + delta) (get_or out (lo + n) 0) 0 (omega arith)
      ∙ ap (λ (k : ℕ). get_or out k 0) (sym last)
  | no other ↦
      move_right_moved n lo delta (set out (lo + n + delta) (get_or out (lo + n) 0)) i j
        (omega (arith, length-set out (lo + n + delta) (get_or out (lo + n) 0))) low (omega arith) e
      ∙ get_or-set_ne out (lo + n + delta) i (get_or out (lo + n) 0) 0 (omega arith)
]

move_left_outside :
    (n lo shrink : ℕ) (out : Bytes) (j : ℕ)
    → (j < lo - shrink) ⊎ (lo + n ≤ j + shrink)
    → shrink ≤ lo
    → get_or (move_left n lo shrink out) j 0 ≡ get_or out j 0
unfolding move_left
move_left_outside zero lo shrink out j h s = refl
move_left_outside (suc n) lo shrink out j h s =
    move_left_outside n (suc lo) shrink (set out (lo - shrink) (get_or out lo 0)) j
      (elim h [ inl below ↦ inl (omega arith) | inr above ↦ inr (omega arith) ]) (omega arith)
    ∙ get_or-set_ne out (lo - shrink) j (get_or out lo 0) 0
        (elim h [ inl below ↦ λ e. omega arith | inr above ↦ λ e. omega arith ])

-- Forward, the same, as the bytes go down.
move_left_moved :
    (n lo shrink : ℕ) (out : Bytes) (i j : ℕ)
    → lo + n ≤ length out
    → shrink ≤ lo
    → 0 < shrink
    → lo ≤ i
    → i < lo + n
    → j + shrink ≡ i
    → get_or (move_left n lo shrink out) j 0 ≡ get_or out i 0
unfolding move_left
move_left_moved zero lo shrink out i j fits s pos low high e = absurd (omega arith)
move_left_moved (suc n) lo shrink out i j fits s pos low high e = elim (ℕ_discrete i lo) [
  | yes first ↦
      move_left_outside n (suc lo) shrink (set out (lo - shrink) (get_or out lo 0)) j
        (inl (omega arith)) (omega arith)
      ∙ ap (λ (k : ℕ). get_or (set out (lo - shrink) (get_or out lo 0)) k 0) (omega arith)
      ∙ get_or-set_self out (lo - shrink) (get_or out lo 0) 0 (omega arith)
      ∙ ap (λ (k : ℕ). get_or out k 0) (sym first)
  | no other ↦
      move_left_moved n (suc lo) shrink (set out (lo - shrink) (get_or out lo 0)) i j
        (omega (arith, length-set out (lo - shrink) (get_or out lo 0))) (omega arith) pos
        (omega arith) (omega arith) e
      ∙ get_or-set_ne out (lo - shrink) i (get_or out lo 0) 0 (omega arith)
]

-- What the moves do, whichever way they go.
pub record Tail (out : Bytes) (anchor : Anchor) (table_end new_size : ℕ) (out' : Bytes)
    : Type 0 where
  pub same_length : length out' ≡ length out
  pub moved :
      (i j : ℕ)
      → anchor.offset + anchor.size ≤ i
      → i < table_end
      → j + anchor.size ≡ i + new_size
      → get_or out' j 0 ≡ get_or out i 0
  pub kept :
      (j : ℕ)
      → (j < anchor.offset + new_size) ⊎ (table_end + new_size ≤ j + anchor.size)
      → get_or out' j 0 ≡ get_or out j 0

pub move_tail-Tail :
    (out : Bytes) (anchor : Anchor) (table_end new_size : ℕ)
    → anchor.offset + anchor.size ≤ table_end
    → table_end ≤ length out
    → table_end + new_size ≤ length out + anchor.size
    → Tail out anchor table_end new_size (move_tail out anchor table_end new_size)
unfolding move_tail
move_tail-Tail out anchor table_end new_size inside fits grows =
    let tail = anchor.offset + anchor.size in
    let count = table_end - tail in
    elim (Bool-cases (ltb anchor.size new_size)) [
      | inl larger ↦
          let lt = ltb→lt anchor.size new_size larger in
          let delta = new_size - anchor.size in
          rw larger (record {
            same_length = length-move_right count tail delta out;
            moved = λ i j low high e.
                move_right_moved count tail delta out i j (omega arith) low (omega arith)
                  (omega arith);
            kept = λ j h.
                move_right_outside count tail delta out j
                  (elim h [ inl below ↦ inl (omega arith) | inr above ↦ inr (omega arith) ]);
          })
      | inr no_larger ↦ rw no_larger (elim (Bool-cases (ltb new_size anchor.size)) [
        | inl smaller ↦
            let lt = ltb→lt new_size anchor.size smaller in
            let shrink = anchor.size - new_size in
            rw smaller (record {
              same_length = length-move_left count tail shrink out;
              moved = λ i j low high e.
                  move_left_moved count tail shrink out i j (omega arith) (omega arith)
                    (omega arith) low (omega arith) (omega arith);
              kept = λ j h.
                  move_left_outside count tail shrink out j
                    (elim h [ inl below ↦ inl (omega arith) | inr above ↦ inr (omega arith) ])
                    (omega arith);
            })
        | inr no_smaller ↦
            let le = ltb→le anchor.size new_size no_larger in
            let le' = ltb→le new_size anchor.size no_smaller in
            rw no_smaller (record {
              same_length = refl;
              moved = λ i j low high e. ap (λ (k : ℕ). get_or out k 0) (omega arith);
              kept = λ j h. refl;
            })
      ])
    ]

get_or-replicate : (n i : ℕ) → get_or {A = ℕ} (replicate n 0) i 0 ≡ 0
get_or-replicate zero i = refl
get_or-replicate (suc n) zero = refl
get_or-replicate (suc n) (suc i) = get_or-replicate n i

-- A slot that was cleared.
pub clear_slot-zero :
    (out : Bytes) (off new_size j : ℕ)
    → off + new_size ≤ length out
    → off ≤ j
    → j < off + new_size
    → get_or (clear_slot out off new_size) j 0 ≡ 0
unfolding clear_slot
clear_slot-zero out off new_size j fits lo hi =
    overwrite_inside out off (replicate new_size 0) j (j - off) (omega arith)
      (omega (arith, length-replicate {A = ℕ} new_size 0))
      (omega (arith, length-replicate {A = ℕ} new_size 0))
    ∙ get_or-replicate new_size (j - off)

pub clear_slot-outside :
    (out : Bytes) (off new_size j : ℕ)
    → (j < off) ⊎ (off + new_size ≤ j)
    → get_or (clear_slot out off new_size) j 0 ≡ get_or out j 0
unfolding clear_slot
clear_slot-outside out off new_size j h =
    overwrite_outside out off (replicate new_size 0) j (elim h [
      | inl below ↦ inl below
      | inr above ↦ inr (omega (arith, length-replicate {A = ℕ} new_size 0))
    ])

pub length-clear_slot :
    (out : Bytes) (off new_size : ℕ) → length (clear_slot out off new_size) ≡ length out
unfolding clear_slot
length-clear_slot out off new_size = length-overwrite out off (replicate new_size 0)
