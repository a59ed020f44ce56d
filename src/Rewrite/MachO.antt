-- ===== src/Rewrite/MachO.antt =====
-- crates/daemon/os-rewrite-macho/src/lib.rs: an `LC_LOAD_DYLIB` command takes the place of the code
-- signature in the load commands of a thin 64-bit Mach-O file.
pub mod Commands
pub mod Anchors
pub mod Moves
pub mod Writes
pub mod Loaded
pub mod Replacing
use os_emulation.Base.{
  ℕ, zero, suc, ◌+◌, ◌-◌, ◌*◌, ◌/◌, ◌%◌, ◌^◌, Bool, true, false, ◌&&◌, Option, none, some, Result,
  ok, err, ◌>>=◌, ◌>>◌, guard, [], ◌∷◌, Bytes, Text, ascii, length, get_or, set, replicate, leb,
  ltb, ◌==◌, if◌then◌else◌,
}
use os_emulation.Base.Words.{u32_mod, u64_mod}
use os_emulation.Rewrite.Buffer.{
  Fault, refused, panicked, read_le, write_le, copy_from_slice, overwrite, all_zero,
}

abbrev pub mh_magic_64 : ℕ
mh_magic_64 = 0xfeedfacf

abbrev pub header_size : ℕ
header_size = 32

abbrev pub lc_load_dylib : ℕ
lc_load_dylib = 0xc

abbrev pub lc_code_signature : ℕ
lc_code_signature = 0x1d

abbrev pub lc_data_in_code : ℕ
lc_data_in_code = 0x29

abbrev pub linkedit_data_command_size : ℕ
linkedit_data_command_size = 16

abbrev pub dylib_command_header_size : ℕ
dylib_command_header_size = 24

pub record MachORewriteInput : Type 0 where
  pub original : Bytes
  pub dylib_load_path : Text

pub data RewriteError : Type 0 where
  not_thin64 : RewriteError
  malformed : Text → RewriteError
  no_replaceable_slot : RewriteError
  no_padding_to_grow : RewriteError

abbrev pub Rewritten : Type 0 → Type 0
Rewritten = Result (Fault RewriteError)

abbrev pub truncated : RewriteError
truncated = malformed (ascii "truncated")

unfoldable pub read_u32_le : Bytes → ℕ → Rewritten ℕ
read_u32_le = read_le truncated 4

unfoldable pub write_u32_le : Bytes → ℕ → ℕ → Rewritten Bytes
write_u32_le = write_le 4

pub record Anchor : Type 0 where
  pub offset : ℕ
  pub size : ℕ
  pub command_count : ℕ

abbrev pub is_none : Option Anchor → Bool
is_none none = true
is_none (some a) = false

-- The pair of `LC_DATA_IN_CODE` and `LC_CODE_SIGNATURE`, of which the first was read at `off`.
unfoldable pub pair_anchor : Bytes → ℕ → ℕ → Rewritten (Option Anchor)
pair_anchor input off size = do
  let next_off = (off + size) % u64_mod
  next_size ← read_u32_le input ((next_off + 4) % u64_mod)
  next_cmd ← read_u32_le input next_off
  if next_cmd == lc_code_signature && next_size == linkedit_data_command_size
      then ok (some (record { offset = off; size = size + next_size; command_count = 2 }))
      else ok none

-- The first test of a round: whether the command starts a pair.
unfoldable pub try_pair :
    Bytes → (ncmds i off cmd size : ℕ) → Option Anchor → Rewritten (Option Anchor)
unfolding pair_anchor
try_pair input ncmds i off cmd size anchor =
    if is_none anchor
      && cmd == lc_data_in_code
      && size == linkedit_data_command_size
      && ltb (i + 1) ncmds
    then pair_anchor input off size
    else ok anchor

-- The second: whether it is the signature at the end of the table.
unfoldable pub try_signature : (table_end off cmd size : ℕ) → Option Anchor → Option Anchor
try_signature table_end off cmd size anchor =
    if is_none anchor && cmd == lc_code_signature && off + size == table_end
    then some (record { offset = off; size = size; command_count = 1 })
    else anchor

-- `for i in 0..ncmds`, with the rounds left.
unfoldable pub anchor_loop :
    (left : ℕ) → Bytes → (ncmds table_end i off : ℕ) → Option Anchor → Rewritten (Option Anchor)
unfolding try_pair try_signature
anchor_loop zero input ncmds table_end i off anchor = ok anchor
anchor_loop (suc left) input ncmds table_end i off anchor = do
  guard (leb ((off + 8) % u64_mod) (length input))
      (refused (malformed (ascii "truncated load command")))
  cmd ← read_u32_le input off
  size ← read_u32_le input ((off + 4) % u64_mod)
  guard (leb 8 size && leb ((off + size) % u64_mod) (length input))
      (refused (malformed (ascii "invalid load command size")))
  paired ← try_pair input ncmds i off cmd size anchor
  anchor_loop left input ncmds table_end (suc i) ((off + size) % u64_mod)
      (try_signature table_end off cmd size paired)

unfoldable pub found_anchor : Option Anchor → Rewritten Anchor
found_anchor none = err (refused no_replaceable_slot)
found_anchor (some a) = ok a

unfoldable pub find_anchor : Bytes → (ncmds sizeofcmds : ℕ) → Rewritten Anchor
unfolding anchor_loop found_anchor
find_anchor input ncmds sizeofcmds = do
  let table_end = header_size + sizeofcmds
  guard (leb table_end (length input))
      (refused (malformed (ascii "load-command table exceeds file size")))
  anchor ← anchor_loop ncmds input ncmds table_end 0 header_size none
  found_anchor anchor

-- `(DYLIB_COMMAND_HEADER_SIZE + name_bytes_with_nul + 7) & !7`
unfoldable pub new_cmd_size : Text → ℕ
new_cmd_size path = (dylib_command_header_size + (length path + 1) + 7) / 8 * 8

-- The zero bytes behind the table that a larger command needs.
unfoldable pub check_padding : Bytes → (table_end size new_size : ℕ) → Rewritten (Unit {0})
check_padding original table_end size new_size =
    if ltb size new_size
    then (do
      guard (leb (table_end + (new_size - size)) (length original)) (refused no_padding_to_grow)
      guard (all_zero (new_size - size) original table_end) (refused no_padding_to_grow))
    else ok tt

-- `while j > lo { j -= 1; out[j + delta] = out[j] }` from `j = lo + n`. The indices are below
-- `table_end + delta`, which is inside the file.
unfoldable pub move_right : (n lo delta : ℕ) → Bytes → Bytes
move_right zero lo delta out = out
move_right (suc n) lo delta out =
    move_right n lo delta (set out (lo + n + delta) (get_or out (lo + n) 0))

-- `for j in lo..lo + n { out[j - shrink] = out[j] }`
unfoldable pub move_left : (n lo shrink : ℕ) → Bytes → Bytes
move_left zero lo shrink out = out
move_left (suc n) lo shrink out =
    move_left n (suc lo) shrink (set out (lo - shrink) (get_or out lo 0))

-- What stands behind the anchor moves to the end of the new command.
unfoldable pub move_tail : Bytes → Anchor → (table_end new_size : ℕ) → Bytes
unfolding move_right move_left
move_tail out anchor table_end new_size =
    let tail = anchor.offset + anchor.size in
    if ltb anchor.size new_size
    then move_right (table_end - tail) tail (new_size - anchor.size) out
    else if ltb new_size anchor.size
    then move_left (table_end - tail) tail (anchor.size - new_size) out
    else out

-- `out.iter_mut().take(offset + new_cmd_size).skip(offset)`, set to zero.
unfoldable pub clear_slot : Bytes → (offset new_size : ℕ) → Bytes
unfolding overwrite
clear_slot out offset new_size = overwrite out offset (replicate new_size 0)

-- The fields of the `dylib_command` and its name.
unfoldable pub write_command : Bytes → (offset new_size : ℕ) → Text → Rewritten Bytes
write_command out offset new_size path = do
  out1 ← write_u32_le out offset lc_load_dylib
  out2 ← write_u32_le out1 ((offset + 4) % u64_mod) (new_size % u32_mod)
  out3 ← write_u32_le out2 ((offset + 8) % u64_mod) dylib_command_header_size
  out4 ← write_u32_le out3 ((offset + 12) % u64_mod) 2
  out5 ← write_u32_le out4 ((offset + 16) % u64_mod) 0x10000
  out6 ← write_u32_le out5 ((offset + 20) % u64_mod) 0x10000
  let name_off = (offset + dylib_command_header_size) % u64_mod
  copy_from_slice out6 name_off ((name_off + length path) % u64_mod) path

-- The new `sizeofcmds` and `ncmds`.
unfoldable pub write_counts :
    Bytes → (ncmds sizeofcmds : ℕ) → Anchor → (new_size : ℕ) → Rewritten Bytes
write_counts out ncmds sizeofcmds anchor new_size = do
  out' ← write_u32_le out 20 ((sizeofcmds + new_size + (u64_mod - anchor.size)) % u32_mod)
  write_u32_le out' 16 ((ncmds + (u32_mod - anchor.command_count) + 1) % u32_mod)

-- What follows once the anchor is found.
unfoldable pub replace_anchor :
    MachORewriteInput → (ncmds sizeofcmds : ℕ) → Anchor → Rewritten Bytes
unfolding check_padding move_tail clear_slot write_command write_counts new_cmd_size
replace_anchor input ncmds sizeofcmds anchor = do
  let table_end = header_size + sizeofcmds
  let new_size = new_cmd_size input.dylib_load_path
  check_padding input.original table_end anchor.size new_size
  let moved = move_tail input.original anchor table_end new_size
  let cleared = clear_slot moved anchor.offset new_size
  out ← write_command cleared anchor.offset new_size input.dylib_load_path
  write_counts out ncmds sizeofcmds anchor new_size

unfoldable pub rewrite_macho : MachORewriteInput → Rewritten Bytes
unfolding find_anchor replace_anchor
rewrite_macho input = do
  let original = input.original
  guard (leb header_size (length original)) (refused not_thin64)
  magic ← read_u32_le original 0
  guard (magic == mh_magic_64) (refused not_thin64)
  ncmds ← read_u32_le original 16
  sizeofcmds ← read_u32_le original 20
  anchor ← find_anchor original ncmds sizeofcmds
  replace_anchor input ncmds sizeofcmds anchor
