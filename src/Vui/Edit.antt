-- ===== src/Vui/Edit.antt =====
-- src/rss_vui.c, vui_edit and the two functions that call it.
use raptor_common.Base.Bits.{bit_or, bit_and}
use raptor_common.Base.{
  ℕ, zero, suc, ◌+◌, ◌-◌, ◌*◌, ◌/◌, ◌%◌, ◌^◌, Bool, true, false, not, ◌&&◌, ltb, leb, ◌==◌, ◌++◌,
  Option, none, some, if◌then◌else◌, length, get_or, set, take, drop, Bytes,
}
use raptor_common.Vui.Walk.{Cursor, Walk, run, read, Ended, Found, at_bit, found_at}
use raptor_common.Vui.H264.{h264_full_range}
use raptor_common.Vui.H265.{h265_full_range, matrix_walk}
use raptor_common.Vui.Escape.{unescape, escape}

-- The results 0, -1 and 1; in the last case the NAL as it is then.
pub data Edited : Type 0 where
  unchanged refused : Edited
  edited : Bytes → Edited

-- What is decided on the RBSP: return 0, return -1 or write it back.
pub data Change : Type 0 where
  keep refuse : Change
  write : Bytes → Change

abbrev pub rbsp_max : ℕ
rbsp_max = 1024

-- The length of the Annex B start code.
unfoldable pub skip_start : Bytes → ℕ
skip_start nal =
    if ltb 4 (length nal) && (get_or nal 0 0 == 0) && (get_or nal 1 0 == 0)
    then (if get_or nal 2 0 == 1
        then 3
        else if (get_or nal 2 0 == 0) && (get_or nal 3 0 == 1)
        then 4
        else 0)
    else 0

abbrev pub header_size : Bool → ℕ
header_size is_h265 = if is_h265 then 2 else 1

abbrev pub is_sps : Bool → ℕ → Bool
is_sps is_h265 b = if is_h265 then bit_and (b / 2) 0x3f == 33 else bit_and b 0x1f == 7

abbrev pub at : ℕ → Cursor
at n = record { bit = n; overflow = false }

-- Bit `p`: the mask is `1 << (7 - (p & 7))`.
abbrev pub mask_of : ℕ → ℕ
mask_of p = 2 ^ (7 - p % 8)

abbrev pub write_bit : Bytes → ℕ → Bool → Bytes
write_bit buf p one =
    let byte = get_or buf (p / 8) 0 in
    set buf (p / 8) (if one then bit_or byte (mask_of p) else bit_and byte (255 - mask_of p))

-- The loop that writes the low `n` bits of `matrix`, the first at bit `p`.
unfoldable pub write_bits : ℕ → ℕ → ℕ → Bytes → Bytes
write_bits zero p matrix buf = buf
write_bits (suc n) p matrix buf =
    write_bits n (suc p) matrix (write_bit buf p (not (matrix / 2 ^ n % 2 == 0)))

unfoldable pub change_flag : Bytes → ℕ → Change
change_flag rbsp bit =
    if bit_and (get_or rbsp (bit / 8) 0) (mask_of bit) == 0
    then write (write_bit rbsp bit true)
    else keep

unfoldable pub change_at : Bytes → ℕ → Found → Change
unfolding run read write_bits
change_at rbsp matrix Found.absent = keep
change_at rbsp matrix Found.bad = refuse
change_at rbsp matrix (at_bit mbit) =
    if ltb (length rbsp * 8) (mbit + 8)
    then refuse
    else if (run rbsp (read 8) (at mbit)).0 == matrix
    then keep
    else write (write_bits 8 mbit matrix rbsp)

-- `none` stands for the negative `matrix`, which asks for the flag.
unfoldable pub change : Bytes → ℕ → Option ℕ → Change
unfolding run matrix_walk change_flag change_at
change rbsp bit none = change_flag rbsp bit
change rbsp bit (some matrix) = change_at rbsp matrix (found_at (run rbsp matrix_walk (at bit)))

-- `front` is all that stands before the payload.
unfoldable pub commit : Bytes → Bytes → Change → Edited
unfolding escape
commit front payload keep = unchanged
commit front payload refuse = refused
commit front payload (write rbsp) = elim (escape (rbsp_max + 64) rbsp) [
  | none ↦ refused
  | some esc ↦ if length esc == length payload then edited (front ++ esc) else refused
]

module _ (shift32 : ℕ) where
  abbrev pub full_range : Bool → Walk Ended
  full_range is_h265 = if is_h265 then h265_full_range shift32 else h264_full_range shift32

  unfoldable pub edit_at : Bytes → Bytes → Bytes → Option ℕ → Found → Edited
  unfolding change commit
  edit_at front payload rbsp matrix Found.absent = unchanged
  edit_at front payload rbsp matrix Found.bad = refused
  edit_at front payload rbsp matrix (at_bit bit) =
      if leb (length rbsp * 8) bit then refused else commit front payload (change rbsp bit matrix)

  unfoldable pub edit_payload : Bytes → Bytes → Bool → Option ℕ → Edited
  unfolding unescape run edit_at h264_full_range h265_full_range
  edit_payload front payload is_h265 matrix =
      let rbsp = unescape rbsp_max payload in
      edit_at front payload rbsp matrix (found_at (run rbsp (full_range is_h265) (at 0)))

  unfoldable pub vui_edit : Bytes → Bool → Option ℕ → Edited
  unfolding edit_payload skip_start
  vui_edit nal is_h265 matrix =
      let start = skip_start nal in
      let len = length nal - start in
      let hdr = header_size is_h265 in
      if ltb (length nal) 4
      then refused
      else if leb len hdr
      then refused
      else if ltb rbsp_max (len - hdr)
      then refused
      else if not (is_sps is_h265 (get_or nal start 0))
      then refused
      else edit_payload (take (start + hdr) nal) (drop (start + hdr) nal) is_h265 matrix

  unfoldable pub set_full_range : Bytes → Bool → Edited
  unfolding vui_edit
  set_full_range nal is_h265 = vui_edit nal is_h265 none

  unfoldable pub set_matrix : Bytes → Bool → ℕ → Edited
  unfolding vui_edit
  set_matrix nal is_h265 matrix = vui_edit nal is_h265 (some matrix)
