-- ===== src/Tests/Declarations.antt =====
-- Parameter sets with their declarations at concrete inputs.
use raptor_common.Base.{ℕ, true, false, [], ◌∷◌, none, some, length, take, Bytes, ◌≡◌, refl, arith}
use raptor_common.Vui.Walk.{take_bit, run, at_bit, found_at}
use raptor_common.Vui.H265.{matrix_walk}
use raptor_common.Vui.Escape.{unescape, escape, unescape-escape}
use raptor_common.Vui.Edit.{at, unchanged, edited, set_full_range, set_matrix, vui_edit, full_range}
use raptor_common.Vui.Committed.{front_size}
use raptor_common.Vui.Fields.{
  vui_edit-vui_edit, set_full_range-SetsBit, set_matrix-WritesByte, SetsBit, WritesByte, rbsp_in,
}

abbrev sps_h264 : Bytes
sps_h264 = 103 ∷ 66 ∷ 0 ∷ 30 ∷ 218 ∷ 2 ∷ 128 ∷ 246 ∷ 154 ∷ 128 ∷ 128 ∷ 130 ∷ 128 ∷ 0 ∷ 4 ∷ []

abbrev sps_h265 : Bytes
sps_h265 =
    0 ∷ 0 ∷ 1 ∷ 66 ∷ 1 ∷ 1 ∷ 1 ∷ 0 ∷ 0 ∷ 3 ∷ 0 ∷ 0 ∷ 3 ∷ 0 ∷ 0 ∷ 3 ∷ 0 ∷ 0 ∷ 3 ∷ 0 ∷ 0 ∷ 93 ∷ 160
    ∷ 32 ∷ 1 ∷ 1 ∷ 150 ∷ 191 ∷ 193 ∷ 46 ∷ 38 ∷ 160 ∷ 32 ∷ 32 ∷ 32 ∷ 4 ∷ []

abbrev full_h264 : Bytes
full_h264 = 103 ∷ 66 ∷ 0 ∷ 30 ∷ 218 ∷ 2 ∷ 128 ∷ 246 ∷ 155 ∷ 128 ∷ 128 ∷ 130 ∷ 128 ∷ 0 ∷ 4 ∷ []

abbrev full_h265 : Bytes
full_h265 =
    0 ∷ 0 ∷ 1 ∷ 66 ∷ 1 ∷ 1 ∷ 1 ∷ 0 ∷ 0 ∷ 3 ∷ 0 ∷ 0 ∷ 3 ∷ 0 ∷ 0 ∷ 3 ∷ 0 ∷ 0 ∷ 3 ∷ 0 ∷ 0 ∷ 93 ∷ 160
    ∷ 32 ∷ 1 ∷ 1 ∷ 150 ∷ 191 ∷ 193 ∷ 46 ∷ 38 ∷ 224 ∷ 32 ∷ 32 ∷ 32 ∷ 4 ∷ []

abbrev bt2020_h265 : Bytes
bt2020_h265 =
    0 ∷ 0 ∷ 1 ∷ 66 ∷ 1 ∷ 1 ∷ 1 ∷ 0 ∷ 0 ∷ 3 ∷ 0 ∷ 0 ∷ 3 ∷ 0 ∷ 0 ∷ 3 ∷ 0 ∷ 0 ∷ 3 ∷ 0 ∷ 0 ∷ 93 ∷ 160
    ∷ 32 ∷ 1 ∷ 1 ∷ 150 ∷ 191 ∷ 193 ∷ 46 ∷ 38 ∷ 160 ∷ 32 ∷ 33 ∷ 32 ∷ 4 ∷ []

edit_h264 : vui_edit 0 sps_h264 false none ≡ edited full_h264
unfolding vui_edit take_bit
edit_h264 = refl

edit_h265 : set_full_range 0 sps_h265 true ≡ edited full_h265
unfolding set_full_range take_bit
edit_h265 = refl

matrix_h265 : set_matrix 0 sps_h265 true 9 ≡ edited bt2020_h265
unfolding set_matrix take_bit
matrix_h265 = refl

vui_edit-vui_edit_example :
    (length full_h264 ≡ length sps_h264)
    × (take (front_size sps_h264 false) full_h264 ≡ take (front_size sps_h264 false) sps_h264)
    × (vui_edit 0 full_h264 false none ≡ unchanged)
vui_edit-vui_edit_example = vui_edit-vui_edit 0 sps_h264 full_h264 false none tt edit_h264

set_full_range_example :
    (bit : ℕ) × (found_at (run (rbsp_in sps_h265 true sps_h265) (full_range 0 true) (at 0))
      ≡ at_bit bit)
    × SetsBit (rbsp_in sps_h265 true sps_h265) (rbsp_in sps_h265 true full_h265) bit
set_full_range_example = set_full_range-SetsBit 0 sps_h265 full_h265 true edit_h265

set_matrix_example :
    (bit mbit : ℕ) × (found_at (run (rbsp_in sps_h265 true sps_h265) (full_range 0 true) (at 0))
      ≡ at_bit bit)
    × (found_at (run (rbsp_in sps_h265 true sps_h265) matrix_walk (at bit)) ≡ at_bit mbit)
    × WritesByte (rbsp_in sps_h265 true sps_h265) (rbsp_in sps_h265 true bt2020_h265) mbit 9
set_matrix_example = set_matrix-WritesByte 0 sps_h265 bt2020_h265 true 9 (omega arith) matrix_h265

escaped_zeros : escape 8 (0 ∷ 0 ∷ 0 ∷ 0 ∷ 3 ∷ []) ≡ some (0 ∷ 0 ∷ 3 ∷ 0 ∷ 0 ∷ 3 ∷ 3 ∷ [])
unfolding escape
escaped_zeros = refl

unescape-escape_example : unescape 5 (0 ∷ 0 ∷ 3 ∷ 0 ∷ 0 ∷ 3 ∷ 3 ∷ []) ≡ 0 ∷ 0 ∷ 0 ∷ 0 ∷ 3 ∷ []
unescape-escape_example = unescape-escape (0 ∷ 0 ∷ 0 ∷ 0 ∷ 3 ∷ []) 8 5 (omega arith) escaped_zeros
