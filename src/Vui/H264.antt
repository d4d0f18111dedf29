-- ===== src/Vui/H264.antt =====
-- src/rss_vui.c, h264_scaling_list and h264_full_range_bit, with the tail that the H.265 walk shares.
use raptor_common.Base.Int.{ℤ, pos, negsuc, ◌+ℤ◌, sub_ℕ, pos_part, neg_part}
use raptor_common.Base.{ℕ, zero, suc, ◌%◌, Bool, true, false, not, ltb, ◌==◌, ◌||◌, if◌then◌else◌}
use raptor_common.Vui.Walk.{
  Walk, done, bind, ◌>>=◌, ◌>>◌, read, times, ue, se, when, Ended, end_here, end_absent,
}

-- C's `%` has the sign of its left operand.
abbrev pub rem_ℤ : ℤ → ℕ → ℤ
rem_ℤ a d = sub_ℕ (pos_part a % d) (neg_part a % d)

abbrev pub is_zero : ℤ → Bool
is_zero (pos zero) = true
is_zero (pos (suc n)) = false
is_zero (negsuc n) = false

abbrev pub next_scale : ℤ → ℤ → ℤ
next_scale last delta = rem_ℤ (last +ℤ delta +ℤ pos 256) 256

-- The profiles of the `switch`, which carry the chroma fields.
abbrev pub has_chroma : ℕ → Bool
has_chroma p =
    p == 100
    || p == 110
    || p == 122
    || p == 244
    || p == 44
    || p == 83
    || p == 86
    || p == 118
    || p == 128
    || p == 138
    || p == 139
    || p == 134
    || p == 135

-- From vui_parameters_present to video_format, the same in both walks.
unfoldable pub signal_type : Walk Ended
unfolding read bind
signal_type = do
  vui ← read 1
  if vui == 0 then end_absent else do
    aspect ← read 1
    when (not (aspect == 0)) (read 8 >>= λ idc. when (idc == 255) (read 16 >> read 16))
    overscan ← read 1
    when (not (overscan == 0)) (read 1)
    signal ← read 1
    if signal == 0 then end_absent else (read 3 >> end_here)

module _ (shift32 : ℕ) where
  unfoldable pub scaling_entries : ℕ → ℤ → ℤ → Walk (Unit {0})
  unfolding bind
  scaling_entries zero last next = done tt
  scaling_entries (suc n) last next =
      (if is_zero next then done next else (se shift32 >>= λ d. done (next_scale last d))) >>= λ v.
      scaling_entries n (if is_zero v then last else v) v

  -- The sum of `last` and the delta is exact here; only its remainder by 256 is used.
  unfoldable pub scaling_list : ℕ → Walk (Unit {0})
  unfolding scaling_entries
  scaling_list size = scaling_entries size (pos 8) (pos 8)

  -- The loop over the lists: `n` are left, the next is number `i`.
  unfoldable pub scaling_matrix : ℕ → ℕ → Walk (Unit {0})
  unfolding scaling_list read bind
  scaling_matrix zero i = done tt
  scaling_matrix (suc n) i = do
    present ← read 1
    when (not (present == 0)) (scaling_list (if ltb i 6 then 16 else 64))
    scaling_matrix n (suc i)

  unfoldable pub chroma_fields : Walk (Unit {0})
  unfolding scaling_matrix read ue bind
  chroma_fields = do
    chroma_format_idc ← ue shift32
    when (chroma_format_idc == 3) (read 1)
    ue shift32
    ue shift32
    read 1
    present ← read 1
    when (not (present == 0)) (scaling_matrix (if chroma_format_idc == 3 then 12 else 8) 0)

  unfoldable pub crop_fields : Walk (Unit {0})
  unfolding ue bind
  crop_fields = do ue shift32; ue shift32; ue shift32; ue shift32; done tt

  unfoldable pub picture_fields : Walk Ended
  unfolding crop_fields signal_type read ue bind
  picture_fields = do
    ue shift32
    read 1
    ue shift32
    ue shift32
    frame_mbs_only ← read 1
    when (frame_mbs_only == 0) (read 1)
    read 1
    cropping ← read 1
    when (not (cropping == 0)) crop_fields
    signal_type

  unfoldable pub offset_fields : Walk Ended
  unfolding picture_fields read ue se times bind
  offset_fields = do
    read 1
    se shift32
    se shift32
    n ← ue shift32
    if ltb 255 n then done Ended.bad else (times n (se shift32) >> picture_fields)

  unfoldable pub h264_full_range : Walk Ended
  unfolding chroma_fields offset_fields picture_fields read ue bind
  h264_full_range = do
    profile_idc ← read 8
    read 8
    read 8
    ue shift32
    when (has_chroma profile_idc) chroma_fields
    ue shift32
    poc_type ← ue shift32
    if poc_type == 0
        then (ue shift32 >> picture_fields)
        else if poc_type == 1
        then offset_fields
        else picture_fields
