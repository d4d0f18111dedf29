-- ===== src/Vui/H265.antt =====
-- src/rss_vui.c, the H.265 walk and the walk on to matrix_coefficients.
use raptor_common.Base.{
  ℕ, zero, suc, ◌+◌, ◌-◌, ◌*◌, ◌%◌, ◌^◌, Bool, true, false, not, ◌&&◌, ltb, ◌==◌, List, [], ◌∷◌,
  Option, none, some, if◌then◌else◌,
}
use raptor_common.Vui.Walk.{
  Walk, done, overflowed, bind, ◌>>=◌, ◌>>◌, read, times, ue, se, when, Ended, end_here, end_absent,
}
use raptor_common.Vui.H264.{crop_fields, signal_type}

unfoldable pub layer_flags : ℕ → Walk (List (ℕ × ℕ))
unfolding read bind
layer_flags zero = done []
layer_flags (suc n) = do
  profile ← read 1
  level ← read 1
  rest ← layer_flags n
  done ((profile, level) ∷ rest)

unfoldable pub layer_fields : List (ℕ × ℕ) → Walk (Unit {0})
unfolding read bind
layer_fields [] = done tt
layer_fields ((profile, level) ∷ rest) = do
  when (not (profile == 0)) (read 8 >> read 32 >> read 32 >> read 16)
  when (not (level == 0)) (read 8)
  layer_fields rest

unfoldable pub profile_tier_level : ℕ → Walk (Unit {0})
unfolding layer_flags layer_fields times read bind
profile_tier_level max_sub_layers_minus1 = do
  read 8
  read 32
  read 32
  read 16
  read 8
  flags ← layer_flags (if ltb max_sub_layers_minus1 8 then max_sub_layers_minus1 else 8)
  when (ltb 0 max_sub_layers_minus1) (times (8 - max_sub_layers_minus1) (read 2))
  layer_fields flags

-- The rounds over `j` of an inter-predicted set; `kept` entries so far.
unfoldable pub inter_entries : ℕ → ℕ → Walk ℕ
unfolding read bind
inter_entries zero kept = done kept
inter_entries (suc n) kept = do
  used ← read 1
  use_delta ← if used == 0 then read 1 else done 1
  inter_entries n (if (used == 0) && (use_delta == 0) then kept else kept + 1)

module _ (shift32 : ℕ) where
  -- One round of the loops of scaling_list_data.
  unfoldable pub scaling_coefs : ℕ → Walk (Unit {0})
  unfolding times read ue se bind
  scaling_coefs size_id = do
    pred_mode ← read 1
    if pred_mode == 0 then (ue shift32 >> done tt) else do
      when (ltb 1 size_id) (se shift32)
      times (if ltb 64 (2 ^ (4 + size_id * 2)) then 64 else 2 ^ (4 + size_id * 2)) (se shift32)

  unfoldable pub scaling_list_data : Walk (Unit {0})
  unfolding scaling_coefs times bind
  scaling_list_data = do
    times 6 (scaling_coefs 0)
    times 6 (scaling_coefs 1)
    times 6 (scaling_coefs 2)
    times 2 (scaling_coefs 3)

  -- `num_delta_pocs[idx]`, none for the error; `prev` is `num_delta_pocs[idx - 1]`.
  unfoldable pub st_ref_pic_set : Bool → ℕ → Walk (Option ℕ)
  unfolding inter_entries times read ue bind
  st_ref_pic_set first prev = do
    inter_pred ← if first then done 0 else read 1
    if not (inter_pred == 0)
        then (do
          read 1
          ue shift32
          kept ← inter_entries (suc prev) 0
          overflowed λ o. done (if o then none else some kept))
        else (do
          neg ← ue shift32
          positive ← ue shift32
          if ltb 64 neg then done none else if ltb 64 positive then done none else (do
            times neg (ue shift32 >> read 1)
            times positive (ue shift32 >> read 1)
            overflowed λ o. done (if o then none else some (neg + positive))))

  -- The loop over the sets, false for the error.
  unfoldable pub st_ref_pic_sets : ℕ → Bool → ℕ → Walk Bool
  unfolding st_ref_pic_set bind
  st_ref_pic_sets zero first prev = done true
  st_ref_pic_sets (suc n) first prev = st_ref_pic_set first prev >>= λ o. elim o [
    | none ↦ done false
    | some kept ↦ st_ref_pic_sets n false kept
  ]

  -- `(int)(log2_max_poc_lsb_minus4 + 4)`, whose loop does not run when it is negative.
  abbrev pub lsb_bits : ℕ → ℕ
  lsb_bits log2_minus4 = let n = (log2_minus4 + 4) % 2 ^ 32 in if ltb n (2 ^ 31) then n else 0

  abbrev pub last_fields : Walk Ended
  last_fields = read 1 >> read 1 >> signal_type

  unfoldable pub long_term_fields : ℕ → Walk Ended
  unfolding times read ue signal_type bind
  long_term_fields log2_max_poc_lsb_minus4 = do
    present ← read 1
    if present == 0 then last_fields else do
      n ← ue shift32
      if ltb 32 n
          then done Ended.bad
          else (times n (read (lsb_bits log2_max_poc_lsb_minus4) >> read 1) >> last_fields)

  unfoldable pub ref_pic_fields : ℕ → Walk Ended
  unfolding st_ref_pic_sets long_term_fields ue bind
  ref_pic_fields log2_max_poc_lsb_minus4 = do
    num_sets ← ue shift32
    if ltb 64 num_sets then done Ended.bad else do
      good ← st_ref_pic_sets num_sets true 0
      if good then long_term_fields log2_max_poc_lsb_minus4 else done Ended.bad

  unfoldable pub pcm_fields : Walk (Unit {0})
  unfolding read ue bind
  pcm_fields = read 4 >> read 4 >> ue shift32 >> ue shift32 >> read 1 >> done tt

  unfoldable pub coding_fields : Walk (Unit {0})
  unfolding scaling_list_data pcm_fields times read ue bind
  coding_fields = do
    times 6 (ue shift32)
    scaling ← read 1
    when (not (scaling == 0)) (read 1 >>= λ present. when (not (present == 0)) scaling_list_data)
    read 1
    read 1
    pcm ← read 1
    when (not (pcm == 0)) pcm_fields

  unfoldable pub h265_full_range : Walk Ended
  unfolding profile_tier_level crop_fields coding_fields ref_pic_fields times read ue bind
  h265_full_range = do
    read 4
    max_sub_layers_minus1 ← read 3
    read 1
    profile_tier_level max_sub_layers_minus1
    ue shift32
    chroma_format_idc ← ue shift32
    when (chroma_format_idc == 3) (read 1)
    ue shift32
    ue shift32
    window ← read 1
    when (not (window == 0)) (crop_fields shift32)
    ue shift32
    ue shift32
    log2_max_poc_lsb_minus4 ← ue shift32
    ordering ← read 1
    times (if ordering == 0 then 1 else suc max_sub_layers_minus1)
        (ue shift32 >> ue shift32 >> ue shift32)
    coding_fields
    ref_pic_fields log2_max_poc_lsb_minus4

unfoldable pub matrix_walk : Walk Ended
unfolding read bind
matrix_walk = do
  read 1
  colour ← read 1
  if colour == 0 then end_absent else (read 8 >> read 8 >> end_here)
