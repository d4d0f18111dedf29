-- ===== src/Vui/Committed.antt =====
-- The two edits of src/rss_vui.c on a whole NAL: what they wrote, and that a second call writes nothing.
use raptor_common.Base.Slices.{take_front, drop_front, get_or_front, get_or-take}
use raptor_common.Base.{
  ℕ, ◌+◌, ◌-◌, ◌≤◌, ◌<◌, Bool, true, false, ◌&&◌, ltb, ◌==◌, ◌++◌, Option, if◌then◌else◌, length,
  get_or, take, drop, length-append, length-take, length-drop, Bytes, ◌≡◌, ◌≢◌, refl, sym, ◌∙◌, ap,
  arith,
}
use raptor_common.Vui.Edit.{
  unchanged, edited, rbsp_max, edit_payload, skip_start, header_size, is_sps, vui_edit,
}
use raptor_common.Vui.Settled.{Fits}
use raptor_common.Vui.Twice.{Commits, edit_payload-Commits, Commits-again}

-- The bytes before the payload.
abbrev pub front_size : Bytes → Bool → ℕ
front_size nal is_h265 = skip_start nal + header_size is_h265

-- The guards of `vui_edit`.
pub record IsEditable (nal : Bytes) (is_h265 : Bool) : Type 0 where
  pub long : 4 ≤ length nal
  pub has_payload : front_size nal is_h265 < length nal
  pub bounded : length nal - front_size nal is_h265 ≤ rbsp_max
  pub sps : is_sps is_h265 (get_or nal (skip_start nal) 0) ≡ true

module _ (shift32 : ℕ) where
  vui_edit_guards :
      (nal nal' : Bytes) (is_h265 : Bool) (matrix : Option ℕ)
      → vui_edit shift32 nal is_h265 matrix ≡ edited nal'
      → IsEditable nal is_h265
  unfolding vui_edit
  vui_edit_guards nal nal' is_h265 matrix h = record {
    long = ground (arith, h);
    has_payload = ground (arith, h);
    bounded = ground (arith, h);
    sps = ground (arith, h);
  }

  vui_edit_passed :
      (nal : Bytes) (is_h265 : Bool) (matrix : Option ℕ)
      → IsEditable nal is_h265
      → vui_edit shift32 nal is_h265 matrix
        ≡ edit_payload shift32
            (take (front_size nal is_h265) nal)
            (drop (front_size nal is_h265) nal)
            is_h265
            matrix
  unfolding vui_edit
  vui_edit_passed nal is_h265 matrix g = ground (arith, g.long, g.has_payload, g.bounded, g.sps)

sps_zero_h265 : is_sps true 0 ≡ false
sps_zero_h265 = refl

sps_zero_h264 : is_sps false 0 ≡ false
sps_zero_h264 = refl

sps_nonzero : (is_h265 : Bool) (b : ℕ) → is_sps is_h265 b ≡ true → b ≢ 0
sps_nonzero true b h e = absurd (ground (arith, sps_zero_h265, ap (λ (b : ℕ). is_sps true b) e, h))
sps_nonzero false b h e =
    absurd (ground (arith, sps_zero_h264, ap (λ (b : ℕ). is_sps false b) e, h))

-- The four bytes that a start code is told by, in a NAL that has more.
skip_start_of : (long : Bool) (a b c d : ℕ) → ℕ
skip_start_of long a b c d =
    if long && (a == 0) && (b == 0)
    then (if c == 1 then 3 else if (c == 0) && (d == 1) then 4 else 0)
    else 0

skip_start_parts :
    (nal : Bytes)
    → skip_start nal
      ≡ skip_start_of
          (ltb 4 (length nal))
          (get_or nal 0 0)
          (get_or nal 1 0)
          (get_or nal 2 0)
          (get_or nal 3 0)
unfolding skip_start skip_start_of
skip_start_parts nal = refl

skip_start_of_same :
    (long : Bool) (a b c d a' b' c' d' n : ℕ)
    → 0 < n
    → (skip_start_of long a b c d ≡ 0 → a ≢ 0)
    → (0 < skip_start_of long a b c d + n → a' ≡ a)
    → (1 < skip_start_of long a b c d + n → b' ≡ b)
    → (2 < skip_start_of long a b c d + n → c' ≡ c)
    → (3 < skip_start_of long a b c d + n → d' ≡ d)
    → skip_start_of long a' b' c' d' ≡ skip_start_of long a b c d
unfolding skip_start_of
skip_start_of_same long a b c d a' b' c' d' n hn hz ha hb hc hd = ground arith

header_pos : (is_h265 : Bool) → 0 < header_size is_h265
header_pos true = omega arith
header_pos false = omega arith

-- Bytes that agree up to the header have the same start code.
skip_start_same :
    (nal nal' : Bytes) (is_h265 : Bool)
    → IsEditable nal is_h265
    → length nal' ≡ length nal
    → ((i : ℕ) → i < front_size nal is_h265 → get_or nal' i 0 ≡ get_or nal i 0)
    → skip_start nal' ≡ skip_start nal
skip_start_same nal nal' is_h265 g hl h =
    let same_long : ltb 4 (length nal') ≡ ltb 4 (length nal) = ap (λ n. ltb 4 n) hl in
    let parts = skip_start_parts nal in
    let none_skipped : skip_start nal ≡ 0 → get_or nal 0 0 ≢ 0 = λ e.
      sps_nonzero is_h265 (get_or nal 0 0)
        (ap (λ i. is_sps is_h265 (get_or nal i 0)) (sym e) ∙ g.sps) in
    skip_start_parts nal'
    ∙ rw same_long (
        skip_start_of_same (ltb 4 (length nal)) (get_or nal 0 0) (get_or nal 1 0) (get_or nal 2 0)
          (get_or nal 3 0) (get_or nal' 0 0) (get_or nal' 1 0) (get_or nal' 2 0) (get_or nal' 3 0)
          (header_size is_h265) (header_pos is_h265) (λ e. none_skipped (parts ∙ e))
          (λ p. h 0 (rw parts p)) (λ p. h 1 (rw parts p)) (λ p. h 2 (rw parts p))
          (λ p. h 3 (rw parts p)))
    ∙ sym parts

-- Another payload of the same length behind the same front.
module _ (nal esc : Bytes) (k : ℕ) (h : k ≤ length nal)
    (he : length esc ≡ length (drop k nal)) where
  abbrev swapped : Bytes
  swapped = take k nal ++ esc

  length-swapped : length swapped ≡ length nal
  length-swapped =
      omega (arith, length-append (take k nal) esc, length-take k nal, length-drop k nal, he, h)

  take-swapped : take k swapped ≡ take k nal
  take-swapped = take_front k (take k nal) esc (omega (arith, length-take k nal, h))

  drop-swapped : drop k swapped ≡ esc
  drop-swapped = drop_front k (take k nal) esc (omega (arith, length-take k nal, h))

  get_or-swapped : (i : ℕ) → i < k → get_or swapped i 0 ≡ get_or nal i 0
  get_or-swapped i p =
      get_or_front (take k nal) esc i 0 (omega (arith, length-take k nal, h, p))
      ∙ get_or-take k i nal 0 p

-- What an edit that returns 1 did to the NAL.
pub record Replaces (shift32 : ℕ) (is_h265 : Bool) (nal : Bytes) (matrix : Option ℕ) (nal' : Bytes)
    : Type 0 where
  pub same_length : length nal' ≡ length nal
  pub same_front : take (front_size nal is_h265) nal' ≡ take (front_size nal is_h265) nal
  pub same_start : skip_start nal' ≡ skip_start nal
  pub still_editable : IsEditable nal' is_h265
  pub commits :
      Commits shift32 is_h265
        (drop (front_size nal is_h265) nal)
        matrix
        (drop (front_size nal is_h265) nal')

module _ (shift32 : ℕ) where
  swapped-Replaces :
      (nal esc : Bytes) (is_h265 : Bool) (matrix : Option ℕ) (k : ℕ)
      → k ≡ front_size nal is_h265
      → (h : k ≤ length nal) → (he : length esc ≡ length (drop k nal)) → IsEditable nal is_h265
      → Commits shift32 is_h265 (drop k nal) matrix esc
      → Replaces shift32 is_h265 nal matrix (swapped nal esc k h he)
  swapped-Replaces nal esc is_h265 matrix k e h he g c =
      let len = length-swapped nal esc k h he in
      let start =
        skip_start_same nal (swapped nal esc k h he) is_h265 g len
          (λ i p. get_or-swapped nal esc k h he i (omega (arith, p, e))) in
      record {
        same_length = len;
        same_front = rw (sym e) (take-swapped nal esc k h he);
        same_start = start;
        still_editable = record {
          long = omega (arith, len, g.long);
          has_payload = omega (arith, len, start, g.has_payload);
          bounded = omega (arith, len, start, g.bounded);
          sps =
              ap (λ i. is_sps is_h265 (get_or (swapped nal esc k h he) i 0)) start
              ∙ ap (λ b. is_sps is_h265 b)
                  (get_or-swapped nal esc k h he (skip_start nal)
                    (omega (arith, e, header_pos is_h265)))
              ∙ g.sps;
        };
        commits = rw (sym e) (rw (drop-swapped nal esc k h he) c);
      }

  pub vui_edit-Replaces :
      (nal nal' : Bytes) (is_h265 : Bool) (matrix : Option ℕ)
      → Fits matrix
      → vui_edit shift32 nal is_h265 matrix ≡ edited nal'
      → Replaces shift32 is_h265 nal matrix nal'
  vui_edit-Replaces nal nal' is_h265 matrix hm e =
      let g = vui_edit_guards shift32 nal nal' is_h265 matrix e in
      let k = front_size nal is_h265 in
      let c =
        edit_payload-Commits shift32 is_h265 (take k nal) (drop k nal) nal' matrix hm
          (sym (vui_edit_passed shift32 nal is_h265 matrix g) ∙ e) in
      rw c.1 (
        swapped-Replaces nal c.0 is_h265 matrix k refl (omega (arith, g.has_payload))
          c.2.same_length g c.2)

  pub Replaces-again :
      (nal nal' : Bytes) (is_h265 : Bool) (matrix : Option ℕ)
      → Fits matrix
      → Replaces shift32 is_h265 nal matrix nal'
      → vui_edit shift32 nal' is_h265 matrix ≡ unchanged
  Replaces-again nal nal' is_h265 matrix hm r =
      let k = front_size nal is_h265 in
      let same : front_size nal' is_h265 ≡ k = ap (λ n. n + header_size is_h265) r.same_start in
      vui_edit_passed shift32 nal' is_h265 matrix r.still_editable
      ∙ ap (λ n. edit_payload shift32 (take n nal') (drop n nal') is_h265 matrix) same
      ∙ Commits-again shift32 is_h265 (take k nal') (drop k nal) (drop k nal') matrix hm r.commits
