-- ===== src/Vui/Fields.antt =====
-- Which bits of the RBSP an edit of src/rss_vui.c changes.
use raptor_common.Base.Bits.{bit_and}
use raptor_common.Base.Masks.{digit, digit_lt, digit-bit_and, digit-mask}
use native.Mathlib.Nat.{zero-div}
use raptor_common.Base.{
  ℕ, ◌+◌, ◌-◌, ◌*◌, ◌/◌, ◌%◌, ◌^◌, ◌≤◌, ◌<◌, Bool, true, Option, none, some, length, get_or, take,
  drop, Bytes, ◌≡◌, ◌≢◌, refl, ap, arith,
}
use raptor_common.Vui.Walk.{bit_at, run, Found, at_bit, found_at}
use raptor_common.Vui.H265.{matrix_walk}
use raptor_common.Vui.Edit.{
  at, mask_of, write_bit, write_bits, change, change_flag, change_at, write, unchanged, edited,
  set_full_range, set_matrix, vui_edit, full_range,
}
use raptor_common.Vui.Settled.{Fits}
use raptor_common.Vui.Writes.{
  bit_at-write_bit, bit_at-write_bit_ne, HasBits, write_bits-HasBits, bit_at-write_bits_before,
  bit_at-write_bits_after,
}
use raptor_common.Vui.Twice.{rbsp_of}
use raptor_common.Vui.Committed.{front_size, vui_edit-Replaces, Replaces-again}

-- The RBSP of a NAL.
abbrev pub rbsp_in : Bytes → Bool → Bytes → Bytes
rbsp_in nal is_h265 other = rbsp_of (drop (front_size nal is_h265) other)

clear_of_mask : (byte p : ℕ) → bit_and byte (mask_of p) ≡ 0 → digit byte (7 - p % 8) ≡ 0
clear_of_mask byte p e =
    let both = digit-bit_and (7 - p % 8) byte (mask_of p) in
    let one = digit-mask (7 - p % 8) (7 - p % 8) (omega arith) (omega arith) in
    let nought : digit (bit_and byte (mask_of p)) (7 - p % 8) ≡ 0 =
      rw e (ap (λ (q : ℕ). q % 2) (zero-div (2 ^ (7 - p % 8)))) in
    ground (arith, both, one, nought, digit_lt byte (7 - p % 8))

-- `buf'` is `buf` with bit `bit` set, which was clear.
pub record SetsBit (buf buf' : Bytes) (bit : ℕ) : Type 0 where
  pub was_clear : bit_at buf bit ≡ 0
  pub now_set : bit_at buf' bit ≡ 1
  pub others : (q : ℕ) → q ≢ bit → bit_at buf' q ≡ bit_at buf q

-- `buf'` is `buf` with `m` written in eight bits.
pub record WritesByte (buf buf' : Bytes) (bit m : ℕ) : Type 0 where
  pub now : HasBits buf' bit 8 m
  pub before : (q : ℕ) → q < bit → bit_at buf' q ≡ bit_at buf q
  pub after : (q : ℕ) → bit + 8 ≤ q → bit_at buf' q ≡ bit_at buf q

flag_SetsBit :
    (buf buf' : Bytes) (bit : ℕ)
    → bit < length buf * 8
    → change_flag buf bit ≡ write buf'
    → SetsBit buf buf' bit
flag_SetsBit buf buf' bit h e =
    let is : buf' ≡ write_bit buf bit true = unfold change_flag in ground (arith, e) in
    let clear : bit_and (get_or buf (bit / 8) 0) (mask_of bit) ≡ 0 =
      unfold change_flag in ground (arith, e) in
    rw is (record {
      was_clear = clear_of_mask (get_or buf (bit / 8) 0) bit clear;
      now_set = bit_at-write_bit buf bit true h;
      others = λ q p. bit_at-write_bit_ne buf bit q true h p;
    })

byte_WritesByte :
    (buf buf' : Bytes) (bit m : ℕ) (f : Found)
    → found_at (run buf matrix_walk (at bit)) ≡ f
    → change_at buf m f ≡ write buf'
    → (mbit : ℕ) × (found_at (run buf matrix_walk (at bit)) ≡ at_bit mbit)
      × WritesByte buf buf' mbit m
byte_WritesByte buf buf' bit m Found.absent k e = absurd (unfold change_at in ground (arith, e))
byte_WritesByte buf buf' bit m Found.bad k e = absurd (unfold change_at in ground (arith, e))
byte_WritesByte buf buf' bit m (at_bit mbit) k e =
    let is : buf' ≡ write_bits 8 mbit m buf = unfold change_at in ground (arith, e) in
    let room : mbit + 8 ≤ length buf * 8 = unfold change_at in ground (arith, e) in
    (
      mbit,
      k,
      rw is (record {
        now = write_bits-HasBits 8 mbit m buf room;
        before = λ q p. bit_at-write_bits_before 8 mbit m buf q room p;
        after = λ q p. bit_at-write_bits_after 8 mbit m buf q room p;
      }),
    )

module _ (shift32 : ℕ) where
  -- When vui_edit returns 1, the NAL keeps its length and all bytes before its payload, and a second
  -- call with the same arguments returns 0 and writes nothing; matrix values are below 256.
  pub vui_edit-vui_edit :
      (nal nal' : Bytes) (is_h265 : Bool) (matrix : Option ℕ)
      → Fits matrix
      → vui_edit shift32 nal is_h265 matrix ≡ edited nal'
      → (length nal' ≡ length nal)
        × (take (front_size nal is_h265) nal' ≡ take (front_size nal is_h265) nal)
        × (vui_edit shift32 nal' is_h265 matrix ≡ unchanged)
  vui_edit-vui_edit nal nal' is_h265 matrix hm e =
      let r = vui_edit-Replaces shift32 nal nal' is_h265 matrix hm e in
      (r.same_length, r.same_front, Replaces-again shift32 nal nal' is_h265 matrix hm r)

  -- When rss_vui_set_full_range returns 1, the walk found video_full_range_flag clear in the unescaped
  -- payload, and the unescaped payload that was written has that bit set and every other bit unchanged.
  pub set_full_range-SetsBit :
      (nal nal' : Bytes) (is_h265 : Bool)
      → set_full_range shift32 nal is_h265 ≡ edited nal'
      → (bit : ℕ) × (found_at (run (rbsp_in nal is_h265 nal) (full_range shift32 is_h265) (at 0))
          ≡ at_bit bit)
        × SetsBit (rbsp_in nal is_h265 nal) (rbsp_in nal is_h265 nal') bit
  unfolding set_full_range
  set_full_range-SetsBit nal nal' is_h265 e =
      let c = (vui_edit-Replaces shift32 nal nal' is_h265 none tt e).commits in
      (
        c.bit,
        c.found,
        flag_SetsBit (rbsp_in nal is_h265 nal) (rbsp_in nal is_h265 nal') c.bit c.inside
            (unfold change in c.changed),
      )

  -- When rss_vui_set_matrix returns 1, for a value below 256, the walk found matrix_coefficients in
  -- the unescaped payload, and the unescaped payload that was written has the value there, the
  -- highest bit first, and every other bit unchanged.
  pub set_matrix-WritesByte :
      (nal nal' : Bytes) (is_h265 : Bool) (matrix : ℕ)
      → matrix < 256
      → set_matrix shift32 nal is_h265 matrix ≡ edited nal'
      → (bit mbit : ℕ) × (found_at
            (run (rbsp_in nal is_h265 nal) (full_range shift32 is_h265) (at 0))
          ≡ at_bit bit)
        × (found_at (run (rbsp_in nal is_h265 nal) matrix_walk (at bit)) ≡ at_bit mbit)
        × WritesByte (rbsp_in nal is_h265 nal) (rbsp_in nal is_h265 nal') mbit matrix
  unfolding set_matrix
  set_matrix-WritesByte nal nal' is_h265 matrix hm e =
      let c = (vui_edit-Replaces shift32 nal nal' is_h265 (some matrix) hm e).commits in
      let w =
        byte_WritesByte (rbsp_in nal is_h265 nal) (rbsp_in nal is_h265 nal') c.bit matrix
          (found_at (run (rbsp_in nal is_h265 nal) matrix_walk (at c.bit))) refl
          (unfold change in c.changed) in
      (c.bit, w.0, c.found, w.1, w.2)
