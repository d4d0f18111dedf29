-- ===== src/Vui/Settled.antt =====
-- After the change that src/rss_vui.c makes to an RBSP, the same request finds nothing to change.
use raptor_common.Base.Bits.{bit_and}
use native.Mathlib.Nat.{zero-div}
use raptor_common.Base.Masks.{digit, digit-bit_and, digit-mask}
use raptor_common.Base.{
  ℕ, ◌+◌, ◌-◌, ◌*◌, ◌/◌, ◌%◌, ◌^◌, ◌≤◌, ◌<◌, true, Option, none, some, length, get_or, Bytes, ◌≡◌,
  ◌≢◌, refl, sym, ◌∙◌, ap, arith,
}
use raptor_common.Vui.Walk.{Cursor, run, read_from, read, Ended, Found, at_bit, found_at}
use raptor_common.Vui.H265.{matrix_walk}
use raptor_common.Vui.Local.{Agree, run_mono, run-local}
use raptor_common.Vui.Edit.{
  at, mask_of, write_bit, write_bits, change, change_flag, change_at, keep, write,
}
use raptor_common.Vui.Writes.{
  length-write_bit, bit_at-write_bit, bit_at-write_bit_ne, length-write_bits,
  bit_at-write_bits_before, write_bits-HasBits, run-read_from,
}

-- The bit of a walk that finds one is where it stopped.
pub found_at_bit : (r : Ended × Cursor) (b : ℕ) → found_at r ≡ at_bit b → r.1.bit ≡ b
found_at_bit (Ended.here, c) b h = ground (arith, h)
found_at_bit (Ended.absent, c) b h = ground (arith, h)
found_at_bit (Ended.bad, c) b h = ground (arith, h)

abbrev pub Fits : Option ℕ → Type 0
Fits none = Unit
Fits (some m) = m < 256

-- The mask finds the bit.
and_mask_of : (byte p : ℕ) → digit byte (7 - p % 8) ≡ 1 → bit_and byte (mask_of p) ≢ 0
and_mask_of byte p h e =
    let both = digit-bit_and (7 - p % 8) byte (mask_of p) in
    let one = digit-mask (7 - p % 8) (7 - p % 8) (omega arith) (omega arith) in
    let nought : digit (bit_and byte (mask_of p)) (7 - p % 8) ≡ 0 =
      rw e (ap (λ (q : ℕ). q % 2) (zero-div (2 ^ (7 - p % 8)))) in
    absurd (ground (arith, both, one, nought))

change_flag_written :
    (rbsp : Bytes) (bit : ℕ)
    → bit < length rbsp * 8
    → change_flag (write_bit rbsp bit true) bit ≡ keep
unfolding change_flag
change_flag_written rbsp bit h =
    let set_now =
      and_mask_of (get_or (write_bit rbsp bit true) (bit / 8) 0) bit
        (bit_at-write_bit rbsp bit true h) in
    ground (arith, set_now)

change_at_written :
    (rbsp : Bytes) (m mbit : ℕ)
    → m < 256
    → mbit + 8 ≤ length rbsp * 8
    → change_at (write_bits 8 mbit m rbsp) m (at_bit mbit) ≡ keep
unfolding change_at read
change_at_written rbsp m mbit hm h =
    let same = length-write_bits 8 mbit m rbsp in
    let zero_first : m / 2 ^ 8 ≡ 0 = omega arith in
    let back : run (write_bits 8 mbit m rbsp) (read_from 8 0) (at mbit) ≡ (m, at (mbit + 8)) =
      ap (λ (v : ℕ). run (write_bits 8 mbit m rbsp) (read_from 8 v) (at mbit)) (sym zero_first)
      ∙ run-read_from 8 mbit m (write_bits 8 mbit m rbsp) (omega arith)
          (write_bits-HasBits 8 mbit m rbsp h) in
    ground (arith, same, back)

-- What the change leaves alone, and that it is not made again.
pub record Settles (rbsp rbsp' : Bytes) (bit : ℕ) (m : Option ℕ) : Type 0 where
  pub same_length : length rbsp' ≡ length rbsp
  pub same_before : Agree rbsp rbsp' bit
  pub settled : change rbsp' bit m ≡ keep

flag-Settles :
    (rbsp rbsp' : Bytes) (bit : ℕ)
    → bit < length rbsp * 8
    → change_flag rbsp bit ≡ write rbsp'
    → Settles rbsp rbsp' bit none
flag-Settles rbsp rbsp' bit h e =
    let is : rbsp' ≡ write_bit rbsp bit true = unfold change_flag in ground (arith, e) in
    rw is (record {
      same_length = length-write_bit rbsp bit true;
      same_before = λ i p. bit_at-write_bit_ne rbsp bit i true h (omega arith);
      settled = unfold change in change_flag_written rbsp bit h;
    })

matrix-Settles :
    (rbsp rbsp' : Bytes) (bit m : ℕ) (f : Found)
    → m < 256
    → found_at (run rbsp matrix_walk (at bit)) ≡ f
    → change_at rbsp m f ≡ write rbsp'
    → Settles rbsp rbsp' bit (some m)
matrix-Settles rbsp rbsp' bit m Found.absent hm k e = absurd (unfold change_at in ground (arith, e))
matrix-Settles rbsp rbsp' bit m Found.bad hm k e = absurd (unfold change_at in ground (arith, e))
matrix-Settles rbsp rbsp' bit m (at_bit mbit) hm k e =
    let is : rbsp' ≡ write_bits 8 mbit m rbsp = unfold change_at in ground (arith, e) in
    let room : mbit + 8 ≤ length rbsp * 8 = unfold change_at in ground (arith, e) in
    let stop = found_at_bit (run rbsp matrix_walk (at bit)) mbit k in
    let low = run_mono rbsp matrix_walk (at bit) in
    let same = length-write_bits 8 mbit m rbsp in
    let again =
      run-local rbsp (write_bits 8 mbit m rbsp) matrix_walk (at bit) same
        (λ i p. bit_at-write_bits_before 8 mbit m rbsp i room (omega (arith, stop))) in
    rw is (record {
      same_length = same;
      same_before = λ i p. bit_at-write_bits_before 8 mbit m rbsp i room (omega (arith, stop, low));
      settled = unfold change in rw again (rw k (change_at_written rbsp m mbit hm room));
    })

pub change-Settles :
    (rbsp rbsp' : Bytes) (bit : ℕ) (m : Option ℕ)
    → Fits m
    → bit < length rbsp * 8
    → change rbsp bit m ≡ write rbsp'
    → Settles rbsp rbsp' bit m
unfolding change
change-Settles rbsp rbsp' bit none hm h e = flag-Settles rbsp rbsp' bit h e
change-Settles rbsp rbsp' bit (some m) hm h e =
    matrix-Settles rbsp rbsp' bit m (found_at (run rbsp matrix_walk (at bit))) hm refl e
