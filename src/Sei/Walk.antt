-- ===== src/Sei/Walk.antt =====
-- The walk of src/rss_sei.c over the messages of a NAL, up to the time stamp.
use raptor_common.Base.Bits.{bit_or, or_aligned}
use raptor_common.Base.{
  ℕ, zero, suc, ◌+◌, ◌*◌, ◌^◌, ◌<◌, false, List, [], ◌∷◌, ◌++◌, some, length, drop, Bytes, ◌≡◌, ◌≢◌,
  refl, arith, ◌∙◌, length-append,
}
use raptor_common.Sei.{
  Codec, h264, h265, other, uuid_of, payload_type_udu, payload_size, byte_of, stamp,
}
use raptor_common.Sei.Parse.{found, all_zero, read_field, join_bytes, read_stamp, walk}
use raptor_common.Text.{str_eq}

join_sum :
    (a b c d e f g h : ℕ)
    → b < 256
    → c < 256
    → d < 256
    → e < 256
    → f < 256
    → g < 256
    → h < 256
    → join_bytes a b c d e f g h
      ≡ a * 2 ^ 56 + b * 2 ^ 48 + c * 2 ^ 40 + d * 2 ^ 32 + e * 2 ^ 24 + f * 2 ^ 16 + g * 2 ^ 8 + h
join_sum a b c d e f g h hb hc hd he hf hg hh =
    let s1 = a * 2 ^ 56 + b * 2 ^ 48 in
    let s2 = s1 + c * 2 ^ 40 in
    let s3 = s2 + d * 2 ^ 32 in
    let s4 = s3 + e * 2 ^ 24 in
    let s5 = s4 + f * 2 ^ 16 in
    let s6 = s5 + g * 2 ^ 8 in
    rw (or_aligned 56 (a * 2 ^ 56) (b * 2 ^ 48) (omega arith) (omega arith)) (
      rw (or_aligned 48 s1 (c * 2 ^ 40) (omega arith) (omega arith)) (
        rw (or_aligned 40 s2 (d * 2 ^ 32) (omega arith) (omega arith)) (
          rw (or_aligned 32 s3 (e * 2 ^ 24) (omega arith) (omega arith)) (
            rw (or_aligned 24 s4 (f * 2 ^ 16) (omega arith) (omega arith)) (
              rw (or_aligned 16 s5 (g * 2 ^ 8) (omega arith) (omega arith))
                (or_aligned 8 s6 h (omega arith) (omega arith)))))))

join_bytes-byte_of :
    (x : ℕ)
    → x < 2 ^ 64
    → join_bytes
        (byte_of x 56)
        (byte_of x 48)
        (byte_of x 40)
        (byte_of x 32)
        (byte_of x 24)
        (byte_of x 16)
        (byte_of x 8)
        (byte_of x 0)
      ≡ x
join_bytes-byte_of x h =
    rw
      (join_sum (byte_of x 56) (byte_of x 48) (byte_of x 40) (byte_of x 32) (byte_of x 24)
        (byte_of x 16) (byte_of x 8) (byte_of x 0) (omega arith) (omega arith) (omega arith)
        (omega arith) (omega arith) (omega arith) (omega arith))
      (omega arith)

-- Another SEI message in the same NAL, with a type and a size of one byte each.
pub record Message : Type 0 where
  pub type : ℕ
  pub payload : Bytes

pub record IsForeign (m : Message) : Type 0 where
  pub type_short : m.type < 255
  pub type_other : m.type ≢ 5
  pub size_short : length m.payload < 255

abbrev pub AllForeign : List Message → Type 0
AllForeign [] = Unit
AllForeign (m ∷ ms) = IsForeign m × AllForeign ms

abbrev pub messages : List Message → Bytes → Bytes
messages [] rest = rest
messages (m ∷ ms) rest = m.type ∷ length m.payload ∷ (m.payload ++ messages ms rest)

-- The message that the builder writes, with the stop bit.
abbrev pub stamp_message : Codec → ℕ → ℕ → Bytes
stamp_message codec utc_us status =
    payload_type_udu ∷ payload_size ∷ (uuid_of codec ++ (stamp utc_us status ++ 0x80 ∷ []))

pub drop-append : (a b : Bytes) → drop (length a) (a ++ b) ≡ b
drop-append [] b = refl
drop-append (x ∷ a) b = drop-append a b

all_zero-append : (a b : Bytes) → all_zero b ≡ false → all_zero (a ++ b) ≡ false
unfolding all_zero
all_zero-append [] b h = h
all_zero-append (x ∷ a) b h = ground (arith, all_zero-append a b h)

all_zero-messages :
    (ms : List Message) (rest : Bytes) → all_zero rest ≡ false → all_zero (messages ms rest) ≡ false
all_zero-messages [] rest h = h
all_zero-messages (m ∷ ms) rest h =
    all_zero-append (m.type ∷ length m.payload ∷ m.payload) (messages ms rest)
      (all_zero-messages ms rest h)

read_field-short : (c : ℕ) (s : Bytes) → c < 255 → read_field (c ∷ s) 0 ≡ some (c, s)
unfolding read_field
read_field-short c s h = ground arith

-- A foreign message is passed over.
walk-foreign :
    (fuel : ℕ) (uuid : Bytes) (m : Message) (rest : Bytes)
    → IsForeign m
    → all_zero rest ≡ false
    → walk (suc fuel) uuid (m.type ∷ length m.payload ∷ (m.payload ++ rest)) ≡ walk fuel uuid rest
unfolding walk
walk-foreign fuel uuid m rest f z =
    let size = length m.payload in
    ground (
      arith,
      all_zero-append (size ∷ m.payload) rest z,
      read_field-short m.type (size ∷ (m.payload ++ rest)) f.type_short,
      read_field-short size (m.payload ++ rest) f.size_short,
      drop-append m.payload rest,
      length-append m.payload rest,
    )

walk-stamp :
    (fuel : ℕ) (codec : Codec) (us status : ℕ)
    → codec ≢ other
    → us < 2 ^ 64
    → walk (suc fuel) (uuid_of codec) (stamp_message codec us status)
      ≡ found us (bit_or status 0x1f)
unfolding walk read_field all_zero str_eq read_stamp
walk-stamp fuel h264 us status ne h = rw (join_bytes-byte_of us h)
walk-stamp fuel h265 us status ne h = rw (join_bytes-byte_of us h)
walk-stamp fuel other us status ne h = absurd (ne refl)

pub walk-messages :
    (ms : List Message) (fuel : ℕ) (codec : Codec) (us status : ℕ)
    → codec ≢ other
    → us < 2 ^ 64
    → AllForeign ms
    → length ms < fuel
    → walk fuel (uuid_of codec) (messages ms (stamp_message codec us status))
      ≡ found us (bit_or status 0x1f)
walk-messages [] zero codec us status ne h f n = elim n [ ]
walk-messages [] (suc fuel) codec us status ne h f n = walk-stamp fuel codec us status ne h
walk-messages (m ∷ ms) zero codec us status ne h f n = elim n [ ]
walk-messages (m ∷ ms) (suc fuel) codec us status ne h f n =
    walk-foreign fuel (uuid_of codec) m (messages ms (stamp_message codec us status)) f.0
      (all_zero-messages ms (stamp_message codec us status) (unfold all_zero in refl))
    ∙ walk-messages ms fuel codec us status ne h f.1 (omega arith)
