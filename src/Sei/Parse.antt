-- ===== src/Sei/Parse.antt =====
-- `rss_sei_parse_timestamp` (src/rss_sei.c). A read past the NAL would be a fault; the walk tests
-- its bounds as the source does.
use raptor_common.Base.Bits.{bit_or, bit_and}
use raptor_common.Base.{
  ℕ, zero, suc, ◌+◌, ◌*◌, ◌/◌, ◌%◌, ◌^◌, Bool, true, false, not, ◌&&◌, ◌||◌, [], ◌∷◌, Option, none,
  some, ltb, leb, ◌==◌, if◌then◌else◌, length, take, drop, Bytes,
}
use raptor_common.Sei.{
  Codec, h264, h265, other, Error, einval, enoent, ebadmsg, uuid_of, payload_type_udu, payload_size,
}
use raptor_common.Text.{str_eq}

pub data Parsed : Type 0 where
  found : ℕ → ℕ → Parsed
  failed : Error → Parsed

-- Nothing but zero bytes.
unfoldable pub all_zero : Bytes → Bool
all_zero [] = true
all_zero (c ∷ s) = c == 0 && all_zero s

-- The type and size fields: 0xff bytes add 255 each and the next byte ends the field. `none` at
-- the end of the NAL. `type` and `size` are uint32_t.
unfoldable pub read_field : Bytes → ℕ → Option (ℕ × Bytes)
read_field [] acc = none
read_field (c ∷ s) acc =
    let on = read_field s ((acc + 0xff) % 2 ^ 32) in
    if c == 0xff then on else some ((acc + c) % 2 ^ 32, s)

-- The eight bytes of the time stamp, put together.
abbrev pub join_bytes : ℕ → ℕ → ℕ → ℕ → ℕ → ℕ → ℕ → ℕ → ℕ
join_bytes a b c d e f g h =
    bit_or
      (bit_or
        (bit_or
          (bit_or (bit_or (bit_or (bit_or (a * 2 ^ 56) (b * 2 ^ 48)) (c * 2 ^ 40)) (d * 2 ^ 32))
            (e * 2 ^ 24))
          (f * 2 ^ 16))
        (g * 2 ^ 8))
      h

-- The payload behind the identifier: guards, then the value. The size test lets none be short.
unfoldable pub read_stamp : Bytes → Parsed
read_stamp (d0 ∷ d1 ∷ d2 ∷ d3 ∷ d4 ∷ d5 ∷ d6 ∷ d7 ∷ d8 ∷ d9 ∷ d10 ∷ d11 ∷ rest) =
    if not (d3 == 0xff) || not (d6 == 0xff) || not (d9 == 0xff)
    then failed ebadmsg
    else found (join_bytes d1 d2 d4 d5 d7 d8 d10 d11) d0
read_stamp _ = failed ebadmsg

-- One message, or the end of the walk.
unfoldable pub walk : ℕ → Bytes → Bytes → Parsed
walk zero uuid p = failed enoent
walk (suc fuel) uuid [] = failed enoent
walk (suc fuel) uuid (c ∷ s) =
    if c == 0x80 && all_zero s then failed enoent else elim (read_field (c ∷ s) 0) [
      | none ↦ failed enoent
      | some (type, p) ↦ elim (read_field p 0) [
        | none ↦ failed enoent
        | some (size, q) ↦
            let next = walk fuel uuid (drop size q) in
            if ltb (length q) size
            then failed enoent
            else if type == payload_type_udu && leb payload_size size && str_eq (take 16 q) uuid
            then read_stamp (drop 16 q)
            else next
      ]
    ]

-- The NAL header is a timestamp carrier of this codec.
unfoldable pub header_fits : Codec → Bytes → Bool
header_fits h264 (b ∷ rest) = bit_and b 0x1f == 6
header_fits h265 (b ∷ c ∷ rest) = bit_and (b / 2) 0x3f == 39
header_fits _ _ = false

abbrev pub behind_header : Codec → Bytes → Bytes
behind_header h264 nal = drop 1 nal
behind_header h265 nal = drop 2 nal
behind_header other nal = nal

abbrev pub unknown_codec : Codec → Bool
unknown_codec other = true
unknown_codec _ = false

-- `rss_sei_parse_timestamp`: each message takes two bytes at least, so a round for each byte of the
-- NAL is enough.
unfoldable pub parse_timestamp : Bytes → Codec → Parsed
parse_timestamp nal codec =
    if unknown_codec codec
    then failed einval
    else if not (header_fits codec nal)
    then failed enoent
    else walk (suc (length nal)) (uuid_of codec) (behind_header codec nal)
