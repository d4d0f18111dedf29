-- ===== src/Sei.antt =====
-- The MISB ST 0604 timestamp SEI of src/rss_sei.c: builder and parser. Pointers are not NULL.

pub mod Parse
pub mod Walk
pub mod RoundTrip
use raptor_common.Base.Bits.{bit_or, bit_and}
use raptor_common.Base.{
  ℕ, zero, suc, ◌+◌, ◌-◌, ◌*◌, ◌/◌, ◌%◌, ◌^◌, Bool, true, false, not, ◌&&◌, ◌||◌, List, [], ◌∷◌,
  ◌++◌, Option, none, some, ltb, leb, ◌==◌, if◌then◌else◌, length, take, drop, Bytes, codes,
}
use raptor_common.Text.{str_eq}

-- Bits `k` to `k + 7` of a word: `(uint8_t)(x >> k)`.
abbrev pub byte_of : ℕ → ℕ → ℕ
byte_of x k = x / 2 ^ k % 256

-- RSS_SEI_CODEC_H264 and RSS_SEI_CODEC_H265; any other number is `other`.
pub data Codec : Type 0 where
  h264 h265 other : Codec

-- RSS_SEI_PREFIX_NONE, _ANNEXB and _AVCC; any other number is `unknown`.
pub data Prefix : Type 0 where
  bare annexb avcc unknown : Prefix

pub data Error : Type 0 where
  einval enospc enoent ebadmsg : Error

pub data Built : Type 0 where
  built : Bytes → Built
  refused : Error → Built

-- `misp_uuid_h264` and `misp_uuid_h265`
abbrev pub misp_uuid_h264 : Bytes
misp_uuid_h264 = codes "MISPmicrosectime"

abbrev pub misp_uuid_h265 : Bytes
misp_uuid_h265 =
    0xa8 ∷ 0x68 ∷ 0x7d ∷ 0xd4 ∷ 0xd7 ∷ 0x59 ∷ 0x37 ∷ 0x58 ∷ 0xa5 ∷ 0xce ∷ 0xf0 ∷ 0x33 ∷ 0x8b ∷ 0x65
    ∷ 0x45 ∷ 0xf1 ∷ []

-- SEI_PAYLOAD_TYPE_UDU and SEI_PAYLOAD_SIZE
abbrev pub payload_type_udu : ℕ
payload_type_udu = 5

abbrev pub payload_size : ℕ
payload_size = 28

abbrev pub uuid_of : Codec → Bytes
uuid_of h264 = misp_uuid_h264
uuid_of h265 = misp_uuid_h265
uuid_of other = []

abbrev pub hdr_len : Codec → ℕ
hdr_len h264 = 1
hdr_len h265 = 2
hdr_len other = 0

-- The NAL header bytes.
abbrev pub nal_header : Codec → Bytes
nal_header h264 = 0x06 ∷ []
nal_header h265 = 0x4e ∷ 0x01 ∷ []
nal_header other = []

-- The status byte and the modified time stamp: 8 bytes, with 0xff after each of the first three
-- pairs.
abbrev pub stamp : ℕ → ℕ → Bytes
stamp utc_us status =
    bit_or status 0x1f
    ∷ byte_of utc_us 56
    ∷ byte_of utc_us 48
    ∷ 0xff
    ∷ byte_of utc_us 40
    ∷ byte_of utc_us 32
    ∷ 0xff
    ∷ byte_of utc_us 24
    ∷ byte_of utc_us 16
    ∷ 0xff
    ∷ byte_of utc_us 8
    ∷ byte_of utc_us 0
    ∷ []

abbrev pub nal : Codec → ℕ → ℕ → Bytes
nal codec utc_us status =
    nal_header codec
    ++ (payload_type_udu ∷ payload_size ∷ (uuid_of codec ++ (stamp utc_us status ++ 0x80 ∷ [])))

abbrev pub prefix_len : Prefix → ℕ
prefix_len bare = 0
prefix_len _ = 4

abbrev pub nal_len : Codec → ℕ
nal_len codec = hdr_len codec + 1 + 1 + payload_size + 1

-- What is written in front of the NAL.
abbrev pub prefix_bytes : Prefix → ℕ → Option Bytes
prefix_bytes bare n = some []
prefix_bytes annexb n = some (0 ∷ 0 ∷ 0 ∷ 1 ∷ [])
prefix_bytes avcc n = some (byte_of n 24 ∷ byte_of n 16 ∷ byte_of n 8 ∷ byte_of n 0 ∷ [])
prefix_bytes unknown n = none

abbrev pub is_other : Codec → Bool
is_other other = true
is_other _ = false

-- `rss_sei_build_timestamp` into a buffer of `cap` bytes: the bytes written, as many as it returns.
unfoldable pub build_timestamp : ℕ → Codec → Prefix → ℕ → ℕ → Built
build_timestamp cap codec prefix utc_us status =
    if is_other codec
    then refused einval
    else if ltb cap (prefix_len prefix + nal_len codec)
    then refused enospc
    else elim (prefix_bytes prefix (nal_len codec)) [
      | none ↦ refused einval
      | some front ↦ built (front ++ nal codec utc_us status)
    ]
