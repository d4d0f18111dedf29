-- ===== src/Aac.antt =====
-- The AudioSpecificConfig builder of src/rss_aac.c. `none` is the result -1; the buffer is a valid
-- pointer, and the bytes written are the result.
pub mod Decoder
use raptor_common.Base.Bits.{bit_and, bit_or}
use raptor_common.Base.Int.{ℤ, pos, negsuc, quot_ℤ}
use raptor_common.Base.{
  ℕ, suc, ◌+◌, ◌*◌, ◌/◌, ◌%◌, ◌^◌, Bool, ◌||◌, List, [], ◌∷◌, Option, none, some, ltb, ◌==◌,
  if◌then◌else◌, Bytes,
}

unfoldable pub sr_table : List ℕ
sr_table =
    96000 ∷ 88200 ∷ 64000 ∷ 48000 ∷ 44100 ∷ 32000 ∷ 24000 ∷ 22050 ∷ 16000 ∷ 12000 ∷ 11025 ∷ 8000
    ∷ 7350 ∷ []

-- The loop of `rss_aac_rate_index`, from the index that the table starts at.
unfoldable pub find_rate : ℕ → List ℕ → ℕ → Option ℕ
find_rate i [] rate = none
find_rate i (r ∷ rs) rate = if r == rate then some i else find_rate (suc i) rs rate

unfoldable pub rate_index : ℤ → Option ℕ
rate_index (pos rate) = find_rate 0 sr_table rate
rate_index (negsuc n) = none

-- RSS_AAC_AOT_LC and RSS_AAC_AOT_SBR
abbrev pub aot_lc : ℕ
aot_lc = 2

abbrev pub aot_sbr : ℕ
aot_sbr = 5

-- The two shapes, of 16 and of 40 bits.
unfoldable pub lc_word : ℕ → ℕ → ℕ
lc_word idx channels = bit_or (bit_or (aot_lc * 2 ^ 11) (idx * 2 ^ 7)) (channels * 2 ^ 3) % 2 ^ 16

unfoldable pub sbr_word : ℕ → ℕ → ℕ → ℕ
sbr_word core_idx ext_idx channels =
    let v0 = bit_or 0 (aot_lc * 2 ^ 35) in
    let v1 = bit_or v0 (core_idx * 2 ^ 31) in
    let v2 = bit_or v1 (channels * 2 ^ 27) in
    let v3 = bit_or v2 (0x2b7 * 2 ^ 13) in
    let v4 = bit_or v3 (aot_sbr * 2 ^ 8) in
    let v5 = bit_or v4 (1 * 2 ^ 7) in bit_or v5 (ext_idx * 2 ^ 3)

unfoldable pub asc_lc : ℤ → ℕ → Option Bytes
asc_lc sample_rate channels = elim (rate_index sample_rate) [
  | none ↦ none
  | some idx ↦ let v = lc_word idx channels in some (v / 2 ^ 8 ∷ bit_and v 0xff ∷ [])
]

unfoldable pub asc_sbr : ℤ → ℕ → Option Bytes
asc_sbr sample_rate channels = elim (rate_index (quot_ℤ sample_rate 2)) [
  | none ↦ none
  | some core_idx ↦ elim (rate_index sample_rate) [
    | none ↦ none
    | some ext_idx ↦
        let v = sbr_word core_idx ext_idx channels in
        some (
          v / 2 ^ 32 % 256
          ∷ v / 2 ^ 24 % 256
          ∷ v / 2 ^ 16 % 256
          ∷ v / 2 ^ 8 % 256
          ∷ bit_and v 0xff
          ∷ [])
  ]
]

-- `rss_aac_asc`
unfoldable pub asc : ℤ → ℤ → ℤ → Option Bytes
asc (pos aot) sample_rate (pos channels) =
    if ltb channels 1 || ltb 7 channels
    then none
    else if aot == aot_lc
    then asc_lc sample_rate channels
    else if aot == aot_sbr
    then asc_sbr sample_rate channels
    else none
asc (negsuc aot) sample_rate channels = none
asc (pos aot) sample_rate (negsuc channels) = none
