-- ===== src/Aac/Decoder.antt =====
-- A decoder (ISO 14496-3, 1.6.2.1 and 1.6.6) for what src/rss_aac.c writes.
use raptor_common.Base.{
  ℕ, suc, ◌+◌, ◌*◌, ◌/◌, ◌%◌, Bool, true, ◌&&◌, List, [], ◌∷◌, Option, none, some, ◌==◌,
  if◌then◌else◌, get_or, Bytes,
}
use raptor_common.Aac.{aot_lc}

-- The sampling frequencies of table 1.18 of the standard, by their index; the others are reserved.
unfoldable pub frequency : ℕ → ℕ
frequency i =
    get_or
      (96000 ∷ 88200 ∷ 64000 ∷ 48000 ∷ 44100 ∷ 32000 ∷ 24000 ∷ 22050 ∷ 16000 ∷ 12000 ∷ 11025 ∷ 8000
        ∷ 7350 ∷ [])
      i 0

unfoldable frequencies_ok : ℕ → List ℕ → Bool
frequencies_ok i [] = true
frequencies_ok i (r ∷ rs) = frequency i == r && frequencies_ok (suc i) rs

pub record Decoded : Type 0 where
  pub object_type : ℕ
  pub sampling : ℕ
  pub channel_config : ℕ
  pub extension : Option ℕ

-- Two bytes are a plain configuration; five end in the extension, if it is announced.
unfoldable pub decode : Bytes → Option Decoded
decode (a ∷ b ∷ []) = some (record {
  object_type = a / 8;
  sampling = frequency (a % 8 * 2 + b / 128);
  channel_config = b / 8 % 16;
  extension = none;
})
decode (a ∷ b ∷ c ∷ d ∷ e ∷ []) = some (record {
  object_type = a / 8;
  sampling = frequency (a % 8 * 2 + b / 128);
  channel_config = b / 8 % 16;
  extension =
      if c * 8 + d / 32 == 0x2b7
      then if d % 32 == 5
        then if e / 128 == 1 then some (frequency (e / 8 % 16)) else none
        else none
      else none;
})
decode _ = none

-- What a decoder is to find: a plain configuration, or one at half the rate that announces the
-- extension to the whole rate.
unfoldable pub announced : ℕ → ℕ → ℕ → Decoded
announced aot rate channels = record {
  object_type = 2;
  sampling = if aot == aot_lc then rate else rate / 2;
  channel_config = channels;
  extension = if aot == aot_lc then none else some rate;
}
