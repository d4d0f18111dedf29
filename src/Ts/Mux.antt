-- ===== src/Ts/Mux.antt =====
-- The multiplexer of src/rss_ts.c: `rss_ts_mux_t`, `rss_ts_init`, `rss_ts_write_pat_pmt`,
-- `rss_ts_write_video` and `rss_ts_write_audio`.
use raptor_common.Base.Bits.{bit_and, bit_or}
use raptor_common.Base.{
  ℕ, ◌+◌, ◌-◌, ◌*◌, ◌/◌, ◌%◌, ◌^◌, Bool, true, false, ◌&&◌, ◌||◌, List, [], ◌∷◌, ◌++◌, ltb, leb,
  ◌==◌, if◌then◌else◌, length, replicate, Bytes, codes,
}
use raptor_common.Ts.Crc.{mpeg_crc32, crc_bytes}
use raptor_common.Ts.Packets.{
  packet_size, pid_pat, pid_pmt, pid_video, pid_audio, write_pts, packet_head, next_cc,
  write_pes_packets,
}

-- RSS_TS_STREAM_H264, _H265, _AAC, _OPUS and _NONE
abbrev pub stream_h264 : ℕ
stream_h264 = 0x1b

abbrev pub stream_h265 : ℕ
stream_h265 = 0x24

abbrev pub stream_aac : ℕ
stream_aac = 0x0f

abbrev pub stream_opus : ℕ
stream_opus = 0x06

abbrev pub stream_none : ℕ
stream_none = 0

pub record Mux : Type 0 where
  pub cc_pat : ℕ
  pub cc_pmt : ℕ
  pub cc_video : ℕ
  pub cc_audio : ℕ
  pub pat_counter : ℕ
  pub pat_interval : ℕ
  pub last_pcr : ℕ
  pub video_stream_type : ℕ
  pub audio_stream_type : ℕ
  pub audio_channels : ℕ

unfoldable pub init : ℕ → ℕ → ℕ → ℕ → Mux
init video_type audio_type audio_channels pat_interval = record {
  cc_pat = 0;
  cc_pmt = 0;
  cc_video = 0;
  cc_audio = 0;
  pat_counter = 0;
  pat_interval = pat_interval;
  last_pcr = 0;
  video_stream_type = video_type;
  audio_stream_type = audio_type;
  audio_channels = if audio_channels == 0 then 1 else audio_channels;
}

unfoldable pub pat_section : Bytes
pat_section =
    0x00
    ∷ 0xb0
    ∷ 0x0d
    ∷ 0x00
    ∷ 0x01
    ∷ 0xc1
    ∷ 0x00
    ∷ 0x00
    ∷ 0x00
    ∷ 0x01
    ∷ bit_or 0xe0 (bit_and (pid_pmt / 2 ^ 8) 0x1f)
    ∷ bit_and pid_pmt 0xff
    ∷ []

-- The entry of the audio stream, with the two descriptors of Opus.
unfoldable pub audio_es : ℕ → ℕ → Bytes
audio_es stream channels =
    if stream == stream_none
    then []
    else stream
      ∷ bit_or 0xe0 (bit_and (pid_audio / 2 ^ 8) 0x1f)
      ∷ bit_and pid_audio 0xff
      ∷ (if stream == stream_opus
          then 0xf0 ∷ 0x0a ∷ 0x05 ∷ 0x04 ∷ (codes "Opus" ++ 0x7f ∷ 0x02 ∷ 0x80 ∷ channels ∷ [])
          else 0xf0 ∷ 0x00 ∷ [])

-- The PMT behind its length field.
unfoldable pub pmt_body : Mux → Bytes
pmt_body m =
    0x00
    ∷ 0x01
    ∷ 0xc1
    ∷ 0x00
    ∷ 0x00
    ∷ bit_or 0xe0 (bit_and (pid_video / 2 ^ 8) 0x1f)
    ∷ bit_and pid_video 0xff
    ∷ 0xf0
    ∷ 0x00
    ∷ m.video_stream_type
    ∷ bit_or 0xe0 (bit_and (pid_video / 2 ^ 8) 0x1f)
    ∷ bit_and pid_video 0xff
    ∷ 0xf0
    ∷ 0x00
    ∷ audio_es m.audio_stream_type m.audio_channels

unfoldable pub pmt_section : Mux → Bytes
pmt_section m =
    let section_len = length (pmt_body m) + 4 in
    0x02 ∷ bit_or 0xb0 (bit_and (section_len / 2 ^ 8) 0x0f) ∷ bit_and section_len 0xff ∷ pmt_body m

-- A packet of 188 bytes set to 0xFF, then the head, the pointer field, a section and its checksum.
unfoldable pub table_packet : ℕ → ℕ → Bytes → Bytes
table_packet pid cc section = packet_head true pid 0x10 cc (
    0 ∷ section
    ++ crc_bytes (mpeg_crc32 section)
    ++ replicate (packet_size - (9 + length section)) 0xff)

-- `rss_ts_write_pat_pmt`
unfoldable pub write_pat_pmt : Mux → ℕ → List Bytes × Mux
write_pat_pmt m buf_size = if ltb buf_size (packet_size * 2) then ([], m) else (
  table_packet pid_pat m.cc_pat pat_section ∷ table_packet pid_pmt m.cc_pmt (pmt_section m) ∷ [],
  record m { cc_pat = next_cc m.cc_pat; cc_pmt = next_cc m.cc_pmt; pat_counter = 0 },
)

-- The PES header of a frame: 14 bytes, or 19 with a DTS.
unfoldable pub video_header : ℕ → ℕ → Bytes
video_header pts dts =
    0x00
    ∷ 0x00
    ∷ 0x01
    ∷ 0xe0
    ∷ 0x00
    ∷ 0x00
    ∷ 0x84
    ∷ (if dts == pts
        then 0x80 ∷ 0x05 ∷ write_pts 0x02 pts
        else 0xc0 ∷ 0x0a ∷ (write_pts 0x03 pts ++ write_pts 0x01 dts))

-- The clock reference: 33 ms ahead of the DTS, and above the last one within a table interval.
unfoldable pub next_pcr : Mux → ℕ → ℕ
next_pcr m dts =
    let pcr = if ltb 3000 dts then dts - 3000 else 0 in
    if leb pcr m.last_pcr && ltb 0 m.pat_counter then (m.last_pcr + 1) % 2 ^ 64 else pcr

-- `rss_ts_write_video`
unfoldable pub write_video : Mux → ℕ → Bytes → ℕ → ℕ → Bool → List Bytes × Mux
write_video m buf_size data' pts dts is_idr =
    if length data' == 0
    then ([], m)
    else let pcr = next_pcr m dts in
      let sent =
        write_pes_packets pid_video pcr true is_idr buf_size m.cc_video (video_header pts dts)
          data' in
      (
        sent.0,
        record m { cc_video = sent.1; pat_counter = (m.pat_counter + 1) % 2 ^ 32; last_pcr = pcr },
      )

-- The PES header of an audio frame of `len` bytes, with the length if it fits 16 bits.
unfoldable pub audio_header : ℕ → ℕ → ℕ → Bytes
audio_header stream len pts =
    let pes_payload = 3 + 5 + len in
    0x00
    ∷ 0x00
    ∷ 0x01
    ∷ (if stream == stream_aac then 0xc0 else 0xbd)
    ∷ (if leb pes_payload 0xffff then bit_and (pes_payload / 2 ^ 8) 0xff else 0x00)
    ∷ (if leb pes_payload 0xffff then bit_and pes_payload 0xff else 0x00)
    ∷ 0x84
    ∷ 0x80
    ∷ 0x05
    ∷ write_pts 0x02 pts

-- `rss_ts_write_audio`
unfoldable pub write_audio : Mux → ℕ → Bytes → ℕ → List Bytes × Mux
write_audio m buf_size data' pts =
    if length data' == 0 || m.audio_stream_type == stream_none
    then ([], m)
    else let sent =
        write_pes_packets pid_audio 0 false false buf_size m.cc_audio
          (audio_header m.audio_stream_type (length data') pts) data' in
      (sent.0, record m { cc_audio = sent.1 })
