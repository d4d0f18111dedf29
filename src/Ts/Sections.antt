-- ===== src/Ts/Sections.antt =====
-- The tables of `rss_ts_write_pat_pmt` (src/rss_ts.c) as a receiver takes them.
use raptor_common.Base.Bits.{bit_and, bit_or, bit_xor, and_mask}
use raptor_common.Base.Slices.{take_front}
use raptor_common.Base.{
  ℕ, zero, suc, ◌+◌, ◌-◌, ◌*◌, ◌/◌, ◌%◌, ◌^◌, ◌≤◌, ◌<◌, Bool, true, false, ◌&&◌, List, [], ◌∷◌,
  ◌++◌, ◌≡◌, refl, ◌∙◌, ap, arith, Bool-cases, inl, inr, ◌⊎◌, ltb, ◌==◌, length, take, drop,
  replicate, if◌then◌else◌, Bytes, length-append, length-replicate,
}
use raptor_common.Ts.Crc.{crc32_table, crc_step, crc_from, mpeg_crc32, crc_bytes}
use raptor_common.Ts.CrcLaws.{crc_bits, crc_bit}
use raptor_common.Ts.Packets.{packet_size, pid_pat, pid_pmt, pid_video, pid_audio}
use raptor_common.Ts.Demux.{payload_of, payload_plain}
use raptor_common.Ts.Mux.{
  Mux, init, write_pat_pmt, table_packet, pat_section, pmt_section, pmt_body, audio_es, stream_none,
  stream_opus, stream_aac, stream_h264, stream_h265,
}

-- A section behind the pointer field, as long as its 12-bit length says.
unfoldable pub section_behind : Bytes → Bytes
section_behind (id ∷ b1 ∷ b0 ∷ rest) = id ∷ b1 ∷ b0 ∷ take (b1 % 16 * 256 + b0) rest
section_behind _ = []

unfoldable pub section_of : Bytes → Bytes
section_of packet = section_at (payload_of packet)
  where
    section_at : Bytes → Bytes
    section_at [] = []
    section_at (pointer ∷ rest) = section_behind (drop pointer rest)

section_of-table_packet :
    (pid count id b1 b0 : ℕ) (body : Bytes)
    → let section = id ∷ b1 ∷ b0 ∷ body in
      b1 % 16 * 256 + b0 ≡ length body + 4
      → section_of (table_packet pid count section) ≡ section ++ crc_bytes (mpeg_crc32 section)
unfolding section_of table_packet
section_of-table_packet pid count id b1 b0 body h =
    let section = id ∷ b1 ∷ b0 ∷ body in
    let c = crc_bytes (mpeg_crc32 section) in
    let fill : Bytes = replicate (packet_size - (9 + length section)) 0xff in
    let size : length (body ++ c) ≡ b1 % 16 * 256 + b0 =
      unfold crc_bytes in omega (arith, length-append body (crc_bytes (mpeg_crc32 section))) in
    rw (payload_plain true pid count (0 ∷ section ++ c ++ fill)) (
      unfold section_behind in
      ap (λ t. id ∷ b1 ∷ b0 ∷ t) (take_front (b1 % 16 * 256 + b0) (body ++ c) fill size))

length-table_packet :
    (pid count : ℕ) (section : Bytes)
    → length section ≤ 179
    → length (table_packet pid count section) ≡ 188
unfolding table_packet crc_bytes
length-table_packet pid count section small =
    let c = crc_bytes (mpeg_crc32 section) in
    let fill : Bytes = replicate (packet_size - (9 + length section)) 0xff in
    omega (
      arith,
      length-append (section ++ c) fill,
      length-append section c,
      length-replicate {A = ℕ} (packet_size - (9 + length section)) 0xff,
    )

length-pmt_body : (m : Mux) → length (pmt_body m) ≤ 29
unfolding pmt_body audio_es
length-pmt_body m = ground arith

-- The 12 bits of a length below 256.
length_bytes :
    (n : ℕ) → n < 256 → bit_or 0xb0 (bit_and (n / 2 ^ 8) 0x0f) % 16 * 256 + bit_and n 0xff ≡ n
length_bytes n h =
    let high : bit_and (n / 2 ^ 8) 0x0f ≡ 0 = omega (arith, and_mask 4 (n / 2 ^ 8)) in
    rw high (omega (arith, and_mask 8 n))

-- The checksum of ISO 13818-1, bit by bit.
unfoldable pub crc_bitwise : ℕ → Bytes → ℕ
crc_bitwise crc [] = crc
crc_bitwise crc (b ∷ s) = crc_bitwise (crc_bits 8 (bit_xor crc (b * 2 ^ 24))) s

abbrev muxed : ℕ → ℕ → ℕ → Mux
muxed video audio channels = record (init video audio channels 0) { audio_channels = channels }

-- A table that a receiver with the standard's checksum takes, for the first `n` channel counts.
unfoldable standard_below : ℕ → ℕ → ℕ → Bool
standard_below video audio zero = true
standard_below video audio (suc n) =
    let section = pmt_section (muxed video audio n) in
    (crc_bitwise 0xffff_ffff (section ++ crc_bytes (mpeg_crc32 section)) == 0)
    && standard_below video audio n

standard_at :
    (video audio channels n : ℕ)
    → channels < n
    → standard_below video audio n ≡ true
    → let section = pmt_section (muxed video audio channels) in
      crc_bitwise 0xffff_ffff (section ++ crc_bytes (mpeg_crc32 section)) ≡ 0
unfolding standard_below
standard_at video audio channels zero l h = absurd (omega arith)
standard_at video audio channels (suc n) l h = elim (Bool-cases (channels == n)) [
  | inl same ↦ let e : channels ≡ n = ground arith in rw e (ground arith)
  | inr apart ↦ standard_at video audio channels n (ground arith) (ground arith)
]

run_h264_none : standard_below stream_h264 stream_none 9 ≡ true
unfolding standard_below crc_bitwise crc_bits crc_bit crc_bytes mpeg_crc32 crc_from crc_step
    crc32_table pmt_section pmt_body audio_es init
run_h264_none = refl

run_h264_aac : standard_below stream_h264 stream_aac 9 ≡ true
unfolding standard_below crc_bitwise crc_bits crc_bit crc_bytes mpeg_crc32 crc_from crc_step
    crc32_table pmt_section pmt_body audio_es init
run_h264_aac = refl

run_h264_opus : standard_below stream_h264 stream_opus 9 ≡ true
unfolding standard_below crc_bitwise crc_bits crc_bit crc_bytes mpeg_crc32 crc_from crc_step
    crc32_table pmt_section pmt_body audio_es init
run_h264_opus = refl

run_h265_none : standard_below stream_h265 stream_none 9 ≡ true
unfolding standard_below crc_bitwise crc_bits crc_bit crc_bytes mpeg_crc32 crc_from crc_step
    crc32_table pmt_section pmt_body audio_es init
run_h265_none = refl

run_h265_aac : standard_below stream_h265 stream_aac 9 ≡ true
unfolding standard_below crc_bitwise crc_bits crc_bit crc_bytes mpeg_crc32 crc_from crc_step
    crc32_table pmt_section pmt_body audio_es init
run_h265_aac = refl

run_h265_opus : standard_below stream_h265 stream_opus 9 ≡ true
unfolding standard_below crc_bitwise crc_bits crc_bit crc_bytes mpeg_crc32 crc_from crc_step
    crc32_table pmt_section pmt_body audio_es init
run_h265_opus = refl

-- For H.264 or H.265 video with no audio, AAC or Opus and up to 8 channels the PMT and its checksum
-- have remainder 0 under the standard's bit-by-bit checksum.
pmt_section-crc_bitwise :
    (video audio channels : ℕ)
    → (video ≡ stream_h264) ⊎ (video ≡ stream_h265)
    → (audio ≡ stream_none) ⊎ ((audio ≡ stream_aac) ⊎ (audio ≡ stream_opus))
    → channels ≤ 8
    → let section = pmt_section (muxed video audio channels) in
      crc_bitwise 0xffff_ffff (section ++ crc_bytes (mpeg_crc32 section)) ≡ 0
pmt_section-crc_bitwise video audio channels v a h =
    standard_at video audio channels 9 (omega arith) (runs v a)
  where
    runs :
        (video ≡ stream_h264) ⊎ (video ≡ stream_h265)
        → (audio ≡ stream_none) ⊎ ((audio ≡ stream_aac) ⊎ (audio ≡ stream_opus))
        → standard_below video audio 9 ≡ true
    runs (inl v) (inl a) = rw (v, a) run_h264_none
    runs (inl v) (inr (inl a)) = rw (v, a) run_h264_aac
    runs (inl v) (inr (inr a)) = rw (v, a) run_h264_opus
    runs (inr v) (inl a) = rw (v, a) run_h265_none
    runs (inr v) (inr (inl a)) = rw (v, a) run_h265_aac
    runs (inr v) (inr (inr a)) = rw (v, a) run_h265_opus

-- A receiver: the packet identifier, the one that the first program of a PAT has for its PMT, and
-- the types and the identifiers of the streams of a PMT, up to its checksum.
unfoldable pub pid_of : Bytes → ℕ
pid_of (b0 ∷ b1 ∷ b2 ∷ rest) = b1 % 32 * 256 + b2
pid_of _ = 0

unfoldable pub program_pid : Bytes → ℕ
program_pid section = pid_of (drop 9 section)

unfoldable pub streams_from : ℕ → Bytes → List ℕ
streams_from (suc fuel) (kind ∷ p1 ∷ p0 ∷ n1 ∷ n0 ∷ rest) =
    kind ∷ (p1 % 32 * 256 + p0) ∷ streams_from fuel (drop (n1 % 16 * 256 + n0) rest)
streams_from _ _ = []

unfoldable pub streams_of : Bytes → List ℕ
streams_of section = behind_info (drop 10 section)
  where
    behind_info : Bytes → List ℕ
    behind_info (n1 ∷ n0 ∷ rest) = streams_from 8 (drop (n1 % 16 * 256 + n0) rest)
    behind_info _ = []

abbrev pub first_byte : Bytes → ℕ
first_byte [] = 0
first_byte (b ∷ s) = b

-- A packet of 188 bytes behind the sync byte, with a section of this type whose checksum, computed
-- as the standard has it, comes out as 0.
pub record IsTable (kind : ℕ) (packet : Bytes) : Type 0 where
  pub size : length packet ≡ 188
  pub sync : first_byte packet ≡ 0x47
  pub table : first_byte (section_of packet) ≡ kind
  pub checked : crc_bitwise 0xffff_ffff (section_of packet) ≡ 0

-- The two packets of the tables of these streams.
abbrev pub AreTables : Mux → List Bytes → Type 0
AreTables m (pat ∷ pmt ∷ []) =
    IsTable 0 pat
    × IsTable 2 pmt
    × (pid_of pat ≡ 0)
    × (program_pid (section_of pat) ≡ pid_of pmt)
    × (streams_of (section_of pmt)
        ≡ m.video_stream_type
          ∷ pid_video
          ∷ (if m.audio_stream_type == stream_none
              then []
              else m.audio_stream_type ∷ pid_audio ∷ []))
AreTables m _ = ⊥

table_packet-IsTable :
    (pid count id b1 b0 : ℕ) (body : Bytes)
    → let section = id ∷ b1 ∷ b0 ∷ body in
      b1 % 16 * 256 + b0 ≡ length body + 4
      → length body ≤ 176
      → crc_bitwise 0xffff_ffff (section ++ crc_bytes (mpeg_crc32 section)) ≡ 0
      → IsTable id (table_packet pid count section)
table_packet-IsTable pid count id b1 b0 body h small zero_rest =
    let found = section_of-table_packet pid count id b1 b0 body h in
    record {
      size = length-table_packet pid count (id ∷ b1 ∷ b0 ∷ body) (omega arith);
      sync = unfold table_packet in refl;
      table = ap first_byte found;
      checked = ap (crc_bitwise 0xffff_ffff) found ∙ zero_rest;
    }

pat_checked : crc_bitwise 0xffff_ffff (pat_section ++ crc_bytes (mpeg_crc32 pat_section)) ≡ 0
unfolding crc_bitwise crc_bits crc_bit crc_bytes mpeg_crc32 crc_from crc_step crc32_table
    pat_section
pat_checked = refl

streams_found :
    (m : Mux) (c : Bytes)
    → (m.audio_stream_type ≡ stream_none)
      ⊎ ((m.audio_stream_type ≡ stream_aac) ⊎ (m.audio_stream_type ≡ stream_opus))
    → length c ≡ 4
    → streams_of (pmt_section m ++ c)
      ≡ m.video_stream_type
        ∷ pid_video
        ∷ (if m.audio_stream_type == stream_none then [] else m.audio_stream_type ∷ pid_audio ∷ [])
unfolding streams_of streams_from pmt_section pmt_body audio_es
streams_found m (a ∷ b ∷ c ∷ d ∷ []) (inl k) l = rw k refl
streams_found m (a ∷ b ∷ c ∷ d ∷ []) (inr (inl k)) l = rw k refl
streams_found m (a ∷ b ∷ c ∷ d ∷ []) (inr (inr k)) l = rw k refl
streams_found m [] k l = absurd (omega (arith, l))
streams_found m (a ∷ []) k l = absurd (omega (arith, l))
streams_found m (a ∷ b ∷ []) k l = absurd (omega (arith, l))
streams_found m (a ∷ b ∷ c ∷ []) k l = absurd (omega (arith, l))
streams_found m (a ∷ b ∷ c ∷ d ∷ e ∷ s) k l = absurd (omega (arith, l))

pmt_section-muxed :
    (m : Mux)
    → pmt_section m ≡ pmt_section (muxed m.video_stream_type m.audio_stream_type m.audio_channels)
unfolding pmt_section pmt_body init
pmt_section-muxed m = refl

-- With room for two packets, H.264 or H.265 video, no audio, AAC or Opus and up to 8 channels,
-- rss_ts_write_pat_pmt writes two packets of 188 bytes. A receiver finds in them a PAT and a PMT
-- behind the pointer field, as long as they say and with remainder 0 under the checksum of the
-- standard; the PAT names the packet of the PMT, and the PMT the types of the streams with the
-- identifiers of their packets.
pub write_pat_pmt-AreTables :
    (m : Mux) (buf_size : ℕ)
    → 376 ≤ buf_size
    → (m.video_stream_type ≡ stream_h264) ⊎ (m.video_stream_type ≡ stream_h265)
    → (m.audio_stream_type ≡ stream_none)
      ⊎ ((m.audio_stream_type ≡ stream_aac) ⊎ (m.audio_stream_type ≡ stream_opus))
    → m.audio_channels ≤ 8
    → AreTables m (write_pat_pmt m buf_size).0
unfolding write_pat_pmt
write_pat_pmt-AreTables m buf_size h video audio channels =
    let room : ltb buf_size (packet_size * 2) ≡ false = ground arith in
    let fits = length_bytes (length (pmt_body m) + 4) (omega (arith, length-pmt_body m)) in
    let small : length (pmt_body m) ≤ 176 = omega (arith, length-pmt_body m) in
    let checked =
      pmt_section-crc_bitwise m.video_stream_type m.audio_stream_type m.audio_channels video audio
        channels in
    let sum : crc_bitwise 0xffff_ffff (pmt_section m ++ crc_bytes (mpeg_crc32 (pmt_section m)))
        ≡ 0 =
      rw (pmt_section-muxed m) checked in
    let found : section_of (table_packet pid_pmt m.cc_pmt (pmt_section m))
        ≡ pmt_section m ++ crc_bytes (mpeg_crc32 (pmt_section m)) =
      unfold pmt_section in section_of-table_packet pid_pmt m.cc_pmt 2 _ _ (pmt_body m) fits in
    let found_pat : section_of (table_packet pid_pat m.cc_pat pat_section)
        ≡ pat_section ++ crc_bytes (mpeg_crc32 pat_section) =
      unfold pat_section in section_of-table_packet pid_pat m.cc_pat 0 0xb0 13 _ refl in
    let named : program_pid (pat_section ++ crc_bytes (mpeg_crc32 pat_section))
        ≡ pid_of (table_packet pid_pmt m.cc_pmt (pmt_section m)) =
      unfold program_pid pid_of table_packet pat_section in refl in
    rw room (
      (unfold pat_section in
          table_packet-IsTable pid_pat m.cc_pat 0 0xb0 13 _ refl (omega arith)
            (unfold pat_section in pat_checked)),
      (unfold pmt_section in
          table_packet-IsTable pid_pmt m.cc_pmt 2 _ _ (pmt_body m) fits small
            (unfold pmt_section in sum)),
      (unfold pid_of table_packet in refl),
      (ap program_pid found_pat ∙ named),
      ap streams_of found
          ∙ streams_found m (crc_bytes (mpeg_crc32 (pmt_section m))) audio
              (unfold crc_bytes in refl),
    )
