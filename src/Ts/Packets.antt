-- ===== src/Ts/Packets.antt =====
-- `write_pts`, `write_pcr` and `write_pes_packets` (src/rss_ts.c). The output is the list of the
-- packets written, each as its bytes.
use raptor_common.Base.Bits.{bit_and, bit_or}
use raptor_common.Base.{
  ℕ, zero, suc, ◌+◌, ◌-◌, ◌*◌, ◌/◌, ◌%◌, ◌^◌, Bool, true, false, ◌&&◌, ◌||◌, List, [], ◌∷◌, ◌++◌,
  ltb, ◌==◌, if◌then◌else◌, length, take, drop, replicate, Bytes,
}

-- RSS_TS_PACKET_SIZE, RSS_TS_SYNC_BYTE and the packet identifiers
abbrev pub packet_size : ℕ
packet_size = 188

abbrev pub sync_byte : ℕ
sync_byte = 0x47

abbrev pub pid_pat : ℕ
pid_pat = 0

abbrev pub pid_pmt : ℕ
pid_pmt = 0x1000

abbrev pub pid_video : ℕ
pid_video = 0x100

abbrev pub pid_audio : ℕ
pid_audio = 0x101

-- `write_pts`: five bytes of a 33-bit time, with marker bits.
unfoldable pub write_pts : ℕ → ℕ → Bytes
write_pts prefix pts =
    bit_or (bit_or (prefix * 2 ^ 4) (bit_and (pts / 2 ^ 30) 0x07 * 2)) 1 % 256
    ∷ bit_and (pts / 2 ^ 22) 0xff
    ∷ bit_or (bit_and (pts / 2 ^ 15) 0x7f * 2) 1
    ∷ bit_and (pts / 2 ^ 7) 0xff
    ∷ bit_or (bit_and pts 0x7f * 2) 1
    ∷ []

-- `write_pcr`
unfoldable pub write_pcr : ℕ → Bytes
write_pcr pcr =
    pcr / 2 ^ 25 % 256
    ∷ pcr / 2 ^ 17 % 256
    ∷ pcr / 2 ^ 9 % 256
    ∷ pcr / 2 % 256
    ∷ bit_or (bit_and pcr 1 * 2 ^ 7) 0x7e % 256
    ∷ 0
    ∷ []

-- Bytes 1 to 3 of a packet: `control` is 0x10 for payload alone and 0x30 with an adaptation field.
abbrev pub packet_head : Bool → ℕ → ℕ → ℕ → Bytes → Bytes
packet_head start pid control cc rest =
    sync_byte
    ∷ bit_or (if start then 0x40 else 0) (bit_and (pid / 2 ^ 8) 0x1f)
    ∷ bit_and pid 0xff
    ∷ bit_or control (bit_and cc 0x0f)
    ∷ rest

abbrev pub next_cc : ℕ → ℕ
next_cc cc = bit_and (cc + 1) 0x0f

-- The adaptation field with `stuff` bytes of stuffing, for a first packet that has one anyway.
abbrev pub first_field : ℕ → Bool → Bool → ℕ → Bytes
first_field pcr has_pcr is_rai stuff =
    (1 + (if has_pcr then 6 else 0) + stuff) % 256
    ∷ bit_or (if has_pcr then 0x10 else 0) (if is_rai then 0x40 else 0)
    ∷ ((if has_pcr then write_pcr pcr else []) ++ replicate stuff 0xff)

-- For any other packet the field is only stuffing: one byte is a field of length 0.
abbrev pub stuff_field : ℕ → Bytes
stuff_field stuff =
    if stuff == 1 then 0 ∷ [] else ((stuff - 1) % 256) ∷ 0 ∷ replicate (stuff - 2) 0xff

abbrev pub adapt_size : Bool → Bool → Bool → ℕ
adapt_size first has_pcr is_rai =
    if first && (has_pcr || is_rai) then 2 + (if has_pcr then 6 else 0) else 0

-- The copy loop: `n` bytes, from what is left of the PES header and then from the payload.
abbrev pub copied : ℕ → Bytes → Bytes → Bytes
copied n hdr payload = take n hdr ++ take (n - length hdr) payload

module _ (pid pcr : ℕ) (has_pcr is_rai : Bool) where
  -- One packet, from the data that is left.
  unfoldable pub pes_packet : Bool → ℕ → Bytes → Bytes → Bytes
  pes_packet first cc hdr payload =
      let adapt = adapt_size first has_pcr is_rai in
      let space = packet_size - (4 + adapt) in
      let remaining = length hdr + length payload in
      if ltb remaining space
      then packet_head first pid 0x30 cc (
          (if ltb 0 adapt
            then first_field pcr has_pcr is_rai (space - remaining)
            else stuff_field (space - remaining))
          ++ copied remaining hdr payload)
      else if ltb 0 adapt
      then packet_head first pid 0x30 cc
          (first_field pcr has_pcr is_rai 0 ++ copied space hdr payload)
      else packet_head first pid 0x10 cc (copied space hdr payload)

  -- How much of the data that packet carries.
  unfoldable pub pes_taken : Bool → Bytes → Bytes → ℕ
  pes_taken first hdr payload =
      let space = packet_size - (4 + adapt_size first has_pcr is_rai) in
      let remaining = length hdr + length payload in
      if ltb remaining space then remaining else space

  -- The loop, with the packets and the continuity counter that it leaves.
  unfoldable pub pes_loop : ℕ → ℕ → ℕ → Bool → ℕ → Bytes → Bytes → List Bytes × ℕ
  pes_loop zero buf_size written first cc hdr payload = ([], cc)
  pes_loop (suc fuel) buf_size written first cc hdr payload =
      let n = pes_taken first hdr payload in
      let rest =
        pes_loop fuel buf_size (written + packet_size) false (next_cc cc) (drop n hdr)
          (drop (n - length hdr) payload) in
      if length hdr + length payload == 0 || ltb buf_size (written + packet_size)
      then ([], cc)
      else (pes_packet first cc hdr payload ∷ rest.0, rest.1)

  -- `write_pes_packets`: every packet carries a byte at least, so a round for each byte is enough.
  unfoldable pub write_pes_packets : ℕ → ℕ → Bytes → Bytes → List Bytes × ℕ
  write_pes_packets buf_size cc hdr payload =
      pes_loop (length hdr + length payload) buf_size 0 true cc hdr payload
