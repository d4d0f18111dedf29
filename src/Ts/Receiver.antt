-- ===== src/Ts/Receiver.antt =====
-- A receiver for what `rss_ts_write_video` and `rss_ts_write_audio` (src/rss_ts.c) send.
use raptor_common.Base.Bits.{bit_and, bit_or, or_shifted, and_mask}
use raptor_common.Base.{
  ℕ, zero, suc, ◌+◌, ◌*◌, ◌/◌, ◌%◌, ◌^◌, ◌≤◌, ◌<◌, Bool, true, List, [], ◌∷◌, ◌++◌, Option, none,
  some, ◌≡◌, ◌≢◌, refl, ◌∙◌, ap, sym, arith, Bool-cases, inl, inr, ◌==◌, if◌then◌else◌, length,
  drop, Bytes,
}
use mathlib.Core.List.{append-nil, append_assoc}
use raptor_common.Ts.Mux.{Mux, next_pcr, video_header, write_video}
use raptor_common.Ts.Packets.{pid_video, write_pts, write_pes_packets}
use raptor_common.Ts.Stream.{payloads, IsSent, write_pes_packets-IsSent}

-- The 33 bits of a time stamp, between its marker bits.
unfoldable pub read_time : Bytes → ℕ
read_time (a ∷ b ∷ c ∷ d ∷ e ∷ _) =
    a / 2 % 8 * 2 ^ 30 + b * 2 ^ 22 + c / 2 * 2 ^ 15 + d * 2 ^ 7 + e / 2
read_time _ = 0

pub record Frame : Type 0 where
  pub stream_id : ℕ
  pub pts : ℕ
  pub dts : ℕ
  pub bytes : Bytes

-- A PES packet (ISO 13818-1, 2.4.3.6) whose optional header holds a PTS or a PTS and a DTS; without
-- a DTS it is the PTS.
unfoldable pub read_pes : Bytes → Option Frame
read_pes (zero ∷ zero ∷ suc zero ∷ id ∷ n1 ∷ n0 ∷ f ∷ flags ∷ len ∷ rest) =
    if flags / 64 == 2
    then some (record {
      stream_id = id;
      pts = read_time rest;
      dts = read_time rest;
      bytes = drop len rest;
    })
    else if flags / 64 == 3
    then some (record {
      stream_id = id;
      pts = read_time rest;
      dts = read_time (drop 5 rest);
      bytes = drop len rest;
    })
    else none
read_pes _ = none

odd_byte : (q : ℕ) → bit_or (q * 2) 1 ≡ q * 2 + 1
odd_byte q = or_shifted 1 q 1 (omega arith)

first_byte :
    (prefix x : ℕ) → x < 8 → bit_or (bit_or (prefix * 2 ^ 4) (x * 2)) 1 ≡ prefix * 16 + x * 2 + 1
first_byte prefix x h =
    let e : bit_or (prefix * 2 ^ 4) (x * 2) ≡ (prefix * 8 + x) * 2 =
      omega (arith, or_shifted 4 prefix (x * 2) (omega arith)) in
    rw e (omega (arith, odd_byte (prefix * 8 + x)))

-- Reading back a time stamp, written with a prefix of four bits, gives its low 33 bits.
pub read_time-write_pts :
    (prefix pts : ℕ) (rest : Bytes)
    → prefix < 16
    → read_time (write_pts prefix pts ++ rest) ≡ pts % 2 ^ 33
unfolding read_time write_pts
read_time-write_pts prefix pts rest h = omega (
  arith,
  and_mask 3 (pts / 2 ^ 30),
  and_mask 8 (pts / 2 ^ 22),
  and_mask 7 (pts / 2 ^ 15),
  and_mask 8 (pts / 2 ^ 7),
  and_mask 7 pts,
  first_byte prefix (bit_and (pts / 2 ^ 30) 7) (omega (arith, and_mask 3 (pts / 2 ^ 30))),
  odd_byte (bit_and (pts / 2 ^ 15) 0x7f),
  odd_byte (bit_and pts 0x7f),
)

-- The frame that the two headers announce.
abbrev pub frame : ℕ → ℕ → ℕ → Bytes → Frame
frame id pts dts data' = record {
  stream_id = id;
  pts = pts % 2 ^ 33;
  dts = dts % 2 ^ 33;
  bytes = data';
}

drop-write_pts : (prefix pts : ℕ) (rest : Bytes) → drop 5 (write_pts prefix pts ++ rest) ≡ rest
unfolding write_pts
drop-write_pts prefix pts rest = refl

read_pes-video_header :
    (pts dts : ℕ) (data' : Bytes)
    → read_pes (video_header pts dts ++ data') ≡ some (frame 0xe0 pts dts data')
unfolding read_pes video_header
read_pes-video_header pts dts data' = elim (Bool-cases (dts == pts)) [
  | inl same ↦
      let e : dts ≡ pts = ground arith in
      rw (same, drop-write_pts 2 pts data', read_time-write_pts 2 pts data' (omega arith), e) refl
  | inr apart ↦
      let w1 = write_pts 1 dts in
      rw
        (
          apart,
          append_assoc (write_pts 3 pts) w1 data',
          read_time-write_pts 3 pts (w1 ++ data') (omega arith),
          drop-write_pts 3 pts (w1 ++ data'),
          read_time-write_pts 1 dts data' (omega arith),
        )
        (unfold write_pts in refl)
]

-- With room for one more packet everything was sent.
payloads-all :
    (buf_size cc cc' : ℕ) (sent : Bytes) (packets : List Bytes)
    → IsSent buf_size 0 cc sent packets cc'
    → 188 * (length packets + 1) ≤ buf_size
    → payloads packets ≡ sent
payloads-all buf_size cc cc' sent packets s room = elim s.stops [
  | inl none_left ↦
      sym (append-nil (payloads packets))
      ∙ ap (λ t. payloads packets ++ t) (sym none_left)
      ∙ s.splits
  | inr full ↦ absurd (omega arith)
]

write_video-sent :
    (m : Mux) (buf_size : ℕ) (data' : Bytes) (pts dts : ℕ) (is_idr : Bool)
    → data' ≢ []
    → (write_video m buf_size data' pts dts is_idr).0
      ≡ (write_pes_packets pid_video
          (next_pcr m dts)
          true
          is_idr
          buf_size
          m.cc_video
          (video_header pts dts)
          data').0
unfolding write_video
write_video-sent m buf_size [] pts dts is_idr ne = absurd (ne refl)
write_video-sent m buf_size (b ∷ data') pts dts is_idr ne = ground arith

-- Unless the buffer ends with less than a packet of room, a receiver of the packets of
-- `rss_ts_write_video` has the frame again, with its time stamps mod 2^33.
pub write_video-received :
    (m : Mux) (buf_size : ℕ) (data' : Bytes) (pts dts : ℕ) (is_idr : Bool)
    → data' ≢ []
    → 188 * (length (write_video m buf_size data' pts dts is_idr).0 + 1) ≤ buf_size
    → read_pes (payloads (write_video m buf_size data' pts dts is_idr).0)
      ≡ some (frame 0xe0 pts dts data')
write_video-received m buf_size data' pts dts is_idr ne room =
    let h = video_header pts dts in
    let r = write_pes_packets pid_video (next_pcr m dts) true is_idr buf_size m.cc_video h data' in
    let e = write_video-sent m buf_size data' pts dts is_idr ne in
    rw e (
      ap read_pes (
        payloads-all buf_size m.cc_video r.1 (h ++ data') r.0
          (write_pes_packets-IsSent pid_video (next_pcr m dts) true is_idr buf_size m.cc_video h
            data')
          (rw e at room))
      ∙ read_pes-video_header pts dts data')
