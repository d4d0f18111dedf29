-- ===== src/Tests/Media.antt =====
-- Time stamps, transport stream packets and decoder configurations at concrete inputs.
use raptor_common.Base.Bits.{bit_or}
use raptor_common.Base.Int.{pos, ◌+ℤ◌}
use raptor_common.Base.{
  inl, inr, ◌*◌, ◌^◌, ◌≤◌, ◌<◌, true, false, [], ◌∷◌, ◌++◌, some, ◌≡◌, ◌↔◌, ◌⊎◌, refl, arith,
  length, get_or, Bool, ℕ, replicate, take, length-replicate, Bytes, codes,
}
use raptor_common.Jpeg.Signed.{verify-sign}
use raptor_common.Jpeg.{SignKey, signed, verified, segment, sign, verify}
use raptor_common.MediaClock.Steps.{IsNear, IsCurrent, map_time-IsNear}
use raptor_common.MediaClock.{Clock, initial, map_time}
use raptor_common.Text.{str_eq}
use raptor_common.Text.Names.{str_eq_iff}
use raptor_common.Sei.Parse.{found, parse_timestamp}
use raptor_common.Sei.RoundTrip.{IsFront, parse-messages, parse-build}
use raptor_common.Sei.Walk.{IsForeign, Message, messages, stamp_message}
use raptor_common.Sei.{h264, avcc, built, nal, nal_header, nal_len, build_timestamp}
use raptor_common.Ts.Crc.{crc32_table}
use raptor_common.Ts.CrcLaws.{crc_bits, crc32_table-crc_bits}
use raptor_common.Ts.Mux.{
  Mux, init, next_pcr, video_header, write_video, write_pat_pmt, stream_h264, stream_aac,
}
use raptor_common.Ts.Packets.{pes_loop, pes_taken, pid_video, write_pts, write_pes_packets}
use raptor_common.Ts.Receiver.{frame, read_pes, write_video-received}
use raptor_common.Ts.Sections.{AreTables, write_pat_pmt-AreTables}
use raptor_common.Ts.Stream.{payloads, IsSent, write_pes_packets-IsSent}

abbrev mux : Mux
mux = init stream_h264 stream_aac 2 30

abbrev picture : Bytes
picture = codes "a small picture"

write_pes_packets-IsSent_example :
    let r = write_pes_packets pid_video 5 true false 1000 7 (codes "head") picture in
    IsSent 1000 0 7 (codes "head" ++ picture) r.0 r.1
write_pes_packets-IsSent_example =
    write_pes_packets-IsSent pid_video 5 true false 1000 7 (codes "head") picture

write_pat_pmt-AreTables_example : AreTables mux (write_pat_pmt mux 376).0
unfolding init
write_pat_pmt-AreTables_example =
    write_pat_pmt-AreTables mux 376 (omega arith) (inl refl) (inr (inl refl)) (omega arith)

crc32_table-crc_bits_example :
    (get_or crc32_table 27 0 ≡ crc_bits 8 (27 * 2 ^ 24)) ↔ ((27 < 27) ⊎ (31 < 27))
crc32_table-crc_bits_example = crc32_table-crc_bits 27 (omega arith)

video_count : length (write_video mux 1000 picture 9000 6000 true).0 ≡ 1
unfolding init write_video write_pes_packets pes_loop pes_taken video_header write_pts next_pcr
video_count = refl

write_video-received_example :
    read_pes (payloads (write_video mux 1000 picture 9000 6000 true).0)
    ≡ some (frame 0xe0 9000 6000 picture)
write_video-received_example =
    write_video-received mux 1000 picture 9000 6000 true (λ h. cc) (rw video_count (omega arith))

abbrev note : Message
note = record { type = 4; payload = codes "caption" }

note-IsForeign : IsForeign note
note-IsForeign = record {
  type_short = omega arith;
  type_other = λ h. omega arith;
  size_short = omega arith;
}

abbrev sent : Bytes
sent = 0 ∷ 0 ∷ 0 ∷ nal_len h264 ∷ nal h264 1700000000 0

sent_built : build_timestamp 64 h264 avcc 1700000000 0 ≡ built sent
unfolding build_timestamp
sent_built = refl

parse-build_example :
    (length sent ≤ 64)
    × ((front : Bytes) × (body : Bytes) × (sent ≡ front ++ body)
        × IsFront avcc (length body) front
        × (parse_timestamp body h264 ≡ found 1700000000 (bit_or 0 0x1f)))
parse-build_example = parse-build 64 h264 avcc 1700000000 0 sent (omega arith) sent_built

parse-messages_example :
    parse_timestamp (nal_header h264 ++ messages (note ∷ []) (stamp_message h264 1700000000 0)) h264
    ≡ found 1700000000 (bit_or 0 0x1f)
parse-messages_example =
    parse-messages (note ∷ []) h264 1700000000 0 (λ h. cc) (omega arith) (note-IsForeign, tt)

-- A stand-in for a signature: 64 bytes that count the message.
abbrev seal : Bytes → Bytes → Bytes
seal secret message = replicate 64 (length message)

abbrev seal_fits : Bytes → Bytes → Bytes → Bool
seal_fits sig public message = str_eq sig (replicate 64 (length message))

abbrev key : SignKey
key = record { secret = []; fingerprint = codes "camera 1" }

abbrev image : Bytes
image = 0xff ∷ 0xd8 ∷ 1 ∷ 2 ∷ 0xff ∷ 0xd9 ∷ []

abbrev signed_image : Bytes
signed_image = take 4 image ++ segment key.fingerprint (seal key.secret (take 4 image))

image_signed : sign seal 200 key image ≡ signed signed_image
unfolding sign
image_signed = refl

seal-fits : (sig : Bytes) → str_eq sig sig ≡ true
seal-fits sig = (str_eq_iff sig sig).1 refl

verify-sign_example : verify seal_fits signed_image (some []) ≡ verified (codes "camera 1")
verify-sign_example =
    verify-sign seal seal_fits 200 key [] image signed_image
      (λ m. length-replicate {A = ℕ} 64 (length m)) (λ m. seal-fits (replicate 64 (length m))) refl
      image_signed

abbrev clock : Clock
clock = (map_time initial (pos 1000) (pos 1500)).1

clock_started : clock.initialized ≡ true
unfolding map_time
clock_started = refl

map_time-IsNear_example :
    let r = map_time clock (pos 41000) (pos 41900) in
    IsNear 1000 clock.offset_us r.1.offset_us
    × (r.0 ≡ pos 41000 +ℤ r.1.offset_us)
    × IsCurrent (pos 41900) r.1
map_time-IsNear_example = map_time-IsNear clock (pos 41000) (pos 41900) clock_started
