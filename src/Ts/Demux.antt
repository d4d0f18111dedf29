-- ===== src/Ts/Demux.antt =====
-- A receiver for one packet of `write_pes_packets` (src/rss_ts.c), as ISO 13818-1 describes it.
use raptor_common.Base.Bits.{bit_and, bit_or, or_shifted, and_mask}
use raptor_common.Base.Slices.{drop_front}
use raptor_common.Base.{
  ℕ, ◌+◌, ◌-◌, ◌/◌, ◌%◌, ◌≤◌, ◌<◌, Bool, true, false, ◌||◌, [], ◌∷◌, ◌++◌, ◌≡◌, refl, arith,
  Bool-cases, inl, inr, ltb, ◌==◌, if◌then◌else◌, length, take, drop, replicate, Bytes,
  length-append, length-take, length-replicate,
}
use raptor_common.Ts.Packets.{
  write_pcr, packet_head, first_field, stuff_field, adapt_size, copied, pes_packet, pes_taken,
}

-- A receiver: bit 5 of byte 3 announces an adaptation field, whose first byte is its length.
abbrev pub behind_field : Bytes → Bytes
behind_field [] = []
behind_field (n ∷ rest) = drop n rest

unfoldable pub payload_of : Bytes → Bytes
payload_of (b0 ∷ b1 ∷ b2 ∷ b3 ∷ rest) = if b3 / 32 % 2 == 1 then behind_field rest else rest
payload_of _ = []

-- The counter of a packet: the low four bits of byte 3.
unfoldable pub counter_of : Bytes → ℕ
counter_of (b0 ∷ b1 ∷ b2 ∷ b3 ∷ rest) = b3 % 16
counter_of _ = 0

control_byte :
    (cc : ℕ)
    → (bit_or 0x30 (bit_and cc 0x0f) ≡ 48 + cc % 16)
      × (bit_or 0x10 (bit_and cc 0x0f) ≡ 16 + cc % 16)
control_byte cc = (
  omega (arith, and_mask 4 cc, or_shifted 4 3 (bit_and cc 0x0f) (omega (arith, and_mask 4 cc))),
  omega (arith, and_mask 4 cc, or_shifted 4 1 (bit_and cc 0x0f) (omega (arith, and_mask 4 cc))),
)

-- A packet with an adaptation field of `n` bytes behind its length byte.
payload-field :
    (start : Bool) (pid cc n : ℕ) (field data' : Bytes)
    → length field ≡ n
    → payload_of (packet_head start pid 0x30 cc (n ∷ (field ++ data'))) ≡ data'
unfolding payload_of
payload-field start pid cc n field data' h =
    ground (arith, (control_byte cc).0, drop_front n field data' h)

pub payload_plain :
    (start : Bool) (pid cc : ℕ) (data' : Bytes)
    → payload_of (packet_head start pid 0x10 cc data') ≡ data'
unfolding payload_of
payload_plain start pid cc data' = ground (arith, (control_byte cc).1)

pub length-copied :
    (n : ℕ) (hdr payload : Bytes)
    → n ≤ length hdr + length payload
    → length (copied n hdr payload) ≡ n
length-copied n hdr payload h = omega (
  arith,
  length-append (take n hdr) (take (n - length hdr) payload),
  length-take n hdr,
  length-take (n - length hdr) payload,
)

-- A packet is 188 bytes long, carries what the loop says it takes, and its counter.
pub record IsPacket (cc n : ℕ) (hdr payload p : Bytes) : Type 0 where
  pub size : length p ≡ 188
  pub carries : payload_of p ≡ copied n hdr payload
  pub counts : counter_of p ≡ cc % 16

module _ (start : Bool) (pid cc n : ℕ) (hdr payload : Bytes)
    (enough : n ≤ length hdr + length payload) where
  field-IsPacket :
      (k : ℕ) (field : Bytes)
      → length field ≡ k
      → 5 + k + n ≡ 188
      → IsPacket cc n hdr payload
          (packet_head start pid 0x30 cc (k ∷ (field ++ copied n hdr payload)))
  field-IsPacket k field h e = record {
    size =
        omega
          (arith, length-append field (copied n hdr payload), length-copied n hdr payload enough);
    carries = payload-field start pid cc k field (copied n hdr payload) h;
    counts = unfold counter_of in omega (arith, (control_byte cc).0);
  }

  plain-IsPacket :
      n ≡ 184 → IsPacket cc n hdr payload (packet_head start pid 0x10 cc (copied n hdr payload))
  plain-IsPacket e = record {
    size = omega (arith, length-copied n hdr payload enough);
    carries = payload_plain start pid cc (copied n hdr payload);
    counts = unfold counter_of in omega (arith, (control_byte cc).1);
  }

module _ (pid pcr cc : ℕ) (hdr payload : Bytes) where
  abbrev left : ℕ
  left = length hdr + length payload

  -- The field of a first packet: 8 bytes with a clock reference and 2 without, and the stuffing.
  first_field-IsPacket :
      (has_pcr is_rai : Bool) (stuff n : ℕ)
      → n ≤ left
      → 4 + (2 + (if has_pcr then 6 else 0)) + stuff + n ≡ 188
      → IsPacket cc n hdr payload (
          packet_head true pid 0x30 cc
            (first_field pcr has_pcr is_rai stuff ++ copied n hdr payload))
  first_field-IsPacket true is_rai stuff n h e =
      field-IsPacket true pid cc n hdr payload h ((1 + 6 + stuff) % 256)
        (bit_or 0x10 (if is_rai then 0x40 else 0) ∷ (write_pcr pcr ++ replicate stuff 0xff))
        (unfold write_pcr in omega (arith, length-replicate {A = ℕ} stuff 0xff)) (omega arith)
  first_field-IsPacket false is_rai stuff n h e =
      field-IsPacket true pid cc n hdr payload h ((1 + 0 + stuff) % 256)
        (bit_or 0 (if is_rai then 0x40 else 0) ∷ replicate stuff 0xff)
        (omega (arith, length-replicate {A = ℕ} stuff 0xff)) (omega arith)

  stuff_field-IsPacket :
      (start : Bool) (stuff n : ℕ)
      → n ≤ left
      → 0 < stuff
      → 4 + stuff + n ≡ 188
      → IsPacket cc n hdr payload
          (packet_head start pid 0x30 cc (stuff_field stuff ++ copied n hdr payload))
  stuff_field-IsPacket start stuff n h pos e = elim (Bool-cases (stuff == 1)) [
    | inl one ↦ rw one (field-IsPacket start pid cc n hdr payload h 0 [] refl (ground arith))
    | inr more ↦
        let two : 2 ≤ stuff = ground arith in
        rw more (
          field-IsPacket start pid cc n hdr payload h ((stuff - 1) % 256)
            (0 ∷ replicate (stuff - 2) 0xff)
            (omega (arith, length-replicate {A = ℕ} (stuff - 2) 0xff)) (omega arith))
  ]

  -- Each packet of the loop, first or later, full or last, with or without a clock reference.
  with_field-IsPacket :
      (has_pcr is_rai : Bool)
      → (has_pcr || is_rai) ≡ true
      → IsPacket cc
          (pes_taken pid pcr has_pcr is_rai true hdr payload)
          hdr
          payload
          (pes_packet pid pcr has_pcr is_rai true cc hdr payload)
  unfolding pes_packet pes_taken
  with_field-IsPacket true is_rai some_field = elim (Bool-cases (ltb left 176)) [
    | inl last ↦
        rw last (first_field-IsPacket true is_rai (176 - left) left (omega arith) (ground arith))
    | inr full ↦ rw full (first_field-IsPacket true is_rai 0 176 (ground arith) (omega arith))
  ]
  with_field-IsPacket false true some_field = elim (Bool-cases (ltb left 182)) [
    | inl last ↦
        rw last (first_field-IsPacket false true (182 - left) left (omega arith) (ground arith))
    | inr full ↦ rw full (first_field-IsPacket false true 0 182 (ground arith) (omega arith))
  ]
  with_field-IsPacket false false some_field = absurd (ground arith)

  no_field-IsPacket :
      (has_pcr is_rai first : Bool)
      → adapt_size first has_pcr is_rai ≡ 0
      → IsPacket cc
          (pes_taken pid pcr has_pcr is_rai first hdr payload)
          hdr
          payload
          (pes_packet pid pcr has_pcr is_rai first cc hdr payload)
  unfolding pes_packet pes_taken
  no_field-IsPacket has_pcr is_rai first none = elim (Bool-cases (ltb left 184)) [
    | inl last ↦
        rw (none, last)
          (stuff_field-IsPacket first (184 - left) left (omega arith) (ground arith) (ground arith))
    | inr full ↦ rw (none, full) (plain-IsPacket first pid cc 184 hdr payload (ground arith) refl)
  ]

  pub pes_packet-IsPacket :
      (has_pcr is_rai first : Bool)
      → IsPacket cc
          (pes_taken pid pcr has_pcr is_rai first hdr payload)
          hdr
          payload
          (pes_packet pid pcr has_pcr is_rai first cc hdr payload)
  pes_packet-IsPacket true is_rai true = with_field-IsPacket true is_rai refl
  pes_packet-IsPacket false true true = with_field-IsPacket false true refl
  pes_packet-IsPacket false false true = no_field-IsPacket false false true refl
  pes_packet-IsPacket has_pcr is_rai false = no_field-IsPacket has_pcr is_rai false refl
