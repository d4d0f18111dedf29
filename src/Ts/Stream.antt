-- ===== src/Ts/Stream.antt =====
-- The loop of `write_pes_packets` (src/rss_ts.c) as a whole.
use raptor_common.Base.Bits.{and_mask}
use mathlib.Core.List.{append_assoc}
use raptor_common.Base.{
  ℕ, zero, suc, ◌+◌, ◌-◌, ◌*◌, ◌%◌, ◌≤◌, ◌<◌, Bool, true, false, ◌||◌, List, [], ◌∷◌, ◌++◌, ◌≡◌,
  refl, ap, ◌∙◌, arith, Bool-cases, inl, inr, ◌⊎◌, ltb, ◌==◌, length, take, drop, Bytes,
  length-drop, take-append-drop,
}
use raptor_common.Ts.Demux.{payload_of, counter_of, IsPacket, pes_packet-IsPacket}
use raptor_common.Ts.Packets.{packet_size, next_cc, copied, pes_taken, pes_loop, write_pes_packets}

abbrev pub payloads : List Bytes → Bytes
payloads [] = []
payloads (p ∷ ps) = payload_of p ++ payloads ps

-- Packets of 188 bytes whose counters go up by one from `cc`, mod 16.
abbrev pub AreNumbered : ℕ → List Bytes → Type 0
AreNumbered cc [] = Unit
AreNumbered cc (p ∷ ps) = (length p ≡ 188) × (counter_of p ≡ cc % 16) × AreNumbered (cc + 1) ps

-- What was sent: the data up to some place, all of it unless the buffer has no room for one more
-- packet.
pub record IsSent (buf_size written cc : ℕ) (sent : Bytes) (packets : List Bytes) (cc' : ℕ)
    : Type 0 where
  pub unsent : Bytes
  pub splits : payloads packets ++ unsent ≡ sent
  pub stops : (unsent ≡ []) ⊎ (buf_size < written + 188 * (length packets + 1))
  pub fits : written + 188 * length packets ≤ buf_size
  pub numbered : AreNumbered cc packets
  pub counter : cc' % 16 ≡ (cc + length packets) % 16

copied_split :
    (n m : ℕ) (hdr payload : Bytes)
    → m ≡ n - length hdr
    → (take n hdr ++ take m payload) ++ (drop n hdr ++ drop m payload) ≡ hdr ++ payload
copied_split zero m [] payload e = take-append-drop m payload
copied_split (suc n) m [] payload e = take-append-drop m payload
copied_split zero zero (x ∷ h) payload e = refl
copied_split zero (suc m) (x ∷ h) payload e = absurd (omega arith)
copied_split (suc n) m (x ∷ h) payload e = ap (◌∷◌ x) (copied_split n m h payload (omega arith))

AreNumbered-mod :
    (a b : ℕ) (ps : List Bytes) → a % 16 ≡ b % 16 → AreNumbered a ps → AreNumbered b ps
AreNumbered-mod a b [] e h = tt
AreNumbered-mod a b (p ∷ ps) e h =
    (h.0, h.1 ∙ e, AreNumbered-mod (a + 1) (b + 1) ps (omega arith) h.2)

-- The loop ends: nothing is left, or there is no room.
stop-IsSent :
    (buf_size written cc : ℕ) (hdr payload : Bytes)
    → written ≤ buf_size
    → (length hdr + length payload ≡ 0) ⊎ (buf_size < written + 188)
    → IsSent buf_size written cc (hdr ++ payload) [] cc
stop-IsSent buf_size written cc hdr payload w h = record {
  unsent = hdr ++ payload;
  splits = refl;
  stops = why hdr payload h;
  fits = omega arith;
  numbered = tt;
  counter = omega arith;
}
  where
    why :
        (hdr payload : Bytes)
        → (length hdr + length payload ≡ 0) ⊎ (buf_size < written + 188)
        → (hdr ++ payload ≡ []) ⊎ (buf_size < written + 188 * (0 + 1))
    why [] [] h = inl refl
    why (x ∷ hdr) payload (inl e) = absurd (omega arith)
    why [] (x ∷ payload) (inl e) = absurd (omega arith)
    why (x ∷ hdr) payload (inr r) = inr (omega arith)
    why [] (x ∷ payload) (inr r) = inr (omega arith)

-- One packet, and then what the rest of the loop sends.
send-IsSent :
    (buf_size written cc n : ℕ) (hdr payload p : Bytes) (ps : List Bytes) (cc' : ℕ)
    → IsPacket cc n hdr payload p
    → IsSent buf_size
        (written + 188)
        (next_cc cc)
        (drop n hdr ++ drop (n - length hdr) payload)
        ps
        cc'
    → IsSent buf_size written cc (hdr ++ payload) (p ∷ ps) cc'
send-IsSent buf_size written cc n hdr payload p ps cc' k r = record {
  unsent = r.unsent;
  splits = rw k.carries (
      append_assoc (copied n hdr payload) (payloads ps) r.unsent
      ∙ ap (λ t. copied n hdr payload ++ t) r.splits
      ∙ copied_split n (n - length hdr) hdr payload refl);
  stops = elim r.stops [ inl e ↦ inl e | inr e ↦ inr (omega arith) ];
  fits = omega (arith, r.fits);
  numbered = (
    k.size,
    k.counts,
    AreNumbered-mod (next_cc cc) (cc + 1) ps (omega (arith, and_mask 4 (cc + 1))) r.numbered,
  );
  counter = omega (arith, r.counter, and_mask 4 (cc + 1));
}

module _ (pid pcr : ℕ) (has_pcr is_rai : Bool) where
  pes_taken_bounds :
      (first : Bool) (hdr payload : Bytes)
      → (pes_taken pid pcr has_pcr is_rai first hdr payload ≤ length hdr + length payload)
        × (0 < length hdr + length payload → 0 < pes_taken pid pcr has_pcr is_rai first hdr payload)
  unfolding pes_taken
  pes_taken_bounds first hdr payload = ground arith

  pes_loop-IsSent :
      (fuel buf_size written : ℕ) (first : Bool) (cc : ℕ) (hdr payload : Bytes)
      → length hdr + length payload ≤ fuel
      → written ≤ buf_size
      → let r = pes_loop pid pcr has_pcr is_rai fuel buf_size written first cc hdr payload in
        IsSent buf_size written cc (hdr ++ payload) r.0 r.1
  unfolding pes_loop
  pes_loop-IsSent zero buf_size written first cc hdr payload h w =
      stop-IsSent buf_size written cc hdr payload w (inl (omega arith))
  pes_loop-IsSent (suc fuel) buf_size written first cc hdr payload h w =
      elim (Bool-cases (length hdr + length payload == 0 || ltb buf_size (written + packet_size))) [
        | inl stop ↦ rw stop (stop-IsSent buf_size written cc hdr payload w (ground arith))
        | inr go ↦
            let n = pes_taken pid pcr has_pcr is_rai first hdr payload in
            let (most, some_data) = pes_taken_bounds first hdr payload in
            rw go (
              send-IsSent buf_size written cc n hdr payload _ _ _
                (pes_packet-IsPacket pid pcr cc hdr payload has_pcr is_rai first)
                (pes_loop-IsSent fuel buf_size (written + packet_size) false (next_cc cc)
                  (drop n hdr) (drop (n - length hdr) payload)
                  (ground (arith, length-drop n hdr, length-drop (n - length hdr) payload))
                  (ground arith)))
      ]

  -- `write_pes_packets` writes whole packets of 188 bytes that fit the buffer, with continuity
  -- counters that go up by one mod 16 and a counter left for the next call; a receiver that joins
  -- their payloads has the PES header and the payload, cut short only where the buffer has no room
  -- for one more packet.
  pub write_pes_packets-IsSent :
      (buf_size cc : ℕ) (hdr payload : Bytes)
      → let r = write_pes_packets pid pcr has_pcr is_rai buf_size cc hdr payload in
        IsSent buf_size 0 cc (hdr ++ payload) r.0 r.1
  unfolding write_pes_packets
  write_pes_packets-IsSent buf_size cc hdr payload =
      pes_loop-IsSent (length hdr + length payload) buf_size 0 true cc hdr payload (omega arith)
        (omega arith)
