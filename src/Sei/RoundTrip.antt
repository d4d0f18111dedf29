-- ===== src/Sei/RoundTrip.antt =====
-- Builder and parser of src/rss_sei.c together.
use raptor_common.Base.Bits.{bit_or, or_zero}
use raptor_common.Base.{
  ℕ, ◌+◌, ◌<◌, ◌≤◌, ◌^◌, Bool, false, ◌&&◌, ◌||◌, List, [], ◌∷◌, ◌++◌, ◌*◌, leb, ◌==◌, length,
  Bytes, ◌≡◌, ◌≢◌, refl, ap, arith, ◌∙◌, length-append, ◌↔◌,
}
use raptor_common.Sei.{
  Codec, h264, h265, other, Prefix, bare, annexb, avcc, unknown, byte_of, stamp, nal, nal_header,
  build_timestamp, built, nal_len, prefix_len,
}
use raptor_common.Sei.Parse.{found, header_fits, parse_timestamp}
use raptor_common.Sei.Walk.{Message, AllForeign, messages, stamp_message, walk-messages}

length-messages :
    (ms : List Message) (rest : Bytes) → length ms + length rest ≤ length (messages ms rest)
length-messages [] rest = omega arith
length-messages (m ∷ ms) rest =
    omega (arith, length-messages ms rest, length-append m.payload (messages ms rest))

-- In a NAL of either codec the parser finds the time stamp behind any number of other messages,
-- each of another type, with type and size of one byte. It returns the 64-bit time unchanged and
-- the status with its reserved bits set.
pub parse-messages :
    (ms : List Message) (codec : Codec) (utc_us status : ℕ)
    → codec ≢ other
    → utc_us < 2 ^ 64
    → AllForeign ms
    → parse_timestamp (nal_header codec ++ messages ms (stamp_message codec utc_us status)) codec
      ≡ found utc_us (bit_or status 0x1f)
unfolding parse_timestamp header_fits
parse-messages ms h264 us status ne h f =
    walk-messages ms _ h264 us status ne h f
      (omega (arith, length-messages ms (stamp_message h264 us status)))
parse-messages ms h265 us status ne h f =
    walk-messages ms _ h265 us status ne h f
      (omega (arith, length-messages ms (stamp_message h265 us status)))
parse-messages ms other us status ne h f = absurd (ne refl)

-- What stands in front of a NAL of `n` bytes: nothing, a start code, or the number, highest byte
-- first.
abbrev pub IsFront : Prefix → ℕ → Bytes → Type 0
IsFront annexb n front = front ≡ 0 ∷ 0 ∷ 0 ∷ 1 ∷ []
IsFront avcc n (a ∷ b ∷ c ∷ d ∷ []) = a * 2 ^ 24 + b * 2 ^ 16 + c * 2 ^ 8 + d ≡ n
IsFront avcc n _ = ⊥
IsFront bare n front = front ≡ []
IsFront unknown n front = ⊥

IsFront-length :
    (prefix : Prefix) (n : ℕ) (front : Bytes)
    → IsFront prefix n front
    → length front ≡ prefix_len prefix
IsFront-length bare n front h = ap length h
IsFront-length annexb n front h = ap length h
IsFront-length avcc n (a ∷ b ∷ c ∷ d ∷ []) h = refl
IsFront-length avcc n [] h = absurd h
IsFront-length avcc n (a ∷ []) h = absurd h
IsFront-length avcc n (a ∷ b ∷ []) h = absurd h
IsFront-length avcc n (a ∷ b ∷ c ∷ []) h = absurd h
IsFront-length avcc n (a ∷ b ∷ c ∷ d ∷ e ∷ s) h = absurd h
IsFront-length unknown n front h = absurd h

-- What a successful build has passed and written.
record IsBuilt (cap : ℕ) (codec : Codec) (prefix : Prefix) (us status : ℕ) (out : Bytes)
    : Type 0 where
  known_codec : codec ≢ other
  known_prefix : prefix ≢ unknown
  front : Bytes
  framing : IsFront prefix (nal_len codec) front
  written : out ≡ front ++ nal codec us status
  room : prefix_len prefix + nal_len codec ≤ cap

abbrev avcc_front : ℕ → Bytes
avcc_front n = byte_of n 24 ∷ byte_of n 16 ∷ byte_of n 8 ∷ byte_of n 0 ∷ []

build-IsBuilt :
    (cap : ℕ) (codec : Codec) (prefix : Prefix) (us status : ℕ) (out : Bytes)
    → build_timestamp cap codec prefix us status ≡ built out
    → IsBuilt cap codec prefix us status out
unfolding build_timestamp
build-IsBuilt cap other prefix us status out e = absurd (ground arith)
build-IsBuilt cap codec unknown us status out e = absurd (ground arith)
build-IsBuilt cap h264 bare us status out e = record {
  known_codec = λ h. cc;
  known_prefix = λ h. cc;
  front = [];
  framing = refl;
  written = ground arith;
  room = ground arith;
}
build-IsBuilt cap h265 bare us status out e = record {
  known_codec = λ h. cc;
  known_prefix = λ h. cc;
  front = [];
  framing = refl;
  written = ground arith;
  room = ground arith;
}
build-IsBuilt cap h264 annexb us status out e = record {
  known_codec = λ h. cc;
  known_prefix = λ h. cc;
  front = 0 ∷ 0 ∷ 0 ∷ 1 ∷ [];
  framing = refl;
  written = ground arith;
  room = ground arith;
}
build-IsBuilt cap h265 annexb us status out e = record {
  known_codec = λ h. cc;
  known_prefix = λ h. cc;
  front = 0 ∷ 0 ∷ 0 ∷ 1 ∷ [];
  framing = refl;
  written = ground arith;
  room = ground arith;
}
build-IsBuilt cap h264 avcc us status out e = record {
  known_codec = λ h. cc;
  known_prefix = λ h. cc;
  front = avcc_front (nal_len h264);
  framing = refl;
  written = ground arith;
  room = ground arith;
}
build-IsBuilt cap h265 avcc us status out e = record {
  known_codec = λ h. cc;
  known_prefix = λ h. cc;
  front = avcc_front (nal_len h265);
  framing = refl;
  written = ground arith;
  room = ground arith;
}

parse-nal :
    (codec : Codec) (us status : ℕ)
    → codec ≢ other
    → us < 2 ^ 64
    → (parse_timestamp (nal codec us status) codec ≡ found us (bit_or status 0x1f))
      × (length (nal codec us status) ≡ nal_len codec)
parse-nal h264 us status ne h = (parse-messages [] h264 us status ne h tt, refl)
parse-nal h265 us status ne h = (parse-messages [] h265 us status ne h tt, refl)
parse-nal other us status ne h = absurd (ne refl)

-- Whatever rss_sei_build_timestamp returns fits the buffer and is a NAL behind the framing that was
-- asked for: nothing, a start code, or four bytes with the length of what follows; from the NAL
-- rss_sei_parse_timestamp reads the 64-bit time back, with the reserved status bits set.
pub parse-build :
    (cap : ℕ) (codec : Codec) (prefix : Prefix) (utc_us status : ℕ) (out : Bytes)
    → utc_us < 2 ^ 64
    → build_timestamp cap codec prefix utc_us status ≡ built out
    → (length out ≤ cap)
      × ((front : Bytes) × (body : Bytes) × (out ≡ front ++ body)
          × IsFront prefix (length body) front
          × (parse_timestamp body codec ≡ found utc_us (bit_or status 0x1f)))
parse-build cap codec prefix us status out h e =
    let b = build-IsBuilt cap codec prefix us status out e in
    let body = nal codec us status in
    let (read, size) = parse-nal codec us status b.known_codec h in
    (
      omega (
        arith,
        ap length b.written,
        length-append b.front body,
        size,
        IsFront-length prefix (nal_len codec) b.front b.framing,
        b.room,
      ),
      (b.front, body, b.written, rw size b.framing, read),
    )

-- The builder succeeds exactly for a known codec and prefix and a buffer that is large enough.
build_iff :
    (cap : ℕ) (codec : Codec) (prefix : Prefix) (utc_us status : ℕ)
    → ((out : Bytes) × (build_timestamp cap codec prefix utc_us status ≡ built out))
      ↔ ((codec ≢ other) × (prefix ≢ unknown) × (prefix_len prefix + nal_len codec ≤ cap))
build_iff cap codec prefix us status = (
  λ (out, e).
      let b = build-IsBuilt cap codec prefix us status out e in
      (b.known_codec, b.known_prefix, b.room),
  λ (c, p, room). succeeds codec prefix c p room,
)
  where
    succeeds :
        (codec : Codec) (prefix : Prefix)
        → codec ≢ other
        → prefix ≢ unknown
        → prefix_len prefix + nal_len codec ≤ cap
        → (out : Bytes) × (build_timestamp cap codec prefix us status ≡ built out)
    succeeds other prefix c p room = absurd (c refl)
    succeeds codec unknown c p room = absurd (p refl)
    succeeds codec bare c p room = (nal codec us status, unfold build_timestamp in ground arith)
    succeeds codec annexb c p room =
        (0 ∷ 0 ∷ 0 ∷ 1 ∷ nal codec us status, unfold build_timestamp in ground arith)
    succeeds codec avcc c p room =
        (avcc_front (nal_len codec) ++ nal codec us status, unfold build_timestamp in ground arith)

-- Two zero bytes and a third that is at most 3: what a decoder would take for a start code or an
-- emulation-prevention byte.
unfoldable pub needs_escape : Bytes → Bool
needs_escape (a ∷ b ∷ c ∷ s) = (a == 0 && b == 0 && leb c 3) || needs_escape (b ∷ c ∷ s)
needs_escape _ = false

visible_first :
    (a b c : ℕ) (s : Bytes) → a ≢ 0 → needs_escape (a ∷ b ∷ c ∷ s) ≡ needs_escape (b ∷ c ∷ s)
unfolding needs_escape
visible_first a b c s h = ground arith

guarded_pair :
    (a b c d : ℕ) (s : Bytes) → 3 < c → needs_escape (a ∷ b ∷ c ∷ d ∷ s) ≡ needs_escape (c ∷ d ∷ s)
guarded_pair a b c d s h = unfold needs_escape in ground arith

stamp-needs_escape : (us status : ℕ) → needs_escape (stamp us status ++ 0x80 ∷ []) ≡ false
stamp-needs_escape us status =
    visible_first (bit_or status 0x1f) (byte_of us 56) (byte_of us 48) _
      (λ e. absurd (omega (arith, (or_zero status 0x1f e).1)))
    ∙ guarded_pair (byte_of us 56) (byte_of us 48) 0xff (byte_of us 40) _ (omega arith)
    ∙ visible_first 0xff (byte_of us 40) (byte_of us 32) _ (omega arith)
    ∙ guarded_pair (byte_of us 40) (byte_of us 32) 0xff (byte_of us 24) _ (omega arith)
    ∙ visible_first 0xff (byte_of us 24) (byte_of us 16) _ (omega arith)
    ∙ guarded_pair (byte_of us 24) (byte_of us 16) 0xff (byte_of us 8) _ (omega arith)
    ∙ visible_first 0xff (byte_of us 8) (byte_of us 0) _ (omega arith)
    ∙ (unfold needs_escape in ground arith)

-- A NAL of either codec never needs emulation prevention, whatever the time and the status.
nal-needs_escape :
    (codec : Codec) (utc_us status : ℕ)
    → codec ≢ other
    → needs_escape (nal codec utc_us status) ≡ false
nal-needs_escape h264 us status ne = unfold needs_escape in stamp-needs_escape us status
nal-needs_escape h265 us status ne = unfold needs_escape in stamp-needs_escape us status
nal-needs_escape other us status ne = absurd (ne refl)
