-- ===== src/Jpeg/Signed.antt =====
-- `rss_jpeg_sign` and `rss_jpeg_verify` (src/rss_jpeg.c) together.
use raptor_common.Base.Slices.{take_front, drop_front, get_or_front, get_or_behind, get_or-take}
use raptor_common.Base.{
  ℕ, ◌+◌, ◌-◌, ◌≤◌, Bool, true, false, ◌||◌, [], ◌∷◌, ◌++◌, some, ltb, length, take, drop, Bytes,
  ◌≡◌, refl, ap, ◌∙◌, arith, Bool-cases, inl, inr, length-append, length-take,
}
use raptor_common.Jpeg.{
  sig_segment, SignKey, signed, verified, byte_at, no_start, no_end, segment, sign, verify_segment,
  verify, sign_uuid,
}
use raptor_common.Text.Copying.{take_all}
use raptor_common.Text.{str_eq}

abbrev eoi : Bytes
eoi = 0xff ∷ 0xd9 ∷ []

-- A segment whose fingerprint and signature have their sizes, behind the bytes that are signed.
module _ (front f sig : Bytes) (f8 : length f ≡ 8) (s64 : length sig ≡ 64) where
  abbrev seg : Bytes
  seg = segment f sig

  abbrev out : Bytes
  out = front ++ seg

  length-f : length (take 8 f) ≡ 8
  length-f = omega (arith, length-take 8 f)

  length-sig : length (take 64 sig) ≡ 64
  length-sig = omega (arith, length-take 64 sig)

  length-out : length out ≡ length front + 95
  length-out = omega (
    arith,
    length-append front seg,
    length-append (take 8 f) (take 64 sig ++ eoi),
    length-append (take 64 sig) eoi,
    length-f,
    length-sig,
  )

  last_bytes :
      (k m n : ℕ) → m ≡ 64 + k → n ≡ length front + (93 + k) → byte_at out n ≡ byte_at eoi k
  last_bytes k m n e h =
      get_or_behind front seg (93 + k) n 0 h
      ∙ get_or_behind (0xff ∷ 0xef ∷ 0 ∷ 91 ∷ (sign_uuid ++ 1 ∷ []))
          (take 8 f ++ (take 64 sig ++ eoi)) (72 + k) (93 + k) 0 (omega arith)
      ∙ get_or_behind (take 8 f) (take 64 sig ++ eoi) m (72 + k) 0 (omega (arith, length-f))
      ∙ get_or_behind (take 64 sig) eoi k m 0 (omega (arith, length-sig))

  ends : no_end out ≡ false
  ends =
      let first = last_bytes 0 64 (length out - 2) refl (omega (arith, length-out)) in
      let second = last_bytes 1 65 (length out - 1) refl (omega (arith, length-out)) in
      rw (first, second) refl

  read_fingerprint : take 8 (drop 21 seg) ≡ take 8 f
  read_fingerprint = take_front 8 (take 8 f) (take 64 sig ++ eoi) length-f

  read_signature : take 64 (drop 29 seg) ≡ take 64 sig
  read_signature =
      ap (take 64) (drop_front 8 (take 8 f) (take 64 sig ++ eoi) length-f)
      ∙ take_front 64 (take 64 sig) eoi length-sig

  starts : 2 ≤ length front → no_start out ≡ no_start front
  starts h =
      rw (get_or_front front seg 0 0 (omega arith), get_or_front front seg 1 0 (omega arith)) refl

  verify-segment :
      (check : Bytes → Bytes → Bytes → Bool) (public : Bytes)
      → 2 ≤ length front
      → no_start front ≡ false
      → check sig public front ≡ true
      → verify check out (some public) ≡ verified f
  unfolding verify verify_segment str_eq
  verify-segment check public h s c =
      let place : length out - 2 - sig_segment ≡ length front = omega (arith, length-out) in
      let long : ltb (length out) 4 ≡ false = ground (arith, length-out) in
      let large : ltb (length out) (sig_segment + 4) ≡ false = ground (arith, length-out) in
      rw
        (
          place,
          drop_front (length front) front seg refl,
          take_front (length front) front seg refl,
          long,
          large,
          starts h,
          s,
          ends,
          read_fingerprint,
          read_signature,
          take_all 8 f (omega arith),
          take_all 64 sig (omega arith),
          c,
        )
        refl

front_starts : (n : ℕ) (buf : Bytes) → 2 ≤ n → no_start (take n buf) ≡ no_start buf
front_starts n buf h =
    rw (get_or-take n 0 buf 0 (omega arith), get_or-take n 1 buf 0 (omega arith)) refl

-- What is signed verifies, with the fingerprint of the key, if the signatures of the key have 64
-- bytes and fit the public key, and the fingerprint has 8 bytes.
pub verify-sign :
    (signature : Bytes → Bytes → Bytes) (check : Bytes → Bytes → Bytes → Bool) (cap : ℕ)
    (key : SignKey) (public buf out : Bytes)
    → ((message : Bytes) → length (signature key.secret message) ≡ 64)
    → ((message : Bytes) → check (signature key.secret message) public message ≡ true)
    → length key.fingerprint ≡ 8
    → sign signature cap key buf ≡ signed out
    → verify check out (some public) ≡ verified key.fingerprint
unfolding sign
verify-sign signature check cap key public buf out sized fits f8 h =
    elim (Bool-cases (ltb (length buf) 4 || no_start buf)) [
      | inl bad ↦ absurd (ground arith)
      | inr started ↦ elim (Bool-cases (no_end buf)) [
        | inl bad ↦ absurd (ground arith)
        | inr ended ↦ elim (Bool-cases (ltb cap (length buf + sig_segment))) [
          | inl full ↦ absurd (ground arith)
          | inr room ↦
              let front = take (length buf - 2) buf in
              let sig = signature key.secret front in
              let done : signed (front ++ segment key.fingerprint sig) ≡ signed out =
                ground arith in
              let e : out ≡ front ++ segment key.fingerprint sig = cc in
              let four : 4 ≤ length buf = ground arith in
              let start : no_start buf ≡ false = ground arith in
              rw e (
                verify-segment front key.fingerprint sig f8 (sized front) check public
                  (omega (arith, length-take (length buf - 2) buf))
                  (front_starts (length buf - 2) buf (omega arith) ∙ start) (fits front))
        ]
      ]
    ]
