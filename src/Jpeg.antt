-- ===== src/Jpeg.antt =====
-- Signing and verification in src/rss_jpeg.c. The pointers are not NULL, but for the public key of a
-- verification. `signature` and `check` stand for crypto_ed25519_sign and crypto_ed25519_check of
-- monocypher: the 64 bytes for a secret key and a message, and whether they fit a public key.
pub mod Signed
pub mod Exif
pub mod Stamped
use raptor_common.Base.{
  ℕ, ◌+◌, ◌-◌, ◌/◌, ◌%◌, Bool, ◌||◌, not, List, [], ◌∷◌, ◌++◌, Option, none, some, ltb, ◌==◌,
  if◌then◌else◌, length, take, drop, get_or, Bytes,
}
use raptor_common.Text.{str_eq}

abbrev pub sign_uuid : Bytes
sign_uuid =
    0xb0 ∷ 0x50 ∷ 0xbf ∷ 0x07 ∷ 0x88 ∷ 0x56 ∷ 0x45 ∷ 0x98 ∷ 0x86 ∷ 0x9e ∷ 0x44 ∷ 0xc4 ∷ 0xdc ∷ 0x20
    ∷ 0x8f ∷ 0x26 ∷ []

-- RSS_JPEG_SIG_SEGMENT
abbrev pub sig_segment : ℕ
sig_segment = 93

-- The members of `rss_sign_key_t` that a signature takes.
pub record SignKey : Type 0 where
  pub secret : Bytes
  pub fingerprint : Bytes

pub data Refusal : Type 0 where
  invalid no_space absent mismatch : Refusal

pub data SignResult : Type 0 where
  signed : Bytes → SignResult
  not_signed : Refusal → SignResult

-- `verified` is 0 and `unchecked` is 1, both with the fingerprint that is handed out.
pub data Verdict : Type 0 where
  verified : Bytes → Verdict
  unchecked : Bytes → Verdict
  rejected : Refusal → Verdict

abbrev pub byte_at : Bytes → ℕ → ℕ
byte_at buf i = get_or buf i 0

abbrev pub no_start : Bytes → Bool
no_start buf = not (byte_at buf 0 == 0xff) || not (byte_at buf 1 == 0xd8)

abbrev pub no_end : Bytes → Bool
no_end buf =
    not (byte_at buf (length buf - 2) == 0xff) || not (byte_at buf (length buf - 1) == 0xd9)

-- The APP15 segment in front of the EOI marker, and the marker.
abbrev pub segment : Bytes → Bytes → Bytes
segment fingerprint sig =
    0xff
    ∷ 0xef
    ∷ (sig_segment - 2) / 256
    ∷ (sig_segment - 2) % 256
    ∷ (sign_uuid ++ 1 ∷ (take 8 fingerprint ++ (take 64 sig ++ 0xff ∷ 0xd9 ∷ [])))

module _ (signature : Bytes → Bytes → Bytes) where
  -- `rss_jpeg_sign` in a buffer of `cap` bytes
  unfoldable pub sign : ℕ → SignKey → Bytes → SignResult
  sign cap key buf =
      let pos = length buf - 2 in
      if ltb (length buf) 4 || no_start buf
      then not_signed invalid
      else if no_end buf
      then not_signed invalid
      else if ltb cap (length buf + sig_segment)
      then not_signed no_space
      else signed (take pos buf ++ segment key.fingerprint (signature key.secret (take pos buf)))

module _ (check : Bytes → Bytes → Bytes → Bool) where
  -- The segment is there: its version, the fingerprint and the signature.
  unfoldable pub verify_segment : Bytes → Bytes → Option Bytes → Verdict
  verify_segment image seg public =
      let fingerprint = take 8 (drop 21 seg) in
      if not (byte_at seg 20 == 1) then rejected mismatch else elim public [
        | none ↦ unchecked fingerprint
        | some key ↦
            if not (check (take 64 (drop 29 seg)) key image)
            then rejected mismatch
            else verified fingerprint
      ]

  -- `rss_jpeg_verify`
  unfoldable pub verify : Bytes → Option Bytes → Verdict
  unfolding verify_segment
  verify buf public =
      let seg = drop (length buf - 2 - sig_segment) buf in
      if ltb (length buf) 4
      then rejected invalid
      else if no_start buf || no_end buf
      then rejected invalid
      else if ltb (length buf) (sig_segment + 4)
      then rejected absent
      else if (not (byte_at seg 0 == 0xff) || not (byte_at seg 1 == 0xef))
          || not (str_eq (take 16 (drop 4 seg)) sign_uuid)
      then rejected absent
      else verify_segment (take (length buf - 2 - sig_segment) buf) seg public
