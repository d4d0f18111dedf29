-- ===== src/Http/Base64.antt =====
-- The encoding of RFC 4648 and `rss_base64_decode` (src/rss_http.c).
use raptor_common.Base.Bits.{bit_or, or_aligned}
use raptor_common.Base.{
  ℕ, zero, suc, ◌+◌, ◌-◌, ◌*◌, ◌/◌, ◌%◌, ◌^◌, ◌≤◌, ◌<◌, Bool, true, false, ◌&&◌, not, [], ◌∷◌, some,
  leb, ◌==◌, length, ltb, if◌then◌else◌, Bytes, ◌≡◌, refl, arith, Bool-cases, inl, inr,
}
use raptor_common.Http.{b64_entry, b64_table, cons, b64_loop, base64_decode}

-- The alphabet of table 1 of the RFC.
unfoldable pub sextet : ℕ → ℕ
sextet v =
    if ltb v 26
    then b'A' + v
    else if ltb v 52
    then b'a' + (v - 26)
    else if ltb v 62
    then b'0' + (v - 52)
    else if v == 62
    then b'+'
    else b'/'

-- Section 4 of the RFC: three bytes are four characters, and the last group is padded.
unfoldable pub encode : Bytes → Bytes
encode (a ∷ b ∷ c ∷ s) =
    sextet (a / 4)
    ∷ sextet (a % 4 * 16 + b / 16)
    ∷ sextet (b % 16 * 4 + c / 64)
    ∷ sextet (c % 64)
    ∷ encode s
encode (a ∷ b ∷ []) =
    sextet (a / 4) ∷ sextet (a % 4 * 16 + b / 16) ∷ sextet (b % 16 * 4) ∷ b'=' ∷ []
encode (a ∷ []) = sextet (a / 4) ∷ sextet (a % 4 * 16) ∷ b'=' ∷ b'=' ∷ []
encode [] = []

unfoldable sextets_ok : ℕ → Bool
sextets_ok zero = true
sextets_ok (suc n) = (b64_table (sextet n) == n && not (sextet n == b'=')) && sextets_ok n

sextet_at :
    (v n : ℕ)
    → v < n
    → sextets_ok n ≡ true
    → (b64_table (sextet v) ≡ v) × ((sextet v == b'=') ≡ false)
unfolding sextets_ok
sextet_at v zero l h = absurd (omega arith)
sextet_at v (suc n) l h = elim (Bool-cases (v == n)) [
  | inl same ↦ let e : v ≡ n = ground arith in rw e (ground arith, ground arith)
  | inr apart ↦ sextet_at v n (ground arith) (ground arith)
]

all_sextets : sextets_ok 64 ≡ true
unfolding sextets_ok sextet b64_table b64_entry
all_sextets = refl

abbrev shifted_in : ℕ → ℕ → ℕ
shifted_in buf v = buf * 2 ^ 6 % 2 ^ 32 + v

or_sextet : (buf v : ℕ) → v < 64 → bit_or (buf * 2 ^ 6 % 2 ^ 32) v ≡ shifted_in buf v
or_sextet buf v l = or_aligned 6 (buf * 2 ^ 6 % 2 ^ 32) v (omega arith) l

-- One character of the alphabet in the loop, without bits left over and with them.
step_first :
    (v : ℕ) (s : Bytes) (buf room : ℕ)
    → v < 64
    → b64_loop (sextet v ∷ s) buf 0 room ≡ b64_loop s (shifted_in buf v) 6 room
unfolding b64_loop
step_first v s buf room l =
    let (t, e) = sextet_at v 64 l all_sextets in
    let k : (v == 0xff) ≡ false = ground arith in rw (t, e, k, or_sextet buf v l) refl

step_emit :
    (bits v : ℕ) (s : Bytes) (buf room : ℕ)
    → v < 64
    → b64_loop (sextet v ∷ s) buf (bits + 2) (suc room)
      ≡ cons (shifted_in buf v / 2 ^ bits % 256) (b64_loop s (shifted_in buf v) bits room)
unfolding b64_loop
step_emit bits v s buf room l =
    let (t, e) = sextet_at v 64 l all_sextets in
    let k : (v == 0xff) ≡ false = ground arith in
    let f : leb 8 (bits + 2 + 6) ≡ true = ground arith in
    let b : bits + 2 + 6 - 8 ≡ bits = omega arith in
    let r : (suc room == 0) ≡ false = ground arith in
    let r' : suc room - 1 ≡ room = omega arith in rw (t, e, k, f, or_sextet buf v l, b, r, r') refl

abbrev pub IsBytes : Bytes → Type 0
IsBytes [] = Unit
IsBytes (b ∷ s) = (b < 256) × IsBytes s

padded : (s : Bytes) (buf bits room : ℕ) → b64_loop (b'=' ∷ s) buf bits room ≡ some []
unfolding b64_loop
padded s buf bits room = refl

-- Two characters give a byte, and the third and the fourth one more each.
module _ (v1 v2 : ℕ) (s : Bytes) (buf room : ℕ) (p : v1 < 64) (q : v2 < 64) where
  two_steps :
      b64_loop (sextet v1 ∷ sextet v2 ∷ s) buf 0 (suc room)
      ≡ cons (v1 * 4 + v2 / 16) (b64_loop s (shifted_in (shifted_in buf v1) v2) 4 room)
  two_steps =
      let e : shifted_in (shifted_in buf v1) v2 / 2 ^ 4 % 256 ≡ v1 * 4 + v2 / 16 = omega arith in
      rw
        (
          step_first v1 (sextet v2 ∷ s) buf (suc room) p,
          step_emit 4 v2 s (shifted_in buf v1) room q,
          e,
        )
        refl

  third_step :
      (v3 : ℕ)
      → v3 < 64
      → b64_loop (sextet v3 ∷ s) (shifted_in buf v2) 4 (suc room)
        ≡ cons (v2 % 16 * 16 + v3 / 4) (b64_loop s (shifted_in (shifted_in buf v2) v3) 2 room)
  third_step v3 r =
      let e : shifted_in (shifted_in buf v2) v3 / 2 ^ 2 % 256 ≡ v2 % 16 * 16 + v3 / 4 =
        omega arith in
      rw (step_emit 2 v3 s (shifted_in buf v2) room r, e) refl

  fourth_step :
      b64_loop (sextet v2 ∷ s) (shifted_in buf v1) 2 (suc room)
      ≡ cons (v1 % 4 * 64 + v2) (b64_loop s (shifted_in (shifted_in buf v1) v2) 0 room)
  fourth_step =
      let e : shifted_in (shifted_in buf v1) v2 / 2 ^ 0 % 256 ≡ v1 % 4 * 64 + v2 = omega arith in
      rw (step_emit 0 v2 s (shifted_in buf v1) room q, e) refl

b64_loop-encode :
    (s : Bytes) (buf room : ℕ)
    → IsBytes s
    → length s ≤ room
    → b64_loop (encode s) buf 0 room ≡ some s
unfolding encode
b64_loop-encode [] buf room h l = unfold b64_loop in refl
b64_loop-encode (a ∷ []) buf zero h l = absurd (omega arith)
b64_loop-encode (a ∷ []) buf (suc r) h l =
    let bound : a < 256 = h.0 in
    let first : a / 4 * 4 + a % 4 * 16 / 16 ≡ a = omega arith in
    rw
      (
        two_steps (a / 4) (a % 4 * 16) (b'=' ∷ b'=' ∷ []) buf r (omega arith) (omega arith),
        padded (b'=' ∷ []) (shifted_in (shifted_in buf (a / 4)) (a % 4 * 16)) 4 r,
        first,
      )
      refl
b64_loop-encode (a ∷ b ∷ []) buf zero h l = absurd (omega arith)
b64_loop-encode (a ∷ b ∷ []) buf (suc zero) h l = absurd (omega arith)
b64_loop-encode (a ∷ b ∷ []) buf (suc (suc r)) h l =
    let bound : a < 256 = h.0 in
    let bound' : b < 256 = h.1.0 in
    let v2 = a % 4 * 16 + b / 16 in
    let v3 = b % 16 * 4 in
    let buf1 = shifted_in buf (a / 4) in
    let first : a / 4 * 4 + v2 / 16 ≡ a = omega arith in
    let second : v2 % 16 * 16 + v3 / 4 ≡ b = omega arith in
    rw
      (
        two_steps (a / 4) v2 (sextet v3 ∷ b'=' ∷ []) buf (suc r) (omega arith) (omega arith),
        third_step 0 v2 (b'=' ∷ []) buf1 r (omega arith) (omega arith) v3 (omega arith),
        padded [] (shifted_in (shifted_in buf1 v2) v3) 2 r,
        first,
        second,
      )
      refl
b64_loop-encode (a ∷ b ∷ c ∷ s) buf zero h l = absurd (omega arith)
b64_loop-encode (a ∷ b ∷ c ∷ s) buf (suc zero) h l = absurd (omega arith)
b64_loop-encode (a ∷ b ∷ c ∷ s) buf (suc (suc zero)) h l = absurd (omega arith)
b64_loop-encode (a ∷ b ∷ c ∷ s) buf (suc (suc (suc r))) h l =
    let bound : a < 256 = h.0 in
    let bound' : b < 256 = h.1.0 in
    let bound'' : c < 256 = h.1.1.0 in
    let v2 = a % 4 * 16 + b / 16 in
    let v3 = b % 16 * 4 + c / 64 in
    let buf1 = shifted_in buf (a / 4) in
    let buf2 = shifted_in buf1 v2 in
    let first : a / 4 * 4 + v2 / 16 ≡ a = omega arith in
    let second : v2 % 16 * 16 + v3 / 4 ≡ b = omega arith in
    let third : v3 % 4 * 64 + c % 64 ≡ c = omega arith in
    rw
      (
        two_steps (a / 4) v2 (sextet v3 ∷ sextet (c % 64) ∷ encode s) buf (suc (suc r))
            (omega arith) (omega arith),
        third_step 0 v2 (sextet (c % 64) ∷ encode s) buf1 (suc r) (omega arith) (omega arith) v3
            (omega arith),
        fourth_step v3 (c % 64) (encode s) buf2 r (omega arith) (omega arith),
        b64_loop-encode s (shifted_in (shifted_in buf2 v3) (c % 64)) r h.1.1.1 (omega arith),
        first,
        second,
        third,
      )
      refl

-- Decoding what RFC 4648 encodes gives the bytes again, if the output has room for them.
pub base64_decode-encode :
    (s : Bytes) (out_max : ℕ)
    → IsBytes s
    → length s ≤ out_max
    → base64_decode (encode s) out_max ≡ some s
unfolding base64_decode
base64_decode-encode s out_max h l = b64_loop-encode s 0 out_max h l
