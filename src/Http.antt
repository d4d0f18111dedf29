-- ===== src/Http.antt =====
-- src/rss_http.c: base64 and HTTP basic authentication. The pointers are not NULL.
pub mod Base64
pub mod Auth
use raptor_common.Base.Bits.{bit_or}
use raptor_common.Base.{
  ℕ, zero, suc, ◌+◌, ◌-◌, ◌*◌, ◌/◌, ◌%◌, ◌^◌, Bool, true, false, ◌&&◌, ◌||◌, not, List, [], ◌∷◌,
  Option, none, some, ltb, leb, ◌==◌, if◌then◌else◌, length, drop, Bytes, codes,
}
use raptor_common.Text.{starts_with_case, split_at_char, secure_compare}

abbrev pub b64_chars : Bytes
b64_chars = codes "ABCDEFGHIJKLMNOPQRSTUVWXYZabcdefghijklmnopqrstuvwxyz0123456789+/"

-- The entry of `b64_table` at `c` after the loop of `b64_ensure_init` from index `i`: 0xFF unless a
-- character is `c`.
unfoldable pub b64_entry : ℕ → Bytes → ℕ → ℕ → ℕ
b64_entry c [] i entry = entry
b64_entry c (x ∷ xs) i entry = b64_entry c xs (suc i) (if x == c then i else entry)

unfoldable pub b64_table : ℕ → ℕ
b64_table c = b64_entry c b64_chars 0 0xff

abbrev pub cons : ℕ → Option Bytes → Option Bytes
cons b none = none
cons b (some s) = some (b ∷ s)

-- The loop of `rss_base64_decode`, with the room left in `out`: `none` is -1. `buf` is a uint32_t.
unfoldable pub b64_loop : Bytes → ℕ → ℕ → ℕ → Option Bytes
b64_loop [] buf bits room = some []
b64_loop (c ∷ s) buf bits room =
    let v = b64_table c in
    let skip = v == 0xff in
    let full = leb 8 (bits + 6) in
    let buf' = if skip then buf else bit_or (buf * 2 ^ 6 % 2 ^ 32) v in
    let bits' = if skip then bits else if full then bits + 6 - 8 else bits + 6 in
    let rest = b64_loop s buf' bits' (if skip then room else if full then room - 1 else room) in
    if c == b'='
    then some []
    else if skip
    then rest
    else if full
    then (if room == 0 then none else cons (buf' / 2 ^ bits' % 256) rest)
    else rest

unfoldable pub base64_decode : Bytes → ℕ → Option Bytes
base64_decode input out_max = b64_loop input 0 0 out_max

abbrev pub needle : Bytes
needle = codes "Authorization: Basic "

-- The search for the header at the start of a line: what is behind it.
unfoldable pub find_auth : Bool → Bytes → Option Bytes
find_auth line_start [] = none
find_auth line_start (c ∷ p) =
    let rest = find_auth (c == b'\n') p in
    if line_start && starts_with_case (c ∷ p) needle
    then some (drop (length needle) (c ∷ p))
    else rest

-- The credentials, up to a white space.
unfoldable pub until_space : Bytes → Bytes
until_space [] = []
until_space (c ∷ s) = if c == b'\r' || c == b'\n' || c == b' ' then [] else c ∷ until_space s

-- A buffer as a C string.
unfoldable pub until_nul : Bytes → Bytes
until_nul [] = []
until_nul (c ∷ s) = if c == 0 then [] else c ∷ until_nul s

-- The decoded credentials against the expected ones: both comparisons are made.
unfoldable pub credentials_match : Bytes → Bytes → Bytes → Bool
credentials_match decoded user pass = elim (split_at_char b':' (until_nul decoded)) [
  | none ↦ false
  | some (name, word) ↦ secure_compare name user && secure_compare word pass
]

-- `rss_http_check_basic_auth`
unfoldable pub check_basic_auth : Bytes → Bytes → Bytes → Bool
check_basic_auth request [] pass = true
check_basic_auth request (u ∷ user) pass = elim (find_auth true request) [
  | none ↦ false
  | some auth ↦ elim (base64_decode (until_space auth) 255) [
    | none ↦ false
    | some decoded ↦
        if length decoded == 0 then false else credentials_match decoded (u ∷ user) pass
  ]
]
