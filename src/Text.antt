-- ===== src/Text.antt =====
-- C strings, from src/rss_util.c and the parts of <ctype.h>, <string.h> and <strings.h> that the
-- library calls. A string is the list of its bytes in front of the NUL.
pub mod Names
pub mod Copying
pub mod Compare
use raptor_common.Base.{
  ℕ, zero, suc, ◌+◌, Bool, true, false, ◌&&◌, ◌||◌, Option, none, some, List, [], ◌∷◌, map, leb,
  ltb, ◌<◌, ◌==◌, if◌then◌else◌, length, take, Bytes,
}
use raptor_common.Base.Bits.{bit_or, bit_xor}

-- `tolower` in the C locale.
unfoldable pub lower : ℕ → ℕ
lower c = if leb b'A' c && leb c b'Z' then c + 32 else c

-- `isspace` in the C locale: tab to carriage return, and the space.
unfoldable pub is_space : ℕ → Bool
is_space c = (leb 9 c && leb c 13) || c == 32

-- `strcmp(a, b) == 0`
unfoldable pub str_eq : Bytes → Bytes → Bool
str_eq [] [] = true
str_eq (x ∷ xs) (y ∷ ys) = x == y && str_eq xs ys
str_eq _ _ = false

unfoldable pub fold_case : Bytes → Bytes
fold_case = map lower

-- `strcasecmp(a, b) == 0`
unfoldable pub case_eq : Bytes → Bytes → Bool
unfolding fold_case
case_eq a b = str_eq (fold_case a) (fold_case b)

-- `strncmp(s, prefix, strlen(prefix)) == 0`
unfoldable pub starts_with : Bytes → Bytes → Bool
starts_with s [] = true
starts_with [] (p ∷ ps) = false
starts_with (c ∷ s) (p ∷ ps) = c == p && starts_with s ps

-- `strncasecmp(s, prefix, strlen(prefix)) == 0`
unfoldable pub starts_with_case : Bytes → Bytes → Bool
unfolding fold_case starts_with
starts_with_case s p = starts_with (fold_case s) (fold_case p)

-- `strchr`, as the bytes in front of the first `c` and those behind it.
unfoldable pub split_at_char : ℕ → Bytes → Option (Bytes × Bytes)
split_at_char c [] = none
split_at_char c (x ∷ s) =
    if x == c
    then some ([], s)
    else elim (split_at_char c s) [ none ↦ none | some (a, b) ↦ some (x ∷ a, b) ]

-- The two loops of `rss_trim`: white space in front, and white space behind.
unfoldable pub trim_front : Bytes → Bytes
trim_front [] = []
trim_front (c ∷ s) = if is_space c then trim_front s else c ∷ s

unfoldable pub trim_back : Bytes → Bytes
trim_back [] = []
trim_back (c ∷ s) = elim (trim_back s) [
  | [] ↦ if is_space c then [] else c ∷ []
  | x ∷ r ↦ c ∷ x ∷ r
]

unfoldable pub trim : Bytes → Bytes
trim s = trim_back (trim_front s)

-- `rss_strlcpy`: what the destination holds afterwards, and the length returned. `none` is a NULL
-- source; a destination of size 0 stays as it was.
unfoldable pub strlcpy : Bytes → Option Bytes → ℕ → Bytes × ℕ
strlcpy dst src zero = (dst, 0)
strlcpy dst none (suc room) = ([], 0)
strlcpy dst (some src) (suc room) = (take room src, length src)

-- The loop of `rss_secure_compare` over the padded buffers: past its end a string reads as NUL.
unfoldable pub diff_loop : ℕ → Bytes → Bytes → ℕ → ℕ
diff_loop zero a b diff = diff
diff_loop (suc n) [] [] diff = diff_loop n [] [] (bit_or diff (bit_xor 0 0))
diff_loop (suc n) (x ∷ a) [] diff = diff_loop n a [] (bit_or diff (bit_xor x 0))
diff_loop (suc n) [] (y ∷ b) diff = diff_loop n [] b (bit_or diff (bit_xor 0 y))
diff_loop (suc n) (x ∷ a) (y ∷ b) diff = diff_loop n a b (bit_or diff (bit_xor x y))

unfoldable pub secure_compare : Bytes → Bytes → Bool
secure_compare a b =
    if ltb 255 (length a) || ltb 255 (length b) then false else diff_loop 256 a b 0 == 0

-- No byte is NUL: what every C string satisfies.
abbrev pub NoNul : Bytes → Type 0
NoNul [] = Unit
NoNul (c ∷ s) = (0 < c) × NoNul s
