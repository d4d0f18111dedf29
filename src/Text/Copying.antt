-- ===== src/Text/Copying.antt =====
-- `rss_strlcpy` and `rss_trim` (src/rss_util.c).
use raptor_common.Base.{
  ℕ, zero, suc, ◌≤◌, ◌<◌, ◌≡◌, refl, ◌↔◌, [], ◌∷◌, ◌++◌, arith, some, take, drop, length,
  length-take, take-append-drop, Bytes, ap,
}
use raptor_common.Text.{strlcpy}

pub take_all : (n : ℕ) (s : Bytes) → length s ≤ n → take n s ≡ s
take_all zero [] h = refl
take_all (suc n) [] h = refl
take_all zero (c ∷ s) h = elim h [ ]
take_all (suc n) (c ∷ s) h = ap (◌∷◌ c) (take_all n s (omega arith))

-- The copy never passes the buffer, NUL included, it is the source if that fits and a prefix of
-- it otherwise, and the result tells the two apart.
strlcpy_lem :
    (dst src : Bytes) (size : ℕ)
    → 0 < size
    → (length (strlcpy dst (some src) size).0 < size)
      × ((rest : Bytes) × ((strlcpy dst (some src) size).0 ++ rest ≡ src))
      × (((strlcpy dst (some src) size).1 < size) ↔ ((strlcpy dst (some src) size).0 ≡ src))
unfolding strlcpy
strlcpy_lem dst src zero h = elim h [ ]
strlcpy_lem dst src (suc n) h = (
  omega (arith, length-take n src),
  (drop n src, take-append-drop n src),
  (λ p. take_all n src (omega arith), λ e. omega (arith, length-take n src, ap length e)),
)

pub strlcpy_fits :
    (dst src : Bytes) (n : ℕ) → length src ≤ n → (strlcpy dst (some src) (suc n)).0 ≡ src
unfolding strlcpy
strlcpy_fits dst src n h = take_all n src h
