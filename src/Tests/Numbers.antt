-- ===== src/Tests/Numbers.antt =====
-- The integer getters at a concrete input, with a reader of decimal numbers for strtol.
use native.Mathlib.Nat.{pow-suc}
use raptor_common.Base.Int.{ℤ, pos, negsuc}
use raptor_common.Base.{
  ℕ, zero, suc, ◌+◌, ◌-◌, ◌*◌, ◌/◌, ◌%◌, ◌^◌, ◌<◌, Bool, true, [], ◌∷◌, ◌++◌, Option, none, some,
  ltb, leb, ◌==◌, length, length-append, if◌then◌else◌, Bytes, codes, ◌≡◌, refl, ap, ◌∙◌, arith,
}
use raptor_common.Config.Numbers.{decimal, int_text, IsInt, set_int, get_int, get_int-set_int}

unfoldable digits_from : ℕ → Bytes → ℕ
digits_from acc [] = acc
digits_from acc (c ∷ s) = digits_from (acc * 10 + (c - b'0')) s

abbrev negated : ℕ → ℤ
negated zero = pos 0
negated (suc n) = negsuc n

unfoldable strtol : Bytes → Option ℤ
unfolding digits_from
strtol [] = none
strtol (c ∷ s) =
    if c == b'-' then some (negated (digits_from 0 s)) else some (pos (digits_from 0 (c ∷ s)))

digits_from_last :
    (s : Bytes) (acc d : ℕ) → digits_from acc (s ++ (b'0' + d) ∷ []) ≡ digits_from acc s * 10 + d
unfolding digits_from
digits_from_last [] acc d = omega arith
digits_from_last (c ∷ s) acc d = digits_from_last s (acc * 10 + (c - b'0')) d

digits_from-decimal : (f n : ℕ) → n < 10 ^ f → digits_from 0 (decimal f n) ≡ n
unfolding decimal
digits_from-decimal zero n h = unfold digits_from in omega arith
digits_from-decimal (suc f) n h =
    digits_from_last (if ltb n 10 then [] else decimal f (n / 10)) 0 (n % 10)
    ∙ ground (arith, front f n (digits_from-decimal f (n / 10) (omega (arith, pow-suc 10 f))))
  where
    front :
        (f n : ℕ)
        → digits_from 0 (decimal f (n / 10)) ≡ n / 10
        → digits_from 0 (if ltb n 10 then [] else decimal f (n / 10)) ≡ n / 10
    front f n e = unfold digits_from in ground (arith, e)

-- No digit is a sign.
abbrev no_sign : Bytes → Bool
no_sign [] = true
no_sign (c ∷ s) = leb b'0' c

no_sign-append : (s : Bytes) (d : ℕ) → no_sign s ≡ true → no_sign (s ++ (b'0' + d) ∷ []) ≡ true
no_sign-append [] d h = ground arith
no_sign-append (c ∷ s) d h = h

no_sign-decimal : (f n : ℕ) → no_sign (decimal f n) ≡ true
unfolding decimal
no_sign-decimal zero n = refl
no_sign-decimal (suc f) n =
    no_sign-append (if ltb n 10 then [] else decimal f (n / 10)) (n % 10)
      (ground (arith, no_sign-decimal f (n / 10)))

decimal_nonempty : (f n : ℕ) → 0 < length (decimal (suc f) n)
unfolding decimal
decimal_nonempty f n =
    omega
      (arith, length-append (if ltb n 10 then [] else decimal f (n / 10)) ((b'0' + n % 10) ∷ []))

strtol_unsigned :
    (s : Bytes) (n : ℕ)
    → no_sign s ≡ true
    → digits_from 0 s ≡ n
    → (0 < length s)
    → strtol s ≡ some (pos n)
unfolding strtol
strtol_unsigned [] n h e p = absurd (omega arith)
strtol_unsigned (c ∷ s) n h e p = ground (arith, h, e)

strtol-int_text : (v : ℤ) → IsInt v → strtol (int_text v) ≡ some v
unfolding int_text
strtol-int_text (pos n) h =
    strtol_unsigned (decimal 10 n) n (no_sign-decimal 10 n) (digits_from-decimal 10 n (omega arith))
      (decimal_nonempty 9 n)
strtol-int_text (negsuc n) h =
    unfold strtol in ap (λ m. some (negated m)) (digits_from-decimal 10 (suc n) (omega arith))

get_int-set_int_example :
    get_int strtol
      (set_int [] (some (codes "net")) (codes "port") (negsuc 7))
      (some (codes "net"))
      (codes "port")
      (pos 1)
    ≡ (negsuc 7, set_int [] (some (codes "net")) (codes "port") (negsuc 7))
get_int-set_int_example =
    get_int-set_int strtol strtol-int_text [] (codes "net") (codes "port") (negsuc 7) (pos 1)
      (omega arith) (λ h. cc) (omega arith) (omega arith)
