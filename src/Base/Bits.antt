-- ===== src/Base/Bits.antt =====
-- `|` of disjoint fields, `&` with a mask of low bits and `^`, as arithmetic at every width.
use Prim.Native.Nat.{ℕ, zero, suc, ◌+◌, ◌-◌, ◌*◌, ◌/◌, ◌%◌, ◌^◌, ◌≤◌, ◌<◌, min, max}
use Prim.Native.Nat.{digits, differ, bit_xor-bitwise, bit_or-bitwise, bit_and-bitwise}
pub use Prim.Native.Nat.{bit_or, bit_and, bit_xor}
use mathlib.Core.Path.{◌≡◌, refl, ap, sym, ◌∙◌}
use native.Mathlib.Nat.{pow-suc, one-le-pow}
use mathlib.Core.Logic.{◌↔◌}
use native.Mathlib.Omega.{arith}

-- Any two amounts of fuel that cover the first operand give the same digits.
module _ (left : ℕ → ℕ) (both : ℕ → ℕ → ℕ) where
  digits_enough :
      (a b : ℕ) (n m : ℕ) → a ≤ n → a ≤ m → digits left both n a b ≡ digits left both m a b
  digits_enough a b n m p q = go n m a b p q
    where
      go : (n m a b : ℕ) → a ≤ n → a ≤ m → digits left both n a b ≡ digits left both m a b
      go zero zero a b p q = refl
      go (suc n) (suc m) zero b p q = refl
      go zero (suc m) zero b p q = refl
      go (suc n) zero zero b p q = refl
      go zero (suc m) (suc a) b p q = elim p [ ]
      go (suc n) zero (suc a) b p q = elim q [ ]
      go (suc n) (suc m) (suc a) b p q = rw (go n m (suc a / 2) (b / 2) (omega arith) (omega arith))

pub or_digit : (a b : ℕ) → bit_or a b ≡ 2 * bit_or (a / 2) (b / 2) + max (a % 2) (b % 2)
or_digit zero b = simp bit_or-bitwise (omega arith)
or_digit (suc a) b =
    let below : suc a / 2 ≤ a = omega arith in
    simp bit_or-bitwise (
      omega
        (arith, digits_enough (λ y. y) max (suc a / 2) (b / 2) a (suc a / 2) below (omega arith)))

pub and_digit : (a b : ℕ) → bit_and a b ≡ 2 * bit_and (a / 2) (b / 2) + min (a % 2) (b % 2)
and_digit zero b = simp bit_and-bitwise (omega arith)
and_digit (suc a) b =
    let below : suc a / 2 ≤ a = omega arith in
    simp bit_and-bitwise (
      omega (
        arith,
        digits_enough (λ y. zero) min (suc a / 2) (b / 2) a (suc a / 2) below (omega arith),
      ))

-- Both go down the digits of `a`, as many as `n` counts.
or_nothing : (n a : ℕ) → a ≤ n → bit_or a 0 ≡ a
or_nothing n zero h = refl
or_nothing zero (suc a) h = elim h [ ]
or_nothing (suc n) (suc a) h =
    omega (arith, or_digit (suc a) 0, or_nothing n (suc a / 2) (omega arith))

and_nothing : (n a : ℕ) → a ≤ n → bit_and a 0 ≡ 0
and_nothing n zero h = refl
and_nothing zero (suc a) h = elim h [ ]
and_nothing (suc n) (suc a) h =
    omega (arith, and_digit (suc a) 0, and_nothing n (suc a / 2) (omega arith))

double_pow : (q k : ℕ) → q * 2 ^ suc k ≡ 2 * (q * 2 ^ k)
double_pow q k = omega (arith, ap (λ (t : ℕ). q * t) (pow-suc 2 k))

-- `(q << k) | r` is a sum when `r` has at most `k` bits.
pub or_shifted : (k q r : ℕ) → r < 2 ^ k → bit_or (q * 2 ^ k) r ≡ q * 2 ^ k + r
or_shifted zero q r h = ground (arith, or_nothing q q)
or_shifted (suc k) q r h = ground (
  arith,
  or_digit (q * 2 ^ suc k) r,
  double_pow q k,
  pow-suc 2 k,
  or_shifted k q (r / 2) (omega (arith, pow-suc 2 k)),
)

-- The same for a left operand that is only known to end in `k` zeros.
pub or_aligned : (k a r : ℕ) → a ≡ a / 2 ^ k * 2 ^ k → r < 2 ^ k → bit_or a r ≡ a + r
or_aligned k a r e h = rw e (or_shifted k (a / 2 ^ k) r h)

and_low : (k q r : ℕ) → r < 2 ^ k → bit_and (q * 2 ^ k + r) (2 ^ k - 1) ≡ r
and_low zero q r h = rw (and_nothing (q * 1 + r) (q * 1 + r) (omega arith)) (omega arith)
and_low (suc k) q r h = ground (
  arith,
  and_digit (q * 2 ^ suc k + r) (2 ^ suc k - 1),
  double_pow q k,
  pow-suc 2 k,
  one-le-pow k 2,
  and_low k q (r / 2) (omega (arith, pow-suc 2 k)),
)

-- A mask of the `k` low bits is the remainder by `2 ^ k`.
pub and_mask : (k a : ℕ) → bit_and a (2 ^ k - 1) ≡ a % 2 ^ k
and_mask k a = ground (arith, one-le-pow k 2, and_low k (a / 2 ^ k) (a % 2 ^ k))

or_zero_digits : (n a b : ℕ) → a ≤ n → bit_or a b ≡ 0 → (a ≡ 0) × (b ≡ 0)
or_zero_digits n zero b h e = (refl, sym (bit_or-bitwise 0 b) ∙ e)
or_zero_digits zero (suc a) b h e = elim h [ ]
or_zero_digits (suc n) (suc a) b h e = ground (
  arith,
  or_digit (suc a) b,
  or_zero_digits n (suc a / 2) (b / 2) (omega arith) (omega (arith, or_digit (suc a) b)),
)

-- `|` is 0 only of two zeros.
pub or_zero : (a b : ℕ) → bit_or a b ≡ 0 → (a ≡ 0) × (b ≡ 0)
or_zero a b = or_zero_digits a a b (omega arith)

xor_digit : (a b : ℕ) → bit_xor a b ≡ 2 * bit_xor (a / 2) (b / 2) + differ (a % 2) (b % 2)
xor_digit zero b = simp bit_xor-bitwise (omega arith)
xor_digit (suc a) b =
    let below : suc a / 2 ≤ a = omega arith in
    simp bit_xor-bitwise (
      omega (
        arith,
        digits_enough (λ y. y) differ (suc a / 2) (b / 2) a (suc a / 2) below (omega arith),
      ))

xor_zero_digits : (n a b : ℕ) → a ≤ n → b ≤ n → bit_xor a b ≡ 0 → a ≡ b
xor_zero_digits zero a b h k e = omega arith
xor_zero_digits (suc n) a b h k e =
    let apart = digits_differ (a % 2) (b % 2) (omega arith) (omega arith) in
    ground (
      arith,
      xor_digit a b,
      apart,
      xor_zero_digits n (a / 2) (b / 2) (omega arith) (omega arith) (omega (arith, xor_digit a b)),
    )
  where
    digits_differ : (x y : ℕ) → x < 2 → y < 2 → differ x y ≡ 0 → x ≡ y
    digits_differ zero zero p q d = refl
    digits_differ zero (suc y) p q d = ground arith
    digits_differ (suc x) zero p q d = ground arith
    digits_differ (suc x) (suc y) p q d = omega arith

xor_self_digits : (n a : ℕ) → a ≤ n → bit_xor a a ≡ 0
xor_self_digits n zero h = refl
xor_self_digits zero (suc a) h = elim h [ ]
xor_self_digits (suc n) (suc a) h = omega (
  arith,
  xor_digit (suc a) (suc a),
  xor_self_digits n (suc a / 2) (omega arith),
  same (suc a % 2),
)
  where
    same : (x : ℕ) → differ x x ≡ 0
    same zero = refl
    same (suc x) = same x

-- `^` is 0 exactly of equal operands.
pub xor_zero_iff : (a b : ℕ) → (bit_xor a b ≡ 0) ↔ (a ≡ b)
xor_zero_iff a b = (
  xor_zero_digits (a + b) a b (omega arith) (omega arith),
  λ e. rw e (xor_self_digits b b (omega arith)),
)

xor_nothing_digits : (n a : ℕ) → a ≤ n → bit_xor a 0 ≡ a
xor_nothing_digits n zero h = refl
xor_nothing_digits zero (suc a) h = elim h [ ]
xor_nothing_digits (suc n) (suc a) h = ground (
  arith,
  xor_digit (suc a) 0,
  xor_nothing_digits n (suc a / 2) (omega arith),
  odd (suc a % 2) (omega arith),
)
  where
    odd : (x : ℕ) → x < 2 → differ x 0 ≡ x
    odd zero p = refl
    odd (suc zero) p = refl
    odd (suc (suc x)) p = absurd (omega arith)

-- `^` with 0 changes nothing.
pub xor_nothing : (a : ℕ) → bit_xor a 0 ≡ a
xor_nothing a = xor_nothing_digits a a (omega arith)

-- `^` of two numbers of `k` bits has `k` bits.
pub xor_lt : (k a b : ℕ) → a < 2 ^ k → b < 2 ^ k → bit_xor a b < 2 ^ k
xor_lt zero zero zero p q = ground arith
xor_lt zero zero (suc b) p q = absurd (omega arith)
xor_lt zero (suc a) b p q = absurd (omega arith)
xor_lt (suc k) a b p q = omega (
  arith,
  xor_digit a b,
  pow-suc 2 k,
  one_digit (a % 2) (b % 2) (omega arith) (omega arith),
  xor_lt k (a / 2) (b / 2) (omega (arith, pow-suc 2 k)) (omega (arith, pow-suc 2 k)),
)
  where
    one_digit : (x y : ℕ) → x < 2 → y < 2 → differ x y < 2
    one_digit zero zero p q = ground arith
    one_digit zero (suc y) p q = ground arith
    one_digit (suc x) zero p q = ground arith
    one_digit (suc zero) (suc zero) p q = ground arith
    one_digit (suc (suc x)) (suc y) p q = absurd (omega arith)
    one_digit (suc zero) (suc (suc y)) p q = absurd (omega arith)
