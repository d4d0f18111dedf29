-- ===== src/Base/Masks.antt =====
-- The single digits of `|` and `&`, and the masks of one bit in a byte.
use raptor_common.Base.Bits.{bit_or, bit_and, or_digit, and_digit}
use raptor_common.Base.Tests.{◌==◌, if◌then◌else◌}
use Prim.Native.Nat.{ℕ, zero, suc, ◌-◌, ◌*◌, ◌/◌, ◌%◌, ◌^◌, ◌<◌, min, max}
use mathlib.Core.Path.{◌≡◌, refl, ap, sym}
use mathlib.Core.Logic.{◌⊎◌, inl, inr}
use mathlib.Core.Bool.{Bool, true, ◌&&◌}
use native.Mathlib.Nat.{pow-suc, div-div-eq-div-mul}
use native.Mathlib.Omega.{arith}

abbrev pub digit : ℕ → ℕ → ℕ
digit a k = a / 2 ^ k % 2

pub digit_lt : (a k : ℕ) → digit a k < 2
digit_lt a k = omega arith

pub digit-suc : (a k : ℕ) → digit a (suc k) ≡ digit (a / 2) k
digit-suc a k =
    let double : 2 ^ suc k ≡ 2 * 2 ^ k = omega (arith, pow-suc 2 k) in
    ap (λ (q : ℕ). q % 2) (rw double (sym (div-div-eq-div-mul a 2 (2 ^ k))))

pub digit-bit_or : (k a b : ℕ) → digit (bit_or a b) k ≡ max (digit a k) (digit b k)
digit-bit_or zero a b = omega (arith, or_digit a b)
digit-bit_or (suc k) a b =
    let half : bit_or a b / 2 ≡ bit_or (a / 2) (b / 2) = omega (arith, or_digit a b) in
    simp digit-suc (rw half (digit-bit_or k (a / 2) (b / 2)))

pub digit-bit_and : (k a b : ℕ) → digit (bit_and a b) k ≡ min (digit a k) (digit b k)
digit-bit_and zero a b = omega (arith, and_digit a b)
digit-bit_and (suc k) a b =
    let half : bit_and a b / 2 ≡ bit_and (a / 2) (b / 2) = omega (arith, and_digit a b) in
    simp digit-suc (rw half (digit-bit_and k (a / 2) (b / 2)))

all_below : ℕ → (ℕ → Bool) → Bool
all_below zero p = true
all_below (suc n) p = p n && all_below n p

all_below→holds : (n : ℕ) (p : ℕ → Bool) (k : ℕ) → k < n → all_below n p ≡ true → p k ≡ true
unfolding all_below
all_below→holds zero p k h e = absurd (omega arith)
all_below→holds (suc n) p k h e = elim (eq_or_lt n k (omega arith)) [
  | inl q ↦ rw q (both_left (p n) (all_below n p) e)
  | inr q ↦ all_below→holds n p k q (both_right (p n) (all_below n p) e)
]
  where
    eq_or_lt : (n k : ℕ) → k < suc n → (k ≡ n) ⊎ (k < n)
    eq_or_lt n k h = grind arith

    both_left : (a b : Bool) → (a && b) ≡ true → a ≡ true
    both_left a b h = ground (arith, h)

    both_right : (a b : Bool) → (a && b) ≡ true → b ≡ true
    both_right a b h = ground (arith, h)

-- What a table of `f` over the bits of a byte shows.
module _ (f g : ℕ → ℕ → ℕ) where
  table : Bool
  unfolding all_below
  table = all_below 8 λ j. all_below 8 λ k. f j k == g j k

  table→eq : (j k : ℕ) → j < 8 → k < 8 → table ≡ true → f j k ≡ g j k
  unfolding table
  table→eq j k hj hk e =
      let row = all_below→holds 8 (λ j. all_below 8 λ k. f j k == g j k) j hj e in
      let cell = all_below→holds 8 (λ k. f j k == g j k) k hk row in ground (arith, cell)

-- The digits of `1 << j` and of `~(1 << j)` as bytes.
pub digit-mask : (j k : ℕ) → j < 8 → k < 8 → digit (2 ^ j) k ≡ (if j == k then 1 else 0)
unfolding all_below table
digit-mask j k hj hk =
    table→eq (λ j k. digit (2 ^ j) k) (λ j k. if j == k then 1 else 0) j k hj hk refl

pub digit-complement : (j k : ℕ) → j < 8 → k < 8 → digit (255 - 2 ^ j) k ≡ (if j == k then 0 else 1)
unfolding all_below table
digit-complement j k hj hk =
    table→eq (λ j k. digit (255 - 2 ^ j) k) (λ j k. if j == k then 0 else 1) j k hj hk refl
