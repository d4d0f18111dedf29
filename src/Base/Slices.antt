-- ===== src/Base/Slices.antt =====
-- Parts of a byte array that was put together.
use raptor_common.Base.Lists.{length, take, drop, get_or}
use Prim.Native.Nat.{ℕ, zero, suc, ◌+◌, ◌<◌}
use mathlib.Core.Path.{◌≡◌, refl, ap}
use mathlib.Core.List.{List, [], ◌∷◌, ◌++◌}
use native.Mathlib.Omega.{arith}

module _ {ℓ} {A : Type ℓ} where
  pub take_front : (n : ℕ) (a b : List A) → length a ≡ n → take n (a ++ b) ≡ a
  take_front zero [] b h = refl
  take_front (suc n) [] b h = absurd (omega arith)
  take_front zero (x ∷ a) b h = absurd (omega arith)
  take_front (suc n) (x ∷ a) b h = ap (◌∷◌ x) (take_front n a b (omega arith))

  pub drop_front : (n : ℕ) (a b : List A) → length a ≡ n → drop n (a ++ b) ≡ b
  drop_front zero [] b h = refl
  drop_front (suc n) [] b h = absurd (omega arith)
  drop_front zero (x ∷ a) b h = absurd (omega arith)
  drop_front (suc n) (x ∷ a) b h = drop_front n a b (omega arith)

  pub get_or_front :
      (a b : List A) (k : ℕ) (d : A) → k < length a → get_or (a ++ b) k d ≡ get_or a k d
  get_or_front [] b k d h = absurd (omega arith)
  get_or_front (x ∷ a) b zero d h = refl
  get_or_front (x ∷ a) b (suc k) d h = get_or_front a b k d (omega arith)

  pub get_or_behind :
      (a b : List A) (k n : ℕ) (d : A) → n ≡ length a + k → get_or (a ++ b) n d ≡ get_or b k d
  get_or_behind [] b k n d h = ap (λ m. get_or b m d) (omega arith)
  get_or_behind (x ∷ a) b k zero d h = absurd (omega arith)
  get_or_behind (x ∷ a) b k (suc n) d h = get_or_behind a b k n d (omega arith)

  pub get_or-take : (n k : ℕ) (a : List A) (d : A) → k < n → get_or (take n a) k d ≡ get_or a k d
  get_or-take zero k a d h = absurd (omega arith)
  get_or-take (suc n) k [] d h = refl
  get_or-take (suc n) zero (x ∷ a) d h = refl
  get_or-take (suc n) (suc k) (x ∷ a) d h = get_or-take n k a d (omega arith)
