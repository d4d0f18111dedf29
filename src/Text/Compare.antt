-- ===== src/Text/Compare.antt =====
-- `rss_secure_compare` (src/rss_util.c) decides equality, although it always looks at 256 bytes.
use raptor_common.Base.{ℕ, zero, suc, ◌≤◌, ◌≡◌, refl, ◌↔◌, true, [], ◌∷◌, arith, length, Bytes}
use raptor_common.Base.Bits.{or_zero, xor_zero_iff}
use raptor_common.Text.{NoNul, diff_loop, secure_compare}

-- What the loop has gathered stays: a result of 0 means 0 all along.
diff_loop_start : (n : ℕ) (a b : Bytes) (d : ℕ) → diff_loop n a b d ≡ 0 → d ≡ 0
unfolding diff_loop
diff_loop_start zero a b d h = h
diff_loop_start (suc n) [] [] d h = (or_zero d _ (diff_loop_start n [] [] _ h)).0
diff_loop_start (suc n) [] (y ∷ b) d h = (or_zero d _ (diff_loop_start n [] b _ h)).0
diff_loop_start (suc n) (x ∷ a) [] d h = (or_zero d _ (diff_loop_start n a [] _ h)).0
diff_loop_start (suc n) (x ∷ a) (y ∷ b) d h = (or_zero d _ (diff_loop_start n a b _ h)).0

-- The padding is NUL and no byte of a string is, so a difference in length shows as one in bytes.
diff_loop-eq :
    (n : ℕ) (a b : Bytes) (d : ℕ)
    → NoNul a
    → NoNul b
    → length a ≤ n
    → length b ≤ n
    → diff_loop n a b d ≡ 0
    → a ≡ b
unfolding diff_loop
diff_loop-eq n [] [] d u v p q h = refl
diff_loop-eq zero [] (y ∷ b) d u v p q h = absurd (omega arith)
diff_loop-eq zero (x ∷ a) b d u v p q h = absurd (omega arith)
diff_loop-eq (suc n) [] (y ∷ b) d u v p q h =
    let e = (or_zero d _ (diff_loop_start n [] b _ h)).1 in
    absurd (omega (arith, (xor_zero_iff 0 y).0 e, v.0))
diff_loop-eq (suc n) (x ∷ a) [] d u v p q h =
    let e = (or_zero d _ (diff_loop_start n a [] _ h)).1 in
    absurd (omega (arith, (xor_zero_iff x 0).0 e, u.0))
diff_loop-eq (suc n) (x ∷ a) (y ∷ b) d u v p q h =
    let e = (or_zero d _ (diff_loop_start n a b _ h)).1 in
    cc ((xor_zero_iff x y).0 e, diff_loop-eq n a b _ u.1 v.1 (omega arith) (omega arith) h)

diff_loop_same : (n : ℕ) (a : Bytes) (d : ℕ) → d ≡ 0 → diff_loop n a a d ≡ 0
unfolding diff_loop
diff_loop_same zero a d e = e
diff_loop_same (suc n) [] d e = diff_loop_same n [] _ (rw e)
diff_loop_same (suc n) (x ∷ a) d e = diff_loop_same n a _ (rw (e, (xor_zero_iff x x).1 refl))

-- For two C strings of at most 255 bytes `rss_secure_compare` returns true exactly when they are
-- equal.
secure_compare_iff :
    (a b : Bytes)
    → NoNul a
    → NoNul b
    → length a ≤ 255
    → length b ≤ 255
    → (secure_compare a b ≡ true) ↔ (a ≡ b)
unfolding secure_compare
secure_compare_iff a b u v p q = (
  λ h. diff_loop-eq 256 a b 0 u v (omega arith) (omega arith) (ground arith),
  λ e. rw e (ground (arith, diff_loop_same 256 b 0 refl)),
)

-- Whatever `rss_secure_compare` accepts is equal, at any length: a longer string is refused.
pub secure_compare-eq : (a b : Bytes) → NoNul a → NoNul b → secure_compare a b ≡ true → a ≡ b
unfolding secure_compare
secure_compare-eq a b u v h = ground (arith, diff_loop-eq 256 a b 0 u v)
