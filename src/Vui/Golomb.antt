-- ===== src/Vui/Golomb.antt =====
-- The Exp-Golomb codes that vb_ue of src/rss_vui.c reads.
use native.Mathlib.Nat.{pow-suc, one-le-pow, pow-le-pow_right, div-eq_of_lt}
use raptor_common.Base.{
  ℕ, zero, suc, ◌+◌, ◌-◌, ◌*◌, ◌/◌, ◌%◌, ◌^◌, ◌≤◌, ◌<◌, true, false, ◌==◌, length, Bytes, ◌≡◌, refl,
  sym, ◌∙◌, ap, arith,
}
use raptor_common.Vui.Walk.{
  Walk, done, next_bit, overflowed, Cursor, bit_at, take_bit, bind, ◌>>=◌, run, read_from, read,
  count_zeros, shift_one, ue,
}
use raptor_common.Vui.Edit.{at}
use raptor_common.Vui.Writes.{HasBits, run-read_from}

run-bind :
    {A B : Type 0} (buf : Bytes) (m : Walk A) (f : A → Walk B) (c : Cursor)
    → run buf (bind m f) c ≡ run buf (f (run buf m c).0) (run buf m c).1
unfolding run bind
run-bind buf (done a) f c = refl
run-bind buf (next_bit k) f c = run-bind buf (k (take_bit buf c).0) f (take_bit buf c).1
run-bind buf (overflowed k) f c = run-bind buf (k c.overflow) f c

-- A walk that ends in a known way, and what follows it.
run_then :
    {A B : Type 0} (buf : Bytes) (m : Walk A) (f : A → Walk B) (c d : Cursor) (a : A)
    → run buf m c ≡ (a, d)
    → run buf (bind m f) c ≡ run buf (f a) d
run_then buf m f c d a e = run-bind buf m f c ∙ ap (λ r. run buf (f r.0) r.1) e

-- One bit of the prefix.
read_one :
    (buf : Bytes) (p b : ℕ)
    → b < 2
    → p < length buf * 8
    → bit_at buf p ≡ b
    → run buf (read 1) (at p) ≡ (b, at (suc p))
unfolding read
read_one buf p b h q e =
    let low : b / 2 ≡ 0 = omega arith in
    let bit : bit_at buf p ≡ b / 1 % 2 = omega (arith, e) in
    ap (λ (v : ℕ). run buf (read_from 1 v) (at p)) (sym low)
    ∙ run-read_from 1 p b buf (omega arith) (q, bit, tt)
    ∙ ap (λ (n : ℕ). (b, at n)) (omega arith)

-- One round of `count_zeros`, by the bit that it reads.
after_bit : ℕ → ℕ → ℕ → Walk ℕ
after_bit left z b = elim (b == 0) as (λ _. Walk ℕ) [
  | true ↦ count_zeros left (z + 1)
  | false ↦ done z
]

run-count_zeros_round :
    (left z p b : ℕ) (buf : Bytes)
    → b < 2
    → p < length buf * 8
    → bit_at buf p ≡ b
    → run buf (count_zeros (suc left) z) (at p) ≡ run buf (after_bit left z b) (at (suc p))
unfolding count_zeros run after_bit
run-count_zeros_round left z p b buf h q e =
    run_then buf (read 1) (after_bit left z) (at p) (at (suc p)) b (read_one buf p b h q e)

after_zero :
    (left z : ℕ) (c : Cursor) (buf : Bytes)
    → run buf (after_bit left z 0) c ≡ run buf (count_zeros left (z + 1)) c
unfolding after_bit
after_zero left z c buf = refl

after_one : (left z : ℕ) (c : Cursor) (buf : Bytes) → run buf (after_bit left z 1) c ≡ (z, c)
unfolding after_bit run
after_one left z c buf = refl

run-count_zeros_last :
    (z p : ℕ) (buf : Bytes)
    → p < length buf * 8
    → bit_at buf p ≡ 1
    → run buf (count_zeros 0 z) (at p) ≡ (z, at (suc p))
unfolding count_zeros run
run-count_zeros_last z p buf q e =
    run_then buf (read 1) (λ _. done z) (at p) (at (suc p)) 1 (read_one buf p 1 (omega arith) q e)

-- A prefix of `n` zeros and a one.
run-count_zeros :
    (n left z p : ℕ) (buf : Bytes)
    → n ≤ left
    → HasBits buf p (suc n) 1
    → run buf (count_zeros left z) (at p) ≡ (z + n, at (p + suc n))
run-count_zeros zero zero z p buf h b = run-count_zeros_last z p buf b.0 b.1 ∙ ground arith
run-count_zeros zero (suc left) z p buf h b =
    run-count_zeros_round left z p 1 buf (omega arith) b.0 b.1
    ∙ after_one left z (at (suc p)) buf
    ∙ ground arith
run-count_zeros (suc n) zero z p buf h b = absurd (omega arith)
run-count_zeros (suc n) (suc left) z p buf h b =
    let more : 1 < 2 ^ suc n = omega (arith, pow-suc 2 n, one-le-pow n 2) in
    let clear : bit_at buf p ≡ 0 = b.1 ∙ ap (λ (q : ℕ). q % 2) (div-eq_of_lt more) in
    run-count_zeros_round left z p 0 buf (omega arith) b.0 clear
    ∙ after_zero left z (at (suc p)) buf
    ∙ run-count_zeros n left (z + 1) (suc p) buf (omega arith) b.2
    ∙ ground arith

run_done : (buf : Bytes) (v : ℕ) (c : Cursor) → run buf (done v) c ≡ (v, c)
unfolding run
run_done buf v c = refl

run-read :
    (n r p : ℕ) (buf : Bytes)
    → r < 2 ^ 32
    → r < 2 ^ n
    → HasBits buf p n r
    → run buf (read n) (at p) ≡ (r, at (p + n))
unfolding read
run-read n r p buf hr h b =
    let low : r / 2 ^ n ≡ 0 = div-eq_of_lt h in
    ap (λ (v : ℕ). run buf (read_from n v) (at p)) (sym low) ∙ run-read_from n p r buf hr b

ue_value :
    (shift32 n r : ℕ)
    → n < 32
    → r < 2 ^ n
    → 2 ^ n ≤ 2 ^ 31
    → 1 ≤ 2 ^ n
    → (shift_one shift32 n + (2 ^ 32 - 1) + r) % 2 ^ 32 ≡ 2 ^ n - 1 + r
ue_value shift32 n r hn hr bound pos =
    let q : ℕ = 2 ^ n in
    let shifted : shift_one shift32 n ≡ q = ground (arith, hn) in
    rw shifted (omega (arith, hr, bound, pos))

module _ (shift32 : ℕ) where
  -- vb_ue on an Exp-Golomb code of at most 31 leading zeros that lies inside the buffer, a prefix of
  -- n zeros and a one and then n bits with the value r, returns 2^n - 1 + r and stands behind the
  -- code.
  ue_lem :
      (n r p : ℕ) (buf : Bytes)
      → n < 32
      → r < 2 ^ n
      → HasBits buf p (suc n) 1
      → HasBits buf (p + suc n) n r
      → run buf (ue shift32) (at p) ≡ (2 ^ n - 1 + r, at (p + suc n + n))
  unfolding ue
  ue_lem n r p buf hn hr prefix suffix =
      let bound : 2 ^ n ≤ 2 ^ 31 = pow-le-pow_right (omega arith) {j = 31} (omega arith) in
      let pos : 1 ≤ 2 ^ n = omega (arith, hr) in
      let tail : ℕ → ℕ → ℕ = λ z rest. (shift_one shift32 z + (2 ^ 32 - 1) + rest) % 2 ^ 32 in
      let c = at (p + suc n) in
      let d = at (p + suc n + n) in
      let counted : run buf (count_zeros 32 0) (at p) ≡ (n, c) =
        run-count_zeros n 32 0 p buf (omega arith) prefix ∙ ap (λ (z : ℕ). (z, c)) (omega arith) in
      let back = run-read n r (p + suc n) buf (omega arith) hr suffix in
      run_then buf (count_zeros 32 0) (λ z. read z >>= λ rest. done (tail z rest)) (at p) c n
        counted
      ∙ run_then buf (read n) (λ rest. done (tail n rest)) c d r back
      ∙ run_done buf (tail n r) d
      ∙ ap (λ (v : ℕ). (v, d)) (ue_value shift32 n r hn hr bound pos)
