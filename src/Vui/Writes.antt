-- ===== src/Vui/Writes.antt =====
-- What the writes of src/rss_vui.c change in a buffer, and what a read gives back of it.
use raptor_common.Base.Bits.{bit_or, bit_and, or_shifted}
use raptor_common.Base.Masks.{
  digit, digit_lt, digit-bit_or, digit-bit_and, digit-mask, digit-complement,
}
use native.Mathlib.Nat.{pow-suc, div-div-eq-div-mul, div-le_self}
use raptor_common.Base.{
  ℕ, zero, suc, ◌+◌, ◌-◌, ◌*◌, ◌/◌, ◌%◌, ◌^◌, ◌≤◌, ◌<◌, Bool, true, false, not, ◌==◌, [], ◌∷◌,
  Option, none, some, if◌then◌else◌, length, get_or, set, length-set, Bytes, ◌≡◌, ◌≢◌, refl, sym,
  ◌∙◌, ap, arith, Bool-cases, inl, inr,
}
use raptor_common.Vui.Walk.{Walk, done, Cursor, bit_at, take_bit, run, read_from}
use raptor_common.Vui.Edit.{at, mask_of, write_bit, write_bits}

get_or-set_self : (buf : Bytes) (i v : ℕ) → i < length buf → get_or (set buf i v) i 0 ≡ v
get_or-set_self [] i v h = elim h [ ]
get_or-set_self (x ∷ xs) zero v h = refl
get_or-set_self (x ∷ xs) (suc i) v h = get_or-set_self xs i v (omega arith)

get_or-set_ne : (buf : Bytes) (i j v : ℕ) → i ≢ j → get_or (set buf i v) j 0 ≡ get_or buf j 0
get_or-set_ne [] i j v h = refl
get_or-set_ne (x ∷ xs) zero zero v h = absurd (h refl)
get_or-set_ne (x ∷ xs) zero (suc j) v h = refl
get_or-set_ne (x ∷ xs) (suc i) zero v h = refl
get_or-set_ne (x ∷ xs) (suc i) (suc j) v h = get_or-set_ne xs i j v (λ e. h (ap suc e))

pub length-write_bit :
    (buf : Bytes) (p : ℕ) (one : Bool) → length (write_bit buf p one) ≡ length buf
length-write_bit buf p one = length-set buf (p / 8) _

-- One byte with a bit set or cleared.
byte_self :
    (byte p : ℕ) (one : Bool)
    → digit (if one then bit_or byte (mask_of p) else bit_and byte (255 - mask_of p)) (7 - p % 8)
      ≡ (if one then 1 else 0)
byte_self byte p true = ground (
  arith,
  digit-bit_or (7 - p % 8) byte (mask_of p),
  digit_lt byte (7 - p % 8),
  digit-mask (7 - p % 8) (7 - p % 8) (omega arith) (omega arith),
)
byte_self byte p false = ground (
  arith,
  digit-bit_and (7 - p % 8) byte (255 - mask_of p),
  digit_lt byte (7 - p % 8),
  digit-complement (7 - p % 8) (7 - p % 8) (omega arith) (omega arith),
)

byte_other :
    (byte p j : ℕ) (one : Bool)
    → j < 8
    → j ≢ 7 - p % 8
    → digit (if one then bit_or byte (mask_of p) else bit_and byte (255 - mask_of p)) j
      ≡ digit byte j
byte_other byte p j true hj h = ground (
  arith,
  digit-bit_or j byte (mask_of p),
  digit_lt byte j,
  digit-mask (7 - p % 8) j (omega arith) hj,
)
byte_other byte p j false hj h = ground (
  arith,
  digit-bit_and j byte (255 - mask_of p),
  digit_lt byte j,
  digit-complement (7 - p % 8) j (omega arith) hj,
)

pub bit_at-write_bit :
    (buf : Bytes) (p : ℕ) (one : Bool)
    → p < length buf * 8
    → bit_at (write_bit buf p one) p ≡ (if one then 1 else 0)
bit_at-write_bit buf p one h =
    rw
      (get_or-set_self buf (p / 8)
        (if one
          then bit_or (get_or buf (p / 8) 0) (mask_of p)
          else bit_and (get_or buf (p / 8) 0) (255 - mask_of p))
        (omega arith))
      (byte_self (get_or buf (p / 8) 0) p one)

pub bit_at-write_bit_ne :
    (buf : Bytes) (p q : ℕ) (one : Bool)
    → p < length buf * 8
    → q ≢ p
    → bit_at (write_bit buf p one) q ≡ bit_at buf q
bit_at-write_bit_ne buf p q one hp h =
    let byte = get_or buf (p / 8) 0 in
    let v = if one then bit_or byte (mask_of p) else bit_and byte (255 - mask_of p) in
    elim (Bool-cases (p / 8 == q / 8)) [
      | inl e ↦
          let same : q / 8 ≡ p / 8 = ground (arith, e) in
          rw same (
            rw (get_or-set_self buf (p / 8) v (omega arith))
              (byte_other byte p (7 - q % 8) one (omega arith) (λ d. h (omega (arith, d, same)))))
      | inr e ↦
          let apart : p / 8 ≢ q / 8 = ground (arith, e) in
          ap (λ b. digit b (7 - q % 8)) (get_or-set_ne buf (p / 8) (q / 8) v apart)
    ]

pub length-write_bits : (n p m : ℕ) (buf : Bytes) → length (write_bits n p m buf) ≡ length buf
unfolding write_bits
length-write_bits zero p m buf = refl
length-write_bits (suc n) p m buf =
    let one = not (m / 2 ^ n % 2 == 0) in
    length-write_bits n (suc p) m (write_bit buf p one) ∙ length-write_bit buf p one

pub bit_at-write_bits_before :
    (n p m : ℕ) (buf : Bytes) (q : ℕ)
    → p + n ≤ length buf * 8
    → q < p
    → bit_at (write_bits n p m buf) q ≡ bit_at buf q
unfolding write_bits
bit_at-write_bits_before zero p m buf q h hq = refl
bit_at-write_bits_before (suc n) p m buf q h hq =
    let one = not (m / 2 ^ n % 2 == 0) in
    let room : suc p + n ≤ length (write_bit buf p one) * 8 =
      omega (arith, length-write_bit buf p one) in
    bit_at-write_bits_before n (suc p) m (write_bit buf p one) q room (omega arith)
    ∙ bit_at-write_bit_ne buf p q one (omega arith) (omega arith)

pub bit_at-write_bits_after :
    (n p m : ℕ) (buf : Bytes) (q : ℕ)
    → p + n ≤ length buf * 8
    → p + n ≤ q
    → bit_at (write_bits n p m buf) q ≡ bit_at buf q
unfolding write_bits
bit_at-write_bits_after zero p m buf q h hq = refl
bit_at-write_bits_after (suc n) p m buf q h hq =
    let one = not (m / 2 ^ n % 2 == 0) in
    let room : suc p + n ≤ length (write_bit buf p one) * 8 =
      omega (arith, length-write_bit buf p one) in
    bit_at-write_bits_after n (suc p) m (write_bit buf p one) q room (omega arith)
    ∙ bit_at-write_bit_ne buf p q one (omega arith) (omega arith)

-- The `n` bits from bit `p` on are the low bits of `m`, the highest first.
abbrev pub HasBits : Bytes → ℕ → ℕ → ℕ → Type 0
HasBits buf p zero m = Unit
HasBits buf p (suc n) m =
    (p < length buf * 8) × (bit_at buf p ≡ m / 2 ^ n % 2) × HasBits buf (suc p) n m

pub write_bits-HasBits :
    (n p m : ℕ) (buf : Bytes) → p + n ≤ length buf * 8 → HasBits (write_bits n p m buf) p n m
unfolding write_bits
write_bits-HasBits zero p m buf h = tt
write_bits-HasBits (suc n) p m buf h =
    let one = not (m / 2 ^ n % 2 == 0) in
    let room : suc p + n ≤ length (write_bit buf p one) * 8 =
      omega (arith, length-write_bit buf p one) in
    let kept = bit_at-write_bits_before n (suc p) m (write_bit buf p one) p room (omega arith) in
    let now = bit_at-write_bit buf p one (omega arith) in
    (
      omega (arith, length-write_bits n (suc p) m (write_bit buf p one), room),
      kept ∙ now ∙ ground arith,
      write_bits-HasBits n (suc p) m (write_bit buf p one) room,
    )

take_bit_inside :
    (buf : Bytes) (p : ℕ)
    → p < length buf * 8
    → take_bit buf (at p) ≡ (some (bit_at buf p), at (suc p))
unfolding take_bit
take_bit_inside buf p h = ground (arith, h)

-- The next digit of `m` joins those read before.
join_digit :
    (m n : ℕ) → m < 2 ^ 32 → bit_or (m / 2 ^ suc n * 2 % 2 ^ 32) (m / 2 ^ n % 2) ≡ m / 2 ^ n
join_digit m n h =
    let q : ℕ = m / 2 ^ n in
    let half : m / 2 ^ suc n ≡ q / 2 =
      ap (λ (d : ℕ). m / d) (pow-suc 2 n) ∙ sym (div-div-eq-div-mul m (2 ^ n) 2) in
    let small : q ≤ m = div-le_self m (2 ^ n) in
    let whole : m / 2 ^ suc n * 2 % 2 ^ 32 ≡ q / 2 * 2 ^ 1 = omega (arith, half, small) in
    rw whole (omega (arith, or_shifted 1 (q / 2) (q % 2) (omega arith)))

run-read_from_step :
    (buf : Bytes) (n v b : ℕ) (c d : Cursor)
    → take_bit buf c ≡ (some b, d)
    → run buf (read_from (suc n) v) c ≡ run buf (read_from n (bit_or (v * 2 % 2 ^ 32) b)) d
unfolding run read_from
run-read_from_step buf n v b c d e =
    ap
      (λ (t : Option ℕ × Cursor).
        run buf
          (elim t.0 as (λ _. Walk ℕ) [
            | none ↦ done 0
            | some b ↦ read_from n (bit_or (v * 2 % 2 ^ 32) b)
          ])
          t.1)
      e

pub run-read_from :
    (n p m : ℕ) (buf : Bytes)
    → m < 2 ^ 32
    → HasBits buf p n m
    → run buf (read_from n (m / 2 ^ n)) (at p) ≡ (m, at (p + n))
unfolding run read_from
run-read_from zero p m buf hm h = ground arith
run-read_from (suc n) p m buf hm h =
    let v : ℕ = m / 2 ^ suc n in
    let bit : bit_or (v * 2 % 2 ^ 32) (bit_at buf p) ≡ m / 2 ^ n = rw h.1 (join_digit m n hm) in
    run-read_from_step buf n v (bit_at buf p) (at p) (at (suc p)) (take_bit_inside buf p h.0)
    ∙ ap (λ (w : ℕ). run buf (read_from n w) (at (suc p))) bit
    ∙ run-read_from n (suc p) m buf hm h.2
    ∙ ap (λ (q : ℕ). (m, at q)) (omega arith)
