-- ===== src/Vui/Walk.antt =====
-- The bit reader of src/rss_vui.c. A `Walk` is what code over `vui_bits_t` does: it takes bits one by
-- one and asks for the overflow flag, and `run` gives it a buffer.
use raptor_common.Base.Bits.{bit_or}
use raptor_common.Base.Int.{ℤ, pos, sub_ℕ}
use raptor_common.Base.{
  ℕ, zero, suc, ◌+◌, ◌-◌, ◌*◌, ◌/◌, ◌%◌, ◌^◌, Bool, true, false, Option, none, some, ltb, ◌==◌,
  if◌then◌else◌, length, get_or, Bytes,
}

pub data Walk (A : Type 0) : Type 0 where
  done : A → Walk A
  next_bit : (Option ℕ → Walk A) → Walk A
  overflowed : (Bool → Walk A) → Walk A

-- `vui_bits_t` without its buffer
pub record Cursor : Type 0 where
  pub bit : ℕ
  pub overflow : Bool

-- `(buf[bit >> 3] >> (7 - (bit & 7))) & 1`
abbrev pub bit_at : Bytes → ℕ → ℕ
bit_at buf i = get_or buf (i / 8) 0 / 2 ^ (7 - i % 8) % 2

-- One round of `vb_read`: past the end the overflow flag is set.
unfoldable pub take_bit : Bytes → Cursor → Option ℕ × Cursor
take_bit buf c =
    if ltb c.bit (length buf * 8)
    then (some (bit_at buf c.bit), record c { bit = c.bit + 1 })
    else (none, record c { overflow = true })

unfoldable pub run : {A : Type 0} → Bytes → Walk A → Cursor → A × Cursor
run buf (done a) c = (a, c)
run buf (next_bit k) c = run buf (k (take_bit buf c).0) (take_bit buf c).1
run buf (overflowed k) c = run buf (k c.overflow) c

unfoldable pub bind : {A B : Type 0} → Walk A → (A → Walk B) → Walk B
bind (done a) f = f a
bind (next_bit k) f = next_bit λ o. bind (k o) f
bind (overflowed k) f = overflowed λ o. bind (k o) f

infixl 5 ◌>>=◌ ◌>>◌
abbrev pub ◌>>=◌ : {A B : Type 0} → Walk A → (A → Walk B) → Walk B
m >>= f = bind m f

abbrev pub ◌>>◌ : {A B : Type 0} → Walk A → Walk B → Walk B
m >> k = bind m λ _. k

-- The loop of `vb_read` over a uint32_t: the value so far is lost at the end of the buffer.
unfoldable pub read_from : ℕ → ℕ → Walk ℕ
read_from zero v = done v
read_from (suc n) v =
    next_bit λ o. elim o [ none ↦ done 0 | some b ↦ read_from n (bit_or (v * 2 % 2 ^ 32) b) ]

unfoldable pub read : ℕ → Walk ℕ
unfolding read_from
read n = read_from n 0

-- `for (i = 0; i < n; i++)` over code that only moves on.
unfoldable pub times : {A : Type 0} → ℕ → Walk A → Walk (Unit {0})
times zero w = done tt
times (suc n) w = w >> times n w

-- The loop of `vb_ue`: `left` more zeros may be counted.
unfoldable pub count_zeros : ℕ → ℕ → Walk ℕ
unfolding read bind
count_zeros zero nulls = overflowed λ o. elim o [ true ↦ done nulls | false ↦ read 1 >> done nulls ]
count_zeros (suc left) nulls = overflowed λ o. elim o [
  | true ↦ done nulls
  | false ↦
      read 1 >>= λ b. elim (b == 0) [ true ↦ count_zeros left (nulls + 1) | false ↦ done nulls ]
]

-- C leaves `1u << 32` undefined, which 32 zeros lead to: it is the parameter `shift32`.
abbrev pub shift_one : ℕ → ℕ → ℕ
shift_one shift32 nulls = if nulls == 32 then shift32 else 2 ^ nulls

module _ (shift32 : ℕ) where
  unfoldable pub ue : Walk ℕ
  unfolding count_zeros read bind
  ue = do
    nulls ← count_zeros 32 0
    rest ← read nulls
    done ((shift_one shift32 nulls + (2 ^ 32 - 1) + rest) % 2 ^ 32)

  -- `v + 1` is a sum of uint32_t.
  unfoldable pub se : Walk ℤ
  unfolding ue
  se = do v ← ue; done (if v % 2 == 1 then pos ((v + 1) % 2 ^ 32 / 2) else sub_ℕ 0 (v / 2))

-- Where a walk ends: at a bit, or at VUI_ABSENT or VUI_BAD.
pub data Found : Type 0 where
  at_bit : ℕ → Found
  absent bad : Found

-- `if (b->overflow) return VUI_BAD; return (int64_t)b->bit`; the bit is that of the cursor where the
-- walk ends.
pub data Ended : Type 0 where
  here absent bad : Ended

abbrev pub end_here : Walk Ended
end_here = overflowed λ o. done (if o then Ended.bad else Ended.here)

-- `return b->overflow ? VUI_BAD : VUI_ABSENT`
abbrev pub end_absent : Walk Ended
end_absent = overflowed λ o. done (if o then Ended.bad else Ended.absent)

abbrev pub found_at : Ended × Cursor → Found
found_at (Ended.here, c) = at_bit c.bit
found_at (Ended.absent, c) = Found.absent
found_at (Ended.bad, c) = Found.bad

-- `if (b) w;`
abbrev pub when : {A : Type 0} → Bool → Walk A → Walk (Unit {0})
when b w = if b then w >> done tt else done tt
