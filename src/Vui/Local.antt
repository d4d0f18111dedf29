-- ===== src/Vui/Local.antt =====
-- A walk depends on the bits before the place where it ends, and on no others.
use raptor_common.Base.{
  ℕ, ◌*◌, ◌≤◌, ◌<◌, ltb, length, Bytes, ◌≡◌, refl, ap, arith, Bool-cases, inl, inr,
}
use raptor_common.Vui.Walk.{Walk, done, next_bit, overflowed, Cursor, bit_at, take_bit, run}

take_bit_mono : (buf : Bytes) (c : Cursor) → c.bit ≤ (take_bit buf c).1.bit
unfolding take_bit
take_bit_mono buf c = ground arith

pub run_mono : {A : Type 0} (buf : Bytes) (w : Walk A) (c : Cursor) → c.bit ≤ (run buf w c).1.bit
unfolding run
run_mono buf (done a) c = omega arith
run_mono buf (next_bit k) c =
    let t = take_bit buf c in omega (arith, take_bit_mono buf c, run_mono buf (k t.0) t.1)
run_mono buf (overflowed k) c = run_mono buf (k c.overflow) c

-- Two buffers agree below a bit.
abbrev pub Agree : Bytes → Bytes → ℕ → Type 0
Agree buf buf' n = (i : ℕ) → i < n → bit_at buf' i ≡ bit_at buf i

take_bit-local :
    (buf buf' : Bytes) (c : Cursor)
    → length buf' ≡ length buf
    → Agree buf buf' (take_bit buf c).1.bit
    → take_bit buf' c ≡ take_bit buf c
unfolding take_bit
take_bit-local buf buf' c hl h = elim (Bool-cases (ltb c.bit (length buf * 8))) [
  | inl e ↦ ground (arith, h c.bit, ap (λ (n : ℕ). n * 8) hl)
  | inr e ↦ rw hl (ground arith)
]

pub run-local :
    {A : Type 0} (buf buf' : Bytes) (w : Walk A) (c : Cursor)
    → length buf' ≡ length buf
    → Agree buf buf' (run buf w c).1.bit
    → run buf' w c ≡ run buf w c
unfolding run
run-local buf buf' (done a) c hl h = refl
run-local buf buf' (next_bit k) c hl h =
    let t = take_bit buf c in
    let same : take_bit buf' c ≡ t =
      take_bit-local buf buf' c hl (λ i p. h i (omega (arith, run_mono buf (k t.0) t.1))) in
    rw same (run-local buf buf' (k t.0) t.1 hl h)
run-local buf buf' (overflowed k) c hl h = run-local buf buf' (k c.overflow) c hl h
