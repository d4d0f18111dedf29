-- ===== src/Ts/CrcLaws.antt =====
-- `crc32_table` and `mpeg_crc32` (src/rss_ts.c) against ISO 13818-1, Annex A.
use raptor_common.Base.Bits.{bit_xor, xor_zero_iff, xor_nothing, xor_lt, and_mask}
use raptor_common.Base.{
  ℕ, zero, suc, ◌+◌, ◌-◌, ◌*◌, ◌/◌, ◌%◌, ◌^◌, ◌<◌, Bool, true, false, ◌&&◌, ◌⊎◌, List, [], ◌∷◌,
  ◌++◌, ◌≡◌, refl, ◌∙◌, arith, ltb, ◌==◌, if◌then◌else◌, length, get_or, Bytes,
}
use mathlib.Core.Logic.{◌↔◌}
use raptor_common.Ts.Crc.{crc_bytes, crc32_table, crc_step, crc_from, mpeg_crc32}

-- One bit of the division by the generator polynomial 0x04C11DB7.
unfoldable pub crc_bit : ℕ → ℕ
crc_bit r = if ltb r (2 ^ 31) then 2 * r else bit_xor (2 * r - 2 ^ 32) 0x04c1_1db7

unfoldable pub crc_bits : ℕ → ℕ → ℕ
crc_bits zero r = r
crc_bits (suc n) r = crc_bits n (crc_bit r)

unfoldable entry_ok : ℕ → ℕ → ℕ → Bool
entry_ok i v remainder =
    if ltb i 27
    then v == remainder
    else if ltb 31 i
    then v == remainder
    else if v == remainder
    then false
    else true

entry_ok-right :
    (i v remainder : ℕ) → entry_ok i v remainder ≡ true → v ≡ remainder → (i < 27) ⊎ (31 < i)
unfolding entry_ok
entry_ok-right i v remainder h e = ground arith

entry_ok-far :
    (i v remainder : ℕ) → entry_ok i v remainder ≡ true → (i < 27) ⊎ (31 < i) → v ≡ remainder
unfolding entry_ok
entry_ok-far i v remainder h e = ground arith

-- Entries that are the remainder exactly outside 27 to 31, and have 32 bits.
unfoldable entries_agree : ℕ → List ℕ → Bool
entries_agree i [] = true
entries_agree i (v ∷ vs) =
    (entry_ok i v (crc_bits 8 (i * 2 ^ 24)) && ltb v (2 ^ 32)) && entries_agree (suc i) vs

entry_agrees :
    (i j k : ℕ) (vs : List ℕ)
    → k ≡ i + j
    → j < length vs
    → entries_agree i vs ≡ true
    → ((get_or vs j 0 ≡ crc_bits 8 (k * 2 ^ 24)) ↔ ((k < 27) ⊎ (31 < k))) × (get_or vs j 0 < 2 ^ 32)
unfolding entries_agree
entry_agrees i j k [] h l e = absurd (omega arith)
entry_agrees i zero k (v ∷ vs) h l e =
    let same : k ≡ i = omega arith in
    let r = crc_bits 8 (i * 2 ^ 24) in
    let ok : entry_ok i v r ≡ true = ground arith in
    rw same ((entry_ok-right i v r ok, entry_ok-far i v r ok), ground arith)
entry_agrees i (suc j) k (v ∷ vs) h l e =
    entry_agrees (suc i) j k vs (omega arith) (omega arith) (ground arith)

table_agrees : entries_agree 0 crc32_table ≡ true
unfolding entries_agree entry_ok crc_bits crc_bit crc32_table
table_agrees = refl

-- An entry of the table is the remainder of its index after eight bits of the division except for
-- the indices from 27 to 31, where it is not.
pub crc32_table-crc_bits :
    (i : ℕ) → i < 256 → (get_or crc32_table i 0 ≡ crc_bits 8 (i * 2 ^ 24)) ↔ ((i < 27) ⊎ (31 < i))
crc32_table-crc_bits i h =
    (entry_agrees 0 i i crc32_table (omega arith) (unfold crc32_table in h) table_agrees).0

entry_lt : (i : ℕ) → i < 256 → get_or crc32_table i 0 < 2 ^ 32
entry_lt i h =
    (entry_agrees 0 i i crc32_table (omega arith) (unfold crc32_table in h) table_agrees).1

crc_step_lt : (crc byte : ℕ) → crc_step crc byte < 2 ^ 32
unfolding crc_step
crc_step_lt crc byte =
    xor_lt 32 (crc * 2 ^ 8 % 2 ^ 32) _ (omega arith)
      (entry_lt _ (omega (arith, and_mask 8 (bit_xor (crc / 2 ^ 24) byte))))

crc_from_lt : (crc : ℕ) (s : Bytes) → crc < 2 ^ 32 → crc_from crc s < 2 ^ 32
unfolding crc_from
crc_from_lt crc [] h = h
crc_from_lt crc (b ∷ s) h = crc_from_lt (crc_step crc b) s (crc_step_lt crc b)

pub mpeg_crc32_lt : (s : Bytes) → mpeg_crc32 s < 2 ^ 32
unfolding mpeg_crc32
mpeg_crc32_lt s = crc_from_lt 0xffff_ffff s (omega arith)

crc_from-append : (crc : ℕ) (s t : Bytes) → crc_from crc (s ++ t) ≡ crc_from (crc_from crc s) t
unfolding crc_from
crc_from-append crc [] t = refl
crc_from-append crc (b ∷ s) t = crc_from-append (crc_step crc b) s t

-- A byte that repeats the top byte of the sum shifts it out.
crc_step-top : (crc byte : ℕ) → byte ≡ crc / 2 ^ 24 → crc_step crc byte ≡ crc * 2 ^ 8 % 2 ^ 32
unfolding crc_step
crc_step-top crc byte e =
    rw (e, (xor_zero_iff (crc / 2 ^ 24) (crc / 2 ^ 24)).1 refl)
      (unfold crc32_table in xor_nothing (crc * 2 ^ 8 % 2 ^ 32))

crc_from-own : (crc : ℕ) → crc < 2 ^ 32 → crc_from crc (crc_bytes crc) ≡ 0
unfolding crc_from crc_bytes
crc_from-own crc h =
    rw
      (
        crc_step-top crc (crc / 2 ^ 24 % 256) (omega arith),
        crc_step-top (crc * 2 ^ 8 % 2 ^ 32) (crc / 2 ^ 16 % 256) (omega arith),
        crc_step-top (crc * 2 ^ 8 % 2 ^ 32 * 2 ^ 8 % 2 ^ 32) (crc / 2 ^ 8 % 256) (omega arith),
        crc_step-top (crc * 2 ^ 8 % 2 ^ 32 * 2 ^ 8 % 2 ^ 32 * 2 ^ 8 % 2 ^ 32) (crc % 256)
            (omega arith),
      )
      (omega arith)

-- A receiver that runs the checksum over a section and its four checksum bytes gets 0.
pub mpeg_crc32-residue : (s : Bytes) → mpeg_crc32 (s ++ crc_bytes (mpeg_crc32 s)) ≡ 0
unfolding mpeg_crc32
mpeg_crc32-residue s =
    crc_from-append 0xffff_ffff s (crc_bytes (crc_from 0xffff_ffff s))
    ∙ crc_from-own (crc_from 0xffff_ffff s) (mpeg_crc32_lt s)
