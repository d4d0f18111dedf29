-- ===== src/Vui/Escape.antt =====
-- src/rss_vui.c, vui_unescape and vui_escape: the emulation prevention bytes of a NAL.
use raptor_common.Base.{
  ℕ, zero, suc, ◌-◌, ◌≤◌, Bool, true, false, ◌&&◌, ltb, leb, ◌==◌, [], ◌∷◌, Option, none, some,
  if◌then◌else◌, length, Bytes, ◌≡◌, refl, ap, arith, Option-cases, inl, inr,
}

abbrev pub starts_low : Bytes → Bool
starts_low [] = false
starts_low (b ∷ bs) = leb b 3

-- `room` is `cap - out`; `z2` and `z1` say that the two bytes before are there and are 0.
unfoldable pub unescape_from : ℕ → Bool → Bool → Bytes → Bytes
unescape_from zero z2 z1 src = []
unescape_from (suc room) z2 z1 [] = []
unescape_from (suc room) z2 z1 (b ∷ bs) = elim ((b == 3) && z1 && z2 && starts_low bs) [
  | true ↦ unescape_from (suc room) z1 false bs
  | false ↦ b ∷ unescape_from room z1 (b == 0) bs
]

unfoldable pub unescape : ℕ → Bytes → Bytes
unfolding unescape_from
unescape cap src = unescape_from cap false false src

abbrev pub prepend : Bool → ℕ → Option Bytes → Option Bytes
prepend stuffed b none = none
prepend stuffed b (some r) = some (if stuffed then 3 ∷ b ∷ r else b ∷ r)

-- `none` where the source returns 0 for lack of room.
unfoldable pub escape_from : ℕ → ℕ → Bytes → Option Bytes
escape_from room nulls [] = some []
escape_from room nulls (b ∷ bs) =
    let stuffed = leb 2 nulls && leb b 3 in
    let need : ℕ = if stuffed then 2 else 1 in
    let zeros_after = if b == 0 then (if stuffed then 1 else suc nulls) else 0 in
    let rest = escape_from (room - need) zeros_after bs in
    if ltb room need then none else prepend stuffed b rest

unfoldable pub escape : ℕ → Bytes → Option Bytes
unfolding escape_from
escape cap src = escape_from cap 0 src

pub length-unescape_from :
    (room : ℕ) (z2 z1 : Bool) (src : Bytes) → length (unescape_from room z2 z1 src) ≤ room
unfolding unescape_from
length-unescape_from zero z2 z1 src = omega arith
length-unescape_from (suc room) z2 z1 [] = omega arith
length-unescape_from (suc room) z2 z1 (b ∷ bs) =
    ground
      (arith, length-unescape_from (suc room) z1 false bs, length-unescape_from room z1 (b == 0) bs)

pub length-unescape : (cap : ℕ) (src : Bytes) → length (unescape cap src) ≤ cap
unfolding unescape
length-unescape cap src = length-unescape_from cap false false src

abbrev pub is_stuffed : ℕ → ℕ → Bool
is_stuffed nulls b = leb 2 nulls && leb b 3

-- One byte of `escape_from` that succeeds.
escape_step :
    (cap nulls b : ℕ) (bs : Bytes) {e : Bytes}
    → escape_from cap nulls (b ∷ bs) ≡ some e
    → (r : Bytes) × (escape_from
          (cap - (if is_stuffed nulls b then 2 else 1))
          (if b == 0 then (if is_stuffed nulls b then 1 else suc nulls) else 0)
          bs
        ≡ some r)
      × (e ≡ (if is_stuffed nulls b then 3 ∷ b ∷ r else b ∷ r))
unfolding escape_from
escape_step cap nulls b bs h =
    elim (Option-cases (
      escape_from (cap - (if is_stuffed nulls b then 2 else 1))
        (if b == 0 then (if is_stuffed nulls b then 1 else suc nulls) else 0) bs)) [
          | inl n ↦ absurd (ground (arith, h, n))
          | inr (r, k) ↦ (r, k, ground (arith, h, k))
        ]

-- A byte that `escape_from` wrote is read back, with the byte stuffed before it if there is one.
unescape_step :
    (room nulls b : ℕ) (r : Bytes) (z2 z1 : Bool)
    → z1 ≡ leb 1 nulls
    → (z2 && z1) ≡ leb 2 nulls
    → unescape_from (suc room) z2 z1 (if is_stuffed nulls b then 3 ∷ b ∷ r else b ∷ r)
      ≡ b ∷ unescape_from room (if is_stuffed nulls b then false else z1) (b == 0) r
unfolding unescape_from
unescape_step room nulls b r z2 z1 h1 h2 = ground arith

unescape_nothing : (room : ℕ) (z2 z1 : Bool) → unescape_from room z2 z1 [] ≡ []
unfolding unescape_from
unescape_nothing zero z2 z1 = refl
unescape_nothing (suc room) z2 z1 = refl

unescape_written :
    (room : ℕ) (z2 z1 : Bool) {e : Bytes} → some [] ≡ some e → unescape_from room z2 z1 e ≡ []
unescape_written room z2 z1 k = ground (arith, k, unescape_nothing room z2 z1)

unescape_from-escape_from :
    (src : Bytes) (cap room nulls : ℕ) (z2 z1 : Bool) {e : Bytes}
    → z1 ≡ leb 1 nulls
    → (z2 && z1) ≡ leb 2 nulls
    → length src ≤ room
    → escape_from cap nulls src ≡ some e
    → unescape_from room z2 z1 e ≡ src
unescape_from-escape_from [] cap room nulls z2 z1 h1 h2 hr h =
    unescape_written room z2 z1 (unfold escape_from in h)
unescape_from-escape_from (b ∷ bs) cap zero nulls z2 z1 h1 h2 hr h = absurd (omega arith)
unescape_from-escape_from (b ∷ bs) cap (suc room) nulls z2 z1 h1 h2 hr h =
    let step = escape_step cap nulls b bs h in
    let stuffed = is_stuffed nulls b in
    let after = if b == 0 then (if stuffed then 1 else suc nulls) else 0 in
    let z = if stuffed then false else z1 in
    let ih =
      unescape_from-escape_from bs (cap - (if stuffed then 2 else 1)) room after z (b == 0)
        (ground arith) (ground arith) (omega arith) step.1 in
    rw step.2 (rw (unescape_step room nulls b step.0 z2 z1 h1 h2) (ap (◌∷◌ b) ih))

-- Unescaping what vui_escape wrote gives the bytes again, where there is room for them.
pub unescape-escape :
    (src : Bytes) (cap room : ℕ) {e : Bytes}
    → length src ≤ room
    → escape cap src ≡ some e
    → unescape room e ≡ src
unfolding escape unescape
unescape-escape src cap room hr h =
    unescape_from-escape_from src cap room 0 false false (ground arith) (ground arith) hr h
