-- ===== src/Config/Lines.antt =====
-- The reader of src/rss_config.c against the plain view of a file as its lines.
use raptor_common.Base.{
  ℕ, zero, suc, ◌≤◌, ◌<◌, true, false, not, ◌&&◌, List, [], ◌∷◌, ◌++◌, Option, none, some, ◌==◌,
  ltb, ◌≡◌, ◌≢◌, refl, ◌∙◌, ap, if◌then◌else◌, length, Bytes, arith, Bool-cases, inl, inr, take,
  drop, length-take,
}
use raptor_common.Config.Load.{
  Loading, load_line, load_trimmed, fgets, skip_line, ends_line, peek, load_round, load_loop, load,
}
use raptor_common.Text.Copying.{take_all}
use mathlib.Core.Path.{subst}
use native.Mathlib.Decide.{dec_lt}
use raptor_common.Text.{trim, trim_front, trim_back, is_space}

-- A text, its first line, and what stands behind the newline; `none` if the text ends first.
data FirstLine : Bytes → Bytes → Option Bytes → Type 0 where
  at_end : FirstLine [] [] none
  at_newline : {c : ℕ} {t : Bytes} → (c == b'\n') ≡ true → FirstLine (c ∷ t) [] (some t)
  further :
      {c : ℕ} {t l : Bytes} {after : Option Bytes}
      → (c == b'\n') ≡ false
      → FirstLine t l after
      → FirstLine (c ∷ t) (c ∷ l) after

first_line : (t : Bytes) → (l : Bytes) × (after : Option Bytes) × FirstLine t l after
first_line [] = ([], none, at_end)
first_line (c ∷ t) = elim (Bool-cases (c == b'\n')) [
  | inl stop ↦ ([], some t, at_newline stop)
  | inr on ↦ let (l, after, f) = first_line t in (c ∷ l, after, further on f)
]

abbrev glue : ℕ → List Bytes → List Bytes
glue c [] = (c ∷ []) ∷ []
glue c (l ∷ ls) = (c ∷ l) ∷ ls

-- The lines of a text, without their newlines; a last one with no newline counts if it is not empty.
unfoldable pub lines : Bytes → List Bytes
lines [] = []
lines (c ∷ t) = if c == b'\n' then [] ∷ lines t else glue c (lines t)

-- What a load means: every line of at most 511 bytes is taken, every longer one is ignored.
unfoldable pub load_lines : List Bytes → Loading → Loading
load_lines [] st = st
load_lines (l ∷ ls) st = load_lines ls (if ltb 511 (length l) then st else load_line l st)

-- White space at the end of a line does not count.
trim_back-newline : (s : Bytes) → trim_back (s ++ b'\n' ∷ []) ≡ trim_back s
unfolding trim_back is_space
trim_back-newline [] = refl
trim_back-newline (c ∷ s) = ground (arith, trim_back-newline s)

trim_newline : (s : Bytes) → trim (s ++ b'\n' ∷ []) ≡ trim s
unfolding trim trim_front
trim_newline [] = unfold trim_back is_space in refl
trim_newline (c ∷ s) = ground (arith, trim_newline s, trim_back-newline (c ∷ s))

load_line-newline : (l : Bytes) (st : Loading) → load_line (l ++ b'\n' ∷ []) st ≡ load_line l st
unfolding load_line
load_line-newline l st = ap (λ s. load_trimmed s st) (trim_newline l)

-- `fgets` on a first line that fits with its newline, on a last one, and on a longer one.
abbrev with_newline : Bytes → Option Bytes → Bytes × Bytes
with_newline l none = (l, [])
with_newline l (some rest) = (l ++ b'\n' ∷ [], rest)

fgets_fits :
    {t l : Bytes} {after : Option Bytes} (n : ℕ)
    → FirstLine t l after
    → length l < n
    → fgets n t ≡ with_newline l after
unfolding fgets
fgets_fits zero f h = elim h [ ]
fgets_fits (suc n) at_end h = refl
fgets_fits (suc n) (at_newline e) h = ground arith
fgets_fits (suc n) (further {after = none} e f) h = ground (arith, fgets_fits n f (omega arith))
fgets_fits (suc n) (further {after = some r} e f) h = ground (arith, fgets_fits n f (omega arith))

fgets_full :
    {t l : Bytes} {after : Option Bytes} (n : ℕ)
    → FirstLine t l after
    → n ≤ length l
    → fgets n t ≡ (take n l, drop n t)
unfolding fgets
fgets_full zero f h = refl
fgets_full (suc n) at_end h = elim h [ ]
fgets_full (suc n) (at_newline e) h = elim h [ ]
fgets_full (suc n) (further e f) h = ground (arith, fgets_full n f (omega arith))

abbrev behind : Option Bytes → Bytes
behind none = []
behind (some rest) = rest

abbrev newline_and : Option Bytes → Bytes
newline_and none = []
newline_and (some rest) = b'\n' ∷ rest

drop_line :
    {t l : Bytes} {after : Option Bytes}
    → FirstLine t l after
    → drop (length l) t ≡ newline_and after
drop_line at_end = refl
drop_line (at_newline e) = ground arith
drop_line (further e f) = drop_line f

skip_rest : {t l : Bytes} {after : Option Bytes} → FirstLine t l after → skip_line t ≡ behind after
unfolding skip_line
skip_rest at_end = refl
skip_rest (at_newline e) = ground arith
skip_rest (further e f) = ground (arith, skip_rest f)

-- Inside a line the byte after a full buffer is no newline, and skipping ends behind the line.
drop_inside :
    {t l : Bytes} {after : Option Bytes} (n : ℕ)
    → FirstLine t l after
    → n < length l
    → (c : ℕ) × (more : Bytes) × (drop n t ≡ c ∷ more)
      × ((c == b'\n') ≡ false)
      × (skip_line more ≡ behind after)
drop_inside n at_end h = elim h [ ]
drop_inside n (at_newline e) h = elim h [ ]
drop_inside zero (further {c} {t} e f) h = (c, t, refl, e, skip_rest f)
drop_inside (suc n) (further e f) h = drop_inside n f (omega arith)

abbrev pub IsPlain : Bytes → Type 0
IsPlain [] = Unit
IsPlain (c ∷ s) = ((c == b'\n') ≡ false) × IsPlain s

FirstLine-IsPlain : {t l : Bytes} {after : Option Bytes} → FirstLine t l after → IsPlain l
FirstLine-IsPlain at_end = tt
FirstLine-IsPlain (at_newline e) = tt
FirstLine-IsPlain (further e f) = (e, FirstLine-IsPlain f)

take-IsPlain : (n : ℕ) (l : Bytes) → IsPlain l → IsPlain (take n l)
take-IsPlain zero l p = tt
take-IsPlain (suc n) [] p = tt
take-IsPlain (suc n) (c ∷ l) p = (p.0, take-IsPlain n l p.1)

ends_line-IsPlain : (l : Bytes) → IsPlain l → ends_line l ≡ false
unfolding ends_line
ends_line-IsPlain [] p = refl
ends_line-IsPlain (c ∷ []) p = p.0
ends_line-IsPlain (c ∷ d ∷ l) p = ends_line-IsPlain (d ∷ l) p.1

ends_line-newline : (l : Bytes) → ends_line (l ++ b'\n' ∷ []) ≡ true
unfolding ends_line
ends_line-newline [] = refl
ends_line-newline (c ∷ []) = refl
ends_line-newline (c ∷ d ∷ l) = ends_line-newline (d ∷ l)

-- What one round does with a line that fits the buffer, and with one that fills it.
abbrev kept : Bytes → Loading → Loading
kept l st = if ltb 511 (length l) then st else load_line l st

load_round-some :
    (t : Bytes) (c : ℕ) (l rest : Bytes) (st : Loading)
    → fgets 511 t ≡ (c ∷ l, rest)
    → load_round t st
      ≡ some (
          if length (c ∷ l) == 511 && not (ends_line (c ∷ l))
          then peek (c ∷ l) rest st
          else (rest, load_line (c ∷ l) st))
unfolding load_round
load_round-some t c l rest st e = ground (arith, e)

module _ (t : Bytes) (c : ℕ) (l : Bytes) (st : Loading) where
  round_short :
      (after : Option Bytes)
      → fgets 511 t ≡ with_newline (c ∷ l) after
      → length (c ∷ l) < 511
      → load_round t st ≡ some (behind after, kept (c ∷ l) st)
  round_short none e h = rw (load_round-some t c l [] st e) (ground arith)
  round_short (some r) e h =
      rw (load_round-some t c (l ++ b'\n' ∷ []) r st e)
        (ground (arith, ends_line-newline (c ∷ l), load_line-newline (c ∷ l) st))

  round_exact :
      (after : Option Bytes)
      → fgets 511 t ≡ (c ∷ l, newline_and after)
      → ends_line (c ∷ l) ≡ false
      → length (c ∷ l) ≡ 511
      → load_round t st ≡ some (behind after, kept (c ∷ l) st)
  unfolding peek
  round_exact none e p h = rw (load_round-some t c l [] st e) (ground arith)
  round_exact (some r) e p h = rw (load_round-some t c l (b'\n' ∷ r) st e) (ground arith)

  round_long :
      (buffer : Bytes) (after : Option Bytes) (d : ℕ) (more : Bytes)
      → fgets 511 t ≡ (c ∷ buffer, d ∷ more)
      → length buffer ≡ 510
      → ends_line (c ∷ buffer) ≡ false
      → (d == b'\n') ≡ false
      → skip_line more ≡ behind after
      → 511 < length (c ∷ l)
      → load_round t st ≡ some (behind after, kept (c ∷ l) st)
  unfolding peek
  round_long buffer after d more e n p q s h =
      rw (load_round-some t c buffer (d ∷ more) st e) (unfold skip_line in ground arith)

load_round-line :
    (t : Bytes) (c : ℕ) (l : Bytes) (after : Option Bytes) (st : Loading)
    → FirstLine t (c ∷ l) after
    → load_round t st ≡ some (behind after, kept (c ∷ l) st)
load_round-line t c l after st f = elim (dec_lt (length (c ∷ l)) 511) [
  | yes fits ↦ round_short t c l st after (fgets_fits 511 f fits) fits
  | no full ↦ elim (dec_lt 511 (length (c ∷ l))) [
    | yes long ↦
        let (d, more, e, q, s) = drop_inside 511 f long in
        round_long t c l st (take 510 l) after d more
          (fgets_full 511 f (omega arith) ∙ ap (λ r. (c ∷ take 510 l, r)) e)
          (omega (arith, length-take 510 l))
          (ends_line-IsPlain _ (take-IsPlain 511 (c ∷ l) (FirstLine-IsPlain f))) q s long
    | no short ↦
        let n : length (c ∷ l) ≡ 511 = omega arith in
        round_exact t c l st after
          (fgets_full 511 f (omega arith)
            ∙ cc (
              take_all 510 l (omega arith),
              subst (λ k. drop k t ≡ newline_and after) n (drop_line f),
            ))
          (ends_line-IsPlain _ (FirstLine-IsPlain f)) n
  ]
]

load_round-empty :
    (c : ℕ) (t : Bytes) (st : Loading)
    → (c == b'\n') ≡ true
    → load_round (c ∷ t) st ≡ some (t, kept [] st)
load_round-empty c t st e =
    rw (load_round-some (c ∷ t) b'\n' [] t st (fgets_fits 511 (at_newline e) (omega arith)))
      (ground (arith, load_line-newline [] st))

lines-line :
    {t l : Bytes} {after : Option Bytes}
    → FirstLine t l after
    → t ≢ []
    → (lines t ≡ l ∷ lines (behind after)) × (length (behind after) < length t)
unfolding lines
lines-line at_end ne = absurd (ne refl)
lines-line (at_newline e) ne = ground arith
lines-line (further e at_end) ne = ground arith
lines-line (further {c} e (at_newline {c = d} {t = t} q)) ne =
    let ih = lines-line (at_newline {c = d} {t = t} q) (λ h. cc) in ground (arith, ih.0, ih.1)
lines-line (further {c} e (further {c = d} {t = t} {l = l} {after = after} q f)) ne =
    let ih = lines-line (further {c = d} {t = t} {l = l} {after = after} q f) (λ h. cc) in
    ground (arith, ih.0, ih.1)

load_round-first :
    (t l : Bytes) (after : Option Bytes) (st : Loading)
    → FirstLine t l after
    → t ≢ []
    → load_round t st ≡ some (behind after, kept l st)
load_round-first [] l after st f ne = absurd (ne refl)
load_round-first (c ∷ t) [] after st f ne = first_empty f
  where
    first_empty :
        {after : Option Bytes}
        → FirstLine (c ∷ t) [] after
        → load_round (c ∷ t) st ≡ some (behind after, kept [] st)
    first_empty (at_newline e) = load_round-empty c t st e
load_round-first (c ∷ t) (d ∷ l) after st f ne = load_round-line (c ∷ t) d l after st f

load_loop-lines :
    (fuel : ℕ) (t : Bytes) (st : Loading)
    → length t < fuel
    → load_loop fuel t st ≡ load_lines (lines t) st
unfolding load_loop load_lines
load_loop-lines zero t st h = elim h [ ]
load_loop-lines (suc fuel) [] st h = unfold load_round fgets lines in refl
load_loop-lines (suc fuel) (c ∷ t) st h =
    let (l, after, f) = first_line (c ∷ t) in
    let (split, shorter) = lines-line f (λ e. cc) in
    ground (
      arith,
      split,
      shorter,
      load_round-first (c ∷ t) l after st f (λ e. cc),
      load_loop-lines fuel (behind after) (kept l st) (omega (arith, shorter)),
    )

-- The reader with its 512-byte buffer, its peeked byte and its skipping of over-long lines loads,
-- from any file without NUL bytes, exactly what taking the file's lines one by one does: each line
-- of at most 511 bytes counts, each longer one is ignored whole, and none is split.
pub load-lines :
    (text : Bytes)
    → load text ≡ (load_lines (lines text) (record { section = []; config = [] })).config
unfolding load
load-lines text =
    ap (λ (st : Loading). st.config)
      (load_loop-lines (suc (length text)) text (record { section = []; config = [] })
        (omega arith))
