-- ===== src/Config/Readable.antt =====
-- Keys, values and names that survive on lines of their own, and what trimming and cutting do to such
-- lines (src/rss_config.c).
use raptor_common.Base.{
  ℕ, ◌≤◌, Bool, true, false, not, ◌&&◌, ◌==◌, [], ◌∷◌, ◌++◌, none, some, length, Bytes, ◌≡◌, refl,
  arith,
}
use raptor_common.Config.Lines.{lines, load_lines, IsPlain}
use raptor_common.Config.Load.{Loading, load_line, find_comment}
use raptor_common.Text.{trim, trim_front, trim_back, is_space, split_at_char}

-- The first byte makes the line no comment and no header.
abbrev pub starts_key : Bytes → Bool
starts_key [] = false
starts_key (c ∷ s) = not (is_space c) && not (c == b'#') && not (c == b';') && not (c == b'[')

-- A key, a value and a name that survive on a line of their own.
pub record IsKey (k : Bytes) : Type 0 where
  pub starts : starts_key k ≡ true
  pub trimmed : trim_back k ≡ k
  pub no_equals : split_at_char b'=' k ≡ none
  pub one_line : IsPlain k
  pub fits : length k ≤ 63

pub record IsValue (v : Bytes) : Type 0 where
  pub trimmed_front : trim_front v ≡ v
  pub trimmed : trim_back v ≡ v
  pub no_comment : find_comment false v ≡ none
  pub one_line : IsPlain v
  pub fits : length v ≤ 255

pub record IsName (n : Bytes) : Type 0 where
  pub trimmed_front : trim_front n ≡ n
  pub trimmed : trim_back n ≡ n
  pub no_bracket : split_at_char b']' n ≡ none
  pub one_line : IsPlain n
  pub fits : length n ≤ 63

pub lines-line : (l rest : Bytes) → IsPlain l → lines (l ++ (b'\n' ∷ rest)) ≡ l ∷ lines rest
unfolding lines
lines-line [] rest p = refl
lines-line (c ∷ l) rest p = ground (arith, p.0, lines-line l rest p.1)

pub IsPlain-append : (a b : Bytes) → IsPlain a → IsPlain b → IsPlain (a ++ b)
IsPlain-append [] b p q = q
IsPlain-append (c ∷ a) b p q = (p.0, IsPlain-append a b p.1 q)

-- One line that fits.
pub load_lines-line :
    (l rest : Bytes) (st : Loading)
    → IsPlain l
    → length l ≤ 511
    → load_lines (lines (l ++ (b'\n' ∷ rest))) st ≡ load_lines (lines rest) (load_line l st)
load_lines-line l rest st p h = rw (lines-line l rest p) (unfold load_lines in ground (arith, h))

-- A last byte that is no white space protects what stands before it.
pub trim_back-append :
    (a : Bytes) (c : ℕ) (s : Bytes)
    → trim_back (c ∷ s) ≡ c ∷ s
    → trim_back (a ++ (c ∷ s)) ≡ a ++ (c ∷ s)
unfolding trim_back
trim_back-append [] c s e = e
trim_back-append (x ∷ []) c s e = ground (arith, e)
trim_back-append (x ∷ y ∷ a) c s e =
    trim_back_cons x y (a ++ (c ∷ s)) (trim_back-append (y ∷ a) c s e)
  where
    trim_back_cons :
        (x y : ℕ) (s : Bytes) → trim_back (y ∷ s) ≡ y ∷ s → trim_back (x ∷ y ∷ s) ≡ x ∷ y ∷ s
    trim_back_cons x y s e = rw (e, trim_back) refl

pub trim_back-space : (s : Bytes) → trim_back (s ++ (b' ' ∷ [])) ≡ trim_back s
unfolding trim_back is_space
trim_back-space [] = refl
trim_back-space (c ∷ s) = ground (arith, trim_back-space s)

pub split-append :
    (c : ℕ) (a b : Bytes) → split_at_char c a ≡ none → split_at_char c (a ++ (c ∷ b)) ≡ some (a, b)
unfolding split_at_char
split-append c [] b e = ground arith
split-append c (x ∷ a) b e = ground (arith, e, split-append c a b)

pub trim_front-append : (k s : Bytes) → starts_key k ≡ true → trim_front (k ++ s) ≡ k ++ s
unfolding trim_front
trim_front-append [] s h = absurd (ground (arith, h))
trim_front-append (c ∷ k) s h = ground (arith, h)

-- A value behind the blank that is printed in front of it.
pub trim_value : (v : Bytes) → IsValue v → trim (b' ' ∷ v) ≡ v
unfolding trim trim_front is_space
trim_value v iv = rw iv.trimmed_front iv.trimmed
