-- ===== src/Shadow/Field.antt =====
-- Which field of the password file `passwd_field` (src/rss_shadow.c) finds, in the bytes of the file.
use mathlib.Core.List.{append_assoc, append-nil}
use raptor_common.Base.{
  ℕ, zero, suc, ◌+◌, ◌-◌, Bool, true, false, not, ◌&&◌, ◌||◌, [], ◌∷◌, ◌++◌, none, some, ltb, ◌==◌,
  if◌then◌else◌, length, drop, get_or, Bytes, ◌≡◌, refl, sym, ◌∙◌, ap, arith, ◌⊎◌, inl, inr,
  Bool-cases,
}
use raptor_common.Config.Load.{fgets, ends_line}
use raptor_common.Shadow.{contains, until_either, field_at, field_loop, passwd_field}
use raptor_common.Text.{starts_with}

-- Every line has at most `max` bytes, and the first at most `room`.
unfoldable pub lines_fit : ℕ → ℕ → Bytes → Bool
lines_fit max room [] = true
lines_fit max room (c ∷ s) =
    let next = lines_fit max (room - 1) s in
    if c == b'\n' then lines_fit max max s else ltb 0 room && next

abbrev pub StartsLine : Bytes → Type 0
StartsLine before = (before ≡ []) ⊎ (ends_line before ≡ true)

abbrev pub Stops : Bytes → Type 0
Stops [] = Unit
Stops (c ∷ s) = (c == b':' || c == b'\r' || c == b'\n') ≡ true

-- A line of the text that starts with the user and a colon, and the bytes from there to the next
-- colon or the end of the line.
pub record IsFieldOf (user out text : Bytes) : Type 0 where
  pub before : Bytes
  pub rest : Bytes
  pub split : text ≡ before ++ (user ++ b':' ∷ (out ++ rest))
  pub starts : StartsLine before
  pub stops : Stops rest
  pub no_colon : contains b':' out ≡ false
  pub no_return : contains b'\r' out ≡ false
  pub no_newline : contains b'\n' out ≡ false

ends_line-append : (a : Bytes) (c : ℕ) (s : Bytes) → ends_line (a ++ c ∷ s) ≡ ends_line (c ∷ s)
unfolding ends_line
ends_line-append [] c s = refl
ends_line-append (x ∷ []) c s = refl
ends_line-append (x ∷ y ∷ a) c s = ends_line-append (y ∷ a) c s

ends_line_plain :
    (c : ℕ) (s : Bytes)
    → (c == b'\n') ≡ false
    → contains b'\n' s ≡ false
    → ends_line (c ∷ s) ≡ false
unfolding ends_line contains
ends_line_plain c [] h p = h
ends_line_plain c (d ∷ s) h p = ends_line_plain d s (ground (arith, p)) (ground (arith, p))

StartsLine-append :
    (line before : Bytes) → ends_line line ≡ true → StartsLine before → StartsLine (line ++ before)
StartsLine-append line [] e s = inr (rw (append-nil line) e)
StartsLine-append line (c ∷ before) e (inl s) = absurd (ground (arith, s))
StartsLine-append line (c ∷ before) e (inr s) = inr (ends_line-append line c before ∙ s)

ends_line_longer :
    (rest : Bytes) (c : ℕ) (line : Bytes)
    → (rest ≡ []) ⊎ (ends_line line ≡ true)
    → (rest ≡ []) ⊎ (ends_line (c ∷ line) ≡ true)
unfolding ends_line
ends_line_longer rest c line (inl e) = inl e
ends_line_longer rest c [] (inr e) = absurd (ground (arith, e))
ends_line_longer rest c (d ∷ line) (inr e) = inr e

-- A read of a line that fits the buffer ends with its newline, or with the text.
fgets-line :
    (max room : ℕ) (text : Bytes)
    → lines_fit max room text ≡ true
    → let r = fgets (suc room) text in
      (text ≡ r.0 ++ r.1) × ((r.1 ≡ []) ⊎ (ends_line r.0 ≡ true)) × (lines_fit max max r.1 ≡ true)
unfolding fgets lines_fit
fgets-line max room [] h = (refl, inl refl, refl)
fgets-line max zero (c ∷ text) h = elim (Bool-cases (c == b'\n')) [
  | inl stop ↦ rw stop (refl, inr (unfold ends_line in stop), ground (arith, h, stop))
  | inr on ↦ absurd (ground (arith, h, on))
]
fgets-line max (suc room) (c ∷ text) h = elim (Bool-cases (c == b'\n')) [
  | inl stop ↦ rw stop (refl, inr (unfold ends_line in stop), ground (arith, h, stop))
  | inr on ↦
      let (e, last, fits) = fgets-line max room text (ground (arith, h, on)) in
      rw on (
        ap (◌∷◌ c) e,
        ends_line_longer (fgets (suc room) text).1 c (fgets (suc room) text).0 last,
        fits,
      )
]

-- What `strcspn` and the NUL leave, and what is cut off.
until_either-split :
    (a b : ℕ) (s : Bytes)
    → (rest : Bytes) × (s ≡ until_either a b s ++ rest)
      × ((rest ≡ []) ⊎ ((c : ℕ) × (r : Bytes) × (rest ≡ c ∷ r) × ((c == a || c == b) ≡ true)))
      × (contains a (until_either a b s) ≡ false)
      × (contains b (until_either a b s) ≡ false)
unfolding until_either contains
until_either-split a b [] = ([], refl, inl refl, refl, refl)
until_either-split a b (c ∷ s) = elim (Bool-cases (c == a || c == b)) [
  | inl stop ↦ rw stop (c ∷ s, refl, inr (c, s, refl, stop), refl, refl)
  | inr on ↦
      let (rest, e, r, p, q) = until_either-split a b s in
      rw on (rest, ap (◌∷◌ c) e, r, ground (arith, on, p), ground (arith, on, q))
]

until_either-contains :
    (a b x : ℕ) (s : Bytes) → contains x s ≡ false → contains x (until_either a b s) ≡ false
unfolding until_either contains
until_either-contains a b x [] h = refl
until_either-contains a b x (c ∷ s) h = ground (arith, h, until_either-contains a b x s)

record IsField (p out : Bytes) : Type 0 where
  rest : Bytes
  split : p ≡ out ++ rest
  stops : Stops rest
  no_colon : contains b':' out ≡ false
  no_return : contains b'\r' out ≡ false
  no_newline : contains b'\n' out ≡ false

field_at-IsField : (p : Bytes) → IsField p (field_at p)
unfolding field_at
field_at-IsField p =
    let u = until_either b':' b':' p in
    let (r1, e1, s1, c1, d1) = until_either-split b':' b':' p in
    let (r2, e2, s2, c2, d2) = until_either-split b'\r' b'\n' u in
    record {
      rest = r2 ++ r1;
      split = e1 ∙ ap (λ (x : Bytes). x ++ r1) e2 ∙ append_assoc (until_either b'\r' b'\n' u) r2 r1;
      stops = stop r1 r2 s1 s2;
      no_colon = until_either-contains b'\r' b'\n' b':' u c1;
      no_return = c2;
      no_newline = d2;
    }
  where
    stop :
        (r1 r2 : Bytes)
        → (r1 ≡ []) ⊎ ((c : ℕ) × (r : Bytes) × (r1 ≡ c ∷ r) × ((c == b':' || c == b':') ≡ true))
        → (r2 ≡ []) ⊎ ((c : ℕ) × (r : Bytes) × (r2 ≡ c ∷ r) × ((c == b'\r' || c == b'\n') ≡ true))
        → Stops (r2 ++ r1)
    stop r1 r2 (inl e) (inl f) = rw (f, e) tt
    stop r1 r2 (inr (c, r, e, h)) (inl f) = rw (f, e) (ground (arith, h))
    stop r1 r2 q (inr (c, r, e, h)) = rw e (ground (arith, h))

starts_with-split :
    (line user : Bytes) → starts_with line user ≡ true → line ≡ user ++ drop (length user) line
unfolding starts_with
starts_with-split line [] h = refl
starts_with-split [] (u ∷ user) h = absurd (ground (arith, h))
starts_with-split (c ∷ line) (u ∷ user) h =
    let same : c ≡ u = ground (arith, h) in
    let e = starts_with-split line user (ground (arith, h)) in rw same (ap (◌∷◌ u) e)

drop_at :
    (n : ℕ) (line : Bytes)
    → (get_or line n 0 == b':') ≡ true
    → drop n line ≡ b':' ∷ drop (suc n) line
drop_at zero [] h = absurd (ground (arith, h))
drop_at zero (c ∷ line) h = let same : c ≡ b':' = ground (arith, h) in rw same refl
drop_at (suc n) [] h = absurd (ground (arith, h))
drop_at (suc n) (c ∷ line) h = drop_at n line h

-- The rest of a line and what follows it.
Stops-append :
    (rest after line : Bytes)
    → Stops rest
    → (after ≡ []) ⊎ (ends_line line ≡ true)
    → (rest ≡ [] → ends_line line ≡ false)
    → Stops (rest ++ after)
Stops-append (c ∷ rest) after line s last plain = s
Stops-append [] after line s (inl e) plain = rw e tt
Stops-append [] after line s (inr e) plain = absurd (ground (arith, e, plain refl))

found-IsFieldOf :
    (user line after : Bytes)
    → (after ≡ []) ⊎ (ends_line line ≡ true)
    → starts_with line user ≡ true
    → (get_or line (length user) 0 == b':') ≡ true
    → IsFieldOf user (field_at (drop (length user + 1) line)) (line ++ after)
found-IsFieldOf user line after last s colon =
    let p = drop (length user + 1) line in
    let one_more : suc (length user) ≡ length user + 1 = omega arith in
    let from_colon : drop (length user) line ≡ b':' ∷ p =
      drop_at (length user) line colon ∙ ap (λ n. b':' ∷ drop n line) one_more in
    let f = field_at-IsField p in
    let out = field_at p in
    let shape : line ≡ user ++ b':' ∷ p =
      starts_with-split line user s ∙ ap (λ (x : Bytes). user ++ x) from_colon in
    let split : line ≡ user ++ b':' ∷ (out ++ f.rest) =
      shape ∙ ap (λ (x : Bytes). user ++ b':' ∷ x) f.split in
    let plain : f.rest ≡ [] → ends_line line ≡ false = λ e.
      ap ends_line (split ∙ ap (λ (x : Bytes). user ++ b':' ∷ (out ++ x)) e)
      ∙ ends_line-append user b':' (out ++ [])
      ∙ ap (λ (x : Bytes). ends_line (b':' ∷ x)) (append-nil out)
      ∙ ends_line_plain b':' out refl f.no_newline in
    record {
      before = [];
      rest = f.rest ++ after;
      split =
          ap (λ (x : Bytes). x ++ after) split
          ∙ append_assoc user (b':' ∷ (out ++ f.rest)) after
          ∙ ap (λ (x : Bytes). user ++ b':' ∷ x) (append_assoc out f.rest after);
      starts = inl refl;
      stops = Stops-append f.rest after line f.stops last plain;
      no_colon = f.no_colon;
      no_return = f.no_return;
      no_newline = f.no_newline;
    }

behind-IsFieldOf :
    (user out line after : Bytes)
    → ends_line line ≡ true
    → IsFieldOf user out after
    → IsFieldOf user out (line ++ after)
behind-IsFieldOf user out line after e f = record {
  before = line ++ f.before;
  rest = f.rest;
  split =
      ap (λ (x : Bytes). line ++ x) f.split
      ∙ sym (append_assoc line f.before (user ++ b':' ∷ (out ++ f.rest)));
  starts = StartsLine-append line f.before e f.starts;
  stops = f.stops;
  no_colon = f.no_colon;
  no_return = f.no_return;
  no_newline = f.no_newline;
}

field_loop_end : (fuel : ℕ) (user : Bytes) → field_loop fuel 512 user [] ≡ none
unfolding field_loop fgets
field_loop_end zero user = refl
field_loop_end (suc fuel) user = refl

field_loop-IsFieldOf :
    (fuel : ℕ) (user text out : Bytes)
    → lines_fit 510 510 text ≡ true
    → field_loop fuel 512 user text ≡ some out
    → IsFieldOf user out text
unfolding field_loop
field_loop-IsFieldOf zero user text out fits h = cc
field_loop-IsFieldOf (suc fuel) user text out fits h =
    let (line, after) = fgets 511 text in
    let (e, last, fits') = fgets-line 510 510 text fits in
    elim (Bool-cases (length line == 0)) [
      | inl empty ↦ absurd (ground (arith, h, empty))
      | inr some_bytes ↦
          elim (Bool-cases
            (not (starts_with line user) || not (get_or line (length user) 0 == b':'))) [
              | inl other ↦
                  let next : field_loop fuel 512 user after ≡ some out =
                    ground (arith, h, some_bytes, other) in
                  elim last [
                    | inl ended ↦ absurd (
                        ground (
                          arith,
                          next,
                          ap (field_loop fuel 512 user) ended,
                          field_loop_end fuel user,
                        ))
                    | inr newline ↦ rw e (
                        behind-IsFieldOf user out line after newline
                          (field_loop-IsFieldOf fuel user after out fits' next))
                  ]
              | inr named ↦
                  let found : some (field_at (drop (length user + 1) line)) ≡ some out =
                    ground (arith, h, some_bytes, named) in
                  let same : field_at (drop (length user + 1) line) ≡ out = cc in
                  rw (e, sym same)
                    (found-IsFieldOf user line after last (ground (arith, named))
                      (ground (arith, named)))
            ]
    ]

-- In a file whose lines have at most 510 bytes.
pub passwd_field-IsFieldOf :
    (user text out : Bytes)
    → lines_fit 510 510 text ≡ true
    → passwd_field (some text) user 512 ≡ some out
    → IsFieldOf user out text
unfolding passwd_field
passwd_field-IsFieldOf [] text out fits h = cc
passwd_field-IsFieldOf (u ∷ user) text out fits h = elim (Bool-cases (contains b':' (u ∷ user))) [
  | inl colon ↦ absurd (ground (arith, h, colon))
  | inr plain ↦
      field_loop-IsFieldOf (suc (length text)) (u ∷ user) text out fits (ground (arith, h, plain))
]
