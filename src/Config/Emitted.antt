-- ===== src/Config/Emitted.antt =====
-- What the printing half of `config_write_surgical` (src/rss_config.c) emits ends its lines and binds
-- nothing, and the lines that a text keeps.
use mathlib.Core.List.{append_assoc, append-nil}
use raptor_common.Base.{
  ℕ, Bool, true, false, not, ◌&&◌, ◌||◌, List, [], ◌∷◌, ◌++◌, map, Option, none, some,
  if◌then◌else◌, Bytes, codes, ◌≡◌, ◌⊎◌, refl, sym, ◌∙◌, ap, arith, Option-cases, inl, inr,
}
use raptor_common.Config.Classify.{classify_line}
use raptor_common.Config.Lines.{lines}
use raptor_common.Config.Print.{entry_line}
use raptor_common.Config.Emit.{emit_where, find_rep, mark_rep, replaced_line, verbatim, emit_old}
use raptor_common.Config.Surgical.{Ref, section_after, settle}
use raptor_common.Config.Binding.{reps, unused}
use raptor_common.Config.Types.{Entry}

-- The lines that a text must keep, in order and whole: each stands behind the start of the text or
-- behind a newline.
pub data Keeps : List Bytes → Bytes → Type 0 where
  nothing : {out : Bytes} → Keeps [] out
  passed :
      {ls : List Bytes} {out : Bytes} (q rest : Bytes)
      → out ≡ q ++ (b'\n' ∷ rest)
      → Keeps ls rest
      → Keeps ls out
  kept :
      {ls : List Bytes} {out : Bytes} (l rest : Bytes)
      → out ≡ l ++ (b'\n' ∷ rest)
      → Keeps ls rest
      → Keeps (l ∷ ls) out

-- Bytes that end a line, or none.
abbrev pub Whole : Bytes → Type 0
Whole s = (s ≡ []) ⊎ ((q : Bytes) × (s ≡ q ++ (b'\n' ∷ [])))

pub one_line : (q s : Bytes) → (q ++ (b'\n' ∷ [])) ++ s ≡ q ++ (b'\n' ∷ s)
one_line q s = append_assoc q (b'\n' ∷ []) s

pub Whole-append : (a b : Bytes) → Whole a → Whole b → Whole (a ++ b)
Whole-append a b ha (inr (q, e)) =
    inr (a ++ q, ap (λ (s : Bytes). a ++ s) e ∙ sym (append_assoc a q (b'\n' ∷ [])))
Whole-append a b (inl e) (inl f) = inl (rw e f)
Whole-append a b (inr (q, e)) (inl f) = inr (q, rw f (append-nil a ∙ e))

pub Keeps_behind : {ls : List Bytes} (a out : Bytes) → Whole a → Keeps ls out → Keeps ls (a ++ out)
Keeps_behind a out (inl e) k = rw e k
Keeps_behind a out (inr (q, e)) k = passed q out (ap (λ (s : Bytes). s ++ out) e ∙ one_line q out) k

pub Keeps_more :
    {ls : List Bytes} {out : Bytes} (more : Bytes) → Keeps ls out → Keeps ls (out ++ more)
Keeps_more more nothing = nothing
Keeps_more more (passed q rest e k) =
    passed q (rest ++ more) (ap (λ (s : Bytes). s ++ more) e ∙ append_assoc q (b'\n' ∷ rest) more)
      (Keeps_more more k)
Keeps_more more (kept l rest e k) =
    kept l (rest ++ more) (ap (λ (s : Bytes). s ++ more) e ∙ append_assoc l (b'\n' ∷ rest) more)
      (Keeps_more more k)

-- Not blank, and in no section that `named` holds of.
unfoldable pub foreign_lines : (Bytes → Bool) → Bytes → List Bytes → List Bytes
foreign_lines named cursec [] = []
foreign_lines named cursec (line ∷ lines) =
    let li = classify_line line in
    let cur = section_after li.kind cursec in
    let rest = foreign_lines named cur lines in
    if named cur || not li.nonblank then rest else line ∷ rest

-- Emission changes no binding.
pub reps-emit_where :
    (test : Ref → Bool) (refs : List Ref) → reps (emit_where test refs).1 ≡ reps refs
unfolding emit_where
reps-emit_where test [] = refl
reps-emit_where test (r ∷ refs) = ground (arith, reps-emit_where test refs)

pub reps-mark_rep : (l : ℕ) (refs : List Ref) → reps (mark_rep l refs) ≡ reps refs
unfolding mark_rep
reps-mark_rep l [] = refl
reps-mark_rep l (r ∷ refs) = ground (arith, reps-mark_rep l refs)

pub reps-settle : (refs : List Ref) → reps (map settle refs) ≡ reps refs
reps-settle [] = refl
reps-settle (r ∷ refs) = ground (arith, reps-settle refs)

pub find_rep-unused :
    (l : ℕ) (refs : List Ref) → unused l (reps refs) ≡ true → find_rep l refs ≡ none
unfolding find_rep
find_rep-unused l [] h = refl
find_rep-unused l (r ∷ refs) h = ground (arith, h, find_rep-unused l refs)

-- What is emitted ends its lines.
pub entry_line-Whole : (k v : Bytes) → Whole (entry_line k v)
unfolding entry_line
entry_line-Whole k v = inr (k ++ (codes " = " ++ v), simp append_assoc refl)

abbrev pub emitted_by : Bool → Option Entry → Bytes
emitted_by emits none = []
emitted_by false (some e) = []
emitted_by true (some e) = entry_line e.key e.value

pub emitted_by-Whole : (emits : Bool) (o : Option Entry) → Whole (emitted_by emits o)
emitted_by-Whole emits none = inl refl
emitted_by-Whole false (some e) = inl refl
emitted_by-Whole true (some e) = entry_line-Whole e.key e.value

pub emit_where_cons :
    (test : Ref → Bool) (r : Ref) (refs : List Ref)
    → (emit_where test (r ∷ refs)).0
      ≡ emitted_by (not r.done && test r) r.target ++ (emit_where test refs).0
unfolding emit_where
emit_where_cons test r refs = ground arith

pub emit_where-Whole : (test : Ref → Bool) (refs : List Ref) → Whole (emit_where test refs).0
emit_where-Whole test [] = unfold emit_where in inl refl
emit_where-Whole test (r ∷ refs) =
    let front = emitted_by (not r.done && test r) r.target in
    rw (emit_where_cons test r refs) (
      Whole-append front (emit_where test refs).0 (emitted_by-Whole (not r.done && test r) r.target)
        (emit_where-Whole test refs))

pub replaced_line-Whole : (line : Bytes) (r : Ref) (e : Entry) → Whole (replaced_line line r e)
unfolding replaced_line
replaced_line-Whole line r e = whole_end _ e.value _
  where
    whole_end : (a v c : Bytes) → Whole (a ++ (codes " = " ++ (v ++ (c ++ (b'\n' ∷ [])))))
    whole_end a v c = inr (a ++ (codes " = " ++ (v ++ c)), simp append_assoc refl)

pub emit_old_free :
    (l : ℕ) (line : Bytes) (refs : List Ref)
    → find_rep l refs ≡ none
    → emit_old l line false refs ≡ (verbatim line, refs)
unfolding emit_old
emit_old_free l line refs n = ground (arith, n)

pub emit_old_header :
    (l : ℕ) (line : Bytes) (refs : List Ref) (r : Ref)
    → find_rep l refs ≡ some r
    → r.target ≡ none
    → emit_old l line false refs ≡ (verbatim line, refs)
unfolding emit_old
emit_old_header l line refs r k n = ground (arith, k, n)

pub emit_old_replaced :
    (l : ℕ) (line : Bytes) (refs : List Ref) (r : Ref) (e : Entry)
    → find_rep l refs ≡ some r
    → r.target ≡ some e
    → emit_old l line false refs ≡ (replaced_line line r e, mark_rep l refs)
unfolding emit_old
emit_old_replaced l line refs r e k t = ground (arith, k, t)

pub emit_old-Whole :
    (l : ℕ) (line : Bytes) (dropped : Bool) (refs : List Ref)
    → Whole (emit_old l line dropped refs).0
emit_old-Whole l line true refs = unfold emit_old in inl refl
emit_old-Whole l line false refs = elim (Option-cases (find_rep l refs)) [
  | inl n ↦ rw (emit_old_free l line refs n) (inr (line, refl))
  | inr (r, k) ↦ elim (Option-cases r.target) [
    | inl n ↦ rw (emit_old_header l line refs r k n) (inr (line, refl))
    | inr (e, t) ↦ rw (emit_old_replaced l line refs r e k t) (replaced_line-Whole line r e)
  ]
]

pub reps-emit_old :
    (l : ℕ) (line : Bytes) (dropped : Bool) (refs : List Ref)
    → reps (emit_old l line dropped refs).1 ≡ reps refs
unfolding emit_old
reps-emit_old l line true refs = reps-mark_rep l refs
reps-emit_old l line false refs = ground (arith, reps-mark_rep l refs)
