-- ===== src/Config/Foreign.antt =====
-- What `config_write_surgical` (src/rss_config.c) leaves as it is: the lines of sections that no
-- dirty entry names.
use raptor_common.Base.{
  ℕ, suc, Bool, true, false, not, ◌||◌, List, [], ◌∷◌, ◌++◌, Option, Bytes, ◌≡◌, refl, ◌∙◌, ap,
  arith, Bool-cases, inl, inr,
}
use raptor_common.Config.Classify.{classify_line}
use raptor_common.Config.Lines.{lines}
use raptor_common.Config.Emit.{emit_where, after_line, verbatim, emit_old, emit_lines}
use raptor_common.Config.Surgical.{Ref, section_after, drop_gaps}
use raptor_common.Config.Binding.{reps, unused, Safe}
use raptor_common.Config.Emitted.{
  nothing, kept, Keeps, one_line, Keeps_behind, foreign_lines, reps-emit_where, find_rep-unused,
  emit_where-Whole, emit_old_free, emit_old-Whole, reps-emit_old,
}

-- The pairs that `drop_gaps` makes, with what `Safe` says of them at lines that are not blank.
abbrev pub SafePairs :
    (Bytes → Bool) → List (Option ℕ) → ℕ → Bytes → List Bytes → List (Bytes × Bool) → Type 0
SafePairs named os l cursec [] ps = Unit
SafePairs named os l cursec (line ∷ lines) [] = ⊥
SafePairs named os l cursec (line ∷ lines) ((a, x) ∷ ps) =
    (a ≡ line)
    × (named (section_after (classify_line line).kind cursec) ≡ false
        → (classify_line line).nonblank ≡ true
        → (x ≡ false) × (unused l os ≡ true))
    × SafePairs named os (suc l) (section_after (classify_line line).kind cursec) lines ps

pub drop_gaps-SafePairs :
    (named : Bytes → Bool) (os : List (Option ℕ)) (l : ℕ) (cursec : Bytes) (lines : List Bytes)
    (drops : List Bool)
    → Safe named os l cursec lines drops
    → SafePairs named os l cursec lines (drop_gaps lines drops)
unfolding drop_gaps
drop_gaps-SafePairs named os l cursec [] drops h = tt
drop_gaps-SafePairs named os l cursec (a ∷ []) [] h = elim h [ ]
drop_gaps-SafePairs named os l cursec (a ∷ b ∷ ls) [] h = elim h [ ]
drop_gaps-SafePairs named os l cursec (a ∷ b ∷ ls) (x ∷ []) h = elim h.1 [ ]
drop_gaps-SafePairs named os l cursec (a ∷ []) (x ∷ drops) h = (refl, (λ e n. h.0 e), tt)
drop_gaps-SafePairs named os l cursec (a ∷ b ∷ ls) (x ∷ y ∷ drops) h = (
  refl,
  (λ e n. (rw n (rw (h.0 e).0 (ground arith)), (h.0 e).1)),
  drop_gaps-SafePairs named os (suc l) (section_after (classify_line a).kind cursec) (b ∷ ls)
      (y ∷ drops) h.1,
)

foreign_passed :
    (named : Bytes → Bool) (cursec line : Bytes) (ls : List Bytes)
    → (named (section_after (classify_line line).kind cursec) || not (classify_line line).nonblank)
      ≡ true
    → foreign_lines named cursec (line ∷ ls)
      ≡ foreign_lines named (section_after (classify_line line).kind cursec) ls
unfolding foreign_lines
foreign_passed named cursec line ls e = ground (arith, e)

foreign_kept :
    (named : Bytes → Bool) (cursec line : Bytes) (ls : List Bytes)
    → (named (section_after (classify_line line).kind cursec) || not (classify_line line).nonblank)
      ≡ false
    → foreign_lines named cursec (line ∷ ls)
      ≡ line ∷ foreign_lines named (section_after (classify_line line).kind cursec) ls
unfolding foreign_lines
foreign_kept named cursec line ls e = ground (arith, e)

pub emit_lines-Keeps :
    (named : Bytes → Bool) (os : List (Option ℕ)) (l : ℕ) (cursec : Bytes) (ls : List Bytes)
    (ps : List (Bytes × Bool)) (refs : List Ref)
    → SafePairs named os l cursec ls ps
    → reps refs ≡ os
    → Keeps (foreign_lines named cursec ls) (emit_lines l ps refs).0
unfolding emit_lines
emit_lines-Keeps named os l cursec [] ps refs h e = unfold foreign_lines in nothing
emit_lines-Keeps named os l cursec (line ∷ ls) [] refs h e = elim h [ ]
emit_lines-Keeps named os l cursec (line ∷ ls) ((a, x) ∷ ps) refs h e =
    let old = emit_old l a x refs in
    let new = emit_where (after_line l) old.1 in
    let more = emit_lines (suc l) ps new.1 in
    let cur = section_after (classify_line line).kind cursec in
    let same = reps-emit_where (after_line l) old.1 ∙ reps-emit_old l a x refs ∙ e in
    let ih = emit_lines-Keeps named os (suc l) cur ls ps new.1 h.2 same in
    let behind = Keeps_behind new.0 more.0 (emit_where-Whole (after_line l) old.1) ih in
    elim (Bool-cases (named cur || not (classify_line line).nonblank)) [
      | inl p ↦
          rw (foreign_passed named cursec line ls p)
            (Keeps_behind old.0 (new.0 ++ more.0) (emit_old-Whole l a x refs) behind)
      | inr p ↦
          let safe = h.1 (ground (arith, p)) (ground (arith, p)) in
          let free = find_rep-unused l refs (ap (unused l) e ∙ safe.1) in
          let verb : old.0 ≡ verbatim line =
            ap (λ b. (emit_old l a b refs).0) safe.0
            ∙ ap (λ r. r.0) (emit_old_free l a refs free)
            ∙ ap verbatim h.0 in
          rw (foreign_kept named cursec line ls p) (
            kept line (new.0 ++ more.0)
              (ap (λ (s : Bytes). s ++ (new.0 ++ more.0)) verb ∙ one_line line (new.0 ++ more.0))
              behind)
    ]
