-- ===== src/Config/Binding.antt =====
-- Which lines the binding loop of `config_write_surgical` (src/rss_config.c) leaves alone.
use raptor_common.Base.{
  ℕ, suc, ◌<◌, Bool, true, false, not, ◌&&◌, ◌||◌, ltb, List, [], ◌∷◌, map, Option, none, some,
  Bytes, ◌≡◌, ◌⊎◌, refl, sym, ◌∙◌, ap, arith, Bool-cases, inl, inr,
}
use raptor_common.Config.Classify.{Kind, inert, header, key_line, LineInfo, classify_line}
use raptor_common.Config.Emit.{is_line}
use raptor_common.Config.Surgical.{
  Ref, section_after, bind_kind, bind_append, bind_ref, drops_line, any_drops, removed_after,
  bind_lines,
}
use mathlib.Core.Bool.{true≢false}
use raptor_common.Text.{case_eq}

-- Does anything dirty name this section?
abbrev pub names : List Ref → Bytes → Bool
names [] sec = false
names (r ∷ rs) sec = case_eq r.sec sec || names rs sec

abbrev pub reps : List Ref → List (Option ℕ)
reps [] = []
reps (r ∷ rs) = r.replace_line ∷ reps rs

-- No entry replaces line `l`.
abbrev pub unused : ℕ → List (Option ℕ) → Bool
unused l [] = true
unused l (o ∷ os) = not (is_line l o) && unused l os

abbrev earlier : ℕ → Option ℕ → Bool
earlier l none = true
earlier l (some k) = ltb k l

-- Only lines before `l` are replaced.
abbrev pub below : ℕ → List (Option ℕ) → Bool
below l [] = true
below l (o ∷ os) = earlier l o && below l os

pub below→unused : (l : ℕ) (os : List (Option ℕ)) → below l os ≡ true → unused l os ≡ true
below→unused l [] h = refl
below→unused l (none ∷ os) h = below→unused l os h
below→unused l (some k ∷ os) h = ground (arith, below→unused l os)

-- One round changes no section name, and binds to its own line only.
abbrev Stays : ℕ → Ref → Ref → Type 0
Stays l r r' = (r'.sec ≡ r.sec) × ((r'.replace_line ≡ r.replace_line) ⊎ (r'.replace_line ≡ some l))

bind_kind-Stays : (l : ℕ) (k : Kind) (r : Ref) → Stays l r (bind_kind l k r)
bind_kind-Stays l inert r = (refl, inl refl)
bind_kind-Stays l (header name) r = ground arith
bind_kind-Stays l (key_line key key_end com_off) r = ground arith

bind_append-Stays : (l : ℕ) (n : Bool) (r r' : Ref) → Stays l r r' → Stays l r (bind_append l n r')
bind_append-Stays l true r r' h = h
bind_append-Stays l false r r' h = h

bind_ref-Stays : (l : ℕ) (li : LineInfo) (cur : Bytes) (r : Ref) → Stays l r (bind_ref l li cur r)
unfolding bind_ref
bind_ref-Stays l li cur r = elim (Bool-cases (case_eq r.sec cur)) [
  | inl e ↦
      rw e (bind_append-Stays l li.nonblank r (bind_kind l li.kind r) (bind_kind-Stays l li.kind r))
  | inr e ↦ rw e ((refl, inl refl))
]

bind_ref_foreign :
    (l : ℕ) (li : LineInfo) (cur : Bytes) (r : Ref)
    → case_eq r.sec cur ≡ false
    → bind_ref l li cur r ≡ r
unfolding bind_ref
bind_ref_foreign l li cur r e = rw e refl

module _ (l : ℕ) (li : LineInfo) (cur : Bytes) where
  abbrev round : List Ref → List Ref
  round refs = map (bind_ref l li cur) refs

  names-round : (refs : List Ref) (c : Bytes) → names (round refs) c ≡ names refs c
  names-round [] c = refl
  names-round (r ∷ refs) c = rw (bind_ref-Stays l li cur r).0 (rw (names-round refs c) refl)

  unused-round :
      (k : ℕ) (refs : List Ref)
      → k < l
      → unused k (reps refs) ≡ true
      → unused k (reps (round refs)) ≡ true
  unused-round k [] h u = refl
  unused-round k (r ∷ refs) h u = ground (arith, bind_ref-Stays l li cur r, unused-round k refs)

  below-round :
      (refs : List Ref) → below l (reps refs) ≡ true → below (suc l) (reps (round refs)) ≡ true
  below-round [] b = refl
  below-round (r ∷ refs) b = ground (arith, bind_ref-Stays l li cur r, below-round refs)

  round_foreign : (refs : List Ref) → names refs cur ≡ false → round refs ≡ refs
  round_foreign [] e = refl
  round_foreign (r ∷ refs) e =
      let here : case_eq r.sec cur ≡ false = ground (arith, e) in
      let more : names refs cur ≡ false = ground (arith, e) in
      rw (bind_ref_foreign l li cur r here) (ap (◌∷◌ r) (round_foreign refs more))

  any_drops_foreign :
      (kind : Kind) (refs : List Ref) → names refs cur ≡ false → any_drops kind cur refs ≡ false
  unfolding any_drops
  any_drops_foreign kind [] e = refl
  any_drops_foreign kind (r ∷ refs) e =
      let here : case_eq r.sec cur ≡ false = ground (arith, e) in
      let more : names refs cur ≡ false = ground (arith, e) in
      rw (drops_line_foreign kind r here) (any_drops_foreign kind refs more)
    where
      drops_line_foreign :
          (kind : Kind) (r : Ref) → case_eq r.sec cur ≡ false → drops_line kind cur r ≡ false
      drops_line_foreign inert r e = refl
      drops_line_foreign (header name) r e = rw e refl
      drops_line_foreign (key_line key key_end com_off) r e = rw e refl

-- What the rest of a save may rely on at a line of a section that `named` does not hold of: it is not
-- dropped, and no entry replaces it.
abbrev pub Safe : (Bytes → Bool) → List (Option ℕ) → ℕ → Bytes → List Bytes → List Bool → Type 0
Safe named os l cursec [] drops = Unit
Safe named os l cursec (line ∷ lines) [] = ⊥
Safe named os l cursec (line ∷ lines) (x ∷ drops) =
    (named (section_after (classify_line line).kind cursec) ≡ false
      → (x ≡ false) × (unused l os ≡ true))
    × Safe named os (suc l) (section_after (classify_line line).kind cursec) lines drops

-- Lines that were passed stay out of reach.
unused-bind_lines :
    (k l : ℕ) (cursec : Bytes) (removed : Bool) (lines : List Bytes) (refs : List Ref)
    → k < l
    → unused k (reps refs) ≡ true
    → unused k (reps (bind_lines l cursec removed lines refs).0) ≡ true
unfolding bind_lines
unused-bind_lines k l cursec removed [] refs h u = u
unused-bind_lines k l cursec removed (line ∷ lines) refs h u =
    let li = classify_line line in
    let cur = section_after li.kind cursec in
    unused-bind_lines k (suc l) cur (removed_after li.kind removed cur refs) lines
      (round l li cur refs) (omega arith) (unused-round l li cur k refs h u)

-- A removed section is one that is named.
removed_named :
    (kind : Kind) (removed : Bool) (cursec : Bytes) (refs : List Ref)
    → (removed ≡ true → names refs cursec ≡ true)
    → names refs (section_after kind cursec) ≡ false
    → removed_after kind removed (section_after kind cursec) refs ≡ false
unfolding removed_after
removed_named inert removed cursec refs h e = elim (Bool-cases removed) [
  | inl t ↦ absurd (true≢false (sym (h t) ∙ e))
  | inr f ↦ f
]
removed_named (header name) removed cursec refs h e =
    any_drops_foreign 0 (classify_line []) name (header name) refs e
removed_named (key_line key key_end com_off) removed cursec refs h e = elim (Bool-cases removed) [
  | inl t ↦ absurd (true≢false (sym (h t) ∙ e))
  | inr f ↦ f
]

removed_stays :
    (kind : Kind) (removed : Bool) (cursec : Bytes) (refs : List Ref)
    → (removed ≡ true → names refs cursec ≡ true)
    → removed_after kind removed (section_after kind cursec) refs ≡ true
    → names refs (section_after kind cursec) ≡ true
removed_stays kind removed cursec refs h e =
    elim (Bool-cases (names refs (section_after kind cursec))) [
      | inl t ↦ t
      | inr f ↦ absurd (true≢false (sym e ∙ removed_named kind removed cursec refs h f))
    ]

pub bind_lines-Safe :
    (named : Bytes → Bool) (l : ℕ) (cursec : Bytes) (removed : Bool) (lines : List Bytes)
    (refs : List Ref)
    → ((c : Bytes) → names refs c ≡ named c)
    → (removed ≡ true → names refs cursec ≡ true)
    → below l (reps refs) ≡ true
    → Safe named
        (reps (bind_lines l cursec removed lines refs).0)
        l
        cursec
        lines
        (bind_lines l cursec removed lines refs).1
unfolding bind_lines
bind_lines-Safe named l cursec removed [] refs hn hr b = tt
bind_lines-Safe named l cursec removed (line ∷ lines) refs hn hr b =
    let li = classify_line line in
    let cur = section_after li.kind cursec in
    let gone = removed_after li.kind removed cur refs in
    let next = round l li cur refs in
    (
      (λ e.
          let foreign : names refs cur ≡ false = hn cur ∙ e in
          let kept = any_drops_foreign l li cur li.kind refs foreign in
          let shown = removed_named li.kind removed cursec refs hr foreign in
          (
            rw kept (rw shown refl),
            unused-bind_lines l (suc l) cur gone lines next (omega arith)
                (rw (round_foreign l li cur refs foreign) (below→unused l (reps refs) b)),
          )),
      bind_lines-Safe named (suc l) cur gone lines next (λ c. names-round l li cur refs c ∙ hn c)
          (λ e. names-round l li cur refs cur ∙ removed_stays li.kind removed cursec refs hr e)
          (below-round l li cur refs b),
    )
