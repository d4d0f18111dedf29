-- ===== src/Config/Tidy.antt =====
-- Every operation of src/rss_config.c keeps the store tidy, if names fit their buffers.
use raptor_common.Base.{
  ◌≤◌, Bool, true, false, ◌||◌, List, [], ◌∷◌, Option, none, ◌≡◌, refl, ◌⊎◌, inl, inr, length,
  Bytes, arith, Option-cases,
}
use raptor_common.Config.Store.{on_section, overwrite, new_entry, put_entry, new_section}
use raptor_common.Config.Types.{Entry, Section, Config, update_first}
use raptor_common.Config.Unique.{AbsentKey, AbsentName, DistinctKeys, IsInvisible, AllSections}
use raptor_common.Config.Update.{Updated, here, there, update_first-Updated}
use raptor_common.Text.Copying.{strlcpy_fits}
use raptor_common.Text.{case_eq}

-- A write in place that keeps the key keeps the keys of the list apart.
module _ (test : Entry → Bool) (f : Entry → Entry)
    (same_key : (e : Entry) → (f e).key ≡ e.key) where
  pub AbsentKey-Updated :
      {es ys : List Entry} (j : Bytes) → Updated test f es ys → AbsentKey j es → AbsentKey j ys
  AbsentKey-Updated j (here {x} t) a = (rw (same_key x) a.0, a.1)
  AbsentKey-Updated j (there t u) a = (a.0, AbsentKey-Updated j u a.1)

  pub DistinctKeys-Updated :
      {es ys : List Entry} → Updated test f es ys → DistinctKeys es → DistinctKeys ys
  DistinctKeys-Updated (here {x} t) d = (rw (same_key x) d.0, d.1)
  DistinctKeys-Updated (there {x} t u) d =
      (AbsentKey-Updated x.key u d.0, DistinctKeys-Updated u d.1)

module _ (test : Entry → Bool) (f : Entry → Entry)
    (hides : (e : Entry)
      → (e.defaulted || e.removed) ≡ true
      → ((f e).defaulted || (f e).removed) ≡ true) where
  pub IsInvisible-Updated :
      {es ys : List Entry} → Updated test f es ys → IsInvisible es → IsInvisible ys
  IsInvisible-Updated (here {x} t) (i, is) = (hides x i, is)
  IsInvisible-Updated (there t u) (i, is) = (i, IsInvisible-Updated u is)

module _ (key value : Bytes) (dirty defaulted : Bool) where
  abbrev hit_in : List Entry → Option (Entry × List Entry)
  hit_in = update_first (λ e. case_eq e.key key) (overwrite value dirty defaulted)

  AbsentKey-miss : (es : List Entry) → hit_in es ≡ none → AbsentKey key es
  unfolding update_first
  AbsentKey-miss [] h = tt
  AbsentKey-miss (e ∷ es) h = elim (Option-cases (hit_in es)) [
    | inl no_hit ↦ (ground (arith, no_hit), AbsentKey-miss es no_hit)
    | inr ((z, zs), hit) ↦ absurd (ground (arith, hit))
  ]

  put_entry-cases :
      (es : List Entry)
      → (Updated
          (λ e. case_eq e.key key)
          (overwrite value dirty defaulted)
          es
          (put_entry key value dirty defaulted es))
        ⊎ (AbsentKey key es
            × (put_entry key value dirty defaulted es ≡ new_entry key value dirty defaulted ∷ es))
  unfolding put_entry
  put_entry-cases es = elim (Option-cases (hit_in es)) [
    | inl no_hit ↦ inr (AbsentKey-miss es no_hit, ground (arith, no_hit))
    | inr ((y, ys), hit) ↦
        let e : put_entry key value dirty defaulted es ≡ ys = ground (arith, hit) in
        inl (rw e (update_first-Updated _ _ es y ys hit))
  ]

  -- One more write, of any kind, leaves the keys of a section distinct.
  pub DistinctKeys-put_entry :
      (es : List Entry)
      → length key ≤ 63
      → DistinctKeys es
      → DistinctKeys (put_entry key value dirty defaulted es)
  DistinctKeys-put_entry es fits d = elim (put_entry-cases es) [
    | inl u ↦ DistinctKeys-Updated _ _ (λ x. refl) u d
    | inr (absent, e) ↦ rw (e, strlcpy_fits [] key 63 fits) (absent, d)
  ]

-- A default joins invisible entries as one more of them.
pub IsInvisible-default :
    (key value : Bytes) (es : List Entry)
    → IsInvisible es
    → IsInvisible (put_entry key value false true es)
IsInvisible-default key value es i = elim (put_entry-cases key value false true es) [
  | inl u ↦ IsInvisible-Updated _ _ (λ x h. ground arith) u i
  | inr (absent, e) ↦ rw e (refl, i)
]

-- The same of whole sections.
module _ (test : Section → Bool) (f : Section → Section) (P : Section → Type 0)
    (same_name : (s : Section) → (f s).name ≡ s.name) (keeps : (s : Section) → P s → P (f s)) where
  pub AbsentName-Updated :
      {cfg cfg' : Config} (n : Bytes)
      → Updated test f cfg cfg'
      → AbsentName n cfg
      → AbsentName n cfg'
  AbsentName-Updated n (here {x} t) a = (rw (same_name x) a.0, a.1)
  AbsentName-Updated n (there t u) a = (a.0, AbsentName-Updated n u a.1)

  pub AllSections-Updated :
      {cfg cfg' : Config} → Updated test f cfg cfg' → AllSections P cfg → AllSections P cfg'
  AllSections-Updated (here {x} t) a = (rw (same_name x) a.0, keeps x a.1, a.2)
  AllSections-Updated (there {x} t u) a =
      (AbsentName-Updated x.name u a.0, a.1, AllSections-Updated u a.2)

-- The section level: `f` is what a caller does to the section that it finds or makes.
module _ (name : Bytes) (f : Section → Section) where
  abbrev section_in : Config → Option (Section × Config)
  section_in = update_first (λ s. case_eq s.name name) f

  AbsentName-miss : (cfg : Config) → section_in cfg ≡ none → AbsentName name cfg
  unfolding update_first
  AbsentName-miss [] h = tt
  AbsentName-miss (s ∷ cfg) h = elim (Option-cases (section_in cfg)) [
    | inl no_hit ↦ (ground (arith, no_hit), AbsentName-miss cfg no_hit)
    | inr ((z, zs), hit) ↦ absurd (ground (arith, hit))
  ]

  on_section-cases :
      (cfg : Config)
      → (Updated (λ s. case_eq s.name name) f cfg (on_section name f cfg).1)
        ⊎ (AbsentName name cfg × ((on_section name f cfg).1 ≡ f (new_section name) ∷ cfg))
  unfolding on_section
  on_section-cases cfg = elim (Option-cases (section_in cfg)) [
    | inl no_hit ↦ inr (AbsentName-miss cfg no_hit, ground (arith, no_hit))
    | inr ((y, ys), hit) ↦
        let e : (on_section name f cfg).1 ≡ ys = ground (arith, hit) in
        inl (rw e (update_first-Updated _ _ cfg y ys hit))
  ]

  module _ (P : Section → Type 0) (same_name : (s : Section) → (f s).name ≡ s.name)
      (keeps : (s : Section) → P s → P (f s)) where
    pub AllSections-on_section :
        (cfg : Config)
        → length name ≤ 63
        → P (new_section name)
        → AllSections P cfg
        → AllSections P (on_section name f cfg).1
    AllSections-on_section cfg fits new a = elim (on_section-cases cfg) [
      | inl u ↦ AllSections-Updated _ _ P same_name keeps u a
      | inr (absent, e) ↦ rw e (
        rw (same_name (new_section name)) (rw (strlcpy_fits [] name 63 fits) absent),
        keeps (new_section name) new,
        a,
      )
    ]
