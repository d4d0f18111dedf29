-- ===== src/Config/Lookup.antt =====
-- How `rss_config_get_str`'s search (src/rss_config.c) answers after a write.
use raptor_common.Base.{
  ◌≤◌, Bool, true, false, ◌&&◌, List, [], ◌∷◌, Option, none, some, ◌≡◌, inl, inr, if◌then◌else◌,
  length, Bytes, arith, Option-cases,
}
use raptor_common.Config.Store.{
  on_section, overwrite, put_entry, lookup_entries, lookup, new_section,
}
use raptor_common.Config.Types.{Entry, Section, Config, max_val, update_first}
use raptor_common.Text.Names.{case_eq_left, case_eq_right}
use raptor_common.Text.Copying.{strlcpy_fits}
use raptor_common.Text.{case_eq, strlcpy}

-- A value as it is stored.
abbrev pub clip : Bytes → Bytes
clip v = (strlcpy [] (some v) max_val).0

module _ (key value : Bytes) (dirty : Bool) where
  abbrev written : List Entry → Option (Entry × List Entry)
  written = update_first (λ e. case_eq e.key key) (overwrite value dirty false)

  lookup-written :
      (j : Bytes) (es : List Entry) (e : Entry) (es' : List Entry)
      → written es ≡ some (e, es')
      → lookup_entries j es' ≡ (if case_eq key j then some (clip value) else lookup_entries j es)
  unfolding lookup_entries update_first strlcpy
  lookup-written j [] e es' h = cc
  lookup-written j (x ∷ xs) e es' h = elim (Option-cases (written xs)) [
    | inl no_hit ↦ ground (arith, case_eq_right x.key key j)
    | inr ((y, ys), hit) ↦ ground (
      arith,
      hit,
      case_eq_right x.key key j,
      case_eq_left key j x.key,
      lookup-written j xs y ys hit,
    )
  ]

  -- A write that is no default answers for its key, and for no other.
  pub lookup-put_entry :
      (j : Bytes) (es : List Entry)
      → length key ≤ 63
      → lookup_entries j (put_entry key value dirty false es)
        ≡ (if case_eq key j then some (clip value) else lookup_entries j es)
  unfolding put_entry
  lookup-put_entry j es fits = elim (Option-cases (written es)) [
    | inl no_hit ↦ unfold lookup_entries in ground (arith, no_hit, strlcpy_fits [] key 63 fits)
    | inr ((y, ys), hit) ↦ ground (arith, hit, lookup-written j es y ys hit)
  ]

module _ (key value : Bytes) where
  abbrev defaulted : List Entry → Option (Entry × List Entry)
  defaulted = update_first (λ e. case_eq e.key key) (overwrite value false true)

  lookup-defaulted :
      (j : Bytes) (es : List Entry) (e : Entry) (es' : List Entry)
      → defaulted es ≡ some (e, es')
      → lookup_entries key es ≡ none
      → lookup_entries j es' ≡ lookup_entries j es
  unfolding lookup_entries update_first
  lookup-defaulted j [] e es' h miss = cc
  lookup-defaulted j (x ∷ xs) e es' h miss = elim (Option-cases (defaulted xs)) [
    | inl no_hit ↦ ground arith
    | inr ((y, ys), hit) ↦ ground (arith, hit, lookup-defaulted j xs y ys hit)
  ]

  -- A default that is stored for a key with no visible entry changes no answer.
  pub lookup-put_default :
      (j : Bytes) (es : List Entry)
      → lookup_entries key es ≡ none
      → lookup_entries j (put_entry key value false true es) ≡ lookup_entries j es
  unfolding put_entry
  lookup-put_default j es miss = elim (Option-cases (defaulted es)) [
    | inl no_hit ↦ unfold lookup_entries in ground (arith, no_hit)
    | inr ((y, ys), hit) ↦ ground (arith, hit, lookup-defaulted j es y ys hit miss)
  ]

-- The section level. `f` is what a caller does to the section that it finds or makes.
module _ (name : Bytes) (f : Section → Section) where
  abbrev found : Config → Option (Section × Config)
  found = update_first (λ s. case_eq s.name name) f

  module _ (key : Bytes) (answer : Option Bytes) (same_name : (s : Section) → (f s).name ≡ s.name)
      (answers : (j : Bytes) (s : Section)
        → lookup_entries j (f s).entries
          ≡ (if case_eq key j then answer else lookup_entries j s.entries)) where
    lookup-found :
        (n j : Bytes) (cfg : Config) (s : Section) (cfg' : Config) (v : Bytes)
        → answer ≡ some v
        → found cfg ≡ some (s, cfg')
        → lookup n j cfg' ≡ (if case_eq name n && case_eq key j then answer else lookup n j cfg)
    unfolding lookup update_first
    lookup-found n j [] s cfg' v a h = cc
    lookup-found n j (x ∷ xs) s cfg' v a h = elim (Option-cases (found xs)) [
      | inl no_hit ↦ ground (arith, no_hit, same_name x, answers j x, case_eq_right x.name name n)
      | inr ((y, ys), hit) ↦ ground (
        arith,
        hit,
        same_name x,
        answers j x,
        case_eq_right x.name name n,
        case_eq_left name n x.name,
        lookup-found n j xs y ys v a hit,
      )
    ]

    pub lookup-on_section :
        (n j : Bytes) (cfg : Config) (v : Bytes)
        → answer ≡ some v
        → length name ≤ 63
        → lookup n j (on_section name f cfg).1
          ≡ (if case_eq name n && case_eq key j then answer else lookup n j cfg)
    unfolding on_section
    lookup-on_section n j cfg v a fits = elim (Option-cases (found cfg)) [
      | inl no_hit ↦
          unfold lookup lookup_entries in
          ground (
            arith,
            no_hit,
            same_name (new_section name),
            answers j (new_section name),
            strlcpy_fits [] name 63 fits,
          )
      | inr ((y, ys), hit) ↦ ground (arith, hit, lookup-found n j cfg y ys v a hit)
    ]

  -- A change that alters no answer of a section in which `key` is not visible.
  module _ (key : Bytes) (same_name : (s : Section) → (f s).name ≡ s.name)
      (keeps : (j : Bytes) (s : Section)
        → lookup_entries key s.entries ≡ none
        → lookup_entries j (f s).entries ≡ lookup_entries j s.entries) where
    lookup-found_default :
        (n j : Bytes) (cfg : Config) (s : Section) (cfg' : Config)
        → lookup name key cfg ≡ none
        → found cfg ≡ some (s, cfg')
        → lookup n j cfg' ≡ lookup n j cfg
    unfolding lookup update_first
    lookup-found_default n j [] s cfg' miss h = cc
    lookup-found_default n j (x ∷ xs) s cfg' miss h = elim (Option-cases (found xs)) [
      | inl no_hit ↦ ground (arith, no_hit, same_name x, keeps j x)
      | inr ((y, ys), hit) ↦
          ground (arith, hit, same_name x, keeps j x, lookup-found_default n j xs y ys)
    ]

    pub lookup-on_section_default :
        (n j : Bytes) (cfg : Config)
        → lookup name key cfg ≡ none
        → lookup n j (on_section name f cfg).1 ≡ lookup n j cfg
    unfolding on_section
    lookup-on_section_default n j cfg miss = elim (Option-cases (found cfg)) [
      | inl no_hit ↦
          unfold lookup lookup_entries in
          ground (arith, no_hit, same_name (new_section name), keeps j (new_section name))
      | inr ((y, ys), hit) ↦ ground (arith, hit, lookup-found_default n j cfg y ys miss)
    ]
