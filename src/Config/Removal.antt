-- ===== src/Config/Removal.antt =====
-- `rss_config_unset` and `rss_config_remove_section` (src/rss_config.c): what reads find afterwards.
use raptor_common.Base.{
  Bool, true, not, ◌&&◌, List, [], ◌∷◌, Option, none, some, ◌≡◌, ◌≢◌, refl, inl, inr, if◌then◌else◌,
  Bytes, arith, Option-cases, Bool-cases,
}
use raptor_common.Config.Edit.{
  unset_entries, unset_in, unset, remove_entries, remove_section, take_out,
}
use raptor_common.Config.Store.{sec_name, lookup_entries, lookup}
use raptor_common.Config.Types.{Entry, Section, Config, update_first}
use raptor_common.Config.Unique.{
  IsTidy, is_some, AbsentName-case, lookup-AbsentName, lookup-IsInvisible, lookup_entries-case,
  unset_entries-none, lookup-unset_entries,
}
use raptor_common.Text.Names.{case_eq_left, case_eq_right}
use raptor_common.Text.{case_eq}

lookup-unset_in :
    (name key n j : Bytes) (cfg : Config)
    → IsTidy cfg
    → ((unset_in name key cfg).0 ≡ is_some (lookup name key cfg))
      × (lookup n j (unset_in name key cfg).1
          ≡ (if case_eq name n && case_eq key j then none else lookup n j cfg))
unfolding lookup unset_in
lookup-unset_in name key n j [] t = ground arith
lookup-unset_in name key n j (s ∷ cfg) (a, tidy, t) =
    let ih = lookup-unset_in name key n j cfg t in
    elim (Bool-cases (case_eq s.name name)) [
      | inl here ↦
          let others = lookup-AbsentName name key cfg (AbsentName-case s.name name cfg here a) in
          let others_of = λ (same : case_eq s.name n ≡ true).
            lookup-AbsentName n j cfg (AbsentName-case s.name n cfg same a) in
          elim (Option-cases (unset_entries key s.entries)) [
            | inl no_hit ↦ ground (
              arith,
              here,
              others,
              others_of,
              no_hit,
              unset_entries-none key s.entries no_hit,
              case_eq_right s.name name n,
              ih.0,
              ih.1,
              lookup_entries-case key j s.entries,
            )
            | inr ((b, ys), hit) ↦
                let inside = lookup-unset_entries key j s.entries b ys tidy.keys hit in
                ground (
                  arith,
                  here,
                  others,
                  others_of,
                  hit,
                  inside.0,
                  inside.1,
                  case_eq_right s.name name n,
                )
          ]
      | inr later ↦ ground (arith, later, ih.0, ih.1, case_eq_left name n s.name)
    ]

-- On a tidy store `rss_config_unset` returns true exactly if a read would have found the key, and
-- afterwards no read finds it, in any spelling; every other key answers as before.
pub lookup-unset :
    (cfg : Config) (section : Option Bytes) (key n j : Bytes)
    → IsTidy cfg
    → ((unset cfg section key).0 ≡ is_some (lookup (sec_name section) key cfg))
      × (lookup n j (unset cfg section key).1
          ≡ (if case_eq (sec_name section) n && case_eq key j then none else lookup n j cfg))
unfolding unset
lookup-unset cfg section key n j t = lookup-unset_in (sec_name section) key n j cfg t

lookup-remove_entries : (j : Bytes) (es : List Entry) → lookup_entries j (remove_entries es) ≡ none
unfolding lookup_entries remove_entries
lookup-remove_entries j [] = refl
lookup-remove_entries j (e ∷ es) = ground (arith, lookup-remove_entries j es)

module _ (name : Bytes) where
  abbrev present : Section → Bool
  present s = case_eq s.name name && not s.removed

  -- A walk that removes nothing has met no section of that name that still shows an entry.
  lookup-none :
      (n j : Bytes) (cfg : Config)
      → IsTidy cfg
      → update_first present take_out cfg ≡ none
      → case_eq name n ≡ true
      → lookup n j cfg ≡ none
  unfolding lookup update_first
  lookup-none n j [] t h same = refl
  lookup-none n j (s ∷ cfg) (a, tidy, t) h same =
      elim (Option-cases (update_first present take_out cfg)) [
        | inl no_hit ↦
            let hidden = λ (r : s.removed ≡ true). lookup-IsInvisible j s.entries (tidy.hidden r) in
            ground
              (arith, no_hit, hidden, case_eq_left name n s.name, lookup-none n j cfg t no_hit same)
        | inr ((y, ys), hit) ↦ absurd (ground (arith, hit))
      ]

  lookup_removed :
      (n j : Bytes) (cfg : Config) (y : Section) (ys : Config)
      → IsTidy cfg
      → update_first present take_out cfg ≡ some (y, ys)
      → lookup n j ys ≡ (if case_eq name n then none else lookup n j cfg)
  unfolding lookup update_first
  lookup_removed n j [] y ys t h = cc
  lookup_removed n j (s ∷ cfg) y ys (a, tidy, t) h = elim (Bool-cases (present s)) [
    | inl here ↦
        let others_of = λ (same : case_eq s.name n ≡ true).
          lookup-AbsentName n j cfg (AbsentName-case s.name n cfg same a) in
        ground
          (arith, here, others_of, lookup-remove_entries j s.entries, case_eq_right s.name name n)
    | inr later ↦ elim (Option-cases (update_first present take_out cfg)) [
      | inl no_hit ↦ absurd (ground (arith, no_hit))
      | inr ((z, zs), hit) ↦
          let hidden = λ (r : s.removed ≡ true). lookup-IsInvisible j s.entries (tidy.hidden r) in
          ground (
            arith,
            later,
            hit,
            hidden,
            case_eq_left name n s.name,
            lookup_removed n j cfg z zs t hit,
          )
    ]
  ]

-- On a tidy store `rss_config_remove_section`, given a name, leaves nothing of that section for a
-- read to find, whether it returns true or false; every other section answers as before.
pub lookup-remove_section :
    (cfg : Config) (name n j : Bytes)
    → name ≢ []
    → IsTidy cfg
    → lookup n j (remove_section cfg (some name)).1
      ≡ (if case_eq name n then none else lookup n j cfg)
unfolding remove_section
lookup-remove_section cfg [] n j ne t = absurd (ne refl)
lookup-remove_section cfg (c ∷ name) n j ne t =
    elim (Option-cases (update_first (present (c ∷ name)) take_out cfg)) [
      | inl no_hit ↦ ground (arith, no_hit, lookup-none (c ∷ name) n j cfg t no_hit)
      | inr ((y, ys), hit) ↦ ground (arith, hit, lookup_removed (c ∷ name) n j cfg y ys t hit)
    ]
