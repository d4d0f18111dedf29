-- ===== src/Config/Edit.antt =====
-- Walks over the store and its runtime changes (src/rss_config.c).
use raptor_common.Base.{
  ℕ, ◌+◌, Bool, true, false, not, ◌&&◌, ◌||◌, List, [], ◌∷◌, Option, none, some, if◌then◌else◌, ltb,
  length, Bytes,
}
use raptor_common.Config.Store.{on_section, add_entry_ex, sec_name, bool_text}
use raptor_common.Config.Types.{Entry, Section, Config, update_first}
use raptor_common.Text.{case_eq, starts_with_case}

-- `rss_config_foreach` over one section: the count so far and the callback's own data.
module _ {ℓ} {S : Type ℓ} (callback : Bytes → Bytes → S → S) where
  unfoldable pub foreach_entries : List Entry → ℕ × S → ℕ × S
  foreach_entries [] acc = acc
  foreach_entries (e ∷ es) (n, u) =
      foreach_entries es (if e.removed then (n, u) else (n + 1, callback e.key e.value u))

  unfoldable pub foreach_from : Bytes → Config → ℕ × S → ℕ × S
  unfolding foreach_entries
  foreach_from name [] acc = acc
  foreach_from name (s ∷ cfg) acc =
      foreach_from name cfg
        (if not (case_eq s.name name) || s.removed then acc else foreach_entries s.entries acc)

  -- `rss_config_foreach`
  unfoldable pub foreach : Config → Option Bytes → S → ℕ × S
  unfolding foreach_from
  foreach cfg section u = foreach_from (sec_name section) cfg (0, u)

module _ {ℓ} {S : Type ℓ} (callback : Bytes → S → S) where
  unfoldable pub foreach_section_from : Bytes → Config → ℕ × S → ℕ × S
  foreach_section_from prefix [] acc = acc
  foreach_section_from prefix (s ∷ cfg) (n, u) = foreach_section_from prefix cfg (
      if (ltb 0 (length prefix) && not (starts_with_case s.name prefix)) || s.removed
      then (n, u)
      else (n + 1, callback s.name u))

  -- `rss_config_foreach_section`; a NULL prefix has length 0.
  unfoldable pub foreach_section : Config → Option Bytes → S → ℕ × S
  unfolding foreach_section_from
  foreach_section cfg prefix u = foreach_section_from (sec_name prefix) cfg (0, u)

-- What `rss_config_set_str` does to the section that it has found or made.
abbrev pub write_section : Bytes → Bytes → Section → Section
write_section key value s =
    add_entry_ex key value true false (record s { removed = false; dirty = false })

-- `rss_config_set_str`: no section, or an empty one, is refused.
unfoldable pub set_str : Config → Option Bytes → Bytes → Bytes → Config
set_str cfg none key value = cfg
set_str cfg (some []) key value = cfg
set_str cfg (some (c ∷ name)) key value = (on_section (c ∷ name) (write_section key value) cfg).1

unfoldable pub set_bool : Config → Option Bytes → Bytes → Bool → Config
set_bool cfg section key value = set_str cfg section key (bool_text value)

abbrev pub mark_removed : Entry → Entry
mark_removed e = record e { dirty = true; removed = true }

-- The inner loop of `rss_config_unset`; `none` if no key matches.
unfoldable pub unset_entries : Bytes → List Entry → Option (Bool × List Entry)
unset_entries key [] = none
unset_entries key (e ∷ es) =
    let rest = unset_entries key es in
    if not (case_eq e.key key)
    then elim rest [ none ↦ none | some (done, es') ↦ some (done, e ∷ es') ]
    else if e.defaulted || e.removed
    then some (false, e ∷ es)
    else some (true, mark_removed e ∷ es)

unfoldable pub unset_in : Bytes → Bytes → Config → Bool × Config
unfolding unset_entries
unset_in name key [] = (false, [])
unset_in name key (s ∷ cfg) =
    let rest = unset_in name key cfg in
    let on : Bool × Config = (rest.0, s ∷ rest.1) in
    if not (case_eq s.name name) then on else elim (unset_entries key s.entries) [
      | none ↦ on
      | some (done, es) ↦ (done, record s { entries = es } ∷ cfg)
    ]

-- `rss_config_unset`
unfoldable pub unset : Config → Option Bytes → Bytes → Bool × Config
unset cfg section key = unset_in (sec_name section) key cfg

-- The entry loop of `rss_config_remove_section`.
unfoldable pub remove_entries : List Entry → List Entry
remove_entries [] = []
remove_entries (e ∷ es) =
    (if e.defaulted || e.removed then e else mark_removed e) ∷ remove_entries es

abbrev pub take_out : Section → Section
take_out s = record s { removed = true; dirty = true; entries = remove_entries s.entries }

-- `rss_config_remove_section`
unfoldable pub remove_section : Config → Option Bytes → Bool × Config
remove_section cfg none = (false, cfg)
remove_section cfg (some []) = (false, cfg)
remove_section cfg (some (c ∷ name)) =
    elim (update_first (λ s. case_eq s.name (c ∷ name) && not s.removed) take_out cfg) [
      | none ↦ (false, cfg)
      | some (s, cfg') ↦ (true, cfg')
    ]

unfoldable pub any_dirty : List Entry → Bool
any_dirty [] = false
any_dirty (e ∷ es) = e.dirty || any_dirty es

-- `rss_config_has_dirty`
unfoldable pub has_dirty : Config → Bool
has_dirty [] = false
has_dirty (s ∷ cfg) = (s.removed && s.dirty) || any_dirty s.entries || has_dirty cfg
