-- ===== src/Config/Reads.antt =====
-- `rss_config_get_str` (src/rss_config.c), which stores the default of a miss for display, and the
-- reads after it.
use raptor_common.Base.{
  ◌≤◌, true, false, List, [], ◌∷◌, Option, none, some, ◌≡◌, refl, inl, inr, length, Bytes, arith,
  Option-cases,
}
use mathlib.Core.Option
use raptor_common.Config.Edit.{any_dirty, has_dirty}
use raptor_common.Config.Lookup.{clip, lookup-put_default, lookup-on_section_default}
use raptor_common.Config.Store.{
  on_section, overwrite, put_entry, add_entry_default, sec_name, lookup, new_section, stored_value,
  get_str,
}
use raptor_common.Config.Types.{Entry, Section, Config, update_first}
use raptor_common.Config.Update.{update_first-applies}
use raptor_common.Text.Names.{case_eq_refl}
use raptor_common.Text.Copying.{strlcpy_fits}
use raptor_common.Text.{case_eq, strlcpy}

lookup-add_default :
    (name key d n j : Bytes) (cfg : Config)
    → lookup name key cfg ≡ none
    → lookup n j (on_section name (add_entry_default key d) cfg).1 ≡ lookup n j cfg
lookup-add_default name key d n j cfg miss =
    lookup-on_section_default name (add_entry_default key d) key
      (λ s. unfold add_entry_default in refl)
      (λ i s. unfold add_entry_default in lookup-put_default key d i s.entries) n j cfg miss

-- A read changes what no read finds: whatever is asked, with whatever default, every section and
-- key answer as before.
pub lookup-get_str :
    (cfg : Config) (section : Option Bytes) (key : Bytes) (default : Option Bytes) (n j : Bytes)
    → lookup n j (get_str cfg section key default).1 ≡ lookup n j cfg
unfolding get_str
lookup-get_str cfg section key none n j = ground arith
lookup-get_str cfg section key (some d) n j =
    ground (arith, lookup-add_default (sec_name section) key d n j cfg)

stored_value-hit :
    (key d : Bytes) (es : List Entry) (e : Entry) (es' : List Entry)
    → update_first (λ x. case_eq x.key key) (overwrite d false true) es ≡ some (e, es')
    → stored_value key d es' ≡ clip d
unfolding update_first stored_value strlcpy
stored_value-hit key d [] e es' h = cc
stored_value-hit key d (x ∷ xs) e es' h =
    elim (Option-cases (update_first (λ x. case_eq x.key key) (overwrite d false true) xs)) [
      | inl no_hit ↦ ground (arith, no_hit)
      | inr ((y, ys), hit) ↦ ground (arith, hit, stored_value-hit key d xs y ys hit)
    ]

stored_value-put :
    (key d : Bytes) (es : List Entry)
    → length key ≤ 63
    → stored_value key d (put_entry key d false true es) ≡ clip d
unfolding put_entry
stored_value-put key d es fits =
    elim (Option-cases (update_first (λ x. case_eq x.key key) (overwrite d false true) es)) [
      | inl no_hit ↦
          unfold stored_value in
          ground (arith, no_hit, strlcpy_fits [] key 63 fits, case_eq_refl key)
      | inr ((y, ys), hit) ↦ ground (arith, hit, stored_value-hit key d es y ys hit)
    ]

-- The section that `on_section` hands back is one that `f` has been applied to.
on_section-applies :
    (name : Bytes) (f : Section → Section) (cfg : Config)
    → (s : Section) × ((on_section name f cfg).0 ≡ f s)
unfolding on_section
on_section-applies name f cfg =
    elim (Option-cases (update_first (λ s. case_eq s.name name) f cfg)) [
      | inl no_hit ↦ (new_section name, ground (arith, no_hit))
      | inr ((y, ys), hit) ↦
          let (s, e, _) = update_first-applies (λ s. case_eq s.name name) f cfg y ys hit in
          (s, ground (arith, hit, e))
    ]

-- A read answers with the visible entry, or else with its own default, cut to the value buffer.
pub get_str_lem :
    (cfg : Config) (section : Option Bytes) (key d : Bytes)
    → length key ≤ 63
    → (get_str cfg section key (some d)).0
      ≡ some (Option.get_or (lookup (sec_name section) key cfg) (clip d))
unfolding get_str
get_str_lem cfg section key d fits =
    let (s, e) = on_section-applies (sec_name section) (add_entry_default key d) cfg in
    let stored : stored_value key d (add_entry_default key d s).entries ≡ clip d =
      unfold add_entry_default in stored_value-put key d s.entries fits in
    ground (arith, e, stored)

-- Of two reads the first, of whatever key and with whatever default, does not change what the
-- second returns. (Keys of at most 63 bytes, as the store can hold.)
get_str-get_str :
    (cfg : Config) (section' section : Option Bytes) (key' key : Bytes) (default' : Option Bytes)
    (d : Bytes)
    → length key ≤ 63
    → (get_str (get_str cfg section' key' default').1 section key (some d)).0
      ≡ (get_str cfg section key (some d)).0
get_str-get_str cfg section' section key' key default' d fits = rw (
  get_str_lem (get_str cfg section' key' default').1 section key d fits,
  get_str_lem cfg section key d fits,
  lookup-get_str cfg section' key' default' (sec_name section) key,
)

any_dirty-defaulted :
    (key d : Bytes) (es : List Entry) (e : Entry) (es' : List Entry)
    → update_first (λ x. case_eq x.key key) (overwrite d false true) es ≡ some (e, es')
    → any_dirty es' ≡ any_dirty es
unfolding update_first any_dirty
any_dirty-defaulted key d [] e es' h = cc
any_dirty-defaulted key d (x ∷ xs) e es' h =
    elim (Option-cases (update_first (λ x. case_eq x.key key) (overwrite d false true) xs)) [
      | inl no_hit ↦ ground (arith, no_hit)
      | inr ((y, ys), hit) ↦ ground (arith, hit, any_dirty-defaulted key d xs y ys hit)
    ]

any_dirty-default :
    (key d : Bytes) (s : Section)
    → any_dirty (add_entry_default key d s).entries ≡ any_dirty s.entries
unfolding add_entry_default
any_dirty-default key d s =
    elim (Option-cases (update_first (λ x. case_eq x.key key) (overwrite d false true) s.entries)) [
      | inl no_hit ↦ unfold any_dirty in ground (arith, no_hit)
      | inr ((y, ys), hit) ↦ ground (arith, hit, any_dirty-defaulted key d s.entries y ys hit)
    ]

default_flags :
    (key d : Bytes) (s : Section)
    → ((add_entry_default key d s).removed ≡ s.removed)
      × ((add_entry_default key d s).dirty ≡ s.dirty)
unfolding add_entry_default
default_flags key d s = (refl, refl)

has_dirty-found :
    (key d name : Bytes) (cfg : Config) (s : Section) (cfg' : Config)
    → update_first (λ s. case_eq s.name name) (add_entry_default key d) cfg ≡ some (s, cfg')
    → has_dirty cfg' ≡ has_dirty cfg
unfolding update_first has_dirty
has_dirty-found key d name [] s cfg' h = cc
has_dirty-found key d name (x ∷ xs) s cfg' h =
    elim (Option-cases (update_first (λ s. case_eq s.name name) (add_entry_default key d) xs)) [
      | inl no_hit ↦ ground (arith, no_hit, default_flags key d x, any_dirty-default key d x)
      | inr ((y, ys), hit) ↦ ground (
        arith,
        hit,
        default_flags key d x,
        any_dirty-default key d x,
        has_dirty-found key d name xs y ys hit,
      )
    ]

has_dirty-default :
    (key d name : Bytes) (cfg : Config)
    → has_dirty (on_section name (add_entry_default key d) cfg).1 ≡ has_dirty cfg
unfolding on_section
has_dirty-default key d name cfg =
    elim (Option-cases (update_first (λ s. case_eq s.name name) (add_entry_default key d) cfg)) [
      | inl no_hit ↦
          let s = new_section name in
          unfold has_dirty any_dirty in
          ground (arith, no_hit, default_flags key d s, any_dirty-default key d s)
      | inr ((y, ys), hit) ↦ ground (arith, hit, has_dirty-found key d name cfg y ys hit)
    ]

-- A read gives a save nothing to write.
pub has_dirty-get_str :
    (cfg : Config) (section : Option Bytes) (key : Bytes) (default : Option Bytes)
    → has_dirty (get_str cfg section key default).1 ≡ has_dirty cfg
unfolding get_str
has_dirty-get_str cfg section key none = ground arith
has_dirty-get_str cfg section key (some d) =
    ground (arith, has_dirty-default key d (sec_name section) cfg)
