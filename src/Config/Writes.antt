-- ===== src/Config/Writes.antt =====
-- `rss_config_set_str` and `rss_config_set_bool` (src/rss_config.c): what later reads return.
use raptor_common.Base.{
  ◌≤◌, Bool, true, false, ◌&&◌, List, [], ◌∷◌, Option, none, some, ◌≡◌, ◌≢◌, refl, inl, inr,
  if◌then◌else◌, length, Bytes, arith, Option-cases,
}
use raptor_common.Config.Edit.{any_dirty, has_dirty, set_str, set_bool, write_section}
use raptor_common.Config.Lookup.{clip, lookup-put_entry, lookup-on_section}
use raptor_common.Config.Reads.{get_str_lem}
use raptor_common.Config.Store.{
  on_section, overwrite, add_entry_ex, sec_name, lookup, new_section, get_str, get_bool, parse_bool,
  bool_text,
}
use raptor_common.Config.Types.{Entry, Section, Config, update_first}
use raptor_common.Text.Names.{case_eq_refl}
use raptor_common.Text.{case_eq, lower, strlcpy}

-- A write with a section and names that fit answers for its key in its section, in any spelling of
-- the case, and for nothing else.
pub lookup-set_str :
    (cfg : Config) (name key value n j : Bytes)
    → name ≢ []
    → length name ≤ 63
    → length key ≤ 63
    → lookup n j (set_str cfg (some name) key value)
      ≡ (if case_eq name n && case_eq key j then some (clip value) else lookup n j cfg)
unfolding set_str
lookup-set_str cfg [] key value n j ne p q = absurd (ne refl)
lookup-set_str cfg (c ∷ name) key value n j ne p q =
    lookup-on_section (c ∷ name) (write_section key value) key (some (clip value))
      (λ s. unfold add_entry_ex in refl)
      (λ i s. unfold add_entry_ex in lookup-put_entry key value true i s.entries q) n j cfg
      (clip value) refl p

-- Without a section nothing is written.
set_str-no_section :
    (cfg : Config) (key value : Bytes)
    → (set_str cfg none key value ≡ cfg) × (set_str cfg (some []) key value ≡ cfg)
unfolding set_str
set_str-no_section cfg key value = (refl, refl)

-- After `rss_config_set_str` a read of any key returns the value written, cut to the buffer, if
-- section and key agree with the write up to case, and otherwise what it returned before. The
-- section is not empty and the names fit their buffers.
pub get_str-set_str :
    (cfg : Config) (name key value : Bytes) (section : Option Bytes) (j d : Bytes)
    → name ≢ []
    → length name ≤ 63
    → length key ≤ 63
    → length j ≤ 63
    → (get_str (set_str cfg (some name) key value) section j (some d)).0 ≡ (
        if case_eq name (sec_name section) && case_eq key j
        then some (clip value)
        else (get_str cfg section j (some d)).0)
get_str-set_str cfg name key value section j d ne p q r =
    rw
      (
        get_str_lem (set_str cfg (some name) key value) section j d r,
        get_str_lem cfg section j d r,
        lookup-set_str cfg name key value (sec_name section) j ne p q,
      )
      (ground arith)

parse-bool_text : (b default : Bool) → parse_bool (bool_text b) default ≡ b
unfolding parse_bool lower
parse-bool_text true default = refl
parse-bool_text false default = refl

clip-bool_text : (b : Bool) → clip (bool_text b) ≡ bool_text b
unfolding strlcpy
clip-bool_text true = refl
clip-bool_text false = refl

-- A Boolean that was set is read back, whatever the reader's default. The section is not empty and
-- the names fit their buffers.
get_bool-set_bool :
    (cfg : Config) (name key : Bytes) (b default : Bool)
    → name ≢ []
    → length name ≤ 63
    → length key ≤ 63
    → get_bool (set_bool cfg (some name) key b) (some name) key default
      ≡ (b, set_bool cfg (some name) key b)
unfolding get_bool get_str set_bool
get_bool-set_bool cfg name key b default ne p q = ground (
  arith,
  lookup-set_str cfg name key (bool_text b) name key ne p q,
  case_eq_refl name,
  case_eq_refl key,
  parse-bool_text b default,
  clip-bool_text b,
)

any_dirty-written :
    (key v : Bytes) (es : List Entry) (e : Entry) (es' : List Entry)
    → update_first (λ x. case_eq x.key key) (overwrite v true false) es ≡ some (e, es')
    → any_dirty es' ≡ true
unfolding update_first any_dirty
any_dirty-written key v [] e es' h = cc
any_dirty-written key v (x ∷ xs) e es' h =
    elim (Option-cases (update_first (λ x. case_eq x.key key) (overwrite v true false) xs)) [
      | inl no_hit ↦ ground (arith, no_hit)
      | inr ((y, ys), hit) ↦ ground (arith, hit, any_dirty-written key v xs y ys hit)
    ]

any_dirty-write : (key v : Bytes) (s : Section) → any_dirty (write_section key v s).entries ≡ true
unfolding add_entry_ex
any_dirty-write key v s =
    elim (Option-cases (update_first (λ x. case_eq x.key key) (overwrite v true false) s.entries)) [
      | inl no_hit ↦ unfold any_dirty in ground (arith, no_hit)
      | inr ((y, ys), hit) ↦ ground (arith, hit, any_dirty-written key v s.entries y ys hit)
    ]

has_dirty-found :
    (key v name : Bytes) (cfg : Config) (s : Section) (cfg' : Config)
    → update_first (λ s. case_eq s.name name) (write_section key v) cfg ≡ some (s, cfg')
    → has_dirty cfg' ≡ true
unfolding update_first has_dirty
has_dirty-found key v name [] s cfg' h = cc
has_dirty-found key v name (x ∷ xs) s cfg' h =
    elim (Option-cases (update_first (λ s. case_eq s.name name) (write_section key v) xs)) [
      | inl no_hit ↦ ground (arith, no_hit, any_dirty-write key v x)
      | inr ((y, ys), hit) ↦
          ground (arith, hit, any_dirty-write key v x, has_dirty-found key v name xs y ys hit)
    ]

-- A write with a section always leaves something for a save.
pub has_dirty-set_str :
    (cfg : Config) (name key value : Bytes)
    → name ≢ []
    → has_dirty (set_str cfg (some name) key value) ≡ true
unfolding set_str on_section
has_dirty-set_str cfg [] key value ne = absurd (ne refl)
has_dirty-set_str cfg (c ∷ name) key value ne =
    elim (Option-cases
      (update_first (λ s. case_eq s.name (c ∷ name)) (write_section key value) cfg)) [
        | inl no_hit ↦
            unfold has_dirty in
            ground (arith, no_hit, any_dirty-write key value (new_section (c ∷ name)))
        | inr ((y, ys), hit) ↦
            ground (arith, hit, has_dirty-found key value (c ∷ name) cfg y ys hit)
      ]
