-- ===== src/Config/Store.antt =====
-- The in-memory operations of src/rss_config.c. The store, keys and values are never NULL here; a
-- section, a default or a written value that may be NULL is an `Option`. Allocation succeeds.
use raptor_common.Base.{
  Bool, true, false, not, ◌&&◌, ◌||◌, List, [], ◌∷◌, Option, none, some, codes, if◌then◌else◌,
  Bytes,
}
use raptor_common.Config.Types.{Entry, Section, Config, max_secn, max_key, max_val, update_first}
use raptor_common.Text.{case_eq, str_eq, strlcpy}

-- A section fresh from `calloc`, with its name copied in.
abbrev pub new_section : Bytes → Section
new_section name = record {
  name = (strlcpy [] (some name) max_secn).0;
  removed = false;
  dirty = false;
  entries = [];
}

-- `find_or_create_section`, and then what its caller does to the section that the pointer shows.
unfoldable pub on_section : Bytes → (Section → Section) → Config → Section × Config
unfolding update_first
on_section name f cfg = elim (update_first (λ s. case_eq s.name name) f cfg) [
  | some found ↦ found
  | none ↦ let s = f (new_section name) in (s, s ∷ cfg)
]

-- The branch of `add_entry_ex` for a key that is there.
abbrev pub overwrite : Bytes → Bool → Bool → Entry → Entry
overwrite value dirty defaulted e = record e {
  value = (strlcpy e.value (some value) max_val).0;
  dirty = e.dirty || dirty;
  defaulted = if defaulted then e.defaulted || e.removed else false;
  removed = if defaulted then e.removed else false;
}

abbrev pub new_entry : Bytes → Bytes → Bool → Bool → Entry
new_entry key value dirty defaulted = record {
  key = (strlcpy [] (some key) max_key).0;
  value = (strlcpy [] (some value) max_val).0;
  dirty = dirty;
  defaulted = defaulted;
  removed = false;
}

unfoldable pub put_entry : Bytes → Bytes → Bool → Bool → List Entry → List Entry
unfolding update_first
put_entry key value dirty defaulted es =
    elim (update_first (λ e. case_eq e.key key) (overwrite value dirty defaulted) es) [
      | some (e, written) ↦ written
      | none ↦ new_entry key value dirty defaulted ∷ es
    ]

unfoldable pub add_entry_ex : Bytes → Bytes → Bool → Bool → Section → Section
unfolding put_entry
add_entry_ex key value dirty defaulted sec = record sec {
  entries = put_entry key value dirty defaulted sec.entries;
}

unfoldable pub add_entry : Bytes → Bytes → Section → Section
unfolding add_entry_ex
add_entry key value = add_entry_ex key value false false

unfoldable pub add_entry_default : Bytes → Bytes → Section → Section
unfolding add_entry_ex
add_entry_default key value = add_entry_ex key value false true

-- `section ? section : ""`
abbrev pub sec_name : Option Bytes → Bytes
sec_name none = []
sec_name (some s) = s

-- The inner loop of `rss_config_get_str`: display-only and removed entries are passed over.
unfoldable pub lookup_entries : Bytes → List Entry → Option Bytes
lookup_entries key [] = none
lookup_entries key (e ∷ es) =
    if case_eq e.key key && not e.defaulted && not e.removed
    then some e.value
    else lookup_entries key es

-- Its outer loop, over every section of that name.
unfoldable pub lookup : Bytes → Bytes → Config → Option Bytes
unfolding lookup_entries
lookup name key [] = none
lookup name key (s ∷ cfg) =
    let rest = lookup name key cfg in
    if case_eq s.name name
    then elim (lookup_entries key s.entries) [ some v ↦ some v | none ↦ rest ]
    else rest

-- The loop that reads back what the miss path has stored.
unfoldable pub stored_value : Bytes → Bytes → List Entry → Bytes
stored_value key default [] = default
stored_value key default (e ∷ es) =
    if case_eq e.key key then e.value else stored_value key default es

-- `rss_config_get_str`: the result, and the store with the display-only entry of a miss.
unfoldable pub get_str : Config → Option Bytes → Bytes → Option Bytes → Option Bytes × Config
get_str cfg section key default = elim (lookup (sec_name section) key cfg) [
  | some v ↦ (some v, cfg)
  | none ↦ elim default [
    | none ↦ (none, cfg)
    | some d ↦
        let (ds, cfg') = on_section (sec_name section) (add_entry_default key d) cfg in
        (some (stored_value key d ds.entries), cfg')
  ]
]

abbrev pub bool_text : Bool → Bytes
bool_text true = codes "true"
bool_text false = codes "false"

-- The comparisons at the end of `rss_config_get_bool`.
unfoldable pub parse_bool : Bytes → Bool → Bool
unfolding case_eq str_eq
parse_bool v default =
    if case_eq v (codes "true")
      || case_eq v (codes "yes")
      || case_eq v (codes "on")
      || str_eq v (codes "1")
    then true
    else if case_eq v (codes "false")
        || case_eq v (codes "no")
        || case_eq v (codes "off")
        || str_eq v (codes "0")
    then false
    else default

unfoldable pub get_bool : Config → Option Bytes → Bytes → Bool → Bool × Config
get_bool cfg section key default =
    let (found, cfg') = get_str cfg section key none in
    elim found [
      | none ↦ (
        default,
        (on_section (sec_name section) (add_entry_default key (bool_text default)) cfg').1,
      )
      | some v ↦ (parse_bool v default, cfg')
    ]
