-- ===== src/Config/Reload.antt =====
-- A store that `config_write` prints and `rss_config_load` reads again (src/rss_config.c).
use mathlib.Core.List.{append_assoc, reverse_aux}
use raptor_common.Base.{
  ◌≤◌, false, List, [], ◌∷◌, ◌++◌, map, none, length, Bytes, ◌≡◌, ◌≢◌, refl, ◌∙◌, ap, arith,
}
use raptor_common.Config.Lines.{lines, load_lines}
use raptor_common.Config.Load.{Loading}
use raptor_common.Config.Plain.{plain_entries, plain_header}
use raptor_common.Config.Print.{entry_line, header_line, saved_entries}
use raptor_common.Config.Printed.{load_entry_line, load_header_line, load_blank_line}
use raptor_common.Config.Readable.{IsKey, IsValue, IsName}
use raptor_common.Config.Store.{on_section, add_entry, add_entry_ex, put_entry, overwrite}
use raptor_common.Config.Types.{Entry, Section, Config, update_first}
use raptor_common.Config.Unique.{AbsentKey, AbsentName, DistinctKeys}
use raptor_common.Text.Copying.{take_all}
use raptor_common.Text.Names.{case_eq_refl}
use raptor_common.Text.{case_eq, strlcpy}

-- What a file says of an entry and of a section.
abbrev pub bare : Entry → Entry
bare e = record e { dirty = false; defaulted = false; removed = false }

abbrev pub section_of : Bytes → List Entry → Section
section_of name es = record { name = name; removed = false; dirty = false; entries = es }

abbrev pub with_entries : Bytes → List Entry → Config → Config
with_entries name [] cfg = cfg
with_entries name (e ∷ es) cfg = section_of name (e ∷ es) ∷ cfg

-- The store without its defaults, its unset keys and the sections that have nothing else, and with
-- nothing unsaved.
unfoldable pub reloaded : Config → Config
reloaded [] = []
reloaded (s ∷ cfg) = with_entries s.name (map bare (saved_entries s.entries)) (reloaded cfg)

pub record IsWritable (e : Entry) : Type 0 where
  pub key : IsKey e.key
  pub value : IsValue e.value

abbrev pub AllWritable : List Entry → Type 0
AllWritable [] = Unit
AllWritable (e ∷ es) = IsWritable e × AllWritable es

-- Names and entries survive on lines of their own; no section is the global one.
abbrev pub IsPrintable : List Section → Type 0
IsPrintable [] = Unit
IsPrintable (s ∷ cfg) =
    (s.name ≢ []) × IsName s.name × AllWritable (saved_entries s.entries) × IsPrintable cfg

update_first_absent :
    (key : Bytes) (f : Entry → Entry) (es : List Entry)
    → AbsentKey key es
    → update_first (λ e. case_eq e.key key) f es ≡ none
unfolding update_first
update_first_absent key f [] a = refl
update_first_absent key f (e ∷ es) a = ground (arith, a.0, update_first_absent key f es a.1)

update_first_no_section :
    (name : Bytes) (f : Section → Section) (cfg : Config)
    → AbsentName name cfg
    → update_first (λ s. case_eq s.name name) f cfg ≡ none
unfolding update_first
update_first_no_section name f [] a = refl
update_first_no_section name f (s ∷ cfg) a =
    ground (arith, a.0, update_first_no_section name f cfg a.1)

-- An entry that is new to the open section.
add_bare :
    (name : Bytes) (e : Entry) (acc : List Entry)
    → IsWritable e
    → AbsentKey e.key acc
    → add_entry e.key e.value (section_of name acc) ≡ section_of name (bare e ∷ acc)
unfolding add_entry add_entry_ex put_entry strlcpy
add_bare name e acc w a =
    rw (update_first_absent e.key (overwrite e.value false false) acc a, put_entry)
      (rw (take_all 63 e.key w.key.fits) (rw (take_all 255 e.value w.value.fits) refl))

on_open :
    (name : Bytes) (f : Section → Section) (s : Section) (cfg : Config)
    → s.name ≡ name
    → (on_section name f (s ∷ cfg)).1 ≡ f s ∷ cfg
unfolding on_section update_first
on_open name f s cfg e = ground (arith, e, case_eq_refl name)

on_new :
    (name : Bytes) (f : Section → Section) (cfg : Config)
    → length name ≤ 63
    → AbsentName name cfg
    → (on_section name f cfg).1 ≡ f (section_of name []) ∷ cfg
unfolding on_section strlcpy
on_new name f cfg h a =
    rw (update_first_no_section name f cfg a, on_section) (rw (take_all 63 name h) refl)

-- What the entries of a section do to the store, the oldest first.
abbrev pub read_entries : Bytes → List Entry → Config → Config
read_entries name [] cfg = cfg
read_entries name (e ∷ es) cfg =
    read_entries name es (on_section name (add_entry e.key e.value) cfg).1

Distinct-tail : (xs acc : List Entry) → DistinctKeys (reverse_aux xs acc) → DistinctKeys acc
Distinct-tail [] acc d = d
Distinct-tail (x ∷ xs) acc d = (Distinct-tail xs (x ∷ acc) d).1

read_more :
    (name : Bytes) (es acc : List Entry) (cfg : Config)
    → AllWritable es
    → DistinctKeys (reverse_aux (map bare es) acc)
    → read_entries name es (section_of name acc ∷ cfg)
      ≡ section_of name (reverse_aux (map bare es) acc) ∷ cfg
read_more name [] acc cfg w d = refl
read_more name (e ∷ es) acc cfg w d =
    let fresh = (Distinct-tail (map bare es) (bare e ∷ acc) d).0 in
    ap (read_entries name es) (
      on_open name (add_entry e.key e.value) (section_of name acc) cfg refl
      ∙ ap (λ (s : Section). s ∷ cfg) (add_bare name e acc w.0 fresh))
    ∙ read_more name es (bare e ∷ acc) cfg w.1 d

pub read_new :
    (name : Bytes) (e : Entry) (es : List Entry) (cfg : Config)
    → length name ≤ 63
    → AbsentName name cfg
    → AllWritable (e ∷ es)
    → DistinctKeys (reverse_aux (map bare (e ∷ es)) [])
    → read_entries name (e ∷ es) cfg ≡ section_of name (reverse_aux (map bare (e ∷ es)) []) ∷ cfg
read_new name e es cfg h a w d =
    ap (read_entries name es) (
      on_new name (add_entry e.key e.value) cfg h a
      ∙ ap (λ (s : Section). s ∷ cfg) (add_bare name e [] w.0 tt))
    ∙ read_more name es (bare e ∷ []) cfg w.1 d

-- The printed entries, read.
load_printed_entries :
    (es : List Entry) (rest : Bytes) (st : Loading)
    → AllWritable es
    → load_lines (lines (plain_entries es ++ rest)) st
      ≡ load_lines (lines rest) (record st { config = read_entries st.section es st.config })
unfolding plain_entries
load_printed_entries [] rest st w = refl
load_printed_entries (e ∷ es) rest st w =
    ap (λ s. load_lines (lines s) st)
      (append_assoc (entry_line e.key e.value) (plain_entries es) rest)
    ∙ load_entry_line e.key e.value (plain_entries es ++ rest) st w.0.key w.0.value
    ∙ load_printed_entries es rest
        (record st { config = (on_section st.section (add_entry e.key e.value) st.config).1 }) w.1

load_printed_header :
    (out name rest : Bytes) (st : Loading)
    → name ≢ []
    → IsName name
    → load_lines (lines (plain_header out name ++ rest)) st
      ≡ load_lines (lines rest) (record st { section = name })
unfolding plain_header
load_printed_header out [] rest st n i = absurd (n refl)
load_printed_header [] (c ∷ name) rest st n i = load_header_line (c ∷ name) rest st i
load_printed_header (b ∷ out) (c ∷ name) rest st n i =
    load_blank_line (header_line (c ∷ name) ++ rest) st ∙ load_header_line (c ∷ name) rest st i

-- What a text that is printed so far does, whatever follows it.
abbrev pub Reads : Bytes → Loading → Loading → Type 0
Reads out start st =
    (rest : Bytes) → load_lines (lines (out ++ rest)) start ≡ load_lines (lines rest) st

pub plain_section-Reads_of :
    (out : Bytes) (start st : Loading) (s : Section) (es : List Entry)
    → s.name ≢ []
    → IsName s.name
    → AllWritable es
    → Reads out start st
    → Reads
        (out ++ (plain_header out s.name ++ plain_entries es))
        start
        (record { section = s.name; config = read_entries s.name es st.config })
plain_section-Reads_of out start st s es n i w r rest =
    let shape : (out ++ (plain_header out s.name ++ plain_entries es)) ++ rest
        ≡ out ++ (plain_header out s.name ++ (plain_entries es ++ rest)) =
      simp append_assoc refl in
    ap (λ t. load_lines (lines t) start) shape
    ∙ r (plain_header out s.name ++ (plain_entries es ++ rest))
    ∙ load_printed_header out s.name (plain_entries es ++ rest) st n i
    ∙ load_printed_entries es rest (record st { section = s.name }) w
