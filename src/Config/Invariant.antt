-- ===== src/Config/Invariant.antt =====
-- The operations of src/rss_config.c keep the store tidy, as long as names fit their buffers.
use raptor_common.Base.{
  ◌≤◌, Bool, true, false, not, ◌&&◌, ◌||◌, List, [], ◌∷◌, Option, none, some, ◌≡◌, refl, inl, inr,
  if◌then◌else◌, length, Bytes, arith, Option-cases, Bool-cases,
}
use raptor_common.Config.Edit.{
  set_str, write_section, unset_entries, unset_in, mark_removed, remove_entries, remove_section,
  take_out,
}
use raptor_common.Config.Store.{
  on_section, add_entry_ex, add_entry_default, new_section, get_str, sec_name, lookup,
}
use raptor_common.Config.Tidy.{
  DistinctKeys-put_entry, IsInvisible-default, AllSections-on_section, DistinctKeys-Updated,
  IsInvisible-Updated, AllSections-Updated,
}
use raptor_common.Config.Types.{Entry, Section, Config, update_first}
use raptor_common.Config.Unique.{
  AbsentKey, AbsentName, DistinctKeys, IsInvisible, IsTidySection, IsTidy,
}
use raptor_common.Config.Update.{Updated, here, there, update_first-Updated}
use raptor_common.Text.{case_eq}

pub new_section-IsTidySection : (name : Bytes) → IsTidySection (new_section name)
new_section-IsTidySection name = record { keys = tt; hidden = λ r. tt }

default-IsTidySection :
    (key d : Bytes) (s : Section)
    → length key ≤ 63
    → IsTidySection s
    → IsTidySection (add_entry_default key d s)
unfolding add_entry_default
default-IsTidySection key d s fits t = record {
  keys = DistinctKeys-put_entry key d false true s.entries fits t.keys;
  hidden = λ r. IsInvisible-default key d s.entries (t.hidden r);
}

write-IsTidySection :
    (key v : Bytes) (s : Section)
    → length key ≤ 63
    → IsTidySection s
    → IsTidySection (write_section key v s)
unfolding add_entry_ex
write-IsTidySection key v s fits t = record {
  keys = DistinctKeys-put_entry key v true false s.entries fits t.keys;
  hidden = λ r. absurd (ground arith);
}

pub set_str-IsTidy :
    (cfg : Config) (section : Option Bytes) (key value : Bytes)
    → length (sec_name section) ≤ 63
    → length key ≤ 63
    → IsTidy cfg
    → IsTidy (set_str cfg section key value)
unfolding set_str
set_str-IsTidy cfg none key value p q t = t
set_str-IsTidy cfg (some []) key value p q t = t
set_str-IsTidy cfg (some (c ∷ name)) key value p q t =
    AllSections-on_section (c ∷ name) (write_section key value) IsTidySection
      (λ s. unfold add_entry_ex in refl) (λ s ts. write-IsTidySection key value s q ts) cfg p
      (new_section-IsTidySection (c ∷ name)) t

default-IsTidy :
    (cfg : Config) (name key d : Bytes)
    → length name ≤ 63
    → length key ≤ 63
    → IsTidy cfg
    → IsTidy (on_section name (add_entry_default key d) cfg).1
default-IsTidy cfg name key d p q t =
    AllSections-on_section name (add_entry_default key d) IsTidySection
      (λ s. unfold add_entry_default in refl) (λ s ts. default-IsTidySection key d s q ts) cfg p
      (new_section-IsTidySection name) t

pub get_str-IsTidy :
    (cfg : Config) (section : Option Bytes) (key : Bytes) (default : Option Bytes)
    → length (sec_name section) ≤ 63
    → length key ≤ 63
    → IsTidy cfg
    → IsTidy (get_str cfg section key default).1
unfolding get_str
get_str-IsTidy cfg section key default p q t =
    elim (Option-cases (lookup (sec_name section) key cfg)) [
      | inr (v, hit) ↦
          let e : (get_str cfg section key default).1 ≡ cfg = ground (arith, hit) in rw e t
      | inl miss ↦ stored default miss
    ]
  where
    stored :
        (d : Option Bytes)
        → lookup (sec_name section) key cfg ≡ none
        → IsTidy (get_str cfg section key d).1
    stored none miss =
        let e : (get_str cfg section key none).1 ≡ cfg = ground (arith, miss) in rw e t
    stored (some d) miss =
        let e : (get_str cfg section key (some d)).1
            ≡ (on_section (sec_name section) (add_entry_default key d) cfg).1 =
          ground (arith, miss) in
        rw e (default-IsTidy cfg (sec_name section) key d p q t)

abbrev unset_mark : Entry → Entry
unset_mark e = if e.defaulted || e.removed then e else mark_removed e

-- `rss_config_unset`'s walk changes at most the first entry of that key, and no key.
unset_entries-Updated :
    (key : Bytes) (es : List Entry) (done : Bool) (ys : List Entry)
    → unset_entries key es ≡ some (done, ys)
    → Updated (λ e. case_eq e.key key) unset_mark es ys
unfolding unset_entries
unset_entries-Updated key [] done ys h = cc
unset_entries-Updated key (e ∷ es) done ys h = elim (Bool-cases (case_eq e.key key)) [
  | inl hit ↦ let q : ys ≡ unset_mark e ∷ es = ground (arith, hit) in rw q (here hit)
  | inr later ↦ elim (Option-cases (unset_entries key es)) [
    | inl no_hit ↦ absurd (ground (arith, no_hit, later))
    | inr ((b, zs), rest) ↦
        let q : ys ≡ e ∷ zs = ground (arith, rest, later) in
        rw q (there later (unset_entries-Updated key es b zs rest))
  ]
]

unset_mark-key : (e : Entry) → (unset_mark e).key ≡ e.key
unset_mark-key e = ground arith

unset_mark-hides :
    (e : Entry)
    → (e.defaulted || e.removed) ≡ true
    → ((unset_mark e).defaulted || (unset_mark e).removed) ≡ true
unset_mark-hides e h = ground arith

unset-IsTidySection :
    (key : Bytes) (s : Section) (done : Bool) (ys : List Entry)
    → unset_entries key s.entries ≡ some (done, ys)
    → IsTidySection s
    → IsTidySection (record s { entries = ys })
unset-IsTidySection key s done ys h t =
    let u = unset_entries-Updated key s.entries done ys h in
    record {
      keys = DistinctKeys-Updated _ unset_mark unset_mark-key u t.keys;
      hidden = λ r. IsInvisible-Updated _ unset_mark unset_mark-hides u (t.hidden r);
    }

AbsentName-unset_in :
    (name key n : Bytes) (cfg : Config) → AbsentName n cfg → AbsentName n (unset_in name key cfg).1
unfolding unset_in
AbsentName-unset_in name key n [] a = tt
AbsentName-unset_in name key n (s ∷ cfg) a = elim (Bool-cases (case_eq s.name name)) [
  | inr other ↦ rw other (a.0, AbsentName-unset_in name key n cfg a.1)
  | inl same ↦ elim (Option-cases (unset_entries key s.entries)) [
    | inl no_hit ↦ rw (same, no_hit) (a.0, AbsentName-unset_in name key n cfg a.1)
    | inr ((b, ys), hit) ↦ rw (same, hit) a
  ]
]

pub unset_in-IsTidy :
    (name key : Bytes) (cfg : Config) → IsTidy cfg → IsTidy (unset_in name key cfg).1
unfolding unset_in
unset_in-IsTidy name key [] t = tt
unset_in-IsTidy name key (s ∷ cfg) (a, ts, t) = elim (Bool-cases (case_eq s.name name)) [
  | inr other ↦
      rw other (AbsentName-unset_in name key s.name cfg a, ts, unset_in-IsTidy name key cfg t)
  | inl same ↦ elim (Option-cases (unset_entries key s.entries)) [
    | inl no_hit ↦
        rw (same, no_hit)
          (AbsentName-unset_in name key s.name cfg a, ts, unset_in-IsTidy name key cfg t)
    | inr ((b, ys), hit) ↦ rw (same, hit) (a, unset-IsTidySection key s b ys hit ts, t)
  ]
]

AbsentKey-remove_entries :
    (j : Bytes) (es : List Entry) → AbsentKey j es → AbsentKey j (remove_entries es)
unfolding remove_entries
AbsentKey-remove_entries j [] a = tt
AbsentKey-remove_entries j (e ∷ es) a =
    (rw (unset_mark-key e) a.0, AbsentKey-remove_entries j es a.1)

remove_entries-DistinctKeys : (es : List Entry) → DistinctKeys es → DistinctKeys (remove_entries es)
unfolding remove_entries
remove_entries-DistinctKeys [] d = tt
remove_entries-DistinctKeys (e ∷ es) d = (
  rw (unset_mark-key e) (AbsentKey-remove_entries e.key es d.0),
  remove_entries-DistinctKeys es d.1,
)

remove_entries-IsInvisible : (es : List Entry) → IsInvisible (remove_entries es)
unfolding remove_entries
remove_entries-IsInvisible [] = tt
remove_entries-IsInvisible (e ∷ es) = (ground arith, remove_entries-IsInvisible es)

take_out-IsTidySection : (s : Section) → IsTidySection s → IsTidySection (take_out s)
take_out-IsTidySection s t = record {
  keys = remove_entries-DistinctKeys s.entries t.keys;
  hidden = λ r. remove_entries-IsInvisible s.entries;
}

pub remove_section-IsTidy :
    (cfg : Config) (section : Option Bytes) → IsTidy cfg → IsTidy (remove_section cfg section).1
unfolding remove_section
remove_section-IsTidy cfg none t = t
remove_section-IsTidy cfg (some []) t = t
remove_section-IsTidy cfg (some (c ∷ name)) t =
    elim (Option-cases
      (update_first (λ s. case_eq s.name (c ∷ name) && not s.removed) take_out cfg)) [
        | inl no_hit ↦
            let e : (remove_section cfg (some (c ∷ name))).1 ≡ cfg = ground (arith, no_hit) in
            rw e t
        | inr ((y, ys), hit) ↦
            let e : (remove_section cfg (some (c ∷ name))).1 ≡ ys = ground (arith, hit) in
            rw e (
              AllSections-Updated _ take_out IsTidySection (λ s. refl) take_out-IsTidySection
                (update_first-Updated _ _ cfg y ys hit) t)
      ]
