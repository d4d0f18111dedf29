-- ===== src/Config/Unique.antt =====
-- The shape that the store of src/rss_config.c keeps as long as names fit their buffers: no two
-- sections and no two keys of a section agree up to case, and a section taken out shows nothing.
use raptor_common.Base.{
  Bool, true, false, ◌||◌, List, [], ◌∷◌, Option, none, some, ◌≡◌, refl, inl, inr, if◌then◌else◌,
  Bytes, arith, Option-cases, Bool-cases,
}
use raptor_common.Config.Edit.{unset_entries}
use raptor_common.Config.Store.{lookup_entries, lookup}
use raptor_common.Config.Types.{Entry, Section, Config}
use raptor_common.Text.Names.{case_eq_left, case_eq_right}
use raptor_common.Text.{case_eq}

abbrev pub AbsentKey : Bytes → List Entry → Type 0
AbsentKey key [] = Unit
AbsentKey key (e ∷ es) = (case_eq e.key key ≡ false) × AbsentKey key es

abbrev pub DistinctKeys : List Entry → Type 0
DistinctKeys [] = Unit
DistinctKeys (e ∷ es) = AbsentKey e.key es × DistinctKeys es

abbrev pub AbsentName : Bytes → Config → Type 0
AbsentName name [] = Unit
AbsentName name (s ∷ cfg) = (case_eq s.name name ≡ false) × AbsentName name cfg

-- Every entry is display-only or removed.
abbrev pub IsInvisible : List Entry → Type 0
IsInvisible [] = Unit
IsInvisible (e ∷ es) = ((e.defaulted || e.removed) ≡ true) × IsInvisible es

pub record IsTidySection (s : Section) : Type 0 where
  pub keys : DistinctKeys s.entries
  pub hidden : s.removed ≡ true → IsInvisible s.entries

-- Names differ, and each section satisfies `P`.
abbrev pub AllSections : (Section → Type 0) → Config → Type 0
AllSections P [] = Unit
AllSections P (s ∷ cfg) = AbsentName s.name cfg × P s × AllSections P cfg

abbrev pub IsTidy : Config → Type 0
IsTidy = AllSections IsTidySection

abbrev pub is_some {ℓ} : {A : Type ℓ} → Option A → Bool
is_some none = false
is_some (some a) = true

pub AbsentKey-case :
    (k j : Bytes) (es : List Entry) → case_eq k j ≡ true → AbsentKey k es → AbsentKey j es
AbsentKey-case k j [] h a = tt
AbsentKey-case k j (e ∷ es) h a =
    (ground (arith, case_eq_left k j e.key), AbsentKey-case k j es h a.1)

pub AbsentName-case :
    (k j : Bytes) (cfg : Config) → case_eq k j ≡ true → AbsentName k cfg → AbsentName j cfg
AbsentName-case k j [] h a = tt
AbsentName-case k j (s ∷ cfg) h a =
    (ground (arith, case_eq_left k j s.name), AbsentName-case k j cfg h a.1)

pub lookup-AbsentKey :
    (key : Bytes) (es : List Entry) → AbsentKey key es → lookup_entries key es ≡ none
unfolding lookup_entries
lookup-AbsentKey key [] a = refl
lookup-AbsentKey key (e ∷ es) a = ground (arith, lookup-AbsentKey key es a.1)

pub lookup-AbsentName :
    (name key : Bytes) (cfg : Config) → AbsentName name cfg → lookup name key cfg ≡ none
unfolding lookup
lookup-AbsentName name key [] a = refl
lookup-AbsentName name key (s ∷ cfg) a = ground (arith, lookup-AbsentName name key cfg a.1)

pub lookup-IsInvisible :
    (key : Bytes) (es : List Entry) → IsInvisible es → lookup_entries key es ≡ none
unfolding lookup_entries
lookup-IsInvisible key [] a = refl
lookup-IsInvisible key (e ∷ es) a = ground (arith, lookup-IsInvisible key es a.1)

pub unset_entries-none :
    (key : Bytes) (es : List Entry) → unset_entries key es ≡ none → lookup_entries key es ≡ none
unfolding lookup_entries unset_entries
unset_entries-none key [] h = refl
unset_entries-none key (e ∷ es) h = ground (arith, unset_entries-none key es)

pub lookup-unset_entries :
    (key j : Bytes) (es : List Entry) (done : Bool) (es' : List Entry)
    → DistinctKeys es
    → unset_entries key es ≡ some (done, es')
    → (done ≡ is_some (lookup_entries key es))
      × (lookup_entries j es' ≡ (if case_eq key j then none else lookup_entries j es))
unfolding lookup_entries unset_entries
lookup-unset_entries key j [] done es' u h = cc
lookup-unset_entries key j (e ∷ es) done es' (a, u) h = elim (Bool-cases (case_eq e.key key)) [
  | inl here ↦
      let no_more = lookup-AbsentKey key es (AbsentKey-case e.key key es here a) in
      let none_of = λ (same : case_eq e.key j ≡ true).
        lookup-AbsentKey j es (AbsentKey-case e.key j es same a) in
      ground (arith, no_more, none_of, case_eq_right e.key key j)
  | inr later ↦ elim (Option-cases (unset_entries key es)) [
    | inl no_hit ↦ absurd (ground (arith, no_hit))
    | inr ((b, ys), hit) ↦
        let ih = lookup-unset_entries key j es b ys u hit in
        ground (arith, hit, ih.0, ih.1, case_eq_left key j e.key)
  ]
]

-- The spelling of a key's case does not matter to a search.
pub lookup_entries-case :
    (k j : Bytes) (es : List Entry) → case_eq k j ≡ true → lookup_entries j es ≡ lookup_entries k es
unfolding lookup_entries
lookup_entries-case k j [] h = refl
lookup_entries-case k j (e ∷ es) h =
    ground (arith, case_eq_left k j e.key, lookup_entries-case k j es h)
