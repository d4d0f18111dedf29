-- ===== src/Config/Types.antt =====
-- The structures of src/rss_config.c. Its linked lists are lists with the newest element first,
-- and its character arrays are strings whose length the writers bound.
use raptor_common.Base.{ℕ, Bool, List, [], ◌∷◌, Option, none, some, if◌then◌else◌, Bytes}

-- MAX_LINE, MAX_SECN, MAX_KEY and MAX_VAL
abbrev pub max_line : ℕ
max_line = 512

abbrev pub max_secn : ℕ
max_secn = 64

abbrev pub max_key : ℕ
max_key = 64

abbrev pub max_val : ℕ
max_val = 256

-- `rss_config_entry_t`
pub record Entry : Type 0 where
  pub key : Bytes
  pub value : Bytes
  pub dirty : Bool
  pub defaulted : Bool
  pub removed : Bool

-- `rss_config_section_t`
pub record Section : Type 0 where
  pub name : Bytes
  pub removed : Bool
  pub dirty : Bool
  pub entries : List Entry

-- `rss_config_t`
abbrev pub Config : Type 0
Config = List Section

-- A walk to the first element that passes the test, which is then written in place. The result
-- is the element after the write with the list, or `none` if no element passes.
unfoldable pub update_first {ℓ} : {A : Type ℓ} → (A → Bool) → (A → A) → List A → Option (A × List A)
update_first test f [] = none
update_first test f (x ∷ xs) =
    let rest = update_first test f xs in
    if test x
    then some (f x, f x ∷ xs)
    else elim rest [ none ↦ none | some (y, ys) ↦ some (y, x ∷ ys) ]
