-- ===== src/Files.antt =====
-- `rss_mkdir_p` and the JSON getters of src/rss_util.c, over what they call: mkdir(2), true if it makes
-- the path or answers EEXIST, and the parser and accessors of cJSON.
pub mod Directories
use raptor_common.Base.Int.{ℤ}
use raptor_common.Base.{
  ℕ, zero, suc, Bool, true, false, List, [], ◌∷◌, ◌++◌, Option, none, some, ◌==◌, if◌then◌else◌,
  Bytes,
}
use raptor_common.Text.{strlcpy}

module _ {ℓ} {F : Type ℓ} (mkdir : Bytes → F → Bool × F) where
  -- The loop over the path, with what is in front of it, and the final component.
  unfoldable pub mkdir_walk : Bytes → Bytes → F → Bool × F
  mkdir_walk front [] f = mkdir front f
  mkdir_walk front (c ∷ rest) f =
      let made = mkdir front f in
      let f' = if c == b'/' then made.1 else f in
      let onward = mkdir_walk (front ++ c ∷ []) rest f' in
      if c == b'/' then (if made.0 then onward else made) else onward

  unfoldable pub mkdir_p : Bytes → F → Bool × F
  mkdir_p [] f = (false, f)
  mkdir_p (c ∷ path) f = mkdir_walk (c ∷ []) path f

abbrev and_then {ℓ κ} : {A : Type ℓ} → {B : Type κ} → Option A → (A → Option B) → Option B
and_then none k = none
and_then (some a) k = k a

module _ {ℓ} {Json : Type ℓ} (parse : Bytes → Option Json) (item : Json → Bytes → Option Json)
    (string_value : Json → Option Bytes) (int_value : Json → Option ℤ)
    (is_object : Json → Bool) where
  -- The getters; `none` is -1. A missing item is neither a string nor a number nor an object, and a
  -- buffer has a byte at least.
  unfoldable pub json_get_str : Bytes → Bytes → ℕ → Option Bytes
  json_get_str json key zero = none
  json_get_str json key (suc room) = and_then (parse json) λ root.
      and_then (item root key)
        λ value. and_then (string_value value) λ text. some (strlcpy [] (some text) (suc room)).0

  unfoldable pub json_get_int : Bytes → Bytes → Option ℤ
  json_get_int json key =
      and_then (parse json) λ root. and_then (item root key) λ value. int_value value

  unfoldable pub json_get_nested_int : Bytes → Bytes → Bytes → Option ℤ
  json_get_nested_int json parent key = and_then (parse json) λ root.
      and_then (item root parent)
        λ obj. and_then (if is_object obj then item obj key else none) λ value. int_value value
