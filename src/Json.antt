-- ===== src/Json.antt =====
-- The operations of cJSON that src/rss_ctrl_cmds.c, src/rss_ctrl_client.c and the response functions
-- of src/include/rss_common.h call. A tree is a value; what is added to a child object is added
-- before the child is.
use raptor_common.Base.Int.{ℤ}
use raptor_common.Base.{ℕ, List, [], Option, none, some, false, Bytes, ◌≡◌, ◌≢◌}
use raptor_common.Text.{case_eq}

pub record JsonLib : Type 1 where
  pub Json : Type 0
  pub parse : Bytes → Option Json
  -- cJSON_GetObjectItemCaseSensitive, and cJSON_GetObjectItem
  pub item : Json → Bytes → Option Json
  pub item_any_case : Json → Bytes → Option Json
  -- `valuestring` of a string, and the int of a number
  pub string_value : Json → Option Bytes
  pub number_value : Json → Option ℤ
  -- cJSON_CreateObject
  pub create : Option Json
  pub add_string : Json → Bytes → Bytes → Json
  pub add_number : Json → Bytes → ℤ → Json
  pub add_object : Json → Bytes → Json → Json
  pub add_numbers : Json → Bytes → List ℕ → Json
  -- cJSON_PrintPreallocated with a buffer of this size, unformatted
  pub print : ℕ → Json → Option Bytes

-- What the library documents of them.
pub record JsonLaws (J : JsonLib) : Type 0 where
  -- What is printed is parsed again.
  pub parse-print : (n : ℕ) (j : J.Json) (t : Bytes) → J.print n j ≡ some t → J.parse t ≡ some j
  pub parse_empty : J.parse [] ≡ none
  -- A string that is added under a name that was free is found there, and nothing else changes.
  pub item-add_string_same :
      (j : J.Json) (k v : Bytes)
      → J.item j k ≡ none
      → (i : J.Json) × (J.item (J.add_string j k v) k ≡ some i) × (J.string_value i ≡ some v)
  pub item-add_string_other :
      (j : J.Json) (k k' v : Bytes) → k' ≢ k → J.item (J.add_string j k v) k' ≡ J.item j k'
  pub item-add_number_other :
      (j : J.Json) (k k' : Bytes) (v : ℤ) → k' ≢ k → J.item (J.add_number j k v) k' ≡ J.item j k'
  pub item-create : (j : J.Json) (k : Bytes) → J.create ≡ some j → J.item j k ≡ none
  -- The search that ignores case, and finds the first name that agrees.
  pub item_any_case-create :
      (j : J.Json) (k : Bytes) → J.create ≡ some j → J.item_any_case j k ≡ none
  pub item_any_case-add_string_same :
      (j : J.Json) (k v : Bytes)
      → J.item_any_case j k ≡ none
      → (i : J.Json) × (J.item_any_case (J.add_string j k v) k ≡ some i)
        × (J.string_value i ≡ some v)
  pub item_any_case-add_string_other :
      (j : J.Json) (k k' v : Bytes)
      → case_eq k' k ≡ false
      → J.item_any_case (J.add_string j k v) k' ≡ J.item_any_case j k'
