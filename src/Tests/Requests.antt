-- ===== src/Tests/Requests.antt =====
-- Requests on the control socket at concrete inputs, over a small JSON library: a tree is a count of its
-- fields and their names and strings, each byte one up and a zero behind.
mod Runs
use raptor_common.Base.Int.{ℤ, pos}
use raptor_common.Base.{
  ℕ, zero, suc, Bool, true, false, List, [], ◌∷◌, ◌++◌, map, Option, none, some, codes,
  if◌then◌else◌, Bytes, ◌≡◌, ◌≢◌, refl, sym, ◌∙◌, ap, arith, Bool-cases, inl, inr,
}
use mathlib.Core.List.{append_assoc}
use raptor_common.Json.{JsonLib, JsonLaws}
use raptor_common.Text.Names.{str_eq_iff}
use raptor_common.Text.{str_eq, case_eq, fold_case}

abbrev encoded : Bytes → Bytes → Bytes
encoded [] rest = 0 ∷ rest
encoded (c ∷ s) rest = suc c ∷ encoded s rest

abbrev decode : Bytes → Bytes × Bytes
decode [] = ([], [])
decode (zero ∷ rest) = ([], rest)
decode (suc c ∷ rest) = let (s, behind) = decode rest in (c ∷ s, behind)

decode-encoded : (s rest : Bytes) → decode (encoded s rest) ≡ (s, rest)
decode-encoded [] rest = refl
decode-encoded (c ∷ s) rest = ap (λ (p : Bytes × Bytes). (c ∷ p.0, p.1)) (decode-encoded s rest)

abbrev field : ℕ → Bytes → Bytes → Option Bytes
field zero fields name = none
field (suc n) fields name =
    let (key, behind) = decode fields in
    let (value, rest) = decode behind in
    let next = field n rest name in if str_eq key name then some value else next

abbrev get_field : Bytes → Bytes → Option Bytes
get_field [] name = none
get_field (n ∷ fields) name = field n fields name

abbrev any_field : ℕ → Bytes → Bytes → Option Bytes
any_field zero fields name = none
any_field (suc n) fields name =
    let (key, behind) = decode fields in
    let (value, rest) = decode behind in
    let next = any_field n rest name in if case_eq name key then some value else next

abbrev get_any : Bytes → Bytes → Option Bytes
get_any [] name = none
get_any (n ∷ fields) name = any_field n fields name

abbrev put_field : Bytes → Bytes → Bytes → Bytes
put_field [] name value = 1 ∷ encoded name (encoded value [])
put_field (n ∷ fields) name value = suc n ∷ encoded name (encoded value fields)

abbrev parsed : Bytes → Option Bytes
parsed [] = none
parsed (b ∷ bs) = some (b ∷ bs)

abbrev small_json : JsonLib
small_json = record {
  Json = Bytes;
  parse = parsed;
  item = get_field;
  item_any_case = get_any;
  string_value = λ j. some j;
  number_value = λ j. none;
  create = some (0 ∷ []);
  add_string = put_field;
  add_number = λ j k v. put_field j k [];
  add_object = λ j k child. put_field j k child;
  add_numbers = λ j k ns. put_field j k [];
  print = λ n j. parsed j;
}

-- One step of the search, behind the first field.
field_first :
    (n : ℕ) (name value fields k : Bytes)
    → field (suc n) (encoded name (encoded value fields)) k
      ≡ (if str_eq name k then some value else field n fields k)
field_first n name value fields k =
    rw (decode-encoded name (encoded value fields), decode-encoded value fields) refl

get_same : (j k v : Bytes) → get_field (put_field j k v) k ≡ some v
get_same [] k v = field_first 0 k v [] k ∙ rw ((str_eq_iff k k).1 refl) refl
get_same (n ∷ fields) k v = field_first n k v fields k ∙ rw ((str_eq_iff k k).1 refl) refl

names_apart : (a b : Bytes) → a ≢ b → str_eq a b ≡ false
names_apart a b h = elim (Bool-cases (str_eq a b)) [
  | inl e ↦ absurd (h ((str_eq_iff a b).0 e))
  | inr e ↦ e
]

get_other : (j k k' v : Bytes) → k' ≢ k → get_field (put_field j k v) k' ≡ get_field j k'
get_other [] k k' v h = field_first 0 k v [] k' ∙ rw (names_apart k k' (λ e. h (sym e))) refl
get_other (n ∷ fields) k k' v h =
    field_first n k v fields k' ∙ rw (names_apart k k' (λ e. h (sym e))) refl

parsed_again : (j t : Bytes) → parsed j ≡ some t → parsed t ≡ some j
parsed_again [] t e = cc
parsed_again (b ∷ bs) t e =
    let same : some (b ∷ bs) ≡ some t = e in let shown : b ∷ bs ≡ t = cc in rw (sym shown) refl

created : (j k : Bytes) → some (0 ∷ []) ≡ some j → get_field j k ≡ none
created j k e = let shown : 0 ∷ [] ≡ j = cc in rw (sym shown) refl

any_first :
    (n : ℕ) (name value fields k : Bytes)
    → any_field (suc n) (encoded name (encoded value fields)) k
      ≡ (if case_eq k name then some value else any_field n fields k)
any_first n name value fields k =
    rw (decode-encoded name (encoded value fields), decode-encoded value fields) refl

case_eq_refl : (k : Bytes) → case_eq k k ≡ true
unfolding case_eq
case_eq_refl k = (str_eq_iff (fold_case k) (fold_case k)).1 refl

any_same : (j k v : Bytes) → get_any (put_field j k v) k ≡ some v
any_same [] k v = any_first 0 k v [] k ∙ rw (case_eq_refl k) refl
any_same (n ∷ fields) k v = any_first n k v fields k ∙ rw (case_eq_refl k) refl

any_other : (j k k' v : Bytes) → case_eq k' k ≡ false → get_any (put_field j k v) k' ≡ get_any j k'
any_other [] k k' v h = any_first 0 k v [] k' ∙ rw h refl
any_other (n ∷ fields) k k' v h = any_first n k v fields k' ∙ rw h refl

created_any : (j k : Bytes) → some (0 ∷ []) ≡ some j → get_any j k ≡ none
created_any j k e = let shown : 0 ∷ [] ≡ j = cc in rw (sym shown) refl

small_json-JsonLaws : JsonLaws small_json
small_json-JsonLaws = record {
  parse-print = λ n j t e. parsed_again j t e;
  parse_empty = refl;
  item-add_string_same = λ j k v free. (v, get_same j k v, refl);
  item-add_string_other = λ j k k' v h. get_other j k k' v h;
  item-add_number_other = λ j k k' v h. get_other j k k' [] h;
  item-create = λ j k e. created j k e;
  item_any_case-create = λ j k e. created_any j k e;
  item_any_case-add_string_same = λ j k v free. (v, any_same j k v, refl);
  item_any_case-add_string_other = λ j k k' v h. any_other j k k' v h;
}
