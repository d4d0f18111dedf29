-- ===== src/Control/Answers.antt =====
-- What a client (src/rss_ctrl_client.c) and the handler of its requests (src/rss_ctrl_cmds.c) make of each
-- other's messages.
use raptor_common.Base.{
  ℕ, zero, suc, true, false, [], Option, none, some, codes, Bytes, ◌≡◌, ◌≢◌, refl, arith,
  Option-cases, inl, inr,
}
use raptor_common.Control.Client.{resp_is_ok}
use raptor_common.Control.Common.{string_field}
use raptor_common.Control.{ok_object, error_object, resp_status, resp_ok, resp_error}
use raptor_common.Json.{JsonLib, JsonLaws}
use raptor_common.Text.Names.{str_eq_iff}
use raptor_common.Text.{str_eq, case_eq, fold_case, lower}

pub codes_apart : (a b : Bytes) → str_eq a b ≡ false → a ≢ b
codes_apart a b h e = absurd (ground (arith, h, (str_eq_iff a b).1 e))

module _ (J : JsonLib) (K : JsonLaws J) where
  -- The string that an object has under a name it got first.
  pub field_added :
      (r : J.Json) (k v : Bytes)
      → J.create ≡ some r
      → string_field J (J.add_string r k v) k ≡ some v
  field_added r k v e =
      let (i, found, value) = K.item-add_string_same r k v (K.item-create r k e) in
      rw (found, string_field) value

  -- The same for the client's search.
  abbrev any_field : J.Json → Bytes → Option Bytes
  any_field root key = elim (J.item_any_case root key) [ none ↦ none | some i ↦ J.string_value i ]

  any_field_added :
      (r : J.Json) (k v : Bytes) → J.create ≡ some r → any_field (J.add_string r k v) k ≡ some v
  any_field_added r k v e =
      let (i, found, value) =
        K.item_any_case-add_string_same r k v (K.item_any_case-create r k e) in
      rw (found, any_field) value

  -- An answer that was printed, read as the client reads it.
  read_answer :
      (n : ℕ) (j : J.Json) (t status : Bytes)
      → J.print n j ≡ some t
      → any_field j (codes "status") ≡ some status
      → resp_is_ok J (some t) ≡ str_eq status (codes "ok")
  unfolding resp_is_ok
  read_answer n j t status p f = elim (Option-cases (J.item_any_case j (codes "status"))) [
    | inl e ↦ absurd (ground (arith, e, f))
    | inr (i, e) ↦ ground (arith, K.parse-print n j t p, e, f)
  ]

  -- A client takes the answer of rss_ctrl_resp_ok, if it is created and fits, for a success.
  resp_is_ok-resp_ok :
      (room : ℕ) (r : J.Json) (t : Bytes)
      → J.create ≡ some r
      → J.print (suc room) (ok_object J r) ≡ some t
      → resp_is_ok J (some (resp_ok J (suc room))) ≡ true
  unfolding resp_ok resp_status str_eq
  resp_is_ok-resp_ok room r t e p =
      let same : resp_ok J (suc room) ≡ t = rw (e, p, resp_ok) refl in
      rw same (
        read_answer (suc room) (ok_object J r) t (codes "ok") p
          (any_field_added r (codes "status") (codes "ok") e))

  error_status :
      (r : J.Json) (reason : Bytes)
      → J.create ≡ some r
      → any_field (error_object J reason r) (codes "status") ≡ some (codes "error")
  unfolding str_eq case_eq fold_case lower
  error_status r reason e =
      let started = J.add_string r (codes "status") (codes "error") in
      let other =
        K.item_any_case-add_string_other started (codes "reason") (codes "status") reason refl in
      rw (other, any_field) (any_field_added r (codes "status") (codes "error") e)

  nothing_not_ok : resp_is_ok J (some []) ≡ false
  unfolding resp_is_ok
  nothing_not_ok = rw (K.parse_empty, resp_is_ok) refl

  -- Whatever rss_ctrl_resp_error answers, and whatever the reason and the size of the buffer, a
  -- client does not take it for a success, if cJSON parses what it prints, finds the strings that
  -- it was given and parses nothing in the empty text.
  pub resp_is_ok-resp_error :
      (size : ℕ) (reason : Bytes) → resp_is_ok J (some (resp_error J size reason)) ≡ false
  unfolding resp_error resp_status str_eq
  resp_is_ok-resp_error zero reason = nothing_not_ok
  resp_is_ok-resp_error (suc room) reason = elim (Option-cases J.create) [
    | inl e ↦
        let same : resp_error J (suc room) reason ≡ [] = rw (e, resp_error) refl in
        rw same nothing_not_ok
    | inr (r, e) ↦ elim (Option-cases (J.print (suc room) (error_object J reason r))) [
      | inl p ↦
          let same : resp_error J (suc room) reason ≡ [] = rw (e, p, resp_error) refl in
          rw same nothing_not_ok
      | inr (t, p) ↦
          let same : resp_error J (suc room) reason ≡ t = rw (e, p, resp_error) refl in
          rw same (
            read_answer (suc room) (error_object J reason r) t (codes "error") p
              (error_status r reason e))
    ]
  ]
