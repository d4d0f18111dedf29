-- ===== src/Control/Client.antt =====
-- src/rss_ctrl_client.c. `send` is rss_ctrl_send_command of the IPC library, on the socket's path and the
-- message; `none` is -1 without a message.
use raptor_common.Base.Int.{ℤ}
use raptor_common.Base.{Bool, false, [], Option, none, some, codes, Bytes}
use raptor_common.Json.{JsonLib}
use raptor_common.Text.{str_eq}

module _ (J : JsonLib) {R : Type 0} (send : Bytes → Bytes → R) where
  unfoldable pub ctrl_send_obj : Bytes → Option J.Json → Option R
  ctrl_send_obj sock_path none = none
  ctrl_send_obj sock_path (some obj) = elim (J.print 512 obj) [
    | none ↦ none
    | some msg ↦ some (send sock_path msg)
  ]

  -- The object that a request starts as.
  abbrev pub with_command : Bytes → (J.Json → J.Json) → Option J.Json
  with_command cmd fill = elim J.create [
    | none ↦ none
    | some o ↦ some (fill (J.add_string o (codes "cmd") cmd))
  ]

  unfoldable pub ctrl_cmd : Bytes → Bytes → Option R
  unfolding ctrl_send_obj
  ctrl_cmd sock_path cmd = ctrl_send_obj sock_path (with_command cmd (λ o. o))

  unfoldable pub ctrl_cmd_int : Bytes → Bytes → Bytes → ℤ → Option R
  unfolding ctrl_send_obj
  ctrl_cmd_int sock_path cmd key value =
      ctrl_send_obj sock_path (with_command cmd (λ o. J.add_number o key value))

  -- A NULL value is the empty string.
  abbrev pub value_text : Option Bytes → Bytes
  value_text none = []
  value_text (some v) = v

  unfoldable pub ctrl_cmd_str : Bytes → Bytes → Bytes → Option Bytes → Option R
  unfolding ctrl_send_obj
  ctrl_cmd_str sock_path cmd key value =
      ctrl_send_obj sock_path (with_command cmd (λ o. J.add_string o key (value_text value)))

module _ (J : JsonLib) where
  abbrev pub says_ok : Option Bytes → Bool
  says_ok none = false
  says_ok (some status) = str_eq status (codes "ok")

  unfoldable pub resp_is_ok : Option Bytes → Bool
  resp_is_ok none = false
  resp_is_ok (some resp) = elim (J.parse resp) [
    | none ↦ false
    | some parsed ↦ elim (J.item_any_case parsed (codes "status")) [
      | none ↦ false
      | some status ↦ says_ok (J.string_value status)
    ]
  ]
