-- ===== src/Control.antt =====
-- `rss_ctrl_handle_common` (src/rss_ctrl_cmds.c) with the responses of src/include/rss_common.h, over
-- cJSON, the system calls and the scheduler. Its log lines are left out.
pub mod Machine
pub mod Common
pub mod Effects
pub mod Session
pub mod Client
pub mod Answers
pub mod Levels
use raptor_common.Base.Int.{ℤ, pos}
use raptor_common.Base.{
  ℕ, zero, suc, ◌-◌, [], Option, none, some, if◌then◌else◌, take, codes, Bytes,
}
use raptor_common.Json.{JsonLib}

module _ (J : JsonLib) where
  -- What is left of a text in a buffer: nothing of one that does not fit.
  abbrev pub text_or_empty : Option Bytes → Bytes
  text_or_empty none = []
  text_or_empty (some text) = text

  -- `rss_ctrl_resp`, for a text that is formatted: what the buffer holds, whose length is the result. A
  -- buffer of size 0 holds nothing.
  unfoldable pub resp : ℕ → Bytes → Bytes
  resp size text = take (size - 1) text

  -- `{"status":"ok"}`
  abbrev pub ok_object : J.Json → J.Json
  ok_object r = J.add_string r (codes "status") (codes "ok")

  abbrev pub error_object : Bytes → J.Json → J.Json
  error_object reason r =
      J.add_string (J.add_string r (codes "status") (codes "error")) (codes "reason") reason

  -- A status response: an object that is not created or does not fit answers nothing.
  unfoldable pub resp_status : ℕ → (J.Json → J.Json) → Bytes
  resp_status zero fill = []
  resp_status (suc room) fill = elim J.create [
    | none ↦ []
    | some r ↦ text_or_empty (J.print (suc room) (fill r))
  ]

  unfoldable pub resp_ok : ℕ → Bytes
  unfolding resp_status
  resp_ok size = resp_status size ok_object

  unfoldable pub resp_error : ℕ → Bytes → Bytes
  unfolding resp_status
  resp_error size reason = resp_status size (error_object reason)

  unfoldable pub resp_json : ℕ → Option J.Json → Bytes
  unfolding resp_error
  resp_json size none = resp_error size (codes "json alloc failed")
  resp_json size (some j) = elim (J.print size j) [
    | none ↦ resp_error size (codes "response too large")
    | some text ↦ text
  ]
