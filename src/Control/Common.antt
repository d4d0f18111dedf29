-- ===== src/Control/Common.antt =====
-- The commands of `rss_ctrl_handle_common` (src/rss_ctrl_cmds.c). The first part of a result is what the
-- response buffer holds, whose length the function returns, or `none` for -1.
use raptor_common.Base.Int.{ℤ, pos, negsuc}
use raptor_common.Base.{
  ℕ, zero, suc, Bool, List, [], ◌∷◌, Option, none, some, leb, if◌then◌else◌, take, get_or, codes,
  Bytes,
}
use raptor_common.Config.Edit.{foreach}
use raptor_common.Config.OnDisk.{disk_save}
use raptor_common.Config.Store.{get_str}
use raptor_common.Config.Types.{Config}
use raptor_common.Control.Machine.{
  no_affinity, allowed, Policy, sched_fifo, sched_rr, sched_other, Scheduler, Machine,
}
use raptor_common.Control.{resp, resp_ok, resp_error, resp_json}
use raptor_common.Daemon.{request_restart, request_shutdown}
use raptor_common.FileIo.Calls.{System}
use raptor_common.Json.{JsonLib}
use raptor_common.Log.{
  log_fatal, log_error, log_warn, log_info, log_debug, log_trace, set_level, get_level,
}
use raptor_common.Text.{str_eq}

-- The names of the levels, as "set-log-level" compares and "get-log-level" prints them.
unfoldable pub level_of : Bytes → Option ℕ
unfolding str_eq
level_of name =
    if str_eq name (codes "fatal")
    then some log_fatal
    else if str_eq name (codes "error")
    then some log_error
    else if str_eq name (codes "warn")
    then some log_warn
    else if str_eq name (codes "info")
    then some log_info
    else if str_eq name (codes "debug")
    then some log_debug
    else if str_eq name (codes "trace")
    then some log_trace
    else none

unfoldable pub name_of : ℕ → Bytes
name_of level =
    if leb level log_trace
    then get_or
        (codes "fatal"
          ∷ codes "error"
          ∷ codes "warn"
          ∷ codes "info"
          ∷ codes "debug"
          ∷ codes "trace"
          ∷ [])
        level []
    else codes "unknown"

-- The CPUs of the set below a bound, in order.
unfoldable pub cpus_from : ℕ → ℕ → (ℕ → Bool) → List ℕ
cpus_from zero i is_set = []
cpus_from (suc n) i is_set =
    let rest = cpus_from n (suc i) is_set in if is_set i then i ∷ rest else rest

abbrev pub count_of : ℤ → ℕ
count_of (pos n) = n
count_of (negsuc n) = 0

abbrev pub policy_name : Policy → Bytes
policy_name sched_fifo = codes "fifo"
policy_name sched_rr = codes "rr"
policy_name sched_other = codes "other"

module _ (J : JsonLib) where
  abbrev pub string_field : J.Json → Bytes → Option Bytes
  string_field root key = elim (J.item root key) [ none ↦ none | some i ↦ J.string_value i ]

  abbrev pub int_field : J.Json → Bytes → Option ℤ
  int_field root key = elim (J.item root key) [ none ↦ none | some i ↦ J.number_value i ]

  -- `section_dump_cb`
  abbrev pub section_dump_cb : Bytes → Bytes → J.Json → J.Json
  section_dump_cb key value keys = J.add_string keys key value

  abbrev pub section_object : Config → Bytes → Option J.Json
  section_object cfg section = elim J.create [
    | none ↦ none
    | some r ↦
        let named =
          J.add_string (J.add_string r (codes "status") (codes "ok")) (codes "section") section in
        some (J.add_object named (codes "keys") (foreach section_dump_cb cfg (some section) r).1)
  ]

module _ (S : System) (J : JsonLib) (C : Scheduler S.State) (fuel : ℕ) (path : Bytes) where
  abbrev pub Result : Type 0
  Result = Option Bytes × Machine S.State

  unfoldable pub config_get_section : J.Json → ℕ → Machine S.State → Result
  config_get_section root size m = elim (string_field J root (codes "section")) [
    | none ↦ (some (resp_error J size (codes "need section")), m)
    | some section ↦ (some (resp_json J size (section_object J m.config section)), m)
  ]

  -- A key that is not found, or a request without its names, is an empty response.
  unfoldable pub config_get : J.Json → ℕ → Machine S.State → Result
  config_get root size m = elim (string_field J root (codes "section")) [
    | none ↦ (some [], m)
    | some section ↦ elim (string_field J root (codes "key")) [
      | none ↦ (some [], m)
      | some key ↦
          let (found, cfg) = get_str m.config (some section) key none in
          elim found [
            | none ↦ (some [], record m { config = cfg })
            | some v ↦ (some (resp J size v), record m { config = cfg })
          ]
    ]
  ]

  unfoldable pub config_save : ℕ → Machine S.State → Result
  config_save size m =
      let (saved, os) = disk_save S fuel path m.config m.os in
      let m' : Machine S.State = record m { config = saved.config; os = os } in
      if saved.ok
      then (some (resp_ok J size), m')
      else (some (resp_error J size (codes "config save failed")), m')

  -- A CPU below the number of them, which is above 1.
  unfoldable pub pin_to : ℤ → ℤ → ℕ → Machine S.State → Result
  pin_to (negsuc n) cpu size m = (some (resp_error J size (codes "single-core system")), m)
  pin_to (pos n) cpu size m =
      if leb n 1 then (some (resp_error J size (codes "single-core system")), m) else elim cpu [
        | negsuc c ↦ (some (resp_error J size (codes "cpu out of range")), m)
        | pos c ↦
            if leb n c
            then (some (resp_error J size (codes "cpu out of range")), m)
            else let (failed, os) = C.sched_setaffinity c m.os in
              let m' : Machine S.State = record m { os = os } in
              elim failed [
                | none ↦ (some (resp_ok J size), m')
                | some reason ↦ (some (resp_error J size reason), m')
              ]
      ]

  unfoldable pub set_affinity : J.Json → ℕ → Machine S.State → Result
  unfolding pin_to
  set_affinity root size m = elim (int_field J root (codes "cpu")) [
    | none ↦ (some (resp_error J size (codes "need cpu")), m)
    | some cpu ↦ pin_to C.num_cpus cpu size m
  ]

  unfoldable pub affinity_object : (ℕ → Bool) → S.State → J.Json → J.Json
  unfolding cpus_from
  affinity_object is_set os r =
      let counted =
        J.add_number (J.add_string r (codes "status") (codes "ok")) (codes "ncpus") C.num_cpus in
      let listed =
        J.add_numbers counted (codes "cpus") (cpus_from (count_of C.num_cpus) 0 is_set) in
      J.add_number (J.add_string listed (codes "policy") (policy_name (C.policy os)))
        (codes "priority") (C.priority os)

  unfoldable pub get_affinity : ℕ → Machine S.State → Result
  unfolding affinity_object
  get_affinity size m = elim (C.sched_getaffinity m.os) [
    | no_affinity reason ↦ (some (resp_error J size reason), m)
    | allowed is_set ↦ elim J.create [
      | none ↦ (some (resp_error J size (codes "alloc fail")), m)
      | some r ↦ (some (resp_json J size (some (affinity_object is_set m.os r))), m)
    ]
  ]

  unfoldable pub handle_restart : ℕ → Machine S.State → Result
  handle_restart size m =
      (some (resp J size (codes "restarting")), record m { flags = request_restart m.flags })

  unfoldable pub handle_shutdown : ℕ → Machine S.State → Result
  handle_shutdown size m =
      (some (resp J size (codes "shutting down")), record m { flags = request_shutdown m.flags })

  -- What `level_str` holds: the value cut to its buffer, or nothing.
  abbrev pub level_text : Option Bytes → Bytes
  level_text none = []
  level_text (some v) = take 15 v

  unfoldable pub set_log_level : J.Json → ℕ → Machine S.State → Result
  unfolding level_of
  set_log_level root size m = elim (level_of (level_text (string_field J root (codes "value")))) [
    | none ↦ (some (resp_error J size (codes "need value: fatal|error|warn|info|debug|trace")), m)
    | some level ↦ (some (resp_ok J size), record m { log = set_level level m.log })
  ]

  unfoldable pub get_log_level : ℕ → Machine S.State → Result
  unfolding name_of
  get_log_level size m = (some (resp J size (name_of (get_level m.log))), m)

  unfoldable pub dispatch : Bytes → J.Json → ℕ → Machine S.State → Result
  dispatch cmd root size m =
      if str_eq cmd (codes "config-get-section")
      then config_get_section root size m
      else if str_eq cmd (codes "config-get")
      then config_get root size m
      else if str_eq cmd (codes "config-save")
      then config_save size m
      else if str_eq cmd (codes "set-affinity")
      then set_affinity root size m
      else if str_eq cmd (codes "get-affinity")
      then get_affinity size m
      else if str_eq cmd (codes "restart")
      then handle_restart size m
      else if str_eq cmd (codes "shutdown")
      then handle_shutdown size m
      else if str_eq cmd (codes "set-log-level")
      then set_log_level root size m
      else if str_eq cmd (codes "get-log-level")
      then get_log_level size m
      else (none, m)

  -- `rss_ctrl_handle_common`
  unfoldable pub handle_common : Bytes → ℕ → Machine S.State → Result
  unfolding dispatch
  handle_common cmd_json size m = elim (J.parse cmd_json) [
    | none ↦ (some (resp_error J size (codes "malformed JSON")), m)
    | some root ↦ elim (string_field J root (codes "cmd")) [
      | none ↦ (none, m)
      | some cmd ↦ dispatch cmd root size m
    ]
  ]
