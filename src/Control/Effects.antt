-- ===== src/Control/Effects.antt =====
-- What the control commands (src/rss_ctrl_cmds.c) change, and what they leave alone.
use raptor_common.Base.{
  ℕ, Bool, true, false, ◌||◌, Option, none, some, if◌then◌else◌, codes, Bytes, ◌≡◌, refl, ◌∙◌, ap,
  inl, inr, arith, Option-cases,
}
use raptor_common.Config.OnDisk.{text_read, is_zero_result, locked, perform, disk_save}
use raptor_common.Config.Save.{Saved, save}
use raptor_common.Config.SaveLaws.{save_lem}
use raptor_common.Config.Store.{lookup, get_str}
use raptor_common.Config.Types.{Config}
use raptor_common.Control.Common.{
  string_field, config_get_section, config_get, config_save, pin_to, set_affinity, get_affinity,
  handle_restart, handle_shutdown, set_log_level, get_log_level, dispatch, level_of, level_text,
}
use raptor_common.Control.Machine.{Scheduler, Machine}
use raptor_common.Daemon.{Flags, request_restart, request_shutdown}
use raptor_common.FileIo.Calls.{System}
use raptor_common.FileIo.{read_file, write_file_atomic}
use raptor_common.Json.{JsonLib}
use raptor_common.Text.Names.{str_eq_iff}
use raptor_common.Text.{str_eq}

-- The commands that change something.
unfoldable pub is_change : Bytes → Bool
unfolding str_eq
is_change cmd =
    str_eq cmd (codes "config-save")
    || str_eq cmd (codes "set-affinity")
    || str_eq cmd (codes "restart")
    || str_eq cmd (codes "shutdown")
    || str_eq cmd (codes "set-log-level")

get_str-config : (cfg : Config) (name key : Bytes) → (get_str cfg (some name) key none).1 ≡ cfg
unfolding get_str
get_str-config cfg name key = ground arith

module _ (J : JsonLib) where
  -- The name of the command that a request has.
  unfoldable pub command_of : Bytes → Option Bytes
  command_of cmd_json = elim (J.parse cmd_json) [
    | none ↦ none
    | some root ↦ string_field J root (codes "cmd")
  ]

-- What a command does to the flags.
unfoldable pub flags_after : Bytes → Flags → Flags
flags_after cmd f =
    if str_eq cmd (codes "restart")
    then record f { restart = true; running = false }
    else if str_eq cmd (codes "shutdown")
    then record f { running = false }
    else f

restart_apart :
    (cmd : Bytes)
    → str_eq cmd (codes "restart") ≡ true
    → (str_eq cmd (codes "config-get-section") ≡ false)
      × (str_eq cmd (codes "config-get") ≡ false)
      × (str_eq cmd (codes "config-save") ≡ false)
      × (str_eq cmd (codes "set-affinity") ≡ false)
      × (str_eq cmd (codes "get-affinity") ≡ false)
unfolding str_eq
restart_apart cmd h = rw ((str_eq_iff cmd (codes "restart")).0 h) (refl, refl, refl, refl, refl)

shutdown_apart :
    (cmd : Bytes)
    → str_eq cmd (codes "shutdown") ≡ true
    → (str_eq cmd (codes "config-get-section") ≡ false)
      × (str_eq cmd (codes "config-get") ≡ false)
      × (str_eq cmd (codes "config-save") ≡ false)
      × (str_eq cmd (codes "set-affinity") ≡ false)
      × (str_eq cmd (codes "get-affinity") ≡ false)
unfolding str_eq
shutdown_apart cmd h = rw ((str_eq_iff cmd (codes "shutdown")).0 h) (refl, refl, refl, refl, refl)

module _ (S : System) (J : JsonLib) (C : Scheduler S.State) (fuel : ℕ) (path : Bytes) where
  module _ (root : J.Json) (size : ℕ) (m : Machine S.State) where
    config_get_section-same : (config_get_section S J C fuel path root size m).1 ≡ m
    unfolding config_get_section
    config_get_section-same = ground arith

    config_get-same : (config_get S J C fuel path root size m).1 ≡ m
    unfolding config_get
    config_get-same = elim (Option-cases (string_field J root (codes "section"))) [
      | inl e ↦ ground (arith, e)
      | inr (section, e) ↦ elim (Option-cases (string_field J root (codes "key"))) [
        | inl f ↦ ground (arith, e, f)
        | inr (key, f) ↦ ground (arith, e, f, get_str-config m.config section key)
      ]
    ]

    get_affinity-same : (get_affinity S J C fuel path size m).1 ≡ m
    unfolding get_affinity
    get_affinity-same = ground arith

    get_log_level-same : (get_log_level S J C fuel path size m).1 ≡ m
    unfolding get_log_level
    get_log_level-same = refl

    config_save-log :
        ((config_save S J C fuel path size m).1.log ≡ m.log)
        × ((config_save S J C fuel path size m).1.flags ≡ m.flags)
    unfolding config_save
    config_save-log = ground arith

    set_affinity-kept :
        ((set_affinity S J C fuel path root size m).1.config ≡ m.config)
        × ((set_affinity S J C fuel path root size m).1.flags ≡ m.flags)
    unfolding set_affinity pin_to
    set_affinity-kept = ground arith

    set_log_level-kept :
        ((set_log_level S J C fuel path root size m).1.config ≡ m.config)
        × ((set_log_level S J C fuel path root size m).1.flags ≡ m.flags)
    unfolding set_log_level
    set_log_level-kept =
        let text = level_text S J C fuel path (string_field J root (codes "value")) in
        elim (Option-cases (level_of text)) [
          | inl e ↦ rw (e, set_log_level) (refl, refl)
          | inr (level, e) ↦ rw (e, set_log_level) (refl, refl)
        ]

    pub dispatch-same :
        (cmd : Bytes) → is_change cmd ≡ false → (dispatch S J C fuel path cmd root size m).1 ≡ m
    unfolding dispatch is_change
    dispatch-same cmd h =
        ground (
          arith, h, config_get_section-same, config_get-same, get_affinity-same, get_log_level-same,
        )

  perform-result :
      (lock : Option ℕ) (s t : S.State) (r : Saved) → (perform S fuel path lock s t r).0 ≡ r
  unfolding perform
  perform-result lock s t r = ground arith

  lookup-disk_save :
      (cfg : Config) (s : S.State) (name key : Bytes)
      → lookup name key (disk_save S fuel path cfg s).0.config ≡ lookup name key cfg
  unfolding disk_save
  lookup-disk_save cfg s name key =
      let (lock, s1) = locked S path s in
      let (text, s2) = read_file S fuel path s1 in
      let writes : Bytes → Bool = λ new. is_zero_result (write_file_atomic S fuel path new s2).0 in
      let saved = save (S.access path s) (text_read text) writes cfg in
      ap (λ (r : Saved). lookup name key r.config) (perform-result lock s s2 saved)
      ∙ (save_lem (S.access path s) (text_read text) writes cfg name key).2

  -- No command changes what a read of the configuration finds.
  lookup-config_save :
      (size : ℕ) (m : Machine S.State) (name key : Bytes)
      → lookup name key (config_save S J C fuel path size m).1.config ≡ lookup name key m.config
  unfolding config_save
  lookup-config_save size m name key = ground (arith, lookup-disk_save m.config m.os name key)

  module _ (cmd : Bytes) (root : J.Json) (size : ℕ) (m : Machine S.State) where
    restart_flags :
        ((handle_restart S J C fuel path size m).1.flags
          ≡ record m.flags { restart = true; running = false })
        × ((handle_restart S J C fuel path size m).1.config ≡ m.config)
    unfolding handle_restart request_restart
    restart_flags = (refl, refl)

    shutdown_flags :
        ((handle_shutdown S J C fuel path size m).1.flags ≡ record m.flags { running = false })
        × ((handle_shutdown S J C fuel path size m).1.config ≡ m.config)
    unfolding handle_shutdown request_shutdown
    shutdown_flags = (refl, refl)

    pub dispatch-flags :
        (dispatch S J C fuel path cmd root size m).1.flags ≡ flags_after cmd m.flags
    unfolding dispatch flags_after
    dispatch-flags = ground (
      arith,
      restart_apart cmd,
      shutdown_apart cmd,
      config_get_section-same root size m,
      config_get-same root size m,
      get_affinity-same root size m,
      config_save-log root size m,
      set_affinity-kept root size m,
      set_log_level-kept root size m,
      get_log_level-same root size m,
      restart_flags,
      shutdown_flags,
    )

    pub lookup-dispatch :
        (name key : Bytes)
        → lookup name key (dispatch S J C fuel path cmd root size m).1.config
          ≡ lookup name key m.config
    unfolding dispatch
    lookup-dispatch name key = ground (
      arith,
      config_get_section-same root size m,
      config_get-same root size m,
      get_affinity-same root size m,
      lookup-config_save size m name key,
      set_affinity-kept root size m,
      set_log_level-kept root size m,
      get_log_level-same root size m,
      restart_flags,
      shutdown_flags,
    )
