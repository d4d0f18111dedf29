-- ===== src/Control/Session.antt =====
-- A daemon between its start and its end: requests on the control socket (src/rss_ctrl_cmds.c), signals
-- and its own wishes (src/rss_daemon.c), in any order.
use raptor_common.Base.{
  ℕ, Bool, true, false, not, ◌&&◌, ◌||◌, List, [], ◌∷◌, none, some, codes, Bytes, ◌≡◌, refl, arith,
  Option-cases, inl, inr,
}
use raptor_common.Config.Store.{lookup}
use raptor_common.Control.Common.{string_field, handle_common}
use raptor_common.Control.Effects.{
  is_change, command_of, flags_after, dispatch-same, dispatch-flags, lookup-dispatch,
}
use raptor_common.Control.Machine.{Scheduler, Machine}
use raptor_common.Daemon.{sig_term_handler, request_shutdown, request_restart}
use raptor_common.FileIo.Calls.{System}
use raptor_common.Json.{JsonLib}
use raptor_common.Text.{str_eq}

pub data Event : Type 0 where
  terminated shutdown_wanted restart_wanted : Event
  requested : Bytes → ℕ → Event

unfoldable pub any : (Event → Bool) → List Event → Bool
any test [] = false
any test (e ∷ es) = test e || any test es

module _ (J : JsonLib) where
  -- The request has a command with this name.
  unfoldable pub asks : Bytes → Bytes → Bool
  asks word cmd_json = elim (command_of J cmd_json) [ none ↦ false | some cmd ↦ str_eq cmd word ]

  unfoldable pub asks_restart : Event → Bool
  asks_restart restart_wanted = true
  asks_restart (requested cmd_json size) = asks (codes "restart") cmd_json
  asks_restart _ = false

  unfoldable pub asks_stop : Event → Bool
  asks_stop (requested cmd_json size) =
      asks (codes "restart") cmd_json || asks (codes "shutdown") cmd_json
  asks_stop _ = true

module _ (S : System) (J : JsonLib) (C : Scheduler S.State) (fuel : ℕ) (path : Bytes) where
  unfoldable pub step : Event → Machine S.State → Machine S.State
  step terminated m = record m { flags = sig_term_handler m.flags }
  step shutdown_wanted m = record m { flags = request_shutdown m.flags }
  step restart_wanted m = record m { flags = request_restart m.flags }
  step (requested cmd_json size) m = (handle_common S J C fuel path cmd_json size m).1

  unfoldable pub run : List Event → Machine S.State → Machine S.State
  unfolding step
  run [] m = m
  run (e ∷ es) m = run es (step e m)

  handle_common-flags :
      (cmd_json : Bytes) (size : ℕ) (m : Machine S.State)
      → let f = (handle_common S J C fuel path cmd_json size m).1.flags in
        (f.running ≡ (m.flags.running && not (asks_stop J (requested cmd_json size))))
        × (f.restart ≡ (m.flags.restart || asks_restart J (requested cmd_json size)))
  unfolding handle_common asks_stop asks_restart asks command_of
  handle_common-flags cmd_json size m = elim (Option-cases (J.parse cmd_json)) [
    | inl e ↦ ground (arith, e)
    | inr (root, e) ↦ elim (Option-cases (string_field J root (codes "cmd"))) [
      | inl f ↦ ground (arith, e, f)
      | inr (cmd, f) ↦
          unfold flags_after in ground (arith, e, f, dispatch-flags S J C fuel path cmd root size m)
    ]
  ]

  step-flags :
      (e : Event) (m : Machine S.State)
      → ((step e m).flags.running ≡ (m.flags.running && not (asks_stop J e)))
        × ((step e m).flags.restart ≡ (m.flags.restart || asks_restart J e))
  unfolding step asks_stop asks_restart sig_term_handler request_shutdown request_restart
  step-flags terminated m = ground arith
  step-flags shutdown_wanted m = ground arith
  step-flags restart_wanted m = ground arith
  step-flags (requested cmd_json size) m = handle_common-flags cmd_json size m

  -- Over any sequence of events the daemon goes on running exactly until one of them asks it to
  -- stop, and a restart is pending exactly from the first event that asks for one; nothing takes
  -- either back. The events are SIGTERM, calls of rss_daemon_request_shutdown and
  -- rss_daemon_request_restart, and requests on the control socket.
  pub run-flags :
      (es : List Event) (m : Machine S.State)
      → ((run es m).flags.running ≡ (m.flags.running && not (any (asks_stop J) es)))
        × ((run es m).flags.restart ≡ (m.flags.restart || any (asks_restart J) es))
  unfolding run any
  run-flags [] m = ground arith
  run-flags (e ∷ es) m = ground (arith, step-flags e m, run-flags es (step e m))

  -- A request that is not JSON, has no command, or has one other than config-save, set-affinity,
  -- restart, shutdown and set-log-level changes nothing: the store, the system, the logger and the
  -- flags.
  pub handle_common-same :
      (cmd_json : Bytes) (size : ℕ) (m : Machine S.State)
      → ((cmd : Bytes) → command_of J cmd_json ≡ some cmd → is_change cmd ≡ false)
      → (handle_common S J C fuel path cmd_json size m).1 ≡ m
  unfolding handle_common command_of
  handle_common-same cmd_json size m h = elim (Option-cases (J.parse cmd_json)) [
    | inl e ↦ ground (arith, e)
    | inr (root, e) ↦ elim (Option-cases (string_field J root (codes "cmd"))) [
      | inl f ↦ ground (arith, e, f)
      | inr (cmd, f) ↦
          let same =
            dispatch-same S J C fuel path root size m cmd (h cmd (rw (e, f, command_of) refl)) in
          rw (e, f, handle_common) same
    ]
  ]

  -- Whatever a request asks for, every read of the configuration finds afterwards what it found before.
  pub lookup-handle_common :
      (cmd_json : Bytes) (size : ℕ) (m : Machine S.State) (name key : Bytes)
      → lookup name key (handle_common S J C fuel path cmd_json size m).1.config
        ≡ lookup name key m.config
  unfolding handle_common
  lookup-handle_common cmd_json size m name key = elim (Option-cases (J.parse cmd_json)) [
    | inl e ↦ ground (arith, e)
    | inr (root, e) ↦ elim (Option-cases (string_field J root (codes "cmd"))) [
      | inl f ↦ ground (arith, e, f)
      | inr (cmd, f) ↦
          let same = lookup-dispatch S J C fuel path cmd root size m name key in
          ground (arith, e, f, same)
    ]
  ]
