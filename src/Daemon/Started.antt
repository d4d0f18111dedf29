-- ===== src/Daemon/Started.antt =====
-- The state that `rss_daemon_init` (src/rss_daemon.c) starts a daemon in.
use raptor_common.Base.Int.{ℤ}
use raptor_common.Base.{Bool, true, false, not, ◌||◌, leb, Option, some, Bytes, ◌≡◌}
use raptor_common.Config.Edit.{has_dirty}
use raptor_common.Config.Store.{lookup}
use raptor_common.Config.Types.{Config}
use raptor_common.Daemon.Init.{Scheduling, Started}
use raptor_common.Daemon.Process.{Processes}
use raptor_common.Log.{Log, log_trace, to_stderr, Target}

-- Nothing unsaved has come or gone, and every read finds the same.
abbrev pub ReadsAlike : Config → Config → Type 0
ReadsAlike a b = (has_dirty a ≡ has_dirty b) × ((n j : Bytes) → lookup n j a ≡ lookup n j b)

abbrev pub is_stderr : Target → Bool
is_stderr to_stderr = true
is_stderr _ = false

module _ (P : Processes) (C : Scheduling P.State) (opens : Bytes → Bool) (strtol : Bytes → Option ℤ)
    (load_file : Bytes → Option Config) (readlink_exe realpath_argv0 : Option Bytes)
    (name : Bytes) where
  -- The context answers for its options and its file.
  pub record IsStarted (r : Started P.State) : Type 0 where
    pub file : Config
    pub loaded : load_file r.options.config_path ≡ some file
    pub alike : ReadsAlike r.config file
    pub running : r.flags.running ≡ true
    pub debugging : (not r.options.debug || leb log_trace r.log.level) ≡ true
    pub in_front : (not r.options.foreground || is_stderr r.log.target) ≡ true
