-- ===== src/Daemon.antt =====
-- The signal and restart state of src/rss_daemon.c. The two flags are atomic, so that each operation is
-- one step.
pub mod Process
pub mod Init
pub mod Asked
pub mod Started
pub mod Locked
use raptor_common.Base.{Bool, true, false, List, [], ◌∷◌, ◌++◌, if◌then◌else◌, take, codes, Bytes}

-- `g_running` and `g_restart`
pub record Flags : Type 0 where
  pub running : Bool
  pub restart : Bool

abbrev pub initial_flags : Flags
initial_flags = record { running = true; restart = false }

-- The handler of SIGTERM and SIGINT; SIGHUP and SIGPIPE are ignored.
unfoldable pub sig_term_handler : Flags → Flags
sig_term_handler f = record f { running = false }

-- What `rss_signal_init` does to the flags.
unfoldable pub signal_init : Flags → Flags
signal_init f = record f { running = true }

unfoldable pub request_shutdown : Flags → Flags
request_shutdown f = record f { running = false }

unfoldable pub request_restart : Flags → Flags
request_restart f = record f { restart = true; running = false }

unfoldable pub restart_pending : Flags → Bool
restart_pending f = f.restart

-- `make_pid_path` with a buffer of PID_PATH_MAX
unfoldable pub pid_path : Bytes → Bytes
pid_path name = take 127 (codes "/var/run/rss" ++ b'/' ∷ name ++ codes ".pid")

-- What the process does when it ends.
pub data Action : Type 0 where
  unlinks : Bytes → Action
  executes : Bytes → Action

-- `rss_daemon_exec`: execv of `g_exe_path`, or of `argv[0]` where that is empty.
unfoldable pub daemon_exec : Bytes → Bytes → Action
daemon_exec [] argv0 = executes argv0
daemon_exec (c ∷ exe) argv0 = executes (c ∷ exe)

unfoldable pub daemon_cleanup : Bytes → Bytes → Bytes → Flags → List Action
unfolding pid_path restart_pending daemon_exec
daemon_cleanup name exe argv0 f =
    unlinks (pid_path name) ∷ (if restart_pending f then daemon_exec exe argv0 ∷ [] else [])
