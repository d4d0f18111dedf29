-- ===== src/Log/Routing.antt =====
-- Where `rss_vlog` sends a message after `rss_log_init` (src/rss_log.c).
use raptor_common.Base.{
  ℕ, Bool, List, [], ◌∷◌, map, Option, none, some, ltb, if◌then◌else◌, Bytes, ◌≡◌, arith,
}
use raptor_common.Log.{
  Target, to_stderr, to_syslog, to_file, to_both, Log, WallTime, Output, on_syslog, on_stderr,
  on_file, log_init, set_level, vlog,
}

-- Where an output goes.
pub data Sink : Type 0 where
  system standard_error : Sink
  named : Bytes → Sink

abbrev pub sink : Output → Sink
sink (on_syslog p text) = system
sink (on_stderr text) = standard_error
sink (on_file path text) = named path

-- Where a message is meant to go: a log file that does not open is stderr.
abbrev pub destinations : (Bytes → Bool) → Target → Option Bytes → List Sink
destinations opens to_stderr file = standard_error ∷ []
destinations opens to_syslog file = system ∷ []
destinations opens to_both file = system ∷ standard_error ∷ []
destinations opens to_file none = standard_error ∷ []
destinations opens to_file (some path) = (if opens path then named path else standard_error) ∷ []

-- After rss_log_init and any later rss_log_set_level, and whatever the logger was before, a
-- message goes where the target says if its level is at most the level last set, and nowhere
-- otherwise; a log file that does not open is stderr.
pub vlog-log_init :
    (opens : Bytes → Bool) (name : Option Bytes) (level first : ℕ) (target : Target)
    (log_file : Option Bytes) (s : Log) (now : WallTime) (l line : ℕ) (file fmt text : Bytes)
    → map sink (
        vlog now l file line fmt text
          (set_level level (log_init opens name first target log_file s)))
      ≡ (if ltb level l then [] else destinations opens target log_file)
unfolding vlog log_init set_level
vlog-log_init opens name level first to_stderr log_file s now l line file fmt text = ground arith
vlog-log_init opens name level first to_syslog log_file s now l line file fmt text = ground arith
vlog-log_init opens name level first to_both log_file s now l line file fmt text = ground arith
vlog-log_init opens name level first to_file none s now l line file fmt text = ground arith
vlog-log_init opens name level first to_file (some path) s now l line file fmt text = ground arith
