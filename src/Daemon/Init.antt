-- ===== src/Daemon/Init.antt =====
-- `rss_daemon_init` (src/rss_daemon.c): options, configuration, logger, process and scheduling. getopt gives
-- the options as a list; the banner, the hook behind it and what is printed are left out.
use raptor_common.Base.Int.{ℤ, pos, negsuc}
use raptor_common.Base.{
  ℕ, zero, suc, Bool, true, false, List, [], ◌∷◌, Option, none, some, leb, if◌then◌else◌, take,
  codes, Bytes,
}
use raptor_common.Config.Numbers.{get_int}
use raptor_common.Config.Store.{get_str}
use raptor_common.Config.Types.{Config}
use raptor_common.Control.Common.{level_of}
use raptor_common.Daemon.Process.{Processes, parent_exits, not_started, daemon, daemonize}
use raptor_common.Daemon.{Flags, signal_init}
use raptor_common.Log.{
  Log, Target, to_stderr, to_syslog, to_file, to_both, log_info, log_trace, log_init,
}
use raptor_common.Text.{str_eq, strlcpy}

pub data Opt : Type 0 where
  opt_config : Bytes → Opt
  opt_foreground opt_debug opt_version opt_help opt_unknown : Opt

-- The locals that the option loop sets.
pub record Options : Type 0 where
  pub config_path : Bytes
  pub foreground : Bool
  pub debug : Bool
  pub show_help : Bool

pub data ParsedOptions : Type 0 where
  clean_exit usage_error : ParsedOptions
  parsed : Options → ParsedOptions

abbrev pub default_options : Options
default_options = record {
  config_path = codes "/etc/raptor.conf";
  foreground = false;
  debug = false;
  show_help = false;
}

-- The loop, and the help behind it.
unfoldable pub parse_options : List Opt → Options → ParsedOptions
parse_options [] o = if o.show_help then clean_exit else parsed o
parse_options (opt_config path ∷ rest) o = parse_options rest (record o { config_path = path })
parse_options (opt_foreground ∷ rest) o = parse_options rest (record o { foreground = true })
parse_options (opt_debug ∷ rest) o = parse_options rest (record o { debug = true })
parse_options (opt_version ∷ rest) o = clean_exit
parse_options (opt_help ∷ rest) o = parse_options rest (record o { show_help = true })
parse_options (opt_unknown ∷ rest) o = usage_error

-- The level and the target that the [log] section asks for, and the options override.
unfoldable pub chosen_level : Bool → Bytes → ℕ
unfolding level_of
chosen_level true name = log_trace
chosen_level false name = elim (level_of name) [ none ↦ log_info | some level ↦ level ]

unfoldable pub chosen_target : Bool → Bytes → Target
unfolding str_eq
chosen_target true name = to_stderr
chosen_target false name =
    if str_eq name (codes "stderr")
    then to_stderr
    else if str_eq name (codes "file")
    then to_file
    else to_syslog

abbrev pub file_name : Bytes → Option Bytes
file_name [] = none
file_name (c ∷ file) = some (c ∷ file)

abbrev pub text_of : Option Bytes → Bytes
text_of none = []
text_of (some v) = v

-- The second initialisation of the logger, with the store as the three reads leave it.
unfoldable pub configure_log : (Bytes → Bool) → Bytes → Options → Config → Log → Log × Config
unfolding chosen_level chosen_target
configure_log opens name o cfg log =
    let section = some (codes "log") in
    let (level, cfg1) = get_str cfg section (codes "level") (some (codes "info")) in
    let (target, cfg2) = get_str cfg1 section (codes "target") (some (codes "syslog")) in
    let (file, cfg3) = get_str cfg2 section (codes "file") (some []) in
    (
      log_init opens (some name) (chosen_level o.debug (text_of level))
          (chosen_target o.foreground (text_of target)) (file_name (text_of file)) log,
      cfg3,
    )

-- `g_exe_path`, by what readlink of /proc/self/exe and realpath of `argv[0]` give.
unfoldable pub executable : Option Bytes → Option Bytes → Bytes
executable none none = []
executable none (some resolved) = (strlcpy [] (some resolved) 256).0
executable (some []) none = []
executable (some []) (some resolved) = (strlcpy [] (some resolved) 256).0
executable (some (c ∷ exe)) resolved = take 255 (c ∷ exe)

-- The scheduling calls for the process itself, whose results are only logged.
pub record Scheduling (State : Type 0) : Type 0 where
  pub num_cpus : ℤ
  pub pin : ℕ → State → State
  pub set_fifo : ℕ → State → State

-- `get_num_cpus`
abbrev pub cpus_online : ℤ → ℕ
cpus_online (pos zero) = 1
cpus_online (pos (suc n)) = suc n
cpus_online (negsuc n) = 1

abbrev pub pinned : {State : Type 0} → Scheduling State → ℤ → State → State
pinned C (negsuc n) s = s
pinned C (pos cpu) s =
    if leb (cpus_online C.num_cpus) 1
    then s
    else if leb (cpus_online C.num_cpus) cpu
    then s
    else C.pin cpu s

abbrev pub prioritised : {State : Type 0} → Scheduling State → ℤ → State → State
prioritised C (negsuc n) s = s
prioritised C (pos zero) s = s
prioritised C (pos (suc n)) s = C.set_fifo (suc n) s

unfoldable pub apply_scheduling :
    {State : Type 0}
    → Scheduling State
    → (Bytes → Option ℤ)
    → Bytes
    → Config
    → State
    → Config × State
unfolding get_int
apply_scheduling C strtol name cfg s =
    let (cpu, cfg1) = get_int strtol cfg (some name) (codes "cpu_affinity") (negsuc 0) in
    let (prio, cfg2) = get_int strtol cfg1 (some name) (codes "sched_priority") (negsuc 0) in
    (cfg2, prioritised C prio (pinned C cpu s))

-- What `rss_daemon_init` leaves behind when it returns 0: the context and the statics.
pub record Started (State : Type 0) : Type 0 where
  pub options : Options
  pub config : Config
  pub log : Log
  pub flags : Flags
  pub exe_path : Bytes
  pub os : State

-- 1, -1, the end of a parent process, or 0.
pub data Init (State : Type 0) : Type 0 where
  shown init_failed exits : Init State
  started : Started State → Init State

module _ (P : Processes) (C : Scheduling P.State) (opens : Bytes → Bool) (strtol : Bytes → Option ℤ)
    (load_file : Bytes → Option Config) (readlink_exe realpath_argv0 : Option Bytes)
    (name : Bytes) where
  -- Behind the options: `load_file` is rss_config_load of a path, or NULL.
  unfoldable pub start_daemon : Options → Log → Flags → P.State → Init P.State
  unfolding configure_log executable apply_scheduling
  start_daemon o log flags s = elim (load_file o.config_path) [
    | none ↦ init_failed
    | some cfg ↦
        let first =
          log_init opens (some name) (if o.debug then log_trace else log_info) to_both none log in
        let (log', cfg1) = configure_log opens name o cfg first in
        let (outcome, s1) = daemonize P name o.foreground s in
        let (cfg2, s2) = apply_scheduling C strtol name cfg1 s1 in
        elim outcome [
          | not_started ↦ init_failed
          | parent_exits ↦ exits
          | daemon ↦ started (record {
            options = o;
            config = cfg2;
            log = log';
            flags = signal_init flags;
            exe_path = executable readlink_exe realpath_argv0;
            os = s2;
          })
        ]
  ]

  unfoldable pub daemon_init : List Opt → Log → Flags → P.State → Init P.State
  unfolding parse_options start_daemon
  daemon_init opts log flags s = elim (parse_options opts default_options) [
    | clean_exit ↦ shown
    | usage_error ↦ init_failed
    | parsed o ↦ start_daemon o log flags s
  ]
