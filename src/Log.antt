-- ===== src/Log.antt =====
-- src/rss_log.c: the logger's state and where a message goes. `openlog` and `closelog` only name the
-- process, and a stream is written whole.
pub mod Routing
use raptor_common.Base.{
  ℕ, suc, ◌+◌, ◌/◌, Bool, true, false, ◌&&◌, ◌||◌, List, [], ◌∷◌, ◌++◌, Option, none, some, ltb,
  leb, ◌==◌, if◌then◌else◌, length, take, get_or, codes, Bytes,
}
use raptor_common.Config.Numbers.{decimal}
use raptor_common.Jpeg.Exif.{padded}
use raptor_common.Text.{strlcpy}

-- `rss_log_level_t`
abbrev pub log_fatal : ℕ
log_fatal = 0

abbrev pub log_error : ℕ
log_error = 1

abbrev pub log_warn : ℕ
log_warn = 2

abbrev pub log_info : ℕ
log_info = 3

abbrev pub log_debug : ℕ
log_debug = 4

abbrev pub log_trace : ℕ
log_trace = 5

-- `rss_log_target_t`
pub data Target : Type 0 where
  to_stderr to_syslog to_file to_both : Target

-- The four statics; `opened` is `s_fp != NULL`.
pub record Log : Type 0 where
  pub daemon_name : Bytes
  pub level : ℕ
  pub target : Target
  pub opened : Option Bytes

abbrev pub initial : Log
initial = record { daemon_name = []; level = log_info; target = to_stderr; opened = none }

-- `level_names` and `syslog_prio`
unfoldable pub level_names : List Bytes
level_names =
    codes "FATAL"
    ∷ codes "ERROR"
    ∷ codes "WARN "
    ∷ codes "INFO "
    ∷ codes "DEBUG"
    ∷ codes "TRACE"
    ∷ []

-- LOG_CRIT, LOG_ERR, LOG_WARNING, LOG_INFO and LOG_DEBUG twice
unfoldable pub syslog_prio : List ℕ
syslog_prio = 2 ∷ 3 ∷ 4 ∷ 6 ∷ 7 ∷ 7 ∷ []

abbrev pub uses_syslog : Target → Bool
uses_syslog to_syslog = true
uses_syslog to_both = true
uses_syslog _ = false

abbrev name_or : Option Bytes → Bytes
name_or none = codes "rss"
name_or (some name) = name

-- `rss_log_init`, where `opens` says whether fopen in append mode gives a stream.
unfoldable pub log_init : (Bytes → Bool) → Option Bytes → ℕ → Target → Option Bytes → Log → Log
log_init opens daemon_name level target log_file s =
    let fresh : Log = record {
      daemon_name = (strlcpy s.daemon_name (some (name_or daemon_name)) 64).0;
      level = level;
      target = target;
      opened = none;
    } in
    elim target [
      | to_file ↦ elim log_file [
        | none ↦ fresh
        | some path ↦
            if opens path
            then record fresh { opened = some path }
            else record fresh { target = to_stderr }
      ]
      | _ ↦ fresh
    ]

unfoldable pub set_level : ℕ → Log → Log
set_level level s = record s { level = level }

unfoldable pub get_level : Log → ℕ
get_level s = s.level

-- The bytes behind the last '/', as `strrchr` finds it.
unfoldable pub after_slash : Bytes → Option Bytes
after_slash [] = none
after_slash (c ∷ s) = elim (after_slash s) [
  | some rest ↦ some rest
  | none ↦ if c == b'/' then some s else none
]

unfoldable pub base_name : Bytes → Bytes
unfolding after_slash
base_name file = elim (after_slash file) [ none ↦ file | some rest ↦ rest ]

-- A message of syslog with its priority, or text for stderr or for the log file of this name.
pub data Output : Type 0 where
  on_syslog : ℕ → Bytes → Output
  on_stderr : Bytes → Output
  on_file : Bytes → Bytes → Output

-- What localtime_r and clock_gettime give.
pub record WallTime : Type 0 where
  pub hour : ℕ
  pub minute : ℕ
  pub second : ℕ
  pub nanosecond : ℕ

-- "%02d:%02d:%02d.%03d", cut to its buffer
unfoldable pub time_text : WallTime → Bytes
unfolding padded
time_text now = take 15 (
    padded 2 now.hour
    ++ b':' ∷ padded 2 now.minute
    ++ b':' ∷ padded 2 now.second
    ++ b'.' ∷ padded 3 (now.nanosecond / 1000000))

-- "[%s] %s:%d: " of the level's name, the file and the line
unfoldable pub place_text : ℕ → Bytes → ℕ → Bytes
unfolding level_names base_name decimal
place_text level file line =
    b'[' ∷ get_or level_names level []
    ++ codes "] "
    ++ base_name file
    ++ b':' ∷ decimal 10 line
    ++ codes ": "

abbrev pub has_newline : Bytes → Bool
has_newline [] = false
has_newline (c ∷ []) = c == b'\n'
has_newline (c ∷ d ∷ s) = has_newline (d ∷ s)

-- The text for a stream; the newline is added by what the format ends with.
unfoldable pub stream_text : WallTime → Bytes → ℕ → Bytes → ℕ → Bytes → Bytes → Bytes
unfolding time_text place_text
stream_text now name level file line fmt text =
    time_text now
    ++ b' ' ∷ name
    ++ b' ' ∷ place_text level file line
    ++ text
    ++ (if has_newline fmt then [] else b'\n' ∷ [])

-- The stream: the file if it is the target and open.
abbrev pub to_stream : Log → Bytes → Output
to_stream s text = elim s.target [
  | to_file ↦ elim s.opened [ none ↦ on_stderr text | some path ↦ on_file path text ]
  | _ ↦ on_stderr text
]

abbrev pub streams : Target → Bool
streams to_syslog = false
streams _ = true

-- `rss_vlog` at a time `now`; `text` is what the format `fmt` prints of its arguments. A level is one of
-- the six.
unfoldable pub vlog : WallTime → ℕ → Bytes → ℕ → Bytes → Bytes → Log → List Output
unfolding syslog_prio place_text stream_text
vlog now level file line fmt text s =
    let system =
      on_syslog (get_or syslog_prio level 0) (place_text level file line ++ take 511 text) in
    let stream = to_stream s (stream_text now s.daemon_name level file line fmt text) in
    if ltb s.level level
    then []
    else (if uses_syslog s.target then system ∷ [] else [])
      ++ (if streams s.target then stream ∷ [] else [])
