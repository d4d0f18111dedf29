-- ===== src/Tests/Requests/Runs.antt =====
-- Requests, events and log messages at concrete inputs.
use raptor_common.Base.Int.{pos}
use raptor_common.Base.{
  true, false, not, ◌&&◌, ◌||◌, List, [], ◌∷◌, map, none, some, ltb, codes, if◌then◌else◌, Bytes,
  ◌≡◌, refl, sym,
}
use raptor_common.Config.Store.{lookup}
use raptor_common.Control.Answers.{resp_is_ok-resp_error}
use raptor_common.Control.Client.{resp_is_ok}
use raptor_common.Control.Common.{level_of, handle_common}
use raptor_common.Control.Effects.{is_change, command_of}
use raptor_common.Control.Machine.{allowed, sched_other, Scheduler, Machine}
use raptor_common.Control.Session.{
  Event, terminated, requested, run, asks, any, asks_stop, asks_restart, run-flags,
  handle_common-same, lookup-handle_common,
}
use raptor_common.Control.{resp_error}
use raptor_common.Daemon.{initial_flags}
use raptor_common.Log.Routing.{sink, destinations, vlog-log_init}
use raptor_common.Log.{initial, log_debug, log_info, set_level, log_init, vlog, to_file, WallTime}
use raptor_common.Tests.Disk.{Disk, at, disk}
use raptor_common.Tests.Requests.{put_field, small_json, small_json-JsonLaws}
use raptor_common.Tests.Saves.{store}
use raptor_common.Text.{str_eq}

abbrev scheduler : Scheduler Disk
scheduler = record {
  num_cpus = pos 4;
  sched_setaffinity = λ cpu d. (none, d);
  sched_getaffinity = λ d. allowed (λ cpu. true);
  policy = λ d. sched_other;
  priority = λ d. pos 0;
}

abbrev machine : Machine Disk
machine = record {
  config = store;
  os = at (λ q. none) [] none 0;
  log = initial;
  flags = initial_flags;
}

abbrev path : Bytes
path = codes "/etc/c"

abbrev request : Bytes → Bytes
request cmd = put_field (0 ∷ []) (codes "cmd") cmd

abbrev set_request : Bytes → Bytes
set_request name = put_field (request (codes "set-log-level")) (codes "value") name

resp_is_ok-resp_error_example :
    resp_is_ok small_json (some (resp_error small_json 64 (codes "need cpu"))) ≡ false
resp_is_ok-resp_error_example =
    resp_is_ok-resp_error small_json small_json-JsonLaws 64 (codes "need cpu")

abbrev events : List Event
events =
    requested (request (codes "get-log-level")) 64
    ∷ requested (request (codes "restart")) 64
    ∷ terminated
    ∷ []

run-flags_example :
    let after = run disk small_json scheduler 99 path events machine in
    (after.flags.running ≡ (true && not (any (asks_stop small_json) events)))
    × (after.flags.restart ≡ (false || any (asks_restart small_json) events))
run-flags_example = run-flags disk small_json scheduler 99 path events machine

restarts : any (asks_restart small_json) events ≡ true
unfolding any asks_restart asks command_of str_eq
restarts = refl

asks_for_level :
    (cmd : Bytes)
    → command_of small_json (request (codes "get-log-level")) ≡ some cmd
    → is_change cmd ≡ false
unfolding command_of is_change str_eq
asks_for_level cmd e =
    let same : some (codes "get-log-level") ≡ some cmd = e in
    let shown : codes "get-log-level" ≡ cmd = cc in rw (sym shown) refl

handle_common-same_example :
    (handle_common disk small_json scheduler 99 path (request (codes "get-log-level")) 64 machine).1
    ≡ machine
handle_common-same_example =
    handle_common-same disk small_json scheduler 99 path (request (codes "get-log-level")) 64
      machine asks_for_level

lookup-handle_common_example :
    lookup
      (codes "video")
      (codes "fps")
      (handle_common disk small_json scheduler 99 path
        (request (codes "config-save"))
        64
        machine).1.config
    ≡ lookup (codes "video") (codes "fps") store
lookup-handle_common_example =
    lookup-handle_common disk small_json scheduler 99 path (request (codes "config-save")) 64
      machine (codes "video") (codes "fps")

debug_known : level_of (codes "debug") ≡ some log_debug
unfolding level_of str_eq
debug_known = refl

abbrev noon : WallTime
noon = record { hour = 12; minute = 0; second = 0; nanosecond = 5000000 }

vlog-log_init_example :
    map sink (
      vlog noon log_info (codes "src/a.c") 7 (codes "x") (codes "x") (
        set_level log_debug
          (log_init (λ p. true) none log_info to_file (some (codes "/tmp/l")) initial)))
    ≡ (if ltb log_debug log_info
        then []
        else destinations (λ p. true) to_file (some (codes "/tmp/l")))
vlog-log_init_example =
    vlog-log_init (λ p. true) none log_debug log_info to_file (some (codes "/tmp/l")) initial noon
      log_info 7 (codes "src/a.c") (codes "x") (codes "x")
