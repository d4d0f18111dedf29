-- ===== src/Tests/Store.antt =====
-- src/rss_config.c on a small file and a few calls.
use raptor_common.Base.{
  ◌&&◌, List, [], ◌∷◌, none, some, ◌≡◌, refl, arith, if◌then◌else◌, Bytes, codes,
}
use raptor_common.Config.Edit.{set_str, unset}
use raptor_common.Config.Lines.{lines, load_lines, load-lines}
use raptor_common.Config.Load.{load, load_loop, load_round, fgets, load_line}
use raptor_common.Config.Lookup.{clip}
use raptor_common.Config.Machine.{
  Op, AllFit, set, get, drop, remove, run, view, spec_run, run-IsTidy, view-run,
}
use raptor_common.Config.Reads.{lookup-get_str}
use raptor_common.Config.Removal.{lookup-unset}
use raptor_common.Config.Store.{lookup, get_str, on_section, add_entry}
use raptor_common.Config.Types.{Config}
use raptor_common.Config.Unique.{IsTidy, is_some}
use raptor_common.Config.Writes.{get_str-set_str}
use raptor_common.Text.{
  case_eq, trim_back, trim_front, is_space, split_at_char, str_eq, strlcpy, lower,
}

abbrev net : Bytes
net = codes "net"

abbrev port : Bytes
port = codes "port"

abbrev file : Bytes
file = codes "; demo\n[net]\nport = 80 # web\nhost=cam\n"

abbrev calls : List Op
calls =
    set (some net) port (codes "80")
    ∷ get none port (some (codes "1"))
    ∷ set (some (codes "NET")) (codes "Host") (codes "cam")
    ∷ drop (some net) (codes "HOST")
    ∷ remove (some (codes "log"))
    ∷ []

abbrev store : Config
store = run calls []

calls_fit : AllFit calls
calls_fit = (
  (omega arith, omega arith),
  ((omega arith, omega arith), ((omega arith, omega arith), (tt, (tt, tt)))),
)

store-IsTidy : IsTidy store
store-IsTidy = run-IsTidy calls [] calls_fit tt

lookup-file : lookup net port (load file) ≡ some (codes "80")
unfolding load lookup load_loop load_round fgets load_line trim_back trim_front is_space
    split_at_char on_section case_eq str_eq add_entry strlcpy lower
lookup-file = refl

run-IsTidy_example : IsTidy (run calls [])
run-IsTidy_example = run-IsTidy calls [] calls_fit tt

view-run_example : view (run calls []) ≡ spec_run calls (view [])
view-run_example = view-run calls [] calls_fit tt

load-lines_example :
    load file ≡ (load_lines (lines file) (record { section = []; config = [] })).config
load-lines_example = load-lines file

get_str-set_str_example :
    (get_str
      (set_str (load file) (some (codes "NET")) (codes "PORT") (codes "81"))
      (some net)
      port
      (some (codes "1"))).0
    ≡ (if case_eq (codes "NET") net && case_eq (codes "PORT") port
        then some (clip (codes "81"))
        else (get_str (load file) (some net) port (some (codes "1"))).0)
get_str-set_str_example =
    get_str-set_str (load file) (codes "NET") (codes "PORT") (codes "81") (some net) port
      (codes "1") (λ h. cc) (omega arith) (omega arith) (omega arith)

lookup-get_str_example :
    lookup net port (get_str (load file) (some net) (codes "ttl") (some (codes "9"))).1
    ≡ lookup net port (load file)
lookup-get_str_example =
    lookup-get_str (load file) (some net) (codes "ttl") (some (codes "9")) net port

lookup-unset_example :
    ((unset store (some net) (codes "PORT")).0 ≡ is_some (lookup net (codes "PORT") store))
    × (lookup net port (unset store (some net) (codes "PORT")).1
        ≡ (if case_eq net net && case_eq (codes "PORT") port then none else lookup net port store))
lookup-unset_example = lookup-unset store (some net) (codes "PORT") net port store-IsTidy
