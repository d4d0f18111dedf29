-- ===== src/Tests/Boot.antt =====
-- The start of a daemon at concrete inputs.
use raptor_common.Base.Int.{pos}
use raptor_common.Base.{
  ℕ, suc, ◌+◌, true, false, List, [], ◌∷◌, ◌++◌, Option, none, some, length, codes, Bytes, ◌≡◌, ◌≢◌,
  refl, arith,
}
use raptor_common.Config.Numbers.{decimal}
use raptor_common.Daemon.Init.{
  Opt, opt_foreground, opt_debug, opt_config, default_options, Scheduling, Started, Init, started,
  daemon_init,
}
use raptor_common.Daemon.Locked.{PidLaws, IsLocked, daemonize-IsLocked}
use raptor_common.Daemon.Process.{
  Processes, child, daemon, write_pid, silence, fork_again, detach, daemonize,
}
use raptor_common.Daemon.{initial_flags}
use raptor_common.Files.{mkdir_p, mkdir_walk}
use raptor_common.Log.{initial}
use raptor_common.Tests.Saves.{store}

record Proc : Type 0 where
  lock : Option ℕ
  text : Bytes
  pid : ℕ

abbrev above_lock : Option ℕ → ℕ
above_lock none = 6
above_lock (some fd) = suc fd

abbrev procs : Processes
procs = record {
  State = Proc;
  mkdir = λ p s. (true, s);
  open_pid = λ p s. (some 5, s);
  try_lock = λ fd s. (true, record s { lock = some fd });
  fork = λ s. (child, record s { pid = s.pid + 1 });
  setsid = λ s. (true, s);
  open_null = λ s. (some (above_lock s.lock), s);
  dup2 = λ n k s. s;
  chdir_root = λ s. s;
  umask_none = λ s. s;
  truncate = λ fd s. record s { text = [] };
  rewind = λ fd s. s;
  getpid = λ s. s.pid;
  write = λ fd bs s. (some (length bs), record s { text = bs ++ [] });
  close = λ n s. s;
}

new_above : (lock : Option ℕ) (fd n : ℕ) → lock ≡ some fd → some (above_lock lock) ≡ some n → n ≢ fd
new_above none fd n e o = absurd (ground (arith, e))
new_above (some k) fd n e o =
    let same : k ≡ fd = cc in
    let next : suc k ≡ n = cc in λ q. absurd (omega (arith, same, next, q))

procs-PidLaws : PidLaws procs
procs-PidLaws = record {
  lock_fd = λ s. s.lock;
  pid_text = λ s. s.text;
  try_lock_held = λ fd s e. refl;
  fork-lock_fd = λ s e. refl;
  setsid-lock_fd = λ s. refl;
  open_null-lock_fd = λ s. refl;
  open_null_new = λ s fd n e o. new_above s.lock fd n e o;
  dup2-lock_fd = λ s n k fd e h. e;
  close-lock_fd = λ s n fd e h. e;
  chdir_root-lock_fd = λ s. refl;
  umask_none-lock_fd = λ s. refl;
  truncate-lock_fd = λ fd s. refl;
  rewind-lock_fd = λ fd s. refl;
  write-lock_fd = λ fd bs s. refl;
  write_at_start = λ fd bs s e w. ([], refl);
  getpid-write = λ fd bs s. refl;
}

abbrev shell : Proc
shell = record { lock = none; text = codes "12345\n"; pid = 100 }

runs : (daemonize procs (codes "rvd") false shell).0 ≡ daemon
unfolding daemonize detach fork_again write_pid silence decimal mkdir_p mkdir_walk
runs = refl

daemonize-IsLocked_example :
    IsLocked procs procs-PidLaws 5 (daemonize procs (codes "rvd") false shell).1
daemonize-IsLocked_example =
    daemonize-IsLocked procs procs-PidLaws (codes "rvd") false shell 5 refl (omega arith) runs

abbrev scheduling : Scheduling Proc
scheduling = record { num_cpus = pos 2; pin = λ cpu s. s; set_fifo = λ prio s. s }

abbrev opts : List Opt
opts = opt_debug ∷ opt_config (codes "/tmp/c") ∷ opt_foreground ∷ []

abbrev boot : Init Proc
boot =
    daemon_init procs scheduling (λ p. true) (λ t. none) (λ p. some store) none
      (some (codes "/bin/rvd")) (codes "rvd") opts initial initial_flags shell

abbrev started_or : Started Proc → Init Proc → Started Proc
started_or d (started r) = r
started_or d _ = d

abbrev nothing : Started Proc
nothing = record {
  options = default_options;
  config = [];
  log = initial;
  flags = initial_flags;
  exe_path = [];
  os = shell;
}
