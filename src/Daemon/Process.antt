-- ===== src/Daemon/Process.antt =====
-- `rss_daemonize` and `rss_daemon_check` (src/rss_daemon.c) over the calls on processes and on the pid file;
-- what they print and log is left out.
use raptor_common.Base.Int.{ℤ, pos, negsuc}
use raptor_common.Base.{
  ℕ, zero, suc, Bool, [], ◌∷◌, ◌++◌, Option, none, some, ltb, ◌==◌, if◌then◌else◌, length, codes,
  Bytes,
}
use raptor_common.Config.Numbers.{decimal}
use raptor_common.Daemon.{pid_path}
use raptor_common.Files.{mkdir_p}

pub data Fork : Type 0 where
  no_fork parent child : Fork

pub record Processes : Type 1 where
  pub State : Type 0
  pub mkdir : Bytes → State → Bool × State
  -- open(path, O_WRONLY | O_CREAT | O_CLOEXEC, 0600), and flock(fd, LOCK_EX | LOCK_NB)
  pub open_pid : Bytes → State → Option ℕ × State
  pub try_lock : ℕ → State → Bool × State
  pub fork : State → Fork × State
  pub setsid : State → Bool × State
  -- open("/dev/null", O_RDWR), and dup2
  pub open_null : State → Option ℕ × State
  pub dup2 : ℕ → ℕ → State → State
  -- chdir("/") and umask(0), ftruncate(fd, 0) and lseek(fd, 0, SEEK_SET)
  pub chdir_root : State → State
  pub umask_none : State → State
  pub truncate : ℕ → State → State
  pub rewind : ℕ → State → State
  pub getpid : State → ℕ
  pub write : ℕ → Bytes → State → Option ℕ × State
  pub close : ℕ → State → State

-- _exit(0) in a parent, -1, or 0.
pub data Daemonized : Type 0 where
  parent_exits not_started daemon : Daemonized

-- What kill(pid, 0) answers: 0, EPERM or another error.
pub data Alive : Type 0 where
  signalled not_permitted no_process : Alive

-- `rss_daemon_check`, by what fopen and fscanf read of the pid file.
unfoldable pub daemon_check : (Bytes → Option ℤ) → (ℕ → Alive) → Bytes → ℕ
unfolding pid_path
daemon_check read_pid kill name = elim (read_pid (pid_path name)) [
  | none ↦ 0
  | some (negsuc n) ↦ 0
  | some (pos zero) ↦ 0
  | some (pos (suc n)) ↦ elim (kill (suc n)) [
    | signalled ↦ suc n
    | not_permitted ↦ suc n
    | no_process ↦ 0
  ]
]

module _ (P : Processes) where
  -- The pid is written into the file that is locked, which stays open.
  unfoldable pub write_pid : ℕ → P.State → Daemonized × P.State
  write_pid fd s =
      let s1 = P.rewind fd (P.truncate fd s) in
      let text = decimal 10 (P.getpid s1) ++ b'\n' ∷ [] in
      let (written, s2) = P.write fd text s1 in
      elim written [
        | none ↦ (not_started, P.close fd s2)
        | some n ↦ if n == length text then (daemon, s2) else (not_started, P.close fd s2)
      ]

  -- Standard input and the two outputs go to /dev/null.
  unfoldable pub silence : P.State → P.State
  silence s =
      let (opened, s1) = P.open_null s in
      elim opened [
        | none ↦ s1
        | some fd ↦
            let s2 = P.dup2 fd 2 (P.dup2 fd 1 (P.dup2 fd 0 s1)) in
            if ltb 2 fd then P.close fd s2 else s2
      ]

  -- The second fork, in the new session.
  unfoldable pub fork_again : ℕ → P.State → Daemonized × P.State
  unfolding write_pid silence
  fork_again fd s =
      let (forked, s1) = P.fork s in
      elim forked [
        | no_fork ↦ (not_started, s1)
        | parent ↦ (parent_exits, s1)
        | child ↦ write_pid fd (P.umask_none (P.chdir_root (silence s1)))
      ]

  unfoldable pub detach : ℕ → P.State → Daemonized × P.State
  unfolding fork_again
  detach fd s =
      let (forked, s1) = P.fork s in
      let (led, s2) = P.setsid s1 in
      elim forked [
        | no_fork ↦ (not_started, P.close fd s1)
        | parent ↦ (parent_exits, s1)
        | child ↦ if led then fork_again fd s2 else (not_started, s2)
      ]

  unfoldable pub daemonize : Bytes → Bool → P.State → Daemonized × P.State
  unfolding detach write_pid pid_path
  daemonize name already_daemon s =
      let made = mkdir_p P.mkdir (codes "/var/run/rss") s in
      let (opened, s1) = P.open_pid (pid_path name) made.1 in
      elim opened [
        | none ↦ (not_started, s1)
        | some fd ↦
            let (locked, s2) = P.try_lock fd s1 in
            if locked
            then (if already_daemon then write_pid fd s2 else detach fd s2)
            else (not_started, P.close fd s2)
      ]
