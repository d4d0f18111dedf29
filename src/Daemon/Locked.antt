-- ===== src/Daemon/Locked.antt =====
-- The lock and the contents of the pid file of a daemon that runs (src/rss_daemon.c).
use raptor_common.Base.{
  ℕ, ◌<◌, Bool, true, [], ◌∷◌, ◌++◌, Option, some, ltb, ◌==◌, length, codes, Bytes, ◌≡◌, ◌≢◌, refl,
  ◌∙◌, ap, arith, Bool-cases, Option-cases, inl, inr, ◌⊎◌,
}
use raptor_common.Config.Numbers.{decimal}
use raptor_common.Daemon.Process.{
  Processes, Fork, no_fork, parent, child, Daemonized, daemon, write_pid, silence, fork_again,
  detach, daemonize,
}
use raptor_common.Daemon.{pid_path}
use raptor_common.Files.{mkdir_p}

-- What the calls document: which descriptor holds the lock, and what is in the file behind it.
pub record PidLaws (P : Processes) : Type 0 where
  pub lock_fd : P.State → Option ℕ
  pub pid_text : P.State → Bytes
  pub try_lock_held :
      (fd : ℕ) (s : P.State) → (P.try_lock fd s).0 ≡ true → lock_fd (P.try_lock fd s).1 ≡ some fd
  pub fork-lock_fd : (s : P.State) → (P.fork s).0 ≡ child → lock_fd (P.fork s).1 ≡ lock_fd s
  pub setsid-lock_fd : (s : P.State) → lock_fd (P.setsid s).1 ≡ lock_fd s
  pub open_null-lock_fd : (s : P.State) → lock_fd (P.open_null s).1 ≡ lock_fd s
  pub open_null_new :
      (s : P.State) (fd n : ℕ) → lock_fd s ≡ some fd → (P.open_null s).0 ≡ some n → n ≢ fd
  pub dup2-lock_fd :
      (s : P.State) (n k fd : ℕ) → lock_fd s ≡ some fd → k ≢ fd → lock_fd (P.dup2 n k s) ≡ some fd
  pub close-lock_fd :
      (s : P.State) (n fd : ℕ) → lock_fd s ≡ some fd → n ≢ fd → lock_fd (P.close n s) ≡ some fd
  pub chdir_root-lock_fd : (s : P.State) → lock_fd (P.chdir_root s) ≡ lock_fd s
  pub umask_none-lock_fd : (s : P.State) → lock_fd (P.umask_none s) ≡ lock_fd s
  pub truncate-lock_fd : (fd : ℕ) (s : P.State) → lock_fd (P.truncate fd s) ≡ lock_fd s
  pub rewind-lock_fd : (fd : ℕ) (s : P.State) → lock_fd (P.rewind fd s) ≡ lock_fd s
  pub write-lock_fd : (fd : ℕ) (bs : Bytes) (s : P.State) → lock_fd (P.write fd bs s).1 ≡ lock_fd s
  pub write_at_start :
      (fd : ℕ) (bs : Bytes) (s : P.State)
      → lock_fd s ≡ some fd
      → (P.write fd bs (P.rewind fd s)).0 ≡ some (length bs)
      → (rest : Bytes) × (pid_text (P.write fd bs (P.rewind fd s)).1 ≡ bs ++ rest)
  pub getpid-write : (fd : ℕ) (bs : Bytes) (s : P.State) → P.getpid (P.write fd bs s).1 ≡ P.getpid s

fork_kind : (f : Fork) → (f ≡ child) ⊎ (f ≡ parent) ⊎ (f ≡ no_fork)
fork_kind child = inl refl
fork_kind parent = inr (inl refl)
fork_kind no_fork = inr (inr refl)

module _ (P : Processes) (L : PidLaws P) where
  -- The descriptor is locked, and its file begins with the line of the process.
  abbrev pub IsLocked : ℕ → P.State → Type 0
  IsLocked fd s =
      (L.lock_fd s ≡ some fd)
      × ((rest : Bytes) × (L.pid_text s ≡ (decimal 10 (P.getpid s) ++ b'\n' ∷ []) ++ rest))

  abbrev Runs : ℕ → Daemonized × P.State → Type 0
  Runs fd r = r.0 ≡ daemon → IsLocked fd r.1

  write_pid-Runs : (fd : ℕ) (s : P.State) → L.lock_fd s ≡ some fd → Runs fd (write_pid P fd s)
  unfolding write_pid
  write_pid-Runs fd s held e =
      let t = P.truncate fd s in
      let s1 = P.rewind fd t in
      let text = decimal 10 (P.getpid s1) ++ b'\n' ∷ [] in
      let s2 = (P.write fd text s1).1 in
      let held' = L.truncate-lock_fd fd s ∙ held in
      elim (Option-cases (P.write fd text s1).0) [
        | inl w ↦ absurd (ground (arith, e, w))
        | inr (n, w) ↦ elim (Bool-cases (n == length text)) [
          | inr short ↦ absurd (ground (arith, e, w, short))
          | inl whole ↦
              let count : n ≡ length text = ground (arith, whole) in
              let (rest, shown) = L.write_at_start fd text t held' (w ∙ ap some count) in
              let pid : P.getpid s2 ≡ P.getpid s1 = L.getpid-write fd text s1 in
              let locked = L.write-lock_fd fd text s1 ∙ L.rewind-lock_fd fd t ∙ held' in
              rw (w, whole, pid, write_pid) (locked, (rest, shown))
        ]
      ]

  -- A descriptor above 2 survives the redirection of the standard streams.
  silence-lock_fd :
      (fd : ℕ) (s : P.State) → 2 < fd → L.lock_fd s ≡ some fd → L.lock_fd (silence P s) ≡ some fd
  unfolding silence
  silence-lock_fd fd s above held =
      let s1 = (P.open_null s).1 in
      let held1 = L.open_null-lock_fd s ∙ held in
      elim (Option-cases (P.open_null s).0) [
        | inl o ↦ rw (o, silence) held1
        | inr (n, o) ↦
            let a = L.dup2-lock_fd s1 n 0 fd held1 (omega arith) in
            let b = L.dup2-lock_fd (P.dup2 n 0 s1) n 1 fd a (omega arith) in
            let c = L.dup2-lock_fd (P.dup2 n 1 (P.dup2 n 0 s1)) n 2 fd b (omega arith) in
            let apart = L.open_null_new s fd n held o in
            let s2 = P.dup2 n 2 (P.dup2 n 1 (P.dup2 n 0 s1)) in
            elim (Bool-cases (ltb 2 n)) [
              | inl high ↦ rw (o, high, silence) (L.close-lock_fd s2 n fd c apart)
              | inr low ↦ rw (o, low, silence) c
            ]
      ]

  fork_again-Runs :
      (fd : ℕ) (s : P.State) → 2 < fd → L.lock_fd s ≡ some fd → Runs fd (fork_again P fd s)
  unfolding fork_again
  fork_again-Runs fd s above held e = elim (fork_kind (P.fork s).0) [
    | inl f ↦
        let s1 = (P.fork s).1 in
        let quiet = silence-lock_fd fd s1 above (L.fork-lock_fd s f ∙ held) in
        let t = P.chdir_root (silence P s1) in
        let held' = L.umask_none-lock_fd t ∙ L.chdir_root-lock_fd (silence P s1) ∙ quiet in
        rw (f, fork_again) (write_pid-Runs fd (P.umask_none t) held' (rw (f, fork_again) at e))
    | inr (inl f) ↦ absurd (ground (arith, e, f))
    | inr (inr f) ↦ absurd (ground (arith, e, f))
  ]

  detach-Runs : (fd : ℕ) (s : P.State) → 2 < fd → L.lock_fd s ≡ some fd → Runs fd (detach P fd s)
  unfolding detach
  detach-Runs fd s above held e = elim (fork_kind (P.fork s).0) [
    | inl f ↦
        let s1 = (P.fork s).1 in
        let held' = L.setsid-lock_fd s1 ∙ L.fork-lock_fd s f ∙ held in
        elim (Bool-cases (P.setsid s1).0) [
          | inl led ↦
              rw (f, led, detach)
                (fork_again-Runs fd (P.setsid s1).1 above held' (rw (f, led, detach) at e))
          | inr alone ↦ absurd (ground (arith, e, f, alone))
        ]
    | inr (inl f) ↦ absurd (ground (arith, e, f))
    | inr (inr f) ↦ absurd (ground (arith, e, f))
  ]

  -- A process that rss_daemonize returns 0 to, detached or not, holds the lock on the pid file,
  -- through the forks and the redirection of the standard streams, and the file begins with the
  -- line of its own pid, if the descriptor of the file is above 2.
  pub daemonize-IsLocked :
      (name : Bytes) (already_daemon : Bool) (s : P.State) (fd : ℕ)
      → let opened = P.open_pid (pid_path name) (mkdir_p P.mkdir (codes "/var/run/rss") s).1 in
        opened.0 ≡ some fd
        → 2 < fd
        → (daemonize P name already_daemon s).0 ≡ daemon
        → IsLocked fd (daemonize P name already_daemon s).1
  unfolding daemonize
  daemonize-IsLocked name already_daemon s fd o above e =
      let s1 = (P.open_pid (pid_path name) (mkdir_p P.mkdir (codes "/var/run/rss") s).1).1 in
      elim (Bool-cases (P.try_lock fd s1).0) [
        | inr busy ↦ absurd (ground (arith, e, o, busy))
        | inl free ↦
            let held = L.try_lock_held fd s1 free in
            let s2 = (P.try_lock fd s1).1 in
            elim (Bool-cases already_daemon) [
              | inl stays ↦
                  rw (o, free, stays, daemonize)
                    (write_pid-Runs fd s2 held (rw (o, free, stays, daemonize) at e))
              | inr goes ↦
                  rw (o, free, goes, daemonize)
                    (detach-Runs fd s2 above held (rw (o, free, goes, daemonize) at e))
            ]
      ]
